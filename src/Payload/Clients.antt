-- ===== src/Payload/Clients.antt =====
-- The clients of a pool, as a whole: the payloads that they hold, and the calls that they make. A
-- client copies or shares only a payload that it holds, or hands over bytes of its own.
use dds_pipe.Base.{ℕ, ◌+◌, true, false, none, some, List, [], ◌∷◌, length}
use dds_pipe.Payload.Defs.{
  elsewhere, Payload, empty_payload, Pool, Outcome, returned, ◌>>=◌, Reply, get_payload_sized,
  get_payload, release_payload,
}
use dds_pipe.Payload.Count.{get_elem?, remove_at}

pub data Call : Type 0 where
  reserves : (size : ℕ) → Call  -- get_payload(size, payload)
  adopts : (bytes : List ℕ) (spare : ℕ) → Call  -- get_payload of data that nobody in here owns
  shares : (i : ℕ) → Call  -- get_payload of a held payload, whose owner is this pool
  copies : (i : ℕ) → Call  -- the same, given with no owner
  releases : (i : ℕ) → Call

pub record Clients : Type 0 where
  pub pool : Pool
  pub held : List Payload

abbrev pub start : ℕ → Clients
start id = record {
  pool = record { id = id; heap = []; next = 0; reserve_count = 0; release_count = 0 };
  held = [];
}

abbrev pub foreign : List ℕ → ℕ → Payload
foreign bytes spare = record {
  memory = elsewhere bytes;
  length = length bytes;
  max_size = length bytes + spare;
  pos = 0;
}

-- What the clients hold after a reply: the new payload too, if the call returned true.
abbrev pub received : List Payload → Reply → Clients
received held (true, h, p) = record { pool = p; held = h ∷ held }
received held (false, h, p) = record { pool = p; held = held }

abbrev pub dropped : List Payload → Reply → Clients
dropped held (done, h, p) = record { pool = p; held = held }

-- A call for a payload that is not held does not happen.
unfoldable pub call : Clients → Call → Outcome Clients
call s (reserves size) = returned (received s.held (get_payload_sized s.pool size empty_payload))
call s (adopts bytes spare) = do
  r ← get_payload s.pool (foreign bytes spare) none empty_payload
  returned (received s.held r)
call s (shares i) = elim (get_elem? s.held i) [
  | none ↦ returned s
  | some h ↦
      get_payload s.pool h (some s.pool.id) empty_payload >>= λ r. returned (received s.held r)
]
call s (copies i) = elim (get_elem? s.held i) [
  | none ↦ returned s
  | some h ↦ get_payload s.pool h none empty_payload >>= λ r. returned (received s.held r)
]
call s (releases i) = elim (get_elem? s.held i) [
  | none ↦ returned s
  | some h ↦ release_payload s.pool h >>= λ r. returned (dropped (remove_at i s.held) r)
]

unfoldable pub run : Clients → List Call → Outcome Clients
unfolding call
run s [] = returned s
run s (c ∷ cs) = call s c >>= λ t. run t cs
