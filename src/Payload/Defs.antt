-- ===== src/Payload/Defs.antt =====
-- FastPayloadPool.cpp over an explicit heap, with the counters and the cache-change layer of
-- PayloadPool.cpp. A block is what one `malloc` of `size + sizeof(MetaInfoType)` bytes gives: the
-- reference count in front of the data (an `unsigned int`, which wraps), and the data's `size`
-- bytes, of which `content` has been written. `malloc` succeeds and gives a new address.
use dds_pipe.Map.{Map, lookup, insert, erase}
use dds_pipe.Base.{
  ℕ, zero, suc, nat_key, ◌+◌, ◌-◌, ◌%◌, ◌^◌, Bool, true, false, Option, none, some, List, [], ◌∷◌,
  ◌==◌, leb, ltb, if◌then◌else◌, length,
}

pub record Block : Type 0 where
  pub refs : ℕ
  pub size : ℕ
  pub content : List ℕ

-- `data` of a payload: null, the data of a block of this pool, or memory of another owner, with
-- the bytes that it holds.
pub data Memory : Type 0 where
  null : Memory
  block : ℕ → Memory
  elsewhere : List ℕ → Memory

pub record Payload : Type 0 where
  pub memory : Memory
  pub length : ℕ
  pub max_size : ℕ
  pub pos : ℕ

abbrev pub empty_payload : Payload
empty_payload = record { memory = null; length = 0; max_size = 0; pos = 0 }

pub record Pool : Type 0 where
  pub id : ℕ
  pub heap : Map ℕ Block
  pub next : ℕ
  pub reserve_count : ℕ
  pub release_count : ℕ

-- How a call ends: it returns, it throws `InconsistencyException`, or it reads or writes memory
-- that is not there for it, which C++ leaves undefined.
pub data Outcome (A : Type 0) : Type 0 where
  returned : A → Outcome A
  thrown : Outcome A
  fault : Outcome A

infixl 5 ◌>>=◌
abbrev pub ◌>>=◌ : {A B : Type 0} → Outcome A → (A → Outcome B) → Outcome B
returned a >>= f = f a
thrown >>= f = thrown
fault >>= f = fault

-- A call's Boolean result, its payload and the pool.
abbrev pub Reply : Type 0
Reply = Bool × Payload × Pool

unfoldable pub take {ℓ} : {A : Type ℓ} → ℕ → List A → List A
take n [] = []
take n (x ∷ xs) = elim n [ zero ↦ [] | suc k ↦ x ∷ take k xs ]

unfoldable pub is_clean : Pool → Bool
is_clean p = p.reserve_count == p.release_count

-- `++reserve_count_`, a `uint64_t`.
unfoldable pub add_reserved_payload : Pool → Pool
add_reserved_payload p = record p { reserve_count = (p.reserve_count + 1) % 2 ^ 64 }

unfoldable pub add_release_payload : Pool → Outcome Pool
add_release_payload p =
    let q : Pool = record p { release_count = (p.release_count + 1) % 2 ^ 64 } in
    if ltb q.reserve_count q.release_count then thrown else returned q

-- FastPayloadPool::reserve_
unfoldable pub reserve : Pool → ℕ → Payload → Reply
unfolding add_reserved_payload
reserve p size payload = if size == 0 then (false, payload, p) else (
  true,
  record payload { memory = block p.next; max_size = size },
  add_reserved_payload (record p {
    heap = insert p.next (record { refs = 1; size = size; content = [] }) p.heap;
    next = p.next + 1;
  }),
)

-- FastPayloadPool::release_
unfoldable pub release_block : Pool → Payload → Outcome (Payload × Pool)
unfolding add_release_payload
release_block p payload = elim payload.memory [
  | block a ↦ do
    q ← add_release_payload (record p { heap = erase a p.heap })
    returned (empty_payload, q)
  | _ ↦ fault
]

-- The block behind a payload's data.
unfoldable pub deref : Pool → Memory → Outcome (ℕ × Block)
deref p (block a) = elim (lookup a p.heap) [ none ↦ fault | some b ↦ returned (a, b) ]
deref p _ = fault

-- The `n` bytes that `memcpy` reads.
unfoldable pub read : Pool → Memory → ℕ → Outcome (List ℕ)
read p null n = if n == 0 then returned [] else fault
read p (elsewhere bytes) n = if leb n (length bytes) then returned (take n bytes) else fault
read p (block a) n = elim (lookup a p.heap) [
  | none ↦ fault
  | some b ↦ if leb n (length b.content) then returned (take n b.content) else fault
]

-- `memcpy` to the start of a block's data.
unfoldable pub write : Pool → Memory → List ℕ → Outcome Pool
unfolding deref
write p m bytes = do
  (a, b) ← deref p m
  if leb (length bytes) b.size
      then returned (record p { heap = insert a (record b { content = bytes }) p.heap })
      else fault

-- FastPayloadPool::get_payload(uint32_t, Payload&)
unfoldable pub get_payload_sized : Pool → ℕ → Payload → Reply
unfolding reserve
get_payload_sized p size payload = reserve p size payload

-- The branch of `get_payload` for data of another owner: a new block and a copy.
unfoldable pub copy_payload : Pool → Payload → Payload → Outcome Reply
unfolding get_payload_sized read write
copy_payload p src target =
    let (ok, t, q) = get_payload_sized p src.max_size target in
    if ok
    then (do
      bytes ← read q src.memory src.length
      r ← write q t.memory bytes
      returned (true, record t { length = src.length }, r))
    else returned (false, t, q)

-- The branch for data of this pool: one reference more to the same block.
unfoldable pub share_payload : Pool → Payload → Payload → Outcome Reply
unfolding deref
share_payload p src target = do
  (a, b) ← deref p src.memory
  returned (
    true,
    record target { memory = src.memory; length = src.length; max_size = src.max_size },
    record p { heap = insert a (record b { refs = (b.refs + 1) % 2 ^ 32 }) p.heap },
  )

abbrev pub is_owner : Pool → Option ℕ → Bool
is_owner p none = false
is_owner p (some i) = i == p.id

-- FastPayloadPool::get_payload(const Payload&, IPayloadPool*&, Payload&)
unfoldable pub get_payload : Pool → Payload → Option ℕ → Payload → Outcome Reply
unfolding copy_payload share_payload
get_payload p src data_owner target =
    if is_owner p data_owner then share_payload p src target else copy_payload p src target

-- FastPayloadPool::release_payload(Payload&)
unfoldable pub release_payload : Pool → Payload → Outcome Reply
unfolding deref release_block
release_payload p payload = do
  (a, b) ← deref p payload.memory
  let refs : ℕ = (b.refs + 2 ^ 32 - 1) % 2 ^ 32
  let q : Pool = record p { heap = insert a (record b { refs = refs }) p.heap }
  if refs == 0
      then (do (e, r) ← release_block q payload; returned (true, e, r))
      else returned (true, empty_payload, q)
