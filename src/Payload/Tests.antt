-- ===== src/Payload/Tests.antt =====
-- Runs of a pool: one payload is reserved and released, and one is shared by two holders.
use dds_pipe.Base.{
  ℕ, ◌+◌, ◌-◌, ◌<◌, ◌≡◌, ◌↔◌, ◌^◌, refl, Bool, true, false, Option, none, some, List, [], ◌∷◌,
  arith, length, nat_key,
}
use dds_pipe.Map.{lookup, insert, erase}
use dds_pipe.Payload.Defs.{
  Payload, Pool, Outcome, returned, thrown, empty_payload, is_clean, read, release_payload,
  get_payload_sized, get_payload, reserve, release_block, block, elsewhere, Memory, null, Block,
}
use dds_pipe.Payload.Clients.{Call, Clients, start, run, adopts, shares, releases, foreign}
use dds_pipe.Payload.Count.{references, Fits}
use dds_pipe.Payload.Invariant.{Inv}
use dds_pipe.Payload.Safety.{history_is_safe, clean_iff_released}
use dds_pipe.Payload.Sharing.{release_keeps_others}
use dds_pipe.Payload.CacheChange.{CacheChange, get_change, release_change, release_change_once}
use dds_pipe.Payload.Race.{freed_by_each}
use dds_pipe.Payload.Race as Race
use dds_pipe.Payload.Mapped
use dds_pipe.Payload.Mapped.{SerializedPayload, Chunk, MapPayloadPool}
use dds_pipe.Payload.Refined.{Refines, Represents, IsSame}
use dds_pipe.Payload.Alike.{map_pool-IsSame}
use dds_pipe.Payload.Defs

abbrev calls : List Call
calls = adopts (7 ∷ 8 ∷ []) 1 ∷ shares 0 ∷ releases 1 ∷ releases 0 ∷ []

history_is_safe_example : (s : Clients) × (run (start 5) calls ≡ returned s) × Inv 4 s.pool s.held
history_is_safe_example = history_is_safe 5 calls (omega arith)

abbrev no_payloads : List Payload
no_payloads = []

abbrev emptied : Pool
emptied = record { id = 5; heap = []; next = 1; reserve_count = 1; release_count = 1 }

clean_iff_released_example : (is_clean emptied ≡ true) ↔ (no_payloads ≡ [])
unfolding run get_payload lookup insert dds_pipe.Base.ℕ_discrete dds_pipe.Payload.Defs.take
    release_payload erase
clean_iff_released_example =
    clean_iff_released 5 calls (record { pool = emptied; held = [] }) (omega arith) refl

freed_by_each_example :
    (s : Race.State) × Race.Reach (Race.start 2) s
    × (s.frees ≡ 2)
    × (s.before + s.between + s.freeing ≡ 0)
freed_by_each_example = freed_by_each 2 (omega arith)

-- Two payloads over one block
abbrev shared : Pool
shared = record {
  id = 5;
  heap = (0, record { refs = 2; size = 3; content = 7 ∷ 8 ∷ [] }) ∷ [];
  next = 1;
  reserve_count = 1;
  release_count = 0;
}

abbrev holder : Payload
holder = record { memory = block 0; length = 2; max_size = 3; pos = 0 }

holder-Fits : Fits shared.heap holder
unfolding lookup dds_pipe.Base.ℕ_discrete
holder-Fits = record {
  address = 0;
  here = record { refs = 2; size = 3; content = 7 ∷ 8 ∷ [] };
  points = refl;
  found = refl;
  written = omega arith;
  sized = (omega arith, refl);
}

shared-Inv : Inv 2 shared (holder ∷ holder ∷ [])
unfolding lookup references
shared-Inv = record {
  counted = λ a. ground arith;
  positive = λ a b e. ground (arith, e);
  fresh = λ a b e. ground (arith, e);
  unique = (refl, tt);
  balance = refl;
  few = omega arith;
  fits = (holder-Fits, (holder-Fits, tt));
}

release_keeps_others_example :
    (q : Pool) × (release_payload shared holder ≡ returned (true, empty_payload, q))
    × (read q (block 0) 2 ≡ read shared (block 0) 2)
release_keeps_others_example =
    release_keeps_others 2 shared (holder ∷ holder ∷ []) shared-Inv (omega arith) 0 0 holder holder
      refl refl

abbrev change : CacheChange
change = record { serialized_payload = empty_payload; payload_owner = none }

abbrev source : Payload
source = foreign (7 ∷ []) 0

abbrev before : Pool
before = (start 5).pool

abbrev filled : CacheChange
filled = record {
  serialized_payload = record { memory = block 0; length = 1; max_size = 1; pos = 0 };
  payload_owner = some 5;
}

abbrev one_block : Pool
one_block = record {
  id = 5;
  heap = (0, record { refs = 1; size = 1; content = 7 ∷ [] }) ∷ [];
  next = 1;
  reserve_count = 1;
  release_count = 0;
}

release_change_once_applied :
    (one_block.id ≡ before.id) × ((x : Pool) → release_change x change ≡ thrown)
unfolding get_change release_change get_payload lookup insert dds_pipe.Base.ℕ_discrete
    dds_pipe.Payload.Defs.take release_payload erase
release_change_once_applied =
    release_change_once before one_block one_block emptied source none change filled change refl
      refl

-- Payloads that take a new block whenever they are to grow.
abbrev growing : SerializedPayload
growing = record {
  reserve = λ size p s. (
    record p { memory = block s.next; max_size = size },
    record {
      chunks = insert s.next (record { size = size; content = [] }) s.chunks;
      next = s.next + 1;
    },
  );
  empty = λ p s. (
    empty_payload,
    elim p.memory [
      | null ↦ s
      | elsewhere bytes ↦ s
      | block a ↦ record s { chunks = erase a s.chunks }
    ],
  );
  reserve-null = λ size p s positive no_data no_size. refl;
  empty-block = λ a p s at. simp at refl;
}

-- A block with two references, in both pools.
abbrev mapped : MapPayloadPool
mapped = record {
  id = 5;
  store = record { chunks = (0, record { size = 2; content = 7 ∷ 8 ∷ [] }) ∷ []; next = 1 };
  reserved_payloads = (0, 2) ∷ [];
  reserve_count = 1;
  release_count = 0;
}

abbrev fast : Pool
fast = record {
  id = 5;
  heap = (0, record { refs = 2; size = 2; content = 7 ∷ 8 ∷ [] }) ∷ [];
  next = 1;
  reserve_count = 1;
  release_count = 0;
}

mapped-Refines : Refines mapped fast
unfolding Represents lookup
mapped-Refines = record {
  same_id = refl;
  same_next = refl;
  same_reserves = refl;
  same_releases = refl;
  blocks = λ a. ground arith;
}

abbrev held : Payload
held = record { memory = block 0; length = 2; max_size = 2; pos = 0 }

map_pool-IsSame_example :
    IsSame
      (returned (get_payload_sized fast 4 empty_payload))
      (returned (Mapped.get_payload_sized growing mapped 4 empty_payload))
    × IsSame
        (get_payload fast held (some 6) empty_payload)
        (Mapped.get_payload growing mapped held (some 6) empty_payload)
    × IsSame (release_payload fast held) (Mapped.release_payload growing mapped held)
map_pool-IsSame_example =
    map_pool-IsSame growing mapped fast 4 held empty_payload (some 6) mapped-Refines
      (record { no_data = refl; no_size = refl })
