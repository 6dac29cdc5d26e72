-- ===== src/Payload/Mapped.antt =====
-- MapPayloadPool (efficiency/payload/MapPayloadPool.cpp) with `reserve_` and `release_` of PayloadPool.cpp: the
-- references to a block are counted in a map beside the memory. `reserve` and `empty` of Fast DDS's
-- SerializedPayload_t, which allocate and free, are parameters.
use dds_pipe.Base.{
  ℕ, nat_key, ◌+◌, ◌-◌, ◌%◌, ◌^◌, ◌≡◌, ◌<◌, Bool, true, false, Option, none, some, List, [], ◌==◌,
  leb, ltb, if◌then◌else◌, length,
}
use dds_pipe.Map.{Map, lookup, insert, erase}
use dds_pipe.Payload.Defs.{
  Memory, null, block, elsewhere, Payload, empty_payload, Outcome, returned, thrown, fault, ◌>>=◌,
  take,
}

pub record Chunk : Type 0 where
  pub size : ℕ
  pub content : List ℕ

pub record Store : Type 0 where
  pub chunks : Map ℕ Chunk
  pub next : ℕ

pub record MapPayloadPool : Type 0 where
  pub id : ℕ
  pub store : Store
  pub reserved_payloads : Map ℕ ℕ
  pub reserve_count : ℕ
  pub release_count : ℕ

abbrev pub MapReply : Type 0
MapReply = Bool × Payload × MapPayloadPool

-- What is documented of a payload without data, and of one that has the data of a block.
pub record SerializedPayload : Type 0 where
  pub reserve : ℕ → Payload → Store → Payload × Store
  pub empty : Payload → Store → Payload × Store
  pub reserve-null :
      (size : ℕ) (p : Payload) (s : Store)
      → 0 < size
      → p.memory ≡ null
      → p.max_size ≡ 0
      → reserve size p s ≡ (
        record p { memory = block s.next; max_size = size },
        record {
          chunks = insert s.next (record { size = size; content = [] }) s.chunks;
          next = s.next + 1;
        },
      )
  pub empty-block :
      (a : ℕ) (p : Payload) (s : Store)
      → p.memory ≡ block a
      → empty p s ≡ (empty_payload, record s { chunks = erase a s.chunks })

abbrev pub is_null : Memory → Bool
is_null null = true
is_null (block a) = false
is_null (elsewhere bytes) = false

-- The block of a payload's data in `reserved_payloads_`, with its count.
unfoldable pub find_reserved : MapPayloadPool → Memory → Option (ℕ × ℕ)
find_reserved m (block a) = elim (lookup a m.reserved_payloads) [
  | none ↦ none
  | some n ↦ some (a, n)
]
find_reserved m null = none
find_reserved m (elsewhere bytes) = none

-- What `memcpy` reads and writes.
unfoldable pub read_store : Store → Memory → ℕ → Outcome (List ℕ)
read_store s null n = if n == 0 then returned [] else fault
read_store s (elsewhere bytes) n = if leb n (length bytes) then returned (take n bytes) else fault
read_store s (block a) n = elim (lookup a s.chunks) [
  | none ↦ fault
  | some c ↦ if leb n (length c.content) then returned (take n c.content) else fault
]

unfoldable pub write_store : Store → Memory → List ℕ → Outcome Store
write_store s null bytes = fault
write_store s (elsewhere old) bytes = fault
write_store s (block a) bytes = elim (lookup a s.chunks) [
  | none ↦ fault
  | some c ↦
      if leb (length bytes) c.size
      then returned (record s { chunks = insert a (record c { content = bytes }) s.chunks })
      else fault
]

unfoldable pub add_release_payload : MapPayloadPool → Outcome MapPayloadPool
add_release_payload m =
    let q : MapPayloadPool = record m { release_count = (m.release_count + 1) % 2 ^ 64 } in
    if ltb q.reserve_count q.release_count then thrown else returned q

module _ (x : SerializedPayload) where
  -- PayloadPool::reserve_
  unfoldable pub reserve : MapPayloadPool → ℕ → Payload → MapReply
  reserve m size payload =
      if size == 0
      then (false, payload, m)
      else (let (p, s) = x.reserve size payload m.store in
          (true, p, record m { store = s; reserve_count = (m.reserve_count + 1) % 2 ^ 64 }))

  -- PayloadPool::release_
  unfoldable pub release : MapPayloadPool → Payload → Outcome MapReply
  unfolding add_release_payload
  release m payload =
      let (p, s) = x.empty payload m.store in
      let left : MapPayloadPool = record m { store = s } in
      if is_null p.memory
      then (add_release_payload left >>= (λ q. returned (true, p, q)))
      else returned (false, p, left)

  -- The key of `reserved_payloads_[payload.data] = 1`
  unfoldable pub count_one : Memory → MapPayloadPool → MapPayloadPool
  count_one (block a) m = record m { reserved_payloads = insert a 1 m.reserved_payloads }
  count_one null m = m
  count_one (elsewhere bytes) m = m

  -- MapPayloadPool::get_payload(uint32_t, Payload&)
  unfoldable pub get_payload_sized : MapPayloadPool → ℕ → Payload → MapReply
  unfolding reserve count_one
  get_payload_sized m size payload =
      let (done, p, q) = reserve m size payload in
      if done then (true, record p { max_size = size }, count_one p.memory q) else (false, p, q)

  unfoldable pub copy_payload : MapPayloadPool → Payload → Payload → Outcome MapReply
  unfolding get_payload_sized read_store write_store
  copy_payload m src target =
      let (done, t, q) = get_payload_sized m src.max_size target in
      if done
      then (do
        bytes ← read_store q.store src.memory src.length
        s ← write_store q.store t.memory bytes
        returned (true, record t { length = src.length }, record q { store = s }))
      else returned (false, t, q)

  unfoldable pub share_payload : MapPayloadPool → Payload → Payload → Outcome MapReply
  unfolding find_reserved
  share_payload m src target = elim (find_reserved m src.memory) [
    | none ↦ thrown
    | some (a, n) ↦ returned (
      true,
      record target { memory = src.memory; length = src.length; max_size = src.max_size },
      record m { reserved_payloads = insert a ((n + 1) % 2 ^ 32) m.reserved_payloads },
    )
  ]

  abbrev pub is_owner : MapPayloadPool → Option ℕ → Bool
  is_owner m none = false
  is_owner m (some i) = i == m.id

  -- MapPayloadPool::get_payload(const Payload&, IPayloadPool*&, Payload&)
  unfoldable pub get_payload : MapPayloadPool → Payload → Option ℕ → Payload → Outcome MapReply
  unfolding copy_payload share_payload
  get_payload m src data_owner target =
      if is_owner m data_owner then share_payload m src target else copy_payload m src target

  -- MapPayloadPool::release_payload(Payload&)
  unfoldable pub release_payload : MapPayloadPool → Payload → Outcome MapReply
  unfolding find_reserved release
  release_payload m payload = elim (find_reserved m payload.memory) [
    | none ↦ thrown
    | some (a, n) ↦
        let refs : ℕ = (n + 2 ^ 32 - 1) % 2 ^ 32 in
        let counted : MapPayloadPool = record m {
          reserved_payloads = insert a refs m.reserved_payloads;
        } in
        if refs == 0
        then (release counted payload >>= (λ (r : MapReply).
            if r.0
            then returned (
              true,
              empty_payload,
              record r.2 { reserved_payloads = erase a r.2.reserved_payloads },
            )
            else returned r))
        else returned (true, empty_payload, counted)
  ]
