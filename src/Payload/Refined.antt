-- ===== src/Payload/Refined.antt =====
-- MapPayloadPool.cpp against FastPayloadPool.cpp (efficiency/payload), call by call.
use dds_pipe.Base.{
  ℕ, nat_key, ◌+◌, ◌-◌, ◌%◌, ◌^◌, ◌≡◌, refl, sym, subst, ap, ◌∙◌, true, false, Option, none, some,
  List, [], ◌==◌, leb, ltb, if◌then◌else◌, length, arith, ◌⊎◌, inl, inr, Option-cases, Bool-cases,
}
use dds_pipe.Map.{Map, lookup, insert, erase, lookup-insert, lookup-erase}
use dds_pipe.Payload.Defs
use dds_pipe.Payload.Defs.{
  Memory, null, block, elsewhere, Block, Payload, Pool, empty_payload, Outcome, returned, thrown,
  fault, ◌>>=◌, take, Reply, deref, read, write,
}
use dds_pipe.Payload.Mapped
use dds_pipe.Payload.Mapped.{
  Chunk, Store, MapPayloadPool, MapReply, SerializedPayload, find_reserved, read_store, write_store,
  is_null,
}

abbrev chunk_of : Option Block → Option Chunk
chunk_of none = none
chunk_of (some b) = some (record { size = b.size; content = b.content })

abbrev refs_of : Option Block → Option ℕ
refs_of none = none
refs_of (some b) = some b.refs

-- The same blocks, with the counts beside them.
unfoldable pub Represents : Map ℕ Chunk → Map ℕ ℕ → Map ℕ Block → Type 0
Represents chunks counts heap =
    (a : ℕ)
    → (lookup a chunks ≡ chunk_of (lookup a heap)) × (lookup a counts ≡ refs_of (lookup a heap))

pub record Refines (m : MapPayloadPool) (p : Pool) : Type 0 where
  pub same_id : m.id ≡ p.id
  pub same_next : m.store.next ≡ p.next
  pub same_reserves : m.reserve_count ≡ p.reserve_count
  pub same_releases : m.release_count ≡ p.release_count
  pub blocks : Represents m.store.chunks m.reserved_payloads p.heap

-- The same result, where FastPayloadPool has a defined one.
unfoldable pub IsSame : Outcome Reply → Outcome MapReply → Type 0
IsSame fault o = Unit
IsSame thrown thrown = Unit
IsSame thrown (returned r) = ⊥
IsSame thrown fault = ⊥
IsSame (returned r) thrown = ⊥
IsSame (returned r) fault = ⊥
IsSame (returned (done, t, p)) (returned (done', t', m)) = (done' ≡ done) × (t' ≡ t) × Refines m p

insert-Represents :
    (a : ℕ) (b : Block) (c : Map ℕ Chunk) (n : Map ℕ ℕ) (h : Map ℕ Block)
    → Represents c n h
    → Represents
        (insert a (record { size = b.size; content = b.content }) c)
        (insert a b.refs n)
        (insert a b h)
unfolding Represents
insert-Represents a b c n h r k =
    let chunk : Chunk = record { size = b.size; content = b.content } in
    ground
      (arith, r k, lookup-insert k a chunk c, lookup-insert k a b.refs n, lookup-insert k a b h)

recount-Represents :
    (a count : ℕ) (b : Block) (c : Map ℕ Chunk) (n : Map ℕ ℕ) (h : Map ℕ Block)
    → Represents c n h
    → lookup a h ≡ some b
    → Represents c (insert a count n) (insert a (record b { refs = count }) h)
unfolding Represents
recount-Represents a count b c n h r there k =
    let counted : Block = record b { refs = count } in
    ground (arith, there, r k, lookup-insert k a count n, lookup-insert k a counted h)

rewrite-Represents :
    (a : ℕ) (bytes : List ℕ) (b : Block) (c : Map ℕ Chunk) (n : Map ℕ ℕ) (h : Map ℕ Block)
    → Represents c n h
    → lookup a h ≡ some b
    → Represents
        (insert a (record { size = b.size; content = bytes }) c)
        n
        (insert a (record b { content = bytes }) h)
unfolding Represents
rewrite-Represents a bytes b c n h r there k =
    let written : Block = record b { content = bytes } in
    let chunk : Chunk = record { size = b.size; content = bytes } in
    ground (arith, there, r k, lookup-insert k a chunk c, lookup-insert k a written h)

erase-Represents :
    (a : ℕ) (c : Map ℕ Chunk) (n : Map ℕ ℕ) (h : Map ℕ Block)
    → Represents c n h
    → Represents (erase a c) (erase a n) (erase a h)
unfolding Represents
erase-Represents a c n h r k =
    ground (arith, r k, lookup-erase k a c, lookup-erase k a n, lookup-erase k a h)

-- The block behind a payload's data, in both pools.
deref-cases :
    (m : MapPayloadPool) (p : Pool) (k : Memory)
    → Refines m p
    → (deref p k ≡ fault)
      ⊎ ((a : ℕ) × (b : Block) × (k ≡ block a)
          × (lookup a p.heap ≡ some b)
          × (deref p k ≡ returned (a, b))
          × (find_reserved m k ≡ some (a, b.refs))
          × (lookup a m.store.chunks ≡ some (record { size = b.size; content = b.content })))
unfolding deref find_reserved Represents
deref-cases m p null s = inl refl
deref-cases m p (elsewhere bytes) s = inl refl
deref-cases m p (block a) s = elim (Option-cases (lookup a p.heap)) [
  | inl gone ↦ inl (simp (deref, gone) refl)
  | inr (b, there) ↦
      let seen = s.blocks a in
      let counted : lookup a m.reserved_payloads ≡ some b.refs = seen.1 ∙ ap refs_of there in
      inr (
        a,
        b,
        refl,
        there,
        simp (deref, there) refl,
        simp (find_reserved, counted) refl,
        seen.0 ∙ ap chunk_of there,
      )
]

pub share-IsSame :
    (x : SerializedPayload) (m : MapPayloadPool) (p : Pool) (src target : Payload)
    → Refines m p
    → IsSame (Defs.share_payload p src target) (Mapped.share_payload x m src target)
unfolding IsSame Defs.share_payload Mapped.share_payload
share-IsSame x m p src target s = elim (deref-cases m p src.memory s) [
  | inl gone ↦ simp (Defs.share_payload, gone) tt
  | inr (a, b, at, there, found, counted, chunk) ↦
      simp (Defs.share_payload, Mapped.share_payload, found, counted)
        (
          refl,
          refl,
          record {
            same_id = s.same_id;
            same_next = s.same_next;
            same_reserves = s.same_reserves;
            same_releases = s.same_releases;
            blocks =
                recount-Represents a ((b.refs + 1) % 2 ^ 32) b m.store.chunks m.reserved_payloads
                  p.heap s.blocks there;
          },
        )
]

pub read-cases :
    (m : MapPayloadPool) (p : Pool) (k : Memory) (n : ℕ)
    → Refines m p
    → (read p k n ≡ fault)
      ⊎ ((bytes : List ℕ) × (read p k n ≡ returned bytes)
          × (read_store m.store k n ≡ returned bytes))
unfolding read read_store Represents
read-cases m p null n s = elim (Bool-cases (n == 0)) [
  | inl none_read ↦ inr ([], simp none_read refl, simp none_read refl)
  | inr some_read ↦ inl (simp some_read refl)
]
read-cases m p (elsewhere bytes) n s = elim (Bool-cases (leb n (length bytes))) [
  | inl fits ↦ inr (take n bytes, simp fits refl, simp fits refl)
  | inr long ↦ inl (simp long refl)
]
read-cases m p (block a) n s = elim (Option-cases (lookup a p.heap)) [
  | inl gone ↦ inl (simp (read, gone) refl)
  | inr (b, there) ↦
      let chunk = (s.blocks a).0 ∙ ap chunk_of there in
      elim (Bool-cases (leb n (length b.content))) [
        | inl fits ↦
            inr
              (take n b.content, simp (read, there, fits) refl, simp (read_store, chunk, fits) refl)
        | inr long ↦ inl (simp (read, there, long) refl)
      ]
]

pub write-cases :
    (m : MapPayloadPool) (p : Pool) (k : Memory) (bytes : List ℕ)
    → Refines m p
    → (write p k bytes ≡ fault)
      ⊎ ((q : Pool) × (s : Store) × (write p k bytes ≡ returned q)
          × (write_store m.store k bytes ≡ returned s)
          × Refines (record m { store = s }) q)
unfolding write write_store deref Represents
write-cases m p null bytes s = inl refl
write-cases m p (elsewhere old) bytes s = inl refl
write-cases m p (block a) bytes s = elim (Option-cases (lookup a p.heap)) [
  | inl gone ↦ inl (simp (write, deref, gone) refl)
  | inr (b, there) ↦
      let chunk = (s.blocks a).0 ∙ ap chunk_of there in
      elim (Bool-cases (leb (length bytes) b.size)) [
        | inl fits ↦ inr (
          record p { heap = insert a (record b { content = bytes }) p.heap },
          record m.store {
            chunks = insert a (record { size = b.size; content = bytes }) m.store.chunks;
          },
          simp (write, deref, there, fits) refl,
          simp (write_store, chunk, fits) refl,
          record {
            same_id = s.same_id;
            same_next = s.same_next;
            same_reserves = s.same_reserves;
            same_releases = s.same_releases;
            blocks =
                rewrite-Represents a bytes b m.store.chunks m.reserved_payloads p.heap s.blocks
                  there;
          },
        )
        | inr long ↦ inl (simp (write, deref, there, long) refl)
      ]
]

-- A payload without data, as `get_payload` is called with.
pub record IsFresh (p : Payload) : Type 0 where
  pub no_data : p.memory ≡ null
  pub no_size : p.max_size ≡ 0

pub sized-IsSame :
    (x : SerializedPayload) (m : MapPayloadPool) (p : Pool) (size : ℕ) (target : Payload)
    → Refines m p
    → IsFresh target
    → IsSame
        (returned (Defs.get_payload_sized p size target))
        (returned (Mapped.get_payload_sized x m size target))
unfolding IsSame Defs.get_payload_sized Mapped.get_payload_sized Defs.add_reserved_payload
sized-IsSame x m p size target s fresh = elim (Bool-cases (size == 0)) [
  | inl empty_size ↦
      simp (Defs.get_payload_sized, Mapped.get_payload_sized, empty_size) (refl, refl, s)
  | inr some_size ↦
      simp
        (
          Defs.get_payload_sized,
          Mapped.get_payload_sized,
          some_size,
          x.reserve-null size target m.store (ground (arith, some_size)) fresh.no_data
              fresh.no_size,
        )
        (
          refl,
          ap (λ n. record target { memory = block n; max_size = size }) s.same_next,
          record {
            same_id = s.same_id;
            same_next = ap (λ n. n + 1) s.same_next;
            same_reserves = ap (λ n. (n + 1) % 2 ^ 64) s.same_reserves;
            same_releases = s.same_releases;
            blocks =
                subst
                  (λ n.
                    Represents (insert n (record { size = size; content = [] }) m.store.chunks)
                      (insert n 1 m.reserved_payloads)
                      (insert p.next (record { refs = 1; size = size; content = [] }) p.heap))
                  (sym s.same_next)
                  (insert-Represents p.next (record { refs = 1; size = size; content = [] })
                    m.store.chunks m.reserved_payloads p.heap s.blocks);
          },
        )
]

last-IsSame :
    (x : SerializedPayload) (m : MapPayloadPool) (p : Pool) (payload : Payload) (a refs : ℕ)
    (b : Block)
    → payload.memory ≡ block a
    → lookup a p.heap ≡ some b
    → Refines m p
    → IsSame
        (Defs.release_block (record p { heap = insert a (record b { refs = refs }) p.heap }) payload
          >>= (λ r. returned (true, r.0, r.1)))
        (Mapped.release x
            (record m { reserved_payloads = insert a refs m.reserved_payloads })
            payload
          >>= (λ (r : MapReply).
              if r.0
              then returned (
                true,
                empty_payload,
                record r.2 { reserved_payloads = erase a r.2.reserved_payloads },
              )
              else returned r))
unfolding IsSame Defs.release_block Mapped.release
last-IsSame x m p payload a refs b at there s =
    elim (Bool-cases (ltb p.reserve_count ((p.release_count + 1) % 2 ^ 64))) [
      | inl over ↦
          let over_too : ltb m.reserve_count ((m.release_count + 1) % 2 ^ 64) ≡ true =
            rw (s.same_reserves, s.same_releases) over in
          simp
            (
              Defs.release_block,
              Mapped.release,
              at,
              x.empty-block a payload m.store at,
              over,
              over_too,
            )
            tt
      | inr fine ↦
          let fine_too : ltb m.reserve_count ((m.release_count + 1) % 2 ^ 64) ≡ false =
            rw (s.same_reserves, s.same_releases) fine in
          simp
            (
              Defs.release_block,
              Mapped.release,
              at,
              x.empty-block a payload m.store at,
              fine,
              fine_too,
            )
            (
              refl,
              refl,
              record {
                same_id = s.same_id;
                same_next = s.same_next;
                same_reserves = s.same_reserves;
                same_releases = ap (λ n. (n + 1) % 2 ^ 64) s.same_releases;
                blocks =
                    erase-Represents a m.store.chunks (insert a refs m.reserved_payloads)
                      (insert a (record b { refs = refs }) p.heap)
                      (recount-Represents a refs b m.store.chunks m.reserved_payloads p.heap
                        s.blocks there);
              },
            )
    ]

pub release-IsSame :
    (x : SerializedPayload) (m : MapPayloadPool) (p : Pool) (payload : Payload)
    → Refines m p
    → IsSame (Defs.release_payload p payload) (Mapped.release_payload x m payload)
unfolding IsSame Defs.release_payload Mapped.release_payload
release-IsSame x m p payload s = elim (deref-cases m p payload.memory s) [
  | inl gone ↦ simp (Defs.release_payload, gone) tt
  | inr (a, b, at, there, found, counted, chunk) ↦
      let refs : ℕ = (b.refs + 2 ^ 32 - 1) % 2 ^ 32 in
      elim (Bool-cases (refs == 0)) [
        | inr shared ↦
            simp (Defs.release_payload, Mapped.release_payload, found, counted, shared)
              (
                refl,
                refl,
                record {
                  same_id = s.same_id;
                  same_next = s.same_next;
                  same_reserves = s.same_reserves;
                  same_releases = s.same_releases;
                  blocks =
                      recount-Represents a refs b m.store.chunks m.reserved_payloads p.heap s.blocks
                        there;
                },
              )
        | inl last ↦
            simp (Defs.release_payload, Mapped.release_payload, found, counted, last)
              (last-IsSame x m p payload a refs b at there s)
      ]
]
