-- ===== src/Payload/Calls.antt =====
-- Each call of a client of a pool, with the invariant of the pool and the held payloads.
use dds_pipe.Map.{Map, lookup, insert, erase, lookup-insert, insert-insert}
use dds_pipe.Base.{
  ℕ, zero, suc, nat_key, ◌+◌, ◌-◌, ◌%◌, ◌^◌, ◌≡◌, ◌≢◌, ◌≤◌, ◌<◌, refl, true, false, none, some,
  List, [], ◌∷◌, length, arith, ◌==◌, ltb, ap, Bool-cases, inl, inr, Option-cases,
}
use dds_pipe.Payload.Defs.{
  Block, block, elsewhere, Payload, empty_payload, Pool, Outcome, returned, thrown, fault, take,
  reserve, read, write, get_payload_sized, copy_payload, share_payload, get_payload,
  release_payload, ◌>>=◌, add_reserved_payload, add_release_payload, release_block, deref,
}
use dds_pipe.Payload.Count.{Fits, get_elem?, remove_at}
use dds_pipe.Payload.Invariant.{Inv, Inv-fresh}
use dds_pipe.Payload.References.{new_block, more_references, fewer_references, last_reference}
use dds_pipe.Payload.Clients.{
  Call, Clients, foreign, received, dropped, call, reserves, adopts, shares, copies, releases,
}
use dds_pipe.Payload.Count.{All-get, get_elem?, remove_at}

length-take : (k : ℕ) (xs : List ℕ) → k ≤ length xs → length (take k xs) ≡ k
unfolding take
length-take k [] h = omega arith
length-take zero (x ∷ xs) h = refl
length-take (suc k) (x ∷ xs) h = ap suc (length-take k xs (omega arith))

-- The call ends normally, in clients that satisfy the invariant.
abbrev pub Good : ℕ → Outcome Clients → Type 0
Good n (returned s) = Inv n s.pool s.held
Good n thrown = ⊥
Good n fault = ⊥

module _ (n : ℕ) (p : Pool) (held : List Payload) (v : Inv n p held) (room : n < 2 ^ 32 - 1) where
  weaken : Inv (suc n) p held
  weaken = record {
    counted = v.counted;
    positive = v.positive;
    fresh = v.fresh;
    unique = v.unique;
    balance = v.balance;
    few = ground (arith, v.few);
    fits = v.fits;
  }

  sized-Good :
      (size : ℕ)
      → let s = received held (get_payload_sized p size empty_payload) in Inv (suc n) s.pool s.held
  unfolding get_payload_sized reserve add_reserved_payload
  sized-Good size = elim (Bool-cases (size == 0)) [
    | inl e ↦ rw e weaken
    | inr e ↦
        rw e
          (new_block p held v size [] _ _ (omega arith) refl (omega arith) refl (omega arith) refl)
  ]

-- The pool after a new block of `size` bytes, of which `content` has been written.
abbrev grown : Pool → ℕ → List ℕ → Pool
grown p size content = record p {
  heap = insert p.next (record { refs = 1; size = size; content = content }) p.heap;
  next = p.next + 1;
  reserve_count = (p.reserve_count + 1) % 2 ^ 64;
}

copied : Pool → Payload → Payload
copied p src = record {
  memory = block p.next;
  length = src.length;
  max_size = src.max_size;
  pos = 0;
}

copy-eq :
    (p : Pool) (src : Payload) (bytes : List ℕ)
    → read (grown p src.max_size []) src.memory src.length ≡ returned bytes
    → length bytes ≤ src.max_size
    → src.max_size ≢ 0
    → copy_payload p src empty_payload ≡ returned (true, copied p src, grown p src.max_size bytes)
unfolding copy_payload get_payload_sized reserve add_reserved_payload write deref copied
copy-eq p src bytes reads fit pos = ground (
  arith,
  reads,
  lookup-insert p.next p.next (record { refs = 1; size = src.max_size; content = [] }) p.heap,
  insert-insert p.next (record { refs = 1; size = src.max_size; content = bytes })
      (record { refs = 1; size = src.max_size; content = [] }) p.heap,
)

copy-none :
    (p : Pool) (src : Payload)
    → src.max_size ≡ 0
    → copy_payload p src empty_payload ≡ returned (false, empty_payload, p)
unfolding copy_payload get_payload_sized reserve
copy-none p src e = rw e

-- The bytes that a fitting payload speaks of can be read, also beside a new block.
read-Fits :
    (p : Pool) (h : Payload) (size : ℕ)
    → lookup p.next p.heap ≡ none
    → (f : Fits p.heap h)
    → read (grown p size []) h.memory h.length ≡ returned (take h.length f.here.content)
unfolding read
read-Fits p h size absent f = ground (
  arith,
  f.points,
  f.found,
  f.written,
  lookup-insert f.address p.next (record { refs = 1; size = size; content = [] }) p.heap,
)

deref-Fits :
    (p : Pool) (h : Payload) (f : Fits p.heap h) → deref p h.memory ≡ returned (f.address, f.here)
unfolding deref
deref-Fits p h f = ground (arith, f.points, f.found)

read-elsewhere :
    (p : Pool) (bytes : List ℕ)
    → read p (elsewhere bytes) (length bytes) ≡ returned (take (length bytes) bytes)
unfolding read
read-elsewhere p bytes = ground arith

==-refl : (a : ℕ) → (a == a) ≡ true
==-refl a = ground arith

abbrev pub fewer : Block → ℕ
fewer b = (b.refs + 2 ^ 32 - 1) % 2 ^ 32

length_pos : (a : ℕ) (b : Block) (heap : Map ℕ Block) → lookup a heap ≡ some b → 0 < length heap
unfolding lookup
length_pos a b [] e = cc
length_pos a b (x ∷ heap) e = omega arith

module _ (n : ℕ) (p : Pool) (held : List Payload) (v : Inv n p held) (room : n < 2 ^ 32 - 1) where
  copy-Good :
      (src : Payload) (bytes : List ℕ)
      → read (grown p src.max_size []) src.memory src.length ≡ returned bytes
      → length bytes ≡ src.length
      → src.length ≤ src.max_size
      → Good (suc n) (copy_payload p src empty_payload >>= λ r. returned (received held r))
  unfolding copied
  copy-Good src bytes reads exact fit = elim (Bool-cases (src.max_size == 0)) [
    | inl e ↦ rw (copy-none p src (ground arith)) (weaken n p held v room)
    | inr e ↦ rw (copy-eq p src bytes reads (omega arith) (ground arith)) (
        new_block p held v src.max_size bytes _ _ (omega arith) refl (omega arith) refl
          (omega arith) refl)
  ]

  share-Good :
      (h : Payload)
      → Fits p.heap h
      → Good (suc n) (share_payload p h empty_payload >>= λ r. returned (received held r))
  unfolding share_payload
  share-Good h f =
      rw (deref-Fits p h f)
        (more_references p held v f.address f.here _ _ f.found f.points f.written f.sized room refl)

  -- The release counter stays below the reserve counter, since the block to go is still counted.
  not_thrown :
      (a : ℕ) (b : Block)
      → lookup a p.heap ≡ some b
      → ltb p.reserve_count ((p.release_count + 1) % 2 ^ 64) ≡ false
  not_thrown a b e = ground (arith, length_pos a b p.heap e, v.balance, v.few)

  pub release-last :
      (h : Payload) (f : Fits p.heap h)
      → (fewer f.here == 0) ≡ true
      → release_payload p h
        ≡ returned (
          true,
          empty_payload,
          record p {
            heap =
                erase f.address (insert f.address (record f.here { refs = fewer f.here }) p.heap);
            release_count = (p.release_count + 1) % 2 ^ 64;
          },
        )
  unfolding release_payload release_block add_release_payload
  release-last h f e =
      ground (arith, deref-Fits p h f, f.points, not_thrown f.address f.here f.found)

  pub release-not_last :
      (h : Payload) (f : Fits p.heap h)
      → (fewer f.here == 0) ≡ false
      → release_payload p h
        ≡ returned (
          true,
          empty_payload,
          record p { heap = insert f.address (record f.here { refs = fewer f.here }) p.heap },
        )
  unfolding release_payload
  release-not_last h f e = ground (arith, deref-Fits p h f)

  release-Good :
      (h : Payload) (i : ℕ)
      → get_elem? held i ≡ some h
      → Fits p.heap h
      → Good (suc n) (release_payload p h >>= λ r. returned (dropped (remove_at i held) r))
  release-Good h i at f = elim (Bool-cases (fewer f.here == 0)) [
    | inl e ↦ rw (release-last h f e) (
        last_reference p held v f.address i f.here h _ at f.found f.points (omega arith)
          (ground arith) refl)
    | inr e ↦ rw (release-not_last h f e) (
        fewer_references p held v f.address i f.here h _ at f.found f.points (omega arith)
          (ground arith) refl)
  ]

  pub held-Fits : (i : ℕ) (h : Payload) → get_elem? held i ≡ some h → Fits p.heap h
  held-Fits i h e = All-get (Fits p.heap) held i h e v.fits

  copies-Good :
      (i : ℕ) (h : Payload)
      → get_elem? held i ≡ some h
      → Good (suc n) (copy_payload p h empty_payload >>= λ r. returned (received held r))
  copies-Good i h e =
      let f = held-Fits i h e in
      copy-Good h (take h.length f.here.content) (read-Fits p h h.max_size (Inv-fresh p held v) f)
        (length-take h.length f.here.content f.written) (ground (arith, f.written, f.sized))

  -- A call keeps the invariant, and ends normally.
  pub call-Good : (c : Call) → Good (suc n) (call (record { pool = p; held = held }) c)
  unfolding call get_payload
  call-Good (reserves size) = sized-Good n p held v room size
  call-Good (adopts bytes spare) =
      copy-Good (foreign bytes spare) (take (length bytes) bytes)
        (read-elsewhere (grown p (length bytes + spare) []) bytes)
        (length-take (length bytes) bytes (omega arith)) (omega arith)
  call-Good (shares i) = elim (Option-cases (get_elem? held i)) [
    | inl e ↦ rw (e, call) (weaken n p held v room)
    | inr (h, e) ↦ rw (e, call, ==-refl p.id) (share-Good h (held-Fits i h e))
  ]
  call-Good (copies i) = elim (Option-cases (get_elem? held i)) [
    | inl e ↦ rw (e, call) (weaken n p held v room)
    | inr (h, e) ↦ rw (e, call) (copies-Good i h e)
  ]
  call-Good (releases i) = elim (Option-cases (get_elem? held i)) [
    | inl e ↦ rw (e, call) (weaken n p held v room)
    | inr (h, e) ↦ rw (e, call) (release-Good h i e (held-Fits i h e))
  ]
