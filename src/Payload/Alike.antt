-- ===== src/Payload/Alike.antt =====
-- MapPayloadPool.cpp and FastPayloadPool.cpp (efficiency/payload): the calls of the interface that they share.
use dds_pipe.Base.{
  ℕ, nat_key, ◌≡◌, refl, ap, ◌∙◌, Bool, true, false, Option, none, some, ◌==◌, if◌then◌else◌, inl,
  inr, Bool-cases,
}
use dds_pipe.Payload.Defs
use dds_pipe.Payload.Defs.{
  Payload, Pool, Outcome, returned, thrown, fault, ◌>>=◌, Reply, read, write,
}
use dds_pipe.Payload.Mapped
use dds_pipe.Payload.Mapped.{MapPayloadPool, MapReply, SerializedPayload, read_store, write_store}
use dds_pipe.Payload.Refined.{
  Refines, IsSame, IsFresh, sized-IsSame, share-IsSame, release-IsSame, read-cases, write-cases,
}

filled-IsSame :
    (m : MapPayloadPool) (p : Pool) (src t : Payload)
    → Refines m p
    → IsSame
        (read p src.memory src.length >>= (λ bytes.
          write p t.memory bytes >>= (λ r. returned (true, record t { length = src.length }, r))))
        (read_store m.store src.memory src.length >>= (λ bytes.
          write_store m.store t.memory bytes
          >>= (λ s. returned (true, record t { length = src.length }, record m { store = s }))))
unfolding IsSame
filled-IsSame m p src t s = elim (read-cases m p src.memory src.length s) [
  | inl bad ↦ simp bad tt
  | inr (bytes, found, found_too) ↦ elim (write-cases m p t.memory bytes s) [
    | inl bad ↦ simp (found, bad) tt
    | inr (q, store, written, written_too, also) ↦
        simp (found, found_too, written, written_too) (refl, refl, also)
  ]
]

copied-IsSame :
    (m : MapPayloadPool) (p : Pool) (src t t' : Payload) (done done' : Bool)
    → done' ≡ done
    → t' ≡ t
    → Refines m p
    → IsSame
        (if done
          then (read p src.memory src.length >>= (λ bytes.
              write p t.memory bytes
              >>= (λ r. returned (true, record t { length = src.length }, r))))
          else returned (false, t, p))
        (if done'
          then (read_store m.store src.memory src.length >>= (λ bytes.
              write_store m.store t'.memory bytes >>= (λ s.
                returned (true, record t' { length = src.length }, record m { store = s }))))
          else returned (false, t', m))
unfolding IsSame
copied-IsSame m p src t t' done done' e f s =
    rw (e, f)
      (elim (Bool-cases done) [
        | inl done_now ↦ simp done_now (filled-IsSame m p src t s)
        | inr failed ↦ simp failed (refl, refl, s)
      ])

copy-IsSame :
    (x : SerializedPayload) (m : MapPayloadPool) (p : Pool) (src target : Payload)
    → Refines m p
    → IsFresh target
    → IsSame (Defs.copy_payload p src target) (Mapped.copy_payload x m src target)
unfolding IsSame Defs.copy_payload Mapped.copy_payload
copy-IsSame x m p src target s fresh =
    let sized = sized-IsSame x m p src.max_size target s fresh in
    let r = Defs.get_payload_sized p src.max_size target in
    let r' = Mapped.get_payload_sized x m src.max_size target in
    copied-IsSame r'.2 r.2 src r.1 r'.1 r.0 r'.0 sized.0 sized.1 sized.2

same_owner :
    (x : SerializedPayload) (m : MapPayloadPool) (p : Pool) (owner : Option ℕ)
    → Refines m p
    → Mapped.is_owner x m owner ≡ Defs.is_owner p owner
same_owner x m p none s = refl
same_owner x m p (some i) s = ap (λ n. i == n) s.same_id

get-IsSame :
    (x : SerializedPayload) (m : MapPayloadPool) (p : Pool) (src target : Payload)
    (owner : Option ℕ)
    → Refines m p
    → IsFresh target
    → IsSame (Defs.get_payload p src owner target) (Mapped.get_payload x m src owner target)
unfolding Defs.get_payload Mapped.get_payload
get-IsSame x m p src target owner s fresh = elim (Bool-cases (Defs.is_owner p owner)) [
  | inl own ↦
      let own_too = same_owner x m p owner s ∙ own in
      simp (Defs.get_payload, Mapped.get_payload, own, own_too) (share-IsSame x m p src target s)
  | inr other ↦
      let other_too = same_owner x m p owner s ∙ other in
      simp (Defs.get_payload, Mapped.get_payload, other, other_too)
        (copy-IsSame x m p src target s fresh)
]

-- From states that hold the same blocks and counts, MapPayloadPool does in each call what FastPayloadPool
-- does, wherever that has a defined result: the same Boolean and payload and again the same blocks and
-- counts, or both throw. A payload to fill has no data yet.
pub map_pool-IsSame :
    (x : SerializedPayload) (m : MapPayloadPool) (p : Pool) (size : ℕ) (src target : Payload)
    (owner : Option ℕ)
    → Refines m p
    → IsFresh target
    → IsSame
        (returned (Defs.get_payload_sized p size target))
        (returned (Mapped.get_payload_sized x m size target))
      × IsSame (Defs.get_payload p src owner target) (Mapped.get_payload x m src owner target)
      × IsSame (Defs.release_payload p src) (Mapped.release_payload x m src)
map_pool-IsSame x m p size src target owner s fresh = (
  sized-IsSame x m p size target s fresh,
  get-IsSame x m p src target owner s fresh,
  release-IsSame x m p src s,
)
