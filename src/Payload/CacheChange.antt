-- ===== src/Payload/CacheChange.antt =====
-- The part of PayloadPool.cpp that works on cache changes: a payload together with the pool that
-- owns it (`payload_owner`, none for a null pointer).
use dds_pipe.Base.{ℕ, ◌≡◌, Bool, true, false, Option, none, some, arith, if◌then◌else◌}
use dds_pipe.Payload.Defs.{
  Payload, Pool, Outcome, returned, thrown, ◌>>=◌, is_owner, Reply, get_payload_sized, get_payload,
  release_payload,
}

pub record CacheChange : Type 0 where
  pub serialized_payload : Payload
  pub payload_owner : Option ℕ

-- What a successful call leaves in the change, and what a failed one does.
abbrev settle : CacheChange → Option ℕ → Reply → Bool × CacheChange × Pool
settle c owner (true, h, q) = (true, record { serialized_payload = h; payload_owner = owner }, q)
settle c owner (false, h, q) = (false, record c { serialized_payload = h }, q)

-- get_payload(uint32_t, CacheChange_t&)
unfoldable pub get_change_sized : Pool → ℕ → CacheChange → Bool × CacheChange × Pool
get_change_sized p size c = settle c (some p.id) (get_payload_sized p size c.serialized_payload)

-- get_payload(SerializedPayload_t&, IPayloadPool*&, CacheChange_t&)
unfoldable pub get_change :
    Pool → Payload → Option ℕ → CacheChange → Outcome (Bool × CacheChange × Pool)
get_change p src data_owner c =
    get_payload p src data_owner c.serialized_payload >>= λ r. returned (settle c (some p.id) r)

-- release_payload(CacheChange_t&)
unfoldable pub release_change : Pool → CacheChange → Outcome (Bool × CacheChange × Pool)
release_change p c =
    if is_owner p c.payload_owner
    then release_payload p c.serialized_payload >>= (λ r. returned (settle c none r))
    else thrown

-- A change that a pool has filled by `get_payload` can be released by no pool but that one, and
-- once the release has succeeded every pool refuses the change with an exception.
pub release_change_once :
    (p p' q r : Pool) (src : Payload) (owner : Option ℕ) (c d e : CacheChange)
    → get_change p src owner c ≡ returned (true, d, p')
    → release_change q d ≡ returned (true, e, r)
    → (q.id ≡ p.id) × ((x : Pool) → release_change x e ≡ thrown)
unfolding get_change release_change
release_change_once p p' q r src owner c d e got gone = (ground arith, λ x. ground arith)
