-- ===== src/Rpc/Recognised.antt =====
-- Which topics `is_request_topic` (types/topic/rpc/RpcTopic.cpp) recognises.
use dds_pipe.Base.{
  ℕ, ◌+◌, ◌^◌, ◌<◌, ◌≡◌, ◌≢◌, refl, ap, ◌∙◌, true, false, Option, none, some, [], ◌∷◌, ◌++◌, arith,
  length, length-append, append-nil, Bool-cases, Option-cases, inl, inr,
}
use dds_pipe.Rpc.Text.{
  Text, starts, starts_split, find, rfind, last_at-short, last_at-split, first_at, last_at, next,
}
use dds_pipe.Rpc.Topic.{DdsTopic, request_prefix_str, request_str, ends_at, is_request_topic}

-- The text behind a pattern, when the test for its end passes.
ends_at-split :
    (p s : Text) (more : ℕ)
    → length s < 2 ^ 64
    → length p + more < 2 ^ 64
    → more < 2
    → 0 < length p
    → length s + 1 ≢ length p + more
    → ends_at p more s ≡ true
    → (before : Text) × (after : Text) × (s ≡ before ++ p ++ after) × (length after ≡ more)
unfolding ends_at rfind
ends_at-split p s more b d m l other h = elim (Option-cases (last_at p s)) [
  | inl gone ↦ ground (arith, gone, h, b, d, other)
  | inr (i, found) ↦
      let (before, after, e, n) = last_at-split p s i found in
      let size : length s ≡ length before + length p + length after =
        ap length e ∙ omega (arith, length-append (before ++ p) after, length-append before p) in
      (before, after, e, ground (arith, size, n, found, h, b, d))
]

next_not_first : (o : Option ℕ) → next o ≢ some 0
next_not_first none = ground arith
next_not_first (some i) = ground arith

first_at-starts : (p s : Text) → first_at p s ≡ some 0 → starts p s ≡ true
unfolding first_at
first_at-starts p [] h = ground (arith, h)
first_at-starts p (c ∷ s) h = elim (Bool-cases (starts p (c ∷ s))) [
  | inl t ↦ t
  | inr f ↦ ground (arith, f, h, next_not_first (first_at p s))
]

starts-first_at : (p s : Text) → starts p s ≡ true → first_at p s ≡ some 0
unfolding first_at
starts-first_at p [] h = ground (arith, h)
starts-first_at p (c ∷ s) h = ground (arith, h)

last_at-tight : (p s : Text) → length s ≡ length p → starts p s ≡ false → last_at p s ≡ none
unfolding last_at
last_at-tight p [] n h = ground (arith, h)
last_at-tight p (c ∷ s) n h = ground (arith, h, last_at-short p s (omega (arith, n)))

find-starts : (p s : Text) → find p s ≡ 0 → starts p s ≡ true
unfolding find
find-starts p s h = elim (Option-cases (first_at p s)) [
  | inl gone ↦ ground (arith, gone, h)
  | inr (i, found) ↦ first_at-starts p s (ground (arith, found, h))
]

-- A list of one element.
one : (s : Text) → length s ≡ 1 → (c : ℕ) × (s ≡ c ∷ [])
one [] h = ground (arith, h)
one (c ∷ []) h = (c, refl)
one (c ∷ d ∷ s) h = ground (arith, h)

none_left : (s : Text) → length s ≡ 0 → s ≡ []
none_left [] h = refl
none_left (c ∷ s) h = ground (arith, h)

module _ {Qos : Type 0} where
  -- The three tests of `is_request_topic`.
  is_request-tests :
      (t : DdsTopic Qos)
      → is_request_topic t ≡ true
      → (find request_prefix_str t.m_topic_name ≡ 0)
        × (ends_at request_str 0 t.m_topic_name ≡ true)
        × (ends_at request_str 1 t.type_name ≡ true)
  unfolding is_request_topic
  is_request-tests t h = ground (arith, h)

  -- A topic that is recognised as a request topic, and whose name is not of 6 bytes nor its type's of 7,
  -- is named `rq/...` and `...Request`, and its type `...Request` with one more byte.
  pub is_request_form :
      (t : DdsTopic Qos)
      → length t.m_topic_name < 2 ^ 64
      → length t.type_name < 2 ^ 64
      → length t.m_topic_name ≢ 6
      → length t.type_name ≢ 7
      → is_request_topic t ≡ true
      → ((rest : Text) × (t.m_topic_name ≡ request_prefix_str ++ rest))
        × ((before : Text) × (t.m_topic_name ≡ before ++ request_str))
        × ((before : Text) × (c : ℕ) × (t.type_name ≡ before ++ request_str ++ (c ∷ [])))
  is_request_form t b d m n h =
      let (front, back, type) = is_request-tests t h in
      let (before, after, e, none_after) =
        ends_at-split request_str t.m_topic_name 0 b (omega arith) (omega arith) (omega arith)
          (omega arith) back in
      let (before_type, after_type, e_type, one_after) =
        ends_at-split request_str t.type_name 1 d (omega arith) (omega arith) (omega arith)
          (omega arith) type in
      let (c, e_c) = one after_type one_after in
      (
        starts_split request_prefix_str t.m_topic_name
            (find-starts request_prefix_str t.m_topic_name front),
        (
          before,
          e
              ∙ ap (λ u. before ++ request_str ++ u) (none_left after none_after)
              ∙ append-nil (before ++ request_str),
        ),
        (before_type, c, e_type ∙ ap (λ u. before_type ++ request_str ++ u) e_c),
      )

  -- Every topic whose name is `rq/` and three more bytes, without `Request`, is recognised as a request
  -- topic when its type's name has 7 bytes and is not `Request`: `rfind` finds nothing, and the sum with
  -- its result `npos` wraps around to just these lengths.
  pub is_request_short :
      (t : DdsTopic Qos)
      → starts request_prefix_str t.m_topic_name ≡ true
      → length t.m_topic_name ≡ 6
      → length t.type_name ≡ 7
      → starts request_str t.type_name ≡ false
      → is_request_topic t ≡ true
  unfolding is_request_topic find ends_at rfind
  is_request_short t front n m other =
      rw
        (
          starts-first_at request_prefix_str t.m_topic_name front,
          last_at-short request_str t.m_topic_name (omega (arith, n)),
          last_at-tight request_str t.type_name m other,
          n,
          m,
        )
        refl
