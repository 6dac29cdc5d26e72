-- ===== src/Allowed/Tests.antt =====
-- Filters that are numbers: 0 matches every topic, and any other number itself.
use dds_pipe.Base.{ℕ, ◌≡◌, true, false, [], ◌∷◌, ◌==◌, ltb, if◌then◌else◌, arith}
use dds_pipe.Allowed.{FilterKind, create, is_topic_allowed}
use dds_pipe.Allowed.Meaning.{allowed_as_configured}

abbrev numbers : FilterKind
numbers = record {
  Topic = ℕ;
  Filter = ℕ;
  contains = λ f g. if f == 0 then true else f == g;
  matches = λ f t. if f == 0 then true else f == t;
  less = ltb;
  less_irrefl = λ f. ground arith;
  contains-matches = λ f g t c m. ground (arith, c, m);
  same_matches = λ f g t a b. ground (arith, a, b);
}

-- The list `4` is dropped for `0`, and `7` is blocked.
allowed_as_configured_example :
    is_topic_allowed numbers (create numbers (4 ∷ 0 ∷ []) (7 ∷ [])) 7 ≡ false
allowed_as_configured_example = allowed_as_configured numbers 7 (4 ∷ 0 ∷ []) (7 ∷ [])
