-- ===== src/Allowed/Meaning.antt =====
-- Which topics are allowed, in terms of the lists of the configuration.
use dds_pipe.Base.{◌≡◌, refl, true, false, List, [], ◌∷◌, if◌then◌else◌, any, arith}
use dds_pipe.Allowed.{
  FilterKind, is_empty, create, is_topic_allowed, get_topic_list_without_repetition,
}
use dds_pipe.Allowed.Repeats.{hit-unrepeated}

module _ (k : FilterKind) where
  open k use {Filter, Topic, matches, contains-matches, same_matches}

  any-true : (fs : List Filter) → any (λ f. true) fs ≡ (if is_empty fs then false else true)
  any-true [] = refl
  any-true (f ∷ fs) = refl

  empty-unrepeated :
      (fs : List Filter) → is_empty (get_topic_list_without_repetition k fs) ≡ is_empty fs
  empty-unrepeated fs = ground (
    arith,
    any-true fs,
    any-true (get_topic_list_without_repetition k fs),
    hit-unrepeated k (λ f. true) (λ f g c h. refl) (λ f g a b. refl) fs,
  )

  matches-unrepeated :
      (t : Topic) (fs : List Filter)
      → any (λ f. matches f t) (get_topic_list_without_repetition k fs) ≡ any (λ f. matches f t) fs
  matches-unrepeated t fs =
      hit-unrepeated k (λ f. matches f t) (λ f g. contains-matches f g t)
        (λ f g. same_matches f g t) fs

  -- A topic is allowed exactly when the allowlist of the configuration is empty or one of its filters
  -- matches the topic, and no filter of the blocklist of the configuration matches it: that
  -- repeated filters are dropped from both lists changes nothing.
  pub allowed_as_configured :
      (t : Topic) (allowlist blocklist : List Filter)
      → is_topic_allowed k (create k allowlist blocklist) t ≡ (
          if (if is_empty allowlist then true else any (λ f. matches f t) allowlist)
          then (if any (λ f. matches f t) blocklist then false else true)
          else false)
  unfolding is_topic_allowed create
  allowed_as_configured t allowlist blocklist = ground (
    arith,
    matches-unrepeated t allowlist,
    matches-unrepeated t blocklist,
    empty-unrepeated allowlist,
  )
