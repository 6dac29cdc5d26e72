-- ===== src/Endpoints/Sampling.antt =====
-- What the rate limits of readers and writers use: the clock of cpp_utils, floating-point rates, and
-- `fast_module`. Timestamps are nanoseconds since `the_beginning_of_time`.
use dds_pipe.Base.{ℕ, ◌+◌, ◌%◌, ◌≤◌, ◌<◌, ◌≡◌, Bool, List, [], ◌∷◌}

pub record Rates : Type 1 where
  pub Rate : Type 0
  -- `rate > 0`
  pub is_positive : Rate → Bool
  -- `(unsigned int)(1e9 / rate)`, for a rate that is positive
  pub period : Rate → ℕ
  pub fast_module : ℕ → ℕ → ℕ
  pub fast_module-mod :
      (dividend divisor : ℕ) → 0 < divisor → fast_module dividend divisor ≡ dividend % divisor

-- Each time is at least the period after the one before, the first after `last`.
abbrev pub IsSpaced : ℕ → ℕ → List ℕ → Type 0
IsSpaced period last [] = Unit
IsSpaced period last (t ∷ ts) = (last + period ≤ t) × IsSpaced period t ts
