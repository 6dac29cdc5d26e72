-- ===== src/Endpoints/Reader/Accepted.antt =====
-- The samples that BaseReader accepts of those that come, by the times at which they come.
use dds_pipe.Base.{
  ℕ, suc, ◌+◌, ◌*◌, ◌%◌, ◌^◌, ◌≤◌, ◌<◌, ◌≡◌, Bool, true, false, List, [], ◌∷◌, if◌then◌else◌, ◌==◌,
  arith, not, Bool-cases, if-induct, length, inl, inr, refl, ◌∙◌, subst,
}
use native.Mathlib.Nat.{mod_self, mod-eq_of_lt, suc-mul}
use dds_pipe.Endpoints.Sampling.{Rates, IsSpaced}
use dds_pipe.Endpoints.Reader.{BaseReader, create, is_early, should_accept_sample}

module _ (x : Rates) where
  open x use {Rate, is_positive, period, fast_module, fast_module-mod}

  -- The times of the samples that are accepted.
  unfoldable pub accepted : List ℕ → BaseReader x → List ℕ
  unfolding should_accept_sample
  accepted [] r = []
  accepted (t ∷ ts) r =
      let (done, next) = should_accept_sample x t r in
      let rest = accepted ts next in if done then t ∷ rest else rest

  -- The times of the samples that come late enough for the rate limit.
  unfoldable pub on_time : List ℕ → BaseReader x → List ℕ
  unfolding should_accept_sample is_early
  on_time [] r = []
  on_time (t ∷ ts) r =
      let rest = on_time ts (should_accept_sample x t r).1 in
      if is_early x t r then rest else t ∷ rest

  accepted-IsSpaced :
      (ts : List ℕ) (r : BaseReader x)
      → is_positive r.max_rx_rate ≡ true
      → IsSpaced r.min_intersample_period r.last_received_ts (accepted ts r)
  unfolding accepted should_accept_sample is_early
  accepted-IsSpaced [] r limited = tt
  accepted-IsSpaced (t ∷ ts) r limited =
      let late : BaseReader x = record r {
        downsampling_idx = fast_module ((r.downsampling_idx + 1) % 2 ^ 32) r.downsampling;
      } in
      if-induct
        (λ (c : Bool × BaseReader x).
          IsSpaced r.min_intersample_period r.last_received_ts
            (if c.0 then t ∷ accepted ts c.1 else accepted ts c.1))
        (is_early x t r) _ _ (λ early. accepted-IsSpaced ts r limited)
        (λ on.
          if-induct
            (λ (c : Bool × BaseReader x).
              IsSpaced r.min_intersample_period r.last_received_ts
                (if c.0 then t ∷ accepted ts c.1 else accepted ts c.1))
            (not (r.downsampling_idx == 0)) _ _ (λ skipped. accepted-IsSpaced ts late limited)
            (λ kept. (
              ground (arith, on, limited),
              accepted-IsSpaced ts (record late { last_received_ts = t }) limited,
            )))

  -- Where the index stands in a round of `downsampling` samples, counted from 1.
  place : BaseReader x → ℕ
  place r = if r.downsampling_idx == 0 then r.downsampling else r.downsampling_idx

  -- A step that passes the rate limit moves on by one place.
  next_idx :
      (i d : ℕ)
      → i < d
      → d < 2 ^ 32
      → fast_module ((i + 1) % 2 ^ 32) d ≡ (if i + 1 == d then 0 else i + 1)
  next_idx i d h b =
      let fits : (i + 1) % 2 ^ 32 ≡ i + 1 = omega arith in
      rw fits (fast_module-mod (i + 1) d (omega arith) ∙ grind (arith, mod_self, mod-eq_of_lt))

  counted : BaseReader x → BaseReader x
  counted r = record r {
    downsampling_idx = fast_module ((r.downsampling_idx + 1) % 2 ^ 32) r.downsampling;
  }

  counted-place :
      (r : BaseReader x)
      → r.downsampling_idx < r.downsampling
      → r.downsampling < 2 ^ 32
      → (place (counted r) ≡ r.downsampling_idx + 1)
        × ((counted r).downsampling_idx < r.downsampling)
  unfolding place counted
  counted-place r h b = ground (arith, next_idx r.downsampling_idx r.downsampling h b)

  -- The two counts, of samples accepted and on time, from a place on.
  AreFair : ℕ → ℕ → ℕ → ℕ → Type 0
  AreFair at d taken late = (taken * d < at + late) × (at + late ≤ taken * d + d)

  -- Both counts after one sample, by what becomes of it.
  abbrev Both : List ℕ → List ℕ → ℕ → List ℕ → BaseReader x → Type 0
  Both got due t ts r = (accepted (t ∷ ts) r ≡ got) × (on_time (t ∷ ts) r ≡ due)

  Both-early :
      (t : ℕ) (ts : List ℕ) (r : BaseReader x)
      → is_early x t r ≡ true
      → Both (accepted ts r) (on_time ts r) t ts r
  unfolding accepted on_time should_accept_sample
  Both-early t ts r early = (simp early refl, simp early refl)

  Both-skipped :
      (t : ℕ) (ts : List ℕ) (r : BaseReader x)
      → is_early x t r ≡ false
      → (r.downsampling_idx == 0) ≡ false
      → Both (accepted ts (counted r)) (t ∷ on_time ts (counted r)) t ts r
  unfolding accepted on_time should_accept_sample counted
  Both-skipped t ts r late other = (simp (late, other) refl, simp (late, other) refl)

  Both-kept :
      (t : ℕ) (ts : List ℕ) (r : BaseReader x)
      → is_early x t r ≡ false
      → (r.downsampling_idx == 0) ≡ true
      → Both
          (t ∷ accepted ts (record (counted r) { last_received_ts = t }))
          (t ∷ on_time ts (record (counted r) { last_received_ts = t }))
          t
          ts
          r
  unfolding accepted on_time should_accept_sample counted
  Both-kept t ts r late first = (simp (late, first) refl, simp (late, first) refl)

  fair_kept : (i d a p : ℕ) → i ≡ 0 → AreFair (i + 1) d a p → AreFair d d (suc a) (suc p)
  unfolding AreFair
  fair_kept i d a p first f = omega (arith, suc-mul a d, f)

  fair_skipped : (i d a p : ℕ) → AreFair (i + 1) d a p → AreFair i d a (suc p)
  unfolding AreFair
  fair_skipped i d a p f = omega (arith, f)

  place_first : (r : BaseReader x) → (r.downsampling_idx == 0) ≡ true → place r ≡ r.downsampling
  unfolding place
  place_first r first = ground (arith, first)

  place_other :
      (r : BaseReader x) → (r.downsampling_idx == 0) ≡ false → place r ≡ r.downsampling_idx
  unfolding place
  place_other r other = ground (arith, other)

  place_after : (r : BaseReader x) (t : ℕ) → place (record r { last_received_ts = t }) ≡ place r
  unfolding place
  place_after r t = refl

  fair_start :
      (r : BaseReader x)
      → r.downsampling_idx < r.downsampling
      → AreFair (place r) r.downsampling (length (accepted [] r)) (length (on_time [] r))
  unfolding AreFair place accepted on_time
  fair_start r h = ground arith

  counts :
      (ts : List ℕ) (r : BaseReader x)
      → r.downsampling_idx < r.downsampling
      → r.downsampling < 2 ^ 32
      → AreFair (place r) r.downsampling (length (accepted ts r)) (length (on_time ts r))
  unfolding counted
  counts [] r h b = fair_start r h
  counts (t ∷ ts) r h b = elim (Bool-cases (is_early x t r)) [
    | inl early ↦ let e = Both-early t ts r early in rw (e.0, e.1) (counts ts r h b)
    | inr late ↦ elim (Bool-cases (r.downsampling_idx == 0)) [
      | inl first ↦
          let e = Both-kept t ts r late first in
          let after : BaseReader x = record (counted r) { last_received_ts = t } in
          let step = counted-place r h b in
          rw (e.0, e.1, place_first r first)
            (fair_kept r.downsampling_idx r.downsampling (length (accepted ts after))
              (length (on_time ts after)) (ground (arith, first))
              (subst
                (λ n.
                  AreFair n r.downsampling (length (accepted ts after)) (length (on_time ts after)))
                (place_after (counted r) t ∙ step.0) (counts ts after step.1 b)))
      | inr other ↦
          let e = Both-skipped t ts r late other in
          let step = counted-place r h b in
          rw (e.0, e.1, place_other r other)
            (fair_skipped r.downsampling_idx r.downsampling (length (accepted ts (counted r)))
              (length (on_time ts (counted r)))
              (subst
                (λ n.
                  AreFair n r.downsampling (length (accepted ts (counted r)))
                    (length (on_time ts (counted r))))
                step.0 (counts ts (counted r) step.1 b)))
    ]
  ]

  -- When a reader is created with a downsampling factor `d`, of the samples that the rate limit lets
  -- through it accepts one in `d`: rounded up, their number divided by `d`.
  pub accepts_one_in :
      (rate : Rate) (d : ℕ) (ts : List ℕ)
      → 0 < d
      → d < 2 ^ 32
      → (length (accepted ts (create x rate d)) * d < length (on_time ts (create x rate d)) + d)
        × (length (on_time ts (create x rate d)) ≤ length (accepted ts (create x rate d)) * d)
  unfolding AreFair place create
  accepts_one_in rate d ts h b = omega (arith, counts ts (create x rate d) h b)

  -- When a reader has a rate limit, the samples that it accepts come at least its period apart.
  pub accepts-IsSpaced :
      (rate : Rate) (d : ℕ) (ts : List ℕ)
      → is_positive rate ≡ true
      → IsSpaced (period rate) 0 (accepted ts (create x rate d))
  unfolding create
  accepts-IsSpaced rate d ts limited =
      let same : (if is_positive rate then period rate else 0) ≡ period rate =
        ground (arith, limited) in
      subst (λ n. IsSpaced n 0 (accepted ts (create x rate d))) same
        (accepted-IsSpaced ts (create x rate d) limited)
