-- ===== src/Topics/Names.antt =====
-- When unique names tell topics apart.
use dds_pipe.Base.{
  ℕ, ◌≤◌, ◌≡◌, ◌⊎◌, ◌↔◌, refl, sym, ap, ◌∙◌, inl, inr, Bool, true, false, [], ◌∷◌, ◌++◌, none, ◌||◌,
  arith, length, append_assoc, subst,
}
use dds_pipe.Rpc.Text.{Text, codes, starts, first_at}
use dds_pipe.Rpc.Topic.{DdsTopic}
use dds_pipe.Topics.{
  internal_topic_type_rtps, text_eq, topic_unique_name, dds_topic_unique_name, eq,
}
use dds_pipe.Topics.Order.{text_eq-eq, text_eq_self}

pub cons_parts : {b c : ℕ} {s t : Text} → b ∷ s ≡ c ∷ t → (b ≡ c) × (s ≡ t)
cons_parts e = (cc, cc)

-- A part of `u` up to its end begins `d`.
abbrev bordered : Text → Text → Bool
bordered [] d = false
bordered (c ∷ u) d = starts (c ∷ u) d || bordered u d

starts-both : (u x d y : Text) → u ++ x ≡ d ++ y → length u ≤ length d → starts u d ≡ true
unfolding starts
starts-both [] x d y e h = refl
starts-both (c ∷ u) x [] y e h = ground (arith, h)
starts-both (c ∷ u) x (b ∷ d) y e h =
    let (first, rest) = cons_parts e in ground (arith, first, starts-both u x d y rest)

overlap :
    (u w d x y : Text)
    → u ++ x ≡ w ++ (d ++ y)
    → length u ≤ length d
    → (starts u w ≡ true) ⊎ (bordered u d ≡ true)
unfolding starts
overlap [] w d x y e h = inl refl
overlap (c ∷ u) [] d x y e h = inr (rw (starts-both (c ∷ u) x d y e h) refl)
overlap (c ∷ u) (b ∷ w) d x y e h =
    let (first, rest) = cons_parts e in
    elim (overlap u w d x y rest (omega arith)) [
      | inl t ↦ inl (ground (arith, first, t))
      | inr t ↦ inr (ground (arith, t))
    ]

-- A text that does not overlap itself is not met halfway.
not_later :
    (a : ℕ) (d : Text) (c : ℕ) (s x y : Text)
    → bordered d (a ∷ d) ≡ false
    → first_at (a ∷ d) (c ∷ s) ≡ none
    → ¬ ((a ∷ d) ++ x ≡ (c ∷ s) ++ ((a ∷ d) ++ y))
unfolding first_at starts
not_later a d c s x y b p e =
    let (first, rest) = cons_parts e in
    elim (overlap d s (a ∷ d) x y rest (omega arith)) [
      | inl t ↦ ground (arith, first, t, p)
      | inr t ↦ ground (arith, t, b)
    ]

first_at-tail : (p : Text) (c : ℕ) (s : Text) → first_at p (c ∷ s) ≡ none → first_at p s ≡ none
unfolding first_at
first_at-tail p c s h = ground (arith, h)

pub same_rest : (d x y : Text) → d ++ x ≡ d ++ y → x ≡ y
same_rest [] x y e = e
same_rest (c ∷ d) x y e = same_rest d x y (cons_parts e).1

no_end : (c : ℕ) (s : Text) → ¬ (s ++ c ∷ [] ≡ [])
no_end c [] e = cc
no_end c (b ∷ s) e = cc

pub same_start : (c : ℕ) (s t : Text) → s ++ c ∷ [] ≡ t ++ c ∷ [] → s ≡ t
same_start c [] [] e = refl
same_start c [] (d ∷ t) e = absurd (no_end c t (sym (cons_parts e).1))
same_start c (b ∷ s) [] e = absurd (no_end c s (cons_parts e).1)
same_start c (b ∷ s) (d ∷ t) e =
    let (first, rest) = cons_parts e in ground (arith, first, same_start c s t rest)

pub split_at_first :
    (a : ℕ) (d s t x y : Text)
    → bordered d (a ∷ d) ≡ false
    → first_at (a ∷ d) s ≡ none
    → first_at (a ∷ d) t ≡ none
    → s ++ ((a ∷ d) ++ x) ≡ t ++ ((a ∷ d) ++ y)
    → (s ≡ t) × (x ≡ y)
split_at_first a d [] [] x y b p q e = (refl, same_rest (a ∷ d) x y e)
split_at_first a d (c ∷ s) [] x y b p q e = absurd (not_later a d c s y x b p (sym e))
split_at_first a d [] (c ∷ t) x y b p q e = absurd (not_later a d c t x y b q e)
split_at_first a d (c ∷ s) (c' ∷ t) x y b p q e =
    let (first, rest) = cons_parts e in
    let (names, types) =
      split_at_first a d s t x y b (first_at-tail _ c s p) (first_at-tail _ c' t q) rest in
    (ground (arith, first, names), types)

rtps_unbordered : bordered (codes "ayload::rtps::v0") internal_topic_type_rtps ≡ false
unfolding starts
rtps_unbordered = refl

module _ {Qos : Type 0} where
  unique_name-split :
      (t : DdsTopic Qos)
      → t.m_internal_type_discriminator ≡ internal_topic_type_rtps
      → dds_topic_unique_name t ≡ t.m_topic_name ++ (internal_topic_type_rtps ++ t.type_name)
  unfolding dds_topic_unique_name topic_unique_name
  unique_name-split t d =
      ap (λ k. (t.m_topic_name ++ k) ++ t.type_name) d
      ∙ append_assoc t.m_topic_name internal_topic_type_rtps t.type_name

-- For topics of the kind that `DdsTopic()` makes, whose names do not contain the discriminator of
-- that kind: `==` holds exactly between topics with the same name and the same type name.
pub eq-same_names :
    {Qos : Type 0} (t u : DdsTopic Qos)
    → t.m_internal_type_discriminator ≡ internal_topic_type_rtps
    → u.m_internal_type_discriminator ≡ internal_topic_type_rtps
    → first_at internal_topic_type_rtps t.m_topic_name ≡ none
    → first_at internal_topic_type_rtps u.m_topic_name ≡ none
    → (eq t u ≡ true) ↔ ((t.m_topic_name ≡ u.m_topic_name) × (t.type_name ≡ u.type_name))
unfolding eq
eq-same_names t u d e p q = (
  λ h.
      split_at_first _ (codes "ayload::rtps::v0") t.m_topic_name u.m_topic_name t.type_name
        u.type_name rtps_unbordered p q
        (sym (unique_name-split t d) ∙ text_eq-eq _ _ h ∙ unique_name-split u e),
  λ h.
      subst (λ s. text_eq (dds_topic_unique_name t) s ≡ true) (same h)
        (text_eq_self (dds_topic_unique_name t)),
)
  where
    same :
        (t.m_topic_name ≡ u.m_topic_name) × (t.type_name ≡ u.type_name)
        → dds_topic_unique_name t ≡ dds_topic_unique_name u
    same h = unique_name-split t d ∙ cc (h.0, h.1) ∙ sym (unique_name-split u e)
