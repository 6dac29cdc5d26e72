-- ===== src/Endpoints/SpecificQos/Order.antt =====
-- The order of SpecificEndpointQoS.
use dds_pipe.Base.{
  ◌≡◌, ◌⊎◌, refl, inr, Bool, true, false, List, [], ◌∷◌, Option, some, arith, length,
}
use dds_pipe.Rpc.Text.{Text}
use dds_pipe.Topics.{text_lt}
use dds_pipe.Topics.Order.{text_lt_self, text_lt-connected, text_lt_trans}
use dds_pipe.Endpoints.SpecificQos.{Policies, names_lt, SpecificEndpointQos, qos_lt}

-- Each of two is told from the other in both directions, or neither.
abbrev Compared : {A : Type 0} → (A → A → Option Bool) → (A → A → Type 0) → A → A → Type 0
Compared less Same a b =
    ((less a b ≡ some true) × (less b a ≡ some false))
    ⊎ ((less a b ≡ some false) × (less b a ≡ some true))
    ⊎ ((less a b ≡ some false) × (less b a ≡ some false) × Same a b)

text_lt-asym : (s t : Text) → text_lt s t ≡ true → text_lt t s ≡ false
text_lt-asym s t h = ground (arith, text_lt_trans s t s h, text_lt_self s)

names_lt-Compared : (ss ts : List Text) → length ss ≡ length ts → Compared names_lt ◌≡◌ ss ts
unfolding names_lt
names_lt-Compared [] [] e = inr (inr (refl, refl, refl))
names_lt-Compared [] (t ∷ ts) e = absurd (omega arith)
names_lt-Compared (s ∷ ss) [] e = absurd (omega arith)
names_lt-Compared (s ∷ ss) (t ∷ ts) e =
    ground
      (arith, names_lt-Compared ss ts, text_lt-asym s t, text_lt-asym t s, text_lt-connected s t)

module _ (p : Policies) where
  open p use {size, get_names, size-get_names}

  -- The same strength and the same names in the same places
  abbrev pub Alike : SpecificEndpointQos p → SpecificEndpointQos p → Type 0
  Alike q r =
      (q.ownership_strength ≡ r.ownership_strength)
      × (get_names q.partitions ≡ get_names r.partitions)

  -- Of two policies the one is less than the other, or the other than the one, never both; or neither
  -- is, and then they have the same ownership strength and the same names in the same places. No
  -- comparison reads past the end of the other's names.
  pub qos_lt-compared :
      (q r : SpecificEndpointQos p)
      → ((qos_lt p q r ≡ some true) × (qos_lt p r q ≡ some false))
        ⊎ ((qos_lt p q r ≡ some false) × (qos_lt p r q ≡ some true))
        ⊎ ((qos_lt p q r ≡ some false) × (qos_lt p r q ≡ some false) × Alike q r)
  unfolding qos_lt
  qos_lt-compared q r = ground (
    arith,
    size-get_names q.partitions,
    size-get_names r.partitions,
    names_lt-Compared (get_names q.partitions) (get_names r.partitions),
  )

names_lt_trans :
    (ss ts us : List Text)
    → names_lt ss ts ≡ some true
    → names_lt ts us ≡ some true
    → names_lt ss us ≡ some true
unfolding names_lt
names_lt_trans [] ts us h k = cc
names_lt_trans (s ∷ ss) [] us h k = cc
names_lt_trans (s ∷ ss) (t ∷ ts) [] h k = cc
names_lt_trans (s ∷ ss) (t ∷ ts) (u ∷ us) h k = ground (
  arith,
  names_lt_trans ss ts us,
  text_lt_trans s t u,
  text_lt_trans t u s,
  text_lt_trans u s t,
  text_lt-connected s t,
  text_lt-connected t u,
  text_lt_self s,
)

-- The order is transitive.
pub qos_lt_trans :
    (p : Policies) (q r s : SpecificEndpointQos p)
    → qos_lt p q r ≡ some true
    → qos_lt p r s ≡ some true
    → qos_lt p q s ≡ some true
unfolding qos_lt
qos_lt_trans p q r s h k = ground (
  arith,
  names_lt_trans (p.get_names q.partitions) (p.get_names r.partitions) (p.get_names s.partitions),
)
