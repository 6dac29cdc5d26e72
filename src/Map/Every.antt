-- ===== src/Map/Every.antt =====
-- What holds of every entry of a map.
use dds_pipe.Base.{none, some, true, false, [], ◌∷◌, Key, ite, if◌then◌else◌}
use dds_pipe.Map.{Map, lookup, contains, insert, replace, place}

module _ {ℓ} {K V : Type ℓ} (P : K → V → Type ℓ) where
  abbrev pub Every : Map K V → Type ℓ
  Every [] = Unit
  Every ((k, v) ∷ m) = P k v × Every m

module _ {ℓ} {K V : Type ℓ} ⦃key : Key K⦄ (P : K → V → Type ℓ) where
  replace-Every : (k : K) (v : V) (m : Map K V) → P k v → Every P m → Every P (replace k v m)
  unfolding replace
  replace-Every k v [] p e = e
  replace-Every k v ((j, w) ∷ m) p e =
      elim (key.dec k j) as (λ d. Every P (ite d ((k, v) ∷ m) ((j, w) ∷ replace k v m))) [
        | yes q ↦ (p, e.1)
        | no q ↦ (e.0, replace-Every k v m p e.1)
      ]

  place-Every : (k : K) (v : V) (m : Map K V) → P k v → Every P m → Every P (place k v m)
  unfolding place
  place-Every k v [] p e = (p, e)
  place-Every k v ((j, w) ∷ m) p e =
      elim (key.ltb k j)
        as (λ b. Every P (if b then (k, v) ∷ (j, w) ∷ m else (j, w) ∷ place k v m)) [
          | true ↦ (p, e)
          | false ↦ (e.0, place-Every k v m p e.1)
        ]

  pub insert-Every : (k : K) (v : V) (m : Map K V) → P k v → Every P m → Every P (insert k v m)
  unfolding insert
  insert-Every k v m p e =
      elim (contains k m) as (λ b. Every P (if b then replace k v m else place k v m)) [
        | true ↦ replace-Every k v m p e
        | false ↦ place-Every k v m p e
      ]

  -- It holds of what is found, or of what stands for it.
  pub value-Every :
      (d : V) (k : K) (m : Map K V) (Q : V → Type ℓ)
      → ((j : K) (v : V) → P j v → Q v)
      → Q d
      → Every P m
      → Q (elim (lookup k m) [ none ↦ d | some v ↦ v ])
  unfolding lookup
  value-Every d k [] Q f q e = q
  value-Every d k ((j, v) ∷ m) Q f q e =
      elim (key.dec k j)
        as (λ c. Q (elim (ite c (some v) (lookup k m)) [ none ↦ d | some w ↦ w ])) [
          | yes same ↦ f j v e.0
          | no other ↦ value-Every d k m Q f q e.1
        ]
