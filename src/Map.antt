-- ===== src/Map.antt =====
-- `std::map`, as the sources use it: an association list in the order of its keys, with
-- `find`/`count`/`at`, `m[k] = v`, `insert`/`emplace` (which keep what is there), `erase` and a
-- loop over the values.
pub mod Every
use dds_pipe.Base.{
  ◌++◌, ◌≢◌, suc, ◌+◌, ◌≡◌, refl, ite, Bool, true, false, Option, none, some, List, [], ◌∷◌, arith,
  Key, Option-cases, inl, inr, sym, ap, ◌∙◌, if◌then◌else◌, length,
}

abbrev pub Map {ℓ} : Type ℓ → Type ℓ → Type ℓ
Map K V = List (K × V)

abbrev pub is_some {ℓ} : {A : Type ℓ} → Option A → Bool
is_some none = false
is_some (some a) = true

module _ {ℓ} {K V : Type ℓ} ⦃key : Key K⦄ where
  unfoldable pub lookup : K → Map K V → Option V
  lookup k [] = none
  lookup k ((j, v) ∷ m) = ite (key.dec k j) (some v) (lookup k m)

  -- `m.count(k) != 0`
  abbrev pub contains : K → Map K V → Bool
  contains k m = is_some (lookup k m)

  -- A new value for a key that is there.
  unfoldable pub replace : K → V → Map K V → Map K V
  replace k v [] = []
  replace k v ((j, w) ∷ m) = ite (key.dec k j) ((k, v) ∷ m) ((j, w) ∷ replace k v m)

  -- A new key, before the first that is greater.
  unfoldable pub place : K → V → Map K V → Map K V
  place k v [] = (k, v) ∷ []
  place k v ((j, w) ∷ m) = if key.ltb k j then (k, v) ∷ (j, w) ∷ m else (j, w) ∷ place k v m

  -- `m[k] = v`
  unfoldable pub insert : K → V → Map K V → Map K V
  unfolding lookup replace place
  insert k v m = if contains k m then replace k v m else place k v m

  -- `m.emplace(k, v)`
  unfoldable pub emplace : K → V → Map K V → Map K V
  unfolding insert
  emplace k v m = if contains k m then m else insert k v m

  unfoldable pub erase : K → Map K V → Map K V
  erase k [] = []
  erase k ((j, v) ∷ m) = ite (key.dec k j) (erase k m) ((j, v) ∷ erase k m)

  lookup-replace :
      (j k : K) (v : V) (m : Map K V)
      → lookup j (replace k v m)
        ≡ ite (key.dec j k) (if contains k m then some v else none) (lookup j m)
  unfolding lookup replace
  lookup-replace j k v [] = ground arith
  lookup-replace j k v ((i, w) ∷ m) = ground (arith, lookup-replace j k v m)

  lookup-place :
      (j k : K) (v : V) (m : Map K V)
      → lookup k m ≡ none
      → lookup j (place k v m) ≡ ite (key.dec j k) (some v) (lookup j m)
  unfolding lookup place
  lookup-place j k v [] h = refl
  lookup-place j k v ((i, w) ∷ m) h = ground (arith, lookup-place j k v m)

  pub lookup-insert :
      (j k : K) (v : V) (m : Map K V)
      → lookup j (insert k v m) ≡ ite (key.dec j k) (some v) (lookup j m)
  unfolding insert
  lookup-insert j k v m = elim (Option-cases (lookup k m)) [
    | inl e ↦ rw (e, insert) (lookup-place j k v m e)
    | inr (w, e) ↦ rw (e, insert) (ground (arith, lookup-replace j k v m))
  ]

  pub lookup-insert_same : (k : K) (v : V) (m : Map K V) → lookup k (insert k v m) ≡ some v
  lookup-insert_same k v m = ground (arith, lookup-insert k k v m)

  pub lookup-insert_other :
      (j k : K) (v : V) (m : Map K V) → j ≢ k → lookup j (insert k v m) ≡ lookup j m
  lookup-insert_other j k v m other = ground (arith, other, lookup-insert j k v m)

  pub lookup-erase :
      (j k : K) (m : Map K V) → lookup j (erase k m) ≡ ite (key.dec j k) none (lookup j m)
  unfolding lookup erase
  lookup-erase j k [] = ground arith
  lookup-erase j k ((i, w) ∷ m) = ground (arith, lookup-erase j k m)

  -- No key occurs twice.
  abbrev pub Unique : Map K V → Type ℓ
  Unique [] = Unit
  Unique ((k, v) ∷ m) = (lookup k m ≡ none) × Unique m

  replace-Unique : (k : K) (v : V) (m : Map K V) → Unique m → Unique (replace k v m)
  unfolding replace
  replace-Unique k v [] u = u
  replace-Unique k v ((j, w) ∷ m) u =
      elim (key.dec k j) as (λ d. Unique (ite d ((k, v) ∷ m) ((j, w) ∷ replace k v m))) [
        | yes p ↦ (rw p u.0, u.1)
        | no p ↦ (ground (arith, lookup-replace j k v m), replace-Unique k v m u.1)
      ]

  place-Unique : (k : K) (v : V) (m : Map K V) → lookup k m ≡ none → Unique m → Unique (place k v m)
  unfolding place lookup
  place-Unique k v [] h u = (refl, tt)
  place-Unique k v ((j, w) ∷ m) h u =
      elim (key.ltb k j)
        as (λ b. Unique (if b then (k, v) ∷ (j, w) ∷ m else (j, w) ∷ place k v m)) [
          | true ↦ (h, u)
          | false ↦ (ground (arith, lookup-place j k v m), place-Unique k v m (ground arith) u.1)
        ]

  pub insert-Unique : (k : K) (v : V) (m : Map K V) → Unique m → Unique (insert k v m)
  unfolding insert
  insert-Unique k v m u = elim (Option-cases (lookup k m)) [
    | inl e ↦ rw (e, insert) (place-Unique k v m e u)
    | inr (w, e) ↦ rw (e, insert) (replace-Unique k v m u)
  ]

  pub erase-Unique : (k : K) (m : Map K V) → Unique m → Unique (erase k m)
  unfolding erase
  erase-Unique k [] u = u
  erase-Unique k ((j, w) ∷ m) u =
      elim (key.dec k j) as (λ d. Unique (ite d (erase k m) ((j, w) ∷ erase k m))) [
        | yes p ↦ erase-Unique k m u.1
        | no p ↦ (ground (arith, lookup-erase j k m), erase-Unique k m u.1)
      ]

  length-replace : (k : K) (v : V) (m : Map K V) → length (replace k v m) ≡ length m
  unfolding replace
  length-replace k v [] = refl
  length-replace k v ((j, w) ∷ m) = ground (arith, length-replace k v m)

  length-place : (k : K) (v : V) (m : Map K V) → length (place k v m) ≡ suc (length m)
  unfolding place
  length-place k v [] = refl
  length-place k v ((j, w) ∷ m) = ground (arith, length-place k v m)

  pub length-insert :
      (k : K) (v : V) (m : Map K V)
      → length (insert k v m) ≡ (if contains k m then length m else suc (length m))
  unfolding insert
  length-insert k v m = elim (Option-cases (lookup k m)) [
    | inl e ↦ rw (e, insert) (length-place k v m)
    | inr (w, e) ↦ rw (e, insert) (length-replace k v m)
  ]

  length-erase_absent : (k : K) (m : Map K V) → lookup k m ≡ none → length (erase k m) ≡ length m
  unfolding erase lookup
  length-erase_absent k [] h = refl
  length-erase_absent k ((j, w) ∷ m) h = ground (arith, length-erase_absent k m)

  pub length-erase :
      (k : K) (m : Map K V)
      → Unique m
      → length (erase k m) + (if contains k m then 1 else 0) ≡ length m
  unfolding erase lookup
  length-erase k [] u = omega arith
  length-erase k ((j, w) ∷ m) u =
      elim (key.dec k j)
        as (λ d.
          length (ite d (erase k m) ((j, w) ∷ erase k m))
            + (if is_some (ite d (some w) (lookup k m)) then 1 else 0)
          ≡ suc (length m)) [
            | yes p ↦ omega (arith, length-erase_absent k m (rw p u.0))
            | no p ↦ omega (arith, length-erase k m u.1)
          ]

  replace-replace : (k : K) (v w : V) (m : Map K V) → replace k v (replace k w m) ≡ replace k v m
  unfolding replace
  replace-replace k v w [] = refl
  replace-replace k v w ((j, x) ∷ m) = ground (arith, replace-replace k v w m)

  replace-place :
      (k : K) (v w : V) (m : Map K V) → lookup k m ≡ none → replace k v (place k w m) ≡ place k v m
  unfolding replace place lookup
  replace-place k v w [] h = ground arith
  replace-place k v w ((j, x) ∷ m) h = ground (arith, replace-place k v w m)

  insert_absent : (k : K) (v : V) (m : Map K V) → lookup k m ≡ none → insert k v m ≡ place k v m
  unfolding insert
  insert_absent k v m e = rw e

  insert_present :
      (k : K) (v : V) (m : Map K V) (x : V) → lookup k m ≡ some x → insert k v m ≡ replace k v m
  unfolding insert
  insert_present k v m x e = rw e

  -- The second of two writes at a key stands.
  pub insert-insert : (k : K) (v w : V) (m : Map K V) → insert k v (insert k w m) ≡ insert k v m
  insert-insert k v w m = elim (Option-cases (lookup k m)) [
    | inl e ↦
        insert_present k v (insert k w m) w (ground (arith, lookup-insert k k w m))
        ∙ ap (replace k v) (insert_absent k w m e)
        ∙ replace-place k v w m e
        ∙ sym (insert_absent k v m e)
    | inr (x, e) ↦
        insert_present k v (insert k w m) w (ground (arith, lookup-insert k k w m))
        ∙ ap (replace k v) (insert_present k w m x e)
        ∙ replace-replace k v w m
        ∙ sym (insert_present k v m x e)
  ]

  -- Every key is below a new one, in the order of the keys.
  abbrev pub Below : K → Map K V → Type ℓ
  Below k [] = Unit
  Below k ((j, w) ∷ m) = (key.ltb k j ≡ false) × (k ≢ j) × Below k m

  Below-absent : (k : K) (m : Map K V) → Below k m → lookup k m ≡ none
  unfolding lookup
  Below-absent k [] b = refl
  Below-absent k ((j, w) ∷ m) b = ground (arith, Below-absent k m b.2)

  place-greatest : (k : K) (v : V) (m : Map K V) → Below k m → place k v m ≡ m ++ (k, v) ∷ []
  unfolding place
  place-greatest k v [] b = refl
  place-greatest k v ((j, w) ∷ m) b = ground (arith, place-greatest k v m b.2)

  -- A key above all others goes to the end.
  pub insert-greatest :
      (k : K) (v : V) (m : Map K V)
      → Below k m
      → (lookup k m ≡ none) × (insert k v m ≡ m ++ (k, v) ∷ [])
  insert-greatest k v m b =
      (Below-absent k m b, insert_absent k v m (Below-absent k m b) ∙ place-greatest k v m b)

  pub lookup-emplace :
      (j k : K) (v : V) (m : Map K V)
      → lookup j (emplace k v m)
        ≡ (if contains k m then lookup j m else ite (key.dec j k) (some v) (lookup j m))
  unfolding emplace
  lookup-emplace j k v m = ground (arith, lookup-insert j k v m)

  pub emplace-Unique : (k : K) (v : V) (m : Map K V) → Unique m → Unique (emplace k v m)
  unfolding emplace
  emplace-Unique k v m u = elim (contains k m) as (λ b. Unique (if b then m else insert k v m)) [
    | true ↦ u
    | false ↦ insert-Unique k v m u
  ]
