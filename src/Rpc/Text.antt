-- ===== src/Rpc/Text.antt =====
-- What RpcTopic.cpp uses of `std::string` and `std::regex_replace`, on the bytes of a text. Each of its
-- regular expressions is a literal, or two literals with `|` between.
use Prim.Native.Char.{code}
use Prim.Native.String.{String}
use dds_pipe.Base.{
  ℕ, zero, suc, ◌+◌, ◌-◌, ◌^◌, ◌≤◌, ◌<◌, ◌≡◌, refl, ap, Bool, true, false, List, [], ◌∷◌, ◌++◌,
  Option, none, some, if◌then◌else◌, ◌==◌, arith, length, Bool-cases, Option-cases, inl, inr,
}

abbrev pub Text : Type 0
Text = List ℕ

-- The codes of a literal, all of them ASCII.
abbrev pub codes : String → Text
codes String.[] = []
codes (String.◌∷◌ c s) = code c ∷ codes s

-- Whether a text begins with a pattern.
unfoldable pub starts : Text → Text → Bool
starts [] s = true
starts (c ∷ p) [] = false
starts (c ∷ p) (d ∷ s) = if c == d then starts p s else false

abbrev pub npos : ℕ
npos = 2 ^ 64 - 1

abbrev pub position : Option ℕ → ℕ
position none = npos
position (some i) = i

abbrev pub next : Option ℕ → Option ℕ
next none = none
next (some i) = some (suc i)

unfoldable pub first_at : Text → Text → Option ℕ
unfolding starts
first_at p [] = if starts p [] then some 0 else none
first_at p (c ∷ s) = let rest = first_at p s in if starts p (c ∷ s) then some 0 else next rest

unfoldable pub last_at : Text → Text → Option ℕ
unfolding starts
last_at p [] = if starts p [] then some 0 else none
last_at p (c ∷ s) = elim (last_at p s) [
  | some i ↦ some (suc i)
  | none ↦ if starts p (c ∷ s) then some 0 else none
]

-- `s.find(p)` and `s.rfind(p)`
unfoldable pub find : Text → Text → ℕ
unfolding first_at
find p s = position (first_at p s)

unfoldable pub rfind : Text → Text → ℕ
unfolding last_at
rfind p s = position (last_at p s)

-- The rest of `regex_replace` after `n` more bytes of a match.
unfoldable pub replace_from : Text → Text → ℕ → Text → Text
unfolding starts
replace_from p r n [] = []
replace_from p r (suc n) (c ∷ s) = replace_from p r n s
replace_from p r zero (c ∷ s) =
    let matched = replace_from p r (length p - 1) s in
    let other = replace_from p r 0 s in if starts p (c ∷ s) then r ++ matched else c ∷ other

-- `std::regex_replace(s, std::regex(p), r)` for a literal `p` that is not empty
unfoldable pub regex_replace : Text → Text → Text → Text
unfolding replace_from
regex_replace s p r = replace_from p r 0 s

unfoldable pub remove_from : Text → Text → ℕ → Text → Text
unfolding starts
remove_from p q n [] = []
remove_from p q (suc n) (c ∷ s) = remove_from p q n s
remove_from p q zero (c ∷ s) =
    let first = remove_from p q (length p - 1) s in
    let second = remove_from p q (length q - 1) s in
    let other = remove_from p q 0 s in
    if starts p (c ∷ s) then first else if starts q (c ∷ s) then second else c ∷ other

-- `std::regex_replace(s, std::regex(p + "|" + q), "")`
unfoldable pub regex_remove : Text → Text → Text → Text
unfolding remove_from
regex_remove s p q = remove_from p q 0 s

-- A pattern begins nowhere in `s`, when `t` follows it.
abbrev pub IsFree : Text → Text → Text → Type 0
IsFree p [] t = Unit
IsFree p (c ∷ s) t = (starts p (c ∷ s ++ t) ≡ false) × IsFree p s t

pub replace-free :
    (p r s t : Text) → IsFree p s t → regex_replace (s ++ t) p r ≡ s ++ regex_replace t p r
unfolding regex_replace
replace-free p r [] t f = refl
replace-free p r (c ∷ s) t f = rw f.0 (ap (λ u. c ∷ u) (replace-free p r s t f.1))

pub remove-free :
    (p q s t : Text)
    → IsFree p s t
    → IsFree q s t
    → regex_remove (s ++ t) p q ≡ s ++ regex_remove t p q
unfolding regex_remove
remove-free p q [] t f g = refl
remove-free p q (c ∷ s) t f g = rw (f.0, g.0) (ap (λ u. c ∷ u) (remove-free p q s t f.1 g.1))

starts_long : (p s : Text) → starts p s ≡ true → length p ≤ length s
unfolding starts
starts_long [] s h = omega arith
starts_long (c ∷ p) [] h = ground (arith, h)
starts_long (c ∷ p) (d ∷ s) h = ground (arith, h, starts_long p s)

pub last_at-short : (p s : Text) → length s < length p → last_at p s ≡ none
unfolding last_at
last_at-short p [] h = ground (arith, starts_long p [])
last_at-short p (c ∷ s) h = ground (arith, last_at-short p s, starts_long p (c ∷ s))

-- An occurrence behind `s` is found behind `s`.
pub last_at-behind :
    (p s t : Text) (i : ℕ) → last_at p t ≡ some i → last_at p (s ++ t) ≡ some (length s + i)
unfolding last_at
last_at-behind p [] t i h = ground (arith, h)
last_at-behind p (c ∷ s) t i h = rw (last_at-behind p s t i h) (ap some (omega arith))

pub starts_split : (p s : Text) → starts p s ≡ true → (after : Text) × (s ≡ p ++ after)
unfolding starts
starts_split [] s h = (s, refl)
starts_split (c ∷ p) [] h = ground (arith, h)
starts_split (c ∷ p) (d ∷ s) h = elim (Bool-cases (starts p s)) [
  | inl t ↦ let (after, e) = starts_split p s t in (after, ground (arith, h, e))
  | inr f ↦ ground (arith, h, f)
]

-- What is found is an occurrence.
pub last_at-split :
    (p s : Text) (i : ℕ)
    → last_at p s ≡ some i
    → (before : Text) × (after : Text) × (s ≡ before ++ p ++ after) × (length before ≡ i)
unfolding last_at
last_at-split p [] i h = elim (Bool-cases (starts p [])) [
  | inl t ↦ let (after, e) = starts_split p [] t in ([], after, e, ground (arith, h, t))
  | inr f ↦ ground (arith, h, f)
]
last_at-split p (c ∷ s) i h = elim (Option-cases (last_at p s)) [
  | inl gone ↦ elim (Bool-cases (starts p (c ∷ s))) [
    | inl t ↦
        let (after, e) = starts_split p (c ∷ s) t in ([], after, e, ground (arith, h, t, gone))
    | inr f ↦ ground (arith, h, f, gone)
  ]
  | inr (j, found) ↦
      let (before, after, e, n) = last_at-split p s j found in
      (c ∷ before, after, ap (λ u. c ∷ u) e, ground (arith, h, found, n))
]
