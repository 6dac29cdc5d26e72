-- ===== src/Payload/Count.antt =====
-- The pool as its clients see it: the payloads that they hold, the references that these make, and
-- the data behind an address with its reference count left out.
use mathlib.Core.Option.{some-injective}
use dds_pipe.Map.{Map, lookup}
use dds_pipe.Base.{
  ℕ, zero, suc, nat_key, ◌+◌, ◌≡◌, ◌≤◌, Option, none, some, List, [], ◌∷◌, length, ite, arith,
  subst, ap,
}
use dds_pipe.Payload.Defs.{Block, Memory, null, block, elsewhere, Payload}

abbrev pub All {ℓ κ} : {A : Type ℓ} → (A → Type κ) → List A → Type κ
All P [] = Unit
All P (x ∷ xs) = P x × All P xs

abbrev pub get_elem? {ℓ} : {A : Type ℓ} → List A → ℕ → Option A
get_elem? [] i = none
get_elem? (x ∷ xs) zero = some x
get_elem? (x ∷ xs) (suc i) = get_elem? xs i

abbrev pub remove_at {ℓ} : {A : Type ℓ} → ℕ → List A → List A
remove_at i [] = []
remove_at zero (x ∷ xs) = xs
remove_at (suc i) (x ∷ xs) = x ∷ remove_at i xs

module _ {ℓ κ} {A : Type ℓ} (P : A → Type κ) where
  pub All-get : (xs : List A) (i : ℕ) (x : A) → get_elem? xs i ≡ some x → All P xs → P x
  All-get [] i x e h = cc
  All-get (y ∷ xs) zero x e h = subst P (some-injective _ _ e) h.0
  All-get (y ∷ xs) (suc i) x e h = All-get xs i x e h.1

  pub All-remove_at : (i : ℕ) (xs : List A) → All P xs → All P (remove_at i xs)
  All-remove_at i [] h = tt
  All-remove_at zero (x ∷ xs) h = h.1
  All-remove_at (suc i) (x ∷ xs) h = (h.0, All-remove_at i xs h.1)

pub All-mono {ℓ κ} :
    {A : Type ℓ} {P Q : A → Type κ} → ((x : A) → P x → Q x) → (xs : List A) → All P xs → All Q xs
All-mono f [] h = tt
All-mono f (x ∷ xs) h = (f x h.0, All-mono f xs h.1)

pub length-remove_at {ℓ} : {A : Type ℓ} (i : ℕ) (xs : List A) → length (remove_at i xs) ≤ length xs
length-remove_at i [] = omega arith
length-remove_at zero (x ∷ xs) = omega arith
length-remove_at (suc i) (x ∷ xs) = omega (arith, length-remove_at i xs)

-- Whether a payload refers to a block.
abbrev pub refers : ℕ → Memory → ℕ
refers a null = 0
refers a (elsewhere bytes) = 0
refers a (block b) = ite (nat_key.dec b a) 1 0

-- The references that the held payloads make to a block.
unfoldable pub references : ℕ → List Payload → ℕ
references a [] = 0
references a (h ∷ hs) = refers a h.memory + references a hs

pub references-le-length : (a : ℕ) (hs : List Payload) → references a hs ≤ length hs
unfolding references
references-le-length a [] = omega arith
references-le-length a (h ∷ hs) = ground (arith, references-le-length a hs)

pub references-remove_at :
    (a i : ℕ) (hs : List Payload) (h : Payload)
    → get_elem? hs i ≡ some h
    → references a (remove_at i hs) + refers a h.memory ≡ references a hs
unfolding references
references-remove_at a i [] h e = cc
references-remove_at a zero (x ∷ hs) h e =
    omega (arith, ap (λ (q : Payload). refers a q.memory) (some-injective _ _ e))
references-remove_at a (suc i) (x ∷ hs) h e = omega (arith, references-remove_at a i hs h e)

pub references-get :
    (a j : ℕ) (hs : List Payload) (g : Payload)
    → get_elem? hs j ≡ some g
    → refers a g.memory ≤ references a hs
unfolding references
references-get a j [] g e = cc
references-get a zero (x ∷ hs) g e =
    omega (arith, ap (λ (q : Payload). refers a q.memory) (some-injective _ _ e))
references-get a (suc j) (x ∷ hs) g e = omega (arith, references-get a j hs g e)

-- What the heap says of an address: its reference count, 0 where there is no block, and its data.
abbrev pub refs_of : Option Block → ℕ
refs_of none = 0
refs_of (some b) = b.refs

abbrev pub refs_at : ℕ → Map ℕ Block → ℕ
refs_at a heap = refs_of (lookup a heap)

-- The payload's block is there, and holds the bytes that the payload speaks of.
pub record Fits (heap : Map ℕ Block) (h : Payload) : Type 0 where
  pub address : ℕ
  pub here : Block
  pub points : h.memory ≡ block address
  pub found : lookup address heap ≡ some here
  pub written : h.length ≤ length here.content
  pub sized : (length here.content ≤ here.size) × (here.size ≡ h.max_size)
