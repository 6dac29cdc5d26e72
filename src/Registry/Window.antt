-- ===== src/Registry/Window.antt =====
-- The registry of communication/rpc/ServiceRegistry.cpp as a window over the requests.
use dds_pipe.Map.{
  Map, insert, Unique, length-insert, length-erase, insert-greatest, insert-Unique, insert-greatest,
  Below, erase-Unique,
}
use dds_pipe.Base.{
  ℕ, zero, suc, nat_key, ◌-◌, ◌≡◌, ◌≤◌, ◌<◌, List, [], ◌∷◌, ◌++◌, ◌==◌, if◌then◌else◌, length,
  length-append, ParticipantId, arith, Bool-cases, inl, inr, ◌∙◌, ap, sym,
}
use mathlib.Core.List.{append-nil, append_assoc}
use dds_pipe.Registry.{
  ServiceRegistry, create, add, add_entry, remove, enable, disable, erase_begin,
  default_max_entries,
}

-- What a client does to a registry.
pub data Call (S : Type 0) : Type 0 where
  adds : ℕ → ParticipantId × S → Call S
  removes : ℕ → Call S
  enables : Call S
  disables : Call S

module _ {S : Type 0} where
  pub apply : ServiceRegistry S → Call S → ServiceRegistry S
  apply r (adds idx e) = add r idx e
  apply r (removes idx) = remove r idx
  apply r enables = enable r
  apply r disables = disable r

  pub apply_all : ServiceRegistry S → List (Call S) → ServiceRegistry S
  unfolding apply
  apply_all r [] = r
  apply_all r (c ∷ cs) = apply_all (apply r c) cs

  abbrev IsBounded : ServiceRegistry S → Type 0
  IsBounded r = (length r.registry < default_max_entries) × Unique r.registry

  erase_begin-Unique : (m : Map ℕ (ParticipantId × S)) → Unique m → Unique (erase_begin m)
  erase_begin-Unique [] u = tt
  erase_begin-Unique (x ∷ m) u = u.1

  length-erase_begin : (m : Map ℕ (ParticipantId × S)) → length (erase_begin m) ≡ length m - 1
  length-erase_begin [] = omega arith
  length-erase_begin (x ∷ m) = omega arith

  apply-IsBounded : (r : ServiceRegistry S) (c : Call S) → IsBounded r → IsBounded (apply r c)
  unfolding apply add add_entry remove enable disable
  apply-IsBounded r (adds idx e) b = ground (
    arith,
    length-insert idx e r.registry,
    length-erase_begin (insert idx e r.registry),
    insert-Unique idx e r.registry b.1,
    erase_begin-Unique (insert idx e r.registry),
  )
  apply-IsBounded r (removes idx) b =
      ground (arith, length-erase idx r.registry b.1, erase-Unique idx r.registry b.1)
  apply-IsBounded r enables b = b
  apply-IsBounded r disables b = b

  all-IsBounded :
      (r : ServiceRegistry S) (cs : List (Call S)) → IsBounded r → IsBounded (apply_all r cs)
  unfolding apply_all
  all-IsBounded r [] b = b
  all-IsBounded r (c ∷ cs) b = all-IsBounded (apply r c) cs (apply-IsBounded r c b)

  -- Whatever calls are made on a new registry, it holds fewer entries than `DEFAULT_MAX_ENTRIES_`.
  pub size-bounded :
      (cs : List (Call S)) → length (apply_all (create {S = S}) cs).registry < default_max_entries
  size-bounded cs = (all-IsBounded create cs (omega arith, tt)).0

  -- Entries whose sequence numbers rise, each above all that come before.
  abbrev pub Rising : ℕ → Map ℕ (ParticipantId × S) → Type 0
  Rising n [] = Unit {0}
  Rising n ((k, e) ∷ m) = (n ≤ k) × Rising (suc k) m

  pub add_each : ServiceRegistry S → Map ℕ (ParticipantId × S) → ServiceRegistry S
  unfolding add
  add_each r [] = r
  add_each r ((k, e) ∷ m) = add_each (add r k e) m

  -- All sequence numbers are below `n`.
  abbrev Under : ℕ → Map ℕ (ParticipantId × S) → Type 0
  Under n [] = Unit {0}
  Under n ((k, e) ∷ m) = (k < n) × Under n m

  Under-mono : (a b : ℕ) (m : Map ℕ (ParticipantId × S)) → a ≤ b → Under a m → Under b m
  Under-mono a b [] h u = tt
  Under-mono a b (x ∷ m) h u = (omega arith, Under-mono a b m h u.1)

  Under-append :
      (a : ℕ) (x : ℕ × (ParticipantId × S)) (m : Map ℕ (ParticipantId × S))
      → Under a m
      → x.0 < a
      → Under a (m ++ x ∷ [])
  Under-append a x [] u h = (h, tt)
  Under-append a x (y ∷ m) u h = (u.0, Under-append a x m u.1 h)

  Under-erase_begin : (a : ℕ) (m : Map ℕ (ParticipantId × S)) → Under a m → Under a (erase_begin m)
  Under-erase_begin a [] u = tt
  Under-erase_begin a (x ∷ m) u = u.1

  Under-Below : (n k : ℕ) (m : Map ℕ (ParticipantId × S)) → Under n m → n ≤ k → Below k m
  Under-Below n k [] u h = tt
  Under-Below n k (x ∷ m) u h = (ground arith, omega arith, Under-Below n k m u.1 h)

  abbrev pub drop : ℕ → Map ℕ (ParticipantId × S) → Map ℕ (ParticipantId × S)
  drop zero m = m
  drop (suc n) [] = []
  drop (suc n) (x ∷ m) = drop n m

  -- The last `n` entries.
  abbrev pub last : ℕ → Map ℕ (ParticipantId × S) → Map ℕ (ParticipantId × S)
  last n m = drop (length m - n) m

  last_all : (n : ℕ) (m : Map ℕ (ParticipantId × S)) → length m ≤ n → last n m ≡ m
  last_all n m h = let e : length m - n ≡ 0 = omega arith in rw e

  last_cons :
      (n : ℕ) (x : ℕ × (ParticipantId × S)) (m : Map ℕ (ParticipantId × S))
      → n ≤ length m
      → last n (x ∷ m) ≡ last n m
  last_cons n x m h = let e : suc (length m) - n ≡ suc (length m - n) = omega arith in rw e

  -- The table after a new greatest number: the oldest entry goes when the table would be full.
  add-new :
      (r : ServiceRegistry S) (n k : ℕ) (e : ParticipantId × S)
      → Under n r.registry
      → n ≤ k
      → (add r k e).registry ≡ (
          if suc (length r.registry) == default_max_entries
          then erase_begin (r.registry ++ (k, e) ∷ [])
          else r.registry ++ (k, e) ∷ [])
  unfolding add add_entry
  add-new r n k e u h =
      let (absent, grown) = insert-greatest k e r.registry (Under-Below n k r.registry u h) in
      ground (arith, absent, grown, length-append r.registry ((k, e) ∷ []))

  last-shift :
      (x : ℕ × (ParticipantId × S)) (w m : Map ℕ (ParticipantId × S))
      → length w ≡ 4999
      → last 4999 (erase_begin (w ++ x ∷ []) ++ m) ≡ last 4999 (w ++ x ∷ m)
  last-shift x [] m h = absurd (omega arith)
  last-shift x (y ∷ w) m h =
      ap (last 4999) (append_assoc w (x ∷ []) m)
      ∙ sym (last_cons 4999 y (w ++ x ∷ m) (omega (arith, length-append w (x ∷ m))))

  -- The length of the table after a new greatest number.
  new-length :
      (r : ServiceRegistry S) (n k : ℕ) (e : ParticipantId × S)
      → Under n r.registry
      → n ≤ k
      → length r.registry < default_max_entries
      → length (add r k e).registry < default_max_entries
  new-length r n k e u h b = ground (
    arith,
    add-new r n k e u h,
    length-append r.registry ((k, e) ∷ []),
    length-erase_begin (r.registry ++ (k, e) ∷ []),
  )

  add_each-last :
      (m : Map ℕ (ParticipantId × S)) (r : ServiceRegistry S) (n : ℕ)
      → Under n r.registry
      → length r.registry < default_max_entries
      → Rising n m
      → (add_each r m).registry ≡ last 4999 (r.registry ++ m)
  unfolding add_each
  add_each-last [] r n u b up =
      rw (append-nil r.registry) (sym (last_all 4999 r.registry (omega arith)))
  add_each-last ((k, e) ∷ m) r n u b up =
      let rest = λ (w : Under (suc k) (add r k e).registry).
        add_each-last m (add r k e) (suc k) w (new-length r n k e u up.0 b) up.1 in
      let later =
        Under-append (suc k) (k, e) r.registry (Under-mono n (suc k) r.registry (omega arith) u)
          (omega arith) in
      elim (Bool-cases (suc (length r.registry) == default_max_entries)) [
        | inl full ↦
            let new = rw full at (add-new r n k e u up.0) in
            rest (rw new (Under-erase_begin (suc k) _ later))
            ∙ rw new (last-shift (k, e) r.registry m (ground arith))
        | inr room ↦
            let new = rw room at (add-new r n k e u up.0) in
            rest (rw new later) ∙ rw new (ap (last 4999) (append_assoc r.registry ((k, e) ∷ []) m))
      ]

  -- Requests that are added under rising sequence numbers leave a new registry with exactly the
  -- last 4999 of them, in their order.
  pub keeps_newest :
      (m : Map ℕ (ParticipantId × S))
      → Rising 0 m
      → (add_each (create {S = S}) m).registry ≡ last 4999 m
  keeps_newest m up = add_each-last m create 0 tt (omega arith) up
