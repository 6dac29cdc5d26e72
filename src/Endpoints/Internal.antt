-- ===== src/Endpoints/Internal.antt =====
-- InternalReader (reader/auxiliar/InternalReader.cpp): a reader that the process itself feeds. A call
-- of the callback is counted.
use dds_pipe.Base.{
  ℕ, ◌+◌, ◌≡◌, refl, sym, ap, ◌∙◌, Bool, true, false, Option, none, some, List, [], ◌∷◌, ◌++◌,
  if◌then◌else◌, arith, ReturnCode, ok, no_data, not_enabled, append_assoc, append-nil,
}

pub record InternalReader (A : Type 0) : Type 0 where
  pub enabled : Bool
  pub data_to_send : List A
  pub callbacks : ℕ

pub data Call (A : Type 0) : Type 0 where
  receives : A → Call A
  takes enables disables : Call A

module _ {A : Type 0} where
  abbrev pub create : InternalReader A
  create = record { enabled = false; data_to_send = []; callbacks = 0 }

  unfoldable pub on_data_available : InternalReader A → InternalReader A
  on_data_available r = record r { callbacks = r.callbacks + 1 }

  unfoldable pub enable_nts : InternalReader A → InternalReader A
  unfolding on_data_available
  enable_nts r = elim r.data_to_send [ [] ↦ r | d ∷ ds ↦ on_data_available r ]

  -- BaseReader::enable and BaseReader::disable
  unfoldable pub enable : InternalReader A → InternalReader A
  unfolding enable_nts
  enable r = if r.enabled then r else enable_nts (record r { enabled = true })

  unfoldable pub disable : InternalReader A → InternalReader A
  disable r = if r.enabled then record r { enabled = false } else r

  unfoldable pub simulate_data_reception : A → InternalReader A → InternalReader A
  unfolding on_data_available
  simulate_data_reception d r =
      on_data_available (record r { data_to_send = r.data_to_send ++ (d ∷ []) })

  unfoldable pub take_nts : InternalReader A → ReturnCode × Option A × InternalReader A
  take_nts r = elim r.data_to_send [
    | [] ↦ (no_data, none, r)
    | d ∷ ds ↦ (ok, some d, record r { data_to_send = ds })
  ]

  -- BaseReader::take
  unfoldable pub take : InternalReader A → ReturnCode × Option A × InternalReader A
  unfolding take_nts
  take r = if r.enabled then take_nts r else (not_enabled, none, r)

  -- The data that the calls feed, and the data that they take.
  abbrev pub fed : List (Call A) → List A
  fed [] = []
  fed (receives d ∷ cs) = d ∷ fed cs
  fed (c ∷ cs) = fed cs

  abbrev pub given : Option A → List A → List A
  given none ds = ds
  given (some d) ds = d ∷ ds

  unfoldable pub run : List (Call A) → InternalReader A → List A × InternalReader A
  unfolding enable disable simulate_data_reception take
  run [] r = ([], r)
  run (receives d ∷ cs) r = run cs (simulate_data_reception d r)
  run (enables ∷ cs) r = run cs (enable r)
  run (disables ∷ cs) r = run cs (disable r)
  run (takes ∷ cs) r =
      let (code, got, next) = take r in let (rest, last) = run cs next in (given got rest, last)

  enable-data_to_send : (r : InternalReader A) → (enable r).data_to_send ≡ r.data_to_send
  unfolding enable
  enable-data_to_send r = ground arith

  disable-data_to_send : (r : InternalReader A) → (disable r).data_to_send ≡ r.data_to_send
  unfolding disable
  disable-data_to_send r = ground arith

  take-data_to_send :
      (r : InternalReader A) (ds : List A)
      → given (take r).1 ((take r).2.data_to_send ++ ds) ≡ r.data_to_send ++ ds
  unfolding take
  take-data_to_send r ds = ground arith

  received-data_to_send :
      (d : A) (r : InternalReader A) (ds : List A)
      → (simulate_data_reception d r).data_to_send ++ ds ≡ r.data_to_send ++ (d ∷ ds)
  unfolding simulate_data_reception
  received-data_to_send d r ds = append_assoc r.data_to_send (d ∷ []) ds

  given-append : (o : Option A) (ds es : List A) → given o ds ++ es ≡ given o (ds ++ es)
  given-append none ds es = refl
  given-append (some d) ds es = refl

  -- Over any calls, in order, the data that is taken, and after it the data that still waits, is the
  -- data that waited and then all that was fed: nothing is lost, repeated or overtaken, also while the
  -- reader is disabled.
  pub takes_in_order :
      (cs : List (Call A)) (r : InternalReader A)
      → (run cs r).0 ++ (run cs r).1.data_to_send ≡ r.data_to_send ++ fed cs
  unfolding run
  takes_in_order [] r = sym (append-nil r.data_to_send)
  takes_in_order (receives d ∷ cs) r =
      takes_in_order cs (simulate_data_reception d r) ∙ received-data_to_send d r (fed cs)
  takes_in_order (enables ∷ cs) r =
      takes_in_order cs (enable r) ∙ ap (λ ds. ds ++ fed cs) (enable-data_to_send r)
  takes_in_order (disables ∷ cs) r =
      takes_in_order cs (disable r) ∙ ap (λ ds. ds ++ fed cs) (disable-data_to_send r)
  takes_in_order (takes ∷ cs) r =
      given-append (take r).1 (run cs (take r).2).0 (run cs (take r).2).1.data_to_send
      ∙ ap (given (take r).1) (takes_in_order cs (take r).2)
      ∙ take-data_to_send r (fed cs)
