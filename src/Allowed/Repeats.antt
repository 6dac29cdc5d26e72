-- ===== src/Allowed/Repeats.antt =====
-- Dropping repeated filters does not change what passes some filter of the list. `p` is what the
-- filters are asked: it holds of a filter if it holds of one that the filter contains.
use dds_pipe.Base.{◌≡◌, refl, Bool, true, false, List, [], ◌∷◌, if◌then◌else◌, any, arith, ◌∙◌}
use dds_pipe.Allowed.{
  FilterKind, set_insert, set_erase, set_place, equivalent, compare_stored, erase_all, store_topic,
  store_topics, get_topic_list_without_repetition,
}

module _ (k : FilterKind) (p : k.Filter → Bool)
    (contains-holds : (f g : k.Filter) → k.contains f g ≡ true → p g ≡ true → p f ≡ true)
    (same_holds : (f g : k.Filter) → k.less f g ≡ false → k.less g f ≡ false → p f ≡ p g) where
  open k use {Filter, contains, less, less_irrefl}

  -- Some filter of the list passes.
  abbrev hit : List Filter → Bool
  hit = any p

  hit-set_place :
      (f : Filter) (s : List Filter) → hit (set_place k f s) ≡ (if p f then true else hit s)
  unfolding set_place
  hit-set_place f [] = refl
  hit-set_place f (g ∷ s) = ground (arith, hit-set_place f s)

  hit-equivalent :
      (f : Filter) (s : List Filter) → any (equivalent k f) s ≡ true → p f ≡ true → hit s ≡ true
  hit-equivalent f [] e m = cc
  hit-equivalent f (g ∷ s) e m = ground (arith, hit-equivalent f s, same_holds f g)

  hit-set_insert :
      (f : Filter) (s : List Filter) → hit (set_insert k f s) ≡ (if p f then true else hit s)
  unfolding set_insert
  hit-set_insert f s = ground (arith, hit-set_place f s, hit-equivalent f s)

  hit-set_erase :
      (f : Filter) (s : List Filter)
      → (if p f then true else hit (set_erase k f s)) ≡ (if p f then true else hit s)
  unfolding set_erase
  hit-set_erase f [] = refl
  hit-set_erase f (g ∷ s) = ground (arith, hit-set_erase f s, same_holds f g)

  -- Every filter of the list lets through at most what `f` does.
  abbrev Within : Filter → List Filter → Type 0
  Within f [] = Unit {0}
  Within f (g ∷ gs) = (p g ≡ true → p f ≡ true) × Within f gs

  hit-erase_all :
      (f : Filter) (gs s : List Filter)
      → Within f gs
      → (if p f then true else hit (erase_all k gs s)) ≡ (if p f then true else hit s)
  unfolding erase_all
  hit-erase_all f [] s w = refl
  hit-erase_all f (g ∷ gs) s w =
      hit-erase_all f gs (set_erase k g s) w.1 ∙ ground (arith, hit-set_erase g s, w.0)

  -- What the loop finds: topics within the new one, and one that contains it if it is not added.
  compare_stored-Within : (f : Filter) (s : List Filter) → Within f (compare_stored k f s).1
  unfolding compare_stored
  compare_stored-Within f [] = tt
  compare_stored-Within f (g ∷ s) = ground (arith, compare_stored-Within f s, contains-holds f g)

  -- No two elements of a set are equivalent.
  abbrev Distinct : List Filter → Type 0
  Distinct [] = Unit {0}
  Distinct (g ∷ s) = (any (equivalent k g) s ≡ false) × Distinct s

  any-set_erase :
      (f g : Filter) (s : List Filter)
      → any (equivalent k f) s ≡ false
      → any (equivalent k f) (set_erase k g s) ≡ false
  unfolding set_erase
  any-set_erase f g [] h = refl
  any-set_erase f g (x ∷ s) h = ground (arith, any-set_erase f g s)

  set_erase-Distinct : (g : Filter) (s : List Filter) → Distinct s → Distinct (set_erase k g s)
  unfolding set_erase
  set_erase-Distinct g [] d = tt
  set_erase-Distinct g (x ∷ s) d =
      ground (arith, set_erase-Distinct g s d.1, any-set_erase x g s d.0)

  erase_all-Distinct : (gs s : List Filter) → Distinct s → Distinct (erase_all k gs s)
  unfolding erase_all
  erase_all-Distinct [] s d = d
  erase_all-Distinct (g ∷ gs) s d =
      erase_all-Distinct gs (set_erase k g s) (set_erase-Distinct g s d)

  any-set_place :
      (f g : Filter) (s : List Filter)
      → equivalent k f g ≡ false
      → any (equivalent k f) s ≡ false
      → any (equivalent k f) (set_place k g s) ≡ false
  unfolding set_place
  any-set_place f g [] e h = ground arith
  any-set_place f g (x ∷ s) e h = ground (arith, any-set_place f g s)

  set_place-Distinct :
      (g : Filter) (s : List Filter)
      → any (equivalent k g) s ≡ false
      → Distinct s
      → Distinct (set_place k g s)
  unfolding set_place
  set_place-Distinct g [] h d = (refl, tt)
  set_place-Distinct g (x ∷ s) h d = ground (arith, set_place-Distinct g s, any-set_place x g s)

  set_insert-Distinct : (g : Filter) (s : List Filter) → Distinct s → Distinct (set_insert k g s)
  unfolding set_insert
  set_insert-Distinct g s d = ground (arith, set_place-Distinct g s)

  set_erase_absent :
      (g : Filter) (s : List Filter) → any (equivalent k g) s ≡ false → set_erase k g s ≡ s
  unfolding set_erase
  set_erase_absent g [] h = refl
  set_erase_absent g (x ∷ s) h = ground (arith, set_erase_absent g s)

  hit-erase_all_cons :
      (gs : List Filter) (g : Filter) (s : List Filter)
      → hit (erase_all k gs s) ≡ true
      → hit (erase_all k gs (g ∷ s)) ≡ true
  unfolding erase_all set_erase
  hit-erase_all_cons [] g s h = ground arith
  hit-erase_all_cons (x ∷ gs) g s h = ground (arith, hit-erase_all_cons gs g (set_erase k x s) h)

  -- Where the new topic is not added, one that contains it stays.
  compare_stored-hit :
      (f : Filter) (s : List Filter)
      → Distinct s
      → (compare_stored k f s).0 ≡ false
      → p f ≡ true
      → hit (erase_all k (compare_stored k f s).1 s) ≡ true
  unfolding compare_stored erase_all set_erase
  compare_stored-hit f [] d no_add m = cc
  compare_stored-hit f (g ∷ s) d no_add m = ground (
    arith,
    compare_stored-hit f s d.1,
    contains-holds g f,
    hit-erase_all_cons (compare_stored k f s).1 g s,
    set_erase_absent g s d.0,
    less_irrefl g,
  )

  hit-store_topic :
      (s : List Filter) (f : Filter)
      → Distinct s
      → hit (store_topic k s f) ≡ (if p f then true else hit s)
  unfolding store_topic
  hit-store_topic s f d = ground (
    arith,
    hit-set_insert f (erase_all k (compare_stored k f s).1 s),
    hit-erase_all f (compare_stored k f s).1 s (compare_stored-Within f s),
    compare_stored-hit f s d,
  )

  store_topic-Distinct : (s : List Filter) (f : Filter) → Distinct s → Distinct (store_topic k s f)
  unfolding store_topic
  store_topic-Distinct s f d = ground (
    arith,
    erase_all-Distinct (compare_stored k f s).1 s d,
    set_insert-Distinct f (erase_all k (compare_stored k f s).1 s),
  )

  hit-store_topics :
      (s fs : List Filter)
      → Distinct s
      → hit (store_topics k s fs) ≡ (if hit s then true else hit fs)
  unfolding store_topics
  hit-store_topics s [] d = ground arith
  hit-store_topics s (f ∷ fs) d = ground (
    arith,
    hit-store_topics (store_topic k s f) fs (store_topic-Distinct s f d),
    hit-store_topic s f d,
  )

  pub hit-unrepeated : (fs : List Filter) → hit (get_topic_list_without_repetition k fs) ≡ hit fs
  unfolding get_topic_list_without_repetition
  hit-unrepeated fs = hit-store_topics [] fs tt
