-- ===== src/Allowed.antt =====
-- AllowedTopicList (ddspipe_core/src/cpp/dynamic/AllowedTopicList.cpp). `IFilterTopic` and `ITopic`
-- are interfaces: a kind of filter is a record of their operations. `less` is the order by which
-- `std::set` keeps filters (IFilterTopic.cpp compares what they print).
mod Repeats
pub mod Meaning
mod Tests
use dds_pipe.Base.{ℕ, ◌≡◌, Bool, true, false, List, [], ◌∷◌, if◌then◌else◌, any, ◌&&◌}

pub record FilterKind : Type 1 where
  pub Topic : Type 0
  pub Filter : Type 0
  pub contains : Filter → Filter → Bool
  pub matches : Filter → Topic → Bool
  pub less : Filter → Filter → Bool
  pub less_irrefl : (f : Filter) → less f f ≡ false
  -- A filter that contains another lets through what the other does.
  pub contains-matches :
      (f g : Filter) (t : Topic) → contains f g ≡ true → matches g t ≡ true → matches f t ≡ true
  -- Filters that the set cannot tell apart let through the same topics.
  pub same_matches :
      (f g : Filter) (t : Topic) → less f g ≡ false → less g f ≡ false → matches f t ≡ matches g t

pub record AllowedTopicList (k : FilterKind) : Type 0 where
  pub allowlist : List k.Filter
  pub blocklist : List k.Filter

abbrev pub is_empty {ℓ} : {A : Type ℓ} → List A → Bool
is_empty [] = true
is_empty (x ∷ xs) = false

module _ (k : FilterKind) where
  open k use {Topic, Filter, contains, matches, less}

  -- What `std::set` takes for one element.
  abbrev pub equivalent : Filter → Filter → Bool
  equivalent f g = if less f g then false else if less g f then false else true

  -- `std::set::insert`: a new element goes before the first that is greater.
  unfoldable pub set_place : Filter → List Filter → List Filter
  set_place f [] = f ∷ []
  set_place f (g ∷ s) = if less f g then f ∷ g ∷ s else g ∷ set_place f s

  unfoldable pub set_insert : Filter → List Filter → List Filter
  unfolding set_place
  set_insert f s = if any (equivalent f) s then s else set_place f s

  unfoldable pub set_erase : Filter → List Filter → List Filter
  set_erase f [] = []
  set_erase f (g ∷ s) = if equivalent f g then set_erase f s else g ∷ set_erase f s

  -- The loop over the stored topics: whether to add the new one, and the stored ones to remove.
  unfoldable pub compare_stored : Filter → List Filter → Bool × List Filter
  compare_stored new_topic [] = (true, [])
  compare_stored new_topic (stored ∷ s) =
      let (add_it, repeated) = compare_stored new_topic s in
      if contains stored new_topic
      then (false, [])
      else if contains new_topic stored
      then (add_it, stored ∷ repeated)
      else (add_it, repeated)

  unfoldable pub erase_all : List Filter → List Filter → List Filter
  unfolding set_erase
  erase_all [] s = s
  erase_all (f ∷ fs) s = erase_all fs (set_erase f s)

  unfoldable pub store_topic : List Filter → Filter → List Filter
  unfolding compare_stored erase_all set_insert
  store_topic non_repeated new_topic =
      let (add_it, repeated) = compare_stored new_topic non_repeated in
      let kept = erase_all repeated non_repeated in
      if add_it then set_insert new_topic kept else kept

  unfoldable pub store_topics : List Filter → List Filter → List Filter
  unfolding store_topic
  store_topics non_repeated [] = non_repeated
  store_topics non_repeated (f ∷ fs) = store_topics (store_topic non_repeated f) fs

  -- get_topic_list_without_repetition_
  unfoldable pub get_topic_list_without_repetition : List Filter → List Filter
  unfolding store_topics
  get_topic_list_without_repetition list = store_topics [] list

  -- The constructor from the two lists of the configuration.
  unfoldable pub create : List Filter → List Filter → AllowedTopicList k
  unfolding get_topic_list_without_repetition
  create allowlist blocklist = record {
    allowlist = get_topic_list_without_repetition allowlist;
    blocklist = get_topic_list_without_repetition blocklist;
  }

  unfoldable pub is_topic_allowed : AllowedTopicList k → Topic → Bool
  is_topic_allowed l t =
      let accepted = if is_empty l.allowlist then true else any (λ f. matches f t) l.allowlist in
      if accepted then (if any (λ f. matches f t) l.blocklist then false else true) else false

  -- `clear`: both lists become empty.
  unfoldable pub clear : AllowedTopicList k → AllowedTopicList k
  clear l = record { allowlist = []; blocklist = [] }

  -- A service by its two topics.
  unfoldable pub is_service_allowed : AllowedTopicList k → Topic → Topic → Bool
  unfolding is_topic_allowed
  is_service_allowed l request reply =
      if is_topic_allowed l request then is_topic_allowed l reply else false
