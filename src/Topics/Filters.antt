-- ===== src/Topics/Filters.antt =====
-- WildcardDdsFilterTopic and IFilterTopic (types/topic/filter), as a kind of filter for
-- AllowedTopicList.
use dds_pipe.Base.{
  ◌≡◌, refl, sym, ◌∙◌, Bool, true, false, not, ◌&&◌, List, [], ◌∷◌, ◌++◌, none, arith,
  if◌then◌else◌, any,
}
use dds_pipe.Allowed
use dds_pipe.Allowed.{FilterKind}
use dds_pipe.Allowed.Meaning.{allowed_as_configured}
use dds_pipe.Rpc.Text.{Text, codes, first_at}
use dds_pipe.Rpc.Topic.{DdsTopic}
use dds_pipe.Topics.{text_lt}
use dds_pipe.Topics.Names.{split_at_first, same_rest, same_start}
use dds_pipe.Topics.Order.{text_lt_self, text_lt-connected}

-- What the filters use of cpp_utils: `Fuzzy<std::string>`, and `match_pattern` on a pattern and a text.
pub record Patterns : Type 1 where
  pub Fuzzy : Type 0
  pub is_set : Fuzzy → Bool
  pub get_reference : Fuzzy → Text
  pub print : Fuzzy → Text
  pub match_pattern : Text → Text → Bool
  -- What is printed says whether a value is set, and which.
  pub print-is_set : (f g : Fuzzy) → print f ≡ print g → is_set f ≡ is_set g
  pub print-get_reference :
      (f g : Fuzzy) → print f ≡ print g → is_set f ≡ true → get_reference f ≡ get_reference g

-- `ITopic`: a DdsTopic or an object of another class
pub data Topic (Qos Other : Type 0) : Type 0 where
  dds : DdsTopic Qos → Topic Qos Other
  other : Other → Topic Qos Other

module _ (p : Patterns) where
  open p use {Fuzzy, is_set, get_reference, print, match_pattern, print-is_set, print-get_reference}

  pub record WildcardDdsFilterTopic : Type 0 where
    pub topic_name : Fuzzy
    pub type_name : Fuzzy

  -- Not implemented in the source: whatever the two filters are, neither contains the other.
  unfoldable pub contains : WildcardDdsFilterTopic → WildcardDdsFilterTopic → Bool
  contains f g = false

  -- The comparison of one name
  unfoldable pub name_matches : Fuzzy → Text → Bool
  name_matches f name = if is_set f then match_pattern (get_reference f) name else true

  -- matches_
  unfoldable pub matches_dds : {Qos : Type 0} → WildcardDdsFilterTopic → DdsTopic Qos → Bool
  unfolding name_matches
  matches_dds f real_topic =
      if not (name_matches f.topic_name real_topic.m_topic_name)
      then false
      else if not (name_matches f.type_name real_topic.type_name)
      then false
      else true

  unfoldable pub matches : {Qos Other : Type 0} → WildcardDdsFilterTopic → Topic Qos Other → Bool
  unfolding matches_dds
  matches f (dds t) = matches_dds f t
  matches f (other o) = false

  -- `operator <<`, by `serialize`
  unfoldable pub serialize : WildcardDdsFilterTopic → Text
  serialize f =
      codes "WildcardDdsFilterTopic{"
      ++ (print f.topic_name ++ (codes ";" ++ (print f.type_name ++ codes "}")))

  -- IFilterTopic::operator <: the other's text comes first.
  unfoldable pub filter_lt : WildcardDdsFilterTopic → WildcardDdsFilterTopic → Bool
  unfolding text_lt serialize
  filter_lt f g = text_lt (serialize g) (serialize f)

  -- A filter that prints no separator in its topic name.
  pub record PlainFilter : Type 0 where
    pub filter : WildcardDdsFilterTopic
    pub plain : first_at (codes ";") (print filter.topic_name) ≡ none

  name_matches-print :
      (f g : Fuzzy) (name : Text) → print f ≡ print g → name_matches f name ≡ name_matches g name
  unfolding name_matches
  name_matches-print f g name e = ground (arith, print-is_set f g e, print-get_reference f g e)

  same_text :
      (f g : PlainFilter)
      → serialize f.filter ≡ serialize g.filter
      → (print f.filter.topic_name ≡ print g.filter.topic_name)
        × (print f.filter.type_name ≡ print g.filter.type_name)
  unfolding serialize
  same_text f g e =
      let (names, types) =
        split_at_first _ [] (print f.filter.topic_name) (print g.filter.topic_name) _ _ refl f.plain
          g.plain (same_rest (codes "WildcardDdsFilterTopic{") _ _ e) in
      (names, same_start _ _ _ types)

  matches-same_text :
      {Qos Other : Type 0} (f g : PlainFilter) (t : Topic Qos Other)
      → serialize f.filter ≡ serialize g.filter
      → matches f.filter t ≡ matches g.filter t
  unfolding matches matches_dds
  matches-same_text f g (other o) e = refl
  matches-same_text f g (dds t) e =
      let (names, types) = same_text f g e in
      ground (
        arith,
        name_matches-print f.filter.topic_name g.filter.topic_name t.m_topic_name names,
        name_matches-print f.filter.type_name g.filter.type_name t.type_name types,
      )

  pub contains-matches :
      {Qos Other : Type 0} (f g : PlainFilter) (t : Topic Qos Other)
      → contains f.filter g.filter ≡ true
      → matches g.filter t ≡ true
      → matches f.filter t ≡ true
  unfolding contains
  contains-matches f g t c m = cc

  pub filter_lt_self : (f : PlainFilter) → filter_lt f.filter f.filter ≡ false
  unfolding filter_lt
  filter_lt_self f = text_lt_self (serialize f.filter)

  pub same_matches :
      {Qos Other : Type 0} (f g : PlainFilter) (t : Topic Qos Other)
      → filter_lt f.filter g.filter ≡ false
      → filter_lt g.filter f.filter ≡ false
      → matches f.filter t ≡ matches g.filter t
  unfolding filter_lt
  same_matches f g t a b = matches-same_text f g t (sym (text_lt-connected _ _ a b))

  -- The filters of this class, for a list of allowed topics.
  abbrev pub wildcard_filters : Type 0 → Type 0 → FilterKind
  wildcard_filters Qos Other = record {
    Topic = Topic Qos Other;
    Filter = PlainFilter;
    contains = λ f g. contains f.filter g.filter;
    matches = λ f t. matches f.filter t;
    less = λ f g. filter_lt f.filter g.filter;
    less_irrefl = filter_lt_self;
    contains-matches = contains-matches;
    same_matches = same_matches;
  }

  -- Both patterns of some filter match, where they are set.
  abbrev pub some_matches : {Qos : Type 0} → DdsTopic Qos → List PlainFilter → Bool
  some_matches t = any λ f.
      name_matches f.filter.topic_name t.m_topic_name && name_matches f.filter.type_name t.type_name

  any-matches :
      {Qos : Type 0} (Other : Type 0) (t : DdsTopic Qos) (fs : List PlainFilter)
      → any (λ f. matches {Other = Other} f.filter (dds t)) fs ≡ some_matches t fs
  unfolding matches matches_dds
  any-matches Other t [] = refl
  any-matches Other t (f ∷ fs) = ground (arith, any-matches Other t fs)

  -- A DDS topic is allowed by the list that is made from two lists of wildcard filters exactly when
  -- the first is empty or has a filter whose patterns, where they are set, match the topic's name
  -- and the name of its type, and the second has none such. The topic names that the filters print
  -- hold no semicolon.
  pub wildcards_allow :
      {Qos : Type 0} (Other : Type 0) (t : DdsTopic Qos) (allowlist blocklist : List PlainFilter)
      → Allowed.is_topic_allowed
          (wildcard_filters Qos Other)
          (Allowed.create (wildcard_filters Qos Other) allowlist blocklist)
          (dds t)
        ≡ (if (if Allowed.is_empty allowlist then true else some_matches t allowlist)
            then (if some_matches t blocklist then false else true)
            else false)
  wildcards_allow Other t allowlist blocklist =
      allowed_as_configured (wildcard_filters _ Other) (dds t) allowlist blocklist
      ∙ ground (arith, any-matches Other t allowlist, any-matches Other t blocklist)
