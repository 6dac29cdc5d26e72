-- ===== src/Config/Routes.antt =====
-- DdsPipeConfiguration (configuration/DdsPipeConfiguration.cpp) and TopicRoutesConfiguration
-- (configuration/TopicRoutesConfiguration.cpp), and the routes that the bridge of a topic has from it.
-- The rules by which a filter matches a topic are a parameter.
use dds_pipe.Base.{
  ◌≡◌, ◌⊎◌, refl, sym, subst, default_participant_id, Bool, true, false, not, ◌&&◌, none, some,
  List, [], ◌∷◌, if◌then◌else◌, Key, ParticipantId, arith, string_key, Option-cases, inl, inr,
}
use dds_pipe.Map.{Map, lookup, Unique}
use dds_pipe.Routing.Defs.{
  Participants, IdSet, RoutesMap, Database, DdsBridge, are_valid_routes,
  get_participants_repeater_map, create, new_bridge, same, returns,
}
use dds_pipe.Pipe.Parts.{DiscoveryTrigger, on_reader, on_writer, on_none, on_any}
use dds_pipe.Routing.Valid.{create_all_tracks-routed, IsAsRouted, IsThrown}

abbrev pub is_reader_trigger : DiscoveryTrigger → Bool
is_reader_trigger on_reader = true
is_reader_trigger on_writer = false
is_reader_trigger on_none = false
is_reader_trigger on_any = false

module _ (x : Participants) {Topic Filter : Type 0} ⦃topic_key : Key Topic⦄
    (matches : Filter → Topic → Bool) where
  open x use {Participant}

  pub record DdsPipeConfiguration : Type 0 where
    pub remove_unused_entities : Bool
    pub discovery_trigger : DiscoveryTrigger
    pub routes : RoutesMap
    pub topic_routes : Map Topic RoutesMap
    pub manual_topics : List (Filter × IdSet)

  -- RoutesConfiguration::is_valid(Formatter&)
  abbrev pub routes_is_valid : RoutesMap → Bool
  routes_is_valid routes = true

  -- TopicRoutesConfiguration::is_valid(Formatter&)
  unfoldable pub topic_routes_is_valid : Map Topic RoutesMap → Bool
  topic_routes_is_valid [] = true
  topic_routes_is_valid ((topic, routes) ∷ rest) =
      if not (routes_is_valid routes) then false else topic_routes_is_valid rest

  unfoldable pub each_is_valid : Map Topic RoutesMap → Map ParticipantId Bool → Bool
  unfolding are_valid_routes
  each_is_valid [] ids = true
  each_is_valid ((topic, routes) ∷ rest) ids =
      if not (are_valid_routes x routes ids) then false else each_is_valid rest ids

  -- TopicRoutesConfiguration::is_valid(Formatter&, const std::map&)
  unfoldable pub topic_routes_is_valid_for : Map Topic RoutesMap → Map ParticipantId Bool → Bool
  unfolding topic_routes_is_valid each_is_valid
  topic_routes_is_valid_for m ids =
      if not (topic_routes_is_valid m) then false else each_is_valid m ids

  -- DdsPipeConfiguration::is_valid(Formatter&)
  unfoldable pub is_valid : DdsPipeConfiguration → Bool
  unfolding topic_routes_is_valid
  is_valid c =
      if c.remove_unused_entities && not (is_reader_trigger c.discovery_trigger)
      then false
      else routes_is_valid c.routes && topic_routes_is_valid c.topic_routes

  -- DdsPipeConfiguration::is_valid(Formatter&, const std::map&)
  unfoldable pub is_valid_for : DdsPipeConfiguration → Map ParticipantId Bool → Bool
  unfolding is_valid are_valid_routes topic_routes_is_valid_for
  is_valid_for c ids =
      if not (is_valid c)
      then false
      else are_valid_routes x c.routes ids && topic_routes_is_valid_for c.topic_routes ids

  unfoldable pub get_routes_config : DdsPipeConfiguration → Topic → RoutesMap
  get_routes_config c topic = elim (lookup topic c.topic_routes) [
    | some routes ↦ routes
    | none ↦ c.routes
  ]

  unfoldable pub get_manual_topics : DdsPipeConfiguration → Topic → List (Filter × IdSet)
  get_manual_topics c topic = matching c.manual_topics
    where
      matching : List (Filter × IdSet) → List (Filter × IdSet)
      matching [] = []
      matching (m ∷ ms) = if matches m.0 topic then m ∷ matching ms else matching ms

  each-lookup :
      (m : Map Topic RoutesMap) (ids : Map ParticipantId Bool) (topic : Topic) (routes : RoutesMap)
      → each_is_valid m ids ≡ true
      → lookup topic m ≡ some routes
      → are_valid_routes x routes ids ≡ true
  unfolding each_is_valid lookup
  each-lookup [] ids topic routes valid found = ground (arith, found)
  each-lookup ((t, r) ∷ m) ids topic routes valid found =
      ground (arith, valid, found, each-lookup m ids topic routes)

  valid_routes :
      (c : DdsPipeConfiguration) (ids : Map ParticipantId Bool)
      → is_valid_for c ids ≡ true
      → (are_valid_routes x c.routes ids ≡ true) × (each_is_valid c.topic_routes ids ≡ true)
  unfolding is_valid_for topic_routes_is_valid_for
  valid_routes c ids valid = ground (arith, valid)

  get_routes_config-valid :
      (c : DdsPipeConfiguration) (ids : Map ParticipantId Bool) (topic : Topic)
      → is_valid_for c ids ≡ true
      → are_valid_routes x (get_routes_config c topic) ids ≡ true
  unfolding get_routes_config
  get_routes_config-valid c ids topic valid =
      let (generic, each) = valid_routes c ids valid in
      elim (Option-cases (lookup topic c.topic_routes)) [
        | inl gone ↦ ground (arith, gone, generic)
        | inr (routes, there) ↦
            ground (arith, there, each-lookup c.topic_routes ids topic routes each there)
      ]

  -- When a configuration is valid for the participants of a database that has each identifier once, and
  -- either it keeps unused entities or no participant is the discoverer: for any topic, the constructor
  -- of its bridge, with the routes that the configuration selects for the topic, returns a bridge in
  -- which the track of a participant's reader has a participant's writer exactly as these routes say,
  -- or it throws because some participant throws when it is asked for a writer or for a reader.
  pub configured_tracks :
      (c : DdsPipeConfiguration) (topic : Topic) (db : Database x) (discoverer : ParticipantId)
      (r w : ParticipantId) (p q : Participant)
      → is_valid_for c (get_participants_repeater_map x db) ≡ true
      → (c.remove_unused_entities && not (same discoverer default_participant_id)) ≡ false
      → Unique db
      → lookup r db ≡ some p
      → lookup w db ≡ some q
      → ((b : DdsBridge x) × (create x
              (get_routes_config c topic)
              db
              c.remove_unused_entities
              discoverer
            ≡ returns b)
          × IsAsRouted x (get_routes_config c topic) r w p q b)
        ⊎ IsThrown x
            (new_bridge x (get_routes_config c topic) db)
            (create x (get_routes_config c topic) db c.remove_unused_entities discoverer)
  unfolding create
  configured_tracks c topic db discoverer r w p q valid all unique there here =
      subst
        (λ o.
          ((b : DdsBridge x) × (o ≡ returns b) × IsAsRouted x (get_routes_config c topic) r w p q b)
          ⊎ IsThrown x (new_bridge x (get_routes_config c topic) db) o)
        (sym (ground (arith, all)))
        (create_all_tracks-routed x (new_bridge x (get_routes_config c topic) db) r w p q
          (get_routes_config-valid c (get_participants_repeater_map x db) topic valid) unique refl
          there here)
