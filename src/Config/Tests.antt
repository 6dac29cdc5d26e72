-- ===== src/Config/Tests.antt =====
-- A configuration for two participants, and Quality of Service from two sources.
use dds_pipe.Base.{
  ℕ, zero, suc, ◌≡◌, ◌⊎◌, refl, Bool, true, false, Option, none, some, List, [], ◌∷◌, ParticipantId,
  nat_key, string_key, ◌==◌,
}
use dds_pipe.Map.{Map}
use dds_pipe.Routing.Defs.{
  Participants, RoutesMap, DdsBridge, Database, create, new_bridge, returns,
  get_participants_repeater_map,
}
use dds_pipe.Routing.Valid.{IsAsRouted, IsThrown}
use dds_pipe.Pipe.Parts.{on_reader}
use dds_pipe.Config.Routes.{DdsPipeConfiguration, get_routes_config, configured_tracks}
use dds_pipe.Config.Qos.{Fuzzies, TopicQos, create_topic_for_participant, create_topic-first}

abbrev plain : Participants
plain = record {
  Participant = ℕ;
  Reader = ℕ;
  Writer = ℕ;
  is_repeater = λ p. false;
  is_rtps_kind = λ p. true;
  make_reader = λ p. some p;
  make_writer = λ p. some p;
}

abbrev database : Database plain
database = ("a", 1) ∷ ("b", 2) ∷ []

-- Topic 5 goes from `a` to `b` only.
abbrev configuration : DdsPipeConfiguration plain {Topic = ℕ} {Filter = ℕ} (λ f t. f == t)
configuration = record {
  remove_unused_entities = false;
  discovery_trigger = on_reader;
  routes = [];
  topic_routes = (5, ("a", "b" ∷ []) ∷ ("b", []) ∷ []) ∷ [];
  manual_topics = [];
}

abbrev topic_matches : ℕ → ℕ → Bool
topic_matches f t = f == t

abbrev routes_of_5 : RoutesMap
routes_of_5 = get_routes_config plain topic_matches configuration 5

configured_tracks_example :
    ((b : DdsBridge plain) × (create plain routes_of_5 database false "b" ≡ returns b)
      × IsAsRouted plain routes_of_5 "b" "a" 2 1 b)
    ⊎ IsThrown plain
        (new_bridge plain routes_of_5 database)
        (create plain routes_of_5 database false "b")
unfolding dds_pipe.Config.Routes.is_valid_for dds_pipe.Map.lookup get_participants_repeater_map
    dds_pipe.Base.string_dec get_routes_config dds_pipe.Base.ℕ_discrete
configured_tracks_example =
    configured_tracks plain topic_matches configuration 5 database "b" "b" "a" 2 1 refl refl
      (refl, (refl, tt)) refl refl

-- A value with its level; level 0 is that of a value that is not set.
abbrev fuzzies : Fuzzies
fuzzies = record {
  Fuzzy = λ A. A × ℕ;
  Rate = ℕ;
  DurabilityKind = ℕ;
  ReliabilityKind = Bool;
  OwnershipQosPolicyKind = Bool;
  get_level = λ f. f.1;
  is_set = λ f. elim f.1 [ zero ↦ false | suc n ↦ true ];
  get_value = λ f. f.0;
  set_value = λ a level f. (a, level);
  fuzzy_level_default = 1;
  fuzzy_level_set = 3;
  fuzzy_level_hard = 4;
  get_level-set_value = λ a level f. refl;
}

abbrev qos : ℕ → ℕ → TopicQos fuzzies
qos depth level = record {
  durability_qos = (0, level);
  reliability_qos = (false, level);
  ownership_qos = (false, level);
  use_partitions = (false, level);
  history_depth = (depth, level);
  keyed = (false, level);
  max_tx_rate = (0, level);
  max_rx_rate = (0, level);
  downsampling = (1, level);
}

create_topic-first_example :
    create_topic_for_participant fuzzies "a"
      (qos 10 3)
      ((qos 20 0, []) ∷ (qos 30 3, "a" ∷ []) ∷ [])
      (qos 40 1)
    ≡ qos 30 4
unfolding dds_pipe.Base.string_dec
create_topic-first_example =
    create_topic-first fuzzies "a" (qos 10 3) ((qos 20 0, []) ∷ (qos 30 3, "a" ∷ []) ∷ [])
      (qos 40 1)
