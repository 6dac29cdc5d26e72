-- ===== src/Monitoring/Monitor.antt =====
-- Monitor (monitoring/Monitor.cpp): it sets up the two producers, which the program has once each, and
-- gives each an event that calls its `produce_and_consume` every period. `none` is an exception: a
-- key that `at` does not find, or a consumer that cannot be made. What it leaves behind is not modelled.
use dds_pipe.Base.{
  ◌≡◌, refl, Bool, true, false, not, List, [], ◌∷◌, ◌++◌, Option, none, some, if◌then◌else◌, any,
  arith, string_key, String,
}
use dds_pipe.Map.{Map, lookup}
use dds_pipe.Monitoring.Status
use dds_pipe.Monitoring.Topics
use dds_pipe.Monitoring.Topics.{Parts, MonitorProducerConfiguration}

pub data Producer : Type 0 where
  status_producer topics_producer : Producer

abbrev pub is_status : Producer → Bool
is_status status_producer = true
is_status topics_producer = false

abbrev pub status_monitor_producer_id : String
status_monitor_producer_id = "status"

abbrev pub topics_monitor_producer_id : String
topics_monitor_producer_id = "topics"

-- The consumers: `LogMonitorConsumer`, and `DdsMonitorConsumer`, which may throw
pub record Consumers (x : Parts) : Type 1 where
  pub MonitorConsumerConfiguration : Type 0
  pub log : x.Consumer
  pub dds : MonitorConsumerConfiguration → Option x.Consumer

module _ (x : Parts) (y : Consumers x) where
  open x use {Double, Consumer}
  open y use {MonitorConsumerConfiguration, log, dds}

  pub record MonitorConfiguration : Type 0 where
    pub producers : Map String (MonitorProducerConfiguration x)
    pub consumers : Map String MonitorConsumerConfiguration

  pub record Monitor : Type 0 where
    pub configuration : MonitorConfiguration
    pub producers : List Producer
    -- The producer of each event, and its period
    pub events : List (Producer × Double)
    pub status : Status.State Double Consumer
    pub topics : Topics.State x

  unfoldable pub create :
      MonitorConfiguration → Status.State Double Consumer → Topics.State x → Monitor
  create configuration status topics = record {
    configuration = configuration;
    producers = [];
    events = [];
    status = status;
    topics = topics;
  }

  abbrev pub period_of : Producer → Monitor → Double
  period_of status_producer m = m.status.period
  period_of topics_producer m = m.topics.period

  -- register_producer_
  unfoldable pub register_producer : Producer → Monitor → Monitor
  register_producer producer m = record m {
    producers = m.producers ++ producer ∷ [];
    events = m.events ++ (producer, period_of producer m) ∷ [];
  }

  -- The consumer over DDS, if it is configured
  unfoldable pub dds_consumer : String → Monitor → Option (List Consumer)
  dds_consumer id m = elim (lookup id m.configuration.consumers) [
    | none ↦ some []
    | some c ↦ elim (dds c) [ none ↦ none | some consumer ↦ some (consumer ∷ []) ]
  ]

  unfoldable pub register_status :
      List Consumer → Status.State Double Consumer → Status.State Double Consumer
  register_status [] s = s
  register_status (c ∷ cs) s = register_status cs (Status.register_consumer Double Consumer c s)

  unfoldable pub register_topics : List Consumer → Topics.State x → Topics.State x
  register_topics [] s = s
  register_topics (c ∷ cs) s = register_topics cs (Topics.register_consumer x c s)

  unfoldable pub monitor_status : Monitor → Option Monitor
  unfolding register_producer dds_consumer register_status
  monitor_status m = elim (lookup status_monitor_producer_id m.configuration.producers) [
    | none ↦ none
    | some configuration ↦ elim (dds_consumer status_monitor_producer_id m) [
      | none ↦ none
      | some more ↦ some (
          register_producer status_producer (record m {
            status =
                register_status (log ∷ more)
                  (Status.init Double Consumer configuration.enabled configuration.period m.status);
          }))
    ]
  ]

  unfoldable pub monitor_topics : Monitor → Option Monitor
  unfolding register_producer dds_consumer register_topics
  monitor_topics m = elim (lookup topics_monitor_producer_id m.configuration.producers) [
    | none ↦ none
    | some configuration ↦ elim (dds_consumer topics_monitor_producer_id m) [
      | none ↦ none
      | some more ↦ some (
          register_producer topics_producer (record m {
            topics = register_topics (log ∷ more) (Topics.init x configuration m.topics);
          }))
    ]
  ]

  -- The destructor's loop over its producers
  unfoldable pub release : Producer → Monitor → Monitor
  release status_producer m = record m {
    status =
        Status.clear_data Double Consumer
          (Status.clear_consumers Double Consumer (Status.disable Double Consumer m.status));
  }
  release topics_producer m = record m {
    topics = Topics.clear_data x (Topics.clear_consumers x (Topics.disable x m.topics));
  }

  unfoldable pub release_all : List Producer → Monitor → Monitor
  unfolding release
  release_all [] m = m
  release_all (p ∷ ps) m = release_all ps (release p m)

  -- The destructor
  unfoldable pub destroy : Monitor → Monitor
  unfolding release_all
  destroy m = record (release_all m.producers (record m { events = [] })) { producers = [] }

  -- A producer as new, but for its period
  abbrev pub new_topics : Topics.State x → Topics.State x
  new_topics s = record (Topics.create x) { period = s.period }

  abbrev pub new_status : Status.State Double Consumer → Status.State Double Consumer
  new_status s = Status.create Double Consumer s.period

  release_all-topics :
      (ps : List Producer) (m : Monitor)
      → (release_all ps m).topics
        ≡ (if any (λ p. not (is_status p)) ps then new_topics m.topics else m.topics)
  unfolding release_all release Topics.clear_data Topics.clear_consumers Topics.disable
  release_all-topics [] m = refl
  release_all-topics (status_producer ∷ ps) m = release_all-topics ps (release status_producer m)
  release_all-topics (topics_producer ∷ ps) m =
      ground (arith, release_all-topics ps (release topics_producer m))

  release_all-status :
      (ps : List Producer) (m : Monitor)
      → (release_all ps m).status ≡ (if any is_status ps then new_status m.status else m.status)
  unfolding release_all release Status.clear_data Status.clear_consumers Status.disable
  release_all-status [] m = refl
  release_all-status (topics_producer ∷ ps) m = release_all-status ps (release topics_producer m)
  release_all-status (status_producer ∷ ps) m =
      ground (arith, release_all-status ps (release status_producer m))

  release_all-events : (ps : List Producer) (m : Monitor) → (release_all ps m).events ≡ m.events
  unfolding release_all release
  release_all-events [] m = refl
  release_all-events (status_producer ∷ ps) m = release_all-events ps (release status_producer m)
  release_all-events (topics_producer ∷ ps) m = release_all-events ps (release topics_producer m)

  -- The destructor leaves no producer and no event. A producer that was monitored is then as a new one,
  -- but for its period: disabled, without consumers, and without data. One that was not is as it
  -- was.
  pub destroy-clean :
      (m : Monitor)
      → ((destroy m).events ≡ [])
        × ((destroy m).topics
            ≡ (if any (λ p. not (is_status p)) m.producers then new_topics m.topics else m.topics))
        × ((destroy m).status
            ≡ (if any is_status m.producers then new_status m.status else m.status))
  unfolding destroy
  destroy-clean m = (
    release_all-events m.producers (record m { events = [] }),
    release_all-topics m.producers (record m { events = [] }),
    release_all-status m.producers (record m { events = [] }),
  )
