-- ===== src/Monitoring/Production.antt =====
-- The periodic part of TopicsMonitorProducer (monitoring/producers/TopicsMonitorProducer.cpp): what it
-- produces from the gathered data, and what it passes on to its consumers.
use dds_pipe.Base.{false, not, List, [], ◌∷◌, map, if◌then◌else◌, ParticipantId, string_key}
use dds_pipe.Map.{Map, insert}
use dds_pipe.Monitoring.Topics.{Parts, values, at, DdsTopicData, DdsTopic, State}
use dds_pipe.Rpc.Text.{Text}
use dds_pipe.Topics.Order.{text_key}

module _ (x : Parts) where
  open x use {Double, of_nat, divide, Consumer}

  -- The inner loop of `produce_nts_`: the rates of the participants
  unfoldable pub rate_all :
      Double → Map ParticipantId (DdsTopicData x) → Map ParticipantId (DdsTopicData x)
  rate_all period [] = []
  rate_all period ((p, d) ∷ m) =
      (p, record d { msg_rx_rate = divide (of_nat d.msgs_received) (divide period (of_nat 1000)) })
      ∷ rate_all period m

  -- One topic of the outer loop: `types_discovered_[...]` and `participant_data_[...]` make an entry
  -- where there is none.
  unfoldable pub produce_topic : Text → DdsTopic x → State x → DdsTopic x × State x
  unfolding rate_all
  produce_topic k t s =
      let discovered = at false t.type_name s.types_discovered in
      let rated = rate_all s.period (at [] k s.participant_data) in
      (
        record t { type_discovered = discovered; participants = values rated },
        record s {
          types_discovered = insert t.type_name discovered s.types_discovered;
          participant_data = insert k rated s.participant_data;
        },
      )

  unfoldable pub produce_topics : Map Text (DdsTopic x) → State x → Map Text (DdsTopic x) × State x
  unfolding produce_topic
  produce_topics [] s = ([], s)
  produce_topics ((k, t) ∷ rest) s =
      let (t', s') = produce_topic k t s in
      let (rest', s'') = produce_topics rest s' in ((k, t') ∷ rest', s'')

  -- produce_nts_
  unfoldable pub produce_now : State x → State x
  unfolding produce_topics
  produce_now s =
      let (topics, t) = produce_topics s.topic_data s in
      record t { topic_data = topics; topics = values topics }

  -- reset_data_
  unfoldable pub reset_participants :
      Map ParticipantId (DdsTopicData x) → Map ParticipantId (DdsTopicData x)
  reset_participants [] = []
  reset_participants ((p, d) ∷ m) =
      (p, record d { msgs_received = 0; msgs_lost = 0 }) ∷ reset_participants m

  unfoldable pub reset_topics :
      Map Text (Map ParticipantId (DdsTopicData x)) → Map Text (Map ParticipantId (DdsTopicData x))
  unfolding reset_participants
  reset_topics [] = []
  reset_topics ((k, m) ∷ rest) = (k, reset_participants m) ∷ reset_topics rest

  -- What a call passes on: a consumer and the topics that it consumes.
  abbrev pub Output : Type 0
  Output = List (Consumer × List (DdsTopic x))

  -- consume_nts_
  unfoldable pub consume_now : State x → State x × Output
  unfolding reset_topics
  consume_now s = (
    record s { participant_data = reset_topics s.participant_data },
    map (λ c. (c, s.topics)) s.consumers,
  )

  unfoldable pub produce : State x → State x
  unfolding produce_now
  produce s = if not s.enabled then s else produce_now s

  unfoldable pub consume : State x → State x × Output
  unfolding consume_now
  consume s = if not s.enabled then (s, []) else consume_now s

  unfoldable pub produce_and_consume : State x → State x × Output
  unfolding produce_now consume_now
  produce_and_consume s = if not s.enabled then (s, []) else consume_now (produce_now s)
