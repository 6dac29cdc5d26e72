-- ===== src/Monitoring/History.antt =====
-- What TopicsMonitorProducer is for: from the calls so far, the latest first, what it has to report.
use dds_pipe.Base.{
  ℕ, ◌+◌, Bool, true, false, List, [], ◌∷◌, Option, none, some, if◌then◌else◌, ite, ParticipantId,
  string_dec, ◌&&◌, ◌||◌,
}
use dds_pipe.Monitoring.Topics
use dds_pipe.Monitoring.Topics.{Parts, State}
use dds_pipe.Monitoring.Production
use dds_pipe.Monitoring.Production.{Output}
use dds_pipe.Rpc.Text.{Text}
use dds_pipe.Rpc.Topic.{DdsTopic}
use dds_pipe.Topics.{dds_topic_unique_name}
use dds_pipe.Topics.Order.{text_dec}

module _ (x : Parts) where
  open x use {Double, Qos, Consumer}

  pub data Call : Type 0 where
    init : Topics.MonitorProducerConfiguration x → Call
    enable disable clear_consumers clear_data produce consume produce_and_consume : Call
    register_consumer : Consumer → Call
    msgs_received msgs_lost : DdsTopic Qos → ParticipantId → ℕ → Call
    type_discovered : Text → Call
    type_mismatch qos_mismatch : DdsTopic Qos → Call

  -- The state after a call
  unfoldable pub after : Call → State x → State x
  after (init configuration) s = Topics.init x configuration s
  after enable s = Topics.enable x s
  after disable s = Topics.disable x s
  after clear_consumers s = Topics.clear_consumers x s
  after clear_data s = Topics.clear_data x s
  after produce s = Production.produce x s
  after consume s = (Production.consume x s).0
  after produce_and_consume s = (Production.produce_and_consume x s).0
  after (register_consumer c) s = Topics.register_consumer x c s
  after (msgs_received t p n) s = Topics.msgs_received x t p n s
  after (msgs_lost t p n) s = Topics.msgs_lost x t p n s
  after (type_discovered n) s = Topics.type_discovered x n s
  after (type_mismatch t) s = Topics.type_mismatch x t s
  after (qos_mismatch t) s = Topics.qos_mismatch x t s

  unfoldable pub run : List Call → State x
  unfolding after
  run [] = Topics.create x
  run (c ∷ h) = after c (run h)

  -- Whether the producer is enabled
  abbrev pub is_on : List Call → Bool
  is_on [] = false
  is_on (init configuration ∷ h) = configuration.enabled
  is_on (enable ∷ h) = true
  is_on (disable ∷ h) = false
  is_on (_ ∷ h) = is_on h

  -- The messages that a kind of call tells of a topic and a participant, since the counts were last
  -- consumed or cleared
  abbrev pub tells : Text → ParticipantId → DdsTopic Qos → ParticipantId → ℕ → ℕ
  tells k p t q n = ite (text_dec k (dds_topic_unique_name t)) (ite (string_dec p q) n 0) 0

  unfoldable pub received : Text → ParticipantId → List Call → ℕ
  received k p [] = 0
  received k p (msgs_received t q n ∷ h) = received k p h + (if is_on h then tells k p t q n else 0)
  received k p (clear_data ∷ h) = 0
  received k p (consume ∷ h) = if is_on h then 0 else received k p h
  received k p (produce_and_consume ∷ h) = if is_on h then 0 else received k p h
  received k p (_ ∷ h) = received k p h

  unfoldable pub lost : Text → ParticipantId → List Call → ℕ
  lost k p [] = 0
  lost k p (msgs_lost t q n ∷ h) = lost k p h + (if is_on h then tells k p t q n else 0)
  lost k p (clear_data ∷ h) = 0
  lost k p (consume ∷ h) = if is_on h then 0 else lost k p h
  lost k p (produce_and_consume ∷ h) = if is_on h then 0 else lost k p h
  lost k p (_ ∷ h) = lost k p h

  -- Whether a topic has been told of with a participant since the data were last cleared
  abbrev pub is_told : Text → ParticipantId → DdsTopic Qos → ParticipantId → Bool
  is_told k p t q =
      ite (text_dec k (dds_topic_unique_name t)) (ite (string_dec p q) true false) false

  unfoldable pub has_participant : Text → ParticipantId → List Call → Bool
  has_participant k p [] = false
  has_participant k p (msgs_received t q n ∷ h) =
      (is_on h && is_told k p t q) || has_participant k p h
  has_participant k p (msgs_lost t q n ∷ h) = (is_on h && is_told k p t q) || has_participant k p h
  has_participant k p (clear_data ∷ h) = false
  has_participant k p (_ ∷ h) = has_participant k p h

  abbrev pub is_of : Text → DdsTopic Qos → Bool
  is_of k t = ite (text_dec k (dds_topic_unique_name t)) true false

  abbrev pub renamed : Text → DdsTopic Qos → Option (Text × Text) → Option (Text × Text)
  renamed k t before =
      ite (text_dec k (dds_topic_unique_name t)) (some (t.m_topic_name, t.type_name)) before

  -- The names of a topic, as the last call gave them that told of it since the data were cleared
  unfoldable pub named : Text → List Call → Option (Text × Text)
  named k [] = none
  named k (clear_data ∷ h) = none
  named k (msgs_received t q n ∷ h) = if is_on h then renamed k t (named k h) else named k h
  named k (msgs_lost t q n ∷ h) = if is_on h then renamed k t (named k h) else named k h
  named k (type_mismatch t ∷ h) = if is_on h then renamed k t (named k h) else named k h
  named k (qos_mismatch t ∷ h) = if is_on h then renamed k t (named k h) else named k h
  named k (_ ∷ h) = named k h

  -- Whether a mismatch of a topic, or a type, has been told of since the data were cleared
  unfoldable pub has_type_mismatch : Text → List Call → Bool
  has_type_mismatch k [] = false
  has_type_mismatch k (clear_data ∷ h) = false
  has_type_mismatch k (type_mismatch t ∷ h) = (is_on h && is_of k t) || has_type_mismatch k h
  has_type_mismatch k (_ ∷ h) = has_type_mismatch k h

  unfoldable pub has_qos_mismatch : Text → List Call → Bool
  has_qos_mismatch k [] = false
  has_qos_mismatch k (clear_data ∷ h) = false
  has_qos_mismatch k (qos_mismatch t ∷ h) = (is_on h && is_of k t) || has_qos_mismatch k h
  has_qos_mismatch k (_ ∷ h) = has_qos_mismatch k h

  unfoldable pub is_discovered : Text → List Call → Bool
  is_discovered n [] = false
  is_discovered n (clear_data ∷ h) = false
  is_discovered n (type_discovered m ∷ h) =
      (is_on h && ite (text_dec n m) true false) || is_discovered n h
  is_discovered n (_ ∷ h) = is_discovered n h
