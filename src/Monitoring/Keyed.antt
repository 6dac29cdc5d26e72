-- ===== src/Monitoring/Keyed.antt =====
-- Each participant's data in TopicsMonitorProducer carry the participant's own identifier.
use dds_pipe.Base.{
  ◌≡◌, refl, Bool, true, false, not, List, [], ◌∷◌, if◌then◌else◌, ParticipantId, string_key,
}
use dds_pipe.Map.{Map}
use dds_pipe.Map.Every.{Every, insert-Every, value-Every}
use dds_pipe.Monitoring.Topics
use dds_pipe.Monitoring.Topics.{
  Parts, State, DdsTopicData, DdsTopic, at, values, count_messages, register_topic,
}
use dds_pipe.Monitoring.Production
use dds_pipe.Monitoring.Production.{
  rate_all, produce_topic, produce_topics, produce_now, reset_participants, reset_topics,
  consume_now,
}
use dds_pipe.Monitoring.History.{
  Call, run, after, init, clear_data, produce, consume, produce_and_consume, register_consumer,
  msgs_received, msgs_lost, type_discovered, type_mismatch, qos_mismatch,
}
use dds_pipe.Rpc.Text.{Text}
use dds_pipe.Topics.Order.{text_key}

-- A predicate holds of both branches.
if_either {ℓ m} :
    {A : Type ℓ} (P : A → Type m) (c : Bool) {a b : A} → P a → P b → P (if c then a else b)
if_either P true p q = p
if_either P false p q = q

module _ (x : Parts) where
  open x use {Double, Qos, Consumer}

  abbrev pub Owned : ParticipantId → DdsTopicData x → Type 0
  Owned p d = d.participant_id ≡ p

  abbrev pub AreOwned : Map ParticipantId (DdsTopicData x) → Type 0
  AreOwned = Every Owned

  abbrev pub IsKeyed : State x → Type 0
  IsKeyed s = Every (λ k m. AreOwned m) s.participant_data

  pub at-AreOwned : (k : Text) (s : State x) → IsKeyed s → AreOwned (at [] k s.participant_data)
  at-AreOwned k s e =
      value-Every (λ k m. AreOwned m) [] k s.participant_data AreOwned (λ j m h. h) tt e

  pub rate_all-AreOwned :
      (period : Double) (m : Map ParticipantId (DdsTopicData x))
      → AreOwned m
      → AreOwned (rate_all x period m)
  unfolding rate_all
  rate_all-AreOwned period [] e = tt
  rate_all-AreOwned period ((p, d) ∷ m) e = (e.0, rate_all-AreOwned period m e.1)

  reset-AreOwned :
      (m : Map ParticipantId (DdsTopicData x)) → AreOwned m → AreOwned (reset_participants x m)
  unfolding reset_participants
  reset-AreOwned [] e = tt
  reset-AreOwned ((p, d) ∷ m) e = (e.0, reset-AreOwned m e.1)

  reset_topics-IsKeyed :
      (m : Map Text (Map ParticipantId (DdsTopicData x)))
      → Every (λ k m. AreOwned m) m
      → Every (λ k m. AreOwned m) (reset_topics x m)
  unfolding reset_topics
  reset_topics-IsKeyed [] e = tt
  reset_topics-IsKeyed ((k, n) ∷ m) e = (reset-AreOwned n e.0, reset_topics-IsKeyed m e.1)

  produce_topics-IsKeyed :
      (m : Map Text (DdsTopic x)) (s : State x) → IsKeyed s → IsKeyed (produce_topics x m s).1
  unfolding produce_topics produce_topic
  produce_topics-IsKeyed [] s e = e
  produce_topics-IsKeyed ((j, t) ∷ m) s e = produce_topics-IsKeyed m (produce_topic x j t s).1 (
      insert-Every (λ k m. AreOwned m) j _ s.participant_data
        (rate_all-AreOwned s.period _ (at-AreOwned j s e)) e)

  produce_now-IsKeyed : (s : State x) → IsKeyed s → IsKeyed (produce_now x s)
  unfolding produce_now
  produce_now-IsKeyed s e = produce_topics-IsKeyed s.topic_data s e

  consume_now-IsKeyed : (s : State x) → IsKeyed s → IsKeyed (consume_now x s).0
  unfolding consume_now
  consume_now-IsKeyed s e = reset_topics-IsKeyed s.participant_data e

  count_messages-IsKeyed :
      (add : DdsTopicData x → DdsTopicData x) (k : Text) (q : ParticipantId) (s : State x)
      → ((d : DdsTopicData x) → (add d).participant_id ≡ d.participant_id)
      → IsKeyed s
      → IsKeyed (count_messages x add k q s)
  unfolding count_messages
  count_messages-IsKeyed add k q s same e =
      insert-Every (λ k m. AreOwned m) k _ s.participant_data
        (insert-Every Owned q _ (at [] k s.participant_data) (same _) (at-AreOwned k s e)) e

  after-IsKeyed : (c : Call x) (s : State x) → IsKeyed s → IsKeyed (after x c s)
  unfolding after Topics.init Topics.msgs_received Topics.msgs_lost Topics.register_topic
      Topics.type_discovered Topics.type_mismatch Topics.qos_mismatch Topics.set_flag Topics.enable
      Topics.disable Topics.register_consumer Topics.clear_consumers Topics.clear_data
      Production.produce Production.consume Production.produce_and_consume
  after-IsKeyed (init c) s e = if_either IsKeyed (not c.enabled) e e
  after-IsKeyed (register_consumer c) s e = if_either IsKeyed (not s.enabled) e e
  after-IsKeyed clear_data s e = tt
  after-IsKeyed produce s e = if_either IsKeyed (not s.enabled) e (produce_now-IsKeyed s e)
  after-IsKeyed consume s e =
      if_either (λ (r : State x × Production.Output x). IsKeyed r.0) (not s.enabled) e
        (consume_now-IsKeyed s e)
  after-IsKeyed produce_and_consume s e =
      if_either (λ (r : State x × Production.Output x). IsKeyed r.0) (not s.enabled) e
        (consume_now-IsKeyed (produce_now x s) (produce_now-IsKeyed s e))
  after-IsKeyed (msgs_received t q n) s e =
      if_either IsKeyed (not s.enabled) e
        (count_messages-IsKeyed (Topics.add_received x n) _ q (register_topic x t s) (λ _. refl) e)
  after-IsKeyed (msgs_lost t q n) s e =
      if_either IsKeyed (not s.enabled) e
        (count_messages-IsKeyed (Topics.add_lost x n) _ q (register_topic x t s) (λ _. refl) e)
  after-IsKeyed (type_discovered n) s e = if_either IsKeyed (not s.enabled) e e
  after-IsKeyed (type_mismatch t) s e = if_either IsKeyed (not s.enabled) e e
  after-IsKeyed (qos_mismatch t) s e = if_either IsKeyed (not s.enabled) e e
  after-IsKeyed _ s e = e

  pub run-IsKeyed : (h : List (Call x)) → IsKeyed (run x h)
  unfolding run
  run-IsKeyed [] = tt
  run-IsKeyed (c ∷ h) = after-IsKeyed c (run x h) (run-IsKeyed h)
