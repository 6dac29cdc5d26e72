-- ===== src/Monitoring/Reports.antt =====
-- What TopicsMonitorProducer reports, after any calls.
use dds_pipe.Base.{
  ℕ, ◌%◌, ◌^◌, ◌≡◌, refl, false, List, [], ◌∷◌, Option, none, some, if◌then◌else◌, ParticipantId,
  string_key, arith,
}
use dds_pipe.Map.{lookup}
use dds_pipe.Monitoring.Topics
use dds_pipe.Monitoring.Topics.{Parts, State}
use dds_pipe.Monitoring.Production
use dds_pipe.Monitoring.Counts.{
  gathered, enabled-produce_now, gathered-msgs_received, gathered-msgs_lost, gathered-produce_now,
  gathered-consume_now,
}
use dds_pipe.Monitoring.History.{
  Call, run, after, is_on, received, lost, has_participant, produce, consume, produce_and_consume,
  msgs_received, msgs_lost, type_mismatch, qos_mismatch,
}
use dds_pipe.Rpc.Text.{Text}
use dds_pipe.Rpc.Topic
use dds_pipe.Topics.Order.{text_key}

module _ (x : Parts) where
  open x use {Double, Qos, Consumer}

  after-enabled :
      (c : Call x) (h : List (Call x))
      → (run x h).enabled ≡ is_on x h
      → (after x c (run x h)).enabled ≡ is_on x (c ∷ h)
  unfolding after Topics.init Topics.msgs_received Topics.msgs_lost Topics.register_topic
      Topics.count_messages Topics.type_discovered Topics.type_mismatch Topics.qos_mismatch
      Topics.set_flag Topics.enable Topics.disable Topics.register_consumer Topics.clear_consumers
      Topics.clear_data Production.produce Production.consume Production.produce_and_consume
      Production.consume_now
  after-enabled (msgs_received t p n) h e = ground arith
  after-enabled produce h e = ground (arith, enabled-produce_now x (run x h))
  after-enabled produce_and_consume h e = ground (arith, enabled-produce_now x (run x h))
  after-enabled c h e = ground arith

  pub run-enabled : (h : List (Call x)) → (run x h).enabled ≡ is_on x h
  unfolding run
  run-enabled [] = refl
  run-enabled (c ∷ h) = after-enabled c h (run-enabled h)

  -- The messages that are to be reported of a participant that there is
  abbrev pub to_report : Text → ParticipantId → List (Call x) → Option (ℕ × ℕ)
  to_report k p h =
      if has_participant x k p h
      then some (received x k p h % 2 ^ 32, lost x k p h % 2 ^ 32)
      else none

  pub none_before :
      (k : Text) (p : ParticipantId) (h : List (Call x))
      → has_participant x k p h ≡ false
      → (received x k p h ≡ 0) × (lost x k p h ≡ 0)
  unfolding has_participant received lost
  none_before k p [] f = (refl, refl)
  none_before k p (msgs_received t q n ∷ h) f = ground (arith, none_before k p h)
  none_before k p (msgs_lost t q n ∷ h) f = ground (arith, none_before k p h)
  none_before k p (c ∷ h) f = ground (arith, none_before k p h)

  module _ (k : Text) (p : ParticipantId) where
    abbrev pub IsReported : List (Call x) → Type 0
    IsReported h = gathered x k p (run x h) ≡ to_report k p h

    report-told :
        (t : Topic.DdsTopic Qos) (q : ParticipantId) (n : ℕ) (h : List (Call x))
        → IsReported h
        → IsReported (msgs_received t q n ∷ h) × IsReported (msgs_lost t q n ∷ h)
    unfolding run after Topics.msgs_received Topics.msgs_lost received lost has_participant
    report-told t q n h e = ground (
      arith,
      gathered-msgs_received x k p t q n (run x h),
      gathered-msgs_lost x k p t q n (run x h),
      run-enabled h,
      none_before k p h,
    )

    report-flagged :
        (t : Topic.DdsTopic Qos) (h : List (Call x))
        → IsReported h
        → IsReported (type_mismatch t ∷ h) × IsReported (qos_mismatch t ∷ h)
    unfolding run after Topics.type_mismatch Topics.qos_mismatch Topics.set_flag
        Topics.register_topic received lost has_participant
    report-flagged t h e = ground arith

    report-consumed :
        (h : List (Call x))
        → IsReported h
        → IsReported (produce ∷ h) × IsReported (consume ∷ h) × IsReported (produce_and_consume ∷ h)
    unfolding run after Production.produce Production.consume Production.produce_and_consume
        received lost has_participant
    report-consumed h e = ground (
      arith,
      run-enabled h,
      gathered-produce_now x k p (run x h),
      gathered-consume_now x k p (run x h),
      gathered-consume_now x k p (Production.produce_now x (run x h)),
    )

    -- After any calls, the producer has gathered for a topic and a participant what the calls tell.
    pub gathered-run : (h : List (Call x)) → IsReported h
    unfolding run after Topics.init Topics.type_discovered Topics.enable Topics.disable
        Topics.register_consumer Topics.clear_consumers Topics.clear_data received lost
        has_participant lookup
    gathered-run [] = refl
    gathered-run (msgs_received t q n ∷ h) = (report-told t q n h (gathered-run h)).0
    gathered-run (msgs_lost t q n ∷ h) = (report-told t q n h (gathered-run h)).1
    gathered-run (type_mismatch t ∷ h) = (report-flagged t h (gathered-run h)).0
    gathered-run (qos_mismatch t ∷ h) = (report-flagged t h (gathered-run h)).1
    gathered-run (produce ∷ h) = (report-consumed h (gathered-run h)).0
    gathered-run (consume ∷ h) = (report-consumed h (gathered-run h)).1
    gathered-run (produce_and_consume ∷ h) = (report-consumed h (gathered-run h)).2
    gathered-run (c ∷ h) = ground (arith, gathered-run h)
