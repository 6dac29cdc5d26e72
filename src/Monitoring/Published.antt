-- ===== src/Monitoring/Published.antt =====
-- The reports that TopicsMonitorProducer passes on to its consumers.
use dds_pipe.Base.{
  ℕ, ◌≡◌, refl, ap, ◌∙◌, Bool, true, false, not, List, [], ◌∷◌, map, Option, none, some,
  if◌then◌else◌, ite, ParticipantId, string_dec, string_key, arith,
}
use dds_pipe.Map.{Map, lookup, lookup-insert}
use dds_pipe.Monitoring.Topics
use dds_pipe.Monitoring.Topics.{Parts, State, DdsTopic, DdsTopicData, at, values}
use dds_pipe.Monitoring.Production
use dds_pipe.Monitoring.Production.{rate_all, produce_topic, produce_topics, produce_now}
use dds_pipe.Monitoring.Counts.{counts, counts-rate_all}
use dds_pipe.Monitoring.Entries.{
  lookup-produce_topics, known-produce_now, summary, to_know, IsKnown-run, reported,
}
use dds_pipe.Monitoring.Keyed.{AreOwned, at-AreOwned, run-IsKeyed, rate_all-AreOwned}
use dds_pipe.Monitoring.History.{
  Call, run, after, is_on, named, has_participant, is_discovered, produce, produce_and_consume,
  type_discovered,
}
use dds_pipe.Monitoring.Reports.{run-enabled, to_report, gathered-run}
use dds_pipe.Rpc.Text.{Text}
use dds_pipe.Topics.Order.{text_key}

module _ (x : Parts) where
  open x use {Double, Qos, Consumer}

  -- The topics of a report, with the unique name of each
  abbrev pub report : List (Call x) → Map Text (DdsTopic x)
  report h = (produce_now x (run x h)).topic_data

  abbrev pub find_data : ParticipantId → List (DdsTopicData x) → Option (DdsTopicData x)
  find_data p [] = none
  find_data p (d ∷ ds) = ite (string_dec p d.participant_id) (some d) (find_data p ds)

  -- The messages received and lost that a report gives for a participant of a topic
  abbrev pub counted_in : ParticipantId → Option (DdsTopic x) → Option (ℕ × ℕ)
  counted_in p none = none
  counted_in p (some t) = counts x (find_data p t.participants)

  find_data-values :
      (p : ParticipantId) (m : Map ParticipantId (DdsTopicData x))
      → AreOwned x m
      → find_data p (values m) ≡ lookup p m
  unfolding lookup
  find_data-values p [] e = refl
  find_data-values p ((q, d) ∷ m) e = ground (arith, find_data-values p m e.1, e.0)

  named-has_participant :
      (k : Text) (p : ParticipantId) (h : List (Call x))
      → named x k h ≡ none
      → has_participant x k p h ≡ false
  unfolding named has_participant
  named-has_participant k p [] e = refl
  named-has_participant k p (c ∷ h) e = ground (arith, named-has_participant k p h)

  pub counted-report :
      (k : Text) (p : ParticipantId) (h : List (Call x))
      → counted_in p (lookup k (report h)) ≡ to_report x k p h
  unfolding produce_now
  counted-report k p h =
      let s = run x h in
      let m = at [] k s.participant_data in
      ground (
        arith,
        lookup-produce_topics x k s.topic_data s,
        find_data-values p (rate_all x s.period m)
            (rate_all-AreOwned x s.period m (at-AreOwned x k s (run-IsKeyed x h))),
        counts-rate_all x s.period p m,
        gathered-run x k p h,
        IsKnown-run x k h,
        named-has_participant k p h,
      )

  consumers-produce_topics :
      (m : Map Text (DdsTopic x)) (s : State x) → (produce_topics x m s).1.consumers ≡ s.consumers
  unfolding produce_topics produce_topic
  consumers-produce_topics [] s = refl
  consumers-produce_topics ((j, t) ∷ m) s = consumers-produce_topics m (produce_topic x j t s).1

  passed_on :
      (s : State x)
      → s.enabled ≡ true
      → (Production.produce_and_consume x s).1
        ≡ map (λ c. (c, values (produce_now x s).topic_data)) s.consumers
  unfolding Production.produce_and_consume Production.consume_now produce_now
  passed_on s on =
      ap (λ b. (if not b then (s, []) else Production.consume_now x (produce_now x s)).1) on
      ∙ ap (map (λ c. (c, values (produce_now x s).topic_data)))
          (consumers-produce_topics s.topic_data s)

  -- After any calls that leave the producer enabled, `produce_and_consume` passes on one report, to each
  -- consumer. For a topic and a participant it gives, modulo 2 ^ 32, the messages received and the
  -- messages lost that the calls told of since the counts were last consumed or cleared; where no
  -- call told of the two since the data were cleared, it gives none.
  pub reports_all_messages :
      (k : Text) (p : ParticipantId) (h : List (Call x))
      → is_on x h ≡ true
      → ((Production.produce_and_consume x (run x h)).1
          ≡ map (λ c. (c, values (report h))) (run x h).consumers)
        × (counted_in p (lookup k (report h)) ≡ to_report x k p h)
  reports_all_messages k p h on = (passed_on (run x h) (run-enabled x h ∙ on), counted-report k p h)

  at-discovered :
      (n : Text) (m : Map Text (DdsTopic x)) (s : State x)
      → at false n (produce_topics x m s).1.types_discovered ≡ at false n s.types_discovered
  unfolding produce_topics produce_topic
  at-discovered n [] s = refl
  at-discovered n ((j, t) ∷ m) s = ground (
    arith,
    at-discovered n m (produce_topic x j t s).1,
    lookup-insert n t.type_name (at false t.type_name s.types_discovered) s.types_discovered,
  )

  types-run :
      (n : Text) (h : List (Call x)) → at false n (run x h).types_discovered ≡ is_discovered x n h
  unfolding run after Topics.init Topics.msgs_received Topics.msgs_lost Topics.register_topic
      Topics.count_messages Topics.type_discovered Topics.type_mismatch Topics.qos_mismatch
      Topics.set_flag Topics.enable Topics.disable Topics.register_consumer Topics.clear_consumers
      Topics.clear_data Production.produce Production.consume Production.produce_and_consume
      Production.consume_now produce_now is_discovered lookup
  types-run n [] = refl
  types-run n (type_discovered m ∷ h) =
      ground
        (arith, types-run n h, run-enabled x h, lookup-insert n m true (run x h).types_discovered)
  types-run n (produce ∷ h) =
      ground (arith, types-run n h, at-discovered n (run x h).topic_data (run x h))
  types-run n (produce_and_consume ∷ h) =
      ground (arith, types-run n h, at-discovered n (run x h).topic_data (run x h))
  types-run n (c ∷ h) = ground (arith, types-run n h)

  -- What a report says of a topic besides its participants
  abbrev pub discovered_in : Option (DdsTopic x) → Option Bool
  discovered_in none = none
  discovered_in (some t) = some t.type_discovered

  abbrev pub to_discover : List (Call x) → Option (Text × Text) → Option Bool
  to_discover h none = none
  to_discover h (some n) = some (is_discovered x n.1 h)

  discovered-reported :
      (k : Text) (h : List (Call x)) (o : Option (DdsTopic x))
      → summary x o ≡ to_know x k h
      → discovered_in (reported x k (run x h) o) ≡ to_discover h (named x k h)
  discovered-reported k h none e = ground (arith, e)
  discovered-reported k h (some t) e = ground (arith, e, types-run t.type_name h)

  -- After any calls, a report has a topic exactly when a call told of it since the data were cleared. It
  -- gives the names of the latest such call, says that the type or the Quality of Service did not
  -- match exactly when a call told so since then, and that the type is discovered exactly when a call
  -- told so since then of the name of the type that it gives.
  pub reports_all_topics :
      (k : Text) (h : List (Call x))
      → (summary x (lookup k (report h)) ≡ to_know x k h)
        × (discovered_in (lookup k (report h)) ≡ to_discover h (named x k h))
  unfolding produce_now
  reports_all_topics k h =
      let s = run x h in
      (
        known-produce_now x k (run x h) ∙ IsKnown-run x k h,
        ap discovered_in (lookup-produce_topics x k s.topic_data s)
            ∙ discovered-reported k h (lookup k s.topic_data) (IsKnown-run x k h),
      )
