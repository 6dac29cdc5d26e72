-- ===== src/Monitoring/Entries.antt =====
-- The topics that TopicsMonitorProducer knows, after any calls.
use dds_pipe.Base.{
  ℕ, ◌≡◌, refl, Bool, true, false, List, [], ◌∷◌, Option, none, some, ite, ParticipantId,
  string_key, arith,
}
use dds_pipe.Map.{Map, lookup, lookup-insert}
use dds_pipe.Monitoring.Topics
use dds_pipe.Monitoring.Topics.{Parts, State, DdsTopic, at, values, register_topic, set_flag}
use dds_pipe.Monitoring.Production
use dds_pipe.Monitoring.Production.{rate_all, produce_topic, produce_topics, produce_now}
use dds_pipe.Monitoring.History.{
  Call, run, after, named, has_type_mismatch, has_qos_mismatch, produce, consume,
  produce_and_consume, msgs_received, msgs_lost, type_mismatch, qos_mismatch,
}
use dds_pipe.Monitoring.Reports.{run-enabled}
use dds_pipe.Rpc.Text.{Text}
use dds_pipe.Rpc.Topic
use dds_pipe.Topics.{dds_topic_unique_name}
use dds_pipe.Topics.Order.{text_dec, text_key}

module _ (x : Parts) where
  open x use {Double, Qos, Consumer}

  -- The names and the flags of a topic that there is
  pub record Summary : Type 0 where
    pub name : Text
    pub type_name : Text
    pub type_mismatch : Bool
    pub qos_mismatch : Bool

  abbrev pub summary : Option (DdsTopic x) → Option Summary
  summary none = none
  summary (some t) = some (record {
    name = t.name;
    type_name = t.type_name;
    type_mismatch = t.type_mismatch;
    qos_mismatch = t.qos_mismatch;
  })

  -- What an entry looks like in the report
  abbrev pub reported : Text → State x → Option (DdsTopic x) → Option (DdsTopic x)
  reported k s none = none
  reported k s (some t) = some (record t {
    type_discovered = at false t.type_name s.types_discovered;
    participants = values (rate_all x s.period (at [] k s.participant_data));
  })

  reported-after_other :
      (k j : Text) (t : DdsTopic x) (s : State x) (o : Option (DdsTopic x))
      → ite (text_dec k j) false true ≡ true
      → reported k (produce_topic x j t s).1 o ≡ reported k s o
  unfolding produce_topic
  reported-after_other k j t s none other = refl
  reported-after_other k j t s (some u) other = ground (
    arith,
    lookup-insert u.type_name t.type_name (at false t.type_name s.types_discovered)
        s.types_discovered,
    lookup-insert k j (rate_all x s.period (at [] j s.participant_data)) s.participant_data,
  )

  pub lookup-produce_topics :
      (k : Text) (m : Map Text (DdsTopic x)) (s : State x)
      → lookup k (produce_topics x m s).0 ≡ reported k s (lookup k m)
  unfolding produce_topics lookup
  lookup-produce_topics k [] s = refl
  lookup-produce_topics k ((j, t) ∷ m) s = ground (
    arith,
    lookup-produce_topics k m (produce_topic x j t s).1,
    reported-after_other k j t s (lookup k m),
  )

  -- The calls that register a topic, on what there is of it
  abbrev registered : Topic.DdsTopic Qos → Option Summary → Summary
  registered t none = record {
    name = t.m_topic_name;
    type_name = t.type_name;
    type_mismatch = false;
    qos_mismatch = false;
  }
  registered t (some r) = record r { name = t.m_topic_name; type_name = t.type_name }

  abbrev pub known : Text → State x → Option Summary
  known k s = summary (lookup k s.topic_data)

  known-register_topic :
      (k : Text) (t : Topic.DdsTopic Qos) (s : State x)
      → known k (register_topic x t s)
        ≡ ite (text_dec k (dds_topic_unique_name t)) (some (registered t (known k s))) (known k s)
  unfolding register_topic
  known-register_topic k t s = ground (
    arith,
    lookup-insert k (dds_topic_unique_name t)
        (record (at (Topics.no_topic x) (dds_topic_unique_name t) s.topic_data) {
          name = t.m_topic_name;
          type_name = t.type_name;
        })
        s.topic_data,
  )

  pub known-produce_now : (k : Text) (s : State x) → known k (produce_now x s) ≡ known k s
  unfolding produce_now
  known-produce_now k s = ground (arith, lookup-produce_topics k s.topic_data s)

  -- What is known of a topic, as the calls tell it
  abbrev pub to_know : Text → List (Call x) → Option Summary
  to_know k h = elim (named x k h) [
    | none ↦ none
    | some n ↦ some (record {
      name = n.0;
      type_name = n.1;
      type_mismatch = has_type_mismatch x k h;
      qos_mismatch = has_qos_mismatch x k h;
    })
  ]

  pub unnamed :
      (k : Text) (h : List (Call x))
      → named x k h ≡ none
      → (has_type_mismatch x k h ≡ false) × (has_qos_mismatch x k h ≡ false)
  unfolding named has_type_mismatch has_qos_mismatch
  unnamed k [] e = (refl, refl)
  unnamed k (c ∷ h) e = ground (arith, unnamed k h)

  module _ (k : Text) where
    abbrev pub IsKnown : List (Call x) → Type 0
    IsKnown h = known k (run x h) ≡ to_know k h

    IsKnown-told :
        (t : Topic.DdsTopic Qos) (q : ParticipantId) (n : ℕ) (h : List (Call x))
        → IsKnown h
        → IsKnown (msgs_received t q n ∷ h) × IsKnown (msgs_lost t q n ∷ h)
    unfolding run after Topics.msgs_received Topics.msgs_lost Topics.count_messages named
        has_type_mismatch has_qos_mismatch
    IsKnown-told t q n h e =
        ground (arith, known-register_topic k t (run x h), run-enabled x h, unnamed k h)

    IsKnown-flagged :
        (t : Topic.DdsTopic Qos) (h : List (Call x))
        → IsKnown h
        → IsKnown (type_mismatch t ∷ h) × IsKnown (qos_mismatch t ∷ h)
    unfolding run after Topics.type_mismatch Topics.qos_mismatch set_flag named has_type_mismatch
        has_qos_mismatch
    IsKnown-flagged t h e =
        let j = dds_topic_unique_name t in
        let s = register_topic x t (run x h) in
        let entry = at (Topics.no_topic x) j s.topic_data in
        ground (
          arith,
          known-register_topic k t (run x h),
          lookup-insert k j (Topics.raise_type_mismatch x entry) s.topic_data,
          lookup-insert k j (Topics.raise_qos_mismatch x entry) s.topic_data,
          run-enabled x h,
          unnamed k h,
        )

    IsKnown-produced :
        (h : List (Call x))
        → IsKnown h
        → IsKnown (produce ∷ h) × IsKnown (consume ∷ h) × IsKnown (produce_and_consume ∷ h)
    unfolding run after Production.produce Production.consume Production.produce_and_consume
        Production.consume_now named has_type_mismatch has_qos_mismatch
    IsKnown-produced h e = ground (arith, known-produce_now k (run x h))

    -- After any calls, the producer knows of a topic what the calls tell.
    pub IsKnown-run : (h : List (Call x)) → IsKnown h
    unfolding run after Topics.init Topics.type_discovered Topics.enable Topics.disable
        Topics.register_consumer Topics.clear_consumers Topics.clear_data named has_type_mismatch
        has_qos_mismatch lookup
    IsKnown-run [] = refl
    IsKnown-run (msgs_received t q n ∷ h) = (IsKnown-told t q n h (IsKnown-run h)).0
    IsKnown-run (msgs_lost t q n ∷ h) = (IsKnown-told t q n h (IsKnown-run h)).1
    IsKnown-run (type_mismatch t ∷ h) = (IsKnown-flagged t h (IsKnown-run h)).0
    IsKnown-run (qos_mismatch t ∷ h) = (IsKnown-flagged t h (IsKnown-run h)).1
    IsKnown-run (produce ∷ h) = (IsKnown-produced h (IsKnown-run h)).0
    IsKnown-run (consume ∷ h) = (IsKnown-produced h (IsKnown-run h)).1
    IsKnown-run (produce_and_consume ∷ h) = (IsKnown-produced h (IsKnown-run h)).2
    IsKnown-run (c ∷ h) = ground (arith, IsKnown-run h)
