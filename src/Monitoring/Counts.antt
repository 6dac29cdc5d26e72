-- ===== src/Monitoring/Counts.antt =====
-- The counts that TopicsMonitorProducer keeps, after any calls.
use dds_pipe.Base.{
  ℕ, ◌+◌, ◌%◌, ◌^◌, ◌≡◌, refl, ap, ◌∙◌, true, [], ◌∷◌, Option, none, some, ite, ParticipantId,
  string_dec, string_key, arith,
}
use dds_pipe.Map.{Map, lookup, insert, lookup-insert}
use dds_pipe.Monitoring.Topics
use dds_pipe.Monitoring.Topics.{
  Parts, State, DdsTopicData, DdsTopic, at, value_or, count_messages, register_topic,
}
use dds_pipe.Monitoring.Production.{
  rate_all, produce_topic, produce_topics, produce_now, reset_participants, reset_topics,
  consume_now,
}
use dds_pipe.Rpc.Text.{Text}
use dds_pipe.Rpc.Topic
use dds_pipe.Topics.{dds_topic_unique_name}
use dds_pipe.Topics.Order.{text_dec, text_key}

module _ (x : Parts) where
  open x use {Double, Qos, Consumer}

  -- The messages received and lost, of a participant that there is
  abbrev pub counts : Option (DdsTopicData x) → Option (ℕ × ℕ)
  counts none = none
  counts (some d) = some (d.msgs_received, d.msgs_lost)

  abbrev pub gathered : Text → ParticipantId → State x → Option (ℕ × ℕ)
  gathered k p s = counts (lookup p (at [] k s.participant_data))

  abbrev pub zeroed : Option (ℕ × ℕ) → Option (ℕ × ℕ)
  zeroed none = none
  zeroed (some n) = some (0, 0)

  pub counts-rate_all :
      (period : Double) (p : ParticipantId) (m : Map ParticipantId (DdsTopicData x))
      → counts (lookup p (rate_all x period m)) ≡ counts (lookup p m)
  unfolding rate_all lookup
  counts-rate_all period p [] = refl
  counts-rate_all period p ((q, d) ∷ m) = ground (arith, counts-rate_all period p m)

  counts-reset :
      (p : ParticipantId) (m : Map ParticipantId (DdsTopicData x))
      → counts (lookup p (reset_participants x m)) ≡ zeroed (counts (lookup p m))
  unfolding reset_participants lookup
  counts-reset p [] = refl
  counts-reset p ((q, d) ∷ m) = ground (arith, counts-reset p m)

  at-reset :
      (k : Text) (m : Map Text (Map ParticipantId (DdsTopicData x)))
      → at [] k (reset_topics x m) ≡ reset_participants x (at [] k m)
  unfolding reset_topics reset_participants lookup
  at-reset k [] = refl
  at-reset k ((j, n) ∷ m) = ground (arith, at-reset k m)

  gathered-produce_topic :
      (k : Text) (p : ParticipantId) (j : Text) (t : DdsTopic x) (s : State x)
      → gathered k p (produce_topic x j t s).1 ≡ gathered k p s
  unfolding produce_topic
  gathered-produce_topic k p j t s = ground (
    arith,
    lookup-insert k j (rate_all x s.period (at [] j s.participant_data)) s.participant_data,
    counts-rate_all s.period p (at [] j s.participant_data),
  )

  gathered-produce_topics :
      (k : Text) (p : ParticipantId) (m : Map Text (DdsTopic x)) (s : State x)
      → gathered k p (produce_topics x m s).1 ≡ gathered k p s
  unfolding produce_topics
  gathered-produce_topics k p [] s = refl
  gathered-produce_topics k p ((j, t) ∷ m) s =
      gathered-produce_topics k p m (produce_topic x j t s).1 ∙ gathered-produce_topic k p j t s

  pub gathered-produce_now :
      (k : Text) (p : ParticipantId) (s : State x) → gathered k p (produce_now x s) ≡ gathered k p s
  unfolding produce_now
  gathered-produce_now k p s = gathered-produce_topics k p s.topic_data s

  pub gathered-consume_now :
      (k : Text) (p : ParticipantId) (s : State x)
      → gathered k p (consume_now x s).0 ≡ zeroed (gathered k p s)
  unfolding consume_now
  gathered-consume_now k p s =
      ap (λ m. counts (lookup p m)) (at-reset k s.participant_data)
      ∙ counts-reset p (at [] k s.participant_data)

  enabled-produce_topics :
      (m : Map Text (DdsTopic x)) (s : State x) → (produce_topics x m s).1.enabled ≡ s.enabled
  unfolding produce_topics produce_topic
  enabled-produce_topics [] s = refl
  enabled-produce_topics ((j, t) ∷ m) s = enabled-produce_topics m (produce_topic x j t s).1

  pub enabled-produce_now : (s : State x) → (produce_now x s).enabled ≡ s.enabled
  unfolding produce_now
  enabled-produce_now s = enabled-produce_topics s.topic_data s

  -- A count starts from zero where there was no participant.
  abbrev pub or_zero : Option (ℕ × ℕ) → ℕ × ℕ
  or_zero none = (0, 0)
  or_zero (some n) = n

  abbrev pub with_received : ℕ → Option (ℕ × ℕ) → Option (ℕ × ℕ)
  with_received n o = some (((or_zero o).0 + n) % 2 ^ 32, (or_zero o).1)

  abbrev pub with_lost : ℕ → Option (ℕ × ℕ) → Option (ℕ × ℕ)
  with_lost n o = some ((or_zero o).0, ((or_zero o).1 + n) % 2 ^ 32)

  lookup-insert_inner :
      (k j : Text) (p q : ParticipantId) (v : DdsTopicData x)
      (m : Map Text (Map ParticipantId (DdsTopicData x)))
      → lookup p (at [] k (insert j (insert q v (at [] j m)) m))
        ≡ ite
            (text_dec k j)
            (ite (string_dec p q) (some v) (lookup p (at [] k m)))
            (lookup p (at [] k m))
  lookup-insert_inner k j p q v m =
      ground (arith, lookup-insert k j (insert q v (at [] j m)) m, lookup-insert p q v (at [] j m))

  abbrev counted : ParticipantId → Map ParticipantId (DdsTopicData x) → DdsTopicData x
  counted q m = record (at (Topics.no_topic_data x) q m) { participant_id = q }

  counted-or_zero :
      (q : ParticipantId) (m : Map ParticipantId (DdsTopicData x))
      → ((counted q m).msgs_received ≡ (or_zero (counts (lookup q m))).0)
        × ((counted q m).msgs_lost ≡ (or_zero (counts (lookup q m))).1)
  counted-or_zero q m = ground arith

  module _ (k : Text) (p : ParticipantId) (t : Topic.DdsTopic Qos) (q : ParticipantId) (n : ℕ)
      (s : State x) where
    abbrev told : Map ParticipantId (DdsTopicData x)
    told = at [] (dds_topic_unique_name t) s.participant_data

    -- The calls that count, on an enabled producer
    pub gathered-msgs_received :
        s.enabled ≡ true
        → gathered k p (Topics.msgs_received x t q n s)
          ≡ ite
              (text_dec k (dds_topic_unique_name t))
              (ite (string_dec p q) (with_received n (gathered k p s)) (gathered k p s))
              (gathered k p s)
    unfolding Topics.msgs_received count_messages register_topic
    gathered-msgs_received on = ground (
      arith,
      lookup-insert_inner k (dds_topic_unique_name t) p q (Topics.add_received x n (counted q told))
          s.participant_data,
      counted-or_zero q told,
    )

    pub gathered-msgs_lost :
        s.enabled ≡ true
        → gathered k p (Topics.msgs_lost x t q n s)
          ≡ ite
              (text_dec k (dds_topic_unique_name t))
              (ite (string_dec p q) (with_lost n (gathered k p s)) (gathered k p s))
              (gathered k p s)
    unfolding Topics.msgs_lost count_messages register_topic
    gathered-msgs_lost on = ground (
      arith,
      lookup-insert_inner k (dds_topic_unique_name t) p q (Topics.add_lost x n (counted q told))
          s.participant_data,
      counted-or_zero q told,
    )
