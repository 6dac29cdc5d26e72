-- ===== src/Monitoring/Conserved.antt =====
-- The messages in all reports of TopicsMonitorProducer together.
use dds_pipe.Base.{
  ℕ, ◌+◌, ◌^◌, ◌<◌, ◌≡◌, refl, Bool, true, false, List, [], ◌∷◌, Option, none, some, if◌then◌else◌,
  ParticipantId, string_key, ◌&&◌, arith,
}
use dds_pipe.Map.{lookup}
use dds_pipe.Monitoring.Topics.{Parts}
use dds_pipe.Monitoring.Counts.{gathered}
use dds_pipe.Monitoring.History.{
  Call, run, is_on, received, tells, clear_data, consume, produce_and_consume, msgs_received,
}
use dds_pipe.Monitoring.Published.{report, counted_in, counted-report}
use dds_pipe.Monitoring.Reports.{none_before, gathered-run}
use dds_pipe.Rpc.Text.{Text}
use dds_pipe.Topics.Order.{text_key}

module _ (x : Parts) where
  open x use {Double, Qos, Consumer}

  -- The calls of a monitor that clears no data and consumes only what it has just produced
  abbrev pub is_periodic : Call x → Bool
  is_periodic clear_data = false
  is_periodic consume = false
  is_periodic _ = true

  abbrev pub all_periodic : List (Call x) → Bool
  all_periodic [] = true
  all_periodic (c ∷ h) = is_periodic c && all_periodic h

  -- All messages received that are told of while the producer is enabled
  unfoldable pub total : Text → ParticipantId → List (Call x) → ℕ
  total k p [] = 0
  total k p (msgs_received t q n ∷ h) = total k p h + (if is_on x h then tells x k p t q n else 0)
  total k p (_ ∷ h) = total k p h

  abbrev pub received_in : Option (ℕ × ℕ) → ℕ
  received_in none = 0
  received_in (some n) = n.0

  -- The sum over the reports that have been passed on
  unfoldable pub reported_total : Text → ParticipantId → List (Call x) → ℕ
  reported_total k p [] = 0
  reported_total k p (produce_and_consume ∷ h) =
      reported_total k p h
      + (if is_on x h then received_in (counted_in x p (lookup k (report x h))) else 0)
  reported_total k p (_ ∷ h) = reported_total k p h

  total-split :
      (k : Text) (p : ParticipantId) (h : List (Call x))
      → all_periodic h ≡ true
      → total k p h < 2 ^ 32
      → reported_total k p h + received x k p h ≡ total k p h
  unfolding reported_total received total
  total-split k p [] a b = refl
  total-split k p (produce_and_consume ∷ h) a b =
      ground (arith, total-split k p h, counted-report x k p h, none_before x k p h)
  total-split k p (c ∷ h) a b = ground (arith, total-split k p h)

  -- After calls that clear no data and consume only as `produce_and_consume` does, with fewer than 2 ^ 32
  -- messages in all of a participant on a topic: the numbers in the reports that have been passed on,
  -- together with what the producer has gathered since, make the number of messages received that
  -- it was told of while it was enabled. No message is left out of the reports, or is in two of
  -- them.
  pub each_message_once :
      (k : Text) (p : ParticipantId) (h : List (Call x))
      → all_periodic h ≡ true
      → total k p h < 2 ^ 32
      → reported_total k p h + received_in (gathered x k p (run x h)) ≡ total k p h
  each_message_once k p h a b =
      ground (arith, total-split k p h, gathered-run x k p h, none_before x k p h)
