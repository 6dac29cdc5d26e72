-- ===== src/Monitoring/Tests.antt =====
-- Monitoring at examples: one participant on one topic, and one consumer.
use dds_pipe.Base.{
  ℕ, ◌+◌, ◌%◌, ◌^◌, ◌≡◌, refl, Bool, true, false, not, List, [], ◌∷◌, map, Option, none, some, any,
  if◌then◌else◌, arith, String,
}
use dds_pipe.Map.{lookup}
use dds_pipe.Monitoring.Conserved.{reported_total, total, received_in, each_message_once}
use dds_pipe.Monitoring.Counts.{gathered}
use dds_pipe.Monitoring.Entries.{summary, to_know}
use dds_pipe.Monitoring.History.{
  Call, run, init, produce_and_consume, register_consumer, msgs_received, msgs_lost,
  type_discovered, type_mismatch, named,
}
use dds_pipe.Monitoring.Monitor.{Consumers, Monitor, destroy, destroy-clean, topics_producer}
use dds_pipe.Monitoring.Production
use dds_pipe.Monitoring.Published.{
  report, counted_in, discovered_in, reports_all_messages, reports_all_topics,
}
use dds_pipe.Monitoring.Status
use dds_pipe.Monitoring.Status.Reports
use dds_pipe.Monitoring.Status.Reports.{init_with, registering, adding_error, reports_all_errors}
use dds_pipe.Monitoring.Topics
use dds_pipe.Monitoring.Topics.{Parts, at, values}
use dds_pipe.Rpc.Text.{Text, codes}
use dds_pipe.Rpc.Topic.{DdsTopic}
use dds_pipe.Topics.Order.{text_key}
use dds_pipe.Topics.{internal_topic_type_rtps, dds_topic_unique_name}

abbrev parts : Parts
parts = record { Double = ℕ; of_nat = λ n. n; divide = λ n d. n; Qos = ℕ; Consumer = String }

abbrev chat : DdsTopic ℕ
chat = record {
  m_topic_name = codes "chat";
  m_internal_type_discriminator = internal_topic_type_rtps;
  m_topic_discoverer = "participant";
  topic_qos = 0;
  type_name = codes "Text";
}

abbrev key : Text
key = dds_topic_unique_name chat

abbrev setup : List (Call parts)
setup = register_consumer "log" ∷ init (record { enabled = true; period = 1000 }) ∷ []

-- Three messages are reported, then two more arrive and one is lost.
abbrev later : List (Call parts)
later =
    msgs_lost chat "A" 1
    ∷ msgs_received chat "A" 2
    ∷ produce_and_consume
    ∷ type_mismatch chat
    ∷ msgs_received chat "A" 3
    ∷ type_discovered (codes "Text")
    ∷ setup

reports_all_messages_example :
    ((Production.produce_and_consume parts (run parts later)).1
      ≡ map (λ c. (c, values (report parts later))) (run parts later).consumers)
    × (counted_in parts "A" (lookup key (report parts later)) ≡ some (2, 1))
unfolding dds_pipe.Monitoring.History.has_participant dds_pipe.Topics.Order.text_dec
    dds_topic_unique_name dds_pipe.Base.ℕ_discrete dds_pipe.Base.string_dec
    dds_pipe.Monitoring.History.received dds_pipe.Monitoring.History.lost
reports_all_messages_example = reports_all_messages parts key "A" later refl

reports_all_topics_example :
    (summary parts (lookup key (report parts later)) ≡ to_know parts key later)
    × (discovered_in parts (lookup key (report parts later)) ≡ some true)
unfolding named dds_pipe.Topics.Order.text_dec dds_topic_unique_name
    dds_pipe.Monitoring.History.is_discovered dds_pipe.Base.ℕ_discrete
reports_all_topics_example = reports_all_topics parts key later

each_message_once_example :
    reported_total parts key "A" later
      + received_in parts (gathered parts key "A" (run parts later))
    ≡ 5
unfolding total dds_pipe.Topics.Order.text_dec dds_topic_unique_name dds_pipe.Base.ℕ_discrete
    dds_pipe.Base.string_dec
each_message_once_example = each_message_once parts key "A" later refl (omega arith)

abbrev errors : List (Reports.Call ℕ String)
errors = adding_error (codes "TYPE_MISMATCH") ∷ registering "log" ∷ init_with true 1000 ∷ []

reports_all_errors_example :
    (Status.produce_and_consume ℕ String (Reports.run ℕ String 1000 errors)).1
    ≡ map (λ c. (c, Reports.to_report ℕ String errors)) (Reports.run ℕ String 1000 errors).consumers
reports_all_errors_example = reports_all_errors ℕ String 1000 errors refl

abbrev consumers : Consumers parts
consumers = record { MonitorConsumerConfiguration = ℕ; log = "log"; dds = λ c. none }

abbrev monitor : Monitor parts consumers
monitor = record {
  configuration = record { producers = []; consumers = [] };
  producers = topics_producer ∷ [];
  events = (topics_producer, 1000) ∷ [];
  status = Status.create ℕ String 1000;
  topics = run parts later;
}

destroy-clean_applied :
    ((destroy parts consumers monitor).events ≡ [])
    × ((destroy parts consumers monitor).topics
        ≡ record (Topics.create parts) { period = (run parts later).period })
    × ((destroy parts consumers monitor).status ≡ Status.create ℕ String 1000)
destroy-clean_applied = destroy-clean parts consumers monitor
