-- ===== src/Rpc/Tests.antt =====
-- The topics of a service `add`, and a topic that only looks like one.
use dds_pipe.Base.{
  ℕ, ◌≡◌, ◌≢◌, refl, Bool, true, false, Option, none, some, List, [], ◌∷◌, ◌++◌, arith, length,
  ParticipantId, ◌+◌, not, ◌&&◌, ◌||◌, map, nat_key, string_key, ok,
}
use text.Mathlib.TextEquality.{eq_iff}
use dds_pipe.Map.{lookup}
use dds_pipe.Registry
use dds_pipe.Rpc.Text.{Text, codes}
use dds_pipe.Rpc.Topic.{
  DdsTopic, RpcTopic, request_prefix_str, request_str, rpc_topic, is_request_topic,
}
use dds_pipe.Rpc.Naming.{request_of, reply_of, service, rpc_topic_of_both}
use dds_pipe.Rpc.Recognised.{is_request_form, is_request_short}
use dds_pipe.Rpc.Bridge.{Participants, RpcBridge, Reader, servers_available, create}
use dds_pipe.Rpc.Runs.{Call, enables, discovers, hears, run, enabled_with_servers}
use dds_pipe.Rpc.Transmit.{
  Data, requester, transmit_request, transmit_reply, return_reply, transmit,
}
use dds_pipe.Rpc.RoundTrip.{reply_finds_request, replied_once}

abbrev add_request : DdsTopic ℕ
add_request = request_of (codes "add") (codes "Add_") 95 [] "a" 0

abbrev short_topic : DdsTopic ℕ
short_topic = record {
  m_topic_name = codes "rq/abc";
  m_internal_type_discriminator = [];
  m_topic_discoverer = "a";
  topic_qos = 0;
  type_name = codes "Integer";
}

rpc_topic_of_both_applied :
    (rpc_topic add_request ≡ some (service {Qos = ℕ} (codes "add") (codes "Add_") 95 "a" 0))
    × (rpc_topic {Qos = ℕ} (reply_of (codes "add") (codes "Add_") 95 [] "a" 0)
        ≡ some (service {Qos = ℕ} (codes "add") (codes "Add_") 95 "a" 0))
unfolding dds_pipe.Rpc.Text.starts
rpc_topic_of_both_applied =
    rpc_topic_of_both (codes "add") (codes "Add_") [] 95 "a" 0
      (record {
        request_prefix = (refl, (refl, (refl, tt)));
        reply_prefix = (refl, (refl, (refl, tt)));
        request = (refl, (refl, (refl, tt)));
        reply = (refl, (refl, (refl, tt)));
      })
      (record {
        request = (refl, (refl, (refl, (refl, tt))));
        response = (refl, (refl, (refl, (refl, tt))));
      })
      (omega arith) (omega arith)

add_request_is_named :
    ((rest : Text) × (add_request.m_topic_name ≡ request_prefix_str ++ rest))
    × ((before : Text) × (add_request.m_topic_name ≡ before ++ request_str))
    × ((before : Text) × (c : ℕ) × (add_request.type_name ≡ before ++ request_str ++ (c ∷ [])))
unfolding is_request_topic
add_request_is_named =
    is_request_form add_request (omega arith) (omega arith) (omega arith) (omega arith) refl

is_request_short_applied : is_request_topic short_topic ≡ true
unfolding dds_pipe.Rpc.Text.starts
is_request_short_applied = is_request_short short_topic refl refl refl refl

-- Two participants, whose writers keep a count of what they sent and are always able to send.
abbrev two_participants : Participants
two_participants = record {
  Guid = ℕ;
  guid_key = nat_key;
  GuidPrefix = ℕ;
  prefix_key = nat_key;
  Payload = ℕ;
  Qos = ℕ;
  Writer = Bool × ℕ;
  unknown = record { writer_guid = 0; sequence_number = 0 };
  rtps_participants_ids = "a" ∷ "b" ∷ [];
  is_repeater = λ id. false;
  create_writer = λ id topic. some (false, 0);
  create_reader = λ id topic. some 9;
  enable_writer = λ w. (true, w.1);
  disable_writer = λ w. (false, w.1);
  write = λ d w. (ok, w.1 + 1, (w.0, w.1 + 1));
}

abbrev add_service : RpcTopic ℕ
add_service = service (codes "add") (codes "Add_") 95 "a" 0

abbrev bridge_calls : List (Call two_participants)
bridge_calls = discovers "b" 1 ∷ enables ∷ hears 9 ∷ []

abbrev reply_reader : Reader two_participants
reply_reader = record {
  guid = 9;
  participant_id = "b";
  topic = add_service.reply_topic;
  enabled = true;
}

-- A bridge with a server behind participant `b`.
abbrev bridge : RpcBridge two_participants
bridge = record (create two_participants add_service) {
  init = true;
  enabled = true;
  reply_readers = ("b", reply_reader) ∷ [];
  request_writers = ("b", (true, 0)) ∷ [];
  reply_writers = ("a", (true, 5)) ∷ [];
  service_registries = ("b", record { enabled = true; registry = [] }) ∷ [];
}

abbrev request : Data two_participants
request = record {
  participant_receiver = "a";
  sample_identity = record { writer_guid = 3; sequence_number = 0 };
  related_sample_identity = record { writer_guid = 0; sequence_number = 0 };
  write_params_set = true;
  origin_sequence_number = 7;
  sent_sequence_number = 0;
  payload = 1;
}

abbrev reply : Data two_participants
reply = record request {
  participant_receiver = "b";
  sample_identity = record { writer_guid = 9; sequence_number = 1 };
}

-- The bridge, where a run does not fault.
abbrev result : Option (RpcBridge two_participants) → RpcBridge two_participants
result none = bridge
result (some b) = b

abbrev final : RpcBridge two_participants
final = result (run two_participants bridge_calls (create two_participants add_service))

enabled_with_servers_example :
    (not final.enabled || (final.init && servers_available two_participants final)) ≡ true
unfolding run dds_pipe.Base.string_dec dds_pipe.Base.ℕ_discrete lookup create
enabled_with_servers_example =
    enabled_with_servers two_participants add_service bridge_calls
      (result (run two_participants bridge_calls (create two_participants add_service))) refl

not_empty : ◌≢◌ {A = ParticipantId} "a" ""
not_empty = ground (arith, eq_iff "a" "")

reply_finds_request_example :
    (e : Data two_participants) × (c : RpcBridge two_participants) × (transmit_request
        two_participants request bridge
      ≡ some (e, c))
    × (transmit_reply two_participants reply_reader reply c
        ≡ return_reply two_participants reply_reader
            (Registry.add
              (record { enabled = true; registry = [] })
              1
              ("a", requester two_participants request))
            ("a", requester two_participants request)
            reply
            c)
unfolding dds_pipe.Rpc.Transmit.same_identity lookup dds_pipe.Base.string_dec Registry.get
    dds_pipe.Base.ℕ_discrete dds_pipe.Rpc.Requests.IsReady dds_pipe.Rpc.Transmit.is_skipped
reply_finds_request_example =
    reply_finds_request two_participants "b" (record { enabled = true; registry = [] }) 1 request
      reply reply_reader bridge refl not_empty refl refl (refl, tt)
      ((reply_reader, refl), ((true, 0), refl), tt)
      (record { w = (true, 0); v = (true, 1); reads = refl; writes = refl; accepts = λ sent. refl })
      refl (omega arith) refl refl

-- The same bridge once the request is forwarded.
abbrev forwarded : RpcBridge two_participants
forwarded = record bridge {
  service_registries =
      (
        "b",
        record { enabled = true; registry = (1, ("a", requester two_participants request)) ∷ [] },
      )
      ∷ [];
}

replied_once_example :
    (e : Data two_participants) × (c : RpcBridge two_participants) × (transmit_reply
        two_participants reply_reader reply forwarded
      ≡ some (e, c))
    × (lookup "a" c.reply_writers ≡ some (true, 6))
    × (transmit_reply two_participants reply_reader reply c ≡ some (reply, c))
unfolding lookup dds_pipe.Base.string_dec Registry.get dds_pipe.Base.ℕ_discrete
replied_once_example =
    replied_once two_participants reply_reader
      (record { enabled = true; registry = (1, ("a", requester two_participants request)) ∷ [] })
      ("a", requester two_participants request) reply reply forwarded (true, 5) refl refl refl
      not_empty refl refl refl

-- A `take` that fails makes the loop follow a null pointer.
failed_take : transmit two_participants reply_reader (none ∷ []) forwarded ≡ none
unfolding transmit
failed_take = refl
