-- ===== src/Rpc/Transmit.antt =====
-- `transmit_` of RpcBridge (communication/rpc/RpcBridge.cpp). What the reader's `take` gives, in turn, is
-- a list: `none` where it fails, and leaves no data. The bridge is not disabled in between.
use dds_pipe.Base.{
  Bool, true, false, not, Option, none, some, List, [], ◌∷◌, ◌++◌, if◌then◌else◌, ite, Key,
  ParticipantId, ReturnCode, ok, no_data, not_enabled, error, precondition_not_met, string_key,
  string_dec, ℕ_discrete,
}
use dds_pipe.Map.{lookup, insert}
use dds_pipe.Registry
use dds_pipe.Registry.{ServiceRegistry}
use dds_pipe.Rpc.Topic.{is_request_topic, is_reply_topic}
use dds_pipe.Rpc.Bridge.{Participants, RpcBridge, Reader, RpcPayloadData, SampleIdentity}

-- `operator !` of ReturnCode, negated
abbrev pub succeeded : ReturnCode → Bool
succeeded ok = true
succeeded no_data = false
succeeded not_enabled = false
succeeded error = false
succeeded precondition_not_met = false

module _ (x : Participants) where
  open x use {Guid, Payload, Writer, unknown, is_repeater, write}

  instance abbrev guid_key : Key Guid
  guid_key = x.guid_key

  abbrev pub Data : Type 0
  Data = RpcPayloadData Guid Payload

  abbrev pub Registered : Type 0
  Registered = ServiceRegistry (SampleIdentity Guid)

  -- `reply_related_sample_identity`
  abbrev pub requester : Data → SampleIdentity Guid
  requester d = record {
    writer_guid = d.sample_identity.writer_guid;
    sequence_number = d.origin_sequence_number;
  }

  unfoldable pub same_identity : SampleIdentity Guid → SampleIdentity Guid → Bool
  same_identity a b =
      ite (x.guid_key.dec a.writer_guid b.writer_guid)
        (ite (ℕ_discrete a.sequence_number b.sequence_number) true false) false

  unfoldable pub is_skipped : ParticipantId → Registered → Data → Bool
  is_skipped id r d =
      if ite (string_dec d.participant_receiver id) (not (is_repeater id)) false
      then true
      else not r.enabled

  abbrev pub labelled : Reader x → Data → Data
  labelled reader d = record d {
    write_params_set = true;
    related_sample_identity = record d.related_sample_identity { writer_guid = reader.guid };
  }

  -- One turn of the loop over `service_registries_`, for a registry that is not skipped.
  unfoldable pub forward :
      ParticipantId → Registered → Data → RpcBridge x → Option (Data × RpcBridge x)
  unfolding Registry.add
  forward id r d b = elim (lookup id b.reply_readers) [
    | none ↦ none
    | some reader ↦ elim (lookup id b.request_writers) [
      | none ↦ none
      | some w ↦
          let (code, sent, v) = write (labelled reader d) w in
          let e : Data = record (labelled reader d) { sent_sequence_number = sent } in
          let c : RpcBridge x = record b { request_writers = insert id v b.request_writers } in
          if succeeded code
          then some (
            e,
            record c {
              service_registries =
                  insert id (Registry.add r sent (d.participant_receiver, requester d))
                    b.service_registries;
            },
          )
          else some (e, c)
    ]
  ]

  unfoldable pub forward_all :
      List (ParticipantId × Registered) → Data → RpcBridge x → Option (Data × RpcBridge x)
  unfolding is_skipped forward
  forward_all [] d b = some (d, b)
  forward_all ((id, r) ∷ rs) d b =
      let skipped = forward_all rs d b in
      let forwarded : Option (Data × RpcBridge x) = elim (forward id r d b) [
        | none ↦ none
        | some (e, c) ↦ forward_all rs e c
      ] in
      if is_skipped id r d then skipped else forwarded

  unfoldable pub transmit_request : Data → RpcBridge x → Option (Data × RpcBridge x)
  unfolding same_identity forward_all
  transmit_request d b =
      if same_identity (requester d) unknown
      then some (d, b)
      else forward_all b.service_registries d b

  -- For a registry entry that is valid
  unfoldable pub return_reply :
      Reader x
      → Registered
      → ParticipantId × SampleIdentity Guid
      → Data
      → RpcBridge x
      → Option (Data × RpcBridge x)
  unfolding Registry.remove
  return_reply reader r entry d b = elim (lookup entry.0 b.reply_writers) [
    | none ↦ none
    | some w ↦
        let e : Data = record d { write_params_set = true; related_sample_identity = entry.1 } in
        let (code, sent, v) = write e w in
        let f : Data = record e { sent_sequence_number = sent } in
        let c : RpcBridge x = record b { reply_writers = insert entry.0 v b.reply_writers } in
        if succeeded code
        then some (
          f,
          record c {
            service_registries =
                insert reader.participant_id (Registry.remove r d.sample_identity.sequence_number)
                  b.service_registries;
          },
        )
        else some (f, c)
  ]

  unfoldable pub transmit_reply : Reader x → Data → RpcBridge x → Option (Data × RpcBridge x)
  unfolding return_reply Registry.get
  transmit_reply reader d b =
      ite (x.guid_key.dec d.sample_identity.writer_guid reader.guid)
        (elim (lookup reader.participant_id b.service_registries) [
          | none ↦ none
          | some r ↦
              let entry = Registry.get unknown r d.sample_identity.sequence_number in
              ite (string_dec entry.0 "") (some (d, b)) (return_reply reader r entry d b)
        ])
        (some (d, b))

  -- `none` for a reader of another topic: `tsnh`, "this should not happen".
  unfoldable pub transmit_data : Reader x → Data → RpcBridge x → Option (RpcBridge x)
  unfolding transmit_request transmit_reply is_request_topic is_reply_topic
  transmit_data reader d b =
      let sent : Option (Data × RpcBridge x) =
        if is_request_topic reader.topic
        then transmit_request d b
        else if is_reply_topic reader.topic
        then transmit_reply reader d b
        else none in
      elim sent [
        | none ↦ none
        | some (e, c) ↦ some (record c { released = c.released ++ (e.payload ∷ []) })
      ]

  -- The data is looked at before the result of `take` is, also when there is none.
  unfoldable pub transmit : Reader x → List (Option Data) → RpcBridge x → Option (RpcBridge x)
  unfolding transmit_data
  transmit reader [] b = some (record b { tasks_map = insert reader.guid false b.tasks_map })
  transmit reader (taken ∷ rest) b =
      let next : Option (RpcBridge x) = elim taken [
        | none ↦ none
        | some d ↦ elim (transmit_data reader d b) [ none ↦ none | some c ↦ transmit reader rest c ]
      ] in
      if b.enabled
      then next
      else some (record b { tasks_map = insert reader.guid false b.tasks_map })
