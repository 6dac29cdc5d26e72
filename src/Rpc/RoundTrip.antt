-- ===== src/Rpc/RoundTrip.antt =====
-- The way of a request and of its reply through RpcBridge (communication/rpc/RpcBridge.cpp).
use dds_pipe.Base.{
  ℕ, suc, ◌+◌, ◌<◌, ◌≡◌, ◌≢◌, refl, ap, ◌∙◌, true, false, Option, none, some, if_pos, if_neg, Key,
  ParticipantId, string_key, string_dec, nat_key, arith, length,
}
use dds_pipe.Map.{lookup, insert, lookup-insert_same, Unique}
use dds_pipe.Registry
use dds_pipe.Registry.{ServiceRegistry, default_max_entries}
use dds_pipe.Registry.Replies.{get-add, get-remove}
use dds_pipe.Rpc.Bridge.{Participants, RpcBridge, Reader, SampleIdentity}
use dds_pipe.Rpc.Transmit.{
  succeeded, Data, Registered, requester, is_skipped, transmit_request, transmit_reply,
  return_reply, same_identity,
}
use dds_pipe.Rpc.Requests.{IsReady, IsDone, IsForwarded, Sends}
use dds_pipe.Rpc.Forwarded.{forward_all-IsForwarded}

module _ (x : Participants) where
  open x use {Guid, Payload, Writer, unknown, is_repeater, write}

  instance abbrev guid_key : Key Guid
  guid_key = x.guid_key

  IsDone-some :
      (P : RpcBridge x → Type 0) (d : Data x) (o : Option (Data x × RpcBridge x))
      → IsDone x P d o
      → (e : Data x) × (c : RpcBridge x) × (o ≡ some (e, c)) × P c
  IsDone-some P d none fault = ground (arith, fault)
  IsDone-some P d (some (e, c)) holds = (e, c, refl, holds.1)

  transmit_reply-found :
      (reader : Reader x) (reply : Data x) (b : RpcBridge x) (r : Registered x)
      (entry : ParticipantId × SampleIdentity Guid)
      → reply.sample_identity.writer_guid ≡ reader.guid
      → lookup reader.participant_id b.service_registries ≡ some r
      → Registry.get unknown r reply.sample_identity.sequence_number ≡ entry
      → entry.0 ≢ ""
      → transmit_reply x reader reply b ≡ return_reply x reader r entry reply b
  unfolding transmit_reply
  transmit_reply-found reader reply b r entry mine found there valid =
      simp (transmit_reply, mine, found, there)
        (if_pos (x.guid_key.dec reader.guid reader.guid) refl _ _
          ∙ if_neg (string_dec entry.0 "") valid _ _)

  transmit_reply-gone :
      (reader : Reader x) (reply : Data x) (b : RpcBridge x) (r : Registered x)
      → reply.sample_identity.writer_guid ≡ reader.guid
      → lookup reader.participant_id b.service_registries ≡ some r
      → Registry.get unknown r reply.sample_identity.sequence_number ≡ ("", unknown)
      → transmit_reply x reader reply b ≡ some (reply, b)
  unfolding transmit_reply
  transmit_reply-gone reader reply b r mine found gone =
      simp (transmit_reply, mine, found, gone)
        (if_pos (x.guid_key.dec reader.guid reader.guid) refl _ _
          ∙ if_pos (string_dec "" "") refl _ _)

  -- When each participant that has a registry has its endpoints, a request that is not ill-formed, and was
  -- received by a participant with an identifier, is forwarded through every participant that is not
  -- skipped for it. When the writer of such a participant sends it under a number that is new to the
  -- participant's registry, which has room, then a reply that comes to this participant's reader for this
  -- reader and number is returned with the participant and the identity that the request came with.
  pub reply_finds_request :
      (q : ParticipantId) (r : Registered x) (n : ℕ) (d reply : Data x) (reader : Reader x)
      (b : RpcBridge x)
      → same_identity x (requester x d) unknown ≡ false
      → d.participant_receiver ≢ ""
      → is_skipped x q r d ≡ false
      → lookup q b.service_registries ≡ some r
      → Unique b.service_registries
      → IsReady x b.service_registries b
      → Sends x q n d reader b
      → lookup n r.registry ≡ none
      → length r.registry + 1 < default_max_entries
      → reader.participant_id ≡ q
      → reply.sample_identity ≡ record { writer_guid = reader.guid; sequence_number = n }
      → (e : Data x) × (c : RpcBridge x) × (transmit_request x d b ≡ some (e, c))
        × (transmit_reply x reader reply c
            ≡ return_reply x reader
                (Registry.add r n (d.participant_receiver, requester x d))
                (d.participant_receiver, requester x d)
                reply
                c)
  unfolding transmit_request
  reply_finds_request q r n d reply reader b known id counted found unique ready s new room at_q
        answers =
      let done =
        forward_all-IsForwarded x q r b.service_registries n d reader b
          d.related_sample_identity.writer_guid d.write_params_set d.sent_sequence_number counted
          found unique s ready in
      let (e, c, gone, f) = IsDone-some (IsForwarded x q r n d b) d _ done in
      let added = Registry.add r n (d.participant_receiver, requester x d) in
      (
        e,
        c,
        rw known gone,
        transmit_reply-found reader reply c added (d.participant_receiver, requester x d)
            (ap (λ i. i.writer_guid) answers)
            (ap (λ k. lookup k c.service_registries) at_q ∙ f.registry)
            (ap (λ i. Registry.get unknown added i.sequence_number) answers
              ∙ (get-add unknown r n (suc n) (d.participant_receiver, requester x d) new room
                  (omega arith)).0)
            id,
      )

  return_reply-lem :
      (reader : Reader x) (r : Registered x) (entry : ParticipantId × SampleIdentity Guid)
      (d : Data x) (b : RpcBridge x) (w : Writer)
      → lookup entry.0 b.reply_writers ≡ some w
      → succeeded
          (write (record d { write_params_set = true; related_sample_identity = entry.1 }) w).0
        ≡ true
      → return_reply x reader r entry d b ≡ (
          let sending : Data x = record d {
            write_params_set = true;
            related_sample_identity = entry.1;
          } in
          some (
            record sending { sent_sequence_number = (write sending w).1 },
            record b {
              reply_writers = insert entry.0 (write sending w).2 b.reply_writers;
              service_registries =
                  insert reader.participant_id
                    (Registry.remove r d.sample_identity.sequence_number)
                    b.service_registries;
            },
          ))
  unfolding return_reply
  return_reply-lem reader r entry d b w there sent = simp (return_reply, there, sent) refl

  -- When a reader gets a reply to its own writer's request that its participant's registry knows, and the
  -- writer of the requester's participant sends it, then that writer got the reply with the requester's
  -- identity, and a second reply to the same request goes nowhere.
  pub replied_once :
      (reader : Reader x) (r : Registered x) (entry : ParticipantId × SampleIdentity Guid)
      (d again : Data x) (b : RpcBridge x) (w : Writer)
      → d.sample_identity.writer_guid ≡ reader.guid
      → lookup reader.participant_id b.service_registries ≡ some r
      → Registry.get unknown r d.sample_identity.sequence_number ≡ entry
      → entry.0 ≢ ""
      → lookup entry.0 b.reply_writers ≡ some w
      → succeeded
          (write (record d { write_params_set = true; related_sample_identity = entry.1 }) w).0
        ≡ true
      → again.sample_identity ≡ d.sample_identity
      → (e : Data x) × (c : RpcBridge x) × (transmit_reply x reader d b ≡ some (e, c))
        × (lookup entry.0 c.reply_writers
            ≡ some
                (write
                  (record d { write_params_set = true; related_sample_identity = entry.1 })
                  w).2)
        × (transmit_reply x reader again c ≡ some (again, c))
  unfolding transmit_reply
  replied_once reader r entry d again b w mine found there valid writer sent same =
      let sending : Data x = record d {
        write_params_set = true;
        related_sample_identity = entry.1;
      } in
      let left = Registry.remove r d.sample_identity.sequence_number in
      let c : RpcBridge x = record b {
        reply_writers = insert entry.0 (write sending w).2 b.reply_writers;
        service_registries = insert reader.participant_id left b.service_registries;
      } in
      (
        record sending { sent_sequence_number = (write sending w).1 },
        c,
        transmit_reply-found reader d b r entry mine found there valid
            ∙ return_reply-lem reader r entry d b w writer sent,
        lookup-insert_same entry.0 (write sending w).2 b.reply_writers,
        transmit_reply-gone reader again c left (ap (λ i. i.writer_guid) same ∙ mine)
            (lookup-insert_same reader.participant_id left b.service_registries)
            (ap (λ i. Registry.get unknown left i.sequence_number) same
              ∙ get-remove unknown r d.sample_identity.sequence_number),
      )
