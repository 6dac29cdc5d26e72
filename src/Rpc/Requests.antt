-- ===== src/Rpc/Requests.antt =====
-- A request that RpcBridge (communication/rpc/RpcBridge.cpp) forwards, and the reply to it.
use dds_pipe.Base.{
  ℕ, ◌≡◌, ◌≢◌, refl, sym, ◌∙◌, subst, Bool, true, Option, none, some, List, [], ◌∷◌, if◌then◌else◌,
  ite, Key, ParticipantId, string_key, string_dec, nat_key, ok, arith, if-induct,
}
use dds_pipe.Map.{lookup, insert, lookup-insert, lookup-insert_same, lookup-insert_other}
use dds_pipe.Registry
use dds_pipe.Registry.{ServiceRegistry, default_max_entries}
use dds_pipe.Rpc.Bridge.{Participants, RpcBridge, Reader}
use dds_pipe.Rpc.Transmit.{
  succeeded, Data, Registered, requester, is_skipped, labelled, forward, forward_all,
}

module _ (x : Participants) where
  open x use {Guid, Payload, Writer, unknown, is_repeater, write}

  instance abbrev guid_key : Key Guid
  guid_key = x.guid_key

  -- The data of a request after some turns of the loop: all but these three stays.
  abbrev pub turned : Data x → Guid → Bool → ℕ → Data x
  turned d g set sent = record d {
    write_params_set = set;
    related_sample_identity = record d.related_sample_identity { writer_guid = g };
    sent_sequence_number = sent;
  }

  -- The participants of some registries have the endpoints that `forward` uses.
  unfoldable pub IsReady : List (ParticipantId × Registered x) → RpcBridge x → Type 0
  IsReady [] b = Unit
  IsReady ((id, r) ∷ rs) b =
      ((reader : Reader x) × (lookup id b.reply_readers ≡ some reader))
      × ((w : Writer) × (lookup id b.request_writers ≡ some w))
      × IsReady rs b

  -- What a turn of the loop for other participants leaves.
  pub record IsKept (q : ParticipantId) (b c : RpcBridge x) : Type 0 where
    pub registry : lookup q c.service_registries ≡ lookup q b.service_registries
    pub writer : lookup q c.request_writers ≡ lookup q b.request_writers
    pub readers : c.reply_readers ≡ b.reply_readers
    pub replies : c.reply_writers ≡ b.reply_writers

  abbrev pub IsDone : (RpcBridge x → Type 0) → Data x → Option (Data x × RpcBridge x) → Type 0
  IsDone P d none = ⊥
  IsDone P d (some (e, c)) =
      ((g : Guid) × (set : Bool) × (sent : ℕ) × (e ≡ turned d g set sent)) × P c

  pub forward-lem :
      (id : ParticipantId) (r : Registered x) (d : Data x) (b : RpcBridge x) (reader : Reader x)
      (w : Writer)
      → lookup id b.reply_readers ≡ some reader
      → lookup id b.request_writers ≡ some w
      → forward x id r d b ≡ (
          let (code, sent, v) = write (labelled x reader d) w in
          let e : Data x = record (labelled x reader d) { sent_sequence_number = sent } in
          let c : RpcBridge x = record b { request_writers = insert id v b.request_writers } in
          if succeeded code
          then some (
            e,
            record c {
              service_registries =
                  insert id
                    (Registry.add r sent (d.participant_receiver, requester x d))
                    b.service_registries;
            },
          )
          else some (e, c))
  unfolding forward
  forward-lem id r d b reader w h k = simp (forward, h, k) refl

  insert-IsReady :
      (rs : List (ParticipantId × Registered x)) (id : ParticipantId) (v : Writer)
      (b c : RpcBridge x)
      → c.reply_readers ≡ b.reply_readers
      → c.request_writers ≡ insert id v b.request_writers
      → IsReady rs b
      → IsReady rs c
  unfolding IsReady
  insert-IsReady [] id v b c h k ready = tt
  insert-IsReady ((j, r) ∷ rs) id v b c h k ready =
      let (reader, found) = ready.0 in
      (
        (reader, rw h found),
        rw (k, lookup-insert j id v b.request_writers)
            (elim (string_dec j id)
              as (λ o. (w : Writer) × (ite o (some v) (lookup j b.request_writers) ≡ some w)) [
                | yes same ↦ (v, refl)
                | no other ↦ ready.1
              ]),
        insert-IsReady rs id v b c h k ready.2,
      )

  pub forward-IsKept :
      (q id : ParticipantId) (r : Registered x) (rs : List (ParticipantId × Registered x))
      (d : Data x) (b : RpcBridge x)
      → q ≢ id
      → IsReady ((id, r) ∷ rs) b
      → IsDone (λ c. IsKept q b c × IsReady rs c) d (forward x id r d b)
  unfolding IsReady
  forward-IsKept q id r rs d b other ready =
      let (reader, there) = ready.0 in
      let (w, also) = ready.1 in
      let done = write (labelled x reader d) w in
      let c : RpcBridge x = record b { request_writers = insert id done.2 b.request_writers } in
      let writers = lookup-insert_other q id done.2 b.request_writers other in
      rw (forward-lem id r d b reader w there also) (
        if-induct (IsDone (λ c. IsKept q b c × IsReady rs c) d) (succeeded done.0) _ _
          (λ sent. (
            (reader.guid, true, done.1, refl),
            (
              record {
                registry =
                    lookup-insert_other q id
                      (Registry.add r done.1 (d.participant_receiver, requester x d))
                      b.service_registries other;
                writer = writers;
                readers = refl;
                replies = refl;
              },
              insert-IsReady rs id done.2 b _ refl refl ready.2,
            ),
          ))
          (λ failed. (
            (reader.guid, true, done.1, refl),
            (
              record { registry = refl; writer = writers; readers = refl; replies = refl },
              insert-IsReady rs id done.2 b _ refl refl ready.2,
            ),
          )))

  pub after-IsKept :
      (q : ParticipantId) (b c e : RpcBridge x) → IsKept q b c → IsKept q c e → IsKept q b e
  after-IsKept q b c e f g = record {
    registry = g.registry ∙ f.registry;
    writer = g.writer ∙ f.writer;
    readers = g.readers ∙ f.readers;
    replies = g.replies ∙ f.replies;
  }

  pub IsDone-map :
      (P Q : RpcBridge x → Type 0) (d : Data x) (o : Option (Data x × RpcBridge x))
      → ((c : RpcBridge x) → P c → Q c)
      → IsDone P d o
      → IsDone Q d o
  IsDone-map P Q d none f fault = fault
  IsDone-map P Q d (some (e, c)) f (same, holds) = (same, f c holds)

  pub IsDone-step :
      (P Q : RpcBridge x → Type 0) (d : Data x) (o : Option (Data x × RpcBridge x))
      (f : Data x × RpcBridge x → Option (Data x × RpcBridge x))
      → IsDone P d o
      → ((g : Guid) (set : Bool) (sent : ℕ) (c : RpcBridge x)
          → P c
          → IsDone Q d (f (turned d g set sent, c)))
      → IsDone Q d (elim o [ none ↦ none | some p ↦ f p ])
  IsDone-step P Q d none f fault next = fault
  IsDone-step P Q d (some (e, c)) f ((g, set, sent, same), holds) next =
      subst (λ u. IsDone Q d (f (u, c))) (sym same) (next g set sent c holds)

  -- The loop over registries of other participants.
  pub forward_all-IsKept :
      (q : ParticipantId) (rs : List (ParticipantId × Registered x)) (d : Data x) (b : RpcBridge x)
      (g : Guid) (set : Bool) (sent : ℕ)
      → lookup q rs ≡ none
      → IsReady rs b
      → IsDone (IsKept q b) d (forward_all x rs (turned d g set sent) b)
  unfolding forward_all IsReady lookup is_skipped
  forward_all-IsKept q [] d b g set sent gone ready = (
    (g, set, sent, refl),
    record { registry = refl; writer = refl; readers = refl; replies = refl },
  )
  forward_all-IsKept q ((id, r) ∷ rs) d b g set sent gone ready =
      let others : lookup q rs ≡ none = ground (arith, gone) in
      let other : q ≢ id = ground (arith, gone) in
      if-induct (IsDone (IsKept q b) d) (is_skipped x id r d) _ _
        (λ skipped. forward_all-IsKept q rs d b g set sent others ready.2)
        (λ counted.
          IsDone-step (λ c. IsKept q b c × IsReady rs c) (IsKept q b) d
            (forward x id r (turned d g set sent) b) (λ p. forward_all x rs p.0 p.1)
            (forward-IsKept q id r rs (turned d g set sent) b other ready)
            (λ g' set' sent' c holds.
              IsDone-map (IsKept q c) (IsKept q b) d (forward_all x rs (turned d g' set' sent') c)
                (λ e. after-IsKept q b c e holds.0)
                (forward_all-IsKept q rs d c g' set' sent' others holds.1)))

  -- The registry of `q` has the request under the number that it was sent with.
  pub record IsForwarded (q : ParticipantId) (r : Registered x) (n : ℕ) (d : Data x)
      (b c : RpcBridge x) : Type 0 where
    pub registry :
        lookup q c.service_registries
        ≡ some (Registry.add r n (d.participant_receiver, requester x d))
    pub readers : c.reply_readers ≡ b.reply_readers
    pub replies : c.reply_writers ≡ b.reply_writers

  -- The writer of `q` sends the request with the number `n`.
  pub record Sends (q : ParticipantId) (n : ℕ) (d : Data x) (reader : Reader x) (b : RpcBridge x)
      : Type 0 where
    pub w : Writer
    pub v : Writer
    pub reads : lookup q b.reply_readers ≡ some reader
    pub writes : lookup q b.request_writers ≡ some w
    pub accepts : (sent : ℕ) → write (turned d reader.guid true sent) w ≡ (ok, n, v)

  pub forward-IsForwarded :
      (q : ParticipantId) (r : Registered x) (rs : List (ParticipantId × Registered x)) (n : ℕ)
      (d : Data x) (reader : Reader x) (b : RpcBridge x) (g : Guid) (set : Bool) (sent : ℕ)
      → Sends q n d reader b
      → IsReady rs b
      → IsDone
          (λ c. IsForwarded q r n d b c × IsReady rs c)
          d
          (forward x q r (turned d g set sent) b)
  forward-IsForwarded q r rs n d reader b g set sent s ready =
      rw (forward-lem q r (turned d g set sent) b reader s.w s.reads s.writes, s.accepts sent)
        (
          (reader.guid, true, n, refl),
          (
            record {
              registry =
                  lookup-insert_same q (Registry.add r n (d.participant_receiver, requester x d))
                    b.service_registries;
              readers = refl;
              replies = refl;
            },
            insert-IsReady rs q s.v b _ refl refl ready,
          ),
        )
