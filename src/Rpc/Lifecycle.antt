-- ===== src/Rpc/Lifecycle.antt =====
-- When RpcBridge (communication/rpc/RpcBridge.cpp) and its readers are enabled.
use dds_pipe.Base.{
  ◌≡◌, refl, ◌∙◌, Bool, true, false, not, Option, none, some, List, [], ◌∷◌, Key, ParticipantId,
  any, string_key, arith, Option-cases, if-induct, Option-induct, inl, inr,
}
use dds_pipe.Map.{Map, lookup, insert, emplace, place, lookup-insert}
use dds_pipe.Rpc.Bridge.{
  Participants, RpcBridge, Reader, create_slot, create_proxy_client, create_proxy_server,
  create_proxies, enable_if_served, enable_registry, has_servers, servers_available, is_empty,
  on_each,
}

any-place :
    {K V : Type 0} ⦃key : Key K⦄ (p : K × V → Bool) (k : K) (v : V) (m : Map K V)
    → p (k, v) ≡ false
    → any p (place k v m) ≡ any p m
unfolding place
any-place p k v [] h = ground (arith, h)
any-place p k v ((j, w) ∷ m) h = ground (arith, h, any-place p k v m h)

-- A key with the empty value, where there is none, is found by no test that the empty value fails.
any-emplace :
    {K V : Type 0} ⦃key : Key K⦄ (p : K × V → Bool) (k : K) (v : V) (m : Map K V)
    → p (k, v) ≡ false
    → any p (emplace k v m) ≡ any p m
unfolding emplace insert
any-emplace p k v m h = ground (arith, h, any-place p k v m h)

pub any-lookup :
    {K V : Type 0} ⦃key : Key K⦄ (p : V → Bool) (k : K) (v : V) (m : Map K V)
    → lookup k m ≡ some v
    → p v ≡ true
    → any (λ (e : K × V). p e.1) m ≡ true
unfolding lookup
any-lookup p k v [] h t = ground (arith, h)
any-lookup p k v ((j, w) ∷ m) h t = ground (arith, h, t, any-lookup p k v m)

module _ (x : Participants) where
  open x use {GuidPrefix, Qos, create_writer, create_reader, rtps_participants_ids}

  instance abbrev guid_key : Key x.Guid
  guid_key = x.guid_key

  instance abbrev prefix_key : Key GuidPrefix
  prefix_key = x.prefix_key

  -- Every reader of a map is enabled, or none is.
  unfoldable pub AreReaders : Bool → Map ParticipantId (Reader x) → Type 0
  AreReaders e m = (id : ParticipantId) (r : Reader x) → lookup id m ≡ some r → r.enabled ≡ e

  insert-AreReaders :
      (e : Bool) (id : ParticipantId) (r : Reader x) (m : Map ParticipantId (Reader x))
      → r.enabled ≡ e
      → AreReaders e m
      → AreReaders e (insert id r m)
  unfolding AreReaders
  insert-AreReaders e id r m h a k s found = ground (arith, h, found, a k s, lookup-insert k id r m)

  on_each-lookup :
      (f : Reader x → Reader x) (id : ParticipantId) (m : Map ParticipantId (Reader x))
      → lookup id (on_each x f m) ≡ (elim (lookup id m) [ none ↦ none | some r ↦ some (f r) ])
  unfolding lookup
  on_each-lookup f id [] = refl
  on_each-lookup f id ((j, r) ∷ m) = ground (arith, on_each-lookup f id m)

  pub on_each-AreReaders :
      (f : Reader x → Reader x) (e : Bool) (m : Map ParticipantId (Reader x))
      → ((r : Reader x) → (f r).enabled ≡ e)
      → AreReaders e (on_each x f m)
  unfolding AreReaders
  on_each-AreReaders f e m h k s found = elim (Option-cases (lookup k m)) [
    | inl gone ↦ ground (arith, gone, found, on_each-lookup f k m)
    | inr (r, there) ↦ ground (arith, there, found, on_each-lookup f k m, h r)
  ]

  -- What `enable` and the invariant look at, while endpoints are created: all of it stays.
  pub record IsCreating (b c : RpcBridge x) : Type 0 where
    pub enabled_kept : c.enabled ≡ b.enabled
    pub init_kept : c.init ≡ b.init
    pub available : servers_available x c ≡ servers_available x b
    pub request : AreReaders false c.request_readers
    pub reply : AreReaders false c.reply_readers

  abbrev pub AreDisabled : RpcBridge x → Type 0
  AreDisabled b = AreReaders false b.request_readers × AreReaders false b.reply_readers

  create_proxy_client-IsCreating :
      (id : ParticipantId) (b : RpcBridge x)
      → AreDisabled b
      → IsCreating b (create_proxy_client x id b).1
  unfolding create_proxy_client create_slot servers_available
  create_proxy_client-IsCreating id b d =
      let goal : Bool × RpcBridge x → Type 0 = λ c. IsCreating b c.1 in
      Option-induct goal (create_writer id b.rpc_topic.request_topic) _ _
        (λ refused. record {
          enabled_kept = refl;
          init_kept = refl;
          available = refl;
          request = d.0;
          reply = d.1;
        })
        (λ w given.
          Option-induct goal (create_reader id b.rpc_topic.reply_topic) _ _
            (λ refused. record {
              enabled_kept = refl;
              init_kept = refl;
              available = refl;
              request = d.0;
              reply = d.1;
            })
            (λ g made. record {
              enabled_kept = refl;
              init_kept = refl;
              available = refl;
              request = d.0;
              reply = insert-AreReaders false id _ b.reply_readers refl d.1;
            }))

  create_proxy_server-IsCreating :
      (id : ParticipantId) (b : RpcBridge x)
      → AreDisabled b
      → IsCreating b (create_proxy_server x id b).1
  unfolding create_proxy_server create_slot servers_available
  create_proxy_server-IsCreating id b d =
      let goal : Bool × RpcBridge x → Type 0 = λ c. IsCreating b c.1 in
      Option-induct goal (create_writer id b.rpc_topic.reply_topic) _ _
        (λ refused. record {
          enabled_kept = refl;
          init_kept = refl;
          available = refl;
          request = d.0;
          reply = d.1;
        })
        (λ w given.
          Option-induct goal (create_reader id b.rpc_topic.request_topic) _ _
            (λ refused. record {
              enabled_kept = refl;
              init_kept = refl;
              available = refl;
              request = d.0;
              reply = d.1;
            })
            (λ g made. record {
              enabled_kept = refl;
              init_kept = refl;
              available = refl;
              reply = d.1;
              request = insert-AreReaders false id _ b.request_readers refl d.0;
            }))

  enable_if_served-IsCreating :
      (id : ParticipantId) (b : RpcBridge x)
      → AreDisabled b
      → IsCreating b (enable_if_served x id b)
  unfolding enable_if_served servers_available enable_registry
  enable_if_served-IsCreating id b d =
      let goal : RpcBridge x → Type 0 = IsCreating b in
      let seen : RpcBridge x = record b { current_servers = emplace id [] b.current_servers } in
      let open_to =
        any-emplace (λ (e : ParticipantId × Map GuidPrefix Bool). not (is_empty e.1)) id []
          b.current_servers refl in
      if-induct goal (has_servers x id b) _ _
        (λ served.
          Option-induct (λ (o : Option (RpcBridge x)). goal (elim o [ none ↦ seen | some c ↦ c ]))
            (lookup id b.service_registries) _ _
            (λ gone. record {
              enabled_kept = refl;
              init_kept = refl;
              available = open_to;
              request = d.0;
              reply = d.1;
            })
            (λ r there. record {
              enabled_kept = refl;
              init_kept = refl;
              available = open_to;
              request = d.0;
              reply = d.1;
            }))
        (λ unserved. record {
          enabled_kept = refl;
          init_kept = refl;
          available = open_to;
          request = d.0;
          reply = d.1;
        })

  after-IsCreating : (b c e : RpcBridge x) → IsCreating b c → IsCreating c e → IsCreating b e
  after-IsCreating b c e f g = record {
    enabled_kept = g.enabled_kept ∙ f.enabled_kept;
    init_kept = g.init_kept ∙ f.init_kept;
    available = g.available ∙ f.available;
    request = g.request;
    reply = g.reply;
  }

  pub create_proxies-IsCreating :
      (ids : List ParticipantId) (b : RpcBridge x)
      → AreDisabled b
      → IsCreating b (create_proxies x ids b).1
  unfolding create_proxies
  create_proxies-IsCreating [] b d = record {
    enabled_kept = refl;
    init_kept = refl;
    available = refl;
    request = d.0;
    reply = d.1;
  }
  create_proxies-IsCreating (id ∷ ids) b d =
      let goal : Bool × RpcBridge x → Type 0 = λ c. IsCreating b c.1 in
      let client = create_proxy_client-IsCreating id b d in
      let b₁ = (create_proxy_client x id b).1 in
      let server =
        after-IsCreating b b₁ _ client
          (create_proxy_server-IsCreating id b₁ (client.request, client.reply)) in
      let b₂ = (create_proxy_server x id b₁).1 in
      let served =
        after-IsCreating b b₂ _ server
          (enable_if_served-IsCreating id b₂ (server.request, server.reply)) in
      let b₃ = enable_if_served x id b₂ in
      if-induct goal (create_proxy_client x id b).0 _ _
        (λ made.
          if-induct goal (create_proxy_server x id b₁).0 _ _
            (λ also.
              after-IsCreating b b₃ _ served
                (create_proxies-IsCreating ids b₃ (served.request, served.reply)))
            (λ thrown. server))
        (λ thrown. client)
