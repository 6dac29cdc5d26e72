-- ===== src/Rpc/Enabled.antt =====
-- What each method of RpcBridge (communication/rpc/RpcBridge.cpp) keeps.
use dds_pipe.Base.{
  ◌≡◌, refl, subst, sym, ◌∙◌, Bool, true, false, not, ◌&&◌, Option, none, some, [], ◌∷◌,
  if◌then◌else◌, Key, ParticipantId, string_key, arith, Option-cases, if-induct, Option-induct, inl,
  inr,
}
use dds_pipe.Map.{Map, lookup, insert, emplace, erase, place, replace, lookup-insert}
use dds_pipe.Rpc.Topic.{RpcTopic}
use dds_pipe.Rpc.Bridge.{
  Participants, RpcBridge, create, init_nts, enable_all, enable, disable, has_servers,
  servers_available, discovered_service, removed_service, servers_of, is_empty, enable_reader,
  disable_reader, enable_registry, create_proxies, data_available,
}
use dds_pipe.Rpc.Lifecycle.{AreReaders, on_each-AreReaders, create_proxies-IsCreating, any-lookup}

module _ (x : Participants) where
  open x use {Guid, GuidPrefix, Qos, rtps_participants_ids}

  instance abbrev guid_key : Key x.Guid
  guid_key = x.guid_key

  instance abbrev prefix_key : Key GuidPrefix
  prefix_key = x.prefix_key

  pub record IsSound (b : RpcBridge x) : Type 0 where
    pub started : b.enabled ≡ true → b.init ≡ true
    pub served : b.enabled ≡ true → servers_available x b ≡ true
    pub request : AreReaders x b.enabled b.request_readers
    pub reply : AreReaders x b.enabled b.reply_readers

  pub create-IsSound : (t : RpcTopic Qos) → IsSound (create x t)
  unfolding create AreReaders lookup
  create-IsSound t = record {
    started = λ h. ground (arith, h);
    served = λ h. ground (arith, h);
    request = λ id r h. ground (arith, h);
    reply = λ id r h. ground (arith, h);
  }

  enable_all-IsSound :
      (b : RpcBridge x) → b.init ≡ true → servers_available x b ≡ true → IsSound (enable_all x b)
  unfolding enable_all servers_available
  enable_all-IsSound b i a = record {
    started = λ on. i;
    served = λ on. a;
    request = on_each-AreReaders x (enable_reader x) true b.request_readers (λ r. refl);
    reply = on_each-AreReaders x (enable_reader x) true b.reply_readers (λ r. refl);
  }

  and_true : (a b : Bool) → (a && b) ≡ true → (a ≡ true) × (b ≡ true)
  and_true a b h = ground (arith, h)

  disabled-IsSound :
      (b : RpcBridge x)
      → b.enabled ≡ false
      → AreReaders x false b.request_readers
      → AreReaders x false b.reply_readers
      → IsSound b
  disabled-IsSound b off q r = record {
    started = λ h. ground (arith, h, off);
    served = λ h. ground (arith, h, off);
    request = subst (λ e. AreReaders x e b.request_readers) (sym off) q;
    reply = subst (λ e. AreReaders x e b.reply_readers) (sym off) r;
  }

  pub enable-IsSound : (b : RpcBridge x) → IsSound b → IsSound (enable x b)
  unfolding enable init_nts servers_available
  enable-IsSound b s =
      if-induct IsSound (not b.enabled && servers_available x b) _ _
        (λ go.
          if-induct IsSound b.init _ _ (λ ready. enable_all-IsSound b ready (and_true _ _ go).1)
            (λ fresh.
              let off : b.enabled ≡ false = ground (arith, go) in
              let c = (create_proxies x rtps_participants_ids b).1 in
              let made = create_proxies-IsCreating x rtps_participants_ids b (
                subst (λ e. AreReaders x e b.request_readers) off s.request,
                subst (λ e. AreReaders x e b.reply_readers) off s.reply,
              ) in
              let open_to : servers_available x c ≡ true = made.available ∙ (and_true _ _ go).1 in
              if-induct
                (λ (p : Bool × RpcBridge x). IsSound (if p.0 then enable_all x p.1 else p.1))
                (create_proxies x rtps_participants_ids b).0 _ _
                (λ done. enable_all-IsSound (record c { init = true }) refl open_to)
                (λ thrown. disabled-IsSound c (made.enabled_kept ∙ off) made.request made.reply)))
        (λ stay. s)

  pub disable-IsSound : (b : RpcBridge x) → IsSound b → IsSound (disable x b)
  unfolding disable servers_available
  disable-IsSound b s =
      if-induct IsSound b.enabled _ _
        (λ on. record {
          started = λ h. ground (arith, h);
          served = λ h. ground (arith, h);
          request = on_each-AreReaders x (disable_reader x) false b.request_readers (λ r. refl);
          reply = on_each-AreReaders x (disable_reader x) false b.reply_readers (λ r. refl);
        })
        (λ off. s)

  -- A participant with a server makes servers available.
  has_servers-available :
      (id : ParticipantId) (b : RpcBridge x)
      → has_servers x id b ≡ true
      → servers_available x b ≡ true
  unfolding has_servers servers_available
  has_servers-available id b h = elim (Option-cases (lookup id b.current_servers)) [
    | inl gone ↦ ground (arith, gone, h)
    | inr (s, there) ↦
        any-lookup (λ (m : Map GuidPrefix Bool). not (is_empty m)) id s b.current_servers there
          (ground (arith, there, h))
  ]

  pub removed_service-IsSound :
      (id : ParticipantId) (prefix : GuidPrefix) (b : RpcBridge x)
      → IsSound b
      → IsSound (removed_service x id prefix b)
  unfolding removed_service disable
  removed_service-IsSound id prefix b s =
      let c : RpcBridge x = record b {
        current_servers = insert id (erase prefix (servers_of x id b)) b.current_servers;
      } in
      if-induct IsSound (not (has_servers x id c) && not (servers_available x c)) _ _
        (λ last.
          if-induct IsSound b.enabled _ _
            (λ on.
              disabled-IsSound _ refl
                (on_each-AreReaders x (disable_reader x) false b.request_readers (λ r. refl))
                (on_each-AreReaders x (disable_reader x) false b.reply_readers (λ r. refl)))
            (λ off.
              disabled-IsSound c off (subst (λ e. AreReaders x e b.request_readers) off s.request)
                (subst (λ e. AreReaders x e b.reply_readers) off s.reply)))
        (λ more. record {
          started = s.started;
          served = λ on. ground (arith, more, has_servers-available id c);
          request = s.request;
          reply = s.reply;
        })

  emplace-filled :
      (prefix : GuidPrefix) (m : Map GuidPrefix Bool) → is_empty (emplace prefix true m) ≡ false
  unfolding emplace insert place replace lookup
  emplace-filled prefix [] = ground arith
  emplace-filled prefix (p ∷ m) = ground arith

  grown-has_servers :
      (id : ParticipantId) (prefix : GuidPrefix) (b : RpcBridge x)
      → has_servers x id (record b {
        current_servers = insert id (emplace prefix true (servers_of x id b)) b.current_servers;
      })
        ≡ true
  unfolding has_servers
  grown-has_servers id prefix b = ground (
    arith,
    lookup-insert id id (emplace prefix true (servers_of x id b)) b.current_servers,
    emplace-filled prefix (servers_of x id b),
  )

  -- A fault, or a sound bridge.
  abbrev pub IsSoundIfAny : Option (RpcBridge x) → Type 0
  IsSoundIfAny none = Unit
  IsSoundIfAny (some b) = IsSound b

  pub discovered_service-IsSound :
      (id : ParticipantId) (prefix : GuidPrefix) (b : RpcBridge x)
      → IsSound b
      → IsSoundIfAny (discovered_service x id prefix b)
  unfolding discovered_service enable_registry servers_available
  discovered_service-IsSound id prefix b s =
      let c : RpcBridge x = record b {
        current_servers = insert id (emplace prefix true (servers_of x id b)) b.current_servers;
      } in
      let open_to : servers_available x c ≡ true =
        has_servers-available id c (grown-has_servers id prefix b) in
      if-induct IsSoundIfAny b.init _ _
        (λ ready.
          Option-induct IsSoundIfAny (lookup id b.service_registries) _ _ (λ fault. tt)
            (λ r there. record {
              started = λ on. ready;
              served = λ on. open_to;
              request = s.request;
              reply = s.reply;
            }))
        (λ fresh. record {
          started = s.started;
          served = λ on. open_to;
          request = s.request;
          reply = s.reply;
        })

  pub data_available-IsSound :
      (guid : Guid) (b : RpcBridge x) → IsSound b → IsSound (data_available x guid b)
  unfolding data_available servers_available
  data_available-IsSound guid b s =
      if-induct IsSound b.enabled _ _
        (λ on.
          if-induct IsSound (not (elim (lookup guid b.tasks_map) [ none ↦ false | some q ↦ q ])) _ _
            (λ emits. record {
              started = s.started;
              served = s.served;
              request = s.request;
              reply = s.reply;
            })
            (λ queued. s))
        (λ off. s)
