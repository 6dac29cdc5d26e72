-- ===== src/Pipe/Bridged.antt =====
-- The entries of `rpc_bridges_` and `current_services_` of a DdsPipe (core/DdsPipe.cpp).
use dds_pipe.Map.{Map, lookup, insert, emplace, contains, lookup-insert, Unique, insert-Unique}
use dds_pipe.Base.{
  ◌≡◌, Bool, true, false, some, [], ◌∷◌, Key, ParticipantId, arith, inl, inr, Option-cases,
  if-induct, default_participant_id,
}
use dds_pipe.Pipe.Parts.{Parts}
use dds_pipe.Pipe.Defs.{
  Endpoint, Pipe, on_service, on_bridge, enable_services, reload_service, reload_services,
}
use dds_pipe.Pipe.Discovery.{
  discovered_topic, new_service, discovered_service_in, removed_service_in, discovered_endpoint,
  removed_endpoint, is_service_topic, is_endpoint_kind_relevant, is_server_endpoint,
  is_endpoint_relevant, same_id, is_current,
}
use dds_pipe.Pipe.Services.{
  SameServices, activate-services, switch, reload_service-current, on_service-rpc,
}

module _ (x : Parts) where
  open x use {
    Topic, Bridge, is_topic_allowed, create_bridge, enable_bridge, bridge_enabled, created_disabled,
    enable_enabled, disable_disabled,
  }

  instance abbrev topic_key : Key Topic
  topic_key = x.topic_key

  instance abbrev service_key : Key x.Service
  service_key = x.service_key

  instance abbrev guid_key : Key x.Guid
  guid_key = x.guid_key

  pub record Bridged (p : Pipe x) : Type 0 where
    pub unique : Unique p.current_services
    pub matched : (s : x.Service) → contains s p.rpc_bridges ≡ contains s p.current_services

  pub SameServices-Bridged : (p q : Pipe x) → SameServices x p q → Bridged p → Bridged q
  SameServices-Bridged p q e v = record {
    unique = rw e.current v.unique;
    matched = λ s. ground (arith, e, v.matched s);
  }

  on_service-current :
      (f : x.RpcBridge → x.RpcBridge) (s : x.Service) (p : Pipe x)
      → (on_service x f s p).current_services ≡ p.current_services
  unfolding on_service
  on_service-current f s p = ground arith

  on_service-Bridged :
      (f : x.RpcBridge → x.RpcBridge) (s : x.Service) (p : Pipe x)
      → Bridged p
      → Bridged (on_service x f s p)
  on_service-Bridged f s p v = record {
    unique = rw (on_service-current f s p) v.unique;
    matched = λ u. ground (arith, v.matched u, on_service-rpc x f s u p, on_service-current f s p);
  }

  pub enable_services-Bridged :
      (m : Map x.Service Bool) (p : Pipe x) → Bridged p → Bridged (enable_services x m p)
  unfolding enable_services
  enable_services-Bridged [] p v = v
  enable_services-Bridged ((s, a) ∷ m) p v =
      enable_services-Bridged m _
        (if-induct Bridged a _ _ (λ on. on_service-Bridged x.enable_service s p v) (λ off. v))

  -- The entry of a service that has one is overwritten.
  recorded-Bridged :
      (s : x.Service) (a b : Bool) (p : Pipe x)
      → lookup s p.current_services ≡ some b
      → Bridged p
      → Bridged (record p { current_services = insert s a p.current_services })
  recorded-Bridged s a b p known v = record {
    unique = insert-Unique s a p.current_services v.unique;
    matched = λ u.
        ground (arith, v.matched u, lookup-insert u s a p.current_services, known, v.matched s);
  }

  pub reload_services-Bridged :
      (m : Map x.Service Bool) (p : Pipe x)
      → ((s : x.Service) → contains s m ≡ true → contains s p.current_services ≡ true)
      → Bridged p
      → Bridged (reload_services x m p)
  unfolding reload_services lookup reload_service
  reload_services-Bridged [] p h v = v
  reload_services-Bridged ((s, a) ∷ m) p h v = elim (Option-cases (lookup s p.current_services)) [
    | inl none_there ↦ ground (arith, h s, none_there)
    | inr (b, there) ↦
        reload_services-Bridged m (reload_service x s p)
          (λ u k. ground (arith, h u, k, reload_service-current x s u p))
          (on_service-Bridged (switch x (x.is_service_allowed p.allowed_topics s)) s _
            (recorded-Bridged s (x.is_service_allowed p.allowed_topics s) b p there v))
  ]

  new_service-Bridged : (s : x.Service) (p : Pipe x) → Bridged p → Bridged (new_service x s p)
  unfolding new_service
  new_service-Bridged s p v =
      if-induct Bridged (contains s p.rpc_bridges) _ _ (λ known. v)
        (λ new. record {
          unique =
              insert-Unique s (x.is_service_allowed p.allowed_topics s) p.current_services v.unique;
          matched = λ u. ground (
            arith,
            v.matched u,
            lookup-insert u s (x.is_service_allowed p.allowed_topics s) p.current_services,
            lookup-insert u s (x.create_service s) p.rpc_bridges,
          );
        })

  discovered_service_in-Bridged :
      (s : x.Service) (i : ParticipantId) (g : x.GuidPrefix) (p : Pipe x)
      → Bridged p
      → Bridged (discovered_service_in x s i g p)
  unfolding discovered_service_in
  discovered_service_in-Bridged s i g p v =
      let q = on_service x (x.discovered_service i g) s (new_service x s p) in
      let w =
        on_service-Bridged (x.discovered_service i g) s (new_service x s p)
          (new_service-Bridged s p v) in
      if-induct Bridged q.enabled _ _
        (λ on.
          if-induct Bridged (is_current x s q) _ _
            (λ current. on_service-Bridged x.enable_service s q w) (λ other. w))
        (λ off. w)

  on_bridge-services :
      (f : Bridge → Bridge) (t : Topic) (p : Pipe x) → SameServices x p (on_bridge x f t p)
  unfolding on_bridge
  on_bridge-services f t p = ground arith

  pub discovered_topic-services :
      (t : Topic) (p : Pipe x) → SameServices x p (discovered_topic x t p)
  unfolding discovered_topic
  discovered_topic-services t p = ground (
    arith,
    on_bridge-services (x.create_writer (x.topic_discoverer t)) t p,
    activate-services x t (record p { current_topics = emplace t false p.current_topics }),
  )

  pub discovered_endpoint-Bridged :
      (m : Map x.Guid (Endpoint x)) (e : Endpoint x) (p : Pipe x)
      → Bridged p
      → Bridged (discovered_endpoint x m e p)
  unfolding discovered_endpoint
  discovered_endpoint-Bridged m e p v =
      if-induct Bridged (is_service_topic x e.topic) _ _
        (λ service.
          if-induct Bridged (is_endpoint_kind_relevant x p e) _ _
            (λ kind.
              if-induct Bridged (is_server_endpoint x e) _ _
                (λ server. discovered_service_in-Bridged _ _ _ p v) (λ client. v))
            (λ other. v))
        (λ topic.
          if-induct Bridged (is_endpoint_relevant x m p e) _ _
            (λ relevant. SameServices-Bridged p _ (discovered_topic-services e.topic p) v)
            (λ other. v))

  pub removed_endpoint-Bridged :
      (m : Map x.Guid (Endpoint x)) (e : Endpoint x) (p : Pipe x)
      → Bridged p
      → Bridged (removed_endpoint x m e p)
  unfolding removed_endpoint removed_service_in
  removed_endpoint-Bridged m e p v =
      if-induct Bridged (is_service_topic x e.topic) _ _
        (λ service.
          if-induct Bridged (is_server_endpoint x e) _ _ (λ server. on_service-Bridged _ _ p v)
            (λ client. v))
        (λ topic.
          if-induct Bridged p.configuration.remove_unused_entities _ _
            (λ removes.
              if-induct Bridged (is_endpoint_relevant x m p e) _ _
                (λ relevant.
                  if-induct Bridged (same_id e.discoverer_participant_id default_participant_id) _ _
                    (λ builtin. v)
                    (λ remote. SameServices-Bridged p _ (on_bridge-services _ e.topic p) v))
                (λ other. v))
            (λ keeps. v))
