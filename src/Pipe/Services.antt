-- ===== src/Pipe/Services.antt =====
-- The bridges of services in the methods of core/DdsPipe.cpp.
use dds_pipe.Map.{Map, lookup, insert, lookup-insert, Unique}
use dds_pipe.Base.{
  ◌≡◌, refl, Bool, true, false, Option, none, some, [], ◌∷◌, if◌then◌else◌, Key, arith, inl, inr,
  Option-cases, ◌∙◌, ite,
}
use dds_pipe.Pipe.Parts.{Parts}
use dds_pipe.Pipe.Defs.{
  Pipe, on_service, on_bridge, create_new_bridge, activate_topic, deactivate_topic, activate_topics,
  deactivate_topics, enable_services, reload_topics, reload_service, reload_services,
}

module _ (x : Parts) where
  open x use {
    Topic, Bridge, is_topic_allowed, create_bridge, enable_bridge, bridge_enabled, created_disabled,
    enable_enabled, disable_disabled,
  }

  instance abbrev topic_key : Key Topic
  topic_key = x.topic_key

  instance abbrev service_key : Key x.Service
  service_key = x.service_key

  instance abbrev guid_key : Key x.Guid
  guid_key = x.guid_key

  -- What no method that is about topics changes.
  pub record SameServices (p q : Pipe x) : Type 0 where
    pub bridges : q.rpc_bridges ≡ p.rpc_bridges
    pub current : q.current_services ≡ p.current_services

  pub activate-services : (t : Topic) (p : Pipe x) → SameServices p (activate_topic x t p)
  unfolding activate_topic on_bridge create_new_bridge
  activate-services t p = ground arith

  deactivate-services : (t : Topic) (p : Pipe x) → SameServices p (deactivate_topic x t p)
  unfolding deactivate_topic on_bridge
  deactivate-services t p = ground arith

  pub activate_topics-services :
      (m : Map Topic Bool) (p : Pipe x) → SameServices p (activate_topics x m p)
  unfolding activate_topics
  activate_topics-services [] p = record { bridges = refl; current = refl }
  activate_topics-services ((t, a) ∷ m) p = ground (
    arith,
    activate_topics-services m
        (if is_topic_allowed p.allowed_topics t then activate_topic x t p else p),
    activate-services t p,
  )

  pub deactivate_topics-services :
      (m : Map Topic Bool) (p : Pipe x) → SameServices p (deactivate_topics x m p)
  unfolding deactivate_topics
  deactivate_topics-services [] p = record { bridges = refl; current = refl }
  deactivate_topics-services ((t, a) ∷ m) p =
      ground (arith, deactivate_topics-services m (deactivate_topic x t p), deactivate-services t p)

  pub reload_topics-services :
      (m : Map Topic Bool) (p : Pipe x) → SameServices p (reload_topics x m p)
  unfolding reload_topics
  reload_topics-services [] p = record { bridges = refl; current = refl }
  reload_topics-services ((t, a) ∷ m) p = ground (
    arith,
    reload_topics-services m (
        if a
        then (if is_topic_allowed p.allowed_topics t then p else deactivate_topic x t p)
        else if is_topic_allowed p.allowed_topics t
        then activate_topic x t p
        else p),
    activate-services t p,
    deactivate-services t p,
  )

  abbrev pub mapped : (x.RpcBridge → x.RpcBridge) → Option x.RpcBridge → Option x.RpcBridge
  mapped f none = none
  mapped f (some r) = some (f r)

  pub on_service-rpc :
      (f : x.RpcBridge → x.RpcBridge) (s u : x.Service) (p : Pipe x)
      → lookup u (on_service x f s p).rpc_bridges
        ≡ ite (service_key.dec u s) (mapped f (lookup u p.rpc_bridges)) (lookup u p.rpc_bridges)
  unfolding on_service
  on_service-rpc f s u p = elim (Option-cases (lookup s p.rpc_bridges)) [
    | inl none_there ↦ ground (arith, none_there)
    | inr (r, there) ↦ ground (arith, there, lookup-insert u s (f r) p.rpc_bridges)
  ]

  -- The bridge of a service that the loop of `enable` leaves.
  pub enable_services-rpc :
      (m : Map x.Service Bool) (u : x.Service) (p : Pipe x)
      → Unique m
      → lookup u (enable_services x m p).rpc_bridges ≡ (
          if elim (lookup u m) [ none ↦ false | some a ↦ a ]
          then mapped x.enable_service (lookup u p.rpc_bridges)
          else lookup u p.rpc_bridges)
  unfolding enable_services lookup
  enable_services-rpc [] u p d = refl
  enable_services-rpc ((s, true) ∷ m) u p d = ground (
    arith,
    enable_services-rpc m u (on_service x x.enable_service s p),
    on_service-rpc x.enable_service s u p,
    d,
  )
  enable_services-rpc ((s, false) ∷ m) u p d = ground (arith, enable_services-rpc m u p, d)

  pub reload_services-allowed :
      (m : Map x.Service Bool) (p : Pipe x)
      → (reload_services x m p).allowed_topics ≡ p.allowed_topics
  unfolding reload_services reload_service on_service
  reload_services-allowed [] p = refl
  reload_services-allowed ((s, a) ∷ m) p =
      ground (arith, reload_services-allowed m (reload_service x s p))

  -- The function that a reload calls on the bridge of a service.
  abbrev pub switch : Bool → x.RpcBridge → x.RpcBridge
  switch allowed = if allowed then x.enable_service else x.disable_service

  pub reload_service-rpc :
      (s u : x.Service) (p : Pipe x)
      → lookup u (reload_service x s p).rpc_bridges
        ≡ ite
            (service_key.dec u s)
            (mapped (switch (x.is_service_allowed p.allowed_topics u)) (lookup u p.rpc_bridges))
            (lookup u p.rpc_bridges)
  unfolding reload_service
  reload_service-rpc s u p =
      on_service-rpc (switch (x.is_service_allowed p.allowed_topics s)) s u (record p {
        current_services = insert s (x.is_service_allowed p.allowed_topics s) p.current_services;
      })
      ∙ elim (service_key.dec u s)
          as (λ d.
            ite d
              (mapped (switch (x.is_service_allowed p.allowed_topics s)) (lookup u p.rpc_bridges))
              (lookup u p.rpc_bridges)
            ≡ ite d
                (mapped (switch (x.is_service_allowed p.allowed_topics u)) (lookup u p.rpc_bridges))
                (lookup u p.rpc_bridges)) [ yes e ↦ rw e refl | no e ↦ refl ]

  pub reload_service-current :
      (s u : x.Service) (p : Pipe x)
      → lookup u (reload_service x s p).current_services
        ≡ ite
            (service_key.dec u s)
            (some (x.is_service_allowed p.allowed_topics u))
            (lookup u p.current_services)
  unfolding reload_service on_service
  reload_service-current s u p =
      ground (arith, lookup-insert u s (x.is_service_allowed p.allowed_topics s) p.current_services)

  pub reload_service-allowed :
      (s : x.Service) (p : Pipe x) → (reload_service x s p).allowed_topics ≡ p.allowed_topics
  unfolding reload_service on_service
  reload_service-allowed s p = ground arith
