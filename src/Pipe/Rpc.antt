-- ===== src/Pipe/Rpc.antt =====
-- Histories of a DdsPipe (core/DdsPipe.cpp): `rpc_bridges_[service]`, and topics that are relevant.
use dds_pipe.Map.{Map, lookup, contains, Unique}
use dds_pipe.Base.{◌≡◌, refl, Bool, true, false, List, [], ◌∷◌, Key, arith, if-induct}
use dds_pipe.Pipe.Parts.{Parts}
use dds_pipe.Pipe.Defs.{
  Endpoint, Configuration, Pipe, ReturnCode, create_new_bridge, activate_topics, enable, disable,
  reload_topics, reload_allowed_topics,
}
use dds_pipe.Pipe.Discovery.{
  discovered_topic, updated_endpoint, init_bridges, create, is_service_topic,
}
use dds_pipe.Pipe.History.{
  Event, enables, disables, reloads, discovers, removes, updates, step, run, start,
}
use dds_pipe.Pipe.Services.{
  SameServices, activate_topics-services, deactivate_topics-services, reload_topics-services,
}
use dds_pipe.Pipe.Bridged.{
  Bridged, SameServices-Bridged, enable_services-Bridged, reload_services-Bridged,
  discovered_endpoint-Bridged, removed_endpoint-Bridged, discovered_topic-services,
}

module _ (x : Parts) where
  open x use {
    Topic, Bridge, is_topic_allowed, create_bridge, enable_bridge, bridge_enabled, created_disabled,
    enable_enabled, disable_disabled,
  }

  instance abbrev topic_key : Key Topic
  topic_key = x.topic_key

  instance abbrev service_key : Key x.Service
  service_key = x.service_key

  instance abbrev guid_key : Key x.Guid
  guid_key = x.guid_key

  enable-Bridged : (p : Pipe x) → Bridged x p → Bridged x (enable x p).0
  unfolding enable
  enable-Bridged p v =
      if-induct (λ (c : Pipe x × ReturnCode). Bridged x c.0) p.enabled _ _ (λ on. v)
        (λ off.
          enable_services-Bridged x
            (activate_topics x p.current_topics (record p { enabled = true })).current_services _
            (SameServices-Bridged x (record p { enabled = true }) _
              (activate_topics-services x p.current_topics (record p { enabled = true }))
              (record { unique = v.unique; matched = v.matched })))

  disable-Bridged : (p : Pipe x) → Bridged x p → Bridged x (disable x p).0
  unfolding disable
  disable-Bridged p v =
      if-induct (λ (c : Pipe x × ReturnCode). Bridged x c.0) p.enabled _ _
        (λ on.
          SameServices-Bridged x (record p { enabled = false }) _
            (deactivate_topics-services x p.current_topics (record p { enabled = false }))
            (record { unique = v.unique; matched = v.matched }))
        (λ off. v)

  reload-Bridged :
      (l : x.Allowed) (p : Pipe x) → Bridged x p → Bridged x (reload_allowed_topics x l p).0
  unfolding reload_allowed_topics
  reload-Bridged l p v =
      let q : Pipe x = record p { allowed_topics = l } in
      let w : Bridged x q = record { unique = v.unique; matched = v.matched } in
      let r = reload_topics x p.current_topics q in
      if-induct (λ (c : Pipe x × ReturnCode). Bridged x c.0) (x.same_allowed l p.allowed_topics) _ _
        (λ same. v)
        (λ new.
          if-induct (λ (c : Pipe x × ReturnCode). Bridged x c.0) p.enabled _ _
            (λ on.
              reload_services-Bridged x r.current_services r (λ s k. k)
                (SameServices-Bridged x q r (reload_topics-services x p.current_topics q) w))
            (λ off. w))

  updated_endpoint-Bridged :
      (m : Map x.Guid (Endpoint x)) (e : Endpoint x) (p : Pipe x)
      → Bridged x p
      → Bridged x (updated_endpoint x m e p)
  unfolding updated_endpoint
  updated_endpoint-Bridged m e p v =
      if-induct (Bridged x) (is_service_topic x e.topic) _ _ (λ service. v)
        (λ topic.
          if-induct (Bridged x) e.active _ _ (λ active. discovered_endpoint-Bridged x m e p v)
            (λ inactive. removed_endpoint-Bridged x m e p v))

  run-Bridged : (es : List (Event x)) (p : Pipe x) → Bridged x p → Bridged x (run x es p)
  unfolding run step
  run-Bridged [] p v = v
  run-Bridged (enables ∷ es) p v = run-Bridged es _ (enable-Bridged p v)
  run-Bridged (disables ∷ es) p v = run-Bridged es _ (disable-Bridged p v)
  run-Bridged (reloads l ∷ es) p v = run-Bridged es _ (reload-Bridged l p v)
  run-Bridged (discovers m e ∷ es) p v = run-Bridged es _ (discovered_endpoint-Bridged x m e p v)
  run-Bridged (removes m e ∷ es) p v = run-Bridged es _ (removed_endpoint-Bridged x m e p v)
  run-Bridged (updates m e ∷ es) p v = run-Bridged es _ (updated_endpoint-Bridged m e p v)

  create_new-services :
      (t : Topic) (on : Bool) (p : Pipe x) → SameServices x p (create_new_bridge x t on p)
  unfolding create_new_bridge
  create_new-services t on p = ground arith

  init_bridges-Bridged :
      (ts : List Topic) (p : Pipe x) → Bridged x p → Bridged x (init_bridges x ts p)
  unfolding init_bridges
  init_bridges-Bridged [] p v = v
  init_bridges-Bridged (t ∷ ts) p v = init_bridges-Bridged ts _ (
      SameServices-Bridged x (discovered_topic x t p) _ (create_new-services t false _)
        (SameServices-Bridged x p _ (discovered_topic-services x t p) v))

  start-Bridged : (c : Configuration x) (l : x.Allowed) → Bridged x (start x c l)
  unfolding lookup
  start-Bridged c l = record { unique = tt; matched = λ s. refl }

  create-Bridged :
      (c : Configuration x) (l : x.Allowed) (ts : List Topic) (on : Bool)
      → Bridged x (create x c l ts on)
  unfolding create
  create-Bridged c l ts on =
      let ready = init_bridges-Bridged ts (start x c l) (start-Bridged c l) in
      if-induct (Bridged x) on _ _ (λ now. enable-Bridged _ ready) (λ later. ready)

  -- After the constructor and any calls and callbacks, in any order, a service has a bridge exactly
  -- when the pipe has an entry for it, and it has at most one entry.
  pub services_have_bridges :
      (c : Configuration x) (l : x.Allowed) (ts : List Topic) (on : Bool) (es : List (Event x))
      (s : x.Service)
      → (contains s (run x es (create x c l ts on)).rpc_bridges
          ≡ contains s (run x es (create x c l ts on)).current_services)
        × Unique (run x es (create x c l ts on)).current_services
  services_have_bridges c l ts on es s =
      let v = run-Bridged es _ (create-Bridged c l ts on) in (v.matched s, v.unique)
