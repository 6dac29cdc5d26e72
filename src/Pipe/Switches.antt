-- ===== src/Pipe/Switches.antt =====
-- The bridges of services in `enable`, `disable` and the reload of core/DdsPipe.cpp.
use dds_pipe.Map.{Map, lookup, contains, Unique}
use dds_pipe.Base.{
  ◌≡◌, refl, Bool, true, false, some, [], ◌∷◌, if◌then◌else◌, Key, arith, subst, sym, if-induct,
}
use dds_pipe.Pipe.Parts.{Parts}
use dds_pipe.Pipe.Defs.{
  Pipe, ReturnCode, activate_topics, enable, disable, reload_topics, reload_service,
  reload_services, reload_allowed_topics,
}
use dds_pipe.Pipe.Loops.{reload_topics-Same}
use dds_pipe.Pipe.Services.{
  activate_topics-services, deactivate_topics-services, reload_topics-services, mapped, switch,
  enable_services-rpc, reload_service-rpc, reload_service-current, reload_service-allowed,
}

module _ (x : Parts) where
  open x use {
    Topic, Bridge, is_topic_allowed, create_bridge, enable_bridge, bridge_enabled, created_disabled,
    enable_enabled, disable_disabled,
  }

  instance abbrev topic_key : Key Topic
  topic_key = x.topic_key

  instance abbrev service_key : Key x.Service
  service_key = x.service_key

  instance abbrev guid_key : Key x.Guid
  guid_key = x.guid_key

  reload_services-rpc :
      (m : Map x.Service Bool) (u : x.Service) (p : Pipe x)
      → Unique m
      → lookup u (reload_services x m p).rpc_bridges ≡ (
          if contains u m
          then mapped x
              (switch x (x.is_service_allowed p.allowed_topics u))
              (lookup u p.rpc_bridges)
          else lookup u p.rpc_bridges)
  unfolding reload_services lookup
  reload_services-rpc [] u p d = refl
  reload_services-rpc ((s, a) ∷ m) u p d = ground (
    arith,
    reload_services-rpc m u (reload_service x s p),
    reload_service-rpc x s u p,
    reload_service-allowed x s p,
    d,
  )

  reload_services-current :
      (m : Map x.Service Bool) (u : x.Service) (p : Pipe x)
      → lookup u (reload_services x m p).current_services ≡ (
          if contains u m
          then some (x.is_service_allowed p.allowed_topics u)
          else lookup u p.current_services)
  unfolding reload_services lookup
  reload_services-current [] u p = refl
  reload_services-current ((s, a) ∷ m) u p = ground (
    arith,
    reload_services-current m u (reload_service x s p),
    reload_service-current x s u p,
    reload_service-allowed x s p,
  )

  -- A reload with another list, while the pipe is enabled, makes each service that the pipe knows
  -- what the new list says: its entry is set, and its bridge is enabled or disabled.
  pub reload_switches_services :
      (l : x.Allowed) (s : x.Service) (a : Bool) (r : x.RpcBridge) (p : Pipe x)
      → p.enabled ≡ true
      → x.same_allowed l p.allowed_topics ≡ false
      → Unique p.current_services
      → lookup s p.current_services ≡ some a
      → lookup s p.rpc_bridges ≡ some r
      → (lookup s (reload_allowed_topics x l p).0.current_services
          ≡ some (x.is_service_allowed l s))
        × (lookup s (reload_allowed_topics x l p).0.rpc_bridges
            ≡ some ((if x.is_service_allowed l s then x.enable_service else x.disable_service) r))
  unfolding reload_allowed_topics
  reload_switches_services l s a r p on new d known there =
      let q : Pipe x = record p { allowed_topics = l } in
      let t : Pipe x = reload_topics x p.current_topics q in
      let same = reload_topics-services x p.current_topics q in
      let list = (reload_topics-Same x p.current_topics q).allowed in
      let one : Unique t.current_services = subst Unique (sym same.current) d in
      (
        ground (arith, on, new, known, reload_services-current t.current_services s t, same, list),
        ground (
          arith,
          on,
          new,
          known,
          there,
          reload_services-rpc t.current_services s t one,
          same,
          list,
        ),
      )

  -- To disable a pipe leaves the bridge of each service as it is, whatever the state.
  pub disable_leaves_services :
      (s : x.Service) (p : Pipe x)
      → (lookup s (disable x p).0.rpc_bridges ≡ lookup s p.rpc_bridges)
        × (lookup s (disable x p).0.current_services ≡ lookup s p.current_services)
  unfolding disable
  disable_leaves_services s p =
      let e = deactivate_topics-services x p.current_topics (record p { enabled = false }) in
      (ground (arith, e), ground (arith, e))

  -- When a pipe that is disabled gets another list, and is then enabled, a service that the old list
  -- allowed is enabled, also where the new list forbids it.
  pub stale_service_enabled :
      (l : x.Allowed) (s : x.Service) (r : x.RpcBridge) (p : Pipe x)
      → p.enabled ≡ false
      → x.is_service_allowed l s ≡ false
      → Unique p.current_services
      → lookup s p.current_services ≡ some true
      → lookup s p.rpc_bridges ≡ some r
      → lookup s (enable x (reload_allowed_topics x l p).0).0.rpc_bridges
        ≡ some (x.enable_service r)
  unfolding reload_allowed_topics enable
  stale_service_enabled l s r p off forbidden d known there =
      let after : Pipe x → Type 0 =
        λ q. lookup s (enable x q).0.rpc_bridges ≡ some (x.enable_service r) in
      let served : (k : x.Allowed) → after (record p { allowed_topics = k }) = λ k.
        let q : Pipe x = record p { allowed_topics = k; enabled = true } in
        let t : Pipe x = activate_topics x p.current_topics q in
        let same = activate_topics-services x p.current_topics q in
        let one : Unique t.current_services = subst Unique (sym same.current) d in
        ground (arith, off, known, there, enable_services-rpc x t.current_services s t one, same) in
      if-induct (λ (c : Pipe x × ReturnCode). after c.0) (x.same_allowed l p.allowed_topics) _ _
        (λ same. served p.allowed_topics)
        (λ new.
          if-induct (λ (c : Pipe x × ReturnCode). after c.0) p.enabled _ _
            (λ on. ground (arith, on, off)) (λ still. served l))
