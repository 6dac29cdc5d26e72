-- ===== src/Pipe/Defs.antt =====
-- The state of a DdsPipe and its methods. The database of endpoints that
-- `DiscoveryDatabase::get_endpoints` reads is an argument of the callbacks.
use dds_pipe.Map.{Map, lookup, insert, contains}
use dds_pipe.Base.{
  Bool, true, false, none, some, [], ◌∷◌, if◌then◌else◌, Key, ParticipantId, string_key,
}
use dds_pipe.Pipe.Parts.{Parts, EndpointKind, DiscoveryTrigger}
pub use dds_pipe.Base.{ReturnCode, ok, no_data, precondition_not_met}

module _ (x : Parts) where
  open x use {
    Topic, Guid, Service, Allowed, Bridge, RpcBridge, topic_discoverer, guid_prefix,
    is_request_topic, is_reply_topic, service_of, is_topic_allowed, is_service_allowed,
    same_allowed, create_bridge, enable_bridge, disable_bridge, create_writer, remove_writer,
    create_service, enable_service, disable_service, discovered_service, removed_service,
  }

  instance abbrev topic_key : Key Topic
  topic_key = x.topic_key

  instance abbrev service_key : Key Service
  service_key = x.service_key

  instance abbrev guid_key : Key Guid
  guid_key = x.guid_key

  pub record Endpoint : Type 0 where
    pub guid : Guid
    pub kind : EndpointKind
    pub topic : Topic
    pub active : Bool
    pub discoverer_participant_id : ParticipantId

  pub record Configuration : Type 0 where
    pub discovery_trigger : DiscoveryTrigger
    pub remove_unused_entities : Bool

  pub record Pipe : Type 0 where
    pub configuration : Configuration
    pub allowed_topics : Allowed
    pub bridges : Map Topic Bridge
    pub rpc_bridges : Map Service RpcBridge
    pub current_topics : Map Topic Bool
    pub current_services : Map Service Bool
    pub enabled : Bool

  -- `rpc_bridges_[service]->f()`. Every service of `current_services_` has a bridge.
  unfoldable pub on_service : (RpcBridge → RpcBridge) → Service → Pipe → Pipe
  on_service f s p = elim (lookup s p.rpc_bridges) [
    | none ↦ p
    | some r ↦ record p { rpc_bridges = insert s (f r) p.rpc_bridges }
  ]

  -- `it_bridge->second->f()`, where `find` has an end to give.
  unfoldable pub on_bridge : (Bridge → Bridge) → Topic → Pipe → Pipe
  on_bridge f t p = elim (lookup t p.bridges) [
    | none ↦ p
    | some b ↦ record p { bridges = insert t (f b) p.bridges }
  ]

  unfoldable pub create_new_bridge : Topic → Bool → Pipe → Pipe
  create_new_bridge t enabled p = elim (create_bridge t) [
    | none ↦ p
    | some b ↦ record p { bridges = insert t (if enabled then enable_bridge b else b) p.bridges }
  ]

  unfoldable pub activate_topic : Topic → Pipe → Pipe
  unfolding create_new_bridge on_bridge
  activate_topic t p =
      let q : Pipe = record p { current_topics = insert t true p.current_topics } in
      if contains t q.bridges then on_bridge enable_bridge t q else create_new_bridge t true q

  unfoldable pub deactivate_topic : Topic → Pipe → Pipe
  unfolding on_bridge
  deactivate_topic t p =
      on_bridge disable_bridge t (record p { current_topics = insert t false p.current_topics })

  -- The loop of `activate_all_topics_nts_`
  unfoldable pub activate_topics : Map Topic Bool → Pipe → Pipe
  unfolding activate_topic
  activate_topics [] p = p
  activate_topics ((t, active) ∷ m) p =
      activate_topics m (if is_topic_allowed p.allowed_topics t then activate_topic t p else p)

  unfoldable pub deactivate_topics : Map Topic Bool → Pipe → Pipe
  unfolding deactivate_topic
  deactivate_topics [] p = p
  deactivate_topics ((t, active) ∷ m) p = deactivate_topics m (deactivate_topic t p)

  -- The loop over `current_services_` in `enable`
  unfoldable pub enable_services : Map Service Bool → Pipe → Pipe
  unfolding on_service
  enable_services [] p = p
  enable_services ((s, allowed) ∷ m) p =
      enable_services m (if allowed then on_service enable_service s p else p)

  unfoldable pub enable : Pipe → Pipe × ReturnCode
  unfolding activate_topics enable_services
  enable p =
      if p.enabled
      then (p, precondition_not_met)
      else let q = activate_topics p.current_topics (record p { enabled = true }) in
        (enable_services q.current_services q, ok)

  unfoldable pub disable : Pipe → Pipe × ReturnCode
  unfolding deactivate_topics
  disable p =
      if p.enabled
      then (deactivate_topics p.current_topics (record p { enabled = false }), ok)
      else (p, precondition_not_met)

  -- The two loops of `reload_allowed_topics_`
  unfoldable pub reload_topics : Map Topic Bool → Pipe → Pipe
  unfolding activate_topic deactivate_topic
  reload_topics [] p = p
  reload_topics ((t, active) ∷ m) p =
      let allowed = is_topic_allowed p.allowed_topics t in
      reload_topics m (
        if active
        then (if allowed then p else deactivate_topic t p)
        else if allowed
        then activate_topic t p
        else p)

  unfoldable pub reload_service : Service → Pipe → Pipe
  unfolding on_service
  reload_service s p =
      let allowed = is_service_allowed p.allowed_topics s in
      on_service (if allowed then enable_service else disable_service) s
        (record p { current_services = insert s allowed p.current_services })

  unfoldable pub reload_services : Map Service Bool → Pipe → Pipe
  unfolding reload_service
  reload_services [] p = p
  reload_services ((s, allowed) ∷ m) p = reload_services m (reload_service s p)

  unfoldable pub reload_allowed_topics : Allowed → Pipe → Pipe × ReturnCode
  unfolding reload_topics reload_services
  reload_allowed_topics allowed p =
      if same_allowed allowed p.allowed_topics
      then (p, no_data)
      else let q : Pipe = record p { allowed_topics = allowed } in
        if q.enabled
        then (let r = reload_topics q.current_topics q in
            (reload_services r.current_services r, ok))
        else (q, ok)
