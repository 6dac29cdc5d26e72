-- ===== src/Pipe/Discovery.antt =====
-- The callbacks of a DdsPipe: endpoints that are discovered, updated or removed.
use dds_pipe.Map.{Map, lookup, insert, emplace, contains}
use dds_pipe.Base.{
  Bool, true, false, none, some, List, [], ◌∷◌, if◌then◌else◌, Key, ParticipantId,
  default_participant_id, string_key, ite, length, ◌==◌,
}
use dds_pipe.Pipe.Parts.{
  Parts, EndpointKind, invalid, reader, writer, DiscoveryTrigger, on_reader, on_writer, on_none,
  on_any,
}
use dds_pipe.Pipe.Defs.{
  Endpoint, Configuration, Pipe, on_service, on_bridge, create_new_bridge, activate_topic, enable,
}

abbrev pub same_id : ParticipantId → ParticipantId → Bool
same_id a b = ite (string_key.dec a b) true false

abbrev pub is_reader : EndpointKind → Bool
is_reader invalid = false
is_reader writer = false
is_reader reader = true

abbrev pub is_writer : EndpointKind → Bool
is_writer invalid = false
is_writer writer = true
is_writer reader = false

abbrev pub triggers : DiscoveryTrigger → EndpointKind → Bool
triggers on_reader k = is_reader k
triggers on_writer k = is_writer k
triggers on_any k = true
triggers on_none k = false

module _ (x : Parts) where
  open x use {
    Topic, Guid, GuidPrefix, Service, topic_discoverer, guid_prefix, is_request_topic,
    is_reply_topic, service_of, is_topic_allowed, is_service_allowed, create_writer, remove_writer,
    create_service, enable_service, discovered_service, removed_service,
  }

  instance abbrev topic_key : Key Topic
  topic_key = x.topic_key

  instance abbrev service_key : Key Service
  service_key = x.service_key

  instance abbrev guid_key : Key Guid
  guid_key = x.guid_key

  abbrev pub is_service_topic : Topic → Bool
  is_service_topic t = if is_request_topic t then true else is_reply_topic t

  unfoldable pub is_server_endpoint : Endpoint x → Bool
  is_server_endpoint e =
      if (if is_reader e.kind then is_request_topic e.topic else false)
      then true
      else if is_writer e.kind
      then is_reply_topic e.topic
      else false

  unfoldable pub is_endpoint_kind_relevant : Pipe x → Endpoint x → Bool
  is_endpoint_kind_relevant p e = triggers p.configuration.discovery_trigger e.kind

  -- The test that `is_endpoint_relevant_` hands to `get_endpoints`.
  unfoldable pub is_alike : Pipe x → Endpoint x → Endpoint x → Bool
  unfolding is_endpoint_kind_relevant
  is_alike p e entity =
      if entity.active
      then (if is_endpoint_kind_relevant p entity
          then (if ite (topic_key.dec entity.topic e.topic) true false
              then same_id entity.discoverer_participant_id e.discoverer_participant_id
              else false)
          else false)
      else false

  -- DiscoveryDatabase::get_endpoints
  unfoldable pub get_endpoints : (Endpoint x → Bool) → Map Guid (Endpoint x) → Map Guid (Endpoint x)
  get_endpoints test [] = []
  get_endpoints test ((g, e) ∷ m) =
      if test e then (g, e) ∷ get_endpoints test m else get_endpoints test m

  unfoldable pub is_endpoint_relevant : Map Guid (Endpoint x) → Pipe x → Endpoint x → Bool
  unfolding is_endpoint_kind_relevant get_endpoints is_alike
  is_endpoint_relevant entities p e =
      if is_endpoint_kind_relevant p e
      then (let relevant = get_endpoints (is_alike p e) entities in
          if e.active
          then (if length relevant == 1 then contains e.guid relevant else false)
          else length relevant == 0)
      else false

  unfoldable pub discovered_topic : Topic → Pipe x → Pipe x
  unfolding activate_topic on_bridge
  discovered_topic t p =
      if contains t p.bridges
      then (if p.configuration.remove_unused_entities
          then (if same_id (topic_discoverer t) default_participant_id
              then p
              else on_bridge x (create_writer (topic_discoverer t)) t p)
          else p)
      else let q : Pipe x = record p { current_topics = emplace t false p.current_topics } in
        if q.enabled
        then (if is_topic_allowed q.allowed_topics t then activate_topic x t q else q)
        else q

  -- The part of `discovered_service_nts_` for a service that has no bridge yet.
  unfoldable pub new_service : Service → Pipe x → Pipe x
  new_service s p = if contains s p.rpc_bridges then p else record p {
    rpc_bridges = insert s (create_service s) p.rpc_bridges;
    current_services = insert s (is_service_allowed p.allowed_topics s) p.current_services;
  }

  abbrev pub is_current : Service → Pipe x → Bool
  is_current s p = elim (lookup s p.current_services) [ none ↦ false | some a ↦ a ]

  unfoldable pub discovered_service_in : Service → ParticipantId → GuidPrefix → Pipe x → Pipe x
  unfolding new_service on_service
  discovered_service_in s id prefix p =
      let q = on_service x (discovered_service id prefix) s (new_service s p) in
      if q.enabled then (if is_current s q then on_service x enable_service s q else q) else q

  unfoldable pub removed_service_in : Service → ParticipantId → GuidPrefix → Pipe x → Pipe x
  unfolding on_service
  removed_service_in s id prefix p = on_service x (removed_service id prefix) s p

  unfoldable pub discovered_endpoint : Map Guid (Endpoint x) → Endpoint x → Pipe x → Pipe x
  unfolding is_endpoint_kind_relevant is_server_endpoint discovered_service_in is_endpoint_relevant
      discovered_topic
  discovered_endpoint entities e p =
      if is_service_topic e.topic
      then (if is_endpoint_kind_relevant p e
          then (if is_server_endpoint e
              then discovered_service_in (service_of e.topic) e.discoverer_participant_id
                  (guid_prefix e.guid) p
              else p)
          else p)
      else if is_endpoint_relevant entities p e
      then discovered_topic e.topic p
      else p

  unfoldable pub removed_endpoint : Map Guid (Endpoint x) → Endpoint x → Pipe x → Pipe x
  unfolding is_server_endpoint removed_service_in is_endpoint_relevant on_bridge
  removed_endpoint entities e p =
      if is_service_topic e.topic
      then (if is_server_endpoint e
          then removed_service_in (service_of e.topic) e.discoverer_participant_id
              (guid_prefix e.guid) p
          else p)
      else if p.configuration.remove_unused_entities
      then (if is_endpoint_relevant entities p e
          then (if same_id e.discoverer_participant_id default_participant_id
              then p
              else on_bridge x (remove_writer e.discoverer_participant_id) e.topic p)
          else p)
      else p

  unfoldable pub updated_endpoint : Map Guid (Endpoint x) → Endpoint x → Pipe x → Pipe x
  unfolding discovered_endpoint removed_endpoint
  updated_endpoint entities e p =
      if is_service_topic e.topic
      then p
      else if e.active
      then discovered_endpoint entities e p
      else removed_endpoint entities e p

  unfoldable pub init_bridges : List Topic → Pipe x → Pipe x
  unfolding discovered_topic create_new_bridge
  init_bridges [] p = p
  init_bridges (t ∷ ts) p = init_bridges ts (create_new_bridge x t false (discovered_topic t p))

  -- The constructor, for a configuration that is valid.
  unfoldable pub create : Configuration x → x.Allowed → List Topic → Bool → Pipe x
  unfolding init_bridges enable
  create configuration allowed_topics builtin_topics init_enabled =
      let p = init_bridges builtin_topics (record {
        configuration = configuration;
        allowed_topics = allowed_topics;
        bridges = [];
        rpc_bridges = [];
        current_topics = [];
        current_services = [];
        enabled = false;
      }) in
      if init_enabled then (enable x p).0 else p
