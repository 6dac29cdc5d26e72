-- ===== src/Rpc/Bridge.antt =====
-- RpcBridge (communication/rpc/RpcBridge.cpp): its endpoints, the servers it knows, and when it is
-- enabled. The participants, their readers and writers, and the task queue are parameters: `none` of a
-- creation is an InitializationException. `none` of a method is a null pointer followed.
use dds_pipe.Base.{
  Bool, true, false, not, ◌&&◌, Option, none, some, List, [], ◌∷◌, ◌++◌, if◌then◌else◌, Key,
  ParticipantId, any, string_key,
}
use dds_pipe.Map.{Map, lookup, insert, emplace, erase}
use dds_pipe.Registry
use dds_pipe.Registry.{ServiceRegistry}
pub use dds_pipe.Rpc.Parts.{SampleIdentity, RpcPayloadData, Participants}
use dds_pipe.Rpc.Topic.{DdsTopic, RpcTopic}

abbrev pub is_empty {ℓ} : {A : Type ℓ} → List A → Bool
is_empty [] = true
is_empty (a ∷ rest) = false

module _ (x : Participants) where
  open x use {
    Guid, GuidPrefix, Qos, Writer, Payload, create_writer, create_reader, enable_writer,
    disable_writer, rtps_participants_ids,
  }

  instance abbrev guid_key : Key Guid
  guid_key = x.guid_key

  instance abbrev prefix_key : Key GuidPrefix
  prefix_key = x.prefix_key

  pub record Reader : Type 0 where
    pub guid : Guid
    pub participant_id : ParticipantId
    pub topic : DdsTopic Qos
    pub enabled : Bool

  pub record RpcBridge : Type 0 where
    pub init : Bool
    pub enabled : Bool
    pub rpc_topic : RpcTopic Qos
    pub current_servers : Map ParticipantId (Map GuidPrefix Bool)
    pub request_readers : Map ParticipantId Reader
    pub reply_readers : Map ParticipantId Reader
    pub request_writers : Map ParticipantId Writer
    pub reply_writers : Map ParticipantId Writer
    pub service_registries : Map ParticipantId (ServiceRegistry (SampleIdentity Guid))
    -- Whether the reader's task is queued
    pub tasks_map : Map Guid Bool
    -- What went to the thread pool, and back to the payload pool
    pub emitted : List Guid
    pub released : List Payload

  unfoldable pub create : RpcTopic Qos → RpcBridge
  create topic = record {
    init = false;
    enabled = false;
    rpc_topic = topic;
    current_servers = [];
    request_readers = [];
    reply_readers = [];
    request_writers = [];
    reply_writers = [];
    service_registries = [];
    tasks_map = [];
    emitted = [];
    released = [];
  }

  unfoldable pub create_slot : Guid → RpcBridge → RpcBridge
  create_slot guid b = record b { tasks_map = insert guid false b.tasks_map }

  -- Whether no exception was thrown, and the bridge.
  unfoldable pub create_proxy_server : ParticipantId → RpcBridge → Bool × RpcBridge
  unfolding create_slot
  create_proxy_server id b = elim (create_writer id b.rpc_topic.reply_topic) [
    | none ↦ (false, b)
    | some w ↦
        let written : RpcBridge = record b { reply_writers = insert id w b.reply_writers } in
        elim (create_reader id b.rpc_topic.request_topic) [
          | none ↦ (false, written)
          | some g ↦
              let r : Reader = record {
                guid = g;
                participant_id = id;
                topic = b.rpc_topic.request_topic;
                enabled = false;
              } in
              (
                true,
                create_slot g (record written { request_readers = insert id r b.request_readers }),
              )
        ]
  ]

  unfoldable pub create_proxy_client : ParticipantId → RpcBridge → Bool × RpcBridge
  unfolding create_slot
  create_proxy_client id b = elim (create_writer id b.rpc_topic.request_topic) [
    | none ↦ (false, b)
    | some w ↦
        let written : RpcBridge = record b { request_writers = insert id w b.request_writers } in
        elim (create_reader id b.rpc_topic.reply_topic) [
          | none ↦ (false, written)
          | some g ↦
              let r : Reader = record {
                guid = g;
                participant_id = id;
                topic = b.rpc_topic.reply_topic;
                enabled = false;
              } in
              let read : RpcBridge =
                create_slot g (record written { reply_readers = insert id r b.reply_readers }) in
              (
                true,
                record read { service_registries = insert id Registry.create b.service_registries },
              )
        ]
  ]

  -- `current_servers_[id].size() != 0`
  unfoldable pub has_servers : ParticipantId → RpcBridge → Bool
  has_servers id b = elim (lookup id b.current_servers) [
    | none ↦ false
    | some [] ↦ false
    | some (s ∷ ss) ↦ true
  ]

  -- `service_registries_[id]->enable()`
  unfoldable pub enable_registry : ParticipantId → RpcBridge → Option RpcBridge
  unfolding Registry.enable
  enable_registry id b = elim (lookup id b.service_registries) [
    | none ↦ none
    | some r ↦
        some (record b { service_registries = insert id (Registry.enable r) b.service_registries })
  ]

  -- What the last statement of the loop in `init_nts_` does; its registry was created just before.
  unfoldable pub enable_if_served : ParticipantId → RpcBridge → RpcBridge
  unfolding has_servers enable_registry
  enable_if_served id b =
      let seen : RpcBridge = record b { current_servers = emplace id [] b.current_servers } in
      if has_servers id b
      then (elim (enable_registry id seen) [ none ↦ seen | some c ↦ c ])
      else seen

  unfoldable pub create_proxies : List ParticipantId → RpcBridge → Bool × RpcBridge
  unfolding create_proxy_client create_proxy_server enable_if_served
  create_proxies [] b = (true, b)
  create_proxies (id ∷ ids) b =
      let (client, b₁) = create_proxy_client id b in
      let (server, b₂) = create_proxy_server id b₁ in
      let rest = create_proxies ids (enable_if_served id b₂) in
      if client then (if server then rest else (false, b₂)) else (false, b₁)

  unfoldable pub init_nts : RpcBridge → Bool × RpcBridge
  unfolding create_proxies
  init_nts b =
      let (done, c) = create_proxies rtps_participants_ids b in
      if done then (true, record c { init = true }) else (false, c)

  unfoldable pub servers_available : RpcBridge → Bool
  servers_available b =
      any (λ (e : ParticipantId × Map GuidPrefix Bool). not (is_empty e.1)) b.current_servers

  -- A loop over the values of a map.
  abbrev pub on_each : {A : Type 0} → (A → A) → Map ParticipantId A → Map ParticipantId A
  on_each f [] = []
  on_each f ((k, a) ∷ m) = (k, f a) ∷ on_each f m

  abbrev pub enable_reader : Reader → Reader
  enable_reader r = record r { enabled = true }

  abbrev pub disable_reader : Reader → Reader
  disable_reader r = record r { enabled = false }

  unfoldable pub enable_all : RpcBridge → RpcBridge
  enable_all b = record b {
    enabled = true;
    request_writers = on_each enable_writer b.request_writers;
    reply_writers = on_each enable_writer b.reply_writers;
    reply_readers = on_each enable_reader b.reply_readers;
    request_readers = on_each enable_reader b.request_readers;
  }

  unfoldable pub enable : RpcBridge → RpcBridge
  unfolding servers_available init_nts enable_all
  enable b =
      if not b.enabled && servers_available b
      then (if b.init
          then enable_all b
          else (let (done, c) = init_nts b in if done then enable_all c else c))
      else b

  unfoldable pub disable : RpcBridge → RpcBridge
  disable b =
      if b.enabled
      then record b {
        enabled = false;
        request_readers = on_each disable_reader b.request_readers;
        reply_readers = on_each disable_reader b.reply_readers;
        reply_writers = on_each disable_writer b.reply_writers;
        request_writers = on_each disable_writer b.request_writers;
      }
      else b

  abbrev pub servers_of : ParticipantId → RpcBridge → Map GuidPrefix Bool
  servers_of id b = elim (lookup id b.current_servers) [ none ↦ [] | some s ↦ s ]

  unfoldable pub discovered_service : ParticipantId → GuidPrefix → RpcBridge → Option RpcBridge
  unfolding enable_registry
  discovered_service id prefix b =
      let c : RpcBridge = record b {
        current_servers = insert id (emplace prefix true (servers_of id b)) b.current_servers;
      } in
      if b.init then enable_registry id c else some c

  unfoldable pub removed_service : ParticipantId → GuidPrefix → RpcBridge → RpcBridge
  unfolding servers_available disable has_servers
  removed_service id prefix b =
      let c : RpcBridge = record b {
        current_servers = insert id (erase prefix (servers_of id b)) b.current_servers;
      } in
      if not (has_servers id c) && not (servers_available c) then disable c else c

  unfoldable pub data_available : Guid → RpcBridge → RpcBridge
  data_available guid b =
      let queued : Bool = elim (lookup guid b.tasks_map) [ none ↦ false | some q ↦ q ] in
      if b.enabled
      then (if not queued
          then record b {
            tasks_map = insert guid true b.tasks_map;
            emitted = b.emitted ++ (guid ∷ []);
          }
          else b)
      else b
