-- ===== src/Pipe/Parts.antt =====
-- What the pipe uses of its parts: topics and endpoints, the list of allowed topics, the bridges of
-- topics (DdsBridge) and of services (RpcBridge), with what it relies on.
use dds_pipe.Base.{◌≡◌, Bool, true, false, Option, some, Key, ParticipantId}

pub data EndpointKind : Type 0 where
  invalid writer reader : EndpointKind

pub data DiscoveryTrigger : Type 0 where
  on_reader on_writer on_none on_any : DiscoveryTrigger

pub record Parts : Type 1 where
  pub Topic : Type 0
  pub topic_key : Key Topic
  pub topic_discoverer : Topic → ParticipantId
  pub Guid : Type 0
  pub guid_key : Key Guid
  pub GuidPrefix : Type 0
  pub guid_prefix : Guid → GuidPrefix
  -- RpcTopic: is_request_topic, is_reply_topic, and the service that a topic belongs to
  pub Service : Type 0
  pub service_key : Key Service
  pub is_request_topic : Topic → Bool
  pub is_reply_topic : Topic → Bool
  pub service_of : Topic → Service
  -- AllowedTopicList
  pub Allowed : Type 0
  pub is_topic_allowed : Allowed → Topic → Bool
  pub is_service_allowed : Allowed → Service → Bool
  pub same_allowed : Allowed → Allowed → Bool
  pub same_topics :
      (a b : Allowed) (t : Topic)
      → same_allowed a b ≡ true
      → is_topic_allowed a t ≡ is_topic_allowed b t
  -- DdsBridge; `create_bridge` gives none where its constructor throws `InitializationException`.
  pub Bridge : Type 0
  pub create_bridge : Topic → Option Bridge
  pub enable_bridge : Bridge → Bridge
  pub disable_bridge : Bridge → Bridge
  pub create_writer : ParticipantId → Bridge → Bridge
  pub remove_writer : ParticipantId → Bridge → Bridge
  pub bridge_enabled : Bridge → Bool
  pub created_disabled :
      (t : Topic) (b : Bridge) → create_bridge t ≡ some b → bridge_enabled b ≡ false
  pub enable_enabled : (b : Bridge) → bridge_enabled (enable_bridge b) ≡ true
  pub disable_disabled : (b : Bridge) → bridge_enabled (disable_bridge b) ≡ false
  pub create_writer_enabled :
      (p : ParticipantId) (b : Bridge) → bridge_enabled (create_writer p b) ≡ bridge_enabled b
  pub remove_writer_enabled :
      (p : ParticipantId) (b : Bridge) → bridge_enabled (remove_writer p b) ≡ bridge_enabled b
  -- RpcBridge
  pub RpcBridge : Type 0
  pub create_service : Service → RpcBridge
  pub enable_service : RpcBridge → RpcBridge
  pub disable_service : RpcBridge → RpcBridge
  pub discovered_service : ParticipantId → GuidPrefix → RpcBridge → RpcBridge
  pub removed_service : ParticipantId → GuidPrefix → RpcBridge → RpcBridge
