-- ===== src/Monitoring/Topics.antt =====
-- TopicsMonitorProducer (monitoring/producers/TopicsMonitorProducer.cpp, MonitorProducer.cpp), call by
-- call as its mutex lets them in. The objects `DdsTopicData` and `DdsTopic` are the generated
-- ones of types/monitoring/topics; a number of messages is the unsigned value that is added.
use dds_pipe.Base.{
  ℕ, ◌+◌, ◌%◌, ◌^◌, Bool, true, false, not, List, [], ◌∷◌, ◌++◌, Option, none, some, map,
  if◌then◌else◌, ParticipantId, Key, string_key,
}
use dds_pipe.Map.{Map, lookup, insert}
use dds_pipe.Rpc.Text.{Text}
use dds_pipe.Rpc.Topic
use dds_pipe.Topics.{dds_topic_unique_name}
use dds_pipe.Topics.Order.{text_key}

-- What is not the producer's own: `double`, with the conversion from a whole number and the division,
-- the Quality of Service of a topic, and the consumers.
pub record Parts : Type 1 where
  pub Double : Type 0
  pub of_nat : ℕ → Double
  pub divide : Double → Double → Double
  pub Qos : Type 0
  pub Consumer : Type 0

abbrev pub value_or {ℓ} : {V : Type ℓ} → V → Option V → V
value_or d none = d
value_or d (some v) = v

module _ {ℓ} {K V : Type ℓ} where
  abbrev pub values : Map K V → List V
  values = map λ e. e.1

  -- `m[k]`, which makes a default value where there is none
  abbrev pub at : ⦃key : Key K⦄ → V → K → Map K V → V
  at d k m = value_or d (lookup k m)

module _ (x : Parts) where
  open x use {Double, of_nat, Qos, Consumer}

  pub record DdsTopicData : Type 0 where
    pub participant_id : ParticipantId
    pub msgs_lost : ℕ
    pub msgs_received : ℕ
    pub msg_rx_rate : Double

  pub record DdsTopic : Type 0 where
    pub name : Text
    pub type_name : Text
    pub type_discovered : Bool
    pub type_mismatch : Bool
    pub qos_mismatch : Bool
    pub participants : List DdsTopicData  -- `data`

  abbrev pub no_topic_data : DdsTopicData
  no_topic_data = record {
    participant_id = "";
    msgs_lost = 0;
    msgs_received = 0;
    msg_rx_rate = of_nat 0;
  }

  abbrev pub no_topic : DdsTopic
  no_topic = record {
    name = [];
    type_name = [];
    type_discovered = false;
    type_mismatch = false;
    qos_mismatch = false;
    participants = [];
  }

  -- A topic as a key is its unique name.
  pub record State : Type 0 where
    pub enabled : Bool
    pub period : Double
    pub topics : List DdsTopic  -- `data_`
    pub topic_data : Map Text DdsTopic
    pub participant_data : Map Text (Map ParticipantId DdsTopicData)
    pub types_discovered : Map Text Bool
    pub consumers : List Consumer

  -- The producer that `get_instance` makes
  abbrev pub create : State
  create = record {
    enabled = false;
    period = of_nat 1000;
    topics = [];
    topic_data = [];
    participant_data = [];
    types_discovered = [];
    consumers = [];
  }

  pub record MonitorProducerConfiguration : Type 0 where
    pub enabled : Bool
    pub period : Double

  -- MonitorProducer::init
  unfoldable pub init : MonitorProducerConfiguration → State → State
  init configuration s =
      let t : State = record s { enabled = configuration.enabled } in
      if not configuration.enabled then t else record t { period = configuration.period }

  unfoldable pub enable : State → State
  enable s = record s { enabled = true }

  unfoldable pub disable : State → State
  disable s = record s { enabled = false }

  unfoldable pub register_consumer : Consumer → State → State
  register_consumer consumer s =
      if not s.enabled then s else record s { consumers = s.consumers ++ consumer ∷ [] }

  unfoldable pub clear_consumers : State → State
  clear_consumers s = record s { consumers = [] }

  unfoldable pub clear_data : State → State
  clear_data s = record s {
    topic_data = [];
    participant_data = [];
    types_discovered = [];
    topics = [];
  }

  -- "Register the topic", as all the calls that name one begin.
  unfoldable pub register_topic : Topic.DdsTopic Qos → State → State
  register_topic topic s =
      let k = dds_topic_unique_name topic in
      record s {
        topic_data =
            insert k
              (record (at no_topic k s.topic_data) {
                name = topic.m_topic_name;
                type_name = topic.type_name;
              })
              s.topic_data;
      }

  -- "Register the participant", and a new value for one of its counts
  unfoldable pub count_messages :
      (DdsTopicData → DdsTopicData) → Text → ParticipantId → State → State
  count_messages add k participant_id s =
      let participants = at [] k s.participant_data in
      record s {
        participant_data =
            insert k
              (insert participant_id
                (add (record (at no_topic_data participant_id participants) {
                  participant_id = participant_id;
                }))
                participants)
              s.participant_data;
      }

  abbrev pub add_received : ℕ → DdsTopicData → DdsTopicData
  add_received n d = record d { msgs_received = (d.msgs_received + n) % 2 ^ 32 }

  abbrev pub add_lost : ℕ → DdsTopicData → DdsTopicData
  add_lost n d = record d { msgs_lost = (d.msgs_lost + n) % 2 ^ 32 }

  unfoldable pub msgs_received : Topic.DdsTopic Qos → ParticipantId → ℕ → State → State
  unfolding register_topic count_messages
  msgs_received topic participant_id n s =
      if not s.enabled
      then s
      else count_messages (add_received n) (dds_topic_unique_name topic) participant_id
          (register_topic topic s)

  unfoldable pub msgs_lost : Topic.DdsTopic Qos → ParticipantId → ℕ → State → State
  unfolding register_topic count_messages
  msgs_lost topic participant_id n s =
      if not s.enabled
      then s
      else count_messages (add_lost n) (dds_topic_unique_name topic) participant_id
          (register_topic topic s)

  unfoldable pub type_discovered : Text → State → State
  type_discovered type_name s =
      if not s.enabled
      then s
      else record s { types_discovered = insert type_name true s.types_discovered }

  -- A flag of a topic that has just been registered
  unfoldable pub set_flag : (DdsTopic → DdsTopic) → Topic.DdsTopic Qos → State → State
  unfolding register_topic
  set_flag raise topic s =
      let t = register_topic topic s in
      let k = dds_topic_unique_name topic in
      if not s.enabled
      then s
      else record t { topic_data = insert k (raise (at no_topic k t.topic_data)) t.topic_data }

  abbrev pub raise_type_mismatch : DdsTopic → DdsTopic
  raise_type_mismatch t = record t { type_mismatch = true }

  abbrev pub raise_qos_mismatch : DdsTopic → DdsTopic
  raise_qos_mismatch t = record t { qos_mismatch = true }

  unfoldable pub type_mismatch : Topic.DdsTopic Qos → State → State
  unfolding set_flag
  type_mismatch = set_flag raise_type_mismatch

  unfoldable pub qos_mismatch : Topic.DdsTopic Qos → State → State
  unfolding set_flag
  qos_mismatch = set_flag raise_qos_mismatch
