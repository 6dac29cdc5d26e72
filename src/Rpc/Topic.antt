-- ===== src/Rpc/Topic.antt =====
-- RpcTopic (types/topic/rpc/RpcTopic.cpp): the request topic and the reply topic of a service, by names.
-- Lengths and positions are `size_t`, of 64 bits, and a sum of them wraps around.
use dds_pipe.Base.{
  ℕ, ◌+◌, ◌%◌, ◌^◌, Bool, Option, none, some, if◌then◌else◌, ◌==◌, ◌&&◌, ◌||◌, length,
  ParticipantId,
}
use dds_pipe.Rpc.Text.{Text, codes, find, rfind, regex_replace, regex_remove}

pub record DdsTopic (Qos : Type 0) : Type 0 where
  pub m_topic_name : Text
  pub m_internal_type_discriminator : Text
  pub m_topic_discoverer : ParticipantId
  pub topic_qos : Qos
  pub type_name : Text

pub record RpcTopic (Qos : Type 0) : Type 0 where
  pub service_name : Text
  pub request_topic : DdsTopic Qos
  pub reply_topic : DdsTopic Qos

abbrev pub request_prefix_str : Text
request_prefix_str = codes "rq/"

abbrev pub reply_prefix_str : Text
reply_prefix_str = codes "rr/"

abbrev pub request_str : Text
request_str = codes "Request"

abbrev pub reply_str : Text
reply_str = codes "Reply"

abbrev pub response_str : Text
response_str = codes "Response"

abbrev pub internal_topic_type_rpc : Text
internal_topic_type_rpc = codes "type::rpc::v0"

-- `s.rfind(p) + p.length() + more == s.length()`
unfoldable pub ends_at : Text → ℕ → Text → Bool
unfolding rfind
ends_at p more s = ((rfind p s + length p + more) % 2 ^ 64) == length s

module _ {Qos : Type 0} where
  unfoldable pub is_request_topic : DdsTopic Qos → Bool
  unfolding ends_at find
  is_request_topic topic =
      (find request_prefix_str topic.m_topic_name == 0)
      && ends_at request_str 0 topic.m_topic_name
      && ends_at request_str 1 topic.type_name

  unfoldable pub is_reply_topic : DdsTopic Qos → Bool
  unfolding ends_at find
  is_reply_topic topic =
      (find reply_prefix_str topic.m_topic_name == 0)
      && ends_at reply_str 0 topic.m_topic_name
      && ends_at response_str 1 topic.type_name

  unfoldable pub is_service_topic : DdsTopic Qos → Bool
  unfolding is_request_topic is_reply_topic
  is_service_topic topic = is_request_topic topic || is_reply_topic topic

  -- The topic for the other direction, by the literals to replace in the topic's name and in its type's.
  unfoldable pub other_topic : DdsTopic Qos → Text → Text → Text → Text → Text → Text → DdsTopic Qos
  unfolding regex_replace
  other_topic topic prefix new_prefix name new_name type new_type = record topic {
    m_topic_name = regex_replace (regex_replace topic.m_topic_name prefix new_prefix) name new_name;
    m_internal_type_discriminator = internal_topic_type_rpc;
    type_name = regex_replace topic.type_name type new_type;
  }

  -- `none`: `tsnh`, "this should not happen", for a topic that is no service's.
  unfoldable pub rpc_topic : DdsTopic Qos → Option (RpcTopic Qos)
  unfolding is_request_topic is_reply_topic other_topic regex_remove
  rpc_topic topic =
      let same : DdsTopic Qos = record topic {
        m_internal_type_discriminator = internal_topic_type_rpc;
      } in
      if is_request_topic topic
      then some (record {
        service_name = regex_remove topic.m_topic_name request_prefix_str request_str;
        request_topic = same;
        reply_topic =
            other_topic topic request_prefix_str reply_prefix_str request_str reply_str request_str
              response_str;
      })
      else if is_reply_topic topic
      then some (record {
        service_name = regex_remove topic.m_topic_name reply_prefix_str reply_str;
        request_topic =
            other_topic topic reply_prefix_str request_prefix_str reply_str request_str response_str
              request_str;
        reply_topic = same;
      })
      else none
