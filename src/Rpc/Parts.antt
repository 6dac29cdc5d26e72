-- ===== src/Rpc/Parts.antt =====
-- What RpcBridge (communication/rpc/RpcBridge.cpp) works on: the data of requests and replies
-- (types/data/RpcPayloadData.hpp), and the participants with their readers and writers, a parameter.
use dds_pipe.Base.{ℕ, Bool, Option, List, Key, ParticipantId, ReturnCode}
use dds_pipe.Rpc.Topic.{DdsTopic}

-- `SampleIdentity` of Fast DDS
pub record SampleIdentity (Guid : Type 0) : Type 0 where
  pub writer_guid : Guid
  pub sequence_number : ℕ

-- RpcPayloadData (types/data/RpcPayloadData.hpp), with the two identities of its `write_params`.
pub record RpcPayloadData (Guid Payload : Type 0) : Type 0 where
  pub participant_receiver : ParticipantId
  pub sample_identity : SampleIdentity Guid
  pub related_sample_identity : SampleIdentity Guid
  pub write_params_set : Bool
  pub origin_sequence_number : ℕ
  pub sent_sequence_number : ℕ
  pub payload : Payload

pub record Participants : Type 1 where
  pub Guid : Type 0
  pub guid_key : Key Guid
  pub GuidPrefix : Type 0
  pub prefix_key : Key GuidPrefix
  pub Payload : Type 0
  pub Qos : Type 0
  pub Writer : Type 0
  -- SampleIdentity::unknown()
  pub unknown : SampleIdentity Guid
  pub rtps_participants_ids : List ParticipantId
  pub is_repeater : ParticipantId → Bool
  pub create_writer : ParticipantId → DdsTopic Qos → Option Writer
  -- The new reader's guid
  pub create_reader : ParticipantId → DdsTopic Qos → Option Guid
  pub enable_writer : Writer → Writer
  pub disable_writer : Writer → Writer
  -- The result, the sequence number that the data is sent with, and the writer.
  pub write : RpcPayloadData Guid Payload → Writer → ReturnCode × ℕ × Writer
