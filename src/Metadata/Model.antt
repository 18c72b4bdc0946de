-- ===== src/Metadata/Model.antt =====
-- The metadata records of src/internal/metadata/model.go. Identifiers are texts; an `int32` or
-- `int64` is its bit pattern. A `nil` slice and an empty one are both the empty list.
use amy_queue.Prelude.{ℕ, String, Bool, List}

abbrev pub TopicId : Type 0
TopicId = String

abbrev pub BrokerId : Type 0
BrokerId = String

pub data PartitionStatus : Type 0 where
  online offline : PartitionStatus

-- A topic's id and a partition's number.
abbrev pub PartitionKey : Type 0
PartitionKey = String × ℕ

pub record TopicConfig : Type 0 where
  pub retention_ms : ℕ  -- int64
  pub retention_bytes : ℕ  -- int64
  pub segment_bytes : ℕ  -- int64
  pub min_isr : ℕ  -- int32
  pub max_message_bytes : ℕ  -- int32
  pub cleanup_policy : String

pub record Topic : Type 0 where
  pub topic_id : TopicId
  pub name : String
  pub num_partitions : ℕ  -- int32
  pub replication_factor : ℕ  -- int32
  pub internal : Bool
  pub config : TopicConfig

pub record PartitionState : Type 0 where
  pub topic_id : TopicId
  pub partition_id : ℕ  -- int32
  pub status : PartitionStatus
  pub replicas : List BrokerId
  pub isr : List BrokerId
  pub leader : BrokerId
  pub leader_epoch : ℕ  -- int32
  pub partition_epoch : ℕ  -- int32

pub record ClusterInitPayload : Type 0 where
  pub cluster_id : String

pub record CreateTopicPayload : Type 0 where
  pub topic_id : TopicId
  pub name : String
  pub num_partitions : ℕ  -- int32
  pub replication_factor : ℕ  -- int32
  pub internal : Bool
  pub config : TopicConfig
  pub brokers : List BrokerId

pub record DeleteTopicPayload : Type 0 where
  pub topic_id : TopicId

pub record UpdatePartitionPayload : Type 0 where
  pub key : PartitionKey
  pub new_leader : BrokerId
  pub new_isr : List BrokerId
  pub expected_epoch : ℕ  -- int32
  pub reason : String
