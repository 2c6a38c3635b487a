-- ===== src/Network/Responses.antt =====
-- src/network/protocol/responses: parsing the bodies of responses, from offset 0.
pub mod Laws
pub mod Versions
use kafka_node_ts.Prelude.{ℕ, Bool, not, Option, List, []}
use kafka_node_ts.Prelude.Int.{ℤ, pos, eq_ℤ}
use kafka_node_ts.Prelude.Errors.{Result, ok, err}
use kafka_node_ts.Buffer.{Bytes}
use kafka_node_ts.Text.{JsString}
use kafka_node_ts.BasicTypes.Numbers.{Decode}
use kafka_node_ts.ClusterMetadata.Changes.{Broker, PartitionMetadata, TopicMetadata}
use kafka_node_ts.Network.Protocol.Fields.{
  take_int, take_text, take_nullable, take_list, then_decode, finish,
}

-- In the do blocks of this file a line reads a field and moves `offset` behind it.
infixl 5 ◌>>=◌
abbrev pub ◌>>=◌ {ℓ κ} : {A : Type ℓ} {B : Type κ} → Decode A → (A → Decode B) → Decode B
decode >>= next = then_decode decode next

pub record MetadataResponse : Type 0 where
  pub throttle_time_ms : ℤ
  pub brokers : List Broker
  pub cluster_id : Option JsString
  pub controller_id : ℤ
  pub topics : List TopicMetadata
  pub cluster_authorized_operations : ℤ

unfoldable pub parse_broker : Decode Broker
parse_broker = do
  node_id ← take_int 4
  host ← take_text
  port ← take_int 4
  rack ← take_nullable
  finish (record { node_id = node_id; host = host; port = port; rack = rack })

unfoldable pub parse_partition : Decode PartitionMetadata
parse_partition = do
  error_code ← take_int 2
  partition_index ← take_int 4
  leader_id ← take_int 4
  leader_epoch ← take_int 4
  replica_nodes ← take_list (take_int 4)
  isr_nodes ← take_list (take_int 4)
  offline_replicas ← take_list (take_int 4)
  finish (record {
    error_code = error_code;
    partition_index = partition_index;
    leader_id = leader_id;
    leader_epoch = leader_epoch;
    replica_nodes = replica_nodes;
    isr_nodes = isr_nodes;
    offline_replicas = offline_replicas;
  })

unfoldable pub parse_topic : Decode TopicMetadata
parse_topic = do
  error_code ← take_int 2
  name ← take_text
  is_internal ← take_int 1
  partitions ← take_list parse_partition
  topic_authorized_operations ← take_int 4
  finish (record {
    error_code = error_code;
    name = name;
    is_internal = not (eq_ℤ is_internal (pos 0));
    partitions = partitions;
    topic_authorized_operations = topic_authorized_operations;
  })

unfoldable pub metadata_fields : Decode MetadataResponse
metadata_fields = do
  throttle_time_ms ← take_int 4
  brokers ← take_list parse_broker
  cluster_id ← take_nullable
  controller_id ← take_int 4
  topics ← take_list parse_topic
  cluster_authorized_operations ← take_int 4
  finish (record {
    throttle_time_ms = throttle_time_ms;
    brokers = brokers;
    cluster_id = cluster_id;
    controller_id = controller_id;
    topics = topics;
    cluster_authorized_operations = cluster_authorized_operations;
  })

-- The value that a reading function returns; the offset is dropped.
abbrev pub value_of {ℓ} : {A : Type ℓ} → Result (A × ℤ) → Result A
value_of (err e) = err e
value_of (ok (value, offset)) = ok value

-- `MetadataResponse.parse`
unfoldable pub parse_metadata : Bytes → Result MetadataResponse
parse_metadata buffer = value_of (metadata_fields buffer (pos 0))

pub record ApiVersionRange : Type 0 where
  pub api_key : ℤ
  pub min_version : ℤ
  pub max_version : ℤ

pub record ApiVersionsResponse : Type 0 where
  pub error_code : ℤ
  pub api_versions : List ApiVersionRange
  pub throttle_time_ms : ℤ

unfoldable pub parse_range : Decode ApiVersionRange
parse_range = do
  api_key ← take_int 2
  min_version ← take_int 2
  max_version ← take_int 2
  finish (record { api_key = api_key; min_version = min_version; max_version = max_version })

unfoldable pub versions_fields : Decode ApiVersionsResponse
versions_fields = do
  error_code ← take_int 2
  throttle_time_ms ← take_int 4
  api_versions ← take_list parse_range
  finish (record {
    error_code = error_code;
    api_versions = api_versions;
    throttle_time_ms = throttle_time_ms;
  })

-- `ApiVersionsResponse.parse`
unfoldable pub parse_versions : Bytes → Result ApiVersionsResponse
parse_versions buffer = value_of (versions_fields buffer (pos 0))
