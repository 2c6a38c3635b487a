-- ===== src/ClusterMetadata.antt =====
-- src/network/ClusterMetadata.ts: what is known of the cluster's brokers and topics.
pub mod Changes
pub mod Laws
pub mod Events
use kafka_node_ts.Prelude.{
  ℕ, ◌==◌, Bool, true, false, not, ◌&&◌, ◌||◌, Option, none, some, List, [], ◌∷◌, ◌++◌, length,
  if◌then◌else◌,
}
use kafka_node_ts.Prelude.Int.{ℤ, pos, negsuc, eq_ℤ, is_negative}
use kafka_node_ts.Prelude.Errors.{Error, Result, ok, err, kafka_error, leader_not_available}
use kafka_node_ts.Text.{JsString}
use kafka_node_ts.JsMap.{JsMap, int_key, string_key, get, set, values, keys}
use kafka_node_ts.ClusterMetadata.Changes.{
  Broker, PartitionMetadata, TopicMetadata, has_partition_changes,
}

pub record ClusterMetadata : Type 0 where
  pub topics : JsMap JsString TopicMetadata
  pub brokers : JsMap ℤ Broker
  pub cluster_id : Option JsString
  pub controller_id : ℤ
  pub is_metadata_initialized : Bool

-- `new ClusterMetadata()`
abbrev pub new_metadata : ClusterMetadata
new_metadata = record {
  topics = [];
  brokers = [];
  cluster_id = none;
  controller_id = negsuc 0;
  is_metadata_initialized = false;
}

abbrev pub is_some {ℓ} : {A : Type ℓ} → Option A → Bool
is_some none = false
is_some (some a) = true

unfoldable pub has_topic_metadata : JsString → ClusterMetadata → Bool
has_topic_metadata topic c = is_some (get topic c.topics)

unfoldable pub get_topic_metadata : JsString → ClusterMetadata → Option TopicMetadata
get_topic_metadata topic c = get topic c.topics

abbrev pub get_all_topics : ClusterMetadata → List TopicMetadata
get_all_topics c = values c.topics

abbrev pub get_topic_names : ClusterMetadata → List JsString
get_topic_names c = keys c.topics

unfoldable pub get_broker : ℤ → ClusterMetadata → Option Broker
get_broker node_id c = get node_id c.brokers

abbrev pub get_all_brokers : ClusterMetadata → List Broker
get_all_brokers c = values c.brokers

abbrev pub get_cluster_id : ClusterMetadata → Option JsString
get_cluster_id c = c.cluster_id

abbrev pub get_controller_id : ClusterMetadata → ℤ
get_controller_id c = c.controller_id

abbrev pub is_initialized : ClusterMetadata → Bool
is_initialized c = c.is_metadata_initialized

-- `partitions.find(p => p.partitionIndex === partition)`
unfoldable pub find_partition : ℤ → List PartitionMetadata → Option PartitionMetadata
find_partition partition [] = none
find_partition partition (p ∷ ps) =
    if eq_ℤ p.partition_index partition then some p else find_partition partition ps

abbrev pub leader_of : Option PartitionMetadata → Result ℤ
leader_of none = err kafka_error
leader_of (some p) = if is_negative p.leader_id then err leader_not_available else ok p.leader_id

abbrev pub leader_in : ℤ → Option TopicMetadata → Result ℤ
leader_in partition none = err kafka_error
leader_in partition (some t) = leader_of (find_partition partition t.partitions)

unfoldable pub find_leader : JsString → ℤ → ClusterMetadata → Result ℤ
find_leader topic partition c = leader_in partition (get topic c.topics)

abbrev pub partitions_of : Option TopicMetadata → List PartitionMetadata
partitions_of none = []
partitions_of (some t) = t.partitions

unfoldable pub get_partitions_for_topic : JsString → ClusterMetadata → List PartitionMetadata
get_partitions_for_topic topic c = partitions_of (get topic c.topics)

unfoldable pub get_partition_count : JsString → ClusterMetadata → ℕ
unfolding get_partitions_for_topic
get_partition_count topic c = length (get_partitions_for_topic topic c)

-- `for (const broker of brokers) this.brokers.set(broker.nodeId, broker)`
unfoldable pub add_brokers : JsMap ℤ Broker → List Broker → JsMap ℤ Broker
add_brokers m [] = m
add_brokers m (b ∷ bs) = add_brokers (set b.node_id b m) bs

-- Whether a topic of the response is new or differs from the one that is known.
abbrev pub is_updated : Option TopicMetadata → TopicMetadata → Bool
is_updated none topic = true
is_updated (some existing) topic =
    not (length existing.partitions == length topic.partitions)
    || has_partition_changes existing.partitions topic.partitions

-- The loop over the topics: the known topics after it, and `updatedTopics`.
unfoldable pub add_topics :
    JsMap JsString TopicMetadata → List TopicMetadata → JsMap JsString TopicMetadata × List JsString
add_topics m [] = (m, [])
add_topics m (t ∷ ts) =
    let after = add_topics (set t.name t m) ts in
    let skipped = add_topics m ts in
    if eq_ℤ t.error_code (pos 0)
    then (after.0, if is_updated (get t.name m) t then t.name ∷ after.1 else after.1)
    else skipped

abbrev pub is_empty {ℓ} : {A : Type ℓ} → List A → Bool
is_empty [] = true
is_empty (x ∷ xs) = false

-- `updateMetadata`: the metadata after it, and what the event `update` carries, if it is emitted.
unfoldable pub update_metadata :
    List Broker
    → List TopicMetadata
    → Option JsString
    → ℤ
    → ClusterMetadata
    → ClusterMetadata × Option (List JsString)
update_metadata brokers topics cluster_id controller_id c =
    let added = add_topics c.topics topics in
    (
      record {
        topics = added.0;
        brokers = add_brokers [] brokers;
        cluster_id = cluster_id;
        controller_id = controller_id;
        is_metadata_initialized = true;
      },
      if not (is_empty added.1) || not c.is_metadata_initialized then some added.1 else none,
    )

abbrev pub first_broker : List Broker → Result ℤ
first_broker [] = err kafka_error
first_broker (b ∷ bs) = ok b.node_id

unfoldable pub find_coordinator_node : JsString → ClusterMetadata → Result ℤ
find_coordinator_node group_id c =
    if is_negative c.controller_id then first_broker (get_all_brokers c) else ok c.controller_id
