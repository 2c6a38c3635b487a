-- ===== src/Tests/Cluster.antt =====
-- src/network/ClusterMetadata.ts: a cluster with one topic.
use kafka_node_ts.Prelude.{◌≡◌, ◌≢◌, refl, true, false, none, some, List, [], ◌∷◌}
use kafka_node_ts.Prelude.Int.{ℤ, pos}
use kafka_node_ts.Prelude.Errors.{ok}
use kafka_node_ts.JsMap.{get, set, same_list_iff}
use kafka_node_ts.ClusterMetadata.Changes.{
  Broker, PartitionMetadata, TopicMetadata, digits, sort, has_array_changed, index_partitions,
  any_changed, has_partition_changes,
}
use kafka_node_ts.ClusterMetadata.{
  ClusterMetadata, new_metadata, find_partition, find_leader, update_metadata, get_topic_metadata,
  add_topics, get_broker,
}
use kafka_node_ts.ClusterMetadata.Events.{is_told, IsKept, update_metadata-quiet}
use kafka_node_ts.ClusterMetadata.Laws.{
  times, latest, latest_broker, Leader, has_array_changed-false, update_metadata-latest,
  find_leader-Leader,
}

abbrev broker : Broker
broker = record { node_id = pos 1; host = []; port = pos 9092; rack = none }

abbrev partition_0 : PartitionMetadata
partition_0 = record {
  error_code = pos 0;
  partition_index = pos 0;
  leader_id = pos 1;
  leader_epoch = pos 4;
  replica_nodes = pos 1 ∷ pos 10 ∷ pos 2 ∷ [];
  isr_nodes = pos 1 ∷ [];
  offline_replicas = [];
}

-- The topic "a".
abbrev topic_a : TopicMetadata
topic_a = record {
  error_code = pos 0;
  name = 97 ∷ [];
  is_internal = false;
  partitions = partition_0 ∷ [];
  topic_authorized_operations = pos 0;
}

abbrev known : ClusterMetadata
known = record {
  topics = (97 ∷ [], topic_a) ∷ [];
  brokers = (pos 1, broker) ∷ [];
  cluster_id = none;
  controller_id = pos 1;
  is_metadata_initialized = true;
}

abbrev nodes : List ℤ
nodes = pos 1 ∷ pos 2 ∷ pos 10 ∷ []

abbrev reordered : List ℤ
reordered = pos 10 ∷ pos 1 ∷ pos 2 ∷ []

-- The numbers are ordered as strings.
sort_run : sort nodes ≡ pos 1 ∷ pos 10 ∷ pos 2 ∷ []
unfolding sort digits
sort_run = refl

same_nodes : has_array_changed nodes reordered ≡ false
unfolding has_array_changed sort digits
same_nodes = refl

has_array_changed-false_example : times (pos 10) nodes ≡ times (pos 10) reordered
has_array_changed-false_example = has_array_changed-false nodes reordered same_nodes (pos 10)

update_metadata-latest_example :
    (get_topic_metadata
        (97 ∷ [])
        (update_metadata (broker ∷ []) (topic_a ∷ []) none (pos 1) new_metadata).0
      ≡ latest (97 ∷ []) (get_topic_metadata (97 ∷ []) new_metadata) (topic_a ∷ []))
    × (get_broker (pos 1) (update_metadata (broker ∷ []) (topic_a ∷ []) none (pos 1) new_metadata).0
        ≡ latest_broker (pos 1) none (broker ∷ []))
update_metadata-latest_example =
    update_metadata-latest (broker ∷ []) (topic_a ∷ []) none (pos 1) new_metadata (97 ∷ []) (pos 1)

find_leader_run : find_leader (97 ∷ []) (pos 0) known ≡ ok (pos 1)
unfolding find_leader find_partition get
find_leader_run = refl

find_leader-Leader_example : Leader (97 ∷ []) (pos 0) known (find_leader (97 ∷ []) (pos 0) known)
find_leader-Leader_example = find_leader-Leader (97 ∷ []) (pos 0) known

-- The topic "b", which the cluster could not describe.
abbrev topic_b : TopicMetadata
topic_b = record topic_a { error_code = pos 3; name = 98 ∷ [] }

-- The topic "a" again, with its replicas in another order, behind one that the cluster could not describe.
abbrev topic_again : TopicMetadata
topic_again = record topic_a {
  partitions = record partition_0 { replica_nodes = pos 10 ∷ pos 2 ∷ pos 1 ∷ [] } ∷ [];
}

quiet_update :
    is_told (97 ∷ []) (update_metadata [] (topic_b ∷ topic_again ∷ []) none (pos 1) known).1 ≡ false
unfolding update_metadata add_topics has_partition_changes any_changed index_partitions get set
    has_array_changed sort digits
quiet_update = refl

names_differ : topic_b.name ≢ topic_again.name
names_differ e = let same : false ≡ true = (same_list_iff (98 ∷ []) (97 ∷ [])).1 e in cc

update_metadata-quiet_example :
    IsKept (get_topic_metadata (97 ∷ []) known) topic_again
    × (get_topic_metadata
          (97 ∷ [])
          (update_metadata [] (topic_b ∷ topic_again ∷ []) none (pos 1) known).0
        ≡ some topic_again)
update_metadata-quiet_example =
    update_metadata-quiet [] (topic_b ∷ []) [] topic_again none (pos 1) known refl
      (names_differ, tt) tt quiet_update
