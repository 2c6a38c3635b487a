-- ===== src/Admin/Operations.antt =====
-- src/admin/AdminResult.ts, src/admin/TopicDescription.ts, src/admin/AlterConfigsOptions.ts and the
-- bodies of the methods of src/admin/AdminClient.ts, which simulate the cluster: what each answers.
-- A `ConfigResource` is an object that a `Map` compares by identity: here it is a reference, and the
-- object that it refers to is given by a function. What is only logged is left out.
use kafka_node_ts.Prelude.{
  ℕ, Bool, true, false, Option, none, some, List, [], ◌∷◌, ◌++◌, map, ◌==◌, ◌&&◌, if◌then◌else◌,
}
use kafka_node_ts.Prelude.Errors.{Error}
use kafka_node_ts.Text.{JsString}
use kafka_node_ts.Text.Literals.{codes}
use kafka_node_ts.JsMap.{Key, JsMap, nat_key, string_key, set}
use kafka_node_ts.Admin.NewTopic.{NewTopic}
use kafka_node_ts.Admin.NewPartitions.{NewPartitions}
use kafka_node_ts.Admin.Config.{
  ResourceType, unknown, topic, broker, broker_logger, ConfigResource, ConfigEntry, Config,
  new_config, add_entry,
}

pub record CreateTopicsResult : Type 0 where
  pub name : JsString
  pub error : Option Error

pub record DeleteTopicsResult : Type 0 where
  pub name : JsString
  pub error : Option Error

pub record CreatePartitionsResult : Type 0 where
  pub name : JsString
  pub error : Option Error

pub record Node : Type 0 where
  pub id : ℕ
  pub host : JsString
  pub port : ℕ
  pub rack : Option JsString

pub record PartitionInfo : Type 0 where
  pub topic : JsString
  pub partition : ℕ
  pub leader : Node
  pub replicas : List Node
  pub isr : List Node

pub record TopicDescription : Type 0 where
  pub name : JsString
  pub partitions : List PartitionInfo
  pub is_internal : Bool
  pub authorized_operations : Option (List JsString)

pub record DescribeTopicsResult : Type 0 where
  pub description : Option TopicDescription
  pub error : Option Error

pub record ListTopicsResult : Type 0 where
  pub topics : List JsString
  pub error : Option Error

pub record AlterConfigsResult : Type 0 where
  pub resource : ℕ
  pub error : Option Error

pub record DescribeConfigsResult : Type 0 where
  pub resource : ℕ
  pub config : Option Config
  pub error : Option Error

-- `isSuccess` of a result with this error.
abbrev pub is_success : Option Error → Bool
is_success none = true
is_success (some e) = false

-- `for (const x of xs) result.set(k, a result for k)`, with the keys `k` in turn, into what the map
-- holds already.
module _ {K V : Type 0} ⦃key : Key K⦄ where
  unfoldable pub set_each : (K → V) → JsMap K V → List K → JsMap K V
  set_each result_for m [] = m
  set_each result_for m (k ∷ ks) = set_each result_for (set k (result_for k) m) ks

abbrev pub created : JsString → CreateTopicsResult
created name = record { name = name; error = none }

unfoldable pub create_topics : List NewTopic → JsMap JsString CreateTopicsResult
create_topics topics = set_each created [] (map (λ t. t.name) topics)

abbrev pub deleted : JsString → DeleteTopicsResult
deleted name = record { name = name; error = none }

unfoldable pub delete_topics : List JsString → JsMap JsString DeleteTopicsResult
delete_topics topics = set_each deleted [] topics

abbrev pub extended : JsString → CreatePartitionsResult
extended name = record { name = name; error = none }

unfoldable pub create_partitions :
    JsMap JsString NewPartitions → JsMap JsString CreatePartitionsResult
create_partitions new_partitions = set_each extended [] (map (λ e. e.0) new_partitions)

unfoldable pub list_topics : (list_internal : Bool) → ListTopicsResult
list_topics list_internal =
    let topics = codes "topic-1" ∷ codes "topic-2" ∷ codes "topic-3" ∷ [] in
    record {
      topics =
          if list_internal
          then topics ++ (codes "__consumer_offsets" ∷ codes "__transaction_state" ∷ [])
          else topics;
      error = none;
    }

abbrev pub mock_node : ℕ → JsString → Node
mock_node id host = record { id = id; host = host; port = 9092; rack = none }

abbrev pub mock_nodes : List Node
mock_nodes =
    mock_node 1 (codes "broker-1")
    ∷ mock_node 2 (codes "broker-2")
    ∷ mock_node 3 (codes "broker-3")
    ∷ []

abbrev pub mock_partition : JsString → ℕ → PartitionInfo
mock_partition name i = record {
  topic = name;
  partition = i;
  leader = mock_node 1 (codes "broker-1");
  replicas = mock_nodes;
  isr = mock_nodes;
}

-- `topic.startsWith('__')`
abbrev pub starts_internal : JsString → Bool
starts_internal (a ∷ b ∷ s) = (a == b'_') && (b == b'_')
starts_internal _ = false

abbrev pub all_operations : List JsString
all_operations =
    codes "READ"
    ∷ codes "WRITE"
    ∷ codes "CREATE"
    ∷ codes "DELETE"
    ∷ codes "ALTER"
    ∷ codes "DESCRIBE"
    ∷ []

unfoldable pub mock_description : (include_operations : Bool) → JsString → TopicDescription
mock_description include_operations name = record {
  name = name;
  partitions = map (mock_partition name) (0 ∷ 1 ∷ 2 ∷ []);
  is_internal = starts_internal name;
  authorized_operations = if include_operations then some all_operations else none;
}

abbrev pub described : Bool → JsString → DescribeTopicsResult
described include_operations name = record {
  description = some (mock_description include_operations name);
  error = none;
}

unfoldable pub describe_topics :
    List JsString → (include_operations : Bool) → JsMap JsString DescribeTopicsResult
describe_topics names include_operations = set_each (described include_operations) [] names

pub data ConfigOperation : Type 0 where
  set_value delete_value append_value subtract_value : ConfigOperation

pub record AlterConfigEntry : Type 0 where
  pub name : JsString
  pub value : Option JsString
  pub operation : ConfigOperation

abbrev pub altered : ℕ → AlterConfigsResult
altered resource = record { resource = resource; error = none }

-- The entries, and the option to validate only, are only logged.
unfoldable pub alter_configs : JsMap ℕ (List AlterConfigEntry) → JsMap ℕ AlterConfigsResult
alter_configs resources = set_each altered [] (map (λ e. e.0) resources)

abbrev pub mock_entry : (name value : JsString) (sensitive default : Bool) → ConfigEntry
mock_entry name value sensitive default = record {
  name = name;
  value = value;
  is_read_only = false;
  is_sensitive = sensitive;
  is_default = default;
}

abbrev pub add_entries : List ConfigEntry → Config → Config
add_entries [] c = c
add_entries (e ∷ es) c = add_entries es (add_entry e c)

unfoldable pub mock_config : ResourceType → Config
unfolding add_entry
mock_config topic =
    add_entries
      (mock_entry (codes "cleanup.policy") (codes "delete") false true
        ∷ mock_entry (codes "compression.type") (codes "producer") false true
        ∷ mock_entry (codes "retention.ms") (codes "604800000") false true
        ∷ mock_entry (codes "segment.bytes") (codes "1073741824") false true
        ∷ [])
      new_config
mock_config broker =
    add_entries
      (mock_entry (codes "num.io.threads") (codes "8") false true
        ∷ mock_entry (codes "num.network.threads") (codes "3") false true
        ∷ mock_entry (codes "log.dirs") (codes "/var/lib/kafka/data") false true
        ∷ mock_entry (codes "ssl.keystore.password") (codes "******") true false
        ∷ [])
      new_config
mock_config unknown = new_config
mock_config broker_logger = new_config

module _ (resource_at : ℕ → ConfigResource) where
  abbrev pub config_described : ℕ → DescribeConfigsResult
  config_described resource = record {
    resource = resource;
    config = some (mock_config (resource_at resource).type);
    error = none;
  }

  unfoldable pub describe_configs : List ℕ → JsMap ℕ DescribeConfigsResult
  describe_configs resources = set_each config_described [] resources
