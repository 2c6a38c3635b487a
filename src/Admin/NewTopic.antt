-- ===== src/Admin/NewTopic.antt =====
-- src/admin/NewTopic.ts: a topic to create. Counts and partitions are whole numbers. The order of the
-- properties of an object is not kept, so an object with computed keys is a `JsMap`.
pub mod Laws
use kafka_node_ts.Prelude.{
  Bool, true, false, ◌||◌, Option, none, some, List, [], ◌∷◌, if◌then◌else◌,
}
use kafka_node_ts.Prelude.Int.{ℤ, pos, ltb_ℤ, leb_ℤ}
use kafka_node_ts.Prelude.Errors.{Result, ok, err, plain_error}
use kafka_node_ts.Text.{JsString}
use kafka_node_ts.JsMap.{JsMap, int_key, string_key, set}

pub record NewTopic : Type 0 where
  pub name : JsString
  pub num_partitions : ℤ
  pub replication_factor : ℤ
  pub replica_assignments : JsMap ℤ (List ℤ)
  pub configs : JsMap JsString JsString

-- `new NewTopic(name, numPartitions, replicationFactor)`
unfoldable pub new_topic : JsString → (num_partitions replication_factor : ℤ) → Result NewTopic
new_topic name num_partitions replication_factor =
    if leb_ℤ num_partitions (pos 0)
    then err plain_error
    else if leb_ℤ replication_factor (pos 0)
    then err plain_error
    else ok (record {
      name = name;
      num_partitions = num_partitions;
      replication_factor = replication_factor;
      replica_assignments = [];
      configs = [];
    })

abbrev pub is_empty : List ℤ → Bool
is_empty [] = true
is_empty (x ∷ xs) = false

-- `assignReplicas`
unfoldable pub assign_replicas : (partition : ℤ) (replicas : List ℤ) → NewTopic → Result NewTopic
assign_replicas partition replicas t =
    if ltb_ℤ partition (pos 0) || leb_ℤ t.num_partitions partition
    then err plain_error
    else if is_empty replicas
    then err plain_error
    else ok (record t { replica_assignments = set partition replicas t.replica_assignments })

-- `setConfig`
unfoldable pub set_config : (key value : JsString) → NewTopic → NewTopic
set_config key value t = record t { configs = set key value t.configs }

-- `setConfigs`
unfoldable pub set_configs : List (JsString × JsString) → NewTopic → NewTopic
set_configs [] t = t
set_configs ((key, value) ∷ configs) t = set_configs configs (set_config key value t)

-- What `toJSON` returns; an empty map of assignments is left out.
pub record TopicJson : Type 0 where
  pub name : JsString
  pub num_partitions : ℤ
  pub replication_factor : ℤ
  pub configs : JsMap JsString JsString
  pub replica_assignments : Option (JsMap ℤ (List ℤ))

abbrev pub unless_empty {ℓ} : {A : Type ℓ} → List A → Option (List A)
unless_empty [] = none
unless_empty (x ∷ xs) = some (x ∷ xs)

unfoldable pub to_json : NewTopic → TopicJson
to_json t = record {
  name = t.name;
  num_partitions = t.num_partitions;
  replication_factor = t.replication_factor;
  configs = t.configs;
  replica_assignments = unless_empty t.replica_assignments;
}
