-- ===== src/ClusterMetadata/Changes.antt =====
-- src/network/ClusterMetadata.ts, and the data of src/network/protocol/responses/MetadataResponse.ts:
-- whether the metadata of a topic's partitions has changed.
use kafka_node_ts.Prelude.{
  ℕ, zero, suc, ◌+◌, ◌/◌, ◌%◌, ◌==◌, Bool, true, false, not, ◌&&◌, ◌||◌, Option, none, some, List,
  [], ◌∷◌, ◌++◌, length, ltb, if◌then◌else◌,
}
use kafka_node_ts.Prelude.Int.{ℤ, pos, negsuc, eq_ℤ}
use kafka_node_ts.Text.{JsString}
use kafka_node_ts.JsMap.{JsMap, int_key, get, set}

pub record Broker : Type 0 where
  pub node_id : ℤ
  pub host : JsString
  pub port : ℤ
  pub rack : Option JsString

pub record PartitionMetadata : Type 0 where
  pub error_code : ℤ
  pub partition_index : ℤ
  pub leader_id : ℤ
  pub leader_epoch : ℤ
  pub replica_nodes : List ℤ
  pub isr_nodes : List ℤ
  pub offline_replicas : List ℤ

pub record TopicMetadata : Type 0 where
  pub error_code : ℤ
  pub name : JsString
  pub is_internal : Bool
  pub partitions : List PartitionMetadata
  pub topic_authorized_operations : ℤ

-- A number as JavaScript prints it.
unfoldable pub digits : ℕ → ℕ → JsString
digits zero n = []
digits (suc fuel) n = elim (ltb n 10) [
  | true ↦ (48 + n) ∷ []
  | false ↦ digits fuel (n / 10) ++ (48 + n % 10) ∷ []
]

abbrev pub number_string : ℤ → JsString
number_string (pos n) = digits (n + 1) n
number_string (negsuc n) = 45 ∷ digits (n + 2) (n + 1)

-- The order of JavaScript's strings: by units, a beginning before the whole.
abbrev pub is_after : JsString → JsString → Bool
is_after [] s = false
is_after (x ∷ r) [] = true
is_after (x ∷ r) (y ∷ s) = ltb y x || (x == y) && is_after r s

-- `[...a].sort()`: without a comparison the elements are ordered as strings.
unfoldable pub insert : ℤ → List ℤ → List ℤ
insert x [] = x ∷ []
insert x (y ∷ ys) =
    if is_after (number_string x) (number_string y) then y ∷ insert x ys else x ∷ y ∷ ys

unfoldable pub sort : List ℤ → List ℤ
unfolding insert
sort [] = []
sort (x ∷ xs) = insert x (sort xs)

-- The loop over two arrays of the same length.
abbrev pub differ : List ℤ → List ℤ → Bool
differ (x ∷ xs) (y ∷ ys) = not (eq_ℤ x y) || differ xs ys
differ _ _ = false

unfoldable pub has_array_changed : List ℤ → List ℤ → Bool
has_array_changed a b = not (length a == length b) || differ (sort a) (sort b)

unfoldable pub index_partitions :
    JsMap ℤ PartitionMetadata → List PartitionMetadata → JsMap ℤ PartitionMetadata
index_partitions m [] = m
index_partitions m (p ∷ ps) = index_partitions (set p.partition_index p m) ps

abbrev pub partition_changed : Option PartitionMetadata → PartitionMetadata → Bool
partition_changed none p = true
partition_changed (some e) p =
    not (eq_ℤ e.leader_id p.leader_id)
    || not (eq_ℤ e.leader_epoch p.leader_epoch)
    || has_array_changed e.replica_nodes p.replica_nodes
    || has_array_changed e.isr_nodes p.isr_nodes
    || has_array_changed e.offline_replicas p.offline_replicas

-- `for (const partition of updated) ...`
unfoldable pub any_changed : JsMap ℤ PartitionMetadata → List PartitionMetadata → Bool
any_changed m [] = false
any_changed m (p ∷ ps) = partition_changed (get p.partition_index m) p || any_changed m ps

unfoldable pub has_partition_changes : List PartitionMetadata → List PartitionMetadata → Bool
has_partition_changes existing updated =
    not (length existing == length updated) || any_changed (index_partitions [] existing) updated
