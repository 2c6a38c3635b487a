-- ===== src/Admin/NewTopic/Laws.antt =====
-- src/admin/NewTopic.ts: what holds of a topic after any calls.
use kafka_node_ts.Prelude.{◌≡◌, false, List, [], ◌∷◌, All, arith}
use kafka_node_ts.Prelude.Int.{ℤ, pos, ltb_ℤ, leb_ℤ}
use kafka_node_ts.Prelude.Errors.{ok}
use kafka_node_ts.Text.{JsString}
use kafka_node_ts.JsMap.{int_key, set, keys}
use kafka_node_ts.JsMap.Laws.{IsDistinct, set-IsDistinct, set-All_entries}
use kafka_node_ts.Admin.NewTopic.{
  NewTopic, new_topic, is_empty, assign_replicas, set_config, set_configs,
}

-- Every topic that the constructor and calls that do not throw lead to.
pub data Reachable : NewTopic → Type 0 where
  constructed :
      (name : JsString) (partitions factor : ℤ) {t : NewTopic}
      → new_topic name partitions factor ≡ ok t
      → Reachable t
  assigned :
      (partition : ℤ) (replicas : List ℤ) {t u : NewTopic}
      → Reachable t
      → assign_replicas partition replicas t ≡ ok u
      → Reachable u
  configured :
      (configs : List (JsString × JsString)) {t : NewTopic}
      → Reachable t
      → Reachable (set_configs configs t)

-- A partition of the topic, with at least one replica.
abbrev pub IsAssignment : ℤ → ℤ × List ℤ → Type 0
IsAssignment partitions e =
    (ltb_ℤ e.0 (pos 0) ≡ false) × (leb_ℤ partitions e.0 ≡ false) × (is_empty e.1 ≡ false)

pub record IsValid (t : NewTopic) : Type 0 where
  pub some_partitions : leb_ℤ t.num_partitions (pos 0) ≡ false
  pub some_replicas : leb_ℤ t.replication_factor (pos 0) ≡ false
  pub in_range : All (IsAssignment t.num_partitions) t.replica_assignments
  pub distinct : IsDistinct (keys t.replica_assignments)

new_topic-ok :
    (name : JsString) (partitions factor : ℤ) {t : NewTopic}
    → new_topic name partitions factor ≡ ok t
    → (leb_ℤ partitions (pos 0) ≡ false)
      × (leb_ℤ factor (pos 0) ≡ false)
      × (t ≡ record {
        name = name;
        num_partitions = partitions;
        replication_factor = factor;
        replica_assignments = [];
        configs = [];
      })
unfolding new_topic
new_topic-ok name partitions factor h = ground arith

new_topic-IsValid :
    (name : JsString) (partitions factor : ℤ) {t : NewTopic}
    → new_topic name partitions factor ≡ ok t
    → IsValid t
new_topic-IsValid name partitions factor h =
    let (some_partitions, some_replicas, e) = new_topic-ok name partitions factor h in
    rw e (record {
      some_partitions = some_partitions;
      some_replicas = some_replicas;
      in_range = tt;
      distinct = tt;
    })

-- What a call of `assignReplicas` that does not throw has checked.
assign_replicas-ok :
    (p : ℤ) (rs : List ℤ) (t : NewTopic) {u : NewTopic}
    → assign_replicas p rs t ≡ ok u
    → IsAssignment t.num_partitions (p, rs)
      × (u ≡ record t { replica_assignments = set p rs t.replica_assignments })
unfolding assign_replicas
assign_replicas-ok p rs t h = ground arith

assign_replicas-IsValid :
    (p : ℤ) (rs : List ℤ) {t u : NewTopic} → IsValid t → assign_replicas p rs t ≡ ok u → IsValid u
assign_replicas-IsValid p rs {t} {u} v h =
    let (checked, e) = assign_replicas-ok p rs t h in
    rw e (record {
      some_partitions = v.some_partitions;
      some_replicas = v.some_replicas;
      in_range =
          set-All_entries (IsAssignment t.num_partitions) p rs t.replica_assignments checked
            v.in_range;
      distinct = set-IsDistinct p rs t.replica_assignments v.distinct;
    })

set_configs-IsValid :
    (configs : List (JsString × JsString)) (t : NewTopic)
    → IsValid t
    → IsValid (set_configs configs t)
unfolding set_configs set_config
set_configs-IsValid [] t v = v
set_configs-IsValid ((k, w) ∷ configs) t v =
    set_configs-IsValid configs (set_config k w t) (record {
      some_partitions = v.some_partitions;
      some_replicas = v.some_replicas;
      in_range = v.in_range;
      distinct = v.distinct;
    })

-- A topic that the constructor and any calls that do not throw lead to has at least one partition and a
-- positive replication factor, and its assignments are for distinct partitions within its count, each
-- with at least one replica.
pub reachable_topic-IsValid : (t : NewTopic) → Reachable t → IsValid t
reachable_topic-IsValid t (constructed name partitions factor h) =
    new_topic-IsValid name partitions factor h
reachable_topic-IsValid u (assigned p rs r h) =
    assign_replicas-IsValid p rs (reachable_topic-IsValid _ r) h
reachable_topic-IsValid u (configured configs {t} r) =
    set_configs-IsValid configs t (reachable_topic-IsValid t r)
