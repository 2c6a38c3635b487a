-- ===== src/Admin/NewPartitions.antt =====
-- src/admin/NewPartitions.ts: the partitions to add to a topic. A method that throws returns the error
-- with the object as it is left.
pub mod Laws
use kafka_node_ts.Prelude.{
  ℕ, suc, Bool, true, false, Option, none, some, List, [], ◌∷◌, map, leb, if◌then◌else◌,
}
use kafka_node_ts.Prelude.Int.{ℤ, pos, leb_ℤ}
use kafka_node_ts.Prelude.Errors.{Result, ok, err, plain_error}
use kafka_node_ts.JsMap.{JsMap, nat_key, set}
use kafka_node_ts.Admin.NewTopic.{is_empty, unless_empty}

pub record NewPartitions : Type 0 where
  pub total_count : ℤ
  pub assignments : JsMap ℕ (List ℤ)

-- `new NewPartitions(totalCount)`, and `NewPartitions.increaseTo`
unfoldable pub new_partitions : ℤ → Result NewPartitions
new_partitions total_count =
    if leb_ℤ total_count (pos 0)
    then err plain_error
    else ok (record { total_count = total_count; assignments = [] })

abbrev pub increase_to : ℤ → Result NewPartitions
increase_to total_count = new_partitions total_count

-- The loop of `assignReplicas`, from index `i` on.
unfoldable pub assign_each : ℕ → List (List ℤ) → NewPartitions → Result {0} Unit × NewPartitions
assign_each i [] p = (ok tt, p)
assign_each i (replicas ∷ assignments) p =
    let rest =
      assign_each (suc i) assignments (record p { assignments = set i replicas p.assignments }) in
    if is_empty replicas then (err plain_error, p) else rest

-- `assignReplicas`: the old assignments are cleared before the new ones are looked at.
unfoldable pub assign_replicas : List (List ℤ) → NewPartitions → Result {0} Unit × NewPartitions
assign_replicas assignments p = assign_each 0 assignments (record p { assignments = [] })

-- `hasAssignments`
abbrev pub has_assignments : NewPartitions → Bool
has_assignments p = elim p.assignments [ [] ↦ false | a ∷ rest ↦ true ]

-- `sort(([a], [b]) => a - b)`
unfoldable pub insert_entry : ℕ × List ℤ → JsMap ℕ (List ℤ) → JsMap ℕ (List ℤ)
insert_entry e [] = e ∷ []
insert_entry e (f ∷ rest) = if leb e.0 f.0 then e ∷ f ∷ rest else f ∷ insert_entry e rest

unfoldable pub sort_entries : JsMap ℕ (List ℤ) → JsMap ℕ (List ℤ)
unfolding insert_entry
sort_entries [] = []
sort_entries (e ∷ rest) = insert_entry e (sort_entries rest)

-- What `toJSON` returns; an empty map of assignments is left out.
pub record PartitionsJson : Type 0 where
  pub total_count : ℤ
  pub assignments : Option (List (List ℤ))

unfoldable pub to_json : NewPartitions → PartitionsJson
unfolding sort_entries
to_json p = record {
  total_count = p.total_count;
  assignments = unless_empty (map (λ e. e.1) (sort_entries p.assignments));
}
