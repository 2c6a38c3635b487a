-- ===== src/ClusterMetadata/Events.antt =====
-- src/network/ClusterMetadata.ts: what it means that the event of an update does not name a topic.
use kafka_node_ts.Prelude.{
  ◌≡◌, ◌≢◌, refl, ap, ◌∙◌, ◌⊎◌, inl, inr, ◌==◌, ==_iff, Bool, true, false, not, ◌&&◌, ◌||◌,
  Bool-cases, Option, none, some, List, [], ◌∷◌, ◌++◌, length, All, if◌then◌else◌, arith,
}
use mathlib.Core.Path.{subst}
use kafka_node_ts.Prelude.Int.{ℤ, pos, eq_ℤ, eq_ℤ_iff}
use kafka_node_ts.Text.{JsString}
use kafka_node_ts.JsMap.{JsMap, int_key, string_key, same_list, same_list_iff, get, set}
use kafka_node_ts.JsMap.Laws.{get-set}
use kafka_node_ts.ClusterMetadata.Changes.{
  Broker, PartitionMetadata, TopicMetadata, index_partitions, partition_changed, any_changed,
  has_partition_changes,
}
use kafka_node_ts.ClusterMetadata.{
  ClusterMetadata, add_topics, is_updated, is_empty, update_metadata, get_topic_metadata,
}
use kafka_node_ts.ClusterMetadata.Laws.{
  times, has_array_changed-false, latest, latest-none, update_metadata-latest,
}

abbrev pub is_named : JsString → List JsString → Bool
is_named name [] = false
is_named name (n ∷ names) = same_list n name || is_named name names

-- Whether the event of an update, if there is one, names a topic.
abbrev pub is_told : JsString → Option (List JsString) → Bool
is_told name none = false
is_told name (some names) = is_named name names

-- The same leader in the same epoch, and the same nodes, each as often.
pub record IsSame (q p : PartitionMetadata) : Type 0 where
  pub leader : q.leader_id ≡ p.leader_id
  pub epoch : q.leader_epoch ≡ p.leader_epoch
  pub replicas : (z : ℤ) → times z q.replica_nodes ≡ times z p.replica_nodes
  pub isr : (z : ℤ) → times z q.isr_nodes ≡ times z p.isr_nodes
  pub offline : (z : ℤ) → times z q.offline_replicas ≡ times z p.offline_replicas

-- A partition that a topic had before, with the same leader and nodes.
abbrev pub Had : TopicMetadata → PartitionMetadata → Type 0
Had old p =
    (q : PartitionMetadata) × (get p.partition_index (index_partitions [] old.partitions) ≡ some q)
    × IsSame q p

or_false : (x y : Bool) → (x || y) ≡ false → (x ≡ false) × (y ≡ false)
or_false true y h = cc
or_false false y h = (refl, h)

IsSame-unchanged : (q p : PartitionMetadata) → partition_changed (some q) p ≡ false → IsSame q p
IsSame-unchanged q p h = record {
  leader = ground (arith, eq_ℤ_iff q.leader_id p.leader_id);
  epoch = ground (arith, eq_ℤ_iff q.leader_id p.leader_id, eq_ℤ_iff q.leader_epoch p.leader_epoch);
  replicas = has_array_changed-false q.replica_nodes p.replica_nodes (ground arith);
  isr = has_array_changed-false q.isr_nodes p.isr_nodes (ground arith);
  offline = has_array_changed-false q.offline_replicas p.offline_replicas (ground arith);
}

found :
    (o : Option PartitionMetadata) (p : PartitionMetadata)
    → partition_changed o p ≡ false
    → (q : PartitionMetadata) × (o ≡ some q) × IsSame q p
found none p h = cc
found (some q) p h = (q, refl, IsSame-unchanged q p h)

All-Had :
    (old : TopicMetadata) (ps : List PartitionMetadata)
    → any_changed (index_partitions [] old.partitions) ps ≡ false
    → All (Had old) ps
unfolding any_changed
All-Had old [] h = tt
All-Had old (p ∷ ps) h =
    let (here, later) =
      or_false (partition_changed (get p.partition_index (index_partitions [] old.partitions)) p)
        (any_changed (index_partitions [] old.partitions) ps) h in
    (
      found (get p.partition_index (index_partitions [] old.partitions)) p here,
      All-Had old ps later,
    )

-- A topic that an update leaves as it was.
abbrev pub IsKept : Option TopicMetadata → TopicMetadata → Type 0
IsKept known t =
    (old : TopicMetadata) × (known ≡ some old)
    × (length old.partitions ≡ length t.partitions)
    × All (Had old) t.partitions

IsKept-is_updated :
    (known : Option TopicMetadata) (t : TopicMetadata) → is_updated known t ≡ false → IsKept known t
unfolding has_partition_changes
IsKept-is_updated none t h = cc
IsKept-is_updated (some old) t h =
    let n = length old.partitions == length t.partitions in
    let c = any_changed (index_partitions [] old.partitions) t.partitions in
    let (counts, more) = or_false (not n) (not n || c) h in
    (
      old,
      refl,
      ground (arith, ==_iff (length old.partitions) (length t.partitions)),
      All-Had old t.partitions (or_false (not n) c more).1,
    )

not_told :
    (b : Bool) (n name : JsString) (names : List JsString)
    → n ≡ name
    → is_named name (if b then n ∷ names else names) ≡ false
    → b ≡ false
not_told true n name names same h = absurd (cc (h, (same_list_iff n name).1 same))
not_told false n name names same h = refl

still_quiet :
    (b : Bool) (n name : JsString) (names : List JsString)
    → is_named name (if b then n ∷ names else names) ≡ false
    → is_named name names ≡ false
still_quiet true n name names h = (or_false (same_list n name) (is_named name names) h).1
still_quiet false n name names h = h

not_same : (n name : JsString) → n ≢ name → same_list n name ≡ false
not_same n name different = elim (Bool-cases (same_list n name)) [
  | inl same ↦ absurd (different ((same_list_iff n name).0 same))
  | inr other ↦ other
]

IsKept-add_topics :
    (before after : List TopicMetadata) (t : TopicMetadata) (m : JsMap JsString TopicMetadata)
    → t.error_code ≡ pos 0
    → All (λ s. s.name ≢ t.name) before
    → is_named t.name (add_topics m (before ++ t ∷ after)).1 ≡ false
    → IsKept (get t.name m) t
unfolding add_topics
IsKept-add_topics [] after t m fine different quiet = IsKept-is_updated (get t.name m) t (
    not_told (is_updated (get t.name m) t) t.name t.name (add_topics (set t.name t m) after).1 refl
      (rw ((eq_ℤ_iff t.error_code (pos 0)).1 fine) at quiet))
IsKept-add_topics (s ∷ before) after t m fine different quiet =
    elim (Bool-cases (eq_ℤ s.error_code (pos 0))) [
      | inl e ↦
          subst (λ (o : Option TopicMetadata). IsKept o t)
            (get-set s.name t.name s m ∙ rw (not_same s.name t.name different.0) refl)
            (IsKept-add_topics before after t (set s.name s m) fine different.1 (
              still_quiet (is_updated (get s.name m) s) s.name t.name
                (add_topics (set s.name s m) (before ++ t ∷ after)).1 (rw e at quiet)))
      | inr e ↦ IsKept-add_topics before after t m fine different.1 (rw e at quiet)
    ]

quiet_update :
    (name : JsString) (names : List JsString) (first : Bool)
    → is_told name (if not (is_empty names) || first then some names else none) ≡ false
    → is_named name names ≡ false
quiet_update name [] first h = refl
quiet_update name (n ∷ names) first h = h

other_names :
    (name : JsString) (ts : List TopicMetadata)
    → All (λ s. s.name ≢ name) ts
    → All (λ s. (s.error_code ≢ pos 0) ⊎ (s.name ≢ name)) ts
other_names name [] h = tt
other_names name (t ∷ ts) h = (inr h.0, other_names name ts h.1)

latest-at :
    (before after : List TopicMetadata) (t : TopicMetadata) (known : Option TopicMetadata)
    → t.error_code ≡ pos 0
    → All (λ s. s.name ≢ t.name) after
    → latest t.name known (before ++ t ∷ after) ≡ some t
latest-at [] after t known fine h =
    ap (λ (o : Option TopicMetadata). latest t.name o after) taken
    ∙ latest-none t.name (some t) after (other_names t.name after h)
  where
    taken :
        (if eq_ℤ t.error_code (pos 0) && same_list t.name t.name then some t else known) ≡ some t
    taken = rw ((eq_ℤ_iff t.error_code (pos 0)).1 fine, (same_list_iff t.name t.name).1 refl) refl
latest-at (s ∷ before) after t known fine h = latest-at before after t _ fine h

-- An entry without an error of a response, the only one for its topic, and an event that does not name the
-- topic, or no event: the topic was known before with as many partitions, and each partition of the
-- entry was known with the same leader, the same leader epoch, and the same replicas, in-sync replicas
-- and offline replicas, each as often. Afterwards the entry is what is known of the topic.
pub update_metadata-quiet :
    (bs : List Broker) (before after : List TopicMetadata) (t : TopicMetadata)
    (cluster_id : Option JsString) (controller_id : ℤ) (c : ClusterMetadata)
    → t.error_code ≡ pos 0
    → All (λ s. s.name ≢ t.name) before
    → All (λ s. s.name ≢ t.name) after
    → is_told t.name (update_metadata bs (before ++ t ∷ after) cluster_id controller_id c).1 ≡ false
    → IsKept (get_topic_metadata t.name c) t
      × (get_topic_metadata t.name
            (update_metadata bs (before ++ t ∷ after) cluster_id controller_id c).0
          ≡ some t)
update_metadata-quiet bs before after t cluster_id controller_id c fine first last quiet = (
  unfold get_topic_metadata in
      IsKept-add_topics before after t c.topics fine first (
        quiet_update t.name (add_topics c.topics (before ++ t ∷ after)).1
          (not c.is_metadata_initialized) (unfold update_metadata in quiet)),
  (update_metadata-latest bs (before ++ t ∷ after) cluster_id controller_id c t.name (pos 0)).0
      ∙ latest-at before after t (get_topic_metadata t.name c) fine last,
)
