-- ===== src/ClusterMetadata/Laws.antt =====
-- src/network/ClusterMetadata.ts: what is known after an update, which leader is found, and when two
-- sets of nodes count as the same.
use kafka_node_ts.Prelude.{
  ℕ, suc, ◌+◌, ◌≡◌, ◌≢◌, refl, ap, ◌∙◌, sym, ◌⊎◌, inl, inr, ◌==◌, ==_iff, Bool, true, false, not,
  ◌&&◌, ◌||◌, Bool-cases, Option-cases, Option, none, some, List, [], ◌∷◌, length, All,
  if◌then◌else◌, arith,
}
use kafka_node_ts.Prelude.Int.{ℤ, pos, negsuc, eq_ℤ, eq_ℤ_iff}
use kafka_node_ts.Prelude.Errors.{Result, ok, err, kafka_error, leader_not_available}
use kafka_node_ts.Text.{JsString}
use kafka_node_ts.JsMap.{JsMap, int_key, string_key, same_list, same_list_iff, get, set}
use kafka_node_ts.JsMap.Laws.{get-set}
use kafka_node_ts.ClusterMetadata.Changes.{
  Broker, PartitionMetadata, TopicMetadata, has_array_changed, insert, sort, differ,
}
use kafka_node_ts.ClusterMetadata.{
  ClusterMetadata, find_partition, find_leader, leader_of, add_brokers, add_topics, update_metadata,
  get_topic_metadata, get_broker,
}

-- How often a node stands in a list.
abbrev pub times : ℤ → List ℤ → ℕ
times z [] = 0
times z (x ∷ xs) = (if eq_ℤ x z then 1 else 0) + times z xs

times-insert : (z x : ℤ) (ys : List ℤ) → times z (insert x ys) ≡ times z (x ∷ ys)
unfolding insert
times-insert z x [] = refl
times-insert z x (y ∷ ys) = ground (arith, times-insert z x ys)

times-sort : (z : ℤ) (xs : List ℤ) → times z (sort xs) ≡ times z xs
unfolding sort
times-sort z [] = refl
times-sort z (x ∷ xs) = omega (arith, times-insert z x (sort xs), times-sort z xs)

length-insert : (x : ℤ) (ys : List ℤ) → length (insert x ys) ≡ suc (length ys)
unfolding insert
length-insert x [] = refl
length-insert x (y ∷ ys) = ground (arith, length-insert x ys)

length-sort : (xs : List ℤ) → length (sort xs) ≡ length xs
unfolding sort
length-sort [] = refl
length-sort (x ∷ xs) = omega (arith, length-insert x (sort xs), length-sort xs)

differ-false : (xs ys : List ℤ) → length xs ≡ length ys → differ xs ys ≡ false → xs ≡ ys
differ-false [] [] e h = refl
differ-false [] (y ∷ ys) e h = absurd (omega arith)
differ-false (x ∷ xs) [] e h = absurd (omega arith)
differ-false (x ∷ xs) (y ∷ ys) e h = ground (arith, eq_ℤ_iff x y, differ-false xs ys)

both_false : (x y : Bool) → (not x || y) ≡ false → (x ≡ true) × (y ≡ false)
both_false true y h = (refl, h)
both_false false y h = cc

-- Arrays that do not count as changed hold the same nodes, each as often: no change is missed.
pub has_array_changed-false :
    (a b : List ℤ) → has_array_changed a b ≡ false → (z : ℤ) → times z a ≡ times z b
unfolding has_array_changed
has_array_changed-false a b h z =
    let (len, same) = both_false (length a == length b) (differ (sort a) (sort b)) h in
    let lengths : length a ≡ length b = (==_iff (length a) (length b)).0 len in
    sym (times-sort z a)
    ∙ ap (times z)
        (differ-false (sort a) (sort b) (omega (arith, length-sort a, length-sort b)) same)
    ∙ times-sort z b

-- The last entry without an error that a response has for a topic, or else what was known.
abbrev pub latest : JsString → Option TopicMetadata → List TopicMetadata → Option TopicMetadata
latest name known [] = known
latest name known (t ∷ ts) =
    latest name (if eq_ℤ t.error_code (pos 0) && same_list t.name name then some t else known) ts

-- The last entry that a response has for a node.
abbrev pub latest_broker : ℤ → Option Broker → List Broker → Option Broker
latest_broker id known [] = known
latest_broker id known (b ∷ bs) = latest_broker id (if eq_ℤ b.node_id id then some b else known) bs

get-add_topics :
    (name : JsString) (m : JsMap JsString TopicMetadata) (ts : List TopicMetadata)
    → get name (add_topics m ts).0 ≡ latest name (get name m) ts
unfolding add_topics
get-add_topics name m [] = refl
get-add_topics name m (t ∷ ts) = elim (Bool-cases (eq_ℤ t.error_code (pos 0))) [
  | inl fine ↦ rw fine (
      get-add_topics name (set t.name t m) ts
      ∙ ap (λ (o : Option TopicMetadata). latest name o ts) (get-set t.name name t m))
  | inr bad ↦ rw bad (get-add_topics name m ts)
]

get-add_brokers :
    (id : ℤ) (m : JsMap ℤ Broker) (bs : List Broker)
    → get id (add_brokers m bs) ≡ latest_broker id (get id m) bs
unfolding add_brokers
get-add_brokers id m [] = refl
get-add_brokers id m (b ∷ bs) =
    get-add_brokers id (set b.node_id b m) bs
    ∙ ap (λ (o : Option Broker). latest_broker id o bs) (get-set b.node_id id b m)

pub latest-none :
    (name : JsString) (known : Option TopicMetadata) (ts : List TopicMetadata)
    → All (λ t. (t.error_code ≢ pos 0) ⊎ (t.name ≢ name)) ts
    → latest name known ts ≡ known
latest-none name known [] h = refl
latest-none name known (t ∷ ts) h = rw skipped (latest-none name known ts h.1)
  where
    skipped : (eq_ℤ t.error_code (pos 0) && same_list t.name name) ≡ false
    skipped = ground (arith, eq_ℤ_iff t.error_code (pos 0), same_list_iff t.name name, h.0)

get-empty : (id : ℤ) → get {V = Broker} id [] ≡ none
unfolding get
get-empty id = refl

module _ (bs : List Broker) (ts : List TopicMetadata) (cluster_id : Option JsString)
    (controller_id : ℤ) (c : ClusterMetadata) where
  -- After an update a topic's metadata is the last entry without an error that the response has for
  -- it, or else what was known before; a broker is the last entry of the response for its node, and
  -- no broker of before is known any longer.
  pub update_metadata-latest :
      (name : JsString) (id : ℤ)
      → (get_topic_metadata name (update_metadata bs ts cluster_id controller_id c).0
          ≡ latest name (get_topic_metadata name c) ts)
        × (get_broker id (update_metadata bs ts cluster_id controller_id c).0
            ≡ latest_broker id none bs)
  unfolding update_metadata get_topic_metadata get_broker
  update_metadata-latest name id = (
    get-add_topics name c.topics ts,
    get-add_brokers id [] bs ∙ ap (λ (o : Option Broker). latest_broker id o bs) (get-empty id),
  )

-- What `findLeader` may answer, and when.
pub data Leader (topic : JsString) (partition : ℤ) (c : ClusterMetadata) : Result ℤ → Type 0 where
  unknown_topic : get_topic_metadata topic c ≡ none → Leader topic partition c (err kafka_error)
  unknown_partition :
      (t : TopicMetadata)
      → get_topic_metadata topic c ≡ some t
      → All (λ p. p.partition_index ≢ partition) t.partitions
      → Leader topic partition c (err kafka_error)
  leaderless :
      (t : TopicMetadata) (p : PartitionMetadata) (n : ℕ)
      → get_topic_metadata topic c ≡ some t
      → find_partition partition t.partitions ≡ some p
      → p.partition_index ≡ partition
      → p.leader_id ≡ negsuc n
      → Leader topic partition c (err leader_not_available)
  led :
      (t : TopicMetadata) (p : PartitionMetadata) (n : ℕ)
      → get_topic_metadata topic c ≡ some t
      → find_partition partition t.partitions ≡ some p
      → p.partition_index ≡ partition
      → p.leader_id ≡ pos n
      → Leader topic partition c (ok (pos n))

-- The two ways in which a search ends.
find_partition-found :
    (i : ℤ) (ps : List PartitionMetadata)
    → ((find_partition i ps ≡ none) × All (λ p. p.partition_index ≢ i) ps)
      ⊎ ((p : PartitionMetadata) × (find_partition i ps ≡ some p) × (p.partition_index ≡ i))
unfolding find_partition
find_partition-found i [] = inl (refl, tt)
find_partition-found i (p ∷ ps) = elim (Bool-cases (eq_ℤ p.partition_index i)) [
  | inl same ↦ inr (p, rw same, (eq_ℤ_iff p.partition_index i).0 same)
  | inr other ↦ elim (find_partition-found i ps) [
    | inl (missing, others) ↦
        inl
          (rw other missing, (λ e. absurd (cc (other, (eq_ℤ_iff p.partition_index i).1 e)), others))
    | inr (q, found, same) ↦ inr (q, rw other found, same)
  ]
]

leader_of-Leader :
    (topic : JsString) (partition : ℤ) (c : ClusterMetadata) (t : TopicMetadata)
    (p : PartitionMetadata)
    → get_topic_metadata topic c ≡ some t
    → find_partition partition t.partitions ≡ some p
    → p.partition_index ≡ partition
    → Leader topic partition c (leader_of (some p))
leader_of-Leader topic partition c t p known found same = elim (sign p.leader_id) [
  | inl (n, e) ↦ rw e (led t p n known found same e)
  | inr (n, e) ↦ rw e (leaderless t p n known found same e)
]
  where
    sign : (z : ℤ) → ((n : ℕ) × (z ≡ pos n)) ⊎ ((n : ℕ) × (z ≡ negsuc n))
    sign (pos n) = inl (n, refl)
    sign (negsuc n) = inr (n, refl)

-- `findLeader` answers with the leader of the topic's partition, and throws if the topic is unknown,
-- if it has no such partition, or if the partition has no leader.
pub find_leader-Leader :
    (topic : JsString) (partition : ℤ) (c : ClusterMetadata)
    → Leader topic partition c (find_leader topic partition c)
unfolding find_leader get_topic_metadata
find_leader-Leader topic partition c = elim (Option-cases (get topic c.topics)) [
  | inl missing ↦ rw missing (unknown_topic missing)
  | inr (t, known) ↦ elim (find_partition-found partition t.partitions) [
    | inl (absent, others) ↦ rw (known, absent) (unknown_partition t known others)
    | inr (p, found, same) ↦
        rw (known, found) (leader_of-Leader topic partition c t p known found same)
  ]
]
