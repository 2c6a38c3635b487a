-- ===== src/Tests/Admin.antt =====
-- src/admin on concrete values.
use kafka_node_ts.Prelude.{ℕ, ◌≡◌, refl, true, List, [], ◌∷◌, ◌++◌, ltb, if◌then◌else◌}
use kafka_node_ts.Prelude.Int.{ℤ, pos}
use kafka_node_ts.Prelude.Errors.{ok, err, plain_error}
use kafka_node_ts.Text.Literals.{codes}
use kafka_node_ts.JsMap.{nat_key, string_key, set}
use kafka_node_ts.Admin.NewTopic.{NewTopic, new_topic, assign_replicas as assign_to_topic}
use kafka_node_ts.Admin.NewTopic.Laws.{constructed, assigned, IsValid, reachable_topic-IsValid}
use kafka_node_ts.Admin.NewPartitions.{NewPartitions, assign_replicas, to_json}
use kafka_node_ts.Admin.NewPartitions.Laws.{telling, to_json-assign_replicas}
use kafka_node_ts.Admin.Config.{ResourceType, ConfigResource}
use kafka_node_ts.Admin.Client
use kafka_node_ts.Admin.Client.{AdminClient, Waiting, new_admin_client, nth_waiting, emits_ready}
use kafka_node_ts.Admin.Client.Counting
use kafka_node_ts.Admin.Client.Counting.{
  step, new, after, connects, closes, requests, fires, settled,
}
use kafka_node_ts.Admin.Client.Invariant.{reachable_admin-IsValid}
use kafka_node_ts.Admin.Client.Settling.{all_delays, fire_some, Finds, fire_some-settled}

abbrev plain : NewTopic
plain = record {
  name = codes "t";
  num_partitions = pos 3;
  replication_factor = pos 1;
  replica_assignments = [];
  configs = [];
}

abbrev placed : NewTopic
placed = record plain { replica_assignments = (pos 2, pos 1 ∷ []) ∷ [] }

reachable_topic-IsValid_example : IsValid placed
unfolding new_topic assign_to_topic set
reachable_topic-IsValid_example =
    reachable_topic-IsValid placed (
      assigned (pos 2) (pos 1 ∷ []) (constructed (codes "t") (pos 3) (pos 1) {t = plain} refl) refl)

abbrev three : NewPartitions
three = record { total_count = pos 3; assignments = (0, pos 9 ∷ []) ∷ [] }

abbrev given : List (List ℤ)
given = (pos 1 ∷ []) ∷ (pos 2 ∷ []) ∷ []

to_json-assign_replicas_example :
    ((assign_replicas given three).0 ≡ ok tt)
    × (to_json (assign_replicas given three).1 ≡ telling three given)
    × ((assign_replicas (given ++ [] ∷ []) three).0 ≡ err plain_error)
    × (to_json (assign_replicas (given ++ [] ∷ []) three).1 ≡ telling three given)
to_json-assign_replicas_example = to_json-assign_replicas three given [] (refl, (refl, tt))

abbrev one : ℕ
one = 1

abbrev a_topic : ℕ → ConfigResource
a_topic r = record { type = ResourceType.topic; name = codes "t" }

-- Two requests in front of the connection, and the first timer.
abbrev busy : AdminClient
busy = step (fires 0) (
    step (requests (Client.lists_topics true))
      (step (requests (Client.deletes_topics [])) new_admin_client))

busy-Reachable : Counting.Reachable busy
busy-Reachable =
    after (fires 0) (
      after (requests (Client.lists_topics true)) (after (requests (Client.deletes_topics [])) new))

reachable_admin-IsValid_example : Counting.IsValid busy
reachable_admin-IsValid_example = reachable_admin-IsValid busy busy-Reachable

first-Finds : Finds (λ ws. 0)
first-Finds [] h = refl
first-Finds (w ∷ ws) h = absurd (cc h)

fire_some-settled_example :
    ((fire_some (all_delays busy.waiting) (λ ws. 0) busy).waiting ≡ [])
    × ((k : ℕ)
        → settled k (fire_some (all_delays busy.waiting) (λ ws. 0) busy).outputs
          ≡ (if ltb k busy.calls then 1 else 0))
fire_some-settled_example = fire_some-settled busy (λ ws. 0) busy-Reachable first-Finds

-- Two requests before the connection stands: each connects, and 'ready' is emitted twice.
ready_twice_run : (step (fires 0) busy).outputs ≡ emits_ready ∷ emits_ready ∷ []
unfolding step Client.request_operation Client.on_timer Client.resume
ready_twice_run = refl
