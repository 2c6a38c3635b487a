-- ===== src/Consumer/Assignment.antt =====
-- src/consumer/KafkaConsumer.ts: what `subscribe` assigns, as `seek` and `position` find it.
use kafka_node_ts.Prelude.{
  ℕ, ◌≡◌, refl, ap, ◌∙◌, Bool, ◌&&◌, ◌||◌, Option, List, [], ◌∷◌, ◌++◌, ltb, if◌then◌else◌, arith,
}
use kafka_node_ts.Prelude.Errors.{Result, ok, err, plain_error}
use kafka_node_ts.Text.{JsString}
use kafka_node_ts.JsMap.{same_list, same_list_iff}
use kafka_node_ts.Consumer.{
  TopicPartition, KafkaConsumer, check_usable, has_topic, add_topic, add_all, assignment,
  simulate_rebalance, subscribe, is_assigned, seek,
}
use kafka_node_ts.Consumer.Invariant.{IsUsable}

has_topic-append :
    (t : JsString) (ss : List JsString) (u : JsString)
    → has_topic t (ss ++ u ∷ []) ≡ has_topic t ss || same_list u t
has_topic-append t [] u = ground arith
has_topic-append t (s ∷ ss) u = ground (arith, has_topic-append t ss u)

has_topic-add_topic :
    (t u : JsString) (ss : List JsString)
    → has_topic t (add_topic u ss) ≡ has_topic t ss || same_list u t
has_topic-add_topic t u ss = ground (arith, same_list_iff u t, has_topic-append t ss u)

has_topic-add_all :
    (t : JsString) (ts ss : List JsString)
    → has_topic t (add_all ss ts) ≡ has_topic t ss || has_topic t ts
unfolding add_all
has_topic-add_all t [] ss = ground arith
has_topic-add_all t (u ∷ ts) ss =
    ground (arith, has_topic-add_all t ts (add_topic u ss), has_topic-add_topic t u ss)

-- A topic and its partitions 0, 1 and 2.
abbrev pub is_one_of : List JsString → TopicPartition → Bool
is_one_of topics p = has_topic p.topic topics && ltb p.partition 3

is_assigned-assignment :
    (p : TopicPartition) (ts : List JsString) → is_assigned p (assignment ts) ≡ is_one_of ts p
unfolding is_assigned assignment
is_assigned-assignment p [] = refl
is_assigned-assignment p (t ∷ ts) = ground (arith, is_assigned-assignment p ts)

usable-body {ℓ} :
    {A : Type ℓ} (c : KafkaConsumer) (body : Result A × KafkaConsumer)
    → IsUsable c
    → check_usable c body ≡ body
unfolding check_usable
usable-body {A = A} c body u = rw (u.0, u.1) refl

seek-assigned :
    (topics : List JsString) (p : TopicPartition) (d : KafkaConsumer)
    → IsUsable d
    → d.assigned_partitions ≡ assignment (add_all [] topics)
    → (seek p d).0 ≡ (if is_one_of topics p then ok tt else err plain_error)
unfolding seek
seek-assigned topics p d u e =
    ap (λ (x : Result {0} Unit × KafkaConsumer). x.0) (usable-body d _ u)
    ∙ ap (λ (b : Bool). if b then ok tt else err plain_error)
        (ap (is_assigned p) e
          ∙ is_assigned-assignment p (add_all [] topics)
          ∙ ap (λ (b : Bool). b && ltb p.partition 3) (has_topic-add_all p.topic topics []))

-- On a connected consumer that is not closed: after `subscribe`, whatever was assigned before, `seek`
-- accepts exactly the partitions 0, 1 and 2 of the topics subscribed to, and throws for every other one.
pub seek-subscribe :
    (topics : List JsString) (listener : Option ℕ) (p : TopicPartition) (c : KafkaConsumer)
    → IsUsable c
    → (seek p (subscribe topics listener c).1).0
      ≡ (if is_one_of topics p then ok tt else err plain_error)
unfolding subscribe simulate_rebalance
seek-subscribe topics listener p c u =
    ap (λ (x : Result {0} Unit × KafkaConsumer). (seek p x.1).0) (usable-body c _ u)
    ∙ seek-assigned topics p _ u refl
