-- ===== src/Consumer/Invariant.antt =====
-- src/consumer/KafkaConsumer.ts: the calls of the methods and the ends of their delays in any order, and
-- what holds of the consumer after them.
use kafka_node_ts.Prelude.{
  ℕ, ◌≡◌, refl, Bool, true, false, not, ◌⊎◌, inl, inr, if_cases, if_known, map, Option, List, [],
  ◌∷◌, ◌==◌, if◌then◌else◌,
}
use kafka_node_ts.Prelude.Errors.{Result, ok, err}
use kafka_node_ts.Text.{JsString}
use kafka_node_ts.Consumer.{
  TopicPartition, ConsumerRecord, ConsumerOutput, emits_data, commit_fails, KafkaConsumer,
  assignment, on_connected, on_closed, Draw, new_consumer, put_out, check_usable, connect_consumer,
  simulate_rebalance, subscribe, assign, unsubscribe, start, stop, commit_sync, commit_async,
  commit_after, deliver, is_none, poll, seek, seek_to_beginning, seek_to_end, position,
  close_consumer,
}

-- A call of a method, or the end of a delay of `connect` or of `close`.
pub data Call : Type 0 where
  connects connect_waited close_waited unsubscribes starts stops closes commits seeks_beginning
        seeks_end :
      Call
  subscribes : List JsString → Option ℕ → Call
  assigns : List TopicPartition → Call
  polls : ℕ → List Draw → Call
  commits_async : Bool → Call
  seeks : TopicPartition → Call
  asks_position : ℕ → TopicPartition → Call

unfoldable pub step : Call → KafkaConsumer → KafkaConsumer
step connects c = connect_consumer c
step connect_waited c = if 0 == c.connecting then c else on_connected c
step close_waited c = if 0 == c.closing then c else on_closed c
step unsubscribes c = unsubscribe c
step starts c = (start c).1
step stops c = stop c
step closes c = close_consumer c
step commits c = (commit_sync c).1
step seeks_beginning c = (seek_to_beginning c).1
step seeks_end c = (seek_to_end c).1
step (subscribes topics listener) c = (subscribe topics listener c).1
step (assigns ps) c = (assign ps c).1
step (polls now draws) c = (poll now draws c).1
step (commits_async callback) c = commit_async callback c
step (seeks p) c = (seek p c).1
step (asks_position random p) c = (position random p c).1

-- The calls that change no field of the consumer.
abbrev pub OnlyTells : Call → Type 0
OnlyTells commits = Unit
OnlyTells seeks_beginning = Unit
OnlyTells seeks_end = Unit
OnlyTells (polls now draws) = Unit
OnlyTells (commits_async callback) = Unit
OnlyTells (seeks p) = Unit
OnlyTells (asks_position random p) = Unit
OnlyTells _ = ⊥

-- Every consumer that calls lead to from a new one.
pub data Reachable : KafkaConsumer → Type 0 where
  new : (auto_commit : Bool) → Reachable (new_consumer auto_commit)
  after : (call : Call) {c : KafkaConsumer} → Reachable c → Reachable (step call c)

-- Connected, and not closed.
abbrev pub IsUsable : KafkaConsumer → Type 0
IsUsable c = (c.is_initialized ≡ true) × (c.is_closed ≡ false)

-- Not polling, with nothing assigned and no subscription.
abbrev pub IsIdle : KafkaConsumer → Type 0
IsIdle c = (c.is_running ≡ false) × (c.assigned_partitions ≡ []) × (c.subscriptions ≡ [])

-- What is assigned is what the subscriptions give, unless there are none.
abbrev pub IsAssigned : KafkaConsumer → Type 0
IsAssigned c = (c.subscriptions ≡ []) ⊎ (c.assigned_partitions ≡ assignment c.subscriptions)

pub record IsValid (c : KafkaConsumer) : Type 0 where
  pub polls : c.poll_interval ≡ c.is_running
  pub connected : (c.is_initialized ≡ true) ⊎ IsIdle c
  pub assigned : IsAssigned c

-- What a method does to a consumer that is usable, and leaves a consumer that is not.
check_usable-kept {ℓ} :
    {A : Type ℓ} (c : KafkaConsumer) (body : Result A × KafkaConsumer)
    → IsValid c
    → (IsUsable c → IsValid body.1)
    → IsValid (check_usable c body).1
unfolding check_usable
check_usable-kept {A = A} c body v h =
    if_known (λ (x : Result A × KafkaConsumer). IsValid x.1) (not c.is_initialized) (λ e. v)
      (λ e.
        if_known (λ (x : Result A × KafkaConsumer). IsValid x.1) c.is_closed (λ f. v)
          (λ f. h (not_false c.is_initialized e, f)))
  where
    not_false : (b : Bool) → not b ≡ false → b ≡ true
    not_false true e = refl
    not_false false e = absurd (cc e)

module _ (c : KafkaConsumer) (v : IsValid c) where
  on_connected-IsValid : IsValid (on_connected c)
  unfolding on_connected
  on_connected-IsValid = record { polls = v.polls; connected = inl refl; assigned = v.assigned }

  connect_consumer-IsValid : IsValid (connect_consumer c)
  unfolding connect_consumer
  connect_consumer-IsValid =
      if_cases IsValid c.is_initialized v
        (record { polls = v.polls; connected = v.connected; assigned = v.assigned })

  on_closed-IsValid : IsValid (on_closed c)
  unfolding on_closed
  on_closed-IsValid = record { polls = v.polls; connected = v.connected; assigned = v.assigned }

  subscribe-IsValid : (topics : List JsString) (l : Option ℕ) → IsValid (subscribe topics l c).1
  unfolding subscribe simulate_rebalance
  subscribe-IsValid topics l =
      check_usable-kept c _ v
        (λ u. record { polls = v.polls; connected = inl u.0; assigned = inr refl })

  assign-IsValid : (ps : List TopicPartition) → IsValid (assign ps c).1
  unfolding assign
  assign-IsValid ps =
      check_usable-kept c _ v
        (λ u. record { polls = v.polls; connected = inl u.0; assigned = inl refl })

  unsubscribe-IsValid : IsValid (unsubscribe c)
  unfolding unsubscribe
  unsubscribe-IsValid =
      if_cases IsValid c.is_initialized
        (record {
          polls = v.polls;
          connected = elim v.connected [ inl u ↦ inl u | inr i ↦ inr (i.0, refl, refl) ];
          assigned = inl refl;
        })
        v

  start-IsValid : IsValid (start c).1
  unfolding start
  start-IsValid = check_usable-kept c _ v (λ u.
      if_cases IsValid c.is_running v
        (record { polls = refl; connected = inl u.0; assigned = v.assigned }))

  pub stop-IsValid : IsValid (stop c)
  unfolding stop
  stop-IsValid =
      if_cases IsValid c.is_running
        (record {
          polls = refl;
          connected = elim v.connected [ inl u ↦ inl u | inr i ↦ inr (refl, i.1, i.2) ];
          assigned = v.assigned;
        })
        v

-- A property that does not depend on what was put out, is kept by the methods that only put out.
module _ (P : KafkaConsumer → Type 0)
    (told : (c : KafkaConsumer) (out : List ConsumerOutput) → P c → P (put_out out c)) where
  checked :
      {A : Type 0} (c : KafkaConsumer) (body : Result A × KafkaConsumer)
      → P c
      → P body.1
      → P (check_usable c body).1
  unfolding check_usable
  checked {A = A} c body v w =
      if_cases (λ (x : Result A × KafkaConsumer). P x.1) (not c.is_initialized) v
        (if_cases (λ (x : Result A × KafkaConsumer). P x.1) c.is_closed v w)

  commit_sync-kept : (c : KafkaConsumer) → P c → P (commit_sync c).1
  unfolding commit_sync
  commit_sync-kept c v = checked c _ v v

  pub commit_async-kept : (callback : Bool) (c : KafkaConsumer) → P c → P (commit_async callback c)
  unfolding commit_async
  commit_async-kept callback c v =
      let failed : P (if callback then put_out (commit_fails ∷ []) c else c) =
        if_cases P callback (told c _ v) v in
      if_cases P (not c.is_initialized) failed (if_cases P c.is_closed failed (told c _ v))

  commit_after-kept :
      (x : Result {0} Unit × KafkaConsumer) (rs : List ConsumerRecord)
      → P x.1
      → P (commit_after x rs).1
  commit_after-kept (ok u, c) rs v = v
  commit_after-kept (err e, c) rs v = told c _ v

  deliver-kept : (r : Result (List ConsumerRecord)) (c : KafkaConsumer) → P c → P (deliver r c).1
  deliver-kept (err e) c v = told c _ v
  deliver-kept (ok rs) c v =
      if_cases (λ (x : Result (List ConsumerRecord) × KafkaConsumer). P x.1) c.enable_auto_commit
        (commit_after-kept (commit_sync (put_out (map emits_data rs) c)) rs
          (commit_sync-kept (put_out (map emits_data rs) c) (told c _ v)))
        (told c _ v)

  pub poll-kept : (now : ℕ) (draws : List Draw) (c : KafkaConsumer) → P c → P (poll now draws c).1
  unfolding poll
  poll-kept now draws c v = checked c _ v (
      if_cases (λ (x : Result (List ConsumerRecord) × KafkaConsumer). P x.1)
        (is_none c.assigned_partitions) v (deliver-kept _ c v))

  pub step-kept : (call : Call) (c : KafkaConsumer) → OnlyTells call → P c → P (step call c)
  unfolding step seek_to_beginning seek_to_end seek position
  step-kept connects c h v = absurd h
  step-kept connect_waited c h v = absurd h
  step-kept close_waited c h v = absurd h
  step-kept unsubscribes c h v = absurd h
  step-kept starts c h v = absurd h
  step-kept stops c h v = absurd h
  step-kept closes c h v = absurd h
  step-kept (subscribes topics l) c h v = absurd h
  step-kept (assigns ps) c h v = absurd h
  step-kept commits c h v = commit_sync-kept c v
  step-kept seeks_beginning c h v = checked c _ v v
  step-kept seeks_end c h v = checked c _ v v
  step-kept (polls now draws) c h v = poll-kept now draws c v
  step-kept (commits_async callback) c h v = commit_async-kept callback c v
  step-kept (seeks p) c h v = checked c _ v v
  step-kept (asks_position random p) c h v = checked c _ v v

told-IsValid : (c : KafkaConsumer) (out : List ConsumerOutput) → IsValid c → IsValid (put_out out c)
told-IsValid c out v = record { polls = v.polls; connected = v.connected; assigned = v.assigned }

close_consumer-IsValid : (c : KafkaConsumer) → IsValid c → IsValid (close_consumer c)
unfolding close_consumer
close_consumer-IsValid c v =
    let u = unsubscribe-IsValid (stop c) (stop-IsValid c v) in
    if_cases IsValid c.is_closed v
      (record { polls = u.polls; connected = u.connected; assigned = u.assigned })

step-IsValid : (call : Call) (c : KafkaConsumer) → IsValid c → IsValid (step call c)
unfolding step
step-IsValid connects c v = connect_consumer-IsValid c v
step-IsValid connect_waited c v = if_cases IsValid (0 == c.connecting) v (on_connected-IsValid c v)
step-IsValid close_waited c v = if_cases IsValid (0 == c.closing) v (on_closed-IsValid c v)
step-IsValid unsubscribes c v = unsubscribe-IsValid c v
step-IsValid starts c v = start-IsValid c v
step-IsValid stops c v = stop-IsValid c v
step-IsValid closes c v = close_consumer-IsValid c v
step-IsValid (subscribes topics l) c v = subscribe-IsValid c v topics l
step-IsValid (assigns ps) c v = assign-IsValid c v ps
step-IsValid commits c v = step-kept IsValid told-IsValid commits c tt v
step-IsValid seeks_beginning c v = step-kept IsValid told-IsValid seeks_beginning c tt v
step-IsValid seeks_end c v = step-kept IsValid told-IsValid seeks_end c tt v
step-IsValid (polls now draws) c v = step-kept IsValid told-IsValid (polls now draws) c tt v
step-IsValid (commits_async b) c v = step-kept IsValid told-IsValid (commits_async b) c tt v
step-IsValid (seeks p) c v = step-kept IsValid told-IsValid (seeks p) c tt v
step-IsValid (asks_position r p) c v = step-kept IsValid told-IsValid (asks_position r p) c tt v

-- On every consumer that comes of a new one by calls and by the ends of the delays of `connect` and
-- `close`, in any order: the interval runs exactly while the consumer is marked as running; before it
-- is connected it does not poll and has nothing assigned and no subscription; and if it has
-- subscriptions, then the partitions assigned are the three of each topic subscribed to, in order.
pub reachable_consumer-IsValid : (c : KafkaConsumer) → Reachable c → IsValid c
unfolding new_consumer
reachable_consumer-IsValid _ (new auto_commit) = record {
  polls = refl;
  connected = inr (refl, refl, refl);
  assigned = inl refl;
}
reachable_consumer-IsValid _ (after call {c = d} r) =
    step-IsValid call d (reachable_consumer-IsValid d r)
