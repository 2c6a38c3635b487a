-- ===== src/Consumer.antt =====
-- src/consumer/KafkaConsumer.ts, with TopicPartition.ts and ConsumerRecord.ts: the consumer, which
-- simulates the cluster. The random numbers and the time are arguments. `connect` and `close` wait in
-- the middle: other calls may come before they go on.
pub mod Invariant
pub mod Assignment
pub mod Closing
use kafka_node_ts.Prelude.{
  ℕ, zero, suc, ◌+◌, ◌-◌, ◌==◌, Bool, true, false, not, ◌&&◌, ◌||◌, Option, none, some, List, [],
  ◌∷◌, ◌++◌, map, if◌then◌else◌,
}
use kafka_node_ts.Prelude.Errors.{Error, Result, ok, err, plain_error, ◌>>=◌}
use kafka_node_ts.Text.{JsString}
use kafka_node_ts.JsMap.{same_list}

pub record TopicPartition : Type 0 where
  pub topic : JsString
  pub partition : ℕ

pub record ConsumerRecord : Type 0 where
  pub topic : JsString
  pub partition : ℕ
  pub offset : ℕ
  pub timestamp : ℕ
  pub checksum : ℕ

-- Events, calls of a rebalance listener, by its name, and of the callback of `commitAsync`.
pub data ConsumerOutput : Type 0 where
  emits_ready emits_close : ConsumerOutput
  emits_data : ConsumerRecord → ConsumerOutput
  emits_error : Error → ConsumerOutput
  emits_revoked emits_assigned : List TopicPartition → ConsumerOutput
  calls_revoked calls_assigned : (listener : ℕ) → List TopicPartition → ConsumerOutput
  commit_fails commit_starts : ConsumerOutput

pub record KafkaConsumer : Type 0 where
  pub enable_auto_commit : Bool
  pub is_initialized : Bool
  pub is_closed : Bool
  pub is_running : Bool
  pub rebalance_listener : Option ℕ
  pub assigned_partitions : List TopicPartition
  -- A set, in the order in which its elements were added.
  pub subscriptions : List JsString
  -- Whether the interval of `start` runs.
  pub poll_interval : Bool
  -- The calls of `connect` and of `close` that wait for their delay.
  pub connecting : ℕ
  pub closing : ℕ
  pub outputs : List ConsumerOutput

-- `new KafkaConsumer(config)`
unfoldable pub new_consumer : Bool → KafkaConsumer
new_consumer enable_auto_commit = record {
  enable_auto_commit = enable_auto_commit;
  is_initialized = false;
  is_closed = false;
  is_running = false;
  rebalance_listener = none;
  assigned_partitions = [];
  subscriptions = [];
  poll_interval = false;
  connecting = 0;
  closing = 0;
  outputs = [];
}

abbrev pub put_out : List ConsumerOutput → KafkaConsumer → KafkaConsumer
put_out out c = record c { outputs = c.outputs ++ out }

-- The two checks with which most methods begin.
unfoldable pub check_usable {ℓ} :
    {A : Type ℓ} → KafkaConsumer → Result A × KafkaConsumer → Result A × KafkaConsumer
check_usable c body =
    if not c.is_initialized
    then (err plain_error, c)
    else if c.is_closed
    then (err plain_error, c)
    else body

-- `connect`, up to its delay, and from there on.
unfoldable pub connect_consumer : KafkaConsumer → KafkaConsumer
connect_consumer c = if c.is_initialized then c else record c { connecting = c.connecting + 1 }

unfoldable pub on_connected : KafkaConsumer → KafkaConsumer
on_connected c =
    put_out (emits_ready ∷ []) (record c { is_initialized = true; connecting = c.connecting - 1 })

abbrev pub has_topic : JsString → List JsString → Bool
has_topic t [] = false
has_topic t (s ∷ ss) = same_list s t || has_topic t ss

-- `this.subscriptions.add(topic)`
abbrev pub add_topic : JsString → List JsString → List JsString
add_topic t ss = if has_topic t ss then ss else ss ++ t ∷ []

unfoldable pub add_all : List JsString → List JsString → List JsString
add_all ss [] = ss
add_all ss (t ∷ ts) = add_all (add_topic t ss) ts

abbrev pub call_listener : Option ℕ → (ℕ → ConsumerOutput) → List ConsumerOutput
call_listener none call = []
call_listener (some listener) call = call listener ∷ []

-- The revocation of what is assigned, if anything is; an error of the listener is only logged.
abbrev pub revoke : Option ℕ → List TopicPartition → List ConsumerOutput
revoke listener [] = []
revoke listener (p ∷ ps) =
    call_listener listener (λ l. calls_revoked l (p ∷ ps)) ++ (emits_revoked (p ∷ ps) ∷ [])

abbrev pub three_of : JsString → List TopicPartition
three_of topic =
    record { topic = topic; partition = 0 }
    ∷ record { topic = topic; partition = 1 }
    ∷ record { topic = topic; partition = 2 }
    ∷ []

-- Three partitions for each topic.
unfoldable pub assignment : List JsString → List TopicPartition
assignment [] = []
assignment (topic ∷ topics) = three_of topic ++ assignment topics

unfoldable pub simulate_rebalance : KafkaConsumer → KafkaConsumer
simulate_rebalance c =
    let assigned = assignment c.subscriptions in
    put_out
      (revoke c.rebalance_listener c.assigned_partitions
        ++ (call_listener c.rebalance_listener (λ l. calls_assigned l assigned)
            ++ (emits_assigned assigned ∷ [])))
      (record c { assigned_partitions = assigned })

abbrev pub or_listener : Option ℕ → Option ℕ → Option ℕ
or_listener none old = old
or_listener (some l) old = some l

unfoldable pub subscribe :
    List JsString → Option ℕ → KafkaConsumer → Result {0} Unit × KafkaConsumer
subscribe topics listener c = check_usable c (
  ok tt,
  simulate_rebalance (record c {
    subscriptions = add_all [] topics;
    rebalance_listener = or_listener listener c.rebalance_listener;
  }),
)

unfoldable pub assign : List TopicPartition → KafkaConsumer → Result {0} Unit × KafkaConsumer
assign partitions c =
    check_usable c (ok tt, record c { subscriptions = []; assigned_partitions = partitions })

abbrev pub tell_revoked : Option ℕ → List TopicPartition → List ConsumerOutput
tell_revoked listener [] = []
tell_revoked listener (p ∷ ps) = call_listener listener (λ l. calls_revoked l (p ∷ ps))

unfoldable pub unsubscribe : KafkaConsumer → KafkaConsumer
unsubscribe c =
    let cleared =
      put_out (tell_revoked c.rebalance_listener c.assigned_partitions)
        (record c { subscriptions = []; assigned_partitions = [] }) in
    if c.is_initialized then cleared else c

unfoldable pub start : KafkaConsumer → Result {0} Unit × KafkaConsumer
start c =
    check_usable c
      (ok tt, if c.is_running then c else record c { is_running = true; poll_interval = true })

unfoldable pub stop : KafkaConsumer → KafkaConsumer
stop c = if c.is_running then record c { poll_interval = false; is_running = false } else c

abbrev pub nothing_done : KafkaConsumer → Result {0} Unit × KafkaConsumer
nothing_done c = (ok tt, c)

-- `commitSync` only logs.
unfoldable pub commit_sync : KafkaConsumer → Result {0} Unit × KafkaConsumer
commit_sync c = check_usable c (nothing_done c)

-- `commitAsync` tells the callback, if there is one, that it fails, or starts the timer that tells it
-- the offsets.
unfoldable pub commit_async : Bool → KafkaConsumer → KafkaConsumer
commit_async has_callback c =
    let failed = if has_callback then put_out (commit_fails ∷ []) c else c in
    let started = put_out (commit_starts ∷ []) c in
    if not c.is_initialized then failed else if c.is_closed then failed else started

-- The random numbers for one record: which partition, its offset, its age, its checksum.
pub record Draw : Type 0 where
  pub index : ℕ
  pub offset : ℕ
  pub age : ℕ
  pub checksum : ℕ

abbrev pub nth_partition : ℕ → List TopicPartition → Option TopicPartition
nth_partition i [] = none
nth_partition zero (p ∷ ps) = some p
nth_partition (suc i) (p ∷ ps) = nth_partition i ps

-- Reading the topic of `undefined` would throw.
abbrev pub mock_record : ℕ → Draw → Option TopicPartition → Result ConsumerRecord
mock_record now d none = err plain_error
mock_record now d (some p) = ok (record {
  topic = p.topic;
  partition = p.partition;
  offset = d.offset;
  timestamp = now - d.age;
  checksum = d.checksum;
})

-- One record for each draw.
unfoldable pub mock_records : ℕ → List Draw → List TopicPartition → Result (List ConsumerRecord)
mock_records now [] assigned = ok []
mock_records now (d ∷ ds) assigned = do
  record' ← mock_record now d (nth_partition d.index assigned)
  records ← mock_records now ds assigned
  ok (record' ∷ records)

abbrev pub commit_after :
    Result {0} Unit × KafkaConsumer
    → List ConsumerRecord
    → Result (List ConsumerRecord) × KafkaConsumer
commit_after (ok u, c) records = (ok records, c)
commit_after (err e, c) records = (err e, put_out (emits_error e ∷ []) c)

abbrev pub deliver :
    Result (List ConsumerRecord) → KafkaConsumer → Result (List ConsumerRecord) × KafkaConsumer
deliver (err e) c = (err e, put_out (emits_error e ∷ []) c)
deliver (ok records) c =
    let emitted = put_out (map emits_data records) c in
    if c.enable_auto_commit
    then commit_after (commit_sync emitted) records
    else (ok records, emitted)

abbrev pub is_none : List TopicPartition → Bool
is_none [] = true
is_none (p ∷ ps) = false

-- `poll`
unfoldable pub poll : ℕ → List Draw → KafkaConsumer → Result (List ConsumerRecord) × KafkaConsumer
poll now draws c = check_usable c (
    let delivered = deliver (mock_records now draws c.assigned_partitions) c in
    if is_none c.assigned_partitions then (ok [], c) else delivered)

-- `this.assignedPartitions.some(p => ...)`
unfoldable pub is_assigned : TopicPartition → List TopicPartition → Bool
is_assigned p [] = false
is_assigned p (q ∷ qs) =
    (same_list q.topic p.topic && q.partition == p.partition) || is_assigned p qs

-- `seek` only logs.
unfoldable pub seek : TopicPartition → KafkaConsumer → Result {0} Unit × KafkaConsumer
seek p c =
    check_usable c (if is_assigned p c.assigned_partitions then ok tt else err plain_error, c)

-- `seekToBeginning` and `seekToEnd` only log.
unfoldable pub seek_to_beginning : KafkaConsumer → Result {0} Unit × KafkaConsumer
seek_to_beginning c = check_usable c (nothing_done c)

unfoldable pub seek_to_end : KafkaConsumer → Result {0} Unit × KafkaConsumer
seek_to_end c = check_usable c (nothing_done c)

-- `position` returns a random offset.
unfoldable pub position : ℕ → TopicPartition → KafkaConsumer → Result ℕ × KafkaConsumer
position random p c =
    check_usable c (if is_assigned p c.assigned_partitions then ok random else err plain_error, c)

-- `close`, up to its delay, and from there on.
unfoldable pub close_consumer : KafkaConsumer → KafkaConsumer
close_consumer c =
    if c.is_closed then c else record (unsubscribe (stop c)) { closing = c.closing + 1 }

unfoldable pub on_closed : KafkaConsumer → KafkaConsumer
on_closed c = put_out (emits_close ∷ []) (record c { is_closed = true; closing = c.closing - 1 })
