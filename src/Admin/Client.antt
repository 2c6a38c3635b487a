-- ===== src/Admin/Client.antt =====
-- src/admin/AdminClient.ts: the client with its calls in flight. A call runs to its first `await` of a
-- delay, and goes on when the timer of that delay fires; the timers may fire in any order. The calls are
-- numbered, and the promise of a call goes by the call's number. The callers' listeners are not followed.
pub mod Counting
pub mod Invariant
pub mod Settling
use kafka_node_ts.Prelude.{
  ℕ, zero, suc, ◌+◌, Bool, true, false, Option, none, some, List, [], ◌∷◌, ◌++◌, if◌then◌else◌,
}
use kafka_node_ts.Prelude.Errors.{Error, plain_error}
use kafka_node_ts.Text.{JsString}
use kafka_node_ts.JsMap.{JsMap}
use kafka_node_ts.Admin.NewTopic.{NewTopic}
use kafka_node_ts.Admin.NewPartitions.{NewPartitions}
use kafka_node_ts.Admin.Config.{ConfigResource}
use kafka_node_ts.Admin.Operations.{
  CreateTopicsResult, DeleteTopicsResult, CreatePartitionsResult, ListTopicsResult,
  DescribeTopicsResult, AlterConfigEntry, AlterConfigsResult, DescribeConfigsResult, create_topics,
  delete_topics, create_partitions, list_topics, describe_topics, alter_configs, describe_configs,
}

-- The methods that ask the cluster, with their arguments.
pub data Operation : Type 0 where
  creates_topics : List NewTopic → Operation
  deletes_topics : List JsString → Operation
  creates_partitions : JsMap JsString NewPartitions → Operation
  lists_topics : (list_internal : Bool) → Operation
  describes_topics : List JsString → (include_operations : Bool) → Operation
  alters_configs : JsMap ℕ (List AlterConfigEntry) → Operation
  describes_configs : (ℕ → ConfigResource) → List ℕ → Operation

pub data Answer : Type 0 where
  nothing : Answer
  topics_created : JsMap JsString CreateTopicsResult → Answer
  topics_deleted : JsMap JsString DeleteTopicsResult → Answer
  partitions_created : JsMap JsString CreatePartitionsResult → Answer
  topics_listed : ListTopicsResult → Answer
  topics_described : JsMap JsString DescribeTopicsResult → Answer
  configs_altered : JsMap ℕ AlterConfigsResult → Answer
  configs_described : JsMap ℕ DescribeConfigsResult → Answer

abbrev pub answer_to : Operation → Answer
answer_to (creates_topics topics) = topics_created (create_topics topics)
answer_to (deletes_topics topics) = topics_deleted (delete_topics topics)
answer_to (creates_partitions partitions) = partitions_created (create_partitions partitions)
answer_to (lists_topics list_internal) = topics_listed (list_topics list_internal)
answer_to (describes_topics names include_operations) =
    topics_described (describe_topics names include_operations)
answer_to (alters_configs changes) = configs_altered (alter_configs changes)
answer_to (describes_configs resource_at resources) =
    configs_described (describe_configs resource_at resources)

-- Events, and the settling of the promise of a call.
pub data AdminOutput : Type 0 where
  emits_ready emits_close : AdminOutput
  resolves : (call : ℕ) → Answer → AdminOutput
  rejects : (call : ℕ) → Error → AdminOutput

-- Where a call goes on when its timer fires: in `connect`, called for itself or by `ensureConnected`
-- in front of an operation; in `close`; behind the delay of an operation.
pub data Continuation : Type 0 where
  in_connect in_close : Continuation
  in_ensure_connected : Operation → Continuation
  in_operation : Operation → Continuation

pub record Waiting : Type 0 where
  pub call : ℕ
  pub continuation : Continuation

pub record AdminClient : Type 0 where
  pub is_initialized : Bool
  pub is_closed : Bool
  -- How many calls there were.
  pub calls : ℕ
  -- The calls that wait for a timer.
  pub waiting : List Waiting
  pub outputs : List AdminOutput

-- `new AdminClient(config)`
abbrev pub new_admin_client : AdminClient
new_admin_client = record {
  is_initialized = false;
  is_closed = false;
  calls = 0;
  waiting = [];
  outputs = [];
}

abbrev pub put_out : List AdminOutput → AdminClient → AdminClient
put_out out c = record c { outputs = c.outputs ++ out }

abbrev pub wait : ℕ → Continuation → AdminClient → AdminClient
wait call continuation c = record c {
  waiting = c.waiting ++ record { call = call; continuation = continuation } ∷ [];
}

-- A call with its number, counted.
abbrev pub counted : (ℕ → AdminClient → AdminClient) → AdminClient → AdminClient
counted body c = body c.calls (record c { calls = suc c.calls })

-- `connect`
unfoldable pub connect_admin : AdminClient → AdminClient
connect_admin = counted λ call c.
    if c.is_initialized then put_out (resolves call nothing ∷ []) c else wait call in_connect c

-- `close`
unfoldable pub close_admin : AdminClient → AdminClient
close_admin =
    counted
      λ call c. if c.is_closed then put_out (resolves call nothing ∷ []) c else wait call in_close c

-- A method that asks the cluster: `ensureConnected` in front, then the operation's own delay.
unfoldable pub request_operation : Operation → AdminClient → AdminClient
request_operation operation = counted λ call c.
    if c.is_closed
    then put_out (rejects call plain_error ∷ []) c
    else if c.is_initialized
    then wait call (in_operation operation) c
    else wait call (in_ensure_connected operation) c

-- What `connect` does behind its delay.
abbrev pub on_connected : AdminClient → AdminClient
on_connected c = put_out (emits_ready ∷ []) (record c { is_initialized = true })

unfoldable pub resume : Waiting → AdminClient → AdminClient
resume w c = elim w.continuation [
  | in_connect ↦ put_out (resolves w.call nothing ∷ []) (on_connected c)
  | in_close ↦ put_out (emits_close ∷ resolves w.call nothing ∷ []) (record c { is_closed = true })
  | in_ensure_connected operation ↦ wait w.call (in_operation operation) (on_connected c)
  | in_operation operation ↦ put_out (resolves w.call (answer_to operation) ∷ []) c
]

-- The timer of the call that waits at place `i` fires.
abbrev pub nth_waiting : ℕ → List Waiting → Option Waiting
nth_waiting i [] = none
nth_waiting zero (w ∷ ws) = some w
nth_waiting (suc i) (w ∷ ws) = nth_waiting i ws

abbrev pub without_nth : ℕ → List Waiting → List Waiting
without_nth i [] = []
without_nth zero (w ∷ ws) = ws
without_nth (suc i) (w ∷ ws) = w ∷ without_nth i ws

unfoldable pub on_timer : ℕ → AdminClient → AdminClient
on_timer i c = elim (nth_waiting i c.waiting) [
  | none ↦ c
  | some w ↦ resume w (record c { waiting = without_nth i c.waiting })
]

-- `AdminClient.create`: the promise is that of `connect`.
abbrev pub create_admin : AdminClient
create_admin = connect_admin new_admin_client
