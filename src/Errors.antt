-- ===== src/Errors.antt =====
-- src/errors/KafkaError.ts: the classes of errors, and the error for a code of the protocol.
pub mod Codes
pub mod Laws
use kafka_node_ts.Prelude.{ℕ, Bool, Option, none, some, List, [], ◌∷◌, ◌++◌, ◌==◌, if◌then◌else◌}
use kafka_node_ts.Prelude.Int.{ℤ, pos, negsuc}
use kafka_node_ts.Text.{JsString}
use kafka_node_ts.Text.Literals.{codes}
use kafka_node_ts.ClusterMetadata.Changes.{number_string}

-- `error` is JavaScript's own class.
pub data ErrorClass : Type 0 where
  error kafka_error disconnected_error timeout_error broker_error leader_not_available_error :
      ErrorClass
  topic_not_exists_error partition_not_exists_error offset_out_of_range_error : ErrorClass
  group_coordinator_not_available_error rebalance_in_progress_error authorization_error : ErrorClass
  authentication_error : ErrorClass

pub record KafkaErrorObject : Type 0 where
  pub class : ErrorClass
  pub message : JsString
  -- The field of `BrokerError`.
  pub error_code : Option ℤ

-- `this.name`
abbrev pub name_of : ErrorClass → JsString
name_of error = codes "Error"
name_of kafka_error = codes "KafkaError"
name_of disconnected_error = codes "DisconnectedError"
name_of timeout_error = codes "TimeoutError"
name_of broker_error = codes "BrokerError"
name_of leader_not_available_error = codes "LeaderNotAvailableError"
name_of topic_not_exists_error = codes "TopicNotExistsError"
name_of partition_not_exists_error = codes "PartitionNotExistsError"
name_of offset_out_of_range_error = codes "OffsetOutOfRangeError"
name_of group_coordinator_not_available_error = codes "GroupCoordinatorNotAvailableError"
name_of rebalance_in_progress_error = codes "RebalanceInProgressError"
name_of authorization_error = codes "AuthorizationError"
name_of authentication_error = codes "AuthenticationError"

-- `message || text`
abbrev pub or_text : Option JsString → JsString → JsString
or_text none text = text
or_text (some []) text = text
or_text (some (u ∷ s)) text = u ∷ s

-- The cases of the switch: a code, a class and a text.
pub record Case : Type 0 where
  pub code : ℕ
  pub class : ErrorClass
  pub text : JsString

abbrev pub on_code : ℕ → ErrorClass → JsString → Case
on_code code class text = record { code = code; class = class; text = text }

abbrev pub all_cases : List Case
all_cases =
    on_code 1 error (codes "Unknown Server Error")
    ∷ on_code 2 offset_out_of_range_error (codes "Offset out of range")
    ∷ on_code 3 kafka_error (codes "Corrupt message")
    ∷ on_code 4 kafka_error (codes "Unknown topic or partition")
    ∷ on_code 5 kafka_error (codes "Invalid message")
    ∷ on_code 6 leader_not_available_error (codes "Leader not available")
    ∷ on_code 7 kafka_error (codes "Request timed out")
    ∷ on_code 8 kafka_error (codes "Broker not available")
    ∷ on_code 9 kafka_error (codes "Replica not available")
    ∷ on_code 10 kafka_error (codes "Message too large")
    ∷ on_code 11 kafka_error (codes "Stale controller epoch")
    ∷ on_code 12 kafka_error (codes "Offset metadata too large")
    ∷ on_code 13 kafka_error (codes "Network exception")
    ∷ on_code 14 kafka_error (codes "Coordinator load in progress")
    ∷ on_code 15 group_coordinator_not_available_error (codes "Coordinator not available")
    ∷ on_code 16 kafka_error (codes "Not coordinator")
    ∷ on_code 17 kafka_error (codes "Invalid topic exception")
    ∷ on_code 18 kafka_error (codes "Record list too large")
    ∷ on_code 19 kafka_error (codes "Not enough replicas")
    ∷ on_code 20 kafka_error (codes "Not enough replicas after append")
    ∷ on_code 21 kafka_error (codes "Invalid required acks")
    ∷ on_code 22 kafka_error (codes "Illegal generation")
    ∷ on_code 23 kafka_error (codes "Inconsistent group protocol")
    ∷ on_code 24 kafka_error (codes "Invalid group id")
    ∷ on_code 25 kafka_error (codes "Unknown member id")
    ∷ on_code 26 kafka_error (codes "Invalid session timeout")
    ∷ on_code 27 rebalance_in_progress_error (codes "Rebalance in progress")
    ∷ on_code 28 kafka_error (codes "Invalid commit offset size")
    ∷ on_code 29 kafka_error (codes "Topic authorization failed")
    ∷ on_code 30 kafka_error (codes "Group authorization failed")
    ∷ on_code 31 kafka_error (codes "Cluster authorization failed")
    ∷ on_code 32 kafka_error (codes "Invalid timestamp")
    ∷ on_code 33 kafka_error (codes "Unsupported SASL mechanism")
    ∷ on_code 34 kafka_error (codes "Illegal SASL state")
    ∷ on_code 35 kafka_error (codes "Unsupported version")
    ∷ on_code 36 topic_not_exists_error (codes "Topic does not exist")
    ∷ on_code 37 kafka_error (codes "Unknown topic ID")
    ∷ []

unfoldable pub find_case : ℕ → List Case → Option Case
find_case n [] = none
find_case n (c ∷ cs) = if c.code == n then some c else find_case n cs

abbrev pub unknown_code : ℤ → Option JsString → KafkaErrorObject
unknown_code code message = record {
  class = broker_error;
  message = or_text message (codes "Unknown error code: " ++ number_string code);
  error_code = some code;
}

abbrev pub error_of : ℤ → Option JsString → Option Case → KafkaErrorObject
error_of code message none = unknown_code code message
error_of code message (some c) = record {
  class = c.class;
  message = or_text message c.text;
  error_code = none;
}

-- `fromErrorCode`; no error is null.
unfoldable pub from_error_code : ℤ → Option JsString → Option KafkaErrorObject
unfolding find_case
from_error_code (pos n) message =
    if n == 0 then none else some (error_of (pos n) message (find_case n all_cases))
from_error_code (negsuc n) message = some (unknown_code (negsuc n) message)
