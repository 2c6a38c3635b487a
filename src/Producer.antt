-- ===== src/Producer.antt =====
-- src/producer/KafkaProducer.ts: the producer, which simulates the cluster. The random numbers and the
-- time are arguments.
pub mod Laws
use kafka_node_ts.Prelude.{
  ℕ, zero, suc, ◌+◌, ◌-◌, ◌*◌, ◌/◌, ◌%◌, ◌^◌, Bool, true, false, not, Option, none, some, List, [],
  ◌∷◌, ◌++◌, ltb, if◌then◌else◌,
}
use kafka_node_ts.Prelude.Int.{ℤ, pos, negsuc, ◌+ℤ◌, ◌-ℤ◌}
use kafka_node_ts.Prelude.Errors.{Error, Result, ok, err, plain_error}
use kafka_node_ts.Text.{JsString}

-- A record to send; the key is what `String(record.key)` gives, and `none` stands for a key that is
-- null or undefined.
pub record ProducerRecord : Type 0 where
  pub topic : JsString
  pub partition : Option ℕ
  pub timestamp : Option ℕ
  pub key : Option JsString

pub record RecordMetadata : Type 0 where
  pub topic : JsString
  pub partition : ℕ
  pub offset : ℕ
  pub timestamp : ℕ

-- What the producer does outside: events, and the calls of `callback.onCompletion`.
pub data ProducerOutput : Type 0 where
  emits_ready emits_close : ProducerOutput
  completes : Result RecordMetadata → ProducerOutput

pub record KafkaProducer : Type 0 where
  pub is_initialized : Bool
  pub is_closed : Bool
  pub outputs : List ProducerOutput

abbrev pub new_producer : KafkaProducer
new_producer = record { is_initialized = false; is_closed = false; outputs = [] }

abbrev pub put_out : ProducerOutput → KafkaProducer → KafkaProducer
put_out o p = record p { outputs = p.outputs ++ o ∷ [] }

-- `connect`
unfoldable pub connect_producer : KafkaProducer → KafkaProducer
connect_producer p =
    if p.is_initialized then p else put_out emits_ready (record p { is_initialized = true })

-- `x | 0`: the 32-bit integer that is congruent to `x`.
unfoldable pub of_pattern_32 : ℕ → ℤ
of_pattern_32 u = if ltb u (2 ^ 31) then pos u else negsuc (2 ^ 32 - 1 - u)

unfoldable pub pattern_32 : ℤ → ℕ
pattern_32 (pos n) = n % 2 ^ 32
pattern_32 (negsuc n) = 2 ^ 32 - 1 - n % 2 ^ 32

unfoldable pub to_int_32 : ℤ → ℤ
to_int_32 x = of_pattern_32 (pattern_32 x)

-- `hash << 5`
unfoldable pub shift_left_5 : ℤ → ℤ
shift_left_5 x = of_pattern_32 (pattern_32 x * 32 % 2 ^ 32)

-- `hash = ((hash << 5) - hash) + keyStr.charCodeAt(i); hash |= 0`
unfoldable pub hash_from : ℤ → JsString → ℤ
hash_from hash [] = hash
hash_from hash (u ∷ s) = hash_from (to_int_32 (shift_left_5 hash -ℤ hash +ℤ pos u)) s

abbrev pub abs : ℤ → ℕ
abs (pos n) = n
abs (negsuc n) = n + 1

-- `calculatePartition`; `Math.floor(Math.random() * 10)` is a random number below 10.
unfoldable pub calculate_partition : (random : ℕ) → Option JsString → ℕ
calculate_partition random none = random
calculate_partition random (some key) = abs (hash_from (pos 0) key) % 10

abbrev pub or_value : Option ℕ → ℕ → ℕ
or_value none other = other
or_value (some n) other = n

-- A callback, by what its `onCompletion` throws, if anything, for each way to end.
abbrev pub Callback : Type 0
Callback = Result RecordMetadata → Option Error

abbrev pub thrown_or : Option Error → Error → Error
thrown_or none error = error
thrown_or (some other) error = other

-- `if (callback) callback.onCompletion(error, null); throw error`
abbrev pub refuse : Option Callback → Error → KafkaProducer → Result RecordMetadata × KafkaProducer
refuse none error p = (err error, p)
refuse (some callback) error p =
    (err (thrown_or (callback (err error)) error), put_out (completes (err error)) p)

-- The end of the `try` block, once the callback was called: what it throws is caught.
abbrev pub after_callback :
    Option Error
    → Option Callback
    → RecordMetadata
    → KafkaProducer
    → Result RecordMetadata × KafkaProducer
after_callback none callback m p = (ok m, p)
after_callback (some error) callback m p = refuse callback error p

-- The `try` block from the check of the topic on, and its `catch` block.
abbrev pub complete :
    Option Callback → Result RecordMetadata → KafkaProducer → Result RecordMetadata × KafkaProducer
complete callback (err error) p = refuse callback error p
complete none (ok m) p = (ok m, p)
complete (some callback) (ok m) p =
    after_callback (callback (ok m)) (some callback) m (put_out (completes (ok m)) p)

abbrev pub metadata_for : (now partition offset : ℕ) → ProducerRecord → RecordMetadata
metadata_for now partition offset r = record {
  topic = r.topic;
  partition = or_value r.partition partition;
  offset = offset;
  timestamp = or_value r.timestamp now;
}

-- `if (!record.topic) throw ...`
abbrev pub check_topic : JsString → RecordMetadata → Result RecordMetadata
check_topic [] m = err plain_error
check_topic (u ∷ s) m = ok m

-- `send`, where the clock shows `now`, and the random numbers are those for the partition and the
-- offset.
unfoldable pub send_record :
    (now random_partition random_offset : ℕ) (callback : Option Callback)
    → ProducerRecord
    → KafkaProducer
    → Result RecordMetadata × KafkaProducer
send_record now random_partition random_offset callback r p =
    let p = connect_producer p in
    let partition = calculate_partition random_partition r.key in
    let sent = check_topic r.topic (metadata_for now partition random_offset r) in
    if p.is_closed then refuse callback plain_error p else complete callback sent p

-- `flush` waits, and changes nothing.
abbrev pub flush : KafkaProducer → KafkaProducer
flush p = p

-- `close`
unfoldable pub close_producer : KafkaProducer → KafkaProducer
close_producer p =
    let flushed = flush p in
    if p.is_closed then p else put_out emits_close (record flushed { is_closed = true })
