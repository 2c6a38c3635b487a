-- ===== src/Producer/Laws.antt =====
-- src/producer/KafkaProducer.ts: the bounds of the hash and of the partition, and the results of `send`.
use kafka_node_ts.Prelude.{
  ℕ, ◌+◌, ◌*◌, ◌%◌, ◌<◌, ◌≡◌, refl, Bool, true, false, Bool-cases, inl, inr, if_cases, if_taken,
  if_passed, sym, ap, ◌∙◌, append-nil, append_assoc, map, ◌++◌, Option, none, some, List, [], ◌∷◌,
  if◌then◌else◌, arith,
}
use mathlib.Core.Path.{subst}
use kafka_node_ts.Prelude.Int.{ℤ, pos, negsuc, ◌+ℤ◌, ◌-ℤ◌}
use kafka_node_ts.Prelude.Errors.{Error, Result, ok, err, plain_error}
use kafka_node_ts.Text.{JsString}
use kafka_node_ts.Producer.{
  of_pattern_32, pattern_32, to_int_32, shift_left_5, hash_from, calculate_partition,
  ProducerRecord, RecordMetadata, KafkaProducer, completes, complete, check_topic, Callback, refuse,
  after_callback, put_out, thrown_or, metadata_for, or_value, connect_producer, send_record,
}

-- A number of 32 bits.
abbrev pub IsInt32 : ℤ → Type 0
IsInt32 (pos n) = n < 2147483648
IsInt32 (negsuc n) = n < 2147483648

of_pattern-IsInt32 : (u : ℕ) → u < 4294967296 → IsInt32 (of_pattern_32 u)
unfolding of_pattern_32
of_pattern-IsInt32 u h = ground arith

pattern-bound : (x : ℤ) → pattern_32 x < 4294967296
unfolding pattern_32
pattern-bound (pos n) = omega arith
pattern-bound (negsuc n) = omega arith

to_int_32-IsInt32 : (x : ℤ) → IsInt32 (to_int_32 x)
unfolding to_int_32
to_int_32-IsInt32 x = of_pattern-IsInt32 (pattern_32 x) (pattern-bound x)

pattern-of_pattern : (u : ℕ) → u < 4294967296 → pattern_32 (of_pattern_32 u) ≡ u
unfolding of_pattern_32 pattern_32
pattern-of_pattern u h = ground arith

hash_step :
    (h : ℤ) (u : ℕ)
    → IsInt32 h
    → pattern_32 (shift_left_5 h -ℤ h +ℤ pos u) ≡ (pattern_32 h * 31 + u) % 4294967296
unfolding shift_left_5 of_pattern_32 pattern_32
hash_step (pos n) u b = ground arith
hash_step (negsuc n) u b = ground arith

-- The sum of the units, each weighted by a power of 31, modulo 2 ^ 32: the one that `acc` stands for,
-- continued over the rest of the string.
abbrev pub polynomial : ℕ → JsString → ℕ
polynomial acc [] = acc
polynomial acc (u ∷ s) = polynomial ((acc * 31 + u) % 4294967296) s

pattern-hash_from :
    (s : JsString) (h : ℤ) → IsInt32 h → pattern_32 (hash_from h s) ≡ polynomial (pattern_32 h) s
unfolding hash_from to_int_32
pattern-hash_from [] h b = refl
pattern-hash_from (u ∷ s) h b =
    let x = shift_left_5 h -ℤ h +ℤ pos u in
    pattern-hash_from s (to_int_32 x) (to_int_32-IsInt32 x)
    ∙ ap (λ (acc : ℕ). polynomial acc s)
        (pattern-of_pattern (pattern_32 x) (pattern-bound x) ∙ hash_step h u b)

hash_from-IsInt32 : (s : JsString) (h : ℤ) → IsInt32 h → IsInt32 (hash_from h s)
unfolding hash_from
hash_from-IsInt32 [] h b = b
hash_from-IsInt32 (u ∷ s) h b = hash_from-IsInt32 s _ (to_int_32-IsInt32 _)

-- The hash of a key, computed with shifts and `| 0`, is a signed number of 32 bits, and its 32 bits are
-- the sum of the key's units, each times 31 to the number of units behind it, modulo 2 ^ 32.
pub hash_from-polynomial :
    (key : JsString)
    → IsInt32 (hash_from (pos 0) key) × (pattern_32 (hash_from (pos 0) key) ≡ polynomial 0 key)
unfolding pattern_32
hash_from-polynomial key =
    (hash_from-IsInt32 key (pos 0) (omega arith), pattern-hash_from key (pos 0) (omega arith))

partition-bound :
    (random : ℕ) (key : Option JsString) → random < 10 → calculate_partition random key < 10
unfolding calculate_partition
partition-bound random none h = h
partition-bound random (some key) h = omega arith

-- What `send` arrives at, for a record that names no partition, before any callback is called.
abbrev pub Attempt : Bool → JsString → Result RecordMetadata → Type 0
Attempt true topic r = r ≡ err plain_error
Attempt false [] r = r ≡ err plain_error
Attempt false (u ∷ s) r = (m : RecordMetadata) × (r ≡ ok m) × (m.topic ≡ u ∷ s) × (m.partition < 10)

-- What a callback is told: the result; and if it throws on metadata, then its own exception.
abbrev pub own_exception : Result RecordMetadata → Option Error → List (Result RecordMetadata)
own_exception (err e) thrown = []
own_exception (ok m) none = []
own_exception (ok m) (some thrown) = err thrown ∷ []

abbrev pub told : Option Callback → Result RecordMetadata → List (Result RecordMetadata)
told none r = []
told (some callback) r = r ∷ own_exception r (callback r)

-- How the promise ends: with the last exception that the callback throws, or else with the last
-- result that it was told.
abbrev pub last_of : Result RecordMetadata → List (Result RecordMetadata) → Result RecordMetadata
last_of r [] = r
last_of r (s ∷ ss) = last_of s ss

abbrev pub rejected_by : Option Error → Result RecordMetadata → Result RecordMetadata
rejected_by none r = r
rejected_by (some e) r = err e

abbrev pub promised : Option Callback → Result RecordMetadata → Result RecordMetadata
promised none r = r
promised (some callback) r =
    let last = last_of r (told (some callback) r) in rejected_by (callback last) last

closed-connect_producer : (p : KafkaProducer) → (connect_producer p).is_closed ≡ p.is_closed
unfolding connect_producer
closed-connect_producer p =
    if_cases (λ (q : KafkaProducer). q.is_closed ≡ p.is_closed) p.is_initialized refl refl

initialized-connect_producer : (p : KafkaProducer) → (connect_producer p).is_initialized ≡ true
unfolding connect_producer
initialized-connect_producer p = elim (Bool-cases p.is_initialized) [
  | inl yes_it_is ↦
      if_taken (λ (q : KafkaProducer). q.is_initialized ≡ true) p.is_initialized _ yes_it_is
        yes_it_is
  | inr not_yet ↦
      if_passed (λ (q : KafkaProducer). q.is_initialized ≡ true) p.is_initialized _ not_yet refl
]

-- The end of a call on a producer `p` whose attempt had the result `r`.
abbrev Ends :
    Option Callback
    → Result RecordMetadata
    → KafkaProducer
    → Result RecordMetadata × KafkaProducer
    → Type 0
Ends callback r p x =
    (x.0 ≡ promised callback r)
    × (x.1.is_initialized ≡ p.is_initialized)
    × (x.1.outputs ≡ p.outputs ++ map completes (told callback r))

thrown_or-rejected : (o : Option Error) (e : Error) → err (thrown_or o e) ≡ rejected_by o (err e)
thrown_or-rejected none e = refl
thrown_or-rejected (some other) e = refl

refuse-Ends :
    (callback : Option Callback) (e : Error) (p : KafkaProducer)
    → Ends callback (err e) p (refuse callback e p)
refuse-Ends none e p = (refl, refl, sym (append-nil p.outputs))
refuse-Ends (some callback) e p = (thrown_or-rejected (callback (err e)) e, refl, refl)

after_callback-Ends :
    (callback : Callback) (o : Option Error) (m : RecordMetadata) (p : KafkaProducer)
    → callback (ok m) ≡ o
    → Ends
        (some callback)
        (ok m)
        p
        (after_callback o (some callback) m (put_out (completes (ok m)) p))
after_callback-Ends callback none m p h = (rw h (rw h refl), refl, rw h refl)
after_callback-Ends callback (some e) m p h = (
  rw h (thrown_or-rejected (callback (err e)) e),
  refl,
  rw h (append_assoc p.outputs (completes (ok m) ∷ []) (completes (err e) ∷ [])),
)

complete-Ends :
    (callback : Option Callback) (r : Result RecordMetadata) (p : KafkaProducer)
    → Ends callback r p (complete callback r p)
complete-Ends callback (err e) p = refuse-Ends callback e p
complete-Ends none (ok m) p = (refl, refl, sym (append-nil p.outputs))
complete-Ends (some callback) (ok m) p = after_callback-Ends callback (callback (ok m)) m p refl

Attempt-check_topic :
    (topic : JsString) (m : RecordMetadata)
    → m.topic ≡ topic
    → m.partition < 10
    → Attempt false topic (check_topic topic m)
Attempt-check_topic [] m e h = refl
Attempt-check_topic (u ∷ s) m e h = (m, refl, e, h)

abbrev ResultOf :
    Option Callback
    → Bool
    → JsString
    → KafkaProducer
    → Result RecordMetadata × KafkaProducer
    → Type 0
ResultOf callback closed topic p x =
    (attempt : Result RecordMetadata) × Attempt closed topic attempt × Ends callback attempt p x

ended :
    (callback : Option Callback) (closed : Bool) (topic : JsString) (m : RecordMetadata)
    (p : KafkaProducer)
    → m.topic ≡ topic
    → m.partition < 10
    → ResultOf callback closed topic p (
        if closed then refuse callback plain_error p else complete callback (check_topic topic m) p)
ended callback true topic m p e h = (err plain_error, refl, refuse-Ends callback plain_error p)
ended callback false topic m p e h = (
  check_topic topic m,
  Attempt-check_topic topic m e h,
  complete-Ends callback (check_topic topic m) p,
)

-- A record that names no partition, sent while the random partition is below 10, with no other call of the
-- producer before `send` ends. The attempt fails if the producer was closed, or if the topic is empty;
-- otherwise it gives metadata with the record's topic and a partition below 10. A callback is told the
-- result of the attempt, after the events of connecting; if it throws on metadata, then it is told its
-- own exception too, and nothing else is put out. The promise ends with the attempt's result, unless the
-- callback throws: then with the last exception that it throws. The producer is connected afterwards.
pub send_record-Attempt :
    (now random_partition random_offset : ℕ) (callback : Option Callback) (r : ProducerRecord)
    (p : KafkaProducer)
    → random_partition < 10
    → r.partition ≡ none
    → let x = send_record now random_partition random_offset callback r p in
      (attempt : Result RecordMetadata) × Attempt p.is_closed r.topic attempt
      × (x.0 ≡ promised callback attempt)
      × (x.1.is_initialized ≡ true)
      × (x.1.outputs ≡ (connect_producer p).outputs ++ map completes (told callback attempt))
unfolding send_record
send_record-Attempt now random_partition random_offset callback r p h e =
    let q = connect_producer p in
    let m = metadata_for now (calculate_partition random_partition r.key) random_offset r in
    let (attempt, tried, (ends, ready, out)) = ended callback q.is_closed r.topic m q refl (
      subst (λ (o : Option ℕ). or_value o (calculate_partition random_partition r.key) < 10) (sym e)
        (partition-bound random_partition r.key h)) in
    (
      attempt,
      subst (λ (closed : Bool). Attempt closed r.topic attempt) (closed-connect_producer p) tried,
      ends,
      ready ∙ initialized-connect_producer p,
      out,
    )
