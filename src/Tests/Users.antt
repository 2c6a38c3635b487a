-- ===== src/Tests/Users.antt =====
-- src/consumer, src/producer and src/protocol/Message.ts on concrete values.
use kafka_node_ts.Prelude.{
  ◌≡◌, refl, true, false, none, some, map, List, [], ◌∷◌, ◌++◌, if◌then◌else◌, arith,
}
use kafka_node_ts.Prelude.Int.{pos}
use kafka_node_ts.Prelude.Errors.{Result, ok, err, plain_error, kafka_error}
use kafka_node_ts.JsMap.{get, int_key}
use kafka_node_ts.Consumer.{
  TopicPartition, KafkaConsumer, new_consumer, subscribe, seek, connect_consumer, on_connected,
  close_consumer, on_closed, start, stop, unsubscribe, check_usable, simulate_rebalance,
}
use kafka_node_ts.Consumer.Invariant.{
  Call, connects, connect_waited, close_waited, subscribes, stops, starts, closes, step, new, after,
  IsValid, reachable_consumer-IsValid,
}
use kafka_node_ts.Consumer.Closing.{steps, IsOver, close_consumer-IsOver}
use kafka_node_ts.Consumer.Assignment.{is_one_of, seek-subscribe}
use kafka_node_ts.Producer.{
  ProducerRecord, new_producer, send_record, connect_producer, hash_from, pattern_32, of_pattern_32,
  to_int_32, shift_left_5, RecordMetadata, Callback, completes,
}
use kafka_node_ts.Producer.Laws.{
  IsInt32, polynomial, hash_from-polynomial, Attempt, told, promised, send_record-Attempt,
}
use kafka_node_ts.Message.{VersionRange, new_api_versions, update, select_version, lies_within}
use kafka_node_ts.Message.Laws.{last_range, select_version-within}

-- `subscribe` and `start` are called while `close` waits.
abbrev overlapping : List Call
overlapping =
    connects
    ∷ connect_waited
    ∷ closes
    ∷ subscribes ((97 ∷ []) ∷ []) none
    ∷ starts
    ∷ close_waited
    ∷ []

reachable_consumer-IsValid_example : IsValid (steps overlapping (new_consumer true))
unfolding steps
reachable_consumer-IsValid_example =
    reachable_consumer-IsValid (steps overlapping (new_consumer true)) (
      after close_waited (
        after starts (
          after (subscribes ((97 ∷ []) ∷ []) none)
            (after closes (after connect_waited (after connects (new true)))))))

-- Then the closed consumer polls.
overlapping_run :
    ((steps overlapping (new_consumer true)).is_closed ≡ true)
    × ((steps overlapping (new_consumer true)).poll_interval ≡ true)
unfolding steps step connect_consumer on_connected close_consumer on_closed new_consumer subscribe
    start stop unsubscribe check_usable simulate_rebalance
overlapping_run = (refl, refl)

-- A consumer that polls, with a topic.
abbrev busy : KafkaConsumer
busy = step starts (
    step (subscribes ((97 ∷ []) ∷ []) none)
      (step connect_waited (step connects (new_consumer true))))

close_consumer-IsOver_example :
    IsOver (steps (starts ∷ []) (on_closed (steps (stops ∷ closes ∷ []) (close_consumer busy))))
unfolding step connect_consumer on_connected new_consumer subscribe start check_usable
    simulate_rebalance
close_consumer-IsOver_example =
    close_consumer-IsOver busy (stops ∷ closes ∷ []) (starts ∷ [])
      (after starts (
        after (subscribes ((97 ∷ []) ∷ []) none)
          (after connect_waited (after connects (new true)))))
      refl (tt, (tt, tt))

abbrev ready : KafkaConsumer
ready = record {
  enable_auto_commit = true;
  is_initialized = true;
  is_closed = false;
  is_running = false;
  rebalance_listener = none;
  assigned_partitions = [];
  subscriptions = [];
  poll_interval = false;
  connecting = 0;
  closing = 0;
  outputs = [];
}

abbrev a_2 : TopicPartition
a_2 = record { topic = 97 ∷ []; partition = 2 }

seek-subscribe_example :
    (seek a_2 (subscribe ((97 ∷ []) ∷ []) none ready).1).0
    ≡ (if is_one_of ((97 ∷ []) ∷ []) a_2 then ok tt else err plain_error)
seek-subscribe_example = seek-subscribe ((97 ∷ []) ∷ []) none a_2 ready (refl, refl)

-- The hash of "ab" is 97 * 31 + 98.
hash_run : hash_from (pos 0) (97 ∷ 98 ∷ []) ≡ pos 3105
unfolding hash_from to_int_32 shift_left_5 of_pattern_32 pattern_32
hash_run = refl

hash_from-polynomial_example :
    IsInt32 (hash_from (pos 0) (97 ∷ 98 ∷ []))
    × (pattern_32 (hash_from (pos 0) (97 ∷ 98 ∷ [])) ≡ polynomial 0 (97 ∷ 98 ∷ []))
hash_from-polynomial_example = hash_from-polynomial (97 ∷ 98 ∷ [])

abbrev keyed : ProducerRecord
keyed = record { topic = 97 ∷ []; partition = none; timestamp = none; key = some (97 ∷ 98 ∷ []) }

-- A callback that throws on metadata.
abbrev faulty : Callback
faulty (ok m) = some kafka_error
faulty (err e) = none

send_record-Attempt_example :
    let x = send_record 5 7 9 (some faulty) keyed new_producer in
    (attempt : Result RecordMetadata) × Attempt false (97 ∷ []) attempt
    × (x.0 ≡ promised (some faulty) attempt)
    × (x.1.is_initialized ≡ true)
    × (x.1.outputs
        ≡ (connect_producer new_producer).outputs ++ map completes (told (some faulty) attempt))
send_record-Attempt_example =
    send_record-Attempt 5 7 9 (some faulty) keyed new_producer (omega arith) refl

abbrev fetch_range : VersionRange
fetch_range = record { api_key = pos 1; min_version = pos 4; max_version = pos 13 }

fetch_range_last :
    last_range (pos 1) (get (pos 1) (new_api_versions (pos 0)).version_ranges) (fetch_range ∷ [])
    ≡ some fetch_range
unfolding get
fetch_range_last = refl

select_version-within_example :
    lies_within fetch_range (
      select_version
        (pos 1)
        (some (pos 20))
        (some (pos 6))
        (update (fetch_range ∷ []) (new_api_versions (pos 0))))
    ≡ true
select_version-within_example =
    select_version-within (fetch_range ∷ []) (new_api_versions (pos 0)) (pos 1) (some (pos 20))
      (some (pos 6)) fetch_range fetch_range_last refl
