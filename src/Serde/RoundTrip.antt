-- ===== src/Serde/RoundTrip.antt =====
-- src/serde: whole numbers are read back as they were written, and other sizes are refused.
use kafka_node_ts.Prelude.{
  ℕ, suc, ◌≡◌, ◌≢◌, refl, ap, ◌∙◌, sym, some, [], length, append-nil, arith,
}
use kafka_node_ts.Prelude.Int.{ℤ, pos}
use kafka_node_ts.Prelude.Errors.{ok, err, plain_error}
use kafka_node_ts.Buffer.{Bytes, IsInt, int_bytes, read_int}
use kafka_node_ts.Buffer.Numbers.{read_int-in, length-int_bytes}
use kafka_node_ts.Buffer.Frontier.{write_int-next}
use kafka_node_ts.Serde.{serialize_integer, deserialize_integer, serialize_long, deserialize_long}

read_back :
    (w : ℕ) (v : ℤ) → IsInt (suc w) v → read_int (suc w) (int_bytes (suc w) v) (pos 0) ≡ ok v
read_back w v h =
    read_int-in w 0 v (int_bytes (suc w) v) [] [] (sym (append-nil (int_bytes (suc w) v))) refl h

-- An integer that fits an int32 is serialized, and the deserializer of integers returns it from
-- those bytes; a non-empty array of another size than four bytes is refused with an Error.
pub deserialize_integer-serialize_integer :
    (v : ℤ) (other : Bytes)
    → IsInt 4 v
    → length other ≢ 0
    → length other ≢ 4
    → (b : Bytes) × (serialize_integer (some v) ≡ ok b)
      × (deserialize_integer (some b) ≡ ok v)
      × (deserialize_integer (some other) ≡ err plain_error)
unfolding serialize_integer deserialize_integer
deserialize_integer-serialize_integer v other h n m = (
  int_bytes 4 v,
  write_int-next [] 0 4 0 refl 4 v h refl ∙ ap ok (append-nil (int_bytes 4 v)),
  rw (length-int_bytes 4 v) (read_back 3 v h),
  ground arith,
)

-- A bigint that fits an int64 is serialized, and the deserializer of longs returns it from those
-- bytes; a non-empty array of another size than eight bytes is refused with an Error.
pub deserialize_long-serialize_long :
    (v : ℤ) (other : Bytes)
    → IsInt 8 v
    → length other ≢ 0
    → length other ≢ 8
    → (b : Bytes) × (serialize_long (some v) ≡ ok b)
      × (deserialize_long (some b) ≡ ok v)
      × (deserialize_long (some other) ≡ err plain_error)
unfolding serialize_long deserialize_long
deserialize_long-serialize_long v other h n m = (
  int_bytes 8 v,
  write_int-next [] 0 8 0 refl 8 v h refl ∙ ap ok (append-nil (int_bytes 8 v)),
  rw (length-int_bytes 8 v) (read_back 7 v h),
  ground arith,
)
