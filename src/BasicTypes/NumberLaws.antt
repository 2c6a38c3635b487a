-- ===== src/BasicTypes/NumberLaws.antt =====
-- src/protocol/types/BasicTypes.ts: a number is encoded exactly when it fits, and is decoded again.
use kafka_node_ts.Prelude.{ℕ, suc, ◌≡◌, refl, ap, Bool, true, false, [], length, append-nil, arith}
use kafka_node_ts.Prelude.Int.{ℤ, pos, ◌+ℤ◌}
use kafka_node_ts.Prelude.Errors.{Result, ok, err, range_error, ◌>>=◌}
use kafka_node_ts.Buffer.{
  Bytes, alloc, be_bytes, to_pattern, fits_int, fits_uint, IsInt, IsUint, int_bytes, write_int,
  write_uint, read_int, read_uint,
}
use kafka_node_ts.Buffer.Numbers.{read_int-at, read_uint-at, length-be_bytes}
use kafka_node_ts.Buffer.Frontier.{write_int-next, write_uint-next}
use kafka_node_ts.BasicTypes.Numbers.{
  Decode, Decodes, encode_boolean, decode_boolean, encode_int8, decode_int8, encode_int16,
  decode_int16, encode_int32, decode_int32, encode_int64, decode_int64, encode_uint8, decode_uint8,
  encode_uint16, decode_uint16, encode_uint32, decode_uint32, encode_uint64, decode_uint64,
}

-- The kinds of whole number that the class encodes.
pub data NumberType : Type 0 where
  int8 int16 int32 int64 uint8 uint16 uint32 uint64 : NumberType

abbrev pub encoder_of : NumberType → ℤ → Result Bytes
encoder_of int8 = encode_int8
encoder_of int16 = encode_int16
encoder_of int32 = encode_int32
encoder_of int64 = encode_int64
encoder_of uint8 = encode_uint8
encoder_of uint16 = encode_uint16
encoder_of uint32 = encode_uint32
encoder_of uint64 = encode_uint64

abbrev pub decoder_of : NumberType → Decode ℤ
decoder_of int8 = decode_int8
decoder_of int16 = decode_int16
decoder_of int32 = decode_int32
decoder_of int64 = decode_int64
decoder_of uint8 = decode_uint8
decoder_of uint16 = decode_uint16
decoder_of uint32 = decode_uint32
decoder_of uint64 = decode_uint64

-- Whether a number lies in the range of its kind: from -2 ^ (8 w - 1) to 2 ^ (8 w - 1) - 1, or from
-- 0 to 2 ^ (8 w) - 1, for `w` bytes.
abbrev pub in_range : NumberType → ℤ → Bool
in_range int8 = fits_int 1
in_range int16 = fits_int 2
in_range int32 = fits_int 4
in_range int64 = fits_int 8
in_range uint8 = fits_uint 1
in_range uint16 = fits_uint 2
in_range uint32 = fits_uint 4
in_range uint64 = fits_uint 8

abbrev pub size_of : NumberType → ℕ
size_of int8 = 1
size_of int16 = 2
size_of int32 = 4
size_of int64 = 8
size_of uint8 = 1
size_of uint16 = 2
size_of uint32 = 4
size_of uint64 = 8

write_alone : (w : ℕ) (v : ℤ) → IsInt w v → write_int w (alloc w) v 0 ≡ ok (int_bytes w v)
write_alone w v h = rw (write_int-next [] 0 w 0 refl w v h (omega arith)) (ap ok (append-nil _))

write_uint_alone : (w : ℕ) (v : ℤ) → IsUint w v → write_uint w (alloc w) v 0 ≡ ok (int_bytes w v)
write_uint_alone w v h =
    rw (write_uint-next [] 0 w 0 refl w v h (omega arith)) (ap ok (append-nil _))

pub encoder_of-eq :
    (t : NumberType) (v : ℤ) → in_range t v ≡ true → encoder_of t v ≡ ok (int_bytes (size_of t) v)
unfolding encode_int8 encode_int16 encode_int32 encode_int64 encode_uint8 encode_uint16
    encode_uint32 encode_uint64
encoder_of-eq int8 v h = write_alone 1 v h
encoder_of-eq int16 v h = write_alone 2 v h
encoder_of-eq int32 v h = write_alone 4 v h
encoder_of-eq int64 v h = write_alone 8 v h
encoder_of-eq uint8 v h = write_uint_alone 1 v h
encoder_of-eq uint16 v h = write_uint_alone 2 v h
encoder_of-eq uint32 v h = write_uint_alone 4 v h
encoder_of-eq uint64 v h = write_uint_alone 8 v h

pub read_int-Decodes :
    (w : ℕ) (v : ℤ)
    → IsInt (suc w) v
    → Decodes
        (λ buffer offset. do
          value ← read_int (suc w) buffer offset
          ok (value, offset +ℤ pos (suc w)))
        (int_bytes (suc w) v)
        v
read_int-Decodes w v h pre post =
    rw
      (read_int-at w (length pre) v pre post refl h, length-be_bytes (suc w) (to_pattern (suc w) v))

read_uint-Decodes :
    (w : ℕ) (v : ℤ)
    → IsUint w v
    → Decodes
        (λ buffer offset. do value ← read_uint w buffer offset; ok (value, offset +ℤ pos w))
        (int_bytes w v)
        v
read_uint-Decodes w v h pre post =
    rw (read_uint-at w (length pre) v pre post refl h, length-be_bytes w (to_pattern w v))

pub decoder_of-Decodes :
    (t : NumberType) (v : ℤ)
    → in_range t v ≡ true
    → Decodes (decoder_of t) (int_bytes (size_of t) v) v
unfolding decode_int8 decode_int16 decode_int32 decode_int64 decode_uint8 decode_uint16
    decode_uint32 decode_uint64
decoder_of-Decodes int8 v h = read_int-Decodes 0 v h
decoder_of-Decodes int16 v h = read_int-Decodes 1 v h
decoder_of-Decodes int32 v h = read_int-Decodes 3 v h
decoder_of-Decodes int64 v h = read_int-Decodes 7 v h
decoder_of-Decodes uint8 v h = read_uint-Decodes 1 v h
decoder_of-Decodes uint16 v h = read_uint-Decodes 2 v h
decoder_of-Decodes uint32 v h = read_uint-Decodes 4 v h
decoder_of-Decodes uint64 v h = read_uint-Decodes 8 v h

-- A number in the range of its kind is encoded in that kind's size, and its decoder reads it back
-- from those bytes at any place in a buffer, with the offset behind them.
pub decoder_of-encoder_of :
    (t : NumberType) (v : ℤ)
    → in_range t v ≡ true
    → (b : Bytes) × (encoder_of t v ≡ ok b) × (length b ≡ size_of t) × Decodes (decoder_of t) b v
decoder_of-encoder_of t v h = (
  int_bytes (size_of t) v,
  encoder_of-eq t v h,
  length-be_bytes (size_of t) (to_pattern (size_of t) v),
  decoder_of-Decodes t v h,
)

-- A number outside the range of its kind is refused by that kind's encoder with a RangeError.
pub encoder_of-refuses :
    (t : NumberType) (v : ℤ) → in_range t v ≡ false → encoder_of t v ≡ err range_error
unfolding encode_int8 encode_int16 encode_int32 encode_int64 encode_uint8 encode_uint16
    encode_uint32 encode_uint64 write_int write_uint
encoder_of-refuses int8 v h = rw h
encoder_of-refuses int16 v h = rw h
encoder_of-refuses int32 v h = rw h
encoder_of-refuses int64 v h = rw h
encoder_of-refuses uint8 v h = rw h
encoder_of-refuses uint16 v h = rw h
encoder_of-refuses uint32 v h = rw h
encoder_of-refuses uint64 v h = rw h

-- A boolean is encoded, and `decodeBoolean` reads it back from its byte at any place in a buffer.
boolean-RoundTrip :
    (v : Bool) → (b : Bytes) × (encode_boolean v ≡ ok b) × Decodes decode_boolean b v
unfolding encode_boolean decode_boolean
boolean-RoundTrip true = (
  int_bytes 1 (pos 1),
  write_alone 1 (pos 1) (unfold fits_int in refl),
  λ pre post.
      rw (read_int-at 0 (length pre) (pos 1) pre post refl (unfold fits_int in refl))
        (unfold be_bytes in refl),
)
boolean-RoundTrip false = (
  int_bytes 1 (pos 0),
  write_alone 1 (pos 0) (unfold fits_int in refl),
  λ pre post.
      rw (read_int-at 0 (length pre) (pos 0) pre post refl (unfold fits_int in refl))
        (unfold be_bytes in refl),
)
