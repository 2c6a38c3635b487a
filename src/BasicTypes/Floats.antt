-- ===== src/BasicTypes/Floats.antt =====
-- src/protocol/types/BasicTypes.ts: floats and doubles. How a number stands in 32 and 64 bits is the
-- platform's, `Ieee`.
use kafka_node_ts.Prelude.{ℕ, ◌<◌, ◌^◌, ◌≡◌}
use kafka_node_ts.Prelude.Int.{pos, ◌+ℤ◌}
use kafka_node_ts.Prelude.Errors.{Result, ok, ◌>>=◌}
use kafka_node_ts.Buffer.{Bytes, alloc, be_bytes, put, read_pattern}
use kafka_node_ts.BasicTypes.Numbers.{Decode}

-- The bits that `writeFloatBE` and `writeDoubleBE` write for a number, and the number that
-- `readFloatBE` and `readDoubleBE` make of bits.
pub record Ieee (Number : Type 0) : Type 0 where
  pub single_bits : Number → ℕ
  pub single_value : ℕ → Number
  pub double_bits : Number → ℕ
  pub double_value : ℕ → Number

-- What the platform documents: 4 and 8 bytes, a number is kept in 64 bits, and what was read from 32
-- bits is kept in 32 bits.
pub record IsIeee {Number : Type 0} (ieee : Ieee Number) : Type 0 where
  pub single_fits : (v : Number) → ieee.single_bits v < 256 ^ 4
  pub double_fits : (v : Number) → ieee.double_bits v < 256 ^ 8
  pub single_again :
      (n : ℕ)
      → n < 256 ^ 4
      → ieee.single_value (ieee.single_bits (ieee.single_value n)) ≡ ieee.single_value n
  pub double_again : (v : Number) → ieee.double_value (ieee.double_bits v) ≡ v

module _ {Number : Type 0} (ieee : Ieee Number) where
  unfoldable pub encode_float : Number → Result Bytes
  encode_float value = ok (put (alloc 4) 0 (be_bytes 4 (ieee.single_bits value)))

  unfoldable pub decode_float : Decode Number
  decode_float buffer offset = do
    n ← read_pattern 4 buffer offset
    ok (ieee.single_value n, offset +ℤ pos 4)

  unfoldable pub encode_double : Number → Result Bytes
  encode_double value = ok (put (alloc 8) 0 (be_bytes 8 (ieee.double_bits value)))

  unfoldable pub decode_double : Decode Number
  decode_double buffer offset = do
    n ← read_pattern 8 buffer offset
    ok (ieee.double_value n, offset +ℤ pos 8)
