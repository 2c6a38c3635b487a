-- ===== src/Encoder.antt =====
-- src/protocol/Encoder.ts: an encoder collects the buffers of the values written, and their size.
pub mod Laws
pub mod Floats
use kafka_node_ts.Prelude.{
  ℕ, zero, suc, ◌+◌, ◌-◌, Bool, true, false, Option, none, some, List, [], ◌∷◌, ◌++◌, length, take,
  bit_or,
}
use kafka_node_ts.Prelude.Int.{ℤ, pos, negsuc, ltb_ℤ}
use kafka_node_ts.Prelude.Errors.{Result, ok, ◌>>=◌}
use kafka_node_ts.Buffer.{Bytes, alloc}
use kafka_node_ts.Text.{JsString}
use kafka_node_ts.BasicTypes.Numbers.{
  encode_boolean, encode_int8, encode_int16, encode_int32, encode_int64, encode_uint8,
  encode_uint16, encode_uint32, encode_uint64,
}
use kafka_node_ts.BasicTypes.Strings.{encode_string, encode_bytes}
use kafka_node_ts.BasicTypes.Compact.{encode_compact_string, encode_compact_bytes}
use kafka_node_ts.BasicTypes.Varint.{shift_right_7, low_7, loop_fuel}

pub record Encoder : Type 0 where
  pub buffers : List Bytes
  pub size : ℕ

-- `new Encoder()`
abbrev pub new_encoder : Encoder
new_encoder = record { buffers = []; size = 0 }

-- `this.buffers.push(buffer); this.size += buffer.length`
unfoldable pub write_buffer : Encoder → Bytes → Encoder
write_buffer e buffer = record { buffers = e.buffers ++ buffer ∷ []; size = e.size + length buffer }

-- What every `writeX` does with what `BasicTypes.encodeX` returns.
abbrev pub push_result : Encoder → Result Bytes → Result Encoder
push_result e r = do buffer ← r; ok (write_buffer e buffer)

unfoldable pub write_boolean : Encoder → Bool → Result Encoder
write_boolean e value = push_result e (encode_boolean value)

unfoldable pub write_int8 : Encoder → ℤ → Result Encoder
write_int8 e value = push_result e (encode_int8 value)

unfoldable pub write_int16 : Encoder → ℤ → Result Encoder
write_int16 e value = push_result e (encode_int16 value)

unfoldable pub write_int32 : Encoder → ℤ → Result Encoder
write_int32 e value = push_result e (encode_int32 value)

unfoldable pub write_int64 : Encoder → ℤ → Result Encoder
write_int64 e value = push_result e (encode_int64 value)

unfoldable pub write_uint8 : Encoder → ℤ → Result Encoder
write_uint8 e value = push_result e (encode_uint8 value)

unfoldable pub write_uint16 : Encoder → ℤ → Result Encoder
write_uint16 e value = push_result e (encode_uint16 value)

unfoldable pub write_uint32 : Encoder → ℤ → Result Encoder
write_uint32 e value = push_result e (encode_uint32 value)

unfoldable pub write_uint64 : Encoder → ℤ → Result Encoder
write_uint64 e value = push_result e (encode_uint64 value)

unfoldable pub write_string : Encoder → Option JsString → Result Encoder
write_string e value = push_result e (encode_string value)

unfoldable pub write_compact_string : Encoder → Option JsString → Result Encoder
write_compact_string e value = push_result e (encode_compact_string value)

unfoldable pub write_bytes : Encoder → Option Bytes → Result Encoder
write_bytes e value = push_result e (encode_bytes value)

unfoldable pub write_compact_bytes : Encoder → Option Bytes → Result Encoder
write_compact_bytes e value = push_result e (encode_compact_bytes value)

-- `for (const value of values) writeElement(this, value)`
unfoldable pub write_each {ℓ} :
    {A : Type ℓ} → (Encoder → A → Result Encoder) → Encoder → List A → Result Encoder
write_each write e [] = ok e
write_each write e (value ∷ values) = do e ← write e value; write_each write e values

unfoldable pub write_array {ℓ} :
    {A : Type ℓ} → (Encoder → A → Result Encoder) → Encoder → Option (List A) → Result Encoder
write_array write e none = write_int32 e (negsuc 0)
write_array write e (some values) = do
  e ← write_int32 e (pos (length values))
  write_each write e values

-- `while (len > 127) { this.writeUInt8((len & 0x7F) | 0x80); len = len >> 7; }
-- this.writeUInt8(len & 0x7F);`
unfoldable pub write_count : ℕ → Encoder → ℤ → Result Encoder
write_count zero e len = write_uint8 e (pos (low_7 len))
write_count (suc fuel) e len = elim (ltb_ℤ (pos 127) len) [
  | true ↦ (do
    e ← write_uint8 e (pos (bit_or (low_7 len) 0x80))
    write_count fuel e (shift_right_7 len))
  | false ↦ write_uint8 e (pos (low_7 len))
]

unfoldable pub write_compact_array {ℓ} :
    {A : Type ℓ} → (Encoder → A → Result Encoder) → Encoder → Option (List A) → Result Encoder
write_compact_array write e none = write_uint8 e (pos 0)
write_compact_array write e (some values) = do
  e ← write_count loop_fuel e (pos (length values + 1))
  write_each write e values

-- `getSize`
abbrev pub get_size : Encoder → ℕ
get_size e = e.size

pub concat : List Bytes → Bytes
concat [] = []
concat (b ∷ bs) = b ++ concat bs

-- `Buffer.concat(this.buffers, this.size)`: cut or filled with zeros to the total size given.
unfoldable pub build : Encoder → Bytes
unfolding concat
build e = take e.size (concat e.buffers ++ alloc (e.size - length (concat e.buffers)))
