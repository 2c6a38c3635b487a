-- ===== src/Decoder.antt =====
-- src/protocol/Decoder.ts: a decoder walks over one buffer.
pub mod Laws
pub mod Floats
pub mod Streams
use kafka_node_ts.Prelude.{
  ℕ, zero, suc, Bool, Option, none, some, List, [], ◌∷◌, length, if◌then◌else◌,
}
use kafka_node_ts.Prelude.Int.{ℤ, pos, negsuc, ◌+ℤ◌, ◌-ℤ◌, eq_ℤ}
use kafka_node_ts.Prelude.Errors.{Result, ok, ◌>>=◌}
use kafka_node_ts.Buffer.{Bytes, slice}
use kafka_node_ts.Text.{JsString}
use kafka_node_ts.BasicTypes.Numbers.{
  Decode, decode_boolean, decode_int8, decode_int16, decode_int32, decode_int64, decode_uint8,
  decode_uint16, decode_uint32, decode_uint64,
}
use kafka_node_ts.BasicTypes.Strings.{decode_string, decode_bytes}
use kafka_node_ts.BasicTypes.Varint.{read_length}
use kafka_node_ts.BasicTypes.Compact.{decode_compact_string, decode_compact_bytes, rounds}

pub record Decoder : Type 0 where
  pub buffer : Bytes
  pub offset : ℤ

-- `new Decoder(buffer)`
abbrev pub new_decoder : Bytes → Decoder
new_decoder buffer = record { buffer = buffer; offset = pos 0 }

abbrev pub get_offset : Decoder → ℤ
get_offset d = d.offset

-- A method that reads returns the value and the decoder behind it.
abbrev pub Read {ℓ} : Type ℓ → Type ℓ
Read A = Decoder → Result (A × Decoder)

-- `const [value, newOffset] = BasicTypes.decodeX(this.buffer, this.offset); this.offset = newOffset`
abbrev pub read_by {ℓ} : {A : Type ℓ} → Decode A → Read A
read_by decode d = do
  (value, offset) ← decode d.buffer d.offset
  ok (value, record d { offset = offset })

unfoldable pub read_boolean : Read Bool
read_boolean = read_by decode_boolean

unfoldable pub read_int8 : Read ℤ
read_int8 = read_by decode_int8

unfoldable pub read_int16 : Read ℤ
read_int16 = read_by decode_int16

unfoldable pub read_int32 : Read ℤ
read_int32 = read_by decode_int32

unfoldable pub read_int64 : Read ℤ
read_int64 = read_by decode_int64

unfoldable pub read_uint8 : Read ℤ
read_uint8 = read_by decode_uint8

unfoldable pub read_uint16 : Read ℤ
read_uint16 = read_by decode_uint16

unfoldable pub read_uint32 : Read ℤ
read_uint32 = read_by decode_uint32

unfoldable pub read_uint64 : Read ℤ
read_uint64 = read_by decode_uint64

unfoldable pub read_string : Read (Option JsString)
read_string = read_by decode_string

unfoldable pub read_compact_string : Read (Option JsString)
read_compact_string = read_by decode_compact_string

unfoldable pub read_bytes : Read (Option Bytes)
read_bytes = read_by decode_bytes

unfoldable pub read_compact_bytes : Read (Option Bytes)
read_compact_bytes = read_by decode_compact_bytes

-- `for (let i = 0; i < length; i++) result.push(readElement(this))`
unfoldable pub read_each {ℓ} : {A : Type ℓ} → Read A → ℕ → Read (List A)
read_each read zero d = ok ([], d)
read_each read (suc n) d = do
  (value, d) ← read d
  (values, d) ← read_each read n d
  ok (value ∷ values, d)

abbrev pub read_counted {ℓ} : {A : Type ℓ} → Read A → ℤ → Read (Option (List A))
read_counted read (negsuc n) d = ok (none, d)
read_counted read (pos n) d = do (values, d) ← read_each read n d; ok (some values, d)

unfoldable pub read_array {ℓ} : {A : Type ℓ} → Read A → Read (Option (List A))
read_array read d = do (length, d) ← read_int32 d; read_counted read length d

abbrev pub read_rounds {ℓ} : {A : Type ℓ} → Read A → ℤ → Read (Option (List A))
read_rounds read length d = do (values, d) ← read_each read (rounds length) d; ok (some values, d)

-- The loop over the count is that of the compact decoders.
unfoldable pub read_compact_array {ℓ} : {A : Type ℓ} → Read A → Read (Option (List A))
read_compact_array read d = do
  (length, offset) ← read_length d.buffer d.offset
  let d = record d { offset = offset }
  if eq_ℤ length (pos 0) then ok (none, d) else read_rounds read (length +ℤ negsuc 0) d

-- `this.buffer.length - this.offset`
unfoldable pub remaining : Decoder → ℤ
remaining d = pos (length d.buffer) -ℤ d.offset

-- `this.buffer.slice(this.offset, this.offset + length)`; the offset stays.
unfoldable pub peek : Decoder → ℤ → Bytes
peek d n = slice d.buffer d.offset (d.offset +ℤ n)

unfoldable pub skip : Decoder → ℤ → Decoder
skip d n = record d { offset = d.offset +ℤ n }

abbrev pub get_buffer : Decoder → Bytes
get_buffer d = d.buffer
