-- ===== src/BasicTypes/Compact.antt =====
-- src/protocol/types/BasicTypes.ts: the compact strings, byte arrays and arrays, whose count plus
-- one stands in front as a variable-length number; 0 stands for null.
use kafka_node_ts.Prelude.{ℕ, ◌+◌, Option, none, some, List, [], ◌∷◌, length, if◌then◌else◌}
use kafka_node_ts.Prelude.Int.{ℤ, pos, negsuc, ◌+ℤ◌, eq_ℤ}
use kafka_node_ts.Prelude.Errors.{Result, ok, ◌>>=◌}
use kafka_node_ts.Buffer.{Bytes, alloc, copy, slice}
use kafka_node_ts.Text.{JsString, byte_length, write_string, to_string}
use kafka_node_ts.BasicTypes.Numbers.{Decode}
use kafka_node_ts.BasicTypes.Varint.{size_of_length, write_length, read_length}
use kafka_node_ts.BasicTypes.Arrays.{encode_each, total_size, copy_each, decode_each}

unfoldable pub encode_compact_string : Option JsString → Result Bytes
encode_compact_string none = ok (0 ∷ [])
encode_compact_string (some value) =
    let length = byte_length value in
    let encoded_length = length + 1 in
    let buffer = alloc (size_of_length (pos encoded_length) + length) in
    let (buffer', idx) = write_length buffer (pos encoded_length) in write_string buffer' value idx

unfoldable pub decode_compact_string : Decode (Option JsString)
decode_compact_string buffer offset = do
  (length, offset) ← read_length buffer offset
  let value = to_string buffer offset (offset +ℤ (length +ℤ negsuc 0))
  if eq_ℤ length (pos 0) then ok (none, offset) else ok (some value, offset +ℤ (length +ℤ negsuc 0))

unfoldable pub encode_compact_bytes : Option Bytes → Result Bytes
encode_compact_bytes none = ok (0 ∷ [])
encode_compact_bytes (some value) =
    let encoded_length = length value + 1 in
    let buffer = alloc (size_of_length (pos encoded_length) + length value) in
    let (buffer', idx) = write_length buffer (pos encoded_length) in ok (copy value buffer' idx)

unfoldable pub decode_compact_bytes : Decode (Option Bytes)
decode_compact_bytes buffer offset = do
  (length, offset) ← read_length buffer offset
  let value = slice buffer offset (offset +ℤ (length +ℤ negsuc 0))
  if eq_ℤ length (pos 0) then ok (none, offset) else ok (some value, offset +ℤ (length +ℤ negsuc 0))

unfoldable pub encode_compact_array {ℓ} :
    {A : Type ℓ} → (A → Result Bytes) → Option (List A) → Result Bytes
encode_compact_array encode none = ok (0 ∷ [])
encode_compact_array encode (some values) = do
  let encoded_length = length values + 1
  encoded ← encode_each encode values
  let buffer = alloc (total_size (size_of_length (pos encoded_length)) encoded)
  let (buffer', idx) = write_length buffer (pos encoded_length)
  ok (copy_each buffer' idx encoded)

-- The rounds of `for (let i = 0; i < length; i++)`.
abbrev pub rounds : ℤ → ℕ
rounds (pos n) = n
rounds (negsuc n) = 0

abbrev pub decode_rounds {ℓ} : {A : Type ℓ} → Decode A → ℤ → Decode (Option (List A))
decode_rounds decode length buffer offset = do
  (values, offset) ← decode_each decode (rounds length) buffer offset
  ok (some values, offset)

unfoldable pub decode_compact_array {ℓ} : {A : Type ℓ} → Decode A → Decode (Option (List A))
decode_compact_array decode buffer offset = do
  (length, offset) ← read_length buffer offset
  if eq_ℤ length (pos 0)
      then ok (none, offset)
      else decode_rounds decode (length +ℤ negsuc 0) buffer offset
