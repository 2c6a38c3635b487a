-- ===== src/BasicTypes/Arrays.antt =====
-- src/protocol/types/BasicTypes.ts: nullable arrays behind an int32 count.
use kafka_node_ts.Prelude.{ℕ, zero, suc, ◌+◌, Option, none, some, List, [], ◌∷◌, length}
use kafka_node_ts.Prelude.Int.{ℤ, pos, negsuc, ◌+ℤ◌}
use kafka_node_ts.Prelude.Errors.{Result, ok, ◌>>=◌}
use kafka_node_ts.Buffer.{Bytes, alloc, write_int, read_int, copy}
use kafka_node_ts.BasicTypes.Numbers.{Decode}

-- `for (const value of values) encodedValues.push(encodeFunc(value))`
unfoldable pub encode_each {ℓ} : {A : Type ℓ} → (A → Result Bytes) → List A → Result (List Bytes)
encode_each encode [] = ok []
encode_each encode (value ∷ values) = do
  encoded ← encode value
  rest ← encode_each encode values
  ok (encoded ∷ rest)

-- `totalSize += encoded.length`
unfoldable pub total_size : ℕ → List Bytes → ℕ
total_size size [] = size
total_size size (encoded ∷ rest) = total_size (size + length encoded) rest

-- `encoded.copy(buffer, offset); offset += encoded.length`
unfoldable pub copy_each : Bytes → ℕ → List Bytes → Bytes
copy_each buffer offset [] = buffer
copy_each buffer offset (encoded ∷ rest) =
    copy_each (copy encoded buffer offset) (offset + length encoded) rest

unfoldable pub encode_array {ℓ} : {A : Type ℓ} → (A → Result Bytes) → Option (List A) → Result Bytes
encode_array encode none = ok (0xff ∷ 0xff ∷ 0xff ∷ 0xff ∷ [])
encode_array encode (some values) = do
  encoded ← encode_each encode values
  let buffer = alloc (total_size 4 encoded)
  buffer ← write_int 4 buffer (pos (length values)) 0
  ok (copy_each buffer 4 encoded)

-- The loop `for (let i = 0; i < length; i++)` over the rounds left.
unfoldable pub decode_each {ℓ} : {A : Type ℓ} → Decode A → ℕ → Decode (List A)
decode_each decode zero buffer offset = ok ([], offset)
decode_each decode (suc rounds) buffer offset = do
  (value, offset) ← decode buffer offset
  (values, offset) ← decode_each decode rounds buffer offset
  ok (value ∷ values, offset)

-- What `decodeArray` does with the count that it has read.
abbrev pub decode_counted {ℓ} : {A : Type ℓ} → Decode A → ℤ → Decode (Option (List A))
decode_counted decode (negsuc n) buffer offset = ok (none, offset)
decode_counted decode (pos n) buffer offset = do
  (values, offset) ← decode_each decode n buffer offset
  ok (some values, offset)

unfoldable pub decode_array {ℓ} : {A : Type ℓ} → Decode A → Decode (Option (List A))
decode_array decode buffer offset = do
  length ← read_int 4 buffer offset
  decode_counted decode length buffer (offset +ℤ pos 4)
