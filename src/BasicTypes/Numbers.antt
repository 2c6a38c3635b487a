-- ===== src/BasicTypes/Numbers.antt =====
-- src/protocol/types/BasicTypes.ts: booleans and the whole numbers of 1, 2, 4 and 8 bytes.
use kafka_node_ts.Prelude.{◌≡◌, Bool, not, ◌++◌, length, ◌+◌, if◌then◌else◌}
use kafka_node_ts.Prelude.Int.{ℤ, pos, ◌+ℤ◌, eq_ℤ}
use kafka_node_ts.Prelude.Errors.{Result, ok, ◌>>=◌}
use kafka_node_ts.Buffer.{Bytes, alloc, write_int, write_uint, read_int, read_uint}

-- A decoder, `(buffer, offset) => [value, offset]`.
abbrev pub Decode {ℓ} : Type ℓ → Type ℓ
Decode A = Bytes → ℤ → Result (A × ℤ)

-- `decode` reads `v` from the bytes `b`, wherever they stand in a buffer, and stops behind them.
abbrev pub Decodes {ℓ} : {A : Type ℓ} → Decode A → Bytes → A → Type ℓ
Decodes decode b v =
    (pre post : Bytes)
    → decode (pre ++ (b ++ post)) (pos (length pre)) ≡ ok (v, pos (length pre + length b))

-- `encode` succeeds on `v`, and `decode` reads `v` back from what it returned.
abbrev pub RoundTrips {ℓ} : {A : Type ℓ} → (A → Result Bytes) → Decode A → A → Type ℓ
RoundTrips encode decode v = (b : Bytes) × (encode v ≡ ok b) × Decodes decode b v

unfoldable pub encode_boolean : Bool → Result Bytes
encode_boolean value = write_int 1 (alloc 1) (if value then pos 1 else pos 0) 0

unfoldable pub decode_boolean : Decode Bool
decode_boolean buffer offset = do
  n ← read_int 1 buffer offset
  ok (not (eq_ℤ n (pos 0)), offset +ℤ pos 1)

unfoldable pub encode_int8 : ℤ → Result Bytes
encode_int8 value = write_int 1 (alloc 1) value 0

unfoldable pub decode_int8 : Decode ℤ
decode_int8 buffer offset = do value ← read_int 1 buffer offset; ok (value, offset +ℤ pos 1)

unfoldable pub encode_int16 : ℤ → Result Bytes
encode_int16 value = write_int 2 (alloc 2) value 0

unfoldable pub decode_int16 : Decode ℤ
decode_int16 buffer offset = do value ← read_int 2 buffer offset; ok (value, offset +ℤ pos 2)

unfoldable pub encode_int32 : ℤ → Result Bytes
encode_int32 value = write_int 4 (alloc 4) value 0

unfoldable pub decode_int32 : Decode ℤ
decode_int32 buffer offset = do value ← read_int 4 buffer offset; ok (value, offset +ℤ pos 4)

unfoldable pub encode_int64 : ℤ → Result Bytes
encode_int64 value = write_int 8 (alloc 8) value 0

unfoldable pub decode_int64 : Decode ℤ
decode_int64 buffer offset = do value ← read_int 8 buffer offset; ok (value, offset +ℤ pos 8)

unfoldable pub encode_uint8 : ℤ → Result Bytes
encode_uint8 value = write_uint 1 (alloc 1) value 0

unfoldable pub decode_uint8 : Decode ℤ
decode_uint8 buffer offset = do value ← read_uint 1 buffer offset; ok (value, offset +ℤ pos 1)

unfoldable pub encode_uint16 : ℤ → Result Bytes
encode_uint16 value = write_uint 2 (alloc 2) value 0

unfoldable pub decode_uint16 : Decode ℤ
decode_uint16 buffer offset = do value ← read_uint 2 buffer offset; ok (value, offset +ℤ pos 2)

unfoldable pub encode_uint32 : ℤ → Result Bytes
encode_uint32 value = write_uint 4 (alloc 4) value 0

unfoldable pub decode_uint32 : Decode ℤ
decode_uint32 buffer offset = do value ← read_uint 4 buffer offset; ok (value, offset +ℤ pos 4)

unfoldable pub encode_uint64 : ℤ → Result Bytes
encode_uint64 value = write_uint 8 (alloc 8) value 0

unfoldable pub decode_uint64 : Decode ℤ
decode_uint64 buffer offset = do value ← read_uint 8 buffer offset; ok (value, offset +ℤ pos 8)
