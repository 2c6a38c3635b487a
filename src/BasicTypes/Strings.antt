-- ===== src/BasicTypes/Strings.antt =====
-- src/protocol/types/BasicTypes.ts: nullable strings and byte arrays behind a plain length.
use kafka_node_ts.Prelude.{◌+◌, Option, none, some, [], ◌∷◌, length, if◌then◌else◌}
use kafka_node_ts.Prelude.Int.{pos, ◌+ℤ◌, is_negative}
use kafka_node_ts.Prelude.Errors.{Result, ok, ◌>>=◌}
use kafka_node_ts.Buffer.{Bytes, alloc, write_int, read_int, copy, slice}
use kafka_node_ts.Text.{JsString, byte_length, write_string, to_string}
use kafka_node_ts.BasicTypes.Numbers.{Decode}

unfoldable pub encode_string : Option JsString → Result Bytes
encode_string none = ok (0xff ∷ 0xff ∷ [])
encode_string (some value) = do
  let length = byte_length value
  let buffer = alloc (2 + length)
  buffer ← write_int 2 buffer (pos length) 0
  write_string buffer value 2

unfoldable pub decode_string : Decode (Option JsString)
decode_string buffer offset = do
  length ← read_int 2 buffer offset
  let offset = offset +ℤ pos 2
  if is_negative length
      then ok (none, offset)
      else ok (some (to_string buffer offset (offset +ℤ length)), offset +ℤ length)

unfoldable pub encode_bytes : Option Bytes → Result Bytes
encode_bytes none = ok (0xff ∷ 0xff ∷ 0xff ∷ 0xff ∷ [])
encode_bytes (some value) = do
  let n = length value
  let buffer = alloc (4 + n)
  buffer ← write_int 4 buffer (pos n) 0
  ok (copy value buffer 4)

unfoldable pub decode_bytes : Decode (Option Bytes)
decode_bytes buffer offset = do
  length ← read_int 4 buffer offset
  let offset = offset +ℤ pos 4
  if is_negative length
      then ok (none, offset)
      else ok (some (slice buffer offset (offset +ℤ length)), offset +ℤ length)
