-- ===== src/Network/Protocol.antt =====
-- src/network/protocol/Protocol.ts: the helpers of the bodies of requests and responses.
pub mod Fields
pub mod Filling
pub mod RoundTrip
use kafka_node_ts.Prelude.{
  ℕ, ◌+◌, ◌<◌, Bool, not, Option, none, some, List, [], ◌∷◌, length, ltb, if◌then◌else◌,
}
use kafka_node_ts.Prelude.Int.{ℤ, pos, negsuc, ◌+ℤ◌, eq_ℤ, is_negative}
use kafka_node_ts.Prelude.Errors.{Result, ok, ◌>>=◌}
use kafka_node_ts.Buffer.{Bytes, write_int, read_int}
use kafka_node_ts.Text.{JsString, byte_length, write_string, to_string}
use kafka_node_ts.BasicTypes.Numbers.{Decode}
use kafka_node_ts.BasicTypes.Arrays.{decode_each}
use kafka_node_ts.BasicTypes.Compact.{rounds}

-- What writes a value into a buffer at an offset: the buffer after it, and the next offset.
abbrev pub Write {ℓ} : Type ℓ → Type ℓ
Write A = Bytes → A → ℕ → Result (Bytes × ℕ)

unfoldable pub write_boolean : Write Bool
write_boolean buffer value offset = do
  buffer ← write_int 1 buffer (if value then pos 1 else pos 0) offset
  ok (buffer, offset + 1)

unfoldable pub read_boolean : Decode Bool
read_boolean buffer offset = do
  n ← read_int 1 buffer offset
  ok (not (eq_ℤ n (pos 0)), offset +ℤ pos 1)

unfoldable pub write_nullable : Write (Option JsString)
write_nullable buffer none offset = do
  buffer ← write_int 2 buffer (negsuc 0) offset
  ok (buffer, offset + 2)
write_nullable buffer (some value) offset = do
  let length = byte_length value
  buffer ← write_int 2 buffer (pos length) offset
  let offset = offset + 2
  if ltb 0 length
      then (write_string buffer value offset >>= λ buffer. ok (buffer, offset + length))
      else ok (buffer, offset)

unfoldable pub read_nullable : Decode (Option JsString)
read_nullable buffer offset = do
  length ← read_int 2 buffer offset
  let offset = offset +ℤ pos 2
  if is_negative length
      then ok (none, offset)
      else ok (some (to_string buffer offset (offset +ℤ length)), offset +ℤ length)

-- `for (const item of array) offset = writeItem(buffer, item, offset)`
unfoldable pub write_each {ℓ} : {A : Type ℓ} → Write A → Write (List A)
write_each write buffer [] offset = ok (buffer, offset)
write_each write buffer (item ∷ items) offset = do
  (buffer, offset) ← write buffer item offset
  write_each write buffer items offset

unfoldable pub write_array {ℓ} : {A : Type ℓ} → Write A → Write (Option (List A))
write_array write buffer none offset = do
  buffer ← write_int 4 buffer (negsuc 0) offset
  ok (buffer, offset + 4)
write_array write buffer (some items) offset = do
  buffer ← write_int 4 buffer (pos (length items)) offset
  write_each write buffer items (offset + 4)

unfoldable pub read_array {ℓ} : {A : Type ℓ} → Decode A → Decode (Option (List A))
read_array read buffer offset = do
  length ← read_int 4 buffer offset
  let offset = offset +ℤ pos 4
  if is_negative length
      then ok (none, offset)
      else decode_each read (rounds length) buffer offset >>= λ p. ok (some p.0, p.1)
