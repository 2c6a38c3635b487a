-- ===== src/Serde.antt =====
-- src/serde: the serializers and deserializers of whole numbers and byte arrays. `none` is null.
pub mod RoundTrip
pub mod Platform
pub mod PlatformLaws
pub mod Pairs
pub mod Strings
pub mod StringLaws
pub mod Shared
use kafka_node_ts.Prelude.{ℕ, ◌==◌, Option, none, some, [], length, if◌then◌else◌}
use kafka_node_ts.Prelude.Int.{ℤ, pos}
use kafka_node_ts.Prelude.Errors.{Result, ok, err, plain_error}
use kafka_node_ts.Buffer.{Bytes, alloc, write_int, read_int}

unfoldable pub serialize_integer : Option ℤ → Result Bytes
serialize_integer none = ok (alloc 0)
serialize_integer (some value) = write_int 4 (alloc 4) value 0

-- Null and an empty array count as 0.
unfoldable pub deserialize_integer : Option Bytes → Result ℤ
deserialize_integer none = ok (pos 0)
deserialize_integer (some bytes) =
    if length bytes == 0
    then ok (pos 0)
    else if length bytes == 4
    then read_int 4 bytes (pos 0)
    else err plain_error

unfoldable pub serialize_long : Option ℤ → Result Bytes
serialize_long none = ok (alloc 0)
serialize_long (some value) = write_int 8 (alloc 8) value 0

unfoldable pub deserialize_long : Option Bytes → Result ℤ
deserialize_long none = ok (pos 0)
deserialize_long (some bytes) =
    if length bytes == 0
    then ok (pos 0)
    else if length bytes == 8
    then read_int 8 bytes (pos 0)
    else err plain_error

unfoldable pub serialize_byte_array : Option Bytes → Bytes
serialize_byte_array none = alloc 0
serialize_byte_array (some bytes) = bytes

unfoldable pub deserialize_byte_array : Option Bytes → Bytes
deserialize_byte_array none = alloc 0
deserialize_byte_array (some bytes) = bytes
