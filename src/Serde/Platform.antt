-- ===== src/Serde/Platform.antt =====
-- src/serde: the serializers of doubles and of JSON, which hand over to the platform.
use kafka_node_ts.Prelude.{◌==◌, Option, none, some, [], ◌∷◌, length, if◌then◌else◌}
use kafka_node_ts.Prelude.Int.{pos}
use kafka_node_ts.Prelude.Errors.{Result, ok, err, plain_error, ◌>>=◌}
use kafka_node_ts.Buffer.{Bytes, alloc, be_bytes, put, read_pattern}
use kafka_node_ts.Text.{JsString, utf8, from_utf8}
use kafka_node_ts.BasicTypes.Floats.{Ieee}

module _ {Number : Type 0} (ieee : Ieee Number) where
  unfoldable pub serialize_double : Option Number → Result Bytes
  serialize_double none = ok (alloc 0)
  serialize_double (some value) = ok (put (alloc 8) 0 (be_bytes 8 (ieee.double_bits value)))

  -- Null and an empty array count as 0, whose bits are 0.
  unfoldable pub deserialize_double : Option Bytes → Result Number
  deserialize_double none = ok (ieee.double_value 0)
  deserialize_double (some bytes) =
      if length bytes == 0
      then ok (ieee.double_value 0)
      else if length bytes == 8
      then (do n ← read_pattern 8 bytes (pos 0); ok (ieee.double_value n))
      else err plain_error

-- `JSON.stringify`, of values for which it returns a string, and `JSON.parse`.
pub record Json (Value : Type 0) : Type 0 where
  pub stringify : Value → JsString
  pub parse : JsString → Result Value

module _ {Value : Type 0} (json : Json Value) where
  -- `none` is null, in both directions.
  unfoldable pub serialize_json : Option Value → Bytes
  serialize_json none = alloc 0
  serialize_json (some value) = utf8 (json.stringify value)

  abbrev pub parsed : Bytes → Result (Option Value)
  parsed [] = ok none
  parsed (b ∷ bytes) = do value ← json.parse (from_utf8 (b ∷ bytes)); ok (some value)

  unfoldable pub deserialize_json : Option Bytes → Result (Option Value)
  deserialize_json none = ok none
  deserialize_json (some bytes) = parsed bytes
