-- ===== src/Serde/PlatformLaws.antt =====
-- src/serde: doubles and JSON values are deserialized as they were serialized.
use kafka_node_ts.Prelude.{
  ℕ, ◌<◌, ◌^◌, ◌≡◌, ◌≢◌, refl, ap, ◌∙◌, sym, none, some, [], ◌∷◌, length, append-nil, arith,
}
use kafka_node_ts.Prelude.Int.{pos}
use kafka_node_ts.Prelude.Errors.{ok, err, plain_error}
use kafka_node_ts.Buffer.{Bytes, be_bytes, read_pattern}
use kafka_node_ts.Buffer.Numbers.{length-be_bytes, read_pattern-at}
use kafka_node_ts.Text.{JsString, utf8, from_utf8}
use kafka_node_ts.Text.RoundTrip.{IsText, from_utf8-utf8}
use kafka_node_ts.BasicTypes.Floats.{Ieee, IsIeee}
use kafka_node_ts.BasicTypes.FloatLaws.{put_alone}
use kafka_node_ts.Serde.Platform.{
  serialize_double, deserialize_double, Json, serialize_json, deserialize_json, parsed,
}

module _ {Number : Type 0} (ieee : Ieee Number) (h : IsIeee ieee) where
  read_alone : (n : ℕ) → n < 256 ^ 8 → read_pattern 8 (be_bytes 8 n) (pos 0) ≡ ok n
  read_alone n small =
      ap (λ (b : Bytes). read_pattern 8 b (pos 0)) (sym (append-nil (be_bytes 8 n)))
      ∙ read_pattern-at 8 0 n [] [] refl small

  -- On a platform whose numbers are kept in 64 bits, a double is serialized, and the deserializer of
  -- doubles returns it from those bytes; a non-empty array of another size than eight bytes is refused
  -- with an Error.
  pub deserialize_double-serialize_double :
      (v : Number) (other : Bytes)
      → length other ≢ 0
      → length other ≢ 8
      → (b : Bytes) × (serialize_double ieee (some v) ≡ ok b)
        × (deserialize_double ieee (some b) ≡ ok v)
        × (deserialize_double ieee (some other) ≡ err plain_error)
  unfolding serialize_double deserialize_double
  deserialize_double-serialize_double v other n m = (
    be_bytes 8 (ieee.double_bits v),
    ap ok (put_alone 8 (ieee.double_bits v)),
    rw (
      length-be_bytes 8 (ieee.double_bits v),
      read_alone (ieee.double_bits v) (h.double_fits v),
      h.double_again v,
    ),
    ground arith,
  )

module _ {Value : Type 0} (json : Json Value) where
  parsed-some :
      (s : JsString) (bytes : Bytes) (v : Value)
      → from_utf8 bytes ≡ s
      → s ≢ []
      → json.parse s ≡ ok v
      → parsed json bytes ≡ ok (some v)
  parsed-some s [] v e nonempty p = absurd (nonempty (sym e ∙ unfold from_utf8 in refl))
  parsed-some s (b ∷ bytes) v e nonempty p = rw (e, p)

  -- A value that JSON.stringify makes a well-formed, non-empty text of, from which JSON.parse makes the
  -- value again, is deserialized from the bytes to which it was serialized, and so is null, whose bytes
  -- are none.
  pub deserialize_json-serialize_json :
      (v : Value)
      → IsText (json.stringify v)
      → json.stringify v ≢ []
      → json.parse (json.stringify v) ≡ ok v
      → (deserialize_json json (some (serialize_json json (some v))) ≡ ok (some v))
        × (deserialize_json json (some (serialize_json json none)) ≡ ok none)
        × (serialize_json json (some v) ≢ serialize_json json none)
  unfolding serialize_json deserialize_json
  deserialize_json-serialize_json v text nonempty again =
      let back : from_utf8 (utf8 (json.stringify v)) ≡ json.stringify v = from_utf8-utf8 text in
      (
        parsed-some (json.stringify v) (utf8 (json.stringify v)) v back nonempty again,
        refl,
        λ empty. nonempty (sym back ∙ ap from_utf8 empty ∙ unfold from_utf8 in refl),
      )
