-- ===== src/Serde/StringLaws.antt =====
-- src/serde/StringSerde.ts: the round trip of a serde that was configured without naming an encoding.
use kafka_node_ts.Prelude.{◌≡◌, refl, ap, ◌∙◌, Bool, none, some, List, [], ◌∷◌, All}
use kafka_node_ts.Prelude.Errors.{ok}
use kafka_node_ts.Buffer.{Bytes}
use kafka_node_ts.Text.{JsString, utf8, from_utf8}
use kafka_node_ts.Text.Literals.{codes}
use kafka_node_ts.Text.RoundTrip.{IsText, from_utf8-utf8}
use kafka_node_ts.JsMap.{JsMap, string_key, get}
use kafka_node_ts.Serde.Strings.{
  Platform, StringSerde, new_string_serde, config_name, configure_serializer,
  configure_deserializer, configure_serde, serialize_string, text_in, deserialize_string,
}

-- The calls of `configure`, one after the other.
unfoldable pub configure_all : List (JsMap JsString JsString × Bool) → StringSerde → StringSerde
configure_all [] serde = serde
configure_all ((configs, is_key) ∷ calls) serde =
    configure_all calls (configure_serde configs is_key serde)

-- A configuration that names no encoding for the part that it is for.
abbrev pub NamesNone : JsMap JsString JsString × Bool → Type 0
NamesNone (configs, is_key) =
    (get (config_name is_key (codes ".serializer.encoding")) configs ≡ none)
    × (get (config_name is_key (codes ".deserializer.encoding")) configs ≡ none)

configure_all-kept :
    (calls : List (JsMap JsString JsString × Bool)) (serde : StringSerde)
    → All NamesNone calls
    → configure_all calls serde ≡ serde
unfolding configure_all configure_serde configure_serializer configure_deserializer
configure_all-kept [] serde h = refl
configure_all-kept ((configs, is_key) ∷ calls) serde h =
    rw (h.0.0, h.0.1) (configure_all-kept calls serde h.1)

text_in-utf8 :
    (platform : Platform) (bytes : Bytes)
    → text_in platform (codes "utf8") bytes ≡ ok (from_utf8 bytes)
text_in-utf8 platform [] = unfold from_utf8 in refl
text_in-utf8 platform (b ∷ bytes) = refl

-- A serde that was configured any number of times, for keys and for values, without naming an encoding,
-- and a string without lone surrogates, on a platform of any other encodings: the string is deserialized
-- from the bytes to which it was serialized, which are its UTF-8; null is serialized to no bytes, and
-- null is deserialized to the empty string.
pub deserialize_string-serialize_string :
    (platform : Platform) (calls : List (JsMap JsString JsString × Bool)) (s : JsString)
    → All NamesNone calls
    → IsText s
    → let serde : StringSerde = configure_all calls new_string_serde in
      (serialize_string platform serde.serializer_encoding (some s) ≡ ok (utf8 s))
      × (deserialize_string platform serde.deserializer_encoding (some (utf8 s)) ≡ ok s)
      × (serialize_string platform serde.serializer_encoding none ≡ ok [])
      × (deserialize_string platform serde.deserializer_encoding none ≡ ok [])
unfolding serialize_string deserialize_string
deserialize_string-serialize_string platform calls s quiet text =
    rw (configure_all-kept calls new_string_serde quiet)
      (refl, text_in-utf8 platform (utf8 s) ∙ ap ok (from_utf8-utf8 text), refl, refl)
