-- ===== src/Serde/Strings.antt =====
-- src/serde/StringSerializer.ts, StringDeserializer.ts and StringSerde.ts: strings in an encoding that
-- the configuration names. UTF-8 is the one of `Text`; any other is the platform's, `Platform`.
use kafka_node_ts.Prelude.{Bool, Option, none, some, [], ◌∷◌, ◌++◌, if◌then◌else◌}
use kafka_node_ts.Prelude.Errors.{Result, ok}
use kafka_node_ts.Buffer.{Bytes, alloc}
use kafka_node_ts.Text.{JsString, utf8, from_utf8}
use kafka_node_ts.Text.Literals.{codes}
use kafka_node_ts.JsMap.{JsMap, same_list, string_key, get}

-- `Buffer.from(s, encoding)` and `b.toString(encoding)` for other encodings than 'utf8'; a name that the
-- platform does not know is refused.
pub record Platform : Type 0 where
  pub to_bytes : (encoding : JsString) → JsString → Result Bytes
  pub to_text : (encoding : JsString) → Bytes → Result JsString

-- The field `encoding` of the serializer and of the deserializer.
pub record StringSerde : Type 0 where
  pub serializer_encoding : JsString
  pub deserializer_encoding : JsString

abbrev pub new_string_serde : StringSerde
new_string_serde = record {
  serializer_encoding = codes "utf8";
  deserializer_encoding = codes "utf8";
}

-- `if (encodingConfig) this.encoding = encodingConfig`
abbrev pub or_encoding : Option JsString → JsString → JsString
or_encoding none old = old
or_encoding (some []) old = old
or_encoding (some (u ∷ s)) old = u ∷ s

abbrev pub config_name : (is_key : Bool) → (kind : JsString) → JsString
config_name is_key kind = (if is_key then codes "key" else codes "value") ++ kind

-- `configure(configs, isKey)` of the serializer and of the deserializer, and of both by the serde.
unfoldable pub configure_serializer :
    JsMap JsString JsString → (is_key : Bool) → JsString → JsString
configure_serializer configs is_key encoding =
    or_encoding (get (config_name is_key (codes ".serializer.encoding")) configs) encoding

unfoldable pub configure_deserializer :
    JsMap JsString JsString → (is_key : Bool) → JsString → JsString
configure_deserializer configs is_key encoding =
    or_encoding (get (config_name is_key (codes ".deserializer.encoding")) configs) encoding

unfoldable pub configure_serde :
    JsMap JsString JsString → (is_key : Bool) → StringSerde → StringSerde
configure_serde configs is_key serde = record {
  serializer_encoding = configure_serializer configs is_key serde.serializer_encoding;
  deserializer_encoding = configure_deserializer configs is_key serde.deserializer_encoding;
}

module _ (platform : Platform) where
  unfoldable pub serialize_string : (encoding : JsString) → Option JsString → Result Bytes
  serialize_string encoding none = ok (alloc 0)
  serialize_string encoding (some s) =
      if same_list encoding (codes "utf8") then ok (utf8 s) else platform.to_bytes encoding s

  abbrev pub text_in : (encoding : JsString) → Bytes → Result JsString
  text_in encoding [] = ok []
  text_in encoding (b ∷ bytes) =
      if same_list encoding (codes "utf8")
      then ok (from_utf8 (b ∷ bytes))
      else platform.to_text encoding (b ∷ bytes)

  unfoldable pub deserialize_string : (encoding : JsString) → Option Bytes → Result JsString
  deserialize_string encoding none = ok []
  deserialize_string encoding (some bytes) = text_in encoding bytes
