-- ===== src/Serde/Pairs.antt =====
-- src/serde/Serde.ts and src/serde/Serdes.ts: a serializer and a deserializer as one serde, whose
-- `configure` and `close` are those of the two, where they have them.
use kafka_node_ts.Prelude.{◌≡◌, refl, ap, Bool, Option, none, some}
use kafka_node_ts.Prelude.Errors.{Error}
use kafka_node_ts.Text.{JsString}
use kafka_node_ts.JsMap.{JsMap}
use kafka_node_ts.Serde.Strings.{
  StringSerde, configure_serializer, configure_deserializer, configure_serde,
}

-- What a method leaves of an object, with the exception that it throws, if any.
abbrev pub Call : Type 0 → Type 0
Call S = S → S × Option Error

-- The optional methods of a serializer or a deserializer whose fields are an `S`.
pub record Part (Configs S : Type 0) : Type 0 where
  pub configure : Option (Configs → (is_key : Bool) → Call S)
  pub close : Option (Call S)

-- `if (part.configure) part.configure(configs, isKey)`
abbrev pub configure_part :
    {Configs S : Type 0} → Option (Configs → (is_key : Bool) → Call S) → Configs → Bool → Call S
configure_part none configs is_key part = (part, none)
configure_part (some method) configs is_key part = method configs is_key part

abbrev pub close_part : {S : Type 0} → Option (Call S) → Call S
close_part none part = (part, none)
close_part (some method) part = method part

-- One statement and the next one, which an exception skips.
abbrev pub both : {S D : Type 0} → Call S → Call D → Call (S × D)
both first second (s, d) =
    let (s', thrown) = first s in
    elim thrown [
      | some error ↦ ((s', d), some error)
      | none ↦ let (d', thrown_next) = second d in ((s', d'), thrown_next)
    ]

module _ {Configs S D : Type 0} (serializer : Part Configs S) (deserializer : Part Configs D) where
  -- `configure` and `close` of `AbstractSerde`.
  unfoldable pub configure_both : Configs → (is_key : Bool) → Call (S × D)
  configure_both configs is_key =
      both (configure_part serializer.configure configs is_key)
        (configure_part deserializer.configure configs is_key)

  unfoldable pub close_both : Call (S × D)
  close_both = both (close_part serializer.close) (close_part deserializer.close)

  -- `Serdes.serdeFrom`
  unfoldable pub serde_from : Part Configs (S × D)
  serde_from = record {
    configure = some (λ configs is_key.
        both (configure_part serializer.configure configs is_key)
          (configure_part deserializer.configure configs is_key));
    close = some (both (close_part serializer.close) (close_part deserializer.close));
  }

  -- A serde whose serializer throws an exception in `configure` does not reach its deserializer.
  configure_both-throws :
      (method : Configs → Bool → Call S) (configs : Configs) (is_key : Bool) (s s' : S) (d : D)
      (error : Error)
      → serializer.configure ≡ some method
      → method configs is_key s ≡ (s', some error)
      → configure_both configs is_key (s, d) ≡ ((s', d), some error)
  unfolding configure_both
  configure_both-throws method configs is_key s s' d error has throws =
      rw has (rw (throws, both) (ap (λ (x : S × Option Error). ((x.0, d), some error)) throws))

-- The serializer and the deserializer of strings.
abbrev pub string_serializer : Part (JsMap JsString JsString) JsString
string_serializer = record {
  configure =
      some (λ configs is_key encoding. (configure_serializer configs is_key encoding, none));
  close = none;
}

abbrev pub string_deserializer : Part (JsMap JsString JsString) JsString
string_deserializer = record {
  configure =
      some (λ configs is_key encoding. (configure_deserializer configs is_key encoding, none));
  close = none;
}

-- The serde of strings is configured by its parts.
configure_both-strings :
    (configs : JsMap JsString JsString) (is_key : Bool) (serde : StringSerde)
    → configure_both string_serializer string_deserializer configs is_key
        (serde.serializer_encoding, serde.deserializer_encoding)
      ≡ (
        (
          (configure_serde configs is_key serde).serializer_encoding,
          (configure_serde configs is_key serde).deserializer_encoding,
        ),
        none,
      )
unfolding configure_both configure_serde
configure_both-strings configs is_key serde = refl
