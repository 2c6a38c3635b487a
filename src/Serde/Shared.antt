-- ===== src/Serde/Shared.antt =====
-- src/serde/StringSerde.ts: the serdes in memory, and the one that `StringSerde.get` hands out.
use kafka_node_ts.Prelude.{
  ℕ, zero, suc, ◌<◌, ◌≡◌, refl, ap, ◌∙◌, Bool, true, false, Option, none, some, List, [], ◌∷◌, ◌++◌,
  length, length-append, All, arith,
}
use kafka_node_ts.Prelude.Errors.{Result, err, plain_error}
use kafka_node_ts.Buffer.{Bytes}
use kafka_node_ts.Text.{JsString}
use kafka_node_ts.Text.Literals.{codes}
use kafka_node_ts.JsMap.{JsMap, string_key, same_list, get}
use kafka_node_ts.Serde.Strings.{
  Platform, StringSerde, new_string_serde, configure_serializer, configure_deserializer,
  configure_serde, serialize_string, deserialize_string,
}
use kafka_node_ts.Serde.StringLaws.{NamesNone}

-- The objects of the class, by the numbers of their references, and the static field `instance`.
pub record StringSerdes : Type 0 where
  pub objects : List StringSerde
  pub instance_ref : Option ℕ

-- `if (!instance) instance = new StringSerde(); return instance`
abbrev pub get_or_new : Option ℕ → StringSerdes → ℕ × StringSerdes
get_or_new (some i) s = (i, s)
get_or_new none s = (
  length s.objects,
  record { objects = s.objects ++ new_string_serde ∷ []; instance_ref = some (length s.objects) },
)

-- `StringSerde.get`
unfoldable pub get_string_serde : StringSerdes → ℕ × StringSerdes
get_string_serde s = get_or_new s.instance_ref s

abbrev pub object_at : ℕ → List StringSerde → Option StringSerde
object_at i [] = none
object_at zero (o ∷ os) = some o
object_at (suc i) (o ∷ os) = object_at i os

abbrev pub update_at : ℕ → (StringSerde → StringSerde) → List StringSerde → List StringSerde
update_at i f [] = []
update_at zero f (o ∷ os) = f o ∷ os
update_at (suc i) f (o ∷ os) = o ∷ update_at i f os

-- A method called on a reference.
unfoldable pub configure_at :
    ℕ → JsMap JsString JsString → (is_key : Bool) → StringSerdes → StringSerdes
configure_at i configs is_key s = record s {
  objects = update_at i (configure_serde configs is_key) s.objects;
}

abbrev pub serialize_by : Platform → Option JsString → Option StringSerde → Result Bytes
serialize_by platform text none = err plain_error
serialize_by platform text (some o) = serialize_string platform o.serializer_encoding text

abbrev pub deserialize_by : Platform → Option Bytes → Option StringSerde → Result JsString
deserialize_by platform bytes none = err plain_error
deserialize_by platform bytes (some o) = deserialize_string platform o.deserializer_encoding bytes

-- `serde.serializer().serialize(topic, data)` and `serde.deserializer().deserialize(topic, data)`
unfoldable pub serialize_at : Platform → ℕ → Option JsString → StringSerdes → Result Bytes
serialize_at platform i text s = serialize_by platform text (object_at i s.objects)

unfoldable pub deserialize_at : Platform → ℕ → Option Bytes → StringSerdes → Result JsString
deserialize_at platform i bytes s = deserialize_by platform bytes (object_at i s.objects)

-- Calls of `configure`, each on some serde.
unfoldable pub configure_each :
    List (ℕ × (JsMap JsString JsString × Bool)) → StringSerdes → StringSerdes
configure_each [] s = s
configure_each ((i, (configs, is_key)) ∷ calls) s =
    configure_each calls (configure_at i configs is_key s)

-- The static field is empty, or refers to an object.
abbrev pub Refers : Option ℕ → List StringSerde → Type 0
Refers none os = Unit
Refers (some i) os = i < length os

update_at-same :
    (i : ℕ) (f : StringSerde → StringSerde) (os : List StringSerde)
    → ((o : StringSerde) → f o ≡ o)
    → update_at i f os ≡ os
update_at-same i f [] h = refl
update_at-same zero f (o ∷ os) h = ap (λ x. x ∷ os) (h o)
update_at-same (suc i) f (o ∷ os) h = ap (◌∷◌ o) (update_at-same i f os h)

configure_each-kept :
    (calls : List (ℕ × (JsMap JsString JsString × Bool))) (s : StringSerdes)
    → All (λ c. NamesNone c.1) calls
    → configure_each calls s ≡ s
unfolding configure_each configure_at configure_serde configure_serializer configure_deserializer
configure_each-kept [] s h = refl
configure_each-kept ((i, (configs, is_key)) ∷ calls) s h =
    ap (configure_each calls) (
      ap (λ (os : List StringSerde). record s { objects = os })
        (update_at-same i (configure_serde configs is_key) s.objects (λ o. rw (h.0.0, h.0.1) refl)))
    ∙ configure_each-kept calls s h.1

-- What is found under a reference after its object was changed.
object_at-update_at :
    (i : ℕ) (f : StringSerde → StringSerde) (os : List StringSerde)
    → i < length os
    → (o : StringSerde) × (object_at i (update_at i f os) ≡ some (f o))
object_at-update_at i f [] h = absurd (omega arith)
object_at-update_at zero f (o ∷ os) h = (o, refl)
object_at-update_at (suc i) f (o ∷ os) h = object_at-update_at i f os (omega arith)

twice :
    (o : Option ℕ) (s : StringSerdes)
    → s.instance_ref ≡ o
    → Refers o s.objects
    → let first = get_or_new o s in
      let second = get_string_serde first.1 in
      (second.0 ≡ first.0) × (second.1 ≡ first.1) × (first.0 < length first.1.objects)
unfolding get_string_serde
twice none s e h = (refl, refl, omega (arith, length-append s.objects (new_string_serde ∷ [])))
twice (some i) s e h = (rw e refl, rw e refl, h)

-- Two calls of `get` return one reference, to an object.
get-twice :
    (s : StringSerdes)
    → Refers s.instance_ref s.objects
    → let first = get_string_serde s in
      let second = get_string_serde first.1 in
      (second.0 ≡ first.0) × (second.1 ≡ first.1) × (first.0 < length first.1.objects)
get-twice s h = unfold get_string_serde in twice s.instance_ref s refl h

-- What a serde configured for keys serializes and deserializes.
configured :
    (platform : Platform) (configs : JsMap JsString JsString) (o : StringSerde) (u v : ℕ)
    (e d text : JsString) (b : ℕ) (bytes : Bytes)
    → get (codes "key.serializer.encoding") configs ≡ some (u ∷ e)
    → get (codes "key.deserializer.encoding") configs ≡ some (v ∷ d)
    → same_list (u ∷ e) (codes "utf8") ≡ false
    → same_list (v ∷ d) (codes "utf8") ≡ false
    → (serialize_by platform (some text) (some (configure_serde configs true o))
        ≡ platform.to_bytes (u ∷ e) text)
      × (deserialize_by platform (some (b ∷ bytes)) (some (configure_serde configs true o))
          ≡ platform.to_text (v ∷ d) (b ∷ bytes))
unfolding serialize_string deserialize_string configure_serde configure_serializer
    configure_deserializer
configured platform configs o u v e d text b bytes he hd other other_d =
    (rw (he, other) refl, rw (hd, other_d) refl)

-- `get` is called twice, say for keys and for values, whether the one serde exists yet or not. The first
-- result is configured for keys, with two encodings other than UTF-8; then any serdes are configured, for
-- keys and for values, without naming an encoding. Then the second result, for values, serializes each
-- string in the one encoding and deserializes each non-empty array in the other.
pub get-configure_at :
    (platform : Platform) (s : StringSerdes) (configs : JsMap JsString JsString)
    (calls : List (ℕ × (JsMap JsString JsString × Bool))) (u v : ℕ) (e d text : JsString) (b : ℕ)
    (bytes : Bytes)
    → Refers s.instance_ref s.objects
    → get (codes "key.serializer.encoding") configs ≡ some (u ∷ e)
    → get (codes "key.deserializer.encoding") configs ≡ some (v ∷ d)
    → same_list (u ∷ e) (codes "utf8") ≡ false
    → same_list (v ∷ d) (codes "utf8") ≡ false
    → All (λ c. NamesNone c.1) calls
    → let for_keys = get_string_serde s in
      let for_values = get_string_serde for_keys.1 in
      let after = configure_each calls (configure_at for_keys.0 configs true for_values.1) in
      (serialize_at platform for_values.0 (some text) after ≡ platform.to_bytes (u ∷ e) text)
      × (deserialize_at platform for_values.0 (some (b ∷ bytes)) after
          ≡ platform.to_text (v ∷ d) (b ∷ bytes))
unfolding serialize_at deserialize_at configure_at
get-configure_at platform s configs calls u v e d text b bytes h he hd other other_d quiet =
    let (same, kept, inside) = get-twice s h in
    let first = get_string_serde s in
    let (o, found) =
      object_at-update_at first.0 (configure_serde configs true) first.1.objects inside in
    let (x, y) = configured platform configs o u v e d text b bytes he hd other other_d in
    rw (same, kept, configure_each-kept calls _ quiet, found) (x, y)
