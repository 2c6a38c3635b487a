-- ===== src/Network/Protocol/Fields.antt =====
-- Reading one field behind another, as the `parse` functions of src/network/protocol/responses do
-- with `offset`.
use kafka_node_ts.Prelude.{
  ℕ, suc, ◌≡◌, ap, append-nil, if◌then◌else◌, ◌∙◌, sym, Option, none, some, List, [], ◌∷◌, ◌++◌,
  length, length-append, append_assoc, map, All, arith,
}
use mathlib.Core.Path.{ap₂, subst}
use kafka_node_ts.Prelude.Int.{ℤ, pos, ◌+ℤ◌, is_negative}
use kafka_node_ts.Prelude.Errors.{ok, ◌>>=◌}
use kafka_node_ts.Buffer.{Bytes, IsInt, int_bytes, read_int}
use kafka_node_ts.Text.{JsString, to_string}
use kafka_node_ts.BasicTypes.Numbers.{Decode, Decodes}
use kafka_node_ts.BasicTypes.NumberLaws.{read_int-Decodes}
use kafka_node_ts.BasicTypes.Strings.{decode_string}
use kafka_node_ts.BasicTypes.StringLaws.{IsWireString, string_bytes, decode_string-Decodes}
use kafka_node_ts.BasicTypes.Arrays.{decode_each}
use kafka_node_ts.BasicTypes.ArrayLaws.{joined}
use kafka_node_ts.BasicTypes.Compact.{rounds}

-- `const value = buffer.readIntBE(offset); offset += width`
unfoldable pub take_int : ℕ → Decode ℤ
take_int width buffer offset = do
  value ← read_int width buffer offset
  ok (value, offset +ℤ pos width)

-- A string behind its length; a negative length moves the offset back.
unfoldable pub take_text : Decode JsString
take_text buffer offset = do
  length ← read_int 2 buffer offset
  let offset = offset +ℤ pos 2
  ok (to_string buffer offset (offset +ℤ length), offset +ℤ length)

-- A string behind its length, where a negative length stands for null.
unfoldable pub take_nullable : Decode (Option JsString)
take_nullable buffer offset = do
  length ← read_int 2 buffer offset
  let offset = offset +ℤ pos 2
  if is_negative length
      then ok (none, offset)
      else ok (some (to_string buffer offset (offset +ℤ length)), offset +ℤ length)

-- `for (let i = 0; i < length; i++)` behind the length.
unfoldable pub take_list {ℓ} : {A : Type ℓ} → Decode A → Decode (List A)
take_list decode buffer offset = do
  (length, offset) ← take_int 4 buffer offset
  decode_each decode (rounds length) buffer offset

-- A decoder that goes on behind what another one has read.
unfoldable pub then_decode {ℓ κ} : {A : Type ℓ} {B : Type κ} → Decode A → (A → Decode B) → Decode B
then_decode decode next buffer offset = do
  (value, offset) ← decode buffer offset
  next value buffer offset

unfoldable pub finish {ℓ} : {A : Type ℓ} → A → Decode A
finish value buffer offset = ok (value, offset)

-- `decode` reads `v` from the bytes `b`, wherever they stand.
pub record Reads {ℓ} {A : Type ℓ} (decode : Decode A) (b : Bytes) (v : A) : Type ℓ where
  pub reads : Decodes decode b v

pub then_decode-Reads {ℓ κ} :
    {A : Type ℓ} {B : Type κ} {decode : Decode A} {b c : Bytes} {v : A} {w : B}
    → (next : A → Decode B) → Reads decode b v
    → Reads (next v) c w
    → Reads (then_decode decode next) (b ++ c) w
unfolding then_decode
then_decode-Reads {decode = decode} {b} {c} {v} {w} next h k = record {
  reads = λ pre post. rw (append_assoc b c post) (
      rw (h.reads pre (c ++ post)) (
        ap₂ (λ (t : Bytes) (i : ℕ). next v t (pos i)) (sym (append_assoc pre b (c ++ post)))
          (sym (length-append pre b))
        ∙ k.reads (pre ++ b) post
        ∙ ap (λ (i : ℕ). ok (w, pos i)) (omega (arith, length-append pre b, length-append b c))));
}

pub finish-Reads {ℓ} : {A : Type ℓ} (v : A) → Reads (finish v) [] v
unfolding finish
finish-Reads v = record { reads = λ pre post. ap (λ (k : ℕ). ok (v, pos k)) (omega arith) }

pub take_int-Reads :
    (w : ℕ) (v : ℤ) → IsInt (suc w) v → Reads (take_int (suc w)) (int_bytes (suc w) v) v
unfolding take_int
take_int-Reads w v h = record { reads = read_int-Decodes w v h }

pub take_nullable-Reads :
    (v : Option JsString) → IsWireString v → Reads take_nullable (string_bytes v) v
unfolding take_nullable decode_string
take_nullable-Reads v h = record { reads = decode_string-Decodes v h }

-- What a field gives is put into the value of the whole.
pub map_decode-Reads {ℓ κ} :
    {A : Type ℓ} {B : Type κ} {decode : Decode A} {b : Bytes} {v : A}
    → (f : A → B) → Reads decode b v
    → Reads (then_decode decode (λ v. finish (f v))) b (f v)
map_decode-Reads {decode = decode} {b} {v} f h =
    subst (λ (c : Bytes). Reads (then_decode decode (λ v. finish (f v))) c (f v)) (append-nil b)
      (then_decode-Reads _ h (finish-Reads (f v)))

-- Where a string that is not null stands, both ways to read it agree.
take_text-nullable :
    (buffer : Bytes) (offset : ℤ) (s : JsString) (o : ℤ)
    → take_nullable buffer offset ≡ ok (some s, o)
    → take_text buffer offset ≡ ok (s, o)
unfolding take_nullable take_text
take_text-nullable buffer offset s o h = ground arith

pub take_text-Reads :
    (s : JsString) → IsWireString (some s) → Reads take_text (string_bytes (some s)) s
take_text-Reads s h = record {
  reads = λ pre post. take_text-nullable _ _ s _ ((take_nullable-Reads (some s) h).reads pre post);
}

-- A count of 4 bytes, and the elements one behind the other.
abbrev pub list_bytes {ℓ} : {A : Type ℓ} → (A → Bytes) → List A → Bytes
list_bytes bytes_of vs = int_bytes 4 (pos (length vs)) ++ joined (map bytes_of vs)

module _ {ℓ} {A : Type ℓ} (decode : Decode A) (bytes_of : A → Bytes) where
  abbrev pub AllRead : List A → Type ℓ
  AllRead vs = All (λ v. Reads decode (bytes_of v) v) vs

  each-Reads :
      (vs : List A)
      → AllRead vs
      → Reads (decode_each decode (length vs)) (joined (map bytes_of vs)) vs
  unfolding decode_each then_decode finish
  each-Reads [] h = finish-Reads []
  each-Reads (v ∷ vs) h =
      then_decode-Reads (λ w. then_decode (decode_each decode (length vs)) (λ ws. finish (w ∷ ws)))
        h.0 (map_decode-Reads (◌∷◌ v) (each-Reads vs h.1))

  pub take_list-Reads :
      (vs : List A)
      → IsInt 4 (pos (length vs))
      → AllRead vs
      → Reads (take_list decode) (list_bytes bytes_of vs) vs
  unfolding take_list then_decode
  take_list-Reads vs fits h =
      then_decode-Reads (λ n. decode_each decode (rounds n))
        (take_int-Reads 3 (pos (length vs)) fits) (each-Reads vs h)
