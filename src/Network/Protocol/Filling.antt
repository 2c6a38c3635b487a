-- ===== src/Network/Protocol/Filling.antt =====
-- src/network/protocol/Protocol.ts: values written one behind the other into a buffer that has room
-- for them, and read back.
use kafka_node_ts.Prelude.{
  ℕ, ◌+◌, ◌≡◌, refl, ap, ◌∙◌, sym, Bool, true, false, Bool-cases, inl, inr, Option, none, some,
  List, [], ◌∷◌, ◌++◌, length, length-append, append-nil, append_assoc, map, All, ltb,
  if◌then◌else◌, arith,
}
use mathlib.Core.Path.{ap₂, subst}
use kafka_node_ts.Prelude.Int.{ℤ, pos, negsuc}
use kafka_node_ts.Prelude.Errors.{Result, ok, err, ◌>>=◌}
use kafka_node_ts.Buffer.{Bytes, alloc, IsInt, fits_int, int_bytes, to_pattern, write_int}
use kafka_node_ts.Buffer.Numbers.{length-be_bytes}
use kafka_node_ts.Buffer.Frontier.{write_int-next}
use kafka_node_ts.Text.{JsString, utf8, byte_length, write_string}
use kafka_node_ts.Text.RoundTrip.{write_string-next}
use kafka_node_ts.BasicTypes.StringLaws.{IsWireString, string_bytes}
use kafka_node_ts.BasicTypes.ArrayLaws.{joined}
use kafka_node_ts.Network.Protocol.{Write, write_boolean, write_nullable, write_each, write_array}
use kafka_node_ts.Network.Protocol.Fields.{list_bytes}

-- What writes into a buffer at an offset.
abbrev pub Filling : Type 0
Filling = Bytes → ℕ → Result (Bytes × ℕ)

unfoldable pub then_fill : Filling → Filling → Filling
then_fill first next buffer offset = do (buffer, offset) ← first buffer offset; next buffer offset

-- `buffer.writeIntBE(value, offset); offset += width`
unfoldable pub fill_int : ℕ → ℤ → Filling
fill_int width value buffer offset = do
  buffer ← write_int width buffer value offset
  ok (buffer, offset + width)

-- `buffer.write(value, offset); offset += length`
unfoldable pub fill_string : JsString → Filling
fill_string value buffer offset = do
  buffer ← write_string buffer value offset
  ok (buffer, offset + byte_length value)

-- A string behind its length.
unfoldable pub fill_text : JsString → Filling
fill_text value = then_fill (fill_int 2 (pos (byte_length value))) (fill_string value)

-- Where `b` fits behind what is written, it is what `fill` writes there.
pub record Fills (fill : Filling) (b : Bytes) : Type 0 where
  pub fills :
      (out : Bytes) (i n m : ℕ)
      → i ≡ length out
      → n ≡ length b + m
      → fill (out ++ alloc n) i ≡ ok ((out ++ b) ++ alloc m, i + length b)

pub then_fill-Fills :
    {first next : Filling} {b c : Bytes}
    → Fills first b
    → Fills next c
    → Fills (then_fill first next) (b ++ c)
unfolding then_fill
then_fill-Fills {first} {next} {b} {c} h k = record {
  fills = λ out i n m hi hn.
      rw (h.fills out i n (length c + m) hi (omega (arith, length-append b c))) (
        k.fills (out ++ b) (i + length b) (length c + m) m (omega (arith, length-append out b)) refl
        ∙ ap₂ (λ (t : Bytes) (j : ℕ). ok (t ++ alloc m, j)) (append_assoc out b c)
            (omega (arith, length-append b c)));
}

pub fill_int-Fills : (w : ℕ) (v : ℤ) → IsInt w v → Fills (fill_int w v) (int_bytes w v)
unfolding fill_int
fill_int-Fills w v h = record {
  fills = λ out i n m hi hn.
      rw (write_int-next out i n m hi w v h (omega (arith, length-be_bytes w (to_pattern w v)))) (
        ap (λ (k : ℕ). ok ((out ++ int_bytes w v) ++ alloc m, i + k))
          (sym (length-be_bytes w (to_pattern w v))));
}

fill_string-Fills : (s : JsString) → Fills (fill_string s) (utf8 s)
unfolding fill_string
fill_string-Fills s = record {
  fills = λ out i n m hi hn. rw (write_string-next out i n m s hi hn) refl;
}

pub fill_text-Fills :
    (s : JsString) → IsWireString (some s) → Fills (fill_text s) (string_bytes (some s))
unfolding fill_text
fill_text-Fills s (t, h) =
    then_fill-Fills (fill_int-Fills 2 (pos (byte_length s)) h) (fill_string-Fills s)

pub write_boolean-Fills :
    (v : Bool)
    → Fills
        (λ buffer offset. write_boolean buffer v offset)
        (int_bytes 1 (if v then pos 1 else pos 0))
unfolding write_boolean fill_int
write_boolean-Fills true = fill_int-Fills 1 (pos 1) (unfold fits_int in refl)
write_boolean-Fills false = fill_int-Fills 1 (pos 0) (unfold fits_int in refl)

bind_assoc :
    (r : Result Bytes) (j : ℕ) (next : Filling)
    → (r >>= λ b. next b j) ≡ (do (b, j) ← (do b ← r; ok (b, j)); next b j)
bind_assoc (ok b) j next = refl
bind_assoc (err e) j next = refl

-- A number, and what goes on behind it.
pub int_then-Fills :
    (w : ℕ) (v : ℤ) (next : Filling) {c : Bytes}
    → IsInt w v
    → Fills next c
    → Fills
        (λ buffer offset. write_int w buffer v offset >>= λ buffer. next buffer (offset + w))
        (int_bytes w v ++ c)
unfolding then_fill fill_int
int_then-Fills w v next h k = record {
  fills = λ out i n m hi hn.
      bind_assoc (write_int w (out ++ alloc n) v i) (i + w) next
      ∙ (then_fill-Fills (fill_int-Fills w v h) k).fills out i n m hi hn;
}

pub none-Fills : Fills (λ buffer offset. ok (buffer, offset)) []
none-Fills = record {
  fills = λ out i n m hi hn.
      ap₂ (λ (t : Bytes) (j : ℕ). ok (t, j))
        (ap₂ (λ (t : Bytes) (k : ℕ). t ++ alloc k) (sym (append-nil out)) (omega arith))
        (omega arith);
}

-- An empty string leaves out the call of `write`, which would write nothing.
text_or_none-Fills :
    (s : JsString)
    → Fills
        (λ buffer offset.
          if ltb 0 (byte_length s) then fill_string s buffer offset else ok (buffer, offset))
        (utf8 s)
text_or_none-Fills s = elim (Bool-cases (ltb 0 (byte_length s))) [
  | inl filled ↦ rw filled (fill_string-Fills s)
  | inr empty ↦
      rw empty
        (subst (Fills (λ buffer offset. ok (buffer, offset))) (nothing (utf8 s) empty) none-Fills)
]
  where
    nothing : (b : Bytes) → ltb 0 (length b) ≡ false → [] ≡ b
    nothing [] h = refl
    nothing (x ∷ b) h = ground arith

pub write_nullable-Fills :
    (v : Option JsString)
    → IsWireString v
    → Fills (λ buffer offset. write_nullable buffer v offset) (string_bytes v)
unfolding write_nullable fill_int fill_string
write_nullable-Fills none h = fill_int-Fills 2 (negsuc 0) (unfold fits_int in refl)
write_nullable-Fills (some s) (t, h) =
    int_then-Fills 2 (pos (byte_length s)) _ h (text_or_none-Fills s)

module _ {ℓ} {A : Type ℓ} (write : Write A) (bytes_of : A → Bytes) where
  abbrev pub AllFill : List A → Type 0
  AllFill vs = All (λ v. Fills (λ buffer offset. write buffer v offset) (bytes_of v)) vs

  pub write_each-Fills :
      (vs : List A)
      → AllFill vs
      → Fills (λ buffer offset. write_each write buffer vs offset) (joined (map bytes_of vs))
  unfolding write_each then_fill
  write_each-Fills [] h = none-Fills
  write_each-Fills (v ∷ vs) h = then_fill-Fills h.0 (write_each-Fills vs h.1)

  pub write_array-Fills :
      (vs : List A)
      → IsInt 4 (pos (length vs))
      → AllFill vs
      → Fills (λ buffer offset. write_array write buffer (some vs) offset) (list_bytes bytes_of vs)
  unfolding write_array
  write_array-Fills vs fits h =
      int_then-Fills 4 (pos (length vs)) (λ buffer offset. write_each write buffer vs offset) fits
        (write_each-Fills vs h)
