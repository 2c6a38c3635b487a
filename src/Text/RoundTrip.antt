-- ===== src/Text/RoundTrip.antt =====
-- A string without lone surrogates comes back from its UTF-8 bytes.
use kafka_node_ts.Prelude.{
  ℕ, ◌+◌, ◌-◌, ◌≤◌, ◌<◌, ◌≡◌, refl, ap, ◌∙◌, true, ◌⊎◌, List, [], ◌∷◌, ◌++◌, length, length-append,
  length-replicate, le→leb, arith,
}
use kafka_node_ts.Prelude.Errors.{ok}
use kafka_node_ts.Buffer.{Bytes, alloc}
use kafka_node_ts.Buffer.Frontier.{put-next}
use kafka_node_ts.Text.{
  JsString, code_points, utf8_of_point, utf8_of_points, utf8, fitting, write_string, between,
  units_of_point, first_byte, next_byte, decode_from, from_utf8, is_high, is_low, join_pair,
}

-- No surrogate stands alone.
pub data IsText : JsString → Type 0 where
  nil : IsText []
  unit :
      {s : JsString} (u : ℕ)
      → (u < 0xd800) ⊎ ((0xe000 ≤ u) × (u < 0x1_0000))
      → IsText s
      → IsText (u ∷ s)
  pair :
      {s : JsString} (u v : ℕ) → is_high u ≡ true → is_low v ≡ true → IsText s → IsText (u ∷ v ∷ s)

one_byte :
    (p : ℕ) (rest : Bytes)
    → p < 0x80
    → decode_from between (utf8_of_point p ++ rest) ≡ p ∷ decode_from between rest
unfolding utf8_of_point decode_from next_byte first_byte
one_byte p rest h = ground arith

two_bytes :
    (p : ℕ) (rest : Bytes)
    → 0x80 ≤ p
    → p < 0x800
    → decode_from between (utf8_of_point p ++ rest) ≡ p ∷ decode_from between rest
unfolding utf8_of_point decode_from next_byte first_byte units_of_point
two_bytes p rest g h = ground arith

three_bytes :
    (p : ℕ) (rest : Bytes)
    → 0x800 ≤ p
    → (p < 0xd800) ⊎ ((0xe000 ≤ p) × (p < 0x1_0000))
    → decode_from between (utf8_of_point p ++ rest) ≡ p ∷ decode_from between rest
unfolding utf8_of_point decode_from next_byte first_byte units_of_point
three_bytes p rest g h = ground arith

above_plane :
    (p : ℕ) (rest : Bytes)
    → 0x1_0000 ≤ p
    → p < 0x11_0000
    → decode_from between (utf8_of_point p ++ rest) ≡ units_of_point p ++ decode_from between rest
unfolding utf8_of_point decode_from next_byte first_byte
above_plane p rest g h = ground arith

units_of_pair :
    (u v : ℕ) → is_high u ≡ true → is_low v ≡ true → units_of_point (join_pair u v) ≡ u ∷ v ∷ []
unfolding units_of_point
units_of_pair u v g h = ground arith

pair_in_range :
    (u v : ℕ)
    → is_high u ≡ true
    → is_low v ≡ true
    → (0x1_0000 ≤ join_pair u v) × (join_pair u v < 0x11_0000)
pair_in_range u v g h = ground arith

four_bytes :
    (u v : ℕ) (rest : Bytes)
    → is_high u ≡ true
    → is_low v ≡ true
    → decode_from between (utf8_of_point (join_pair u v) ++ rest) ≡ u ∷ v ∷ decode_from between rest
four_bytes u v rest g h =
    let (lo, hi) = pair_in_range u v g h in
    above_plane (join_pair u v) rest lo hi
    ∙ ap (λ (us : JsString). us ++ decode_from between rest) (units_of_pair u v g h)

code_points-unit :
    (u : ℕ) (s : JsString)
    → (u < 0xd800) ⊎ ((0xe000 ≤ u) × (u < 0x1_0000))
    → code_points (u ∷ s) ≡ u ∷ code_points s
unfolding code_points
code_points-unit u [] h = ground arith
code_points-unit u (v ∷ s) h = ground arith

code_points-pair :
    (u v : ℕ) (s : JsString)
    → is_high u ≡ true
    → is_low v ≡ true
    → code_points (u ∷ v ∷ s) ≡ join_pair u v ∷ code_points s
unfolding code_points
code_points-pair u v s g h = ground arith

point_below :
    (p : ℕ) (rest : Bytes)
    → (p < 0xd800) ⊎ ((0xe000 ≤ p) × (p < 0x1_0000))
    → decode_from between (utf8_of_point p ++ rest) ≡ p ∷ decode_from between rest
point_below p rest h = ground (arith, one_byte p rest, two_bytes p rest, three_bytes p rest)

decode-points : {s : JsString} → IsText s → decode_from between (utf8_of_points (code_points s)) ≡ s
unfolding utf8_of_points
decode-points nil = unfold code_points decode_from in refl
decode-points (unit {s} u h t) =
    rw (code_points-unit u s h)
      (point_below u (utf8_of_points (code_points s)) h ∙ ap (◌∷◌ u) (decode-points t))
decode-points (pair {s} u v g h t) = rw (code_points-pair u v s g h) (
    four_bytes u v (utf8_of_points (code_points s)) g h
    ∙ ap (λ (r : JsString). u ∷ v ∷ r) (decode-points t))

pub from_utf8-utf8 : {s : JsString} → IsText s → from_utf8 (utf8 s) ≡ s
unfolding from_utf8 utf8
from_utf8-utf8 t = decode-points t

fitting-all :
    (room : ℕ) (ps : List ℕ)
    → length (utf8_of_points ps) ≤ room
    → fitting room ps ≡ utf8_of_points ps
unfolding fitting utf8_of_points
fitting-all room [] h = refl
fitting-all room (p ∷ ps) h = rw (le→leb (length (utf8_of_point p)) room (omega (arith, total))) (
    ap (◌++◌ (utf8_of_point p))
      (fitting-all (room - length (utf8_of_point p)) ps (omega (arith, total))))
  where
    total :
        length (utf8_of_point p ++ utf8_of_points ps)
        ≡ length (utf8_of_point p) + length (utf8_of_points ps)
    total = length-append (utf8_of_point p) (utf8_of_points ps)

-- A text that fits is written whole, at the frontier of a buffer that is being filled.
pub write_string-next :
    (out : Bytes) (i n m : ℕ) (s : JsString)
    → i ≡ length out
    → n ≡ length (utf8 s) + m
    → write_string (out ++ alloc n) s i ≡ ok ((out ++ utf8 s) ++ alloc m)
unfolding write_string utf8
write_string-next out i n m s hi hn =
    rw
      (
        le→leb i (length (out ++ alloc n)) (omega (arith, total)),
        fitting-all (length (out ++ alloc n) - i) (code_points s) (omega (arith, total)),
      )
      (ap ok (put-next out i n m hi (utf8_of_points (code_points s)) hn))
  where
    total : length (out ++ alloc n) ≡ length out + n
    total = omega (arith, length-append out (alloc n), length-replicate {A = ℕ} n 0)
