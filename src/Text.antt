-- ===== src/Text.antt =====
-- JavaScript strings and UTF-8, as `Buffer.byteLength`, `Buffer.from`, `buffer.write` and
-- `buffer.toString('utf8')` treat them. A string is the list of its UTF-16 code units. Encoding
-- puts U+FFFD for a lone surrogate, and decoding puts it for each maximal ill-formed part.
pub mod RoundTrip
pub mod Literals
use kafka_node_ts.Prelude.{
  ℕ, zero, suc, ◌+◌, ◌-◌, ◌*◌, ◌/◌, ◌%◌, ◌≤◌, ◌<◌, Bool, true, false, ◌&&◌, List, [], ◌∷◌, ◌++◌,
  length, ltb, leb, ◌==◌, if◌then◌else◌,
}
use kafka_node_ts.Prelude.Int.{ℤ}
use kafka_node_ts.Buffer.{Bytes, put, text_range}
use kafka_node_ts.Prelude.Errors.{Result, ok, err, range_error}

abbrev pub JsString : Type 0
JsString = List ℕ

abbrev pub within : ℕ → ℕ → ℕ → Bool
within lo hi c = leb lo c && leb c hi

abbrev pub is_high : ℕ → Bool
is_high u = within 0xd800 0xdbff u

abbrev pub is_low : ℕ → Bool
is_low u = within 0xdc00 0xdfff u

abbrev pub replacement : ℕ
replacement = 0xfffd

abbrev pub join_pair : ℕ → ℕ → ℕ
join_pair u v = 0x1_0000 + (u - 0xd800) * 1024 + (v - 0xdc00)

abbrev pub scalar : ℕ → ℕ
scalar u = if within 0xd800 0xdfff u then replacement else u

pub code_points : JsString → List ℕ
code_points [] = []
code_points (u ∷ []) = scalar u ∷ []
code_points (u ∷ v ∷ s) = elim (is_high u && is_low v) [
  | true ↦ join_pair u v ∷ code_points s
  | false ↦ scalar u ∷ code_points (v ∷ s)
]

pub utf8_of_point : ℕ → Bytes
utf8_of_point p =
    if ltb p 0x80
    then p ∷ []
    else if ltb p 0x800
    then (0xc0 + p / 64) ∷ (0x80 + p % 64) ∷ []
    else if ltb p 0x1_0000
    then (0xe0 + p / 4096) ∷ (0x80 + p / 64 % 64) ∷ (0x80 + p % 64) ∷ []
    else (0xf0 + p / 262144) ∷ (0x80 + p / 4096 % 64) ∷ (0x80 + p / 64 % 64) ∷ (0x80 + p % 64) ∷ []

pub utf8_of_points : List ℕ → Bytes
utf8_of_points [] = []
utf8_of_points (p ∷ ps) = utf8_of_point p ++ utf8_of_points ps

-- `Buffer.from(s, 'utf8')`
unfoldable pub utf8 : JsString → Bytes
unfolding code_points utf8_of_point utf8_of_points
utf8 s = utf8_of_points (code_points s)

-- `Buffer.byteLength(s)`
abbrev pub byte_length : JsString → ℕ
byte_length s = length (utf8 s)

-- The whole characters that fit in `room` bytes: `buf.write` writes no part of a character.
pub fitting : ℕ → List ℕ → Bytes
fitting room [] = []
fitting room (p ∷ ps) =
    let e = utf8_of_point p in
    let more = fitting (room - length e) ps in if leb (length e) room then e ++ more else []

-- `buf.write(s, offset)`
unfoldable pub write_string : Bytes → JsString → ℕ → Result Bytes
unfolding fitting code_points
write_string buf s offset =
    if leb offset (length buf)
    then ok (put buf offset (fitting (length buf - offset) (code_points s)))
    else err range_error

-- The decoder: between characters, or inside one that still needs `suc n` bytes, the next of them
-- from `lo` to `hi`.
pub data Decoding : Type 0 where
  between : Decoding
  inside : (n lo hi point : ℕ) → Decoding

pub units_of_point : ℕ → JsString
units_of_point p =
    if ltb p 0x1_0000
    then p ∷ []
    else (0xd800 + (p - 0x1_0000) / 1024) ∷ (0xdc00 + (p - 0x1_0000) % 1024) ∷ []

pub first_byte : ℕ → JsString × Decoding
first_byte b =
    if ltb b 0x80
    then (b ∷ [], between)
    else if within 0xc2 0xdf b
    then ([], inside 0 0x80 0xbf (b - 0xc0))
    else if b == 0xe0
    then ([], inside 1 0xa0 0xbf 0)
    else if b == 0xed
    then ([], inside 1 0x80 0x9f 0xd)
    else if within 0xe1 0xef b
    then ([], inside 1 0x80 0xbf (b - 0xe0))
    else if b == 0xf0
    then ([], inside 2 0x90 0xbf 0)
    else if b == 0xf4
    then ([], inside 2 0x80 0x8f 4)
    else if within 0xf1 0xf3 b
    then ([], inside 2 0x80 0xbf (b - 0xf0))
    else (replacement ∷ [], between)

pub next_byte : Decoding → ℕ → JsString × Decoding
next_byte between b = first_byte b
next_byte (inside zero lo hi p) b =
    if within lo hi b
    then (units_of_point (p * 64 + (b - 0x80)), between)
    else (let (out, d) = first_byte b in (replacement ∷ out, d))
next_byte (inside (suc n) lo hi p) b =
    if within lo hi b
    then ([], inside n 0x80 0xbf (p * 64 + (b - 0x80)))
    else (let (out, d) = first_byte b in (replacement ∷ out, d))

pub decode_from : Decoding → Bytes → JsString
decode_from between [] = []
decode_from (inside n lo hi p) [] = replacement ∷ []
decode_from d (b ∷ bs) = let (out, d') = next_byte d b in out ++ decode_from d' bs

-- `buf.toString('utf8')` of a whole buffer, and of a range.
unfoldable pub from_utf8 : Bytes → JsString
unfolding decode_from next_byte first_byte units_of_point
from_utf8 = decode_from between

abbrev pub to_string : Bytes → ℤ → ℤ → JsString
to_string buf start end = from_utf8 (text_range buf start end)
