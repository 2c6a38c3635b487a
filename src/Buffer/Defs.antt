-- ===== src/Buffer/Defs.antt =====
-- The operations on byte lists.
use kafka_node_ts.Prelude.{
  ℕ, zero, suc, ◌+◌, ◌-◌, ◌*◌, ◌/◌, ◌%◌, ◌^◌, ◌<◌, min, ◌≡◌, Bool, true, false, List, [], ◌∷◌, ◌++◌,
  length, take, drop, replicate, ltb, leb, if◌then◌else◌,
}
use kafka_node_ts.Prelude.Int.{ℤ, pos, negsuc}
use kafka_node_ts.Prelude.Errors.{Result, ok, err, range_error, ◌>>=◌}

abbrev pub Bytes : Type 0
Bytes = List ℕ

abbrev pub IsByte : ℕ → Type 0
IsByte b = b < 256

-- `Buffer.alloc`
abbrev pub alloc : ℕ → Bytes
alloc n = replicate n 0

-- `w` bytes of `n`, the highest first, and the number that bytes stand for.
unfoldable pub be_bytes : ℕ → ℕ → Bytes
be_bytes zero n = []
be_bytes (suc w) n = be_bytes w (n / 256) ++ (n % 256) ∷ []

unfoldable pub be_value_from : ℕ → Bytes → ℕ
be_value_from acc [] = acc
be_value_from acc (b ∷ bs) = be_value_from (acc * 256 + b) bs

abbrev pub be_value : Bytes → ℕ
be_value bs = be_value_from 0 bs

-- Whether a number can be written in `w` bytes, with and without a sign.
unfoldable pub fits_int : ℕ → ℤ → Bool
fits_int w (pos n) = ltb (2 * n) (256 ^ w)
fits_int w (negsuc n) = ltb (2 * n) (256 ^ w)

unfoldable pub fits_uint : ℕ → ℤ → Bool
fits_uint w (pos n) = ltb n (256 ^ w)
fits_uint w (negsuc n) = false

abbrev pub IsInt : ℕ → ℤ → Type 0
IsInt w v = fits_int w v ≡ true

abbrev pub IsUint : ℕ → ℤ → Type 0
IsUint w v = fits_uint w v ≡ true

-- Two's complement.
unfoldable pub to_pattern : ℕ → ℤ → ℕ
to_pattern w (pos n) = n
to_pattern w (negsuc n) = 256 ^ w - 1 - n

unfoldable pub of_pattern : ℕ → ℕ → ℤ
of_pattern w u = if ltb (2 * u) (256 ^ w) then pos u else negsuc (256 ^ w - 1 - u)

abbrev pub int_bytes : ℕ → ℤ → Bytes
int_bytes w v = be_bytes w (to_pattern w v)

-- Bytes written over a buffer from an index on; what does not fit is dropped (`copy`, `set`).
unfoldable pub overlay : Bytes → Bytes → Bytes
overlay [] src = []
overlay (b ∷ buf) [] = b ∷ buf
overlay (b ∷ buf) (x ∷ src) = x ∷ overlay buf src

unfoldable pub put : Bytes → ℕ → Bytes → Bytes
unfolding overlay
put buf zero src = overlay buf src
put [] (suc i) src = []
put (b ∷ buf) (suc i) src = b ∷ put buf i src

-- `src.copy(buf, offset)`
abbrev pub copy : Bytes → Bytes → ℕ → Bytes
copy src buf offset = put buf offset src

-- `buf.writeIntBE` and `buf.writeUIntBE` in `w` bytes: the value is checked, then the offset.
unfoldable pub write_int : ℕ → Bytes → ℤ → ℕ → Result Bytes
write_int w buf v offset =
    if fits_int w v
    then (if leb (offset + w) (length buf)
        then ok (put buf offset (int_bytes w v))
        else err range_error)
    else err range_error

unfoldable pub write_uint : ℕ → Bytes → ℤ → ℕ → Result Bytes
write_uint w buf v offset =
    if fits_uint w v
    then (if leb (offset + w) (length buf)
        then ok (put buf offset (int_bytes w v))
        else err range_error)
    else err range_error

-- `buf.readUIntBE` and `buf.readIntBE`
unfoldable pub read_pattern : ℕ → Bytes → ℤ → Result ℕ
read_pattern w buf (pos i) =
    if leb (i + w) (length buf) then ok (be_value (take w (drop i buf))) else err range_error
read_pattern w buf (negsuc i) = err range_error

unfoldable pub read_uint : ℕ → Bytes → ℤ → Result ℤ
unfolding read_pattern
read_uint w buf offset = do u ← read_pattern w buf offset; ok (pos u)

unfoldable pub read_int : ℕ → Bytes → ℤ → Result ℤ
unfolding read_pattern
read_int w buf offset = do u ← read_pattern w buf offset; ok (of_pattern w u)

-- `buf.slice(start, end)`: a negative index counts from the end.
abbrev pub slice_index : ℕ → ℤ → ℕ
slice_index len (pos i) = min i len
slice_index len (negsuc i) = len - suc i

unfoldable pub slice : Bytes → ℤ → ℤ → Bytes
slice buf start end =
    let a = slice_index (length buf) start in
    let b = slice_index (length buf) end in take (b - a) (drop a buf)

-- The bytes that `buf.toString(encoding, start, end)` decodes: a negative index counts as 0.
abbrev pub text_index : ℕ → ℤ → ℕ
text_index len (pos i) = min i len
text_index len (negsuc i) = 0

unfoldable pub text_range : Bytes → ℤ → ℤ → Bytes
text_range buf start end =
    let a = text_index (length buf) start in
    let b = text_index (length buf) end in take (b - a) (drop a buf)
