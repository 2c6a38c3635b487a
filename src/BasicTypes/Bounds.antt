-- ===== src/BasicTypes/Bounds.antt =====
-- src/protocol/types/BasicTypes.ts: which numbers each encoder takes, and in how many bytes.
use kafka_node_ts.Prelude.{
  ◌≡◌, refl, ◌∙◌, sym, Bool, ◌&&◌, Bool-cases, inl, inr, length, if◌then◌else◌, arith,
}
use kafka_node_ts.Prelude.Int.{ℤ, pos, negsuc, leb_ℤ}
use kafka_node_ts.Prelude.Errors.{ok, err, range_error}
use kafka_node_ts.Buffer.{Bytes, fits_int, fits_uint, int_bytes}
use kafka_node_ts.Buffer.Numbers.{length-int_bytes}
use kafka_node_ts.BasicTypes.NumberLaws.{
  NumberType, int8, int16, int32, int64, uint8, uint16, uint32, uint64, in_range, size_of,
  encoder_of, encoder_of-eq, encoder_of-refuses,
}

-- The least and the greatest number of a kind; `negsuc n` is -(n + 1).
abbrev pub least : NumberType → ℤ
least int8 = negsuc 127
least int16 = negsuc 32767
least int32 = negsuc 2147483647
least int64 = negsuc 9223372036854775807
least uint8 = pos 0
least uint16 = pos 0
least uint32 = pos 0
least uint64 = pos 0

abbrev pub greatest : NumberType → ℤ
greatest int8 = pos 127
greatest int16 = pos 32767
greatest int32 = pos 2147483647
greatest int64 = pos 9223372036854775807
greatest uint8 = pos 255
greatest uint16 = pos 65535
greatest uint32 = pos 4294967295
greatest uint64 = pos 18446744073709551615

abbrev pub is_between : NumberType → ℤ → Bool
is_between t v = leb_ℤ (least t) v && leb_ℤ v (greatest t)

in_range-between : (t : NumberType) (v : ℤ) → in_range t v ≡ is_between t v
unfolding fits_int fits_uint
in_range-between int8 (pos n) = ground arith
in_range-between int8 (negsuc n) = ground arith
in_range-between int16 (pos n) = ground arith
in_range-between int16 (negsuc n) = ground arith
in_range-between int32 (pos n) = ground arith
in_range-between int32 (negsuc n) = ground arith
in_range-between int64 (pos n) = ground arith
in_range-between int64 (negsuc n) = ground arith
in_range-between uint8 (pos n) = ground arith
in_range-between uint8 (negsuc n) = ground arith
in_range-between uint16 (pos n) = ground arith
in_range-between uint16 (negsuc n) = ground arith
in_range-between uint32 (pos n) = ground arith
in_range-between uint32 (negsuc n) = ground arith
in_range-between uint64 (pos n) = ground arith
in_range-between uint64 (negsuc n) = ground arith

-- The encoder of each kind of number takes exactly the numbers from the least to the greatest of the
-- kind, each bound written out, and makes one, two, four or eight bytes of them; every other number it
-- refuses with a RangeError.
pub encoder_of-between :
    (t : NumberType) (v : ℤ)
    → (b : Bytes) × (length b ≡ size_of t)
      × (encoder_of t v ≡ (if is_between t v then ok b else err range_error))
encoder_of-between t v = (
  int_bytes (size_of t) v,
  length-int_bytes (size_of t) v,
  elim (Bool-cases (in_range t v)) [
    | inl fits ↦ encoder_of-eq t v fits ∙ rw (sym (in_range-between t v) ∙ fits) refl
    | inr over ↦ encoder_of-refuses t v over ∙ rw (sym (in_range-between t v) ∙ over) refl
  ],
)
