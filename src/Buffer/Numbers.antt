-- ===== src/Buffer/Numbers.antt =====
-- What is written at a place is read there.
use native.Mathlib.Nat.{pow-suc}
use kafka_node_ts.Prelude.{
  ℕ, zero, suc, ◌+◌, ◌-◌, ◌*◌, ◌/◌, ◌%◌, ◌^◌, ◌≤◌, ◌<◌, ◌≡◌, refl, ap, [], ◌∷◌, ◌++◌, length, take,
  drop, length-append, take-append, drop-append, min, ltb→lt, le→leb, arith,
}
use kafka_node_ts.Prelude.Int.{ℤ, pos, negsuc}
use kafka_node_ts.Prelude.Errors.{ok}
use kafka_node_ts.Buffer.Defs.{
  Bytes, be_bytes, be_value_from, be_value, fits_int, fits_uint, IsInt, IsUint, to_pattern,
  of_pattern, int_bytes, read_pattern, read_uint, read_int, slice, text_range,
}

pub length-be_bytes : (w n : ℕ) → length (be_bytes w n) ≡ w
unfolding be_bytes
length-be_bytes zero n = refl
length-be_bytes (suc w) n =
    omega (arith, length-append (be_bytes w (n / 256)) (n % 256 ∷ []), length-be_bytes w (n / 256))

be_value_from-append :
    (acc : ℕ) (bs : Bytes) (b : ℕ)
    → be_value_from acc (bs ++ b ∷ []) ≡ be_value_from acc bs * 256 + b
unfolding be_value_from
be_value_from-append acc [] b = refl
be_value_from-append acc (x ∷ bs) b = be_value_from-append (acc * 256 + x) bs b

pub be_value-be_bytes : (w n : ℕ) → n < 256 ^ w → be_value (be_bytes w n) ≡ n
unfolding be_bytes
be_value-be_bytes zero n h = unfold be_value_from in omega arith
be_value-be_bytes (suc w) n h = omega (
  arith,
  be_value_from-append 0 (be_bytes w (n / 256)) (n % 256),
  be_value-be_bytes w (n / 256) (omega (arith, pow-suc 256 w)),
)

pub of_pattern-to_pattern :
    (w : ℕ) (v : ℤ) → IsInt (suc w) v → of_pattern (suc w) (to_pattern (suc w) v) ≡ v
unfolding of_pattern to_pattern fits_int
of_pattern-to_pattern w (pos n) h = ground arith
of_pattern-to_pattern w (negsuc n) h = ground (arith, pow-suc 256 w)

pub to_pattern-lt : (w : ℕ) (v : ℤ) → IsInt (suc w) v → to_pattern (suc w) v < 256 ^ suc w
unfolding to_pattern fits_int
to_pattern-lt w (pos n) h = ground (arith)
to_pattern-lt w (negsuc n) h = ground (arith, pow-suc 256 w)

-- Cutting out the middle part of a buffer.
pub cut-at :
    (i : ℕ) (n : ℕ) (pre mid post : Bytes)
    → i ≡ length pre
    → n ≡ length mid
    → take n (drop i (pre ++ (mid ++ post))) ≡ mid
cut-at i n pre mid post hi hn = rw (drop-append i pre (mid ++ post) hi) (take-append n mid post hn)

length-three : (pre mid post : Bytes) → length pre + length mid ≤ length (pre ++ (mid ++ post))
length-three pre mid post = omega (arith, length-append pre (mid ++ post), length-append mid post)

pub read_pattern-at :
    (w i n : ℕ) (pre post : Bytes)
    → i ≡ length pre
    → n < 256 ^ w
    → read_pattern w (pre ++ (be_bytes w n ++ post)) (pos i) ≡ ok n
unfolding read_pattern
read_pattern-at w i n pre post hi h = rw (
  cut-at i w pre (be_bytes w n) post hi (omega (arith, length-be_bytes w n)),
  be_value-be_bytes w n h,
  le→leb (i + w) (length (pre ++ (be_bytes w n ++ post)))
      (omega (arith, length-three pre (be_bytes w n) post, length-be_bytes w n)),
)

-- A signed number is read back where it was written, whatever stands around it.
pub read_int-at :
    (w i : ℕ) (v : ℤ) (pre post : Bytes)
    → i ≡ length pre
    → IsInt (suc w) v
    → read_int (suc w) (pre ++ (int_bytes (suc w) v ++ post)) (pos i) ≡ ok v
unfolding read_int
read_int-at w i v pre post hi h =
    rw (read_pattern-at (suc w) i (to_pattern (suc w) v) pre post hi (to_pattern-lt w v h))
      (ap ok (of_pattern-to_pattern w v h))

pub read_uint-at :
    (w i : ℕ) (v : ℤ) (pre post : Bytes)
    → i ≡ length pre
    → IsUint w v
    → read_uint w (pre ++ (int_bytes w v ++ post)) (pos i) ≡ ok v
unfolding read_uint fits_uint to_pattern
read_uint-at w i (pos n) pre post hi h =
    rw (read_pattern-at w i n pre post hi (ltb→lt n (256 ^ w) h))
read_uint-at w i (negsuc n) pre post hi h = cc

module _ (i j : ℕ) (pre mid post : Bytes) (hi : i ≡ length pre) (hj : j ≡ i + length mid) where
  pub slice-at : slice (pre ++ (mid ++ post)) (pos i) (pos j) ≡ mid
  unfolding slice
  slice-at = rw (start, finish) (cut-at i (j - i) pre mid post hi (omega arith))
    where
      start : min i (length (pre ++ (mid ++ post))) ≡ i
      start = omega (arith, length-three pre mid post)

      finish : min j (length (pre ++ (mid ++ post))) ≡ j
      finish = omega (arith, length-three pre mid post)

  pub text_range-at : text_range (pre ++ (mid ++ post)) (pos i) (pos j) ≡ mid
  unfolding text_range
  text_range-at = rw (start, finish) (cut-at i (j - i) pre mid post hi (omega arith))
    where
      start : min i (length (pre ++ (mid ++ post))) ≡ i
      start = omega (arith, length-three pre mid post)

      finish : min j (length (pre ++ (mid ++ post))) ≡ j
      finish = omega (arith, length-three pre mid post)

-- The same, for a buffer that is known by an equation.
pub read_int-in :
    (w i : ℕ) (v : ℤ) (buffer pre post : Bytes)
    → buffer ≡ pre ++ (int_bytes (suc w) v ++ post)
    → i ≡ length pre
    → IsInt (suc w) v
    → read_int (suc w) buffer (pos i) ≡ ok v
read_int-in w i v buffer pre post e hi h = rw e (read_int-at w i v pre post hi h)

pub length-int_bytes : (w : ℕ) (v : ℤ) → length (int_bytes w v) ≡ w
length-int_bytes w v = length-be_bytes w (to_pattern w v)
