-- ===== src/BasicTypes/VarintFuel.antt =====
-- src/protocol/types/BasicTypes.ts: the loops over a compact count end within five rounds.
use native.Mathlib.Nat.{pow-suc}
use kafka_node_ts.Prelude.{
  ℕ, zero, suc, ◌+◌, ◌/◌, ◌^◌, ◌≤◌, ◌<◌, ◌≡◌, refl, [], ◌∷◌, bit_or, inl, inr, Bool-cases, arith,
}
use kafka_node_ts.Prelude.Int.{ℤ, pos, negsuc, ltb_ℤ}
use kafka_node_ts.Buffer.{Bytes, put}
use kafka_node_ts.BasicTypes.Varint.{size_loop, write_loop, loop_fuel, shift_right_7, low_7}

size_loop-agree :
    (f g size m : ℕ)
    → m < 128 ^ suc f
    → m < 128 ^ suc g
    → m < 2 ^ 31
    → size_loop f size (pos m) ≡ size_loop g size (pos m)
unfolding size_loop
size_loop-agree zero zero size m p q h = refl
size_loop-agree zero (suc g) size m p q h = ground arith
size_loop-agree (suc f) zero size m p q h = ground arith
size_loop-agree (suc f) (suc g) size m p q h =
    ground
      (arith, size_loop-agree f g (size + 1) (m / 128), pow-suc 128 (suc f), pow-suc 128 (suc g))

write_loop-agree :
    (f g : ℕ) (buffer : Bytes) (i m : ℕ)
    → m < 128 ^ suc f
    → m < 128 ^ suc g
    → m < 2 ^ 31
    → write_loop f buffer i (pos m) ≡ write_loop g buffer i (pos m)
unfolding write_loop
write_loop-agree zero zero buffer i m p q h = refl
write_loop-agree zero (suc g) buffer i m p q h = ground arith
write_loop-agree (suc f) zero buffer i m p q h = ground arith
write_loop-agree (suc f) (suc g) buffer i m p q h = ground (
  arith,
  write_loop-agree f g (put buffer i (bit_or (low_7 (pos m)) 0x80 ∷ [])) (i + 1) (m / 128),
  pow-suc 128 (suc f),
  pow-suc 128 (suc g),
)

pow-le : (k : ℕ) → 128 ^ 5 ≤ 128 ^ (suc (suc (suc (suc (suc k)))))
pow-le zero = omega arith
pow-le (suc k) = omega (arith, pow-le k, pow-suc 128 (suc (suc (suc (suc (suc k))))))

-- A number that a shift has returned: below 2 ^ 24, or negative.
IsShifted : ℤ → Type 0
IsShifted (pos m) = m < 2 ^ 24
IsShifted (negsuc m) = Unit

shift_right_7-IsShifted : (len : ℤ) → IsShifted (shift_right_7 len)
unfolding IsShifted
shift_right_7-IsShifted (pos n) = ground arith
shift_right_7-IsShifted (negsuc n) = ground arith

size_loop-settled :
    (k size : ℕ) (len : ℤ)
    → IsShifted len
    → size_loop (suc (suc (suc (suc k)))) size len ≡ size_loop 4 size len
unfolding size_loop IsShifted
size_loop-settled k size (pos m) h =
    size_loop-agree (suc (suc (suc (suc k)))) 4 size m (omega (arith, pow-le k)) (omega arith)
      (omega arith)
size_loop-settled k size (negsuc m) h = refl

write_loop-settled :
    (k : ℕ) (buffer : Bytes) (i : ℕ) (len : ℤ)
    → IsShifted len
    → write_loop (suc (suc (suc (suc k)))) buffer i len ≡ write_loop 4 buffer i len
unfolding write_loop IsShifted
write_loop-settled k buffer i (pos m) h =
    write_loop-agree (suc (suc (suc (suc k)))) 4 buffer i m (omega (arith, pow-le k)) (omega arith)
      (omega arith)
write_loop-settled k buffer i (negsuc m) h = refl

abbrev more_fuel : ℕ → ℕ
more_fuel k = suc (suc (suc (suc (suc k))))

-- Both loops over a count end by their test within five rounds, whatever the count is: with any
-- more fuel they return the same.
pub loop_fuel-enough :
    (k size i : ℕ) (buffer : Bytes) (len : ℤ)
    → (size_loop (more_fuel k) size len ≡ size_loop loop_fuel size len)
      × (write_loop (more_fuel k) buffer i len ≡ write_loop loop_fuel buffer i len)
unfolding size_loop write_loop
loop_fuel-enough k size i buffer len =
    let shifted = shift_right_7-IsShifted len in
    let byte : Bytes = bit_or (low_7 len) 0x80 ∷ [] in
    elim (Bool-cases (ltb_ℤ (pos 127) len)) [
      | inl more ↦ (
        rw (more, size_loop) (size_loop-settled k (size + 1) (shift_right_7 len) shifted),
        rw (more, write_loop)
            (write_loop-settled k (put buffer i byte) (i + 1) (shift_right_7 len) shifted),
      )
      | inr last ↦ (rw (last, size_loop), rw (last, write_loop))
    ]
