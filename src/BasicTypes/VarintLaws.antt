-- ===== src/BasicTypes/VarintLaws.antt =====
-- src/protocol/types/BasicTypes.ts: what the loops over a compact count compute.
use mathlib.Core.Path.{ap₂}
use native.Mathlib.Decide.{dec_lt}
use native.Mathlib.Nat.{pow-suc, div-add-mod}
use native.Mathlib.Numerals.{towards_suc}
use kafka_node_ts.Prelude.{
  ℕ, zero, suc, ◌+◌, ◌*◌, ◌/◌, ◌%◌, ◌^◌, ◌≤◌, ◌<◌, ◌≡◌, refl, ap, ◌∙◌, [], ◌∷◌, ◌++◌, length,
  length-append, append_assoc, bit_or, bit_or_disjoint, ltb, drop-append, if◌then◌else◌, arith,
}
use kafka_node_ts.Prelude.Int.{pos}
use kafka_node_ts.Prelude.Errors.{ok}
use kafka_node_ts.Buffer.{Bytes, alloc, put, of_pattern}
use kafka_node_ts.Buffer.Frontier.{put-next}
use kafka_node_ts.BasicTypes.Varint.{
  size_loop, write_loop, read_loop, read_length, loop_fuel, size_of_length, write_length,
}

-- The groups of seven bits of `n`, lowest first, every one but the last with its top bit set.
unfoldable pub groups : ℕ → ℕ → Bytes
groups zero n = n % 128 ∷ []
groups (suc k) n =
    let rest = groups k (n / 128) in if ltb n 128 then n ∷ [] else (n % 128 + 128) ∷ rest

pub flag_bit : (n : ℕ) → bit_or (n % 2 ^ 32 % 128) 0x80 ≡ n % 2 ^ 32 % 128 + 128
flag_bit n = bit_or_disjoint 7 (n % 2 ^ 32 % 128) 1 (omega arith)

pub size_loop-groups :
    (k size n : ℕ) → n < 2 ^ 31 → size_loop k size (pos n) + 1 ≡ size + length (groups k n)
unfolding size_loop groups
size_loop-groups zero size n h = refl
size_loop-groups (suc k) size n h = ground (arith, size_loop-groups k (size + 1) (n / 128))

pub groups-last : (k n : ℕ) → n < 128 → groups k n ≡ n ∷ []
unfolding groups
groups-last zero n h = ground arith
groups-last (suc k) n h = ground arith

pub groups-more : (k n : ℕ) → 128 ≤ n → groups (suc k) n ≡ (n % 128 + 128) ∷ groups k (n / 128)
unfolding groups
groups-more k n h = ground arith

write_loop_last :
    (k : ℕ) (buffer : Bytes) (i n : ℕ)
    → n < 128
    → write_loop k buffer i (pos n) ≡ (put buffer i (n ∷ []), i + 1)
unfolding write_loop
write_loop_last zero buffer i n h = ground arith
write_loop_last (suc k) buffer i n h = ground arith

write_loop_more :
    (k : ℕ) (buffer : Bytes) (i n : ℕ)
    → 128 ≤ n
    → n < 2 ^ 31
    → write_loop (suc k) buffer i (pos n)
      ≡ write_loop k (put buffer i ((n % 128 + 128) ∷ [])) (i + 1) (pos (n / 128))
unfolding write_loop
write_loop_more k buffer i n h g = ground (arith, flag_bit n)

-- At the frontier of a buffer that is being filled the loop writes the groups.
pub write_loop-groups :
    (k : ℕ) (out : Bytes) (i n room m : ℕ)
    → n < 128 ^ suc k
    → n < 2 ^ 31
    → i ≡ length out
    → room ≡ length (groups k n) + m
    → write_loop k (out ++ alloc room) i (pos n)
      ≡ ((out ++ groups k n) ++ alloc m, i + length (groups k n))
write_loop-groups zero out i n room m hn h hi hr = rw (groups-last zero n hn) (
    write_loop_last zero (out ++ alloc room) i n hn
    ∙ ap (λ (b : Bytes). (b, i + 1))
        (put-next out i room m hi (n ∷ []) (omega (arith, ap length (groups-last zero n hn)))))
write_loop-groups (suc k) out i n room m hn h hi hr = elim (dec_lt n 128) [
  | yes last ↦ rw (groups-last (suc k) n last) (
      write_loop_last (suc k) (out ++ alloc room) i n last
      ∙ ap (λ (b : Bytes). (b, i + 1))
          (put-next out i room m hi (n ∷ [])
            (omega (arith, ap length (groups-last (suc k) n last)))))
  | no more ↦
      let byte : ℕ = n % 128 + 128 in
      let shape = groups-more k n (omega arith) in
      let left : ℕ = length (groups k (n / 128)) + m in
      rw shape (
        write_loop_more k (out ++ alloc room) i n (omega arith) h
        ∙ ap (λ (b : Bytes). write_loop k b (i + 1) (pos (n / 128)))
            (put-next out i room left hi (byte ∷ []) (omega (arith, ap length shape)))
        ∙ write_loop-groups k (out ++ byte ∷ []) (i + 1) (n / 128) left m
            (omega (arith, pow-suc 128 (suc k))) (omega arith)
            (omega (arith, length-append out (byte ∷ []))) refl
        ∙ ap₂ (λ (b : Bytes) (j : ℕ). (b ++ alloc m, j))
            (append_assoc out (byte ∷ []) (groups k (n / 128))) (omega arith))
]

groups-suc : (k n : ℕ) → n < 128 ^ suc k → groups (suc k) n ≡ groups k n
unfolding groups
groups-suc zero n h = ground arith
groups-suc (suc k) n h = ground (arith, groups-suc k (n / 128), pow-suc 128 (suc k))

shift_seven : (s : ℕ) → 2 ^ (s + 7) ≡ 128 * 2 ^ s
shift_seven s = simp towards_suc (omega arith)

-- The lowest group of `n` and the rest, both shifted by `s`.
split_group : (n s : ℕ) → n * 2 ^ s ≡ n % 128 * 2 ^ s + n / 128 * 2 ^ (s + 7)
split_group n s = omega (
  arith,
  ap (λ (t : ℕ). t * 2 ^ s) (div-add-mod n 128),
  ap (λ (t : ℕ). n / 128 * t) (shift_seven s),
)

-- One round of the reading loop, while the count stays below 2 ^ 31.
add_group :
    (acc g s : ℕ)
    → s < 32
    → acc < 2 ^ s
    → acc + g * 2 ^ s < 2 ^ 31
    → bit_or acc (g * 2 ^ (s % 32) % 2 ^ 32) ≡ acc + g * 2 ^ s
add_group acc g s hs ha hb =
    let low : s % 32 ≡ s = omega arith in
    let fits : g * 2 ^ s % 2 ^ 32 ≡ g * 2 ^ s = omega arith in
    rw low (rw fits (bit_or_disjoint s acc g ha))

module _ (acc offset s : ℕ) (rest : Bytes) (hs : s < 32) (ha : acc < 2 ^ s) where
  read_loop_last :
      (w : ℕ)
      → w < 128
      → acc + w * 2 ^ s < 2 ^ 31
      → read_loop (w ∷ rest) offset acc s ≡ ok (pos (acc + w * 2 ^ s), pos (offset + 1))
  unfolding read_loop of_pattern
  read_loop_last w hw hb =
      let low : w % 128 ≡ w = omega arith in rw low (rw (add_group acc w s hs ha hb) (ground arith))

  read_loop_more :
      (g : ℕ)
      → g < 128
      → acc + g * 2 ^ s < 2 ^ 31
      → read_loop ((g + 128) ∷ rest) offset acc s
        ≡ read_loop rest (offset + 1) (acc + g * 2 ^ s) (s + 7)
  unfolding read_loop
  read_loop_more g hg hb =
      let low : (g + 128) % 128 ≡ g = omega arith in
      rw low (rw (add_group acc g s hs ha hb) (ground arith))

acc_next : (acc n s : ℕ) → acc < 2 ^ s → acc + n % 128 * 2 ^ s < 2 ^ (s + 7)
acc_next acc n s h =
    let digit : n % 128 ≤ 127 = omega arith in
    let scaled : n % 128 * 2 ^ s ≤ 127 * 2 ^ s = grind arith in omega (arith, shift_seven s)

read_loop-groups :
    (k j s acc n offset : ℕ) (post : Bytes)
    → s ≡ 7 * j
    → j + k ≡ 4
    → n < 128 ^ suc k
    → acc < 2 ^ s
    → acc + n * 2 ^ s < 2 ^ 31
    → read_loop (groups k n ++ post) offset acc s
      ≡ ok (pos (acc + n * 2 ^ s), pos (offset + length (groups k n)))
read_loop-groups zero j s acc n offset post hs hj hn ha hb =
    rw (groups-last zero n hn) (read_loop_last acc offset s post (omega arith) ha n hn hb)
read_loop-groups (suc k) j s acc n offset post hs hj hn ha hb = elim (dec_lt n 128) [
  | yes last ↦
      rw (groups-last (suc k) n last) (read_loop_last acc offset s post (omega arith) ha n last hb)
  | no more ↦
      let split = split_group n s in
      rw (groups-more k n (omega arith)) (
        read_loop_more acc offset s (groups k (n / 128) ++ post) (omega arith) ha (n % 128)
          (omega arith) (omega arith)
        ∙ read_loop-groups k (j + 1) (s + 7) (acc + n % 128 * 2 ^ s) (n / 128) (offset + 1) post
            (omega arith) (omega arith) (omega (arith, pow-suc 128 (suc k))) (acc_next acc n s ha)
            (omega arith)
        ∙ ap₂ (λ (v o : ℕ). ok (pos v, pos o)) (omega arith) (omega arith))
]

-- A count below 2 ^ 31 as the compact encoders write it, in at most five bytes.
abbrev pub count_bytes : ℕ → Bytes
count_bytes n = groups 4 n

pub five_groups : (n : ℕ) → n < 2 ^ 31 → groups loop_fuel n ≡ count_bytes n
five_groups n h = groups-suc 4 n (omega arith)

pub size_of_length-eq : (n : ℕ) → n < 2 ^ 31 → size_of_length (pos n) ≡ length (count_bytes n)
size_of_length-eq n h = omega (arith, size_loop-groups loop_fuel 1 n h, ap length (five_groups n h))

pub write_length-eq :
    (n room m : ℕ)
    → n < 2 ^ 31
    → room ≡ length (count_bytes n) + m
    → write_length (alloc room) (pos n) ≡ (count_bytes n ++ alloc m, length (count_bytes n))
write_length-eq n room m h hr =
    write_loop-groups loop_fuel [] 0 n room m (omega arith) h refl
      (omega (arith, ap length (five_groups n h)))
    ∙ ap₂ (λ (b : Bytes) (i : ℕ). (b ++ alloc m, i)) (five_groups n h)
        (omega (arith, ap length (five_groups n h)))

-- A count below 2 ^ 31 in groups of seven bits, wherever it stands in a buffer, is read back by the
-- loop of the compact decoders, with the offset behind it.
pub read_length-eq :
    (n : ℕ) (pre post : Bytes)
    → n < 2 ^ 31
    → read_length (pre ++ (count_bytes n ++ post)) (pos (length pre))
      ≡ ok (pos n, pos (length pre + length (count_bytes n)))
unfolding read_length
read_length-eq n pre post h = rw (drop-append (length pre) pre (count_bytes n ++ post) refl) (
    read_loop-groups 4 0 0 0 n (length pre) post refl refl (omega arith) (omega arith) (omega arith)
    ∙ ap (λ (v : ℕ). ok (pos v, pos (length pre + length (count_bytes n)))) (omega arith))

-- The single byte that stands for null.
pub read_length_zero :
    (pre post : Bytes)
    → read_length (pre ++ (0 ∷ post)) (pos (length pre)) ≡ ok (pos 0, pos (length pre + 1))
unfolding groups
read_length_zero pre post = read_length-eq 0 pre post (omega arith)
