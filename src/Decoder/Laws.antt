-- ===== src/Decoder/Laws.antt =====
-- src/protocol/Encoder.ts and src/protocol/Decoder.ts: what the one writes the other reads.
use native.Mathlib.Decide.{dec_lt}
use native.Mathlib.Nat.{pow-suc}
use kafka_node_ts.Prelude.{
  ℕ, zero, suc, ◌+◌, ◌/◌, ◌%◌, ◌^◌, ◌≤◌, ◌<◌, ◌≡◌, refl, ap, ◌∙◌, sym, none, some, List, [], ◌∷◌,
  ◌++◌, length, length-append, append_assoc, All, arith,
}
use kafka_node_ts.Prelude.Int.{ℤ, pos, negsuc}
use kafka_node_ts.Prelude.Errors.{Result, ok, ◌>>=◌}
use kafka_node_ts.Buffer.{Bytes, IsInt, int_bytes, fits_int, fits_uint, be_bytes, to_pattern}
use kafka_node_ts.BasicTypes.Numbers.{
  Decode, Decodes, RoundTrips, encode_int32, decode_int32, encode_uint8,
}
use kafka_node_ts.BasicTypes.NumberLaws.{decoder_of-encoder_of, encoder_of-eq, int32, uint8}
use kafka_node_ts.BasicTypes.Varint.{read_length, loop_fuel}
use kafka_node_ts.BasicTypes.VarintLaws.{
  groups, groups-last, groups-more, flag_bit, five_groups, count_bytes, read_length-eq,
}
use kafka_node_ts.Encoder.{
  Encoder, push_result, write_each, write_array, write_int32, write_uint8, write_count,
  write_compact_array,
}
use kafka_node_ts.Encoder.Laws.{Appends, push_result-Appends, >>=-Appends, ok-Appends, Appends-eq}
use kafka_node_ts.Decoder.{
  Read, read_by, read_each, read_array, read_counted, read_int32, read_compact_array,
}

-- `read` takes `v` from the bytes `b`, wherever they stand in the decoder's buffer.
abbrev pub Reads {ℓ} : {A : Type ℓ} → Read A → Bytes → A → Type ℓ
Reads read b v =
    (buffer pre post : Bytes) (i : ℕ)
    → buffer ≡ pre ++ (b ++ post)
    → i ≡ length pre
    → read (record { buffer = buffer; offset = pos i })
      ≡ ok (v, record { buffer = buffer; offset = pos (i + length b) })

-- The bytes that `write` appends for `v` are those from which `read` takes `v`.
abbrev pub Sends {ℓ} : {A : Type ℓ} → (Encoder → A → Result Encoder) → Read A → A → Type ℓ
Sends write read v = (b : Bytes) × Appends (λ e. write e v) b × Reads read b v

pub read_by-Reads {ℓ} :
    {A : Type ℓ} (decode : Decode A) (b : Bytes) (v : A)
    → Decodes decode b v
    → Reads (read_by decode) b v
read_by-Reads decode b v h buffer pre post i e f = rw (e, f) (rw (h pre post))

-- Every pair of methods that hand over to a pair of static functions which round-trip.
pub RoundTrips-Sends {ℓ} :
    {A : Type ℓ} (encode : A → Result Bytes) (decode : Decode A) (v : A)
    → RoundTrips encode decode v
    → Sends (λ e x. push_result e (encode x)) (read_by decode) v
RoundTrips-Sends encode decode v (b, enc, dec) =
    (b, push_result-Appends (encode v) enc, read_by-Reads decode b v dec)

module _ (buffer pre a b post : Bytes) (i : ℕ) (e : buffer ≡ pre ++ ((a ++ b) ++ post))
    (f : i ≡ length pre) where
  pub first_part : buffer ≡ pre ++ (a ++ (b ++ post))
  first_part = e ∙ ap (◌++◌ pre) (append_assoc a b post)

  pub second_part : buffer ≡ (pre ++ a) ++ (b ++ post)
  second_part = first_part ∙ sym (append_assoc pre a (b ++ post))

  pub second_start : i + length a ≡ length (pre ++ a)
  second_start = omega (arith, length-append pre a)

-- One read after another, over bytes that stand one behind the other.
pub >>=-Reads {ℓ κ} :
    {A : Type ℓ} {B : Type κ} (read : Read A) (next : A → Read B) (a b : Bytes) (v : A) (w : B)
    → Reads read a v
    → Reads (next v) b w
    → Reads (λ d. read d >>= λ x. next x.0 x.1) (a ++ b) w
>>=-Reads read next a b v w p q buffer pre post i e f =
    rw (p buffer pre (b ++ post) i (first_part buffer pre a b post i e f) f) (
      q buffer (pre ++ a) post (i + length a) (second_part buffer pre a b post i e f)
        (second_start buffer pre a b post i e f)
      ∙ ap (λ (k : ℕ). ok (w, record { buffer = buffer; offset = pos k }))
          (omega (arith, length-append a b)))

pub ok-Reads {ℓ} : {A : Type ℓ} (v : A) → Reads (λ d. ok (v, d)) [] v
ok-Reads v buffer pre post i e f =
    ap (λ (k : ℕ). ok (v, record { buffer = buffer; offset = pos k })) (omega arith)

int32-Sends : (v : ℤ) → IsInt 4 v → Sends write_int32 read_int32 v
unfolding write_int32 read_int32
int32-Sends v h =
    let (b, enc, _, dec) = decoder_of-encoder_of int32 v h in
    RoundTrips-Sends encode_int32 decode_int32 v (b, enc, dec)

pub Reads-map {ℓ κ} :
    {A : Type ℓ} {B : Type κ} (f : A → B) (read : Read A) (b : Bytes) (v : A)
    → Reads read b v
    → Reads (λ d. read d >>= λ x. ok (f x.0, x.1)) b (f v)
Reads-map f read b v h buffer pre post i e g = rw (h buffer pre post i e g)

module _ {ℓ} {A : Type ℓ} (write : Encoder → A → Result Encoder) (read : Read A) where
  each-Sends :
      (vs : List A)
      → All (Sends write read) vs
      → (b : Bytes) × Appends (λ e. write_each write e vs) b
        × Reads (read_each read (length vs)) b vs
  unfolding write_each read_each
  each-Sends [] h = ([], ok-Appends, ok-Reads [])
  each-Sends (v ∷ vs) ((a, wa, ra), h) =
      let (b, wb, rb) = each-Sends vs h in
      (
        a ++ b,
        >>=-Appends (λ e. write e v) (λ e. write_each write e vs) a b wa wb,
        >>=-Reads read (λ x d. read_each read (length vs) d >>= λ y. ok (x ∷ y.0, y.1)) a b v
            (v ∷ vs) ra (Reads-map (λ ys. v ∷ ys) (read_each read (length vs)) b vs rb),
      )

  -- An array whose count fits an int32, of elements that the element methods hand over, is handed
  -- over by `writeArray` and `readArray`.
  pub array-Sends :
      (vs : List A)
      → IsInt 4 (pos (length vs))
      → All (Sends write read) vs
      → Sends (write_array write) (read_array read) (some vs)
  unfolding write_array read_array
  array-Sends vs fits h =
      let n : ℕ = length vs in
      let (a, wa, ra) = int32-Sends (pos n) fits in
      let (b, wb, rb) = each-Sends vs h in
      (
        a ++ b,
        >>=-Appends (λ e. write_int32 e (pos n)) (λ e. write_each write e vs) a b wa wb,
        >>=-Reads read_int32 (read_counted read) a b (pos n) (some vs) ra
            (Reads-map some (read_each read n) b vs rb),
      )

  pub array_null-Sends : Sends (write_array write) (read_array read) none
  unfolding write_array read_array
  array_null-Sends =
      let (a, wa, ra) = int32-Sends (negsuc 0) (unfold fits_int in refl) in
      (a, wa, λ buffer pre post i e f. rw (ra buffer pre post i e f))

byte_bytes : (n : ℕ) → n < 256 → int_bytes 1 (pos n) ≡ n ∷ []
unfolding be_bytes to_pattern
byte_bytes n h = ap (λ (m : ℕ). m ∷ []) (omega arith)

write_byte-Appends : (n : ℕ) → n < 256 → Appends (λ e. write_uint8 e (pos n)) (n ∷ [])
unfolding write_uint8
write_byte-Appends n h =
    push_result-Appends (encode_uint8 (pos n))
      (encoder_of-eq uint8 (pos n) (unfold fits_uint in ground arith) ∙ ap ok (byte_bytes n h))

module _ (k n : ℕ) (e : Encoder) where
  write_count_last : n < 128 → write_count k e (pos n) ≡ write_uint8 e (pos n)
  write_count_last h = write_count_last_by k h
    where
      write_count_last_by : (j : ℕ) → n < 128 → write_count j e (pos n) ≡ write_uint8 e (pos n)
      write_count_last_by zero h = unfold write_count in ground arith
      write_count_last_by (suc j) h = unfold write_count in ground arith

  write_count_more :
      128 ≤ n
      → n < 2 ^ 31
      → write_count (suc k) e (pos n)
        ≡ (write_uint8 e (pos (n % 128 + 128)) >>= λ e. write_count k e (pos (n / 128)))
  unfolding write_count
  write_count_more h g = ground (arith, flag_bit n)

-- The loop of `writeCompactArray` writes the same bytes as the compact encoders.
write_count-Appends :
    (k n : ℕ) → n < 128 ^ suc k → n < 2 ^ 31 → Appends (λ e. write_count k e (pos n)) (groups k n)
write_count-Appends zero n h g = rw (groups-last zero n h) (
    Appends-eq (λ e. write_count zero e (pos n)) (λ e. write_uint8 e (pos n)) (n ∷ [])
      (λ e. write_count_last zero n e h) (write_byte-Appends n (omega arith)))
write_count-Appends (suc k) n h g = elim (dec_lt n 128) [
  | yes last ↦ rw (groups-last (suc k) n last) (
      Appends-eq (λ e. write_count (suc k) e (pos n)) (λ e. write_uint8 e (pos n)) (n ∷ [])
        (λ e. write_count_last (suc k) n e last) (write_byte-Appends n (omega arith)))
  | no more ↦
      let byte : ℕ = n % 128 + 128 in
      let first = λ (e : Encoder). write_uint8 e (pos byte) in
      let second = λ (e : Encoder). write_count k e (pos (n / 128)) in
      rw (groups-more k n (omega arith)) (
        Appends-eq (λ e. write_count (suc k) e (pos n)) (λ e. first e >>= second)
          (byte ∷ groups k (n / 128)) (λ e. write_count_more k n e (omega arith) g)
          (>>=-Appends first second (byte ∷ []) (groups k (n / 128))
            (write_byte-Appends byte (omega arith))
            (write_count-Appends k (n / 128) (omega (arith, pow-suc 128 (suc k))) (omega arith))))
]

count-Appends :
    (n : ℕ) → n < 2 ^ 31 → Appends (λ e. write_count loop_fuel e (pos n)) (count_bytes n)
count-Appends n h = rw (← five_groups n h) (write_count-Appends loop_fuel n (omega arith) h)

read_count :
    (n : ℕ)
    → n < 2 ^ 31
    → (buffer pre post : Bytes) (i : ℕ) → buffer ≡ pre ++ (count_bytes n ++ post)
    → i ≡ length pre
    → read_length buffer (pos i) ≡ ok (pos n, pos (i + length (count_bytes n)))
read_count n h buffer pre post i e f = rw (e, f) (read_length-eq n pre post h)

module _ {ℓ} {A : Type ℓ} (write : Encoder → A → Result Encoder) (read : Read A) where
  read_compact_array-some :
      (buffer : Bytes) (i n o : ℕ)
      → read_length buffer (pos i) ≡ ok (pos (n + 1), pos o)
      → read_compact_array read (record { buffer = buffer; offset = pos i }) ≡ (
          read_each read n (record { buffer = buffer; offset = pos o }) >>= λ x. ok (some x.0, x.1))
  unfolding read_compact_array
  read_compact_array-some buffer i n o e = rw e (ground arith)

  -- The same in the compact form, for a count below 2 ^ 31.
  pub compact_array-Sends :
      (vs : List A)
      → length vs + 1 < 2 ^ 31
      → All (Sends write read) vs
      → Sends (write_compact_array write) (read_compact_array read) (some vs)
  unfolding write_compact_array
  compact_array-Sends vs fits h =
      let n : ℕ = length vs in
      let a : Bytes = count_bytes (n + 1) in
      let (b, wb, rb) = each-Sends write read vs h in
      (
        a ++ b,
        >>=-Appends (λ e. write_count loop_fuel e (pos (n + 1))) (λ e. write_each write e vs) a b
            (count-Appends (n + 1) fits) wb,
        λ buffer pre post i e f.
            read_compact_array-some buffer i n (i + length a) (
              read_count (n + 1) fits buffer pre (b ++ post) i
                (first_part buffer pre a b post i e f) f)
            ∙ Reads-map some (read_each read n) b vs rb buffer (pre ++ a) post (i + length a)
                (second_part buffer pre a b post i e f) (second_start buffer pre a b post i e f)
            ∙ ap (λ (k : ℕ). ok (some vs, record { buffer = buffer; offset = pos k }))
                (omega (arith, length-append a b)),
      )
