-- ===== src/BasicTypes/ArrayLaws.antt =====
-- src/protocol/types/BasicTypes.ts: arrays of elements that come back come back.
use kafka_node_ts.Prelude.{
  ℕ, suc, ◌+◌, ◌≡◌, refl, ap, ◌∙◌, sym, none, some, List, [], ◌∷◌, ◌++◌, length, length-append,
  append_assoc, All, arith,
}
use mathlib.Core.Path.{ap₂}
use kafka_node_ts.Prelude.Int.{ℤ, pos, negsuc}
use kafka_node_ts.Prelude.Errors.{Result, ok}
use kafka_node_ts.Buffer.{Bytes, alloc, IsInt, to_pattern, int_bytes, read_int}
use kafka_node_ts.Buffer.Numbers.{length-be_bytes}
use kafka_node_ts.Buffer.Frontier.{write_int-next, put-next}
use kafka_node_ts.BasicTypes.Numbers.{Decode, RoundTrips}
use kafka_node_ts.BasicTypes.StringLaws.{read_field, behind_length, length-field}
use kafka_node_ts.BasicTypes.Arrays.{
  encode_each, total_size, copy_each, encode_array, decode_each, decode_array,
}

abbrev pub joined : List Bytes → Bytes
joined [] = []
joined (b ∷ bs) = b ++ joined bs

pub total_size-joined : (n : ℕ) (bs : List Bytes) → total_size n bs ≡ n + length (joined bs)
unfolding total_size
total_size-joined n [] = omega arith
total_size-joined n (b ∷ bs) =
    omega (arith, total_size-joined (n + length b) bs, length-append b (joined bs))

-- The loop that copies the encoded elements fills the buffer with them, one behind the other.
pub copy_each-next :
    (bs : List Bytes) (out : Bytes) (i n : ℕ)
    → i ≡ length out
    → n ≡ length (joined bs)
    → copy_each (out ++ alloc n) i bs ≡ out ++ joined bs
unfolding copy_each
copy_each-next [] out i n hi hn = ap (λ (k : ℕ). out ++ alloc k) hn
copy_each-next (b ∷ bs) out i n hi hn =
    let m : ℕ = length (joined bs) in
    ap (λ (buf : Bytes). copy_each buf (i + length b) bs)
      (put-next out i n m hi b (omega (arith, length-append b (joined bs))))
    ∙ copy_each-next bs (out ++ b) (i + length b) m (omega (arith, length-append out b)) refl
    ∙ append_assoc out b (joined bs)

module _ {ℓ} {A : Type ℓ} (decode : Decode A) (buffer : Bytes) where
  decode_each_step :
      (n : ℕ) (o : ℤ) {o' o'' : ℤ} {v : A} {vs : List A}
      → decode buffer o ≡ ok (v, o')
      → decode_each decode n buffer o' ≡ ok (vs, o'')
      → decode_each decode (suc n) buffer o ≡ ok (v ∷ vs, o'')
  unfolding decode_each
  decode_each_step n o e f = rw (e, f)

  decode_array-some :
      (i n : ℕ) {o : ℤ} {vs : List A}
      → read_int 4 buffer (pos i) ≡ ok (pos n)
      → decode_each decode n buffer (pos (i + 4)) ≡ ok (vs, o)
      → decode_array decode buffer (pos i) ≡ ok (some vs, o)
  unfolding decode_array
  decode_array-some i n e f = rw (e, f)

  decode_array_null :
      (i n : ℕ)
      → read_int 4 buffer (pos i) ≡ ok (negsuc n)
      → decode_array decode buffer (pos i) ≡ ok (none, pos (i + 4))
  unfolding decode_array
  decode_array_null i n e = rw e

module _ {ℓ} {A : Type ℓ} (encode : A → Result Bytes) (decode : Decode A) where
  abbrev pub bytes_of : (vs : List A) → All (RoundTrips encode decode) vs → List Bytes
  bytes_of [] h = []
  bytes_of (v ∷ vs) h = h.0.0 ∷ bytes_of vs h.1

  pub encode_each-eq :
      (vs : List A) (h : All (RoundTrips encode decode) vs)
      → encode_each encode vs ≡ ok (bytes_of vs h)
  unfolding encode_each
  encode_each-eq [] h = refl
  encode_each-eq (v ∷ vs) h = rw (h.0.1, encode_each-eq vs h.1)

  pub decode_each-eq :
      (vs : List A) (h : All (RoundTrips encode decode) vs) (pre post : Bytes)
      → decode_each decode (length vs) (pre ++ (joined (bytes_of vs h) ++ post)) (pos (length pre))
        ≡ ok (vs, pos (length pre + length (joined (bytes_of vs h))))
  decode_each-eq [] h pre post = unfold decode_each in ap (λ (k : ℕ). ok ([], pos k)) (omega arith)
  decode_each-eq (v ∷ vs) h pre post =
      let b : Bytes = h.0.0 in
      let bs : Bytes = joined (bytes_of vs h.1) in
      decode_each_step decode (pre ++ ((b ++ bs) ++ post)) (length vs) (pos (length pre))
        (ap (λ (t : Bytes). decode (pre ++ t) (pos (length pre))) (append_assoc b bs post)
          ∙ h.0.2 pre (bs ++ post))
        (ap₂ (λ (t : Bytes) (k : ℕ). decode_each decode (length vs) t (pos k)) (simp append_assoc)
            (sym (length-append pre b))
          ∙ decode_each-eq vs h.1 (pre ++ b) post
          ∙ ap (λ (k : ℕ). ok (vs, pos k)) (omega (arith, length-append pre b, length-append b bs)))

  encode_array-some :
      (vs : List A) (encoded : List Bytes)
      → encode_each encode vs ≡ ok encoded
      → IsInt 4 (pos (length vs))
      → encode_array encode (some vs) ≡ ok (int_bytes 4 (pos (length vs)) ++ joined encoded)
  unfolding encode_array
  encode_array-some vs encoded e fits =
      let n : ℕ = length (joined encoded) in
      let field : Bytes = int_bytes 4 (pos (length vs)) in
      rw e (
        rw (total_size-joined 4 encoded) (
          rw (write_int-next [] 0 (4 + n) n refl 4 (pos (length vs)) fits refl) (
            ap ok (
              copy_each-next encoded field 4 n
                (omega (arith, length-be_bytes 4 (to_pattern 4 (pos (length vs))))) refl))))

  behind :
      (n : ℕ) (bs pre : Bytes)
      → length (pre ++ int_bytes 4 (pos n)) + length bs
        ≡ length pre + length (int_bytes 4 (pos n) ++ bs)
  behind n bs pre =
      omega (arith, length-append pre (int_bytes 4 (pos n)), length-append (int_bytes 4 (pos n)) bs)

  -- An array whose count fits an int32, of elements that come back, is encoded, and `decodeArray`
  -- reads it back from its bytes at any place in a buffer.
  pub decode_array-encode_array :
      (vs : List A)
      → IsInt 4 (pos (length vs))
      → All (RoundTrips encode decode) vs
      → RoundTrips (encode_array encode) (decode_array decode) (some vs)
  decode_array-encode_array vs fits h =
      let n : ℕ = length vs in
      let bs : Bytes = joined (bytes_of vs h) in
      (
        int_bytes 4 (pos n) ++ bs,
        encode_array-some vs (bytes_of vs h) (encode_each-eq vs h) fits,
        λ pre post.
            decode_array-some decode (pre ++ ((int_bytes 4 (pos n) ++ bs) ++ post)) (length pre) n
              (read_field 3 (pos n) pre bs post fits)
              (ap₂ (λ (t : Bytes) (k : ℕ). decode_each decode n t (pos k))
                  (behind_length 4 (pos n) pre bs post) (sym (length-field 4 (pos n) pre))
                ∙ decode_each-eq vs h (pre ++ int_bytes 4 (pos n)) post
                ∙ ap (λ (k : ℕ). ok (vs, pos k)) (behind n bs pre)),
      )
