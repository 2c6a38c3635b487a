-- ===== src/Network/Headers/Laws.antt =====
-- src/network/protocol/Headers.ts: a request header is encoded field by field, and comes back.
use kafka_node_ts.Prelude.{
  ℕ, ◌+◌, ◌≡◌, refl, ap, ◌∙◌, sym, [], ◌∷◌, ◌++◌, length, length-append, append-nil, append_assoc,
  if◌then◌else◌, ltb, arith,
}
use kafka_node_ts.Prelude.Int.{ℤ, pos, negsuc, is_negative, ◌+ℤ◌}
use kafka_node_ts.Prelude.Errors.{Result, ok, ◌>>=◌}
use kafka_node_ts.Buffer.{Bytes, alloc, IsInt, fits_int, int_bytes, write_int}
use kafka_node_ts.Buffer.Numbers.{read_int-in, length-int_bytes, text_range-at}
use kafka_node_ts.Buffer.Frontier.{write_int-next}
use kafka_node_ts.Text.{JsString, utf8, byte_length, write_string, to_string, from_utf8}
use kafka_node_ts.Text.RoundTrip.{IsText, from_utf8-utf8, write_string-next}
use kafka_node_ts.Network.Headers.{RequestHeader, encode_request_header, decode_request_header}

-- A header whose fields fit their places.
pub record Fits (h : RequestHeader) : Type 0 where
  pub key_fits : IsInt 2 h.api_key
  pub version_fits : IsInt 2 h.api_version
  pub id_fits : IsInt 4 h.correlation_id
  pub client_text : IsText h.client_id
  pub client_fits : IsInt 2 (pos (byte_length h.client_id))

-- The client id's length and text; an empty one is written as null.
abbrev client_bytes : JsString → Bytes
client_bytes [] = int_bytes 2 (negsuc 0)
client_bytes (u ∷ s) = int_bytes 2 (pos (byte_length (u ∷ s))) ++ utf8 (u ∷ s)

abbrev pub header_bytes : RequestHeader → Bytes
header_bytes h =
    int_bytes 2 h.api_key
    ++ (int_bytes 2 h.api_version ++ (int_bytes 4 h.correlation_id ++ client_bytes h.client_id))

first_three : ℤ → ℤ → ℤ → Bytes
first_three k v c = (int_bytes 2 k ++ int_bytes 2 v) ++ int_bytes 4 c

module _ (k v c : ℤ) (n : ℕ) where
  length-first_three : length (first_three k v c) ≡ 8
  unfolding first_three
  length-first_three = omega (
    arith,
    length-append (int_bytes 2 k ++ int_bytes 2 v) (int_bytes 4 c),
    length-append (int_bytes 2 k) (int_bytes 2 v),
    length-int_bytes 2 k,
    length-int_bytes 2 v,
    length-int_bytes 4 c,
  )

  -- The three numbers in front, written into a fresh buffer, and then the rest.
  write_three :
      (size : ℕ) (rest : Bytes → Result Bytes)
      → size ≡ 8 + n
      → IsInt 2 k
      → IsInt 2 v
      → IsInt 4 c
      → (do b ← write_int 2 (alloc size) k 0; b ← write_int 2 b v 2; b ← write_int 4 b c 4; rest b)
        ≡ rest (first_three k v c ++ alloc n)
  unfolding first_three
  write_three size rest hs hk hv hc =
      rw (write_int-next [] 0 size (6 + n) refl 2 k hk (omega arith)) (
        rw
          (write_int-next (int_bytes 2 k) 2 (6 + n) (4 + n) (sym (length-int_bytes 2 k)) 2 v hv
            (omega arith))
          (rw (
            write_int-next (int_bytes 2 k ++ int_bytes 2 v) 4 (4 + n) n
              (omega (
                arith,
                length-append (int_bytes 2 k) (int_bytes 2 v),
                length-int_bytes 2 k,
                length-int_bytes 2 v,
              ))
              4 c hc (omega arith))))

size_or_none : (n : ℕ) → (if ltb 0 n then n else 0) ≡ n
size_or_none n = ground arith

encode_client :
    (h : RequestHeader) (s : JsString)
    → h.client_id ≡ s
    → Fits h
    → encode_request_header h
      ≡ ok (first_three h.api_key h.api_version h.correlation_id ++ client_bytes s)
unfolding encode_request_header
encode_client h [] e f =
    let three : Bytes = first_three h.api_key h.api_version h.correlation_id in
    rw e (
      write_three h.api_key h.api_version h.correlation_id 2 10 (λ b. write_int 2 b (negsuc 0) 8)
        refl f.key_fits f.version_fits f.id_fits
      ∙ write_int-next three 8 2 0
          (sym (length-first_three h.api_key h.api_version h.correlation_id 2)) 2 (negsuc 0)
          (unfold fits_int in refl) refl
      ∙ ap ok (append-nil _))
encode_client h (u ∷ s) e f =
    let three : Bytes = first_three h.api_key h.api_version h.correlation_id in
    let text : JsString = u ∷ s in
    let n : ℕ = byte_length text in
    let eight = length-first_three h.api_key h.api_version h.correlation_id n in
    let fits : IsInt 2 (pos n) = rw e at f.client_fits in
    rw e (
      rw (size_or_none n) (
        write_three h.api_key h.api_version h.correlation_id (2 + n) (10 + n)
          (λ b. write_int 2 b (pos n) 8 >>= λ b'. write_string b' text 10) (omega arith) f.key_fits
          f.version_fits f.id_fits
        ∙ rw (write_int-next three 8 (2 + n) n (sym eight) 2 (pos n) fits refl) (
            write_string-next (three ++ int_bytes 2 (pos n)) 10 n 0 text
              (omega (
                arith,
                length-append three (int_bytes 2 (pos n)),
                length-int_bytes 2 (pos n),
                eight,
              ))
              (omega arith))
        ∙ ap ok (append-nil _ ∙ append_assoc three (int_bytes 2 (pos n)) (utf8 text))))

pub encode_request_header-eq :
    (h : RequestHeader) → Fits h → encode_request_header h ≡ ok (header_bytes h)
unfolding first_three
encode_request_header-eq h f = encode_client h h.client_id refl f ∙ ap ok (simp append_assoc)

module _ (k v c n : ℤ) (rest buffer : Bytes) (hk : IsInt 2 k) (hv : IsInt 2 v) (hc : IsInt 4 c)
    (hn : IsInt 2 n) (shape : buffer ≡ first_three k v c ++ (int_bytes 2 n ++ rest)) where
  flat : buffer ≡ int_bytes 2 k ++ (int_bytes 2 v ++ (int_bytes 4 c ++ (int_bytes 2 n ++ rest)))
  unfolding first_three
  flat = shape ∙ simp append_assoc

  decode_four :
      decode_request_header buffer
      ≡ ok (record {
        api_key = k;
        api_version = v;
        correlation_id = c;
        client_id = if is_negative n then [] else to_string buffer (pos 10) (pos 10 +ℤ n);
      })
  unfolding decode_request_header first_three
  decode_four = rw (read_int-in 1 0 k buffer [] _ flat refl hk) (
      rw (read_int-in 1 2 v buffer (int_bytes 2 k) _ flat (sym (length-int_bytes 2 k)) hv) (
        rw
          (read_int-in 3 4 c buffer (int_bytes 2 k ++ int_bytes 2 v) (int_bytes 2 n ++ rest)
            (shape ∙ simp append_assoc)
            (omega (
              arith,
              length-append (int_bytes 2 k) (int_bytes 2 v),
              length-int_bytes 2 k,
              length-int_bytes 2 v,
            ))
            hc)
          (rw (
            read_int-in 1 8 n buffer (first_three k v c) rest shape
              (sym (length-first_three k v c 0)) hn))))

decode_client :
    (h : RequestHeader) (s : JsString)
    → h.client_id ≡ s
    → Fits h
    → decode_request_header (first_three h.api_key h.api_version h.correlation_id ++ client_bytes s)
      ≡ ok (record h { client_id = s })
decode_client h [] e f =
    decode_four h.api_key h.api_version h.correlation_id (negsuc 0) [] _ f.key_fits f.version_fits
      f.id_fits (unfold fits_int in refl)
      (ap (◌++◌ (first_three h.api_key h.api_version h.correlation_id))
        (sym (append-nil (int_bytes 2 (negsuc 0)))))
decode_client h (u ∷ s) e f =
    let three : Bytes = first_three h.api_key h.api_version h.correlation_id in
    let text : JsString = u ∷ s in
    let n : ℕ = byte_length text in
    let eight = length-first_three h.api_key h.api_version h.correlation_id n in
    let fits : IsInt 2 (pos n) = rw e at f.client_fits in
    let is_text : IsText text = rw e at f.client_text in
    let behind : three ++ (int_bytes 2 (pos n) ++ utf8 text)
        ≡ (three ++ int_bytes 2 (pos n)) ++ (utf8 text ++ []) =
      simp (append_assoc, append-nil) in
    decode_four h.api_key h.api_version h.correlation_id (pos n) (utf8 text) _ f.key_fits
      f.version_fits f.id_fits fits refl
    ∙ ap (λ (t : JsString). ok (record h { client_id = t }))
        (rw behind (
          ap from_utf8 (
            text_range-at 10 (10 + n) (three ++ int_bytes 2 (pos n)) (utf8 text) []
              (omega (
                arith,
                length-append three (int_bytes 2 (pos n)),
                length-int_bytes 2 (pos n),
                eight,
              ))
              refl)
          ∙ from_utf8-utf8 is_text))

-- A request header whose fields fit their places, with a client id without lone surrogates, is
-- encoded, and decoding what was encoded returns it.
pub decode_request_header-encode :
    (h : RequestHeader)
    → Fits h
    → (b : Bytes) × (encode_request_header h ≡ ok b) × (decode_request_header b ≡ ok h)
decode_request_header-encode h f =
    (_, encode_client h h.client_id refl f, decode_client h h.client_id refl f)
