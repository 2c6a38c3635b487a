-- ===== src/Message/HeaderLaws.antt =====
-- src/protocol/RequestHeader.ts: the header is read back from what it appends, in the size it tells.
use kafka_node_ts.Prelude.{
  ℕ, ◌+◌, ◌≡◌, refl, ap, ◌∙◌, Bool-cases, inl, inr, Option, none, some, [], ◌++◌, length,
  length-append, append_assoc, if◌then◌else◌, arith,
}
use kafka_node_ts.Prelude.Int.{ℤ, pos, negsuc}
use kafka_node_ts.Prelude.Errors.{ok, ◌>>=◌}
use kafka_node_ts.Buffer.{Bytes, IsInt, IsUint, int_bytes}
use kafka_node_ts.Buffer.Numbers.{length-int_bytes}
use kafka_node_ts.Text.{JsString, utf8, byte_length}
use kafka_node_ts.BasicTypes.Numbers.{
  encode_int16, encode_int32, encode_uint16, decode_int16, decode_int32, decode_uint16,
}
use kafka_node_ts.BasicTypes.NumberLaws.{encoder_of-eq, decoder_of-Decodes, int16, int32, uint16}
use kafka_node_ts.BasicTypes.StringLaws.{
  IsWireString, string_bytes, encode_string-eq, decode_string-Decodes,
}
use kafka_node_ts.BasicTypes.Strings.{encode_string, decode_string}
use kafka_node_ts.Encoder.{Encoder, write_int16, write_int32, write_uint16, write_string, build}
use kafka_node_ts.Encoder.Laws.{IsConsistent, Appends, push_result-Appends, >>=-Appends, ok-Appends}
use kafka_node_ts.Decoder.{Decoder, read_int16, read_int32, read_uint16, read_string}
use kafka_node_ts.Decoder.Laws.{Reads, read_by-Reads, >>=-Reads, ok-Reads, Reads-map}
use kafka_node_ts.Decoder.Streams.{decoder_behind}
use kafka_node_ts.Message.Headers.{
  RequestHeader, has_tag, write_tag, read_tag, write_request_header, encode_header, decode_header,
  client_id_size, header_size,
}

-- A header whose fields fit their places.
pub record Fits (h : RequestHeader) : Type 0 where
  pub key_fits : IsInt 2 h.api_key
  pub version_fits : IsInt 2 h.api_version
  pub id_fits : IsInt 4 h.correlation_id
  pub client_fits : IsWireString h.client_id
  pub tag_fits : IsUint 2 h.tag

abbrev tag_bytes : RequestHeader → Bytes
tag_bytes h = if has_tag h.api_version then int_bytes 2 h.tag else []

abbrev pub header_bytes : RequestHeader → Bytes
header_bytes h =
    int_bytes 2 h.api_key
    ++ (int_bytes 2 h.api_version
        ++ (int_bytes 4 h.correlation_id ++ (string_bytes h.client_id ++ tag_bytes h)))

write_int16-Appends : (v : ℤ) → IsInt 2 v → Appends (λ e. write_int16 e v) (int_bytes 2 v)
unfolding write_int16
write_int16-Appends v h = push_result-Appends (encode_int16 v) (encoder_of-eq int16 v h)

pub write_int32-Appends : (v : ℤ) → IsInt 4 v → Appends (λ e. write_int32 e v) (int_bytes 4 v)
unfolding write_int32
write_int32-Appends v h = push_result-Appends (encode_int32 v) (encoder_of-eq int32 v h)

write_tag-Appends : (h : RequestHeader) → IsUint 2 h.tag → Appends (write_tag h) (tag_bytes h)
unfolding write_uint16
write_tag-Appends h fits = elim (Bool-cases (has_tag h.api_version)) [
  | inl tagged ↦
      rw tagged (push_result-Appends (encode_uint16 h.tag) (encoder_of-eq uint16 h.tag fits))
  | inr untagged ↦ rw untagged ok-Appends
]

read_int16-Reads : (v : ℤ) → IsInt 2 v → Reads read_int16 (int_bytes 2 v) v
unfolding read_int16
read_int16-Reads v h = read_by-Reads decode_int16 (int_bytes 2 v) v (decoder_of-Decodes int16 v h)

pub read_int32-Reads : (v : ℤ) → IsInt 4 v → Reads read_int32 (int_bytes 4 v) v
unfolding read_int32
read_int32-Reads v h = read_by-Reads decode_int32 (int_bytes 4 v) v (decoder_of-Decodes int32 v h)

-- `encode` appends the fields one behind the other.
pub write_request_header-Appends :
    (h : RequestHeader) → Fits h → Appends (write_request_header h) (header_bytes h)
unfolding write_request_header write_string
write_request_header-Appends h f =
    let name : Bytes = string_bytes h.client_id in
    let after_id = λ (e : Encoder). write_string e h.client_id >>= write_tag h in
    let after_version = λ (e : Encoder). write_int32 e h.correlation_id >>= after_id in
    let after_key = λ (e : Encoder). write_int16 e h.api_version >>= after_version in
    >>=-Appends (λ e. write_int16 e h.api_key) after_key (int_bytes 2 h.api_key) _
      (write_int16-Appends h.api_key f.key_fits)
      (>>=-Appends (λ e. write_int16 e h.api_version) after_version (int_bytes 2 h.api_version) _
        (write_int16-Appends h.api_version f.version_fits)
        (>>=-Appends (λ e. write_int32 e h.correlation_id) after_id (int_bytes 4 h.correlation_id) _
          (write_int32-Appends h.correlation_id f.id_fits)
          (>>=-Appends (λ e. write_string e h.client_id) (write_tag h) name (tag_bytes h)
            (push_result-Appends (encode_string h.client_id)
              (encode_string-eq h.client_id f.client_fits))
            (write_tag-Appends h f.tag_fits))))

-- The header that decoding leaves in `this`: the tag is replaced only where there is a tag field.
abbrev pub received : (this h : RequestHeader) → RequestHeader
received this h = record h { tag = if has_tag h.api_version then h.tag else this.tag }

read_tag-Reads :
    (this h : RequestHeader)
    → IsUint 2 h.tag
    → Reads (read_tag (record h { tag = this.tag })) (tag_bytes h) (received this h)
unfolding read_uint16
read_tag-Reads this h fits = elim (Bool-cases (has_tag h.api_version)) [
  | inl tagged ↦ rw tagged (
      Reads-map (λ (t : ℤ). record h { tag = t }) read_uint16 (int_bytes 2 h.tag) h.tag
        (read_by-Reads decode_uint16 (int_bytes 2 h.tag) h.tag
          (decoder_of-Decodes uint16 h.tag fits)))
  | inr untagged ↦ rw untagged (ok-Reads (record h { tag = this.tag }))
]

pub decode_header-Reads :
    (this h : RequestHeader)
    → Fits h
    → Reads (decode_header this) (header_bytes h) (received this h)
unfolding decode_header read_string
decode_header-Reads this h f =
    let name : Bytes = string_bytes h.client_id in
    let behind_id = λ (k v c : ℤ) (s : Option JsString). read_tag (record {
      api_key = k;
      api_version = v;
      correlation_id = c;
      client_id = s;
      tag = this.tag;
    }) in
    let behind_version =
      λ (k v c : ℤ) (d : Decoder). read_string d >>= λ x. behind_id k v c x.0 x.1 in
    let behind_key = λ (k v : ℤ) (d : Decoder). read_int32 d >>= λ x. behind_version k v x.0 x.1 in
    let behind = λ (k : ℤ) (d : Decoder). read_int16 d >>= λ x. behind_key k x.0 x.1 in
    >>=-Reads read_int16 behind (int_bytes 2 h.api_key) _ h.api_key (received this h)
      (read_int16-Reads h.api_key f.key_fits)
      (>>=-Reads read_int16 (behind_key h.api_key) (int_bytes 2 h.api_version) _ h.api_version
        (received this h) (read_int16-Reads h.api_version f.version_fits)
        (>>=-Reads read_int32 (behind_version h.api_key h.api_version)
          (int_bytes 4 h.correlation_id) _ h.correlation_id (received this h)
          (read_int32-Reads h.correlation_id f.id_fits)
          (>>=-Reads read_string (behind_id h.api_key h.api_version h.correlation_id) name
            (tag_bytes h) h.client_id (received this h)
            (read_by-Reads decode_string name h.client_id
              (decode_string-Decodes h.client_id f.client_fits))
            (read_tag-Reads this h f.tag_fits))))

length-string_bytes : (s : Option JsString) → length (string_bytes s) ≡ 2 + client_id_size s
length-string_bytes none = length-int_bytes 2 (negsuc 0)
length-string_bytes (some s) = omega (
  arith,
  length-append (int_bytes 2 (pos (byte_length s))) (utf8 s),
  length-int_bytes 2 (pos (byte_length s)),
)

length-tag_bytes :
    (h : RequestHeader) → length (tag_bytes h) ≡ (if has_tag h.api_version then 2 else 0)
length-tag_bytes h = elim (Bool-cases (has_tag h.api_version)) [
  | inl tagged ↦ rw tagged (length-int_bytes 2 h.tag)
  | inr untagged ↦ rw untagged
]

pub length-header_bytes : (h : RequestHeader) → length (header_bytes h) ≡ header_size h
unfolding header_size
length-header_bytes h =
    let k : Bytes = int_bytes 2 h.api_key in
    let v : Bytes = int_bytes 2 h.api_version in
    let c : Bytes = int_bytes 4 h.correlation_id in
    let s : Bytes = string_bytes h.client_id in
    omega (
      arith,
      length-append k (v ++ (c ++ (s ++ tag_bytes h))),
      length-append v (c ++ (s ++ tag_bytes h)),
      length-append c (s ++ tag_bytes h),
      length-append s (tag_bytes h),
      length-int_bytes 2 h.api_key,
      length-int_bytes 2 h.api_version,
      length-int_bytes 4 h.correlation_id,
      length-string_bytes h.client_id,
      length-tag_bytes h,
    )

-- A header whose fields fit their places, and an encoder whose size counts its bytes: `encode` returns
-- what the encoder held and behind it as many bytes as `size` tells, and `decode` of any header `this`,
-- behind what was held before, reads the fields and stops behind them; the tag is read from version 2
-- on, and below it stays that of `this`.
pub decode_header-encode_header :
    (this h : RequestHeader) (e : Encoder) (post : Bytes)
    → Fits h
    → IsConsistent e
    → (e' : Encoder) × (encode_header h (some e) ≡ ok (build e', e'))
      × (length (build e') ≡ length (build e) + header_size h)
      × (decode_header this (decoder_behind e e' post)
          ≡ ok (received this h, decoder_behind e' e' post))
unfolding encode_header
decode_header-encode_header this h e post f c =
    let (e', written, _, holds) = write_request_header-Appends h f e c in
    let b : Bytes = header_bytes h in
    (
      e',
      rw written,
      omega (arith, ap length holds, length-append (build e) b, length-header_bytes h),
      decode_header-Reads this h f (build e' ++ post) (build e) post (length (build e))
            (ap (λ (t : Bytes). t ++ post) holds ∙ append_assoc (build e) b post) refl
          ∙ ap
              (λ (k : ℕ).
                ok (received this h, record { buffer = build e' ++ post; offset = pos k }))
              (omega (arith, ap length holds, length-append (build e) b)),
    )
