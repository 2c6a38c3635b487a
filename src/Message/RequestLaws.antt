-- ===== src/Message/RequestLaws.antt =====
-- src/protocol/requests/Request.ts and src/protocol/responses/Response.ts: what a complete request
-- consists of, and what is parsed from a complete response.
use kafka_node_ts.Prelude.{
  ℕ, ◌+◌, ◌≡◌, refl, ap, ◌∙◌, sym, Option, none, some, [], ◌∷◌, ◌++◌, length, length-append,
  append-nil, append_assoc, le→leb, arith,
}
use kafka_node_ts.Prelude.Int.{ℤ, pos, ◌-ℤ◌}
use kafka_node_ts.Prelude.Errors.{Result, ok, ◌>>=◌}
use kafka_node_ts.Buffer.{Bytes, IsInt, fits_int, int_bytes, overlay, put, write_int, slice}
use kafka_node_ts.Buffer.Numbers.{length-int_bytes, slice-at}
use kafka_node_ts.Text.{JsString}
use kafka_node_ts.Encoder.{Encoder, new_encoder, write_int32, build}
use kafka_node_ts.Encoder.Laws.{Appends, >>=-Appends, new_encoder-IsConsistent}
use kafka_node_ts.Decoder.{Read, new_decoder, read_int32}
use kafka_node_ts.Decoder.Laws.{Reads}
use kafka_node_ts.BrokerConnection.Framing.{frame}
use kafka_node_ts.Message.Headers.{
  RequestHeader, new_request_header, built, write_request_header, encode_header, decode_header,
  header_size, ResponseHeader, encode_response_header, decode_response_header,
}
use kafka_node_ts.Message.HeaderLaws.{
  Fits, received, header_bytes, length-header_bytes, write_request_header-Appends,
  write_int32-Appends, read_int32-Reads, decode_header-Reads,
}
use kafka_node_ts.Message.Requests.{Request, to_buffer, parse}

overlay-same :
    (src old post : Bytes) → length src ≡ length old → overlay (old ++ post) src ≡ src ++ post
unfolding overlay
overlay-same [] [] [] e = refl
overlay-same [] [] (b ∷ post) e = refl
overlay-same [] (x ∷ old) post e = absurd (omega arith)
overlay-same (x ∷ src) [] post e = absurd (omega arith)
overlay-same (x ∷ src) (y ∷ old) post e = ap (◌∷◌ x) (overlay-same src old post (omega arith))

-- A number written over the field in front.
write_front :
    (v : ℤ) (old rest : Bytes)
    → length old ≡ 4
    → IsInt 4 v
    → write_int 4 (old ++ rest) v 0 ≡ ok (int_bytes 4 v ++ rest)
unfolding write_int put
write_front v old rest e h =
    rw (h, le→leb (0 + 4) (length (old ++ rest)) (omega (arith, length-append old rest)))
      (ap ok (overlay-same (int_bytes 4 v) old rest (omega (arith, length-int_bytes 4 v))))

less_four : (n : ℕ) → pos (4 + n) -ℤ pos 4 ≡ pos n
less_four n = ground arith

steps :
    (first : Result Encoder) (header body : Encoder → Result Encoder)
    (last : Encoder → Result Bytes)
    → (first >>= λ e. built (header e) >>= λ x. body x.1 >>= last)
      ≡ (((first >>= header) >>= body) >>= last)
steps first header body last = ground arith

module _ (request : Request) (version id : ℤ) (client_id : Option JsString) where
  -- The header that `toBuffer` makes.
  abbrev pub header_of : RequestHeader
  header_of = new_request_header request.api_key version id client_id

  -- Before the size is filled in, the encoder has built four bytes, the header and the body.
  built_all :
      (body : Bytes)
      → Fits header_of
      → Appends request.encode_body body
      → Appends
          (λ e. (write_int32 e (pos 0) >>= write_request_header header_of) >>= request.encode_body)
          ((int_bytes 4 (pos 0) ++ header_bytes header_of) ++ body)
  built_all body f w =
      >>=-Appends (λ e. write_int32 e (pos 0) >>= write_request_header header_of)
        request.encode_body (int_bytes 4 (pos 0) ++ header_bytes header_of) body
        (>>=-Appends (λ e. write_int32 e (pos 0)) (write_request_header header_of)
          (int_bytes 4 (pos 0)) (header_bytes header_of)
          (write_int32-Appends (pos 0) (unfold fits_int in refl))
          (write_request_header-Appends header_of f))
        w

  sized : Encoder → Result Bytes
  sized e = write_int 4 (build e) (pos (length (build e)) -ℤ pos 4) 0

  to_buffer-steps : to_buffer request version id client_id ≡ (
      ((write_int32 new_encoder (pos 0) >>= write_request_header header_of) >>= request.encode_body)
      >>= sized)
  unfolding to_buffer encode_header sized
  to_buffer-steps =
      steps (write_int32 new_encoder (pos 0)) (write_request_header header_of) request.encode_body
        sized

  sized-frame :
      (e : Encoder) (m : Bytes)
      → build e ≡ int_bytes 4 (pos 0) ++ m
      → IsInt 4 (pos (length m))
      → sized e ≡ ok (frame m)
  unfolding sized
  sized-frame e m holds fits =
      rw
        (
          holds,
          length-append (int_bytes 4 (pos 0)) m,
          length-int_bytes 4 (pos 0),
          less_four (length m),
        )
        (write_front (pos (length m)) (int_bytes 4 (pos 0)) m (length-int_bytes 4 (pos 0)) fits)

  -- A request whose header fits its fields and whose body's `encode` appends the bytes `body` to any
  -- encoder, with a size that fits an int32: `toBuffer` returns one message, framed as the broker
  -- frames its own, which holds as many bytes as the header's `size` tells and behind them the body;
  -- `decode` of any header `this` reads the fields of the request's header from the message and stops
  -- before the body, and where the version has no tag field the tag stays that of `this`.
  pub to_buffer-frame :
      (this : RequestHeader) (body : Bytes)
      → Fits header_of
      → Appends request.encode_body body
      → IsInt 4 (pos (header_size header_of + length body))
      → (header : Bytes) × (to_buffer request version id client_id ≡ ok (frame (header ++ body)))
        × (length header ≡ header_size header_of)
        × (decode_header this (new_decoder (header ++ body))
            ≡ ok (
              received this header_of,
              record { buffer = header ++ body; offset = pos (length header) },
            ))
  unfolding build
  to_buffer-frame this body f w fits =
      let h : Bytes = header_bytes header_of in
      let (e, written, _, holds) = built_all body f w new_encoder new_encoder-IsConsistent in
      let total : length (h ++ body) ≡ header_size header_of + length body =
        length-append h body ∙ ap (λ (n : ℕ). n + length body) (length-header_bytes header_of) in
      (
        h,
        to_buffer-steps
            ∙ rw written (
                sized-frame e (h ++ body) (holds ∙ append_assoc (int_bytes 4 (pos 0)) h body)
                  (rw total fits)),
        length-header_bytes header_of,
        decode_header-Reads this header_of f (h ++ body) [] body 0 refl refl
            ∙ ap
                (λ (k : ℕ).
                  ok (received this header_of, record { buffer = h ++ body; offset = pos k }))
                (omega arith),
      )

-- What stands behind the four bytes of the size.
slice-frame : (m : Bytes) → slice (frame m) (pos 4) (pos (length (frame m))) ≡ m
slice-frame m =
    let size : Bytes = int_bytes 4 (pos (length m)) in
    ap (λ (b : Bytes). slice b (pos 4) (pos (length (frame m))))
      (ap (◌++◌ size) (sym (append-nil m)))
    ∙ slice-at 4 (length (frame m)) size m [] (sym (length-int_bytes 4 (pos (length m))))
        (omega (arith, length-append size m, length-int_bytes 4 (pos (length m))))

module _ {ℓ} {A : Type ℓ} (decode_body : Read A) (v : A) (h : ResponseHeader)
    (header body : Bytes) where
  parse-steps :
      Reads read_int32 header h.correlation_id
      → Reads decode_body body v
      → parse decode_body (frame (header ++ body)) ≡ ok (record { header = some h; body = v })
  unfolding parse decode_response_header
  parse-steps id_read body_read = rw (
    slice-frame (header ++ body),
    id_read (header ++ body) [] body 0 refl refl,
    body_read (header ++ body) header [] (0 + length header)
        (ap (◌++◌ header) (sym (append-nil body))) (omega arith),
  )

-- A response's header whose correlation id fits an int32, and a body that `decode` reads as `v` from
-- the bytes `body` at any place: `parse` of the framed message, the header's bytes and behind them
-- `body`, returns the header and `v`.
pub parse-frame {ℓ} :
    {A : Type ℓ} (decode_body : Read A) (v : A) (h : ResponseHeader) (body : Bytes)
    → IsInt 4 h.correlation_id
    → Reads decode_body body v
    → (header : Bytes) × (e : Encoder) × (encode_response_header h none ≡ ok (header, e))
      × (parse decode_body (frame (header ++ body)) ≡ ok (record { header = some h; body = v }))
parse-frame decode_body v h body fits reads =
    let (e, written, _, holds) =
      write_int32-Appends h.correlation_id fits new_encoder new_encoder-IsConsistent in
    let header : Bytes = int_bytes 4 h.correlation_id in
    (
      header,
      e,
      unfold encode_response_header build in rw (written, holds),
      parse-steps decode_body v h header body (read_int32-Reads h.correlation_id fits) reads,
    )
