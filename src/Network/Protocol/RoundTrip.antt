-- ===== src/Network/Protocol/RoundTrip.antt =====
-- src/network/protocol/Protocol.ts: what the writers write, the readers read.
use kafka_node_ts.Prelude.{
  ℕ, ◌+◌, ◌≡◌, refl, ap, ◌∙◌, Bool, true, false, Option, none, some, List, [], ◌∷◌, ◌++◌, length,
  map, All, append-nil, append_assoc, arith, if◌then◌else◌,
}
use kafka_node_ts.Prelude.Int.{ℤ, pos, negsuc, ◌+ℤ◌, is_negative}
use kafka_node_ts.Prelude.Errors.{Result, ok, err, ◌>>=◌}
use kafka_node_ts.Buffer.{Bytes, alloc, IsInt, fits_int, int_bytes, be_bytes, read_int}
use kafka_node_ts.Text.{JsString}
use kafka_node_ts.BasicTypes.Numbers.{Decode}
use kafka_node_ts.BasicTypes.StringLaws.{IsWireString, string_bytes, read_field}
use kafka_node_ts.BasicTypes.Arrays.{decode_array, decode_counted, decode_each}
use kafka_node_ts.BasicTypes.Compact.{rounds}
use kafka_node_ts.Buffer.Numbers.{read_int-at}
use kafka_node_ts.BasicTypes.ArrayLaws.{joined}
use kafka_node_ts.Network.Protocol.{
  write_nullable, write_array, read_boolean, read_nullable, read_array,
}
use kafka_node_ts.Network.Protocol.Fields.{
  Reads, take_int, take_nullable, take_nullable-Reads, take_list, take_list-Reads, list_bytes,
  AllRead,
}
use kafka_node_ts.Network.Protocol.Filling.{AllFill, write_nullable-Fills, write_array-Fills}

pub read_nullable-Reads :
    (v : Option JsString) → IsWireString v → Reads read_nullable (string_bytes v) v
unfolding read_nullable take_nullable
read_nullable-Reads v h = take_nullable-Reads v h

pub read_boolean-Reads :
    (v : Bool) → Reads read_boolean (int_bytes 1 (if v then pos 1 else pos 0)) v
unfolding read_boolean
read_boolean-Reads true = record {
  reads = λ pre post.
      rw (read_int-at 0 (length pre) (pos 1) pre post refl (unfold fits_int in refl))
        (unfold be_bytes in refl);
}
read_boolean-Reads false = record {
  reads = λ pre post.
      rw (read_int-at 0 (length pre) (pos 0) pre post refl (unfold fits_int in refl))
        (unfold be_bytes in refl);
}

module _ {ℓ} {A : Type ℓ} (read : Decode A) where
  read_array-some :
      (buffer : Bytes) (offset : ℤ) {n : ℕ} {vs : List A} {o : ℤ}
      → read_int 4 buffer offset ≡ ok (pos n)
      → take_list read buffer offset ≡ ok (vs, o)
      → read_array read buffer offset ≡ ok (some vs, o)
  unfolding read_array take_list take_int
  read_array-some buffer offset e h = rw e (rw (rw e at h) refl)

  pub read_array-Reads :
      (bytes_of : A → Bytes) (vs : List A)
      → IsInt 4 (pos (length vs))
      → AllRead read bytes_of vs
      → Reads (read_array read) (list_bytes bytes_of vs) (some vs)
  read_array-Reads bytes_of vs fits h = record {
    reads = λ pre post.
        read_array-some (pre ++ (list_bytes bytes_of vs ++ post)) (pos (length pre))
          (read_field 3 (pos (length vs)) pre (joined (map bytes_of vs)) post fits)
          ((take_list-Reads read bytes_of vs fits h).reads pre post);
  }

  counted :
      (n : Result ℤ) (buffer : Bytes) (offset : ℤ)
      → (do
        length ← n
        let offset = offset +ℤ pos 4
        if is_negative length
            then ok (none, offset)
            else decode_each read (rounds length) buffer offset >>= λ p. ok (some p.0, p.1))
        ≡ (do length ← n; decode_counted read length buffer (offset +ℤ pos 4))
  counted (err e) buffer offset = refl
  counted (ok (pos n)) buffer offset = refl
  counted (ok (negsuc n)) buffer offset = refl

  -- `Protocol.readArray` and `BasicTypes.decodeArray`, given the same function for an element, return
  -- the same or fail alike on every buffer, at every offset.
  pub read_array-decode_array :
      (buffer : Bytes) (offset : ℤ)
      → read_array read buffer offset ≡ decode_array read buffer offset
  unfolding read_array decode_array
  read_array-decode_array buffer offset = counted (read_int 4 buffer offset) buffer offset

All-nullable :
    (vs : List (Option JsString))
    → All IsWireString vs
    → AllFill write_nullable string_bytes vs × AllRead read_nullable string_bytes vs
All-nullable [] h = (tt, tt)
All-nullable (v ∷ vs) h =
    let rest = All-nullable vs h.1 in
    ((write_nullable-Fills v h.0, rest.0), (read_nullable-Reads v h.0, rest.1))

-- A list of nullable strings, each of less than 2 ^ 15 bytes and without lone surrogates, is written by
-- `writeArray` with `writeString` behind what a buffer holds, if there is just enough room, and
-- `readArray` with `readString` reads it back from there, whatever follows; both return the offset
-- behind it.
pub read_array-write_array :
    (vs : List (Option JsString)) (out rest : Bytes)
    → IsInt 4 (pos (length vs))
    → All IsWireString vs
    → (b : Bytes) × (write_array write_nullable (out ++ alloc (length b)) (some vs) (length out)
        ≡ ok (out ++ b, length out + length b))
      × (read_array read_nullable ((out ++ b) ++ rest) (pos (length out))
          ≡ ok (some vs, pos (length out + length b)))
read_array-write_array vs out rest fits h =
    let b : Bytes = list_bytes string_bytes vs in
    let all = All-nullable vs h in
    (
      b,
      (write_array-Fills write_nullable string_bytes vs fits all.0).fills out (length out)
            (length b) 0 refl (omega arith)
          ∙ ap (λ (t : Bytes). ok (t, length out + length b)) (append-nil (out ++ b)),
      ap (λ (t : Bytes). read_array read_nullable t (pos (length out))) (append_assoc out b rest)
          ∙ (read_array-Reads read_nullable string_bytes vs fits all.1).reads out rest,
    )
