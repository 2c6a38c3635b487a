-- ===== src/BasicTypes/FloatLaws.antt =====
-- src/protocol/types/BasicTypes.ts: floats and doubles are decoded as they were encoded.
use kafka_node_ts.Prelude.{ℕ, ◌<◌, ◌^◌, ◌≡◌, refl, ap, ◌∙◌, [], append-nil, arith}
use kafka_node_ts.Prelude.Errors.{ok}
use kafka_node_ts.Buffer.{alloc, be_bytes, put}
use kafka_node_ts.Buffer.Numbers.{length-be_bytes, read_pattern-at}
use kafka_node_ts.Buffer.Frontier.{put-next}
use kafka_node_ts.BasicTypes.Numbers.{RoundTrips}
use kafka_node_ts.BasicTypes.Floats.{
  Ieee, IsIeee, encode_float, decode_float, encode_double, decode_double,
}

-- A number written over a buffer of its own size.
pub put_alone : (w n : ℕ) → put (alloc w) 0 (be_bytes w n) ≡ be_bytes w n
put_alone w n =
    put-next [] 0 w 0 refl (be_bytes w n) (omega (arith, length-be_bytes w n)) ∙ append-nil _

module _ {Number : Type 0} (ieee : Ieee Number) (h : IsIeee ieee) where
  -- A number is kept in 64 bits.
  pub double-RoundTrips : (v : Number) → RoundTrips (encode_double ieee) (decode_double ieee) v
  unfolding encode_double decode_double
  double-RoundTrips v = (
    be_bytes 8 (ieee.double_bits v),
    ap ok (put_alone 8 (ieee.double_bits v)),
    λ pre post. rw (
      read_pattern-at 8 _ (ieee.double_bits v) pre post refl (h.double_fits v),
      length-be_bytes 8 (ieee.double_bits v),
      h.double_again v,
    ),
  )

  -- A number that can be read from 32 bits is kept in them.
  pub float-RoundTrips :
      (n : ℕ)
      → n < 256 ^ 4
      → RoundTrips (encode_float ieee) (decode_float ieee) (ieee.single_value n)
  unfolding encode_float decode_float
  float-RoundTrips n small = (
    be_bytes 4 (ieee.single_bits (ieee.single_value n)),
    ap ok (put_alone 4 (ieee.single_bits (ieee.single_value n))),
    λ pre post. rw (
      read_pattern-at 4 _ (ieee.single_bits (ieee.single_value n)) pre post refl
          (h.single_fits (ieee.single_value n)),
      length-be_bytes 4 (ieee.single_bits (ieee.single_value n)),
      h.single_again n small,
    ),
  )
