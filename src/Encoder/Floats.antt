-- ===== src/Encoder/Floats.antt =====
-- src/protocol/Encoder.ts: writing floats and doubles.
use kafka_node_ts.Prelude.Errors.{Result}
use kafka_node_ts.BasicTypes.Floats.{Ieee, encode_float, encode_double}
use kafka_node_ts.Encoder.{Encoder, push_result}

module _ {Number : Type 0} (ieee : Ieee Number) where
  unfoldable pub write_float : Encoder → Number → Result Encoder
  write_float e value = push_result e (encode_float ieee value)

  unfoldable pub write_double : Encoder → Number → Result Encoder
  write_double e value = push_result e (encode_double ieee value)
