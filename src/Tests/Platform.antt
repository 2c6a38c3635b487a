-- ===== src/Tests/Platform.antt =====
-- Doubles, floats and JSON on a platform with two numbers and one JSON value.
use kafka_node_ts.Prelude.{◌==◌, ◌≡◌, refl, Bool, true, false, [], ◌∷◌, arith, if◌then◌else◌}
use kafka_node_ts.Prelude.Errors.{ok}
use kafka_node_ts.BasicTypes.Floats.{Ieee, IsIeee}
use kafka_node_ts.Encoder.{Encoder, new_encoder}
use kafka_node_ts.Encoder.Floats.{write_float, write_double}
use kafka_node_ts.Encoder.Laws.{new_encoder-IsConsistent}
use kafka_node_ts.Decoder.Floats.{read_float, read_double, write_double-read_double}
use kafka_node_ts.Decoder.Streams.{decoder_behind}

-- The numbers 1 and 0, as `true` and `false`, with their bits.
abbrev one_and_zero : Ieee Bool
one_and_zero = record {
  single_bits = λ v. if v then 0x3f80_0000 else 0;
  single_value = λ n. n == 0x3f80_0000;
  double_bits = λ v. if v then 0x3ff0_0000_0000_0000 else 0;
  double_value = λ n. n == 0x3ff0_0000_0000_0000;
}

single_kept : (b : Bool) → one_and_zero.single_value (one_and_zero.single_bits b) ≡ b
single_kept true = refl
single_kept false = refl

double_kept : (b : Bool) → one_and_zero.double_value (one_and_zero.double_bits b) ≡ b
double_kept true = refl
double_kept false = refl

one_and_zero-IsIeee : IsIeee one_and_zero
one_and_zero-IsIeee = record {
  single_fits = λ v. ground arith;
  double_fits = λ v. ground arith;
  single_again = λ n small. single_kept (one_and_zero.single_value n);
  double_again = double_kept;
}

write_double-read_double_example :
    (e₁ e₂ : Encoder) × (write_double one_and_zero new_encoder true ≡ ok e₁)
    × (write_float one_and_zero e₁ true ≡ ok e₂)
    × (read_double one_and_zero (decoder_behind new_encoder e₂ (9 ∷ []))
        ≡ ok (true, decoder_behind e₁ e₂ (9 ∷ [])))
    × (read_float one_and_zero (decoder_behind e₁ e₂ (9 ∷ []))
        ≡ ok (true, decoder_behind e₂ e₂ (9 ∷ [])))
write_double-read_double_example =
    write_double-read_double one_and_zero one_and_zero-IsIeee true 0x3f80_0000 new_encoder (9 ∷ [])
      (omega arith) new_encoder-IsConsistent
