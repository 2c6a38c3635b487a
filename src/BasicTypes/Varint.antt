-- ===== src/BasicTypes/Varint.antt =====
-- src/protocol/types/BasicTypes.ts: the variable-length counts of the compact formats, seven bits a
-- byte, lowest first. The loops that measure, write and read a count stand in each compact function
-- of the source; here they are written once. JavaScript's `>>`, `<<`, `|` and `&` work on 32 bits.
use kafka_node_ts.Prelude.{
  ℕ, zero, suc, ◌+◌, ◌-◌, ◌*◌, ◌/◌, ◌%◌, ◌^◌, true, false, [], ◌∷◌, drop, bit_or, ltb,
  if◌then◌else◌,
}
use kafka_node_ts.Prelude.Int.{ℤ, pos, negsuc, ltb_ℤ}
use kafka_node_ts.Prelude.Errors.{Result, ok, err, range_error}
use kafka_node_ts.Buffer.{Bytes, put, of_pattern}

-- The 32 bits on which the operators work.
abbrev pub pattern32 : ℤ → ℕ
pattern32 (pos n) = n % 2 ^ 32
pattern32 (negsuc n) = 2 ^ 32 - 1 - n % 2 ^ 32

-- `len >> 7`
abbrev pub shift_right_7 : ℤ → ℤ
shift_right_7 len =
    let u = pattern32 len in
    if ltb u (2 ^ 31) then pos (u / 128) else negsuc ((2 ^ 32 - 1 - u) / 128)

-- `len & 0x7F`
abbrev pub low_7 : ℤ → ℕ
low_7 len = pattern32 len % 128

-- `while (len > 127) { sizeOfLength++; len = len >> 7; }`, on fuel.
unfoldable pub size_loop : ℕ → ℕ → ℤ → ℕ
size_loop zero size len = size
size_loop (suc fuel) size len = elim (ltb_ℤ (pos 127) len) [
  | true ↦ size_loop fuel (size + 1) (shift_right_7 len)
  | false ↦ size
]

-- `while (len > 127) { buffer[idx++] = (len & 0x7F) | 0x80; len = len >> 7; }
-- buffer[idx++] = len & 0x7F;`
unfoldable pub write_loop : ℕ → Bytes → ℕ → ℤ → Bytes × ℕ
write_loop zero buffer idx len = (put buffer idx (low_7 len ∷ []), idx + 1)
write_loop (suc fuel) buffer idx len = elim (ltb_ℤ (pos 127) len) [
  | true ↦
      write_loop fuel (put buffer idx (bit_or (low_7 len) 0x80 ∷ [])) (idx + 1) (shift_right_7 len)
  | false ↦ (put buffer idx (low_7 len ∷ []), idx + 1)
]

-- After five shifts of a 32-bit number nothing is left to shift.
abbrev pub loop_fuel : ℕ
loop_fuel = 5

abbrev pub size_of_length : ℤ → ℕ
size_of_length = size_loop loop_fuel 1

abbrev pub write_length : Bytes → ℤ → Bytes × ℕ
write_length buffer = write_loop loop_fuel buffer 0

-- `do { byteRead = buffer.readUInt8(offset++); length |= (byteRead & 0x7F) << shift; shift += 7; }
-- while (byteRead & 0x80)`. The list is what stands from `offset` on; the accumulator is the 32 bits
-- of `length`.
unfoldable pub read_loop : Bytes → ℕ → ℕ → ℕ → Result (ℤ × ℤ)
read_loop [] offset acc shift = err range_error
read_loop (byte ∷ rest) offset acc shift =
    let acc' = bit_or acc (byte % 128 * 2 ^ (shift % 32) % 2 ^ 32) in
    let more = read_loop rest (offset + 1) acc' (shift + 7) in
    if ltb byte 128 then ok (of_pattern 4 acc', pos (offset + 1)) else more

unfoldable pub read_length : Bytes → ℤ → Result (ℤ × ℤ)
unfolding read_loop
read_length buffer (pos offset) = read_loop (drop offset buffer) offset 0 0
read_length buffer (negsuc offset) = err range_error
