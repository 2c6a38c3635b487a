-- ===== src/BasicTypes.antt =====
-- src/protocol/types/BasicTypes.ts: the static encoders and decoders. An encoder returns a fresh
-- buffer or throws a RangeError; a decoder takes the buffer and an offset, and returns the value
-- with the offset behind it.
pub mod Numbers
pub mod Strings
pub mod Varint
pub mod Compact
pub mod Arrays
pub mod Floats
pub mod FloatLaws
pub mod NumberLaws
pub mod Bounds
pub mod StringLaws
pub mod VarintLaws
pub mod VarintFuel
pub mod CompactLaws
pub mod ArrayLaws
