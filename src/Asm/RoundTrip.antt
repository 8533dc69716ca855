-- ===== src/Asm/RoundTrip.antt =====
-- src/asm: encoding and decoding, by format, by opcode and for compressed forms.
pub mod Slots
pub mod Layouts
pub mod Encodable
pub mod Checks
pub mod Immediates
pub mod Formats
pub mod Opcodes
pub mod Forms
pub mod Losses
pub mod FieldBits
pub mod Decoding
pub mod Told
pub mod Compressed
pub mod Tests
