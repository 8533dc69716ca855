-- ===== src/Asm.antt =====
-- The instruction codec: src/asm.
pub mod Types
pub mod Operands
pub mod Inst
pub mod Assert
pub mod Encoders
pub mod Decoders
pub mod Op
pub mod Constraints
pub mod Meta
pub mod Codec
pub mod Alu
pub mod Switch
pub mod RoundTrip
