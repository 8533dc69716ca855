-- ===== src/Asm/Meta.antt =====
-- src/asm/meta.cc: the tables of the instruction set.
mod Codecs
mod Matches
pub mod CompData
pub mod CompressedConstraints
pub mod PseudoConstraints
pub mod Compress32
pub mod Compress64
pub mod Compress128
pub mod Decompress
pub mod Pseudo
unfoldable pub use Codecs.*
unfoldable pub use Matches.*
