-- ===== src/Asm/Encoders.antt =====
-- src/asm/encode.h: the bits of the operands of each uncompressed format.
-- `none` is a failed assertion.
pub mod Compressed
unfoldable pub use Compressed.*
use rv8_riscv_ckpt.Base.{ℕ, ◌+◌, ◌%◌, ◌^◌, Bool, Option, some, none, bit_or, ◌==◌, if◌then◌else◌}
use rv8_riscv_ckpt.Asm.Types.{encode}
use rv8_riscv_ckpt.Asm.Operands
use rv8_riscv_ckpt.Asm.Inst.{Decode, imm64, ireg_zero, ireg_ra, ireg_sp}
use rv8_riscv_ckpt.Asm.Assert.{require}

unfoldable pub encode_none : Decode → Option ℕ
encode_none d = some 0

unfoldable pub encode_r : Decode → Option ℕ
encode_r d = some (
    bit_or (bit_or (encode Operands.rd d.rd) (encode Operands.rs1 d.rs1))
      (encode Operands.rs2 d.rs2))

unfoldable pub encode_r_m : Decode → Option ℕ
encode_r_m d = some (
    bit_or
      (bit_or (bit_or (encode Operands.rd d.rd) (encode Operands.rs1 d.rs1))
        (encode Operands.rs2 d.rs2))
      (encode Operands.rm d.rm))

unfoldable pub encode_r_l : Decode → Option ℕ
encode_r_l d = require (d.rs2 == 0) (
    some (
      bit_or
        (bit_or (bit_or (encode Operands.rd d.rd) (encode Operands.rs1 d.rs1))
          (encode Operands.aq d.aq))
        (encode Operands.rl d.rl)))

unfoldable pub encode_r_a : Decode → Option ℕ
encode_r_a d = some (
    bit_or
      (bit_or
        (bit_or (bit_or (encode Operands.rd d.rd) (encode Operands.rs1 d.rs1))
          (encode Operands.rs2 d.rs2))
        (encode Operands.aq d.aq))
      (encode Operands.rl d.rl))

unfoldable pub encode_r4_m : Decode → Option ℕ
encode_r4_m d = some (
    bit_or
      (bit_or
        (bit_or (bit_or (encode Operands.rd d.rd) (encode Operands.rs1 d.rs1))
          (encode Operands.rs2 d.rs2))
        (encode Operands.rs3 d.rs3))
      (encode Operands.rm d.rm))

unfoldable pub encode_r_f : Decode → Option ℕ
encode_r_f d = some (bit_or (encode Operands.pred d.pred) (encode Operands.succ d.succ))

unfoldable pub encode_i : Decode → Option ℕ
encode_i d = some (
    bit_or (bit_or (encode Operands.rd d.rd) (encode Operands.rs1 d.rs1))
      (encode Operands.imm12 (imm64 d.imm)))

unfoldable pub encode_i_csr : Decode → Option ℕ
encode_i_csr d = some (
    bit_or (bit_or (encode Operands.rd d.rd) (encode Operands.rs1 d.rs1))
      (encode Operands.csr12 (imm64 d.imm)))

unfoldable pub encode_i_sh5 : Decode → Option ℕ
encode_i_sh5 d = some (
    bit_or (bit_or (encode Operands.rd d.rd) (encode Operands.rs1 d.rs1))
      (encode Operands.shamt5 (imm64 d.imm)))

unfoldable pub encode_i_sh6 : Decode → Option ℕ
encode_i_sh6 d = some (
    bit_or (bit_or (encode Operands.rd d.rd) (encode Operands.rs1 d.rs1))
      (encode Operands.shamt6 (imm64 d.imm)))

unfoldable pub encode_i_sh7 : Decode → Option ℕ
encode_i_sh7 d = some (
    bit_or (bit_or (encode Operands.rd d.rd) (encode Operands.rs1 d.rs1))
      (encode Operands.shamt7 (imm64 d.imm)))

unfoldable pub encode_s : Decode → Option ℕ
encode_s d = some (
    bit_or (bit_or (encode Operands.rs1 d.rs1) (encode Operands.rs2 d.rs2))
      (encode Operands.simm12 (imm64 d.imm)))

unfoldable pub encode_sb : Decode → Option ℕ
encode_sb d = some (
    bit_or (bit_or (encode Operands.rs1 d.rs1) (encode Operands.rs2 d.rs2))
      (encode Operands.sbimm12 (imm64 d.imm)))

unfoldable pub encode_u : Decode → Option ℕ
encode_u d = some (bit_or (encode Operands.rd d.rd) (encode Operands.imm20 (imm64 d.imm)))

unfoldable pub encode_uj : Decode → Option ℕ
encode_uj d = some (bit_or (encode Operands.rd d.rd) (encode Operands.jimm20 (imm64 d.imm)))
