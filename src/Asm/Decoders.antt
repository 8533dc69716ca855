-- ===== src/Asm/Decoders.antt =====
-- src/asm/decode.h: the operands of each uncompressed format, read from an instruction.
pub mod Compressed
unfoldable pub use Compressed.*
use rv8_riscv_ckpt.Base.{ℕ, ◌+◌, ◌%◌, ◌^◌, Bool, Option, some, none, bit_or, ◌==◌, if◌then◌else◌}
use rv8_riscv_ckpt.Asm.Types.{decode}
use rv8_riscv_ckpt.Asm.Operands
use rv8_riscv_ckpt.Asm.Inst.{Decode, imm64, ireg_zero, ireg_ra, ireg_sp}

unfoldable pub decode_none : Decode → ℕ → Decode
decode_none d inst = record d { rd = ireg_zero; rs1 = ireg_zero; rs2 = ireg_zero; imm = 0 }

unfoldable pub decode_r : Decode → ℕ → Decode
decode_r d inst = record d {
  rd = decode Operands.rd inst % 256;
  rs1 = decode Operands.rs1 inst % 256;
  rs2 = decode Operands.rs2 inst % 256;
  imm = 0;
}

unfoldable pub decode_r_m : Decode → ℕ → Decode
decode_r_m d inst = record d {
  rd = decode Operands.rd inst % 256;
  rs1 = decode Operands.rs1 inst % 256;
  rs2 = decode Operands.rs2 inst % 256;
  imm = 0;
  rm = decode Operands.rm inst % 8;
}

unfoldable pub decode_r_l : Decode → ℕ → Decode
decode_r_l d inst = record d {
  rd = decode Operands.rd inst % 256;
  rs1 = decode Operands.rs1 inst % 256;
  rs2 = ireg_zero;
  imm = 0;
  aq = decode Operands.aq inst % 2;
  rl = decode Operands.rl inst % 2;
}

unfoldable pub decode_r_a : Decode → ℕ → Decode
decode_r_a d inst = record d {
  rd = decode Operands.rd inst % 256;
  rs1 = decode Operands.rs1 inst % 256;
  rs2 = decode Operands.rs2 inst % 256;
  imm = 0;
  aq = decode Operands.aq inst % 2;
  rl = decode Operands.rl inst % 2;
}

unfoldable pub decode_r4_m : Decode → ℕ → Decode
decode_r4_m d inst = record d {
  rd = decode Operands.rd inst % 256;
  rs1 = decode Operands.rs1 inst % 256;
  rs2 = decode Operands.rs2 inst % 256;
  rs3 = decode Operands.rs3 inst % 256;
  imm = 0;
  rm = decode Operands.rm inst % 8;
}

unfoldable pub decode_r_f : Decode → ℕ → Decode
decode_r_f d inst = record d {
  rd = ireg_zero;
  rs1 = ireg_zero;
  rs2 = ireg_zero;
  pred = decode Operands.pred inst % 16;
  succ = decode Operands.succ inst % 16;
  imm = 0;
}

unfoldable pub decode_i : Decode → ℕ → Decode
decode_i d inst = record d {
  rd = decode Operands.rd inst % 256;
  rs1 = decode Operands.rs1 inst % 256;
  rs2 = ireg_zero;
  imm = decode Operands.imm12 inst % 2 ^ 32;
}

unfoldable pub decode_i_csr : Decode → ℕ → Decode
decode_i_csr d inst = record d {
  rd = decode Operands.rd inst % 256;
  rs1 = decode Operands.rs1 inst % 256;
  rs2 = ireg_zero;
  imm = decode Operands.csr12 inst % 2 ^ 32;
}

unfoldable pub decode_i_sh5 : Decode → ℕ → Decode
decode_i_sh5 d inst = record d {
  rd = decode Operands.rd inst % 256;
  rs1 = decode Operands.rs1 inst % 256;
  rs2 = ireg_zero;
  imm = decode Operands.shamt5 inst % 2 ^ 32;
}

unfoldable pub decode_i_sh6 : Decode → ℕ → Decode
decode_i_sh6 d inst = record d {
  rd = decode Operands.rd inst % 256;
  rs1 = decode Operands.rs1 inst % 256;
  rs2 = ireg_zero;
  imm = decode Operands.shamt6 inst % 2 ^ 32;
}

unfoldable pub decode_i_sh7 : Decode → ℕ → Decode
decode_i_sh7 d inst = record d {
  rd = decode Operands.rd inst % 256;
  rs1 = decode Operands.rs1 inst % 256;
  rs2 = ireg_zero;
  imm = decode Operands.shamt7 inst % 2 ^ 32;
}

unfoldable pub decode_s : Decode → ℕ → Decode
decode_s d inst = record d {
  rd = ireg_zero;
  rs1 = decode Operands.rs1 inst % 256;
  rs2 = decode Operands.rs2 inst % 256;
  imm = decode Operands.simm12 inst % 2 ^ 32;
}

unfoldable pub decode_sb : Decode → ℕ → Decode
decode_sb d inst = record d {
  rd = ireg_zero;
  rs1 = decode Operands.rs1 inst % 256;
  rs2 = decode Operands.rs2 inst % 256;
  imm = decode Operands.sbimm12 inst % 2 ^ 32;
}

unfoldable pub decode_u : Decode → ℕ → Decode
decode_u d inst = record d {
  rd = decode Operands.rd inst % 256;
  rs1 = ireg_zero;
  rs2 = ireg_zero;
  imm = decode Operands.imm20 inst % 2 ^ 32;
}

unfoldable pub decode_uj : Decode → ℕ → Decode
decode_uj d inst = record d {
  rd = decode Operands.rd inst % 256;
  rs1 = ireg_zero;
  rs2 = ireg_zero;
  imm = decode Operands.jimm20 inst % 2 ^ 32;
}
