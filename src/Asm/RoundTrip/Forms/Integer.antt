-- ===== src/Asm/RoundTrip/Forms/Integer.antt =====
-- The forms of instructions on registers, and of jumps and branches.
use rv8_riscv_ckpt.Asm.Op
use rv8_riscv_ckpt.Asm.Meta.CompressedConstraints.{
  rvcc_c_add, rvcc_c_addi, rvcc_c_addi16sp, rvcc_c_addi4spn, rvcc_c_addiw, rvcc_c_addw, rvcc_c_and,
  rvcc_c_andi, rvcc_c_beqz, rvcc_c_bnez, rvcc_c_ebreak, rvcc_c_j, rvcc_c_jalr, rvcc_c_jr, rvcc_c_li,
  rvcc_c_lui, rvcc_c_mv, rvcc_c_nop, rvcc_c_or, rvcc_c_slli_rv64c, rvcc_c_srai_rv64c,
  rvcc_c_srli_rv64c, rvcc_c_sub, rvcc_c_subw, rvcc_c_xor,
}
use rv8_riscv_ckpt.Asm.Constraints.{holds, constraint_check}
use rv8_riscv_ckpt.Asm.RoundTrip.Forms.Survives.{survives}
use rv8_riscv_ckpt.Asm.Inst.{Codec, Decode}
use rv8_riscv_ckpt.Asm.RoundTrip.Encodable.{IsEncodable}
use rv8_riscv_ckpt.Base.{bit_and-ones, arith, true, ◌≡◌}
use rv8_riscv_ckpt.Asm.Codec.{with_op}

pub c_lui_keeps :
    (d : Decode)
    → IsEncodable Codec.u d
    → constraint_check d rvcc_c_lui ≡ true
    → survives Op.c_lui d ≡ true
    → IsEncodable Codec.ci_lui (with_op d Op.c_lui)
unfolding constraint_check holds survives
c_lui_keeps d h k s = ground (arith)

pub c_j_keeps :
    (d : Decode)
    → IsEncodable Codec.uj d
    → constraint_check d rvcc_c_j ≡ true
    → survives Op.c_j d ≡ true
    → IsEncodable Codec.cj (with_op d Op.c_j)
unfolding constraint_check holds survives
c_j_keeps d h k s = ground (arith, bit_and-ones 1 d.imm)

pub c_jr_keeps :
    (d : Decode)
    → IsEncodable Codec.i d
    → constraint_check d rvcc_c_jr ≡ true
    → survives Op.c_jr d ≡ true
    → IsEncodable Codec.cr_jr (with_op d Op.c_jr)
unfolding constraint_check holds survives
c_jr_keeps d h k s = ground (arith)

pub c_jalr_keeps :
    (d : Decode)
    → IsEncodable Codec.i d
    → constraint_check d rvcc_c_jalr ≡ true
    → survives Op.c_jalr d ≡ true
    → IsEncodable Codec.cr_jalr (with_op d Op.c_jalr)
unfolding constraint_check holds survives
c_jalr_keeps d h k s = ground (arith)

pub c_beqz_keeps :
    (d : Decode)
    → IsEncodable Codec.sb d
    → constraint_check d rvcc_c_beqz ≡ true
    → survives Op.c_beqz d ≡ true
    → IsEncodable Codec.cb (with_op d Op.c_beqz)
unfolding constraint_check holds survives
c_beqz_keeps d h k s = ground (arith, bit_and-ones 1 d.imm)

pub c_bnez_keeps :
    (d : Decode)
    → IsEncodable Codec.sb d
    → constraint_check d rvcc_c_bnez ≡ true
    → survives Op.c_bnez d ≡ true
    → IsEncodable Codec.cb (with_op d Op.c_bnez)
unfolding constraint_check holds survives
c_bnez_keeps d h k s = ground (arith, bit_and-ones 1 d.imm)

pub c_addi4spn_keeps :
    (d : Decode)
    → IsEncodable Codec.i d
    → constraint_check d rvcc_c_addi4spn ≡ true
    → survives Op.c_addi4spn d ≡ true
    → IsEncodable Codec.ciw_4spn (with_op d Op.c_addi4spn)
unfolding constraint_check holds survives
c_addi4spn_keeps d h k s = ground (arith, bit_and-ones 2 d.imm)

pub c_nop_keeps :
    (d : Decode)
    → IsEncodable Codec.i d
    → constraint_check d rvcc_c_nop ≡ true
    → survives Op.c_nop d ≡ true
    → IsEncodable Codec.ci_none (with_op d Op.c_nop)
unfolding constraint_check holds survives
c_nop_keeps d h k s = ground (arith)

pub c_addi_keeps :
    (d : Decode)
    → IsEncodable Codec.i d
    → constraint_check d rvcc_c_addi ≡ true
    → survives Op.c_addi d ≡ true
    → IsEncodable Codec.ci (with_op d Op.c_addi)
unfolding constraint_check holds survives
c_addi_keeps d h k s = ground (arith)

pub c_li_keeps :
    (d : Decode)
    → IsEncodable Codec.i d
    → constraint_check d rvcc_c_li ≡ true
    → survives Op.c_li d ≡ true
    → IsEncodable Codec.ci_li (with_op d Op.c_li)
unfolding constraint_check holds survives
c_li_keeps d h k s = ground (arith)

pub c_addi16sp_keeps :
    (d : Decode)
    → IsEncodable Codec.i d
    → constraint_check d rvcc_c_addi16sp ≡ true
    → survives Op.c_addi16sp d ≡ true
    → IsEncodable Codec.ci_16sp (with_op d Op.c_addi16sp)
unfolding constraint_check holds survives
c_addi16sp_keeps d h k s = ground (arith, bit_and-ones 2 d.imm)

pub c_mv_keeps :
    (d : Decode)
    → IsEncodable Codec.i d
    → constraint_check d rvcc_c_mv ≡ true
    → survives Op.c_mv d ≡ true
    → IsEncodable Codec.cr_mv (with_op d Op.c_mv)
unfolding constraint_check holds survives
c_mv_keeps d h k s = ground (arith)

pub c_andi_keeps :
    (d : Decode)
    → IsEncodable Codec.i d
    → constraint_check d rvcc_c_andi ≡ true
    → survives Op.c_andi d ≡ true
    → IsEncodable Codec.cb_imm (with_op d Op.c_andi)
unfolding constraint_check holds survives
c_andi_keeps d h k s = ground (arith)

pub c_slli_keeps :
    (d : Decode)
    → IsEncodable Codec.i_sh7 d
    → constraint_check d rvcc_c_slli_rv64c ≡ true
    → survives Op.c_slli d ≡ true
    → IsEncodable Codec.ci_sh6 (with_op d Op.c_slli)
unfolding constraint_check holds survives
c_slli_keeps d h k s = ground (arith)

pub c_srli_keeps :
    (d : Decode)
    → IsEncodable Codec.i_sh7 d
    → constraint_check d rvcc_c_srli_rv64c ≡ true
    → survives Op.c_srli d ≡ true
    → IsEncodable Codec.cb_sh6 (with_op d Op.c_srli)
unfolding constraint_check holds survives
c_srli_keeps d h k s = ground (arith)

pub c_srai_keeps :
    (d : Decode)
    → IsEncodable Codec.i_sh7 d
    → constraint_check d rvcc_c_srai_rv64c ≡ true
    → survives Op.c_srai d ≡ true
    → IsEncodable Codec.cb_sh6 (with_op d Op.c_srai)
unfolding constraint_check holds survives
c_srai_keeps d h k s = ground (arith)

pub c_add_keeps :
    (d : Decode)
    → IsEncodable Codec.r d
    → constraint_check d rvcc_c_add ≡ true
    → survives Op.c_add d ≡ true
    → IsEncodable Codec.cr (with_op d Op.c_add)
unfolding constraint_check holds survives
c_add_keeps d h k s = ground (arith)

pub c_sub_keeps :
    (d : Decode)
    → IsEncodable Codec.r d
    → constraint_check d rvcc_c_sub ≡ true
    → survives Op.c_sub d ≡ true
    → IsEncodable Codec.cs (with_op d Op.c_sub)
unfolding constraint_check holds survives
c_sub_keeps d h k s = ground (arith)

pub c_xor_keeps :
    (d : Decode)
    → IsEncodable Codec.r d
    → constraint_check d rvcc_c_xor ≡ true
    → survives Op.c_xor d ≡ true
    → IsEncodable Codec.cs (with_op d Op.c_xor)
unfolding constraint_check holds survives
c_xor_keeps d h k s = ground (arith)

pub c_or_keeps :
    (d : Decode)
    → IsEncodable Codec.r d
    → constraint_check d rvcc_c_or ≡ true
    → survives Op.c_or d ≡ true
    → IsEncodable Codec.cs (with_op d Op.c_or)
unfolding constraint_check holds survives
c_or_keeps d h k s = ground (arith)

pub c_and_keeps :
    (d : Decode)
    → IsEncodable Codec.r d
    → constraint_check d rvcc_c_and ≡ true
    → survives Op.c_and d ≡ true
    → IsEncodable Codec.cs (with_op d Op.c_and)
unfolding constraint_check holds survives
c_and_keeps d h k s = ground (arith)

pub c_addiw_keeps :
    (d : Decode)
    → IsEncodable Codec.i d
    → constraint_check d rvcc_c_addiw ≡ true
    → survives Op.c_addiw d ≡ true
    → IsEncodable Codec.ci (with_op d Op.c_addiw)
unfolding constraint_check holds survives
c_addiw_keeps d h k s = ground (arith)

pub c_addw_keeps :
    (d : Decode)
    → IsEncodable Codec.r d
    → constraint_check d rvcc_c_addw ≡ true
    → survives Op.c_addw d ≡ true
    → IsEncodable Codec.cs (with_op d Op.c_addw)
unfolding constraint_check holds survives
c_addw_keeps d h k s = ground (arith)

pub c_subw_keeps :
    (d : Decode)
    → IsEncodable Codec.r d
    → constraint_check d rvcc_c_subw ≡ true
    → survives Op.c_subw d ≡ true
    → IsEncodable Codec.cs (with_op d Op.c_subw)
unfolding constraint_check holds survives
c_subw_keeps d h k s = ground (arith)

pub c_ebreak_keeps :
    (d : Decode)
    → IsEncodable Codec.none d
    → constraint_check d rvcc_c_ebreak ≡ true
    → survives Op.c_ebreak d ≡ true
    → IsEncodable Codec.ci_none (with_op d Op.c_ebreak)
unfolding constraint_check holds survives
c_ebreak_keeps d h k s = ground (arith)
