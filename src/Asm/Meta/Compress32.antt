-- ===== src/Asm/Meta/Compress32.antt =====
-- src/asm/meta.cc: the compressed forms of each instruction of RV32.
use rv8_riscv_ckpt.Base.{ℕ, List, [], ◌∷◌}
use rv8_riscv_ckpt.Asm.Op
use rv8_riscv_ckpt.Asm.Meta.CompData.{CompData, comp}
use rv8_riscv_ckpt.Asm.Meta.CompressedConstraints.{
  rvcc_c_add, rvcc_c_addi, rvcc_c_addi16sp, rvcc_c_addi4spn, rvcc_c_and, rvcc_c_andi, rvcc_c_beqz,
  rvcc_c_bnez, rvcc_c_ebreak, rvcc_c_fld, rvcc_c_fldsp, rvcc_c_flw, rvcc_c_flwsp, rvcc_c_fsd,
  rvcc_c_fsdsp, rvcc_c_fsw, rvcc_c_fswsp, rvcc_c_j, rvcc_c_jal, rvcc_c_jalr, rvcc_c_jr, rvcc_c_li,
  rvcc_c_lui, rvcc_c_lw, rvcc_c_lwsp, rvcc_c_mv, rvcc_c_nop, rvcc_c_or, rvcc_c_slli_rv32c,
  rvcc_c_srai_rv32c, rvcc_c_srli_rv32c, rvcc_c_sub, rvcc_c_sw, rvcc_c_swsp, rvcc_c_xor,
}

abbrev pub rvcd_rv32_lui : List CompData
rvcd_rv32_lui = comp Op.c_lui rvcc_c_lui ∷ []

abbrev pub rvcd_rv32_jal : List CompData
rvcd_rv32_jal = comp Op.c_jal rvcc_c_jal ∷ comp Op.c_j rvcc_c_j ∷ []

abbrev pub rvcd_rv32_jalr : List CompData
rvcd_rv32_jalr = comp Op.c_jr rvcc_c_jr ∷ comp Op.c_jalr rvcc_c_jalr ∷ []

abbrev pub rvcd_rv32_beq : List CompData
rvcd_rv32_beq = comp Op.c_beqz rvcc_c_beqz ∷ []

abbrev pub rvcd_rv32_bne : List CompData
rvcd_rv32_bne = comp Op.c_bnez rvcc_c_bnez ∷ []

abbrev pub rvcd_rv32_lw : List CompData
rvcd_rv32_lw = comp Op.c_lw rvcc_c_lw ∷ comp Op.c_lwsp rvcc_c_lwsp ∷ []

abbrev pub rvcd_rv32_sw : List CompData
rvcd_rv32_sw = comp Op.c_sw rvcc_c_sw ∷ comp Op.c_swsp rvcc_c_swsp ∷ []

abbrev pub rvcd_rv32_addi : List CompData
rvcd_rv32_addi =
    comp Op.c_addi4spn rvcc_c_addi4spn
    ∷ comp Op.c_nop rvcc_c_nop
    ∷ comp Op.c_addi rvcc_c_addi
    ∷ comp Op.c_li rvcc_c_li
    ∷ comp Op.c_addi16sp rvcc_c_addi16sp
    ∷ comp Op.c_mv rvcc_c_mv
    ∷ []

abbrev pub rvcd_rv32_andi : List CompData
rvcd_rv32_andi = comp Op.c_andi rvcc_c_andi ∷ []

abbrev pub rvcd_rv32_slli : List CompData
rvcd_rv32_slli = comp Op.c_slli rvcc_c_slli_rv32c ∷ []

abbrev pub rvcd_rv32_srli : List CompData
rvcd_rv32_srli = comp Op.c_srli rvcc_c_srli_rv32c ∷ []

abbrev pub rvcd_rv32_srai : List CompData
rvcd_rv32_srai = comp Op.c_srai rvcc_c_srai_rv32c ∷ []

abbrev pub rvcd_rv32_add : List CompData
rvcd_rv32_add = comp Op.c_add rvcc_c_add ∷ []

abbrev pub rvcd_rv32_sub : List CompData
rvcd_rv32_sub = comp Op.c_sub rvcc_c_sub ∷ []

abbrev pub rvcd_rv32_xor : List CompData
rvcd_rv32_xor = comp Op.c_xor rvcc_c_xor ∷ []

abbrev pub rvcd_rv32_or : List CompData
rvcd_rv32_or = comp Op.c_or rvcc_c_or ∷ []

abbrev pub rvcd_rv32_and : List CompData
rvcd_rv32_and = comp Op.c_and rvcc_c_and ∷ []

abbrev pub rvcd_rv32_ebreak : List CompData
rvcd_rv32_ebreak = comp Op.c_ebreak rvcc_c_ebreak ∷ []

abbrev pub rvcd_rv32_flw : List CompData
rvcd_rv32_flw = comp Op.c_flw rvcc_c_flw ∷ comp Op.c_flwsp rvcc_c_flwsp ∷ []

abbrev pub rvcd_rv32_fsw : List CompData
rvcd_rv32_fsw = comp Op.c_fsw rvcc_c_fsw ∷ comp Op.c_fswsp rvcc_c_fswsp ∷ []

abbrev pub rvcd_rv32_fld : List CompData
rvcd_rv32_fld = comp Op.c_fld rvcc_c_fld ∷ comp Op.c_fldsp rvcc_c_fldsp ∷ []

abbrev pub rvcd_rv32_fsd : List CompData
rvcd_rv32_fsd = comp Op.c_fsd rvcc_c_fsd ∷ comp Op.c_fsdsp rvcc_c_fsdsp ∷ []

-- The entries that are not `nullptr`.
unfoldable pub rv_inst_comp_rv32 : List (ℕ × List CompData)
rv_inst_comp_rv32 =
    (Op.lui, rvcd_rv32_lui)
    ∷ (Op.jal, rvcd_rv32_jal)
    ∷ (Op.jalr, rvcd_rv32_jalr)
    ∷ (Op.beq, rvcd_rv32_beq)
    ∷ (Op.bne, rvcd_rv32_bne)
    ∷ (Op.lw, rvcd_rv32_lw)
    ∷ (Op.sw, rvcd_rv32_sw)
    ∷ (Op.addi, rvcd_rv32_addi)
    ∷ (Op.andi, rvcd_rv32_andi)
    ∷ (Op.slli, rvcd_rv32_slli)
    ∷ (Op.srli, rvcd_rv32_srli)
    ∷ (Op.srai, rvcd_rv32_srai)
    ∷ (Op.add, rvcd_rv32_add)
    ∷ (Op.sub, rvcd_rv32_sub)
    ∷ (Op.xor, rvcd_rv32_xor)
    ∷ (Op.or, rvcd_rv32_or)
    ∷ (Op.and, rvcd_rv32_and)
    ∷ (Op.ebreak, rvcd_rv32_ebreak)
    ∷ (Op.flw, rvcd_rv32_flw)
    ∷ (Op.fsw, rvcd_rv32_fsw)
    ∷ (Op.fld, rvcd_rv32_fld)
    ∷ (Op.fsd, rvcd_rv32_fsd)
    ∷ []
