-- ===== src/Asm/Meta/Compress64.antt =====
-- src/asm/meta.cc: the compressed forms of each instruction of RV64.
use rv8_riscv_ckpt.Base.{ℕ, List, [], ◌∷◌}
use rv8_riscv_ckpt.Asm.Op
use rv8_riscv_ckpt.Asm.Meta.CompData.{CompData, comp}
use rv8_riscv_ckpt.Asm.Meta.CompressedConstraints.{
  rvcc_c_add, rvcc_c_addi, rvcc_c_addi16sp, rvcc_c_addi4spn, rvcc_c_addiw, rvcc_c_addw, rvcc_c_and,
  rvcc_c_andi, rvcc_c_beqz, rvcc_c_bnez, rvcc_c_ebreak, rvcc_c_fld, rvcc_c_fldsp, rvcc_c_fsd,
  rvcc_c_fsdsp, rvcc_c_j, rvcc_c_jalr, rvcc_c_jr, rvcc_c_ld, rvcc_c_ldsp, rvcc_c_li, rvcc_c_lui,
  rvcc_c_lw, rvcc_c_lwsp, rvcc_c_mv, rvcc_c_nop, rvcc_c_or, rvcc_c_sd, rvcc_c_sdsp,
  rvcc_c_slli_rv64c, rvcc_c_srai_rv64c, rvcc_c_srli_rv64c, rvcc_c_sub, rvcc_c_subw, rvcc_c_sw,
  rvcc_c_swsp, rvcc_c_xor,
}

abbrev pub rvcd_rv64_lui : List CompData
rvcd_rv64_lui = comp Op.c_lui rvcc_c_lui ∷ []

abbrev pub rvcd_rv64_jal : List CompData
rvcd_rv64_jal = comp Op.c_j rvcc_c_j ∷ []

abbrev pub rvcd_rv64_jalr : List CompData
rvcd_rv64_jalr = comp Op.c_jr rvcc_c_jr ∷ comp Op.c_jalr rvcc_c_jalr ∷ []

abbrev pub rvcd_rv64_beq : List CompData
rvcd_rv64_beq = comp Op.c_beqz rvcc_c_beqz ∷ []

abbrev pub rvcd_rv64_bne : List CompData
rvcd_rv64_bne = comp Op.c_bnez rvcc_c_bnez ∷ []

abbrev pub rvcd_rv64_lw : List CompData
rvcd_rv64_lw = comp Op.c_lw rvcc_c_lw ∷ comp Op.c_lwsp rvcc_c_lwsp ∷ []

abbrev pub rvcd_rv64_sw : List CompData
rvcd_rv64_sw = comp Op.c_sw rvcc_c_sw ∷ comp Op.c_swsp rvcc_c_swsp ∷ []

abbrev pub rvcd_rv64_addi : List CompData
rvcd_rv64_addi =
    comp Op.c_addi4spn rvcc_c_addi4spn
    ∷ comp Op.c_nop rvcc_c_nop
    ∷ comp Op.c_addi rvcc_c_addi
    ∷ comp Op.c_li rvcc_c_li
    ∷ comp Op.c_addi16sp rvcc_c_addi16sp
    ∷ comp Op.c_mv rvcc_c_mv
    ∷ []

abbrev pub rvcd_rv64_andi : List CompData
rvcd_rv64_andi = comp Op.c_andi rvcc_c_andi ∷ []

abbrev pub rvcd_rv64_add : List CompData
rvcd_rv64_add = comp Op.c_add rvcc_c_add ∷ []

abbrev pub rvcd_rv64_sub : List CompData
rvcd_rv64_sub = comp Op.c_sub rvcc_c_sub ∷ []

abbrev pub rvcd_rv64_xor : List CompData
rvcd_rv64_xor = comp Op.c_xor rvcc_c_xor ∷ []

abbrev pub rvcd_rv64_or : List CompData
rvcd_rv64_or = comp Op.c_or rvcc_c_or ∷ []

abbrev pub rvcd_rv64_and : List CompData
rvcd_rv64_and = comp Op.c_and rvcc_c_and ∷ []

abbrev pub rvcd_rv64_ld : List CompData
rvcd_rv64_ld = comp Op.c_ld rvcc_c_ld ∷ comp Op.c_ldsp rvcc_c_ldsp ∷ []

abbrev pub rvcd_rv64_sd : List CompData
rvcd_rv64_sd = comp Op.c_sd rvcc_c_sd ∷ comp Op.c_sdsp rvcc_c_sdsp ∷ []

abbrev pub rvcd_rv64_slli : List CompData
rvcd_rv64_slli = comp Op.c_slli rvcc_c_slli_rv64c ∷ []

abbrev pub rvcd_rv64_srli : List CompData
rvcd_rv64_srli = comp Op.c_srli rvcc_c_srli_rv64c ∷ []

abbrev pub rvcd_rv64_srai : List CompData
rvcd_rv64_srai = comp Op.c_srai rvcc_c_srai_rv64c ∷ []

abbrev pub rvcd_rv64_addiw : List CompData
rvcd_rv64_addiw = comp Op.c_addiw rvcc_c_addiw ∷ []

abbrev pub rvcd_rv64_addw : List CompData
rvcd_rv64_addw = comp Op.c_addw rvcc_c_addw ∷ []

abbrev pub rvcd_rv64_subw : List CompData
rvcd_rv64_subw = comp Op.c_subw rvcc_c_subw ∷ []

abbrev pub rvcd_rv64_ebreak : List CompData
rvcd_rv64_ebreak = comp Op.c_ebreak rvcc_c_ebreak ∷ []

abbrev pub rvcd_rv64_fld : List CompData
rvcd_rv64_fld = comp Op.c_fld rvcc_c_fld ∷ comp Op.c_fldsp rvcc_c_fldsp ∷ []

abbrev pub rvcd_rv64_fsd : List CompData
rvcd_rv64_fsd = comp Op.c_fsd rvcc_c_fsd ∷ comp Op.c_fsdsp rvcc_c_fsdsp ∷ []

-- The entries that are not `nullptr`.
unfoldable pub rv_inst_comp_rv64 : List (ℕ × List CompData)
rv_inst_comp_rv64 =
    (Op.lui, rvcd_rv64_lui)
    ∷ (Op.jal, rvcd_rv64_jal)
    ∷ (Op.jalr, rvcd_rv64_jalr)
    ∷ (Op.beq, rvcd_rv64_beq)
    ∷ (Op.bne, rvcd_rv64_bne)
    ∷ (Op.lw, rvcd_rv64_lw)
    ∷ (Op.sw, rvcd_rv64_sw)
    ∷ (Op.addi, rvcd_rv64_addi)
    ∷ (Op.andi, rvcd_rv64_andi)
    ∷ (Op.slli, rvcd_rv64_slli)
    ∷ (Op.srli, rvcd_rv64_srli)
    ∷ (Op.srai, rvcd_rv64_srai)
    ∷ (Op.add, rvcd_rv64_add)
    ∷ (Op.sub, rvcd_rv64_sub)
    ∷ (Op.xor, rvcd_rv64_xor)
    ∷ (Op.or, rvcd_rv64_or)
    ∷ (Op.and, rvcd_rv64_and)
    ∷ (Op.ld, rvcd_rv64_ld)
    ∷ (Op.sd, rvcd_rv64_sd)
    ∷ (Op.addiw, rvcd_rv64_addiw)
    ∷ (Op.addw, rvcd_rv64_addw)
    ∷ (Op.subw, rvcd_rv64_subw)
    ∷ (Op.ebreak, rvcd_rv64_ebreak)
    ∷ (Op.fld, rvcd_rv64_fld)
    ∷ (Op.fsd, rvcd_rv64_fsd)
    ∷ []
