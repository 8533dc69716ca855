-- ===== src/Asm/Meta/Pseudo.antt =====
-- src/asm/meta.cc: pseudo-instructions, and the instructions that they stand for.
use rv8_riscv_ckpt.Base.{ℕ, List, [], ◌∷◌}
use rv8_riscv_ckpt.Asm.Op
use rv8_riscv_ckpt.Asm.Meta.CompData.{CompData, comp}
use rv8_riscv_ckpt.Asm.Meta.PseudoConstraints.{
  rvcc_beqz, rvcc_bgez, rvcc_bgt, rvcc_bgtu, rvcc_bgtz, rvcc_ble, rvcc_bleu, rvcc_blez, rvcc_bltz,
  rvcc_bnez, rvcc_fabs_d, rvcc_fabs_q, rvcc_fabs_s, rvcc_fmv_d, rvcc_fmv_q, rvcc_fmv_s, rvcc_fneg_d,
  rvcc_fneg_q, rvcc_fneg_s, rvcc_frcsr, rvcc_frflags, rvcc_frrm, rvcc_fscsr, rvcc_fsflags,
  rvcc_fsflagsi, rvcc_fsrm, rvcc_fsrmi, rvcc_j, rvcc_jal, rvcc_jalr, rvcc_jr, rvcc_mv, rvcc_neg,
  rvcc_negw, rvcc_nop, rvcc_not, rvcc_rdcycle, rvcc_rdcycleh, rvcc_rdinstret, rvcc_rdinstreth,
  rvcc_rdtime, rvcc_rdtimeh, rvcc_ret, rvcc_seqz, rvcc_sext_w, rvcc_sgtz, rvcc_sltz, rvcc_snez,
}

abbrev pub rvcp_jal : List CompData
rvcp_jal = comp Op.j rvcc_j ∷ comp Op.jal rvcc_jal ∷ []

abbrev pub rvcp_jalr : List CompData
rvcp_jalr = comp Op.ret rvcc_ret ∷ comp Op.jr rvcc_jr ∷ comp Op.jalr rvcc_jalr ∷ []

abbrev pub rvcp_beq : List CompData
rvcp_beq = comp Op.beqz rvcc_beqz ∷ []

abbrev pub rvcp_bne : List CompData
rvcp_bne = comp Op.bnez rvcc_bnez ∷ []

abbrev pub rvcp_blt : List CompData
rvcp_blt = comp Op.bltz rvcc_bltz ∷ comp Op.bgtz rvcc_bgtz ∷ comp Op.bgt rvcc_bgt ∷ []

abbrev pub rvcp_bge : List CompData
rvcp_bge = comp Op.blez rvcc_blez ∷ comp Op.bgez rvcc_bgez ∷ comp Op.ble rvcc_ble ∷ []

abbrev pub rvcp_bltu : List CompData
rvcp_bltu = comp Op.bgtu rvcc_bgtu ∷ []

abbrev pub rvcp_bgeu : List CompData
rvcp_bgeu = comp Op.bleu rvcc_bleu ∷ []

abbrev pub rvcp_addi : List CompData
rvcp_addi = comp Op.nop rvcc_nop ∷ comp Op.mv rvcc_mv ∷ []

abbrev pub rvcp_sltiu : List CompData
rvcp_sltiu = comp Op.seqz rvcc_seqz ∷ []

abbrev pub rvcp_xori : List CompData
rvcp_xori = comp Op.not rvcc_not ∷ []

abbrev pub rvcp_sub : List CompData
rvcp_sub = comp Op.neg rvcc_neg ∷ []

abbrev pub rvcp_slt : List CompData
rvcp_slt = comp Op.sltz rvcc_sltz ∷ comp Op.sgtz rvcc_sgtz ∷ []

abbrev pub rvcp_sltu : List CompData
rvcp_sltu = comp Op.snez rvcc_snez ∷ []

abbrev pub rvcp_addiw : List CompData
rvcp_addiw = comp Op.sext_w rvcc_sext_w ∷ []

abbrev pub rvcp_subw : List CompData
rvcp_subw = comp Op.negw rvcc_negw ∷ []

abbrev pub rvcp_csrrw : List CompData
rvcp_csrrw = comp Op.fscsr rvcc_fscsr ∷ comp Op.fsrm rvcc_fsrm ∷ comp Op.fsflags rvcc_fsflags ∷ []

abbrev pub rvcp_csrrs : List CompData
rvcp_csrrs =
    comp Op.rdcycle rvcc_rdcycle
    ∷ comp Op.rdtime rvcc_rdtime
    ∷ comp Op.rdinstret rvcc_rdinstret
    ∷ comp Op.rdcycleh rvcc_rdcycleh
    ∷ comp Op.rdtimeh rvcc_rdtimeh
    ∷ comp Op.rdinstreth rvcc_rdinstreth
    ∷ comp Op.frcsr rvcc_frcsr
    ∷ comp Op.frrm rvcc_frrm
    ∷ comp Op.frflags rvcc_frflags
    ∷ []

abbrev pub rvcp_csrrwi : List CompData
rvcp_csrrwi = comp Op.fsrmi rvcc_fsrmi ∷ comp Op.fsflagsi rvcc_fsflagsi ∷ []

abbrev pub rvcp_fsgnj_s : List CompData
rvcp_fsgnj_s = comp Op.fmv_s rvcc_fmv_s ∷ []

abbrev pub rvcp_fsgnjn_s : List CompData
rvcp_fsgnjn_s = comp Op.fneg_s rvcc_fneg_s ∷ []

abbrev pub rvcp_fsgnjx_s : List CompData
rvcp_fsgnjx_s = comp Op.fabs_s rvcc_fabs_s ∷ []

abbrev pub rvcp_fsgnj_d : List CompData
rvcp_fsgnj_d = comp Op.fmv_d rvcc_fmv_d ∷ []

abbrev pub rvcp_fsgnjn_d : List CompData
rvcp_fsgnjn_d = comp Op.fneg_d rvcc_fneg_d ∷ []

abbrev pub rvcp_fsgnjx_d : List CompData
rvcp_fsgnjx_d = comp Op.fabs_d rvcc_fabs_d ∷ []

abbrev pub rvcp_fsgnj_q : List CompData
rvcp_fsgnj_q = comp Op.fmv_q rvcc_fmv_q ∷ []

abbrev pub rvcp_fsgnjn_q : List CompData
rvcp_fsgnjn_q = comp Op.fneg_q rvcc_fneg_q ∷ []

abbrev pub rvcp_fsgnjx_q : List CompData
rvcp_fsgnjx_q = comp Op.fabs_q rvcc_fabs_q ∷ []

-- The entries that are not `nullptr`.
unfoldable pub rv_inst_pseudo : List (ℕ × List CompData)
rv_inst_pseudo =
    (Op.jal, rvcp_jal)
    ∷ (Op.jalr, rvcp_jalr)
    ∷ (Op.beq, rvcp_beq)
    ∷ (Op.bne, rvcp_bne)
    ∷ (Op.blt, rvcp_blt)
    ∷ (Op.bge, rvcp_bge)
    ∷ (Op.bltu, rvcp_bltu)
    ∷ (Op.bgeu, rvcp_bgeu)
    ∷ (Op.addi, rvcp_addi)
    ∷ (Op.sltiu, rvcp_sltiu)
    ∷ (Op.xori, rvcp_xori)
    ∷ (Op.sub, rvcp_sub)
    ∷ (Op.slt, rvcp_slt)
    ∷ (Op.sltu, rvcp_sltu)
    ∷ (Op.addiw, rvcp_addiw)
    ∷ (Op.subw, rvcp_subw)
    ∷ (Op.csrrw, rvcp_csrrw)
    ∷ (Op.csrrs, rvcp_csrrs)
    ∷ (Op.csrrwi, rvcp_csrrwi)
    ∷ (Op.fsgnj_s, rvcp_fsgnj_s)
    ∷ (Op.fsgnjn_s, rvcp_fsgnjn_s)
    ∷ (Op.fsgnjx_s, rvcp_fsgnjx_s)
    ∷ (Op.fsgnj_d, rvcp_fsgnj_d)
    ∷ (Op.fsgnjn_d, rvcp_fsgnjn_d)
    ∷ (Op.fsgnjx_d, rvcp_fsgnjx_d)
    ∷ (Op.fsgnj_q, rvcp_fsgnj_q)
    ∷ (Op.fsgnjn_q, rvcp_fsgnjn_q)
    ∷ (Op.fsgnjx_q, rvcp_fsgnjx_q)
    ∷ []

-- The entries with constraints.
unfoldable pub rv_inst_depseudo : List (ℕ × CompData)
rv_inst_depseudo =
    (Op.jal, comp Op.jal rvcc_jal)
    ∷ (Op.jalr, comp Op.jalr rvcc_jalr)
    ∷ (Op.nop, comp Op.addi rvcc_nop)
    ∷ (Op.mv, comp Op.addi rvcc_mv)
    ∷ (Op.not, comp Op.xori rvcc_not)
    ∷ (Op.neg, comp Op.sub rvcc_neg)
    ∷ (Op.negw, comp Op.subw rvcc_negw)
    ∷ (Op.sext_w, comp Op.addiw rvcc_sext_w)
    ∷ (Op.seqz, comp Op.sltiu rvcc_seqz)
    ∷ (Op.snez, comp Op.sltu rvcc_snez)
    ∷ (Op.sltz, comp Op.slt rvcc_sltz)
    ∷ (Op.sgtz, comp Op.slt rvcc_sgtz)
    ∷ (Op.fmv_s, comp Op.fsgnj_s rvcc_fmv_s)
    ∷ (Op.fabs_s, comp Op.fsgnjx_s rvcc_fabs_s)
    ∷ (Op.fneg_s, comp Op.fsgnjn_s rvcc_fneg_s)
    ∷ (Op.fmv_d, comp Op.fsgnj_d rvcc_fmv_d)
    ∷ (Op.fabs_d, comp Op.fsgnjx_d rvcc_fabs_d)
    ∷ (Op.fneg_d, comp Op.fsgnjn_d rvcc_fneg_d)
    ∷ (Op.fmv_q, comp Op.fsgnj_q rvcc_fmv_q)
    ∷ (Op.fabs_q, comp Op.fsgnjx_q rvcc_fabs_q)
    ∷ (Op.fneg_q, comp Op.fsgnjn_q rvcc_fneg_q)
    ∷ (Op.beqz, comp Op.beq rvcc_beqz)
    ∷ (Op.bnez, comp Op.bne rvcc_bnez)
    ∷ (Op.blez, comp Op.bge rvcc_blez)
    ∷ (Op.bgez, comp Op.bge rvcc_bgez)
    ∷ (Op.bltz, comp Op.blt rvcc_bltz)
    ∷ (Op.bgtz, comp Op.blt rvcc_bgtz)
    ∷ (Op.ble, comp Op.bge rvcc_ble)
    ∷ (Op.bleu, comp Op.bgeu rvcc_bleu)
    ∷ (Op.bgt, comp Op.blt rvcc_bgt)
    ∷ (Op.bgtu, comp Op.bltu rvcc_bgtu)
    ∷ (Op.j, comp Op.jal rvcc_j)
    ∷ (Op.ret, comp Op.jalr rvcc_ret)
    ∷ (Op.jr, comp Op.jalr rvcc_jr)
    ∷ (Op.rdcycle, comp Op.csrrs rvcc_rdcycle)
    ∷ (Op.rdtime, comp Op.csrrs rvcc_rdtime)
    ∷ (Op.rdinstret, comp Op.csrrs rvcc_rdinstret)
    ∷ (Op.rdcycleh, comp Op.csrrs rvcc_rdcycleh)
    ∷ (Op.rdtimeh, comp Op.csrrs rvcc_rdtimeh)
    ∷ (Op.rdinstreth, comp Op.csrrs rvcc_rdinstreth)
    ∷ (Op.frcsr, comp Op.csrrs rvcc_frcsr)
    ∷ (Op.frrm, comp Op.csrrs rvcc_frrm)
    ∷ (Op.frflags, comp Op.csrrs rvcc_frflags)
    ∷ (Op.fscsr, comp Op.csrrw rvcc_fscsr)
    ∷ (Op.fsrm, comp Op.csrrw rvcc_fsrm)
    ∷ (Op.fsflags, comp Op.csrrw rvcc_fsflags)
    ∷ (Op.fsrmi, comp Op.csrrwi rvcc_fsrmi)
    ∷ (Op.fsflagsi, comp Op.csrrwi rvcc_fsflagsi)
    ∷ []
