-- ===== src/Asm/Meta/PseudoConstraints.antt =====
-- src/asm/meta.cc: the constraints of each pseudo-instruction.
use rv8_riscv_ckpt.Base.{List, [], ◌∷◌}
use rv8_riscv_ckpt.Asm.Constraints.{Constraint}

abbrev pub rvcc_jal : List Constraint
rvcc_jal = Constraint.rd_eq_ra ∷ []

abbrev pub rvcc_jalr : List Constraint
rvcc_jalr = Constraint.rd_eq_ra ∷ Constraint.imm_eq_zero ∷ []

abbrev pub rvcc_nop : List Constraint
rvcc_nop = Constraint.rd_eq_x0 ∷ Constraint.rs1_eq_x0 ∷ Constraint.imm_eq_zero ∷ []

abbrev pub rvcc_mv : List Constraint
rvcc_mv = Constraint.imm_eq_zero ∷ []

abbrev pub rvcc_not : List Constraint
rvcc_not = Constraint.imm_eq_n1 ∷ []

abbrev pub rvcc_neg : List Constraint
rvcc_neg = Constraint.rs1_eq_x0 ∷ []

abbrev pub rvcc_negw : List Constraint
rvcc_negw = Constraint.rs1_eq_x0 ∷ []

abbrev pub rvcc_sext_w : List Constraint
rvcc_sext_w = Constraint.imm_eq_zero ∷ []

abbrev pub rvcc_seqz : List Constraint
rvcc_seqz = Constraint.imm_eq_p1 ∷ []

abbrev pub rvcc_snez : List Constraint
rvcc_snez = Constraint.rs1_eq_x0 ∷ []

abbrev pub rvcc_sltz : List Constraint
rvcc_sltz = Constraint.rs2_eq_x0 ∷ []

abbrev pub rvcc_sgtz : List Constraint
rvcc_sgtz = Constraint.rs1_eq_x0 ∷ []

abbrev pub rvcc_fmv_s : List Constraint
rvcc_fmv_s = Constraint.rs2_eq_rs1 ∷ []

abbrev pub rvcc_fabs_s : List Constraint
rvcc_fabs_s = Constraint.rs2_eq_rs1 ∷ []

abbrev pub rvcc_fneg_s : List Constraint
rvcc_fneg_s = Constraint.rs2_eq_rs1 ∷ []

abbrev pub rvcc_fmv_d : List Constraint
rvcc_fmv_d = Constraint.rs2_eq_rs1 ∷ []

abbrev pub rvcc_fabs_d : List Constraint
rvcc_fabs_d = Constraint.rs2_eq_rs1 ∷ []

abbrev pub rvcc_fneg_d : List Constraint
rvcc_fneg_d = Constraint.rs2_eq_rs1 ∷ []

abbrev pub rvcc_fmv_q : List Constraint
rvcc_fmv_q = Constraint.rs2_eq_rs1 ∷ []

abbrev pub rvcc_fabs_q : List Constraint
rvcc_fabs_q = Constraint.rs2_eq_rs1 ∷ []

abbrev pub rvcc_fneg_q : List Constraint
rvcc_fneg_q = Constraint.rs2_eq_rs1 ∷ []

abbrev pub rvcc_beqz : List Constraint
rvcc_beqz = Constraint.rs2_eq_x0 ∷ []

abbrev pub rvcc_bnez : List Constraint
rvcc_bnez = Constraint.rs2_eq_x0 ∷ []

abbrev pub rvcc_blez : List Constraint
rvcc_blez = Constraint.rs1_eq_x0 ∷ []

abbrev pub rvcc_bgez : List Constraint
rvcc_bgez = Constraint.rs2_eq_x0 ∷ []

abbrev pub rvcc_bltz : List Constraint
rvcc_bltz = Constraint.rs2_eq_x0 ∷ []

abbrev pub rvcc_bgtz : List Constraint
rvcc_bgtz = Constraint.rs1_eq_x0 ∷ []

abbrev pub rvcc_ble : List Constraint
rvcc_ble = []

abbrev pub rvcc_bleu : List Constraint
rvcc_bleu = []

abbrev pub rvcc_bgt : List Constraint
rvcc_bgt = []

abbrev pub rvcc_bgtu : List Constraint
rvcc_bgtu = []

abbrev pub rvcc_j : List Constraint
rvcc_j = Constraint.rd_eq_x0 ∷ []

abbrev pub rvcc_ret : List Constraint
rvcc_ret = Constraint.rd_eq_x0 ∷ Constraint.rs1_eq_ra ∷ []

abbrev pub rvcc_jr : List Constraint
rvcc_jr = Constraint.rd_eq_x0 ∷ Constraint.imm_eq_zero ∷ []

abbrev pub rvcc_rdcycle : List Constraint
rvcc_rdcycle = Constraint.rs1_eq_x0 ∷ Constraint.csr_eq_0xc00 ∷ []

abbrev pub rvcc_rdtime : List Constraint
rvcc_rdtime = Constraint.rs1_eq_x0 ∷ Constraint.csr_eq_0xc01 ∷ []

abbrev pub rvcc_rdinstret : List Constraint
rvcc_rdinstret = Constraint.rs1_eq_x0 ∷ Constraint.csr_eq_0xc02 ∷ []

abbrev pub rvcc_rdcycleh : List Constraint
rvcc_rdcycleh = Constraint.rs1_eq_x0 ∷ Constraint.csr_eq_0xc80 ∷ []

abbrev pub rvcc_rdtimeh : List Constraint
rvcc_rdtimeh = Constraint.rs1_eq_x0 ∷ Constraint.csr_eq_0xc81 ∷ []

abbrev pub rvcc_rdinstreth : List Constraint
rvcc_rdinstreth = Constraint.rs1_eq_x0 ∷ Constraint.csr_eq_0xc82 ∷ []

abbrev pub rvcc_frcsr : List Constraint
rvcc_frcsr = Constraint.rs1_eq_x0 ∷ Constraint.csr_eq_0x003 ∷ []

abbrev pub rvcc_frrm : List Constraint
rvcc_frrm = Constraint.rs1_eq_x0 ∷ Constraint.csr_eq_0x002 ∷ []

abbrev pub rvcc_frflags : List Constraint
rvcc_frflags = Constraint.rs1_eq_x0 ∷ Constraint.csr_eq_0x001 ∷ []

abbrev pub rvcc_fscsr : List Constraint
rvcc_fscsr = Constraint.csr_eq_0x003 ∷ []

abbrev pub rvcc_fsrm : List Constraint
rvcc_fsrm = Constraint.csr_eq_0x002 ∷ []

abbrev pub rvcc_fsflags : List Constraint
rvcc_fsflags = Constraint.csr_eq_0x001 ∷ []

abbrev pub rvcc_fsrmi : List Constraint
rvcc_fsrmi = Constraint.csr_eq_0x002 ∷ []

abbrev pub rvcc_fsflagsi : List Constraint
rvcc_fsflagsi = Constraint.csr_eq_0x001 ∷ []
