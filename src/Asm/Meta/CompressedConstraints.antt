-- ===== src/Asm/Meta/CompressedConstraints.antt =====
-- src/asm/meta.cc: the constraints of each compressed instruction.
use rv8_riscv_ckpt.Base.{List, [], ◌∷◌}
use rv8_riscv_ckpt.Asm.Constraints.{Constraint}

abbrev pub rvcc_c_addi4spn : List Constraint
rvcc_c_addi4spn =
    Constraint.imm_10 ∷ Constraint.imm_x4 ∷ Constraint.imm_nz ∷ Constraint.rd_b3
    ∷ Constraint.rs1_eq_sp ∷ []

abbrev pub rvcc_c_fld : List Constraint
rvcc_c_fld = Constraint.imm_8 ∷ Constraint.imm_x8 ∷ Constraint.rd_b3 ∷ Constraint.rs1_b3 ∷ []

abbrev pub rvcc_c_lw : List Constraint
rvcc_c_lw = Constraint.imm_7 ∷ Constraint.imm_x4 ∷ Constraint.rd_b3 ∷ Constraint.rs1_b3 ∷ []

abbrev pub rvcc_c_flw : List Constraint
rvcc_c_flw = Constraint.imm_7 ∷ Constraint.imm_x4 ∷ Constraint.rd_b3 ∷ Constraint.rs1_b3 ∷ []

abbrev pub rvcc_c_fsd : List Constraint
rvcc_c_fsd = Constraint.imm_8 ∷ Constraint.imm_x8 ∷ Constraint.rs1_b3 ∷ Constraint.rs2_b3 ∷ []

abbrev pub rvcc_c_sw : List Constraint
rvcc_c_sw = Constraint.imm_7 ∷ Constraint.imm_x4 ∷ Constraint.rs1_b3 ∷ Constraint.rs2_b3 ∷ []

abbrev pub rvcc_c_fsw : List Constraint
rvcc_c_fsw = Constraint.imm_7 ∷ Constraint.imm_x4 ∷ Constraint.rs1_b3 ∷ Constraint.rs2_b3 ∷ []

abbrev pub rvcc_c_nop : List Constraint
rvcc_c_nop = Constraint.rd_eq_x0 ∷ Constraint.rs1_eq_x0 ∷ Constraint.rs2_eq_x0 ∷ []

abbrev pub rvcc_c_addi : List Constraint
rvcc_c_addi =
    Constraint.simm_6 ∷ Constraint.imm_nz ∷ Constraint.rd_ne_x0 ∷ Constraint.rd_eq_rs1 ∷ []

abbrev pub rvcc_c_jal : List Constraint
rvcc_c_jal = Constraint.imm_12 ∷ Constraint.imm_x2 ∷ Constraint.rd_eq_ra ∷ []

abbrev pub rvcc_c_li : List Constraint
rvcc_c_li = Constraint.simm_6 ∷ Constraint.rd_ne_x0 ∷ Constraint.rs1_eq_x0 ∷ []

abbrev pub rvcc_c_addi16sp : List Constraint
rvcc_c_addi16sp =
    Constraint.simm_10 ∷ Constraint.imm_x4 ∷ Constraint.imm_nz ∷ Constraint.rd_eq_sp
    ∷ Constraint.rs1_eq_sp ∷ []

abbrev pub rvcc_c_lui : List Constraint
rvcc_c_lui = Constraint.imm_18 ∷ Constraint.imm_nz ∷ Constraint.rd_ne_x0_x2 ∷ []

abbrev pub rvcc_c_srli_rv32c : List Constraint
rvcc_c_srli_rv32c =
    Constraint.imm_5 ∷ Constraint.imm_nz ∷ Constraint.rd_eq_rs1 ∷ Constraint.rd_b3
    ∷ Constraint.rs1_b3 ∷ []

abbrev pub rvcc_c_srai_rv32c : List Constraint
rvcc_c_srai_rv32c =
    Constraint.imm_5 ∷ Constraint.imm_nz ∷ Constraint.rd_eq_rs1 ∷ Constraint.rd_b3
    ∷ Constraint.rs1_b3 ∷ []

abbrev pub rvcc_c_andi : List Constraint
rvcc_c_andi =
    Constraint.imm_5 ∷ Constraint.imm_nz ∷ Constraint.rd_eq_rs1 ∷ Constraint.rd_b3
    ∷ Constraint.rs1_b3 ∷ []

abbrev pub rvcc_c_sub : List Constraint
rvcc_c_sub = Constraint.rd_eq_rs1 ∷ Constraint.rd_b3 ∷ Constraint.rs1_b3 ∷ Constraint.rs2_b3 ∷ []

abbrev pub rvcc_c_xor : List Constraint
rvcc_c_xor = Constraint.rd_eq_rs1 ∷ Constraint.rd_b3 ∷ Constraint.rs1_b3 ∷ Constraint.rs2_b3 ∷ []

abbrev pub rvcc_c_or : List Constraint
rvcc_c_or = Constraint.rd_eq_rs1 ∷ Constraint.rd_b3 ∷ Constraint.rs1_b3 ∷ Constraint.rs2_b3 ∷ []

abbrev pub rvcc_c_and : List Constraint
rvcc_c_and = Constraint.rd_eq_rs1 ∷ Constraint.rd_b3 ∷ Constraint.rs1_b3 ∷ Constraint.rs2_b3 ∷ []

abbrev pub rvcc_c_subw : List Constraint
rvcc_c_subw = Constraint.rd_eq_rs1 ∷ Constraint.rd_b3 ∷ Constraint.rs1_b3 ∷ Constraint.rs2_b3 ∷ []

abbrev pub rvcc_c_addw : List Constraint
rvcc_c_addw = Constraint.rd_eq_rs1 ∷ Constraint.rd_b3 ∷ Constraint.rs1_b3 ∷ Constraint.rs2_b3 ∷ []

abbrev pub rvcc_c_j : List Constraint
rvcc_c_j = Constraint.simm_12 ∷ Constraint.imm_x2 ∷ Constraint.rd_eq_x0 ∷ []

abbrev pub rvcc_c_beqz : List Constraint
rvcc_c_beqz = Constraint.simm_9 ∷ Constraint.imm_x2 ∷ Constraint.rs1_b3 ∷ Constraint.rs2_eq_x0 ∷ []

abbrev pub rvcc_c_bnez : List Constraint
rvcc_c_bnez = Constraint.simm_9 ∷ Constraint.imm_x2 ∷ Constraint.rs1_b3 ∷ Constraint.rs2_eq_x0 ∷ []

abbrev pub rvcc_c_slli_rv32c : List Constraint
rvcc_c_slli_rv32c =
    Constraint.imm_5 ∷ Constraint.imm_nz ∷ Constraint.rd_ne_x0 ∷ Constraint.rd_eq_rs1 ∷ []

abbrev pub rvcc_c_fldsp : List Constraint
rvcc_c_fldsp = Constraint.imm_9 ∷ Constraint.imm_x8 ∷ Constraint.rs1_eq_sp ∷ []

abbrev pub rvcc_c_lwsp : List Constraint
rvcc_c_lwsp = Constraint.imm_8 ∷ Constraint.imm_x4 ∷ Constraint.rd_ne_x0 ∷ Constraint.rs1_eq_sp ∷ []

abbrev pub rvcc_c_flwsp : List Constraint
rvcc_c_flwsp = Constraint.imm_8 ∷ Constraint.imm_x4 ∷ Constraint.rs1_eq_sp ∷ []

abbrev pub rvcc_c_jr : List Constraint
rvcc_c_jr = Constraint.imm_eq_zero ∷ Constraint.rd_eq_x0 ∷ Constraint.rs1_ne_x0 ∷ []

abbrev pub rvcc_c_mv : List Constraint
rvcc_c_mv = Constraint.imm_eq_zero ∷ Constraint.rd_ne_x0 ∷ []

abbrev pub rvcc_c_ebreak : List Constraint
rvcc_c_ebreak = []

abbrev pub rvcc_c_jalr : List Constraint
rvcc_c_jalr = Constraint.imm_eq_zero ∷ Constraint.rd_eq_ra ∷ Constraint.rs1_ne_x0 ∷ []

abbrev pub rvcc_c_add : List Constraint
rvcc_c_add = Constraint.rd_eq_rs1 ∷ Constraint.rd_ne_x0 ∷ Constraint.rs2_ne_x0 ∷ []

abbrev pub rvcc_c_fsdsp : List Constraint
rvcc_c_fsdsp = Constraint.imm_9 ∷ Constraint.imm_x8 ∷ Constraint.rs1_eq_sp ∷ []

abbrev pub rvcc_c_swsp : List Constraint
rvcc_c_swsp = Constraint.imm_8 ∷ Constraint.imm_x4 ∷ Constraint.rs1_eq_sp ∷ []

abbrev pub rvcc_c_fswsp : List Constraint
rvcc_c_fswsp = Constraint.imm_8 ∷ Constraint.imm_x4 ∷ Constraint.rs1_eq_sp ∷ []

abbrev pub rvcc_c_ld : List Constraint
rvcc_c_ld = Constraint.imm_8 ∷ Constraint.imm_x8 ∷ Constraint.rd_b3 ∷ Constraint.rs1_b3 ∷ []

abbrev pub rvcc_c_sd : List Constraint
rvcc_c_sd = Constraint.imm_8 ∷ Constraint.imm_x8 ∷ Constraint.rs1_b3 ∷ Constraint.rs2_b3 ∷ []

abbrev pub rvcc_c_addiw : List Constraint
rvcc_c_addiw = Constraint.simm_6 ∷ Constraint.rd_ne_x0 ∷ Constraint.rd_eq_rs1 ∷ []

abbrev pub rvcc_c_srli_rv64c : List Constraint
rvcc_c_srli_rv64c =
    Constraint.imm_5 ∷ Constraint.imm_nz ∷ Constraint.rd_eq_rs1 ∷ Constraint.rd_b3
    ∷ Constraint.rs1_b3 ∷ []

abbrev pub rvcc_c_srai_rv64c : List Constraint
rvcc_c_srai_rv64c =
    Constraint.imm_5 ∷ Constraint.imm_nz ∷ Constraint.rd_eq_rs1 ∷ Constraint.rd_b3
    ∷ Constraint.rs1_b3 ∷ []

abbrev pub rvcc_c_slli_rv64c : List Constraint
rvcc_c_slli_rv64c =
    Constraint.imm_5 ∷ Constraint.imm_nz ∷ Constraint.rd_ne_x0 ∷ Constraint.rd_eq_rs1 ∷ []

abbrev pub rvcc_c_ldsp : List Constraint
rvcc_c_ldsp = Constraint.imm_9 ∷ Constraint.imm_x8 ∷ Constraint.rd_ne_x0 ∷ Constraint.rs1_eq_sp ∷ []

abbrev pub rvcc_c_sdsp : List Constraint
rvcc_c_sdsp = Constraint.imm_9 ∷ Constraint.imm_x8 ∷ Constraint.rs1_eq_sp ∷ []

abbrev pub rvcc_c_lq : List Constraint
rvcc_c_lq = Constraint.imm_9 ∷ Constraint.imm_x16 ∷ []

abbrev pub rvcc_c_sq : List Constraint
rvcc_c_sq = Constraint.imm_9 ∷ Constraint.imm_x16 ∷ []

abbrev pub rvcc_c_lqsp : List Constraint
rvcc_c_lqsp = Constraint.imm_10 ∷ Constraint.imm_x16 ∷ Constraint.rs1_eq_sp ∷ []

abbrev pub rvcc_c_sqsp : List Constraint
rvcc_c_sqsp = Constraint.imm_10 ∷ Constraint.imm_x16 ∷ Constraint.rs1_eq_sp ∷ []
