-- ===== src/Asm/Meta/Decompress.antt =====
-- src/asm/meta.cc: the instruction that each compressed instruction stands for.
use rv8_riscv_ckpt.Base.{ℕ, List, [], ◌∷◌}
use rv8_riscv_ckpt.Asm.Op

-- The entries that are not `rv_op_illegal`.
unfoldable pub rv_inst_decomp_rv32 : List (ℕ × ℕ)
rv_inst_decomp_rv32 =
    (Op.c_addi4spn, Op.addi)
    ∷ (Op.c_fld, Op.fld)
    ∷ (Op.c_lw, Op.lw)
    ∷ (Op.c_flw, Op.flw)
    ∷ (Op.c_fsd, Op.fsd)
    ∷ (Op.c_sw, Op.sw)
    ∷ (Op.c_fsw, Op.fsw)
    ∷ (Op.c_nop, Op.addi)
    ∷ (Op.c_addi, Op.addi)
    ∷ (Op.c_jal, Op.jal)
    ∷ (Op.c_li, Op.addi)
    ∷ (Op.c_addi16sp, Op.addi)
    ∷ (Op.c_lui, Op.lui)
    ∷ (Op.c_srli, Op.srli)
    ∷ (Op.c_srai, Op.srai)
    ∷ (Op.c_andi, Op.andi)
    ∷ (Op.c_sub, Op.sub)
    ∷ (Op.c_xor, Op.xor)
    ∷ (Op.c_or, Op.or)
    ∷ (Op.c_and, Op.and)
    ∷ (Op.c_subw, Op.subw)
    ∷ (Op.c_addw, Op.addw)
    ∷ (Op.c_j, Op.jal)
    ∷ (Op.c_beqz, Op.beq)
    ∷ (Op.c_bnez, Op.bne)
    ∷ (Op.c_slli, Op.slli)
    ∷ (Op.c_fldsp, Op.fld)
    ∷ (Op.c_lwsp, Op.lw)
    ∷ (Op.c_flwsp, Op.flw)
    ∷ (Op.c_jr, Op.jalr)
    ∷ (Op.c_mv, Op.addi)
    ∷ (Op.c_ebreak, Op.ebreak)
    ∷ (Op.c_jalr, Op.jalr)
    ∷ (Op.c_add, Op.add)
    ∷ (Op.c_fsdsp, Op.fsd)
    ∷ (Op.c_swsp, Op.sw)
    ∷ (Op.c_fswsp, Op.fsw)
    ∷ []

-- The entries that are not `rv_op_illegal`.
unfoldable pub rv_inst_decomp_rv64 : List (ℕ × ℕ)
rv_inst_decomp_rv64 =
    (Op.c_addi4spn, Op.addi)
    ∷ (Op.c_fld, Op.fld)
    ∷ (Op.c_lw, Op.lw)
    ∷ (Op.c_fsd, Op.fsd)
    ∷ (Op.c_sw, Op.sw)
    ∷ (Op.c_nop, Op.addi)
    ∷ (Op.c_addi, Op.addi)
    ∷ (Op.c_li, Op.addi)
    ∷ (Op.c_addi16sp, Op.addi)
    ∷ (Op.c_lui, Op.lui)
    ∷ (Op.c_srli, Op.srli)
    ∷ (Op.c_srai, Op.srai)
    ∷ (Op.c_andi, Op.andi)
    ∷ (Op.c_sub, Op.sub)
    ∷ (Op.c_xor, Op.xor)
    ∷ (Op.c_or, Op.or)
    ∷ (Op.c_and, Op.and)
    ∷ (Op.c_subw, Op.subw)
    ∷ (Op.c_addw, Op.addw)
    ∷ (Op.c_j, Op.jal)
    ∷ (Op.c_beqz, Op.beq)
    ∷ (Op.c_bnez, Op.bne)
    ∷ (Op.c_slli, Op.slli)
    ∷ (Op.c_fldsp, Op.fld)
    ∷ (Op.c_lwsp, Op.lw)
    ∷ (Op.c_jr, Op.jalr)
    ∷ (Op.c_mv, Op.addi)
    ∷ (Op.c_ebreak, Op.ebreak)
    ∷ (Op.c_jalr, Op.jalr)
    ∷ (Op.c_add, Op.add)
    ∷ (Op.c_fsdsp, Op.fsd)
    ∷ (Op.c_swsp, Op.sw)
    ∷ (Op.c_ld, Op.ld)
    ∷ (Op.c_sd, Op.sd)
    ∷ (Op.c_addiw, Op.addiw)
    ∷ (Op.c_ldsp, Op.ld)
    ∷ (Op.c_sdsp, Op.sd)
    ∷ []

-- The entries that are not `rv_op_illegal`.
unfoldable pub rv_inst_decomp_rv128 : List (ℕ × ℕ)
rv_inst_decomp_rv128 =
    (Op.c_lq, Op.lq) ∷ (Op.c_sq, Op.sq) ∷ (Op.c_lqsp, Op.lq) ∷ (Op.c_sqsp, Op.sq) ∷ []
