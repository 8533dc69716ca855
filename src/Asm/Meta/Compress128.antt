-- ===== src/Asm/Meta/Compress128.antt =====
-- src/asm/meta.cc: the compressed forms of each instruction of RV128.
use rv8_riscv_ckpt.Base.{ℕ, List, [], ◌∷◌}
use rv8_riscv_ckpt.Asm.Op
use rv8_riscv_ckpt.Asm.Meta.CompData.{CompData, comp}
use rv8_riscv_ckpt.Asm.Meta.CompressedConstraints.{rvcc_c_lq, rvcc_c_lqsp, rvcc_c_sq, rvcc_c_sqsp}

abbrev pub rvcd_rv128_lq : List CompData
rvcd_rv128_lq = comp Op.c_lq rvcc_c_lq ∷ comp Op.c_lqsp rvcc_c_lqsp ∷ []

abbrev pub rvcd_rv128_sq : List CompData
rvcd_rv128_sq = comp Op.c_sq rvcc_c_sq ∷ comp Op.c_sqsp rvcc_c_sqsp ∷ []

-- The entries that are not `nullptr`.
unfoldable pub rv_inst_comp_rv128 : List (ℕ × List CompData)
rv_inst_comp_rv128 = (Op.lq, rvcd_rv128_lq) ∷ (Op.sq, rvcd_rv128_sq) ∷ []
