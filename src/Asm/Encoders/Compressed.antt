-- ===== src/Asm/Encoders/Compressed.antt =====
-- src/asm/encode.h: the bits of the operands of each compressed format.
use rv8_riscv_ckpt.Base.{ℕ, ◌+◌, Option, some, bit_or, ◌==◌}
use rv8_riscv_ckpt.Asm.Types.{encode}
use rv8_riscv_ckpt.Asm.Operands
use rv8_riscv_ckpt.Asm.Inst.{Decode, imm64, ireg_zero, ireg_ra, ireg_sp}
use rv8_riscv_ckpt.Asm.Assert.{require}

unfoldable pub encode_ci_none : Decode → Option ℕ
encode_ci_none d =
    require (d.rd == ireg_zero)
      (require (d.rs1 == ireg_zero) (require (d.rs2 == ireg_zero) (some 0)))

unfoldable pub encode_cr : Decode → Option ℕ
encode_cr d =
    require (d.rd == d.rs1)
      (some (bit_or (encode Operands.crs1rd d.rd) (encode Operands.crs2 d.rs2)))

unfoldable pub encode_cr_mv : Decode → Option ℕ
encode_cr_mv d =
    require (d.imm == 0) (some (bit_or (encode Operands.crd d.rd) (encode Operands.crs2 d.rs1)))

unfoldable pub encode_cr_jalr : Decode → Option ℕ
encode_cr_jalr d = require (d.rd == ireg_ra) (some (encode Operands.crs1 d.rs1))

unfoldable pub encode_cr_jr : Decode → Option ℕ
encode_cr_jr d = require (d.rd == ireg_zero) (some (encode Operands.crs1 d.rs1))

unfoldable pub encode_ci : Decode → Option ℕ
encode_ci d =
    require (d.rd == d.rs1)
      (some (bit_or (encode Operands.crs1rd d.rs1) (encode Operands.cimmi (imm64 d.imm))))

unfoldable pub encode_ci_sh5 : Decode → Option ℕ
encode_ci_sh5 d =
    require (d.rd == d.rs1)
      (some (bit_or (encode Operands.crs1rd d.rs1) (encode Operands.cimmsh5 (imm64 d.imm))))

unfoldable pub encode_ci_sh6 : Decode → Option ℕ
encode_ci_sh6 d =
    require (d.rd == d.rs1)
      (some (bit_or (encode Operands.crs1rd d.rs1) (encode Operands.cimmsh6 (imm64 d.imm))))

unfoldable pub encode_ci_li : Decode → Option ℕ
encode_ci_li d =
    require (d.rs1 == ireg_zero)
      (some (bit_or (encode Operands.crd d.rd) (encode Operands.cimmi (imm64 d.imm))))

unfoldable pub encode_ci_lui : Decode → Option ℕ
encode_ci_lui d =
    require (d.rs1 == ireg_zero)
      (some (bit_or (encode Operands.crd d.rd) (encode Operands.cimmui (imm64 d.imm))))

unfoldable pub encode_ci_lwsp : Decode → Option ℕ
encode_ci_lwsp d =
    require (d.rs1 == ireg_sp)
      (some (bit_or (encode Operands.crd d.rd) (encode Operands.cimmlwsp (imm64 d.imm))))

unfoldable pub encode_ci_ldsp : Decode → Option ℕ
encode_ci_ldsp d =
    require (d.rs1 == ireg_sp)
      (some (bit_or (encode Operands.crd d.rd) (encode Operands.cimmldsp (imm64 d.imm))))

unfoldable pub encode_ci_lqsp : Decode → Option ℕ
encode_ci_lqsp d =
    require (d.rs1 == ireg_sp)
      (some (bit_or (encode Operands.crd d.rd) (encode Operands.cimmlqsp (imm64 d.imm))))

unfoldable pub encode_ci_16sp : Decode → Option ℕ
encode_ci_16sp d =
    require (d.rd == ireg_sp)
      (require (d.rs1 == ireg_sp) (some (encode Operands.cimm16sp (imm64 d.imm))))

unfoldable pub encode_css_swsp : Decode → Option ℕ
encode_css_swsp d =
    require (d.rs1 == ireg_sp)
      (some (bit_or (encode Operands.crs2 d.rs2) (encode Operands.cimmswsp (imm64 d.imm))))

unfoldable pub encode_css_sdsp : Decode → Option ℕ
encode_css_sdsp d =
    require (d.rs1 == ireg_sp)
      (some (bit_or (encode Operands.crs2 d.rs2) (encode Operands.cimmsdsp (imm64 d.imm))))

unfoldable pub encode_css_sqsp : Decode → Option ℕ
encode_css_sqsp d =
    require (d.rs1 == ireg_sp)
      (some (bit_or (encode Operands.crs2 d.rs2) (encode Operands.cimmsqsp (imm64 d.imm))))

unfoldable pub encode_ciw_4spn : Decode → Option ℕ
encode_ciw_4spn d =
    require (d.rs1 == ireg_sp)
      (some (bit_or (encode Operands.crdq (d.rd + 8)) (encode Operands.cimm4spn (imm64 d.imm))))

unfoldable pub encode_cl_lw : Decode → Option ℕ
encode_cl_lw d = some (
    bit_or (bit_or (encode Operands.crdq (d.rd + 8)) (encode Operands.crs1q (d.rs1 + 8)))
      (encode Operands.cimmw (imm64 d.imm)))

unfoldable pub encode_cl_ld : Decode → Option ℕ
encode_cl_ld d = some (
    bit_or (bit_or (encode Operands.crdq (d.rd + 8)) (encode Operands.crs1q (d.rs1 + 8)))
      (encode Operands.cimmd (imm64 d.imm)))

unfoldable pub encode_cl_lq : Decode → Option ℕ
encode_cl_lq d = some (
    bit_or (bit_or (encode Operands.crdq (d.rd + 8)) (encode Operands.crs1q (d.rs1 + 8)))
      (encode Operands.cimmq (imm64 d.imm)))

unfoldable pub encode_cs : Decode → Option ℕ
encode_cs d =
    require (d.rd == d.rs1)
      (some (bit_or (encode Operands.crdq (d.rd + 8)) (encode Operands.crs1q (d.rs1 + 8))))

unfoldable pub encode_cs_sw : Decode → Option ℕ
encode_cs_sw d = some (
    bit_or (bit_or (encode Operands.crs1q (d.rs1 + 8)) (encode Operands.crs2q (d.rs2 + 8)))
      (encode Operands.cimmw (imm64 d.imm)))

unfoldable pub encode_cs_sd : Decode → Option ℕ
encode_cs_sd d = some (
    bit_or (bit_or (encode Operands.crs1q (d.rs1 + 8)) (encode Operands.crs2q (d.rs2 + 8)))
      (encode Operands.cimmd (imm64 d.imm)))

unfoldable pub encode_cs_sq : Decode → Option ℕ
encode_cs_sq d = some (
    bit_or (bit_or (encode Operands.crs1q (d.rs1 + 8)) (encode Operands.crs2q (d.rs2 + 8)))
      (encode Operands.cimmq (imm64 d.imm)))

unfoldable pub encode_cb : Decode → Option ℕ
encode_cb d =
    some (bit_or (encode Operands.crs1q (d.rs1 + 8)) (encode Operands.cimmb (imm64 d.imm)))

unfoldable pub encode_cb_imm : Decode → Option ℕ
encode_cb_imm d =
    require (d.rd == d.rs1)
      (some (bit_or (encode Operands.crs1rdq (d.rs1 + 8)) (encode Operands.cimmi (imm64 d.imm))))

unfoldable pub encode_cb_sh5 : Decode → Option ℕ
encode_cb_sh5 d =
    require (d.rd == d.rs1)
      (some (bit_or (encode Operands.crs1rdq (d.rs1 + 8)) (encode Operands.cimmsh5 (imm64 d.imm))))

unfoldable pub encode_cb_sh6 : Decode → Option ℕ
encode_cb_sh6 d =
    require (d.rd == d.rs1)
      (some (bit_or (encode Operands.crs1rdq (d.rs1 + 8)) (encode Operands.cimmsh6 (imm64 d.imm))))

unfoldable pub encode_cj : Decode → Option ℕ
encode_cj d = some (encode Operands.cimmj (imm64 d.imm))

unfoldable pub encode_cj_jal : Decode → Option ℕ
encode_cj_jal d = some (encode Operands.cimmj (imm64 d.imm))
