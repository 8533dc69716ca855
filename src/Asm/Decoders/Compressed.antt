-- ===== src/Asm/Decoders/Compressed.antt =====
-- src/asm/decode.h: the operands of each compressed format, read from an instruction.
use rv8_riscv_ckpt.Base.{ℕ, ◌+◌, ◌%◌, ◌^◌}
use rv8_riscv_ckpt.Asm.Types.{decode}
use rv8_riscv_ckpt.Asm.Operands
use rv8_riscv_ckpt.Asm.Inst.{Decode, ireg_zero, ireg_ra, ireg_sp}

unfoldable pub decode_ci_none : Decode → ℕ → Decode
decode_ci_none d inst = record d { rd = ireg_zero; rs1 = ireg_zero; rs2 = ireg_zero; imm = 0 }

unfoldable pub decode_cr : Decode → ℕ → Decode
decode_cr d inst = record d {
  rd = decode Operands.crs1rd inst % 256;
  rs1 = decode Operands.crs1rd inst % 256;
  rs2 = decode Operands.crs2 inst % 256;
  imm = 0;
}

unfoldable pub decode_cr_mv : Decode → ℕ → Decode
decode_cr_mv d inst = record d {
  rd = decode Operands.crd inst % 256;
  rs1 = decode Operands.crs2 inst % 256;
  rs2 = ireg_zero;
  imm = 0;
}

unfoldable pub decode_cr_jalr : Decode → ℕ → Decode
decode_cr_jalr d inst = record d {
  rd = ireg_ra;
  rs1 = decode Operands.crs1 inst % 256;
  rs2 = ireg_zero;
  imm = 0;
}

unfoldable pub decode_cr_jr : Decode → ℕ → Decode
decode_cr_jr d inst = record d {
  rd = ireg_zero;
  rs1 = decode Operands.crs1 inst % 256;
  rs2 = ireg_zero;
  imm = 0;
}

unfoldable pub decode_ci : Decode → ℕ → Decode
decode_ci d inst = record d {
  rd = decode Operands.crs1rd inst % 256;
  rs1 = decode Operands.crs1rd inst % 256;
  rs2 = ireg_zero;
  imm = decode Operands.cimmi inst % 2 ^ 32;
}

unfoldable pub decode_ci_sh5 : Decode → ℕ → Decode
decode_ci_sh5 d inst = record d {
  rd = decode Operands.crs1rd inst % 256;
  rs1 = decode Operands.crs1rd inst % 256;
  rs2 = ireg_zero;
  imm = decode Operands.cimmsh5 inst % 2 ^ 32;
}

unfoldable pub decode_ci_sh6 : Decode → ℕ → Decode
decode_ci_sh6 d inst = record d {
  rd = decode Operands.crs1rd inst % 256;
  rs1 = decode Operands.crs1rd inst % 256;
  rs2 = ireg_zero;
  imm = decode Operands.cimmsh6 inst % 2 ^ 32;
}

unfoldable pub decode_ci_li : Decode → ℕ → Decode
decode_ci_li d inst = record d {
  rd = decode Operands.crd inst % 256;
  rs1 = ireg_zero;
  rs2 = ireg_zero;
  imm = decode Operands.cimmi inst % 2 ^ 32;
}

unfoldable pub decode_ci_lui : Decode → ℕ → Decode
decode_ci_lui d inst = record d {
  rd = decode Operands.crd inst % 256;
  rs1 = ireg_zero;
  rs2 = ireg_zero;
  imm = decode Operands.cimmui inst % 2 ^ 32;
}

unfoldable pub decode_ci_lwsp : Decode → ℕ → Decode
decode_ci_lwsp d inst = record d {
  rd = decode Operands.crd inst % 256;
  rs1 = ireg_sp;
  rs2 = ireg_zero;
  imm = decode Operands.cimmlwsp inst % 2 ^ 32;
}

unfoldable pub decode_ci_ldsp : Decode → ℕ → Decode
decode_ci_ldsp d inst = record d {
  rd = decode Operands.crd inst % 256;
  rs1 = ireg_sp;
  rs2 = ireg_zero;
  imm = decode Operands.cimmldsp inst % 2 ^ 32;
}

unfoldable pub decode_ci_lqsp : Decode → ℕ → Decode
decode_ci_lqsp d inst = record d {
  rd = decode Operands.crd inst % 256;
  rs1 = ireg_sp;
  rs2 = ireg_zero;
  imm = decode Operands.cimmlqsp inst % 2 ^ 32;
}

unfoldable pub decode_ci_16sp : Decode → ℕ → Decode
decode_ci_16sp d inst = record d {
  rd = ireg_sp;
  rs1 = ireg_sp;
  rs2 = ireg_zero;
  imm = decode Operands.cimm16sp inst % 2 ^ 32;
}

unfoldable pub decode_css_swsp : Decode → ℕ → Decode
decode_css_swsp d inst = record d {
  rd = ireg_zero;
  rs1 = ireg_sp;
  rs2 = decode Operands.crs2 inst % 256;
  imm = decode Operands.cimmswsp inst % 2 ^ 32;
}

unfoldable pub decode_css_sdsp : Decode → ℕ → Decode
decode_css_sdsp d inst = record d {
  rd = ireg_zero;
  rs1 = ireg_sp;
  rs2 = decode Operands.crs2 inst % 256;
  imm = decode Operands.cimmsdsp inst % 2 ^ 32;
}

unfoldable pub decode_css_sqsp : Decode → ℕ → Decode
decode_css_sqsp d inst = record d {
  rd = ireg_zero;
  rs1 = ireg_sp;
  rs2 = decode Operands.crs2 inst % 256;
  imm = decode Operands.cimmsqsp inst % 2 ^ 32;
}

unfoldable pub decode_ciw_4spn : Decode → ℕ → Decode
decode_ciw_4spn d inst = record d {
  rd = (decode Operands.crdq inst + 8) % 256;
  rs1 = ireg_sp;
  rs2 = ireg_zero;
  imm = decode Operands.cimm4spn inst % 2 ^ 32;
}

unfoldable pub decode_cl_lw : Decode → ℕ → Decode
decode_cl_lw d inst = record d {
  rd = (decode Operands.crdq inst + 8) % 256;
  rs1 = (decode Operands.crs1q inst + 8) % 256;
  rs2 = ireg_zero;
  imm = decode Operands.cimmw inst % 2 ^ 32;
}

unfoldable pub decode_cl_ld : Decode → ℕ → Decode
decode_cl_ld d inst = record d {
  rd = (decode Operands.crdq inst + 8) % 256;
  rs1 = (decode Operands.crs1q inst + 8) % 256;
  rs2 = ireg_zero;
  imm = decode Operands.cimmd inst % 2 ^ 32;
}

unfoldable pub decode_cl_lq : Decode → ℕ → Decode
decode_cl_lq d inst = record d {
  rd = (decode Operands.crdq inst + 8) % 256;
  rs1 = (decode Operands.crs1q inst + 8) % 256;
  rs2 = ireg_zero;
  imm = decode Operands.cimmq inst % 2 ^ 32;
}

unfoldable pub decode_cs : Decode → ℕ → Decode
decode_cs d inst = record d {
  rd = (decode Operands.crs1rdq inst + 8) % 256;
  rs1 = (decode Operands.crs1rdq inst + 8) % 256;
  rs2 = (decode Operands.crs2q inst + 8) % 256;
  imm = 0;
}

unfoldable pub decode_cs_sw : Decode → ℕ → Decode
decode_cs_sw d inst = record d {
  rd = ireg_zero;
  rs1 = (decode Operands.crs1q inst + 8) % 256;
  rs2 = (decode Operands.crs2q inst + 8) % 256;
  imm = decode Operands.cimmw inst % 2 ^ 32;
}

unfoldable pub decode_cs_sd : Decode → ℕ → Decode
decode_cs_sd d inst = record d {
  rd = ireg_zero;
  rs1 = (decode Operands.crs1q inst + 8) % 256;
  rs2 = (decode Operands.crs2q inst + 8) % 256;
  imm = decode Operands.cimmd inst % 2 ^ 32;
}

unfoldable pub decode_cs_sq : Decode → ℕ → Decode
decode_cs_sq d inst = record d {
  rd = ireg_zero;
  rs1 = (decode Operands.crs1q inst + 8) % 256;
  rs2 = (decode Operands.crs2q inst + 8) % 256;
  imm = decode Operands.cimmq inst % 2 ^ 32;
}

unfoldable pub decode_cb : Decode → ℕ → Decode
decode_cb d inst = record d {
  rd = ireg_zero;
  rs1 = (decode Operands.crs1q inst + 8) % 256;
  rs2 = ireg_zero;
  imm = decode Operands.cimmb inst % 2 ^ 32;
}

unfoldable pub decode_cb_imm : Decode → ℕ → Decode
decode_cb_imm d inst = record d {
  rd = (decode Operands.crs1rdq inst + 8) % 256;
  rs1 = (decode Operands.crs1rdq inst + 8) % 256;
  rs2 = ireg_zero;
  imm = decode Operands.cimmi inst % 2 ^ 32;
}

unfoldable pub decode_cb_sh5 : Decode → ℕ → Decode
decode_cb_sh5 d inst = record d {
  rd = (decode Operands.crs1rdq inst + 8) % 256;
  rs1 = (decode Operands.crs1rdq inst + 8) % 256;
  rs2 = ireg_zero;
  imm = decode Operands.cimmsh5 inst % 2 ^ 32;
}

unfoldable pub decode_cb_sh6 : Decode → ℕ → Decode
decode_cb_sh6 d inst = record d {
  rd = (decode Operands.crs1rdq inst + 8) % 256;
  rs1 = (decode Operands.crs1rdq inst + 8) % 256;
  rs2 = ireg_zero;
  imm = decode Operands.cimmsh6 inst % 2 ^ 32;
}

unfoldable pub decode_cj : Decode → ℕ → Decode
decode_cj d inst = record d {
  rd = ireg_zero;
  rs1 = ireg_zero;
  rs2 = ireg_zero;
  imm = decode Operands.cimmj inst % 2 ^ 32;
}

unfoldable pub decode_cj_jal : Decode → ℕ → Decode
decode_cj_jal d inst = record d {
  rd = ireg_ra;
  rs1 = ireg_zero;
  rs2 = ireg_zero;
  imm = decode Operands.cimmj inst % 2 ^ 32;
}
