-- ===== src/Asm/Inst.antt =====
-- src/asm/codec.h and src/asm/meta.h: a decoded instruction, and the formats of instructions.
use rv8_riscv_ckpt.Base.{ℕ, ◌+◌, ◌-◌, ◌^◌, ltb, if◌then◌else◌}

-- `enum rv_codec`.
pub data Codec : Type 0 where
  illegal : Codec
  none : Codec
  u : Codec
  uj : Codec
  i : Codec
  i_sh5 : Codec
  i_sh6 : Codec
  i_sh7 : Codec
  i_csr : Codec
  s : Codec
  sb : Codec
  r : Codec
  r_m : Codec
  r4_m : Codec
  r_a : Codec
  r_l : Codec
  r_f : Codec
  cb : Codec
  cb_imm : Codec
  cb_sh5 : Codec
  cb_sh6 : Codec
  ci : Codec
  ci_sh5 : Codec
  ci_sh6 : Codec
  ci_16sp : Codec
  ci_lwsp : Codec
  ci_ldsp : Codec
  ci_lqsp : Codec
  ci_li : Codec
  ci_lui : Codec
  ci_none : Codec
  ciw_4spn : Codec
  cj : Codec
  cj_jal : Codec
  cl_lw : Codec
  cl_ld : Codec
  cl_lq : Codec
  cr : Codec
  cr_mv : Codec
  cr_jalr : Codec
  cr_jr : Codec
  cs : Codec
  cs_sw : Codec
  cs_sd : Codec
  cs_sq : Codec
  css_swsp : Codec
  css_sdsp : Codec
  css_sqsp : Codec

-- `struct decode`. Every number is below 2 to its width; `imm` is the bit pattern of an `int32_t`.
pub record Decode : Type 0 where
  pub imm : ℕ
  pub rd : ℕ
  pub rs1 : ℕ
  pub rs2 : ℕ
  pub rs3 : ℕ
  pub op : ℕ
  pub codec : Codec
  pub rm : ℕ
  pub aq : ℕ
  pub rl : ℕ
  pub pred : ℕ
  pub succ : ℕ

-- `decode::decode()`. Codec 0 is `rv_codec_illegal`.
abbrev pub blank : Decode
blank = record {
  imm = 0;
  rd = 0;
  rs1 = 0;
  rs2 = 0;
  rs3 = 0;
  op = 0;
  codec = Codec.illegal;
  rm = 0;
  aq = 0;
  rl = 0;
  pred = 0;
  succ = 0;
}

-- `enum rv_ireg`.
abbrev pub ireg_zero : ℕ
ireg_zero = 0

abbrev pub ireg_ra : ℕ
ireg_ra = 1

abbrev pub ireg_sp : ℕ
ireg_sp = 2

-- The conversion of `int32_t` to `u64`.
unfoldable pub imm64 : ℕ → ℕ
imm64 imm = if ltb imm (2 ^ 31) then imm else imm + (2 ^ 64 - 2 ^ 32)
