-- ===== src/Asm/RoundTrip/Forms/Memory.antt =====
-- The forms of loads and stores.
use rv8_riscv_ckpt.Asm.Op
use rv8_riscv_ckpt.Asm.Meta.CompressedConstraints.{
  rvcc_c_fld, rvcc_c_fldsp, rvcc_c_fsd, rvcc_c_fsdsp, rvcc_c_ld, rvcc_c_ldsp, rvcc_c_lw,
  rvcc_c_lwsp, rvcc_c_sd, rvcc_c_sdsp, rvcc_c_sw, rvcc_c_swsp,
}
use rv8_riscv_ckpt.Asm.Constraints.{holds, constraint_check}
use rv8_riscv_ckpt.Asm.RoundTrip.Forms.Survives.{survives}
use rv8_riscv_ckpt.Asm.Inst.{Codec, Decode}
use rv8_riscv_ckpt.Asm.RoundTrip.Encodable.{IsEncodable}
use rv8_riscv_ckpt.Base.{bit_and-ones, arith, true, ◌≡◌}
use rv8_riscv_ckpt.Asm.Codec.{with_op}

pub c_lw_keeps :
    (d : Decode)
    → IsEncodable Codec.i d
    → constraint_check d rvcc_c_lw ≡ true
    → survives Op.c_lw d ≡ true
    → IsEncodable Codec.cl_lw (with_op d Op.c_lw)
unfolding constraint_check holds survives
c_lw_keeps d h k s = ground (arith, bit_and-ones 2 d.imm)

pub c_lwsp_keeps :
    (d : Decode)
    → IsEncodable Codec.i d
    → constraint_check d rvcc_c_lwsp ≡ true
    → survives Op.c_lwsp d ≡ true
    → IsEncodable Codec.ci_lwsp (with_op d Op.c_lwsp)
unfolding constraint_check holds survives
c_lwsp_keeps d h k s = ground (arith, bit_and-ones 2 d.imm)

pub c_sw_keeps :
    (d : Decode)
    → IsEncodable Codec.s d
    → constraint_check d rvcc_c_sw ≡ true
    → survives Op.c_sw d ≡ true
    → IsEncodable Codec.cs_sw (with_op d Op.c_sw)
unfolding constraint_check holds survives
c_sw_keeps d h k s = ground (arith, bit_and-ones 2 d.imm)

pub c_swsp_keeps :
    (d : Decode)
    → IsEncodable Codec.s d
    → constraint_check d rvcc_c_swsp ≡ true
    → survives Op.c_swsp d ≡ true
    → IsEncodable Codec.css_swsp (with_op d Op.c_swsp)
unfolding constraint_check holds survives
c_swsp_keeps d h k s = ground (arith, bit_and-ones 2 d.imm)

pub c_ld_keeps :
    (d : Decode)
    → IsEncodable Codec.i d
    → constraint_check d rvcc_c_ld ≡ true
    → survives Op.c_ld d ≡ true
    → IsEncodable Codec.cl_ld (with_op d Op.c_ld)
unfolding constraint_check holds survives
c_ld_keeps d h k s = ground (arith, bit_and-ones 3 d.imm)

pub c_ldsp_keeps :
    (d : Decode)
    → IsEncodable Codec.i d
    → constraint_check d rvcc_c_ldsp ≡ true
    → survives Op.c_ldsp d ≡ true
    → IsEncodable Codec.ci_ldsp (with_op d Op.c_ldsp)
unfolding constraint_check holds survives
c_ldsp_keeps d h k s = ground (arith, bit_and-ones 3 d.imm)

pub c_sd_keeps :
    (d : Decode)
    → IsEncodable Codec.s d
    → constraint_check d rvcc_c_sd ≡ true
    → survives Op.c_sd d ≡ true
    → IsEncodable Codec.cs_sd (with_op d Op.c_sd)
unfolding constraint_check holds survives
c_sd_keeps d h k s = ground (arith, bit_and-ones 3 d.imm)

pub c_sdsp_keeps :
    (d : Decode)
    → IsEncodable Codec.s d
    → constraint_check d rvcc_c_sdsp ≡ true
    → survives Op.c_sdsp d ≡ true
    → IsEncodable Codec.css_sdsp (with_op d Op.c_sdsp)
unfolding constraint_check holds survives
c_sdsp_keeps d h k s = ground (arith, bit_and-ones 3 d.imm)

pub c_fld_keeps :
    (d : Decode)
    → IsEncodable Codec.i d
    → constraint_check d rvcc_c_fld ≡ true
    → survives Op.c_fld d ≡ true
    → IsEncodable Codec.cl_ld (with_op d Op.c_fld)
unfolding constraint_check holds survives
c_fld_keeps d h k s = ground (arith, bit_and-ones 3 d.imm)

pub c_fldsp_keeps :
    (d : Decode)
    → IsEncodable Codec.i d
    → constraint_check d rvcc_c_fldsp ≡ true
    → survives Op.c_fldsp d ≡ true
    → IsEncodable Codec.ci_ldsp (with_op d Op.c_fldsp)
unfolding constraint_check holds survives
c_fldsp_keeps d h k s = ground (arith, bit_and-ones 3 d.imm)

pub c_fsd_keeps :
    (d : Decode)
    → IsEncodable Codec.s d
    → constraint_check d rvcc_c_fsd ≡ true
    → survives Op.c_fsd d ≡ true
    → IsEncodable Codec.cs_sd (with_op d Op.c_fsd)
unfolding constraint_check holds survives
c_fsd_keeps d h k s = ground (arith, bit_and-ones 3 d.imm)

pub c_fsdsp_keeps :
    (d : Decode)
    → IsEncodable Codec.s d
    → constraint_check d rvcc_c_fsdsp ≡ true
    → survives Op.c_fsdsp d ≡ true
    → IsEncodable Codec.css_sdsp (with_op d Op.c_fsdsp)
unfolding constraint_check holds survives
c_fsdsp_keeps d h k s = ground (arith, bit_and-ones 3 d.imm)
