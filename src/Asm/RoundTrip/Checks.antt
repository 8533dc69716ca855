-- ===== src/Asm/RoundTrip/Checks.antt =====
-- Every decoder's fields can be read back from the layout of its format: evaluated for each format.
use rv8_riscv_ckpt.Base.{
  ℕ, ◌*◌, ◌/◌, ◌%◌, ◌^◌, bit_or, List, [], ◌∷◌, Bool, true, false, ◌&&◌, ◌==◌, &&-true,
  if◌then◌else◌, ◌≡◌, refl, arith,
}
use rv8_riscv_ckpt.Asm.Types.{decode, sign_extend}
use rv8_riscv_ckpt.Asm.Types.Layout.{Layout, build}
use rv8_riscv_ckpt.Asm.Types.Read.{readable, IsClear, decode_segments-build}
use rv8_riscv_ckpt.Asm.Operands
use rv8_riscv_ckpt.Asm.Inst.{Codec}
use rv8_riscv_ckpt.Asm.RoundTrip.Slots.{Field}
use rv8_riscv_ckpt.Asm.RoundTrip.Layouts.{layout, fields}

bool_eq : Bool → Bool → Bool
bool_eq true b = b
bool_eq false true = false
bool_eq false false = true

-- The operand is signed as the field says, at the field's width, and can be read back.
field_ok : Layout → Field → Bool
field_ok lay f =
    bool_eq f.operand.signed f.signed
    && ((if f.signed then f.operand.bits == f.hi else true)
        && readable lay f.operand f.slot f.lo f.hi)

fields_ok : Layout → List Field → Bool
fields_ok lay [] = true
fields_ok lay (f ∷ fs) = field_ok lay f && fields_ok lay fs

-- What a field reads from a value.
abbrev pub read : Field → ℕ → ℕ
read f v =
    let low = v / 2 ^ f.lo * 2 ^ f.lo % 2 ^ f.hi in if f.signed then sign_extend f.hi low else low

abbrev pub ReadsBack : List Field → ℕ → (ℕ → ℕ) → Type 0
ReadsBack [] w env = Unit {0}
ReadsBack (f ∷ fs) w env = (decode f.operand w ≡ read f (env f.slot)) × ReadsBack fs w env

formats_ok : (c : Codec) → fields_ok (layout c) (fields c) ≡ true
unfolding fields_ok field_ok bool_eq readable layout fields Operands.aq Operands.cimm16sp
    Operands.cimm4spn Operands.cimmb Operands.cimmd Operands.cimmi Operands.cimmj Operands.cimmldsp
    Operands.cimmlqsp Operands.cimmlwsp Operands.cimmq Operands.cimmsdsp Operands.cimmsh5
    Operands.cimmsh6 Operands.cimmsqsp Operands.cimmswsp Operands.cimmui Operands.cimmw Operands.crd
    Operands.crdq Operands.crs1 Operands.crs1q Operands.crs1rd Operands.crs1rdq Operands.crs2
    Operands.crs2q Operands.csr12 Operands.imm12 Operands.imm20 Operands.jimm20 Operands.pred
    Operands.rd Operands.rl Operands.rm Operands.rs1 Operands.rs2 Operands.rs3 Operands.sbimm12
    Operands.shamt5 Operands.shamt6 Operands.shamt7 Operands.simm12 Operands.succ
formats_ok Codec.illegal = refl
formats_ok Codec.none = refl
formats_ok Codec.u = refl
formats_ok Codec.uj = refl
formats_ok Codec.i = refl
formats_ok Codec.i_sh5 = refl
formats_ok Codec.i_sh6 = refl
formats_ok Codec.i_sh7 = refl
formats_ok Codec.i_csr = refl
formats_ok Codec.s = refl
formats_ok Codec.sb = refl
formats_ok Codec.r = refl
formats_ok Codec.r_m = refl
formats_ok Codec.r4_m = refl
formats_ok Codec.r_a = refl
formats_ok Codec.r_l = refl
formats_ok Codec.r_f = refl
formats_ok Codec.cb = refl
formats_ok Codec.cb_imm = refl
formats_ok Codec.cb_sh5 = refl
formats_ok Codec.cb_sh6 = refl
formats_ok Codec.ci = refl
formats_ok Codec.ci_sh5 = refl
formats_ok Codec.ci_sh6 = refl
formats_ok Codec.ci_16sp = refl
formats_ok Codec.ci_lwsp = refl
formats_ok Codec.ci_ldsp = refl
formats_ok Codec.ci_lqsp = refl
formats_ok Codec.ci_li = refl
formats_ok Codec.ci_lui = refl
formats_ok Codec.ci_none = refl
formats_ok Codec.ciw_4spn = refl
formats_ok Codec.cj = refl
formats_ok Codec.cj_jal = refl
formats_ok Codec.cl_lw = refl
formats_ok Codec.cl_ld = refl
formats_ok Codec.cl_lq = refl
formats_ok Codec.cr = refl
formats_ok Codec.cr_mv = refl
formats_ok Codec.cr_jalr = refl
formats_ok Codec.cr_jr = refl
formats_ok Codec.cs = refl
formats_ok Codec.cs_sw = refl
formats_ok Codec.cs_sd = refl
formats_ok Codec.cs_sq = refl
formats_ok Codec.css_swsp = refl
formats_ok Codec.css_sdsp = refl
formats_ok Codec.css_sqsp = refl

field_reads :
    (lay : Layout) (f : Field) (m : ℕ) (env : ℕ → ℕ)
    → field_ok lay f ≡ true
    → IsClear m lay
    → decode f.operand (bit_or m (build env lay)) ≡ read f (env f.slot)
unfolding field_ok bool_eq decode
field_reads lay f m env ok clear =
    let back = decode_segments-build env m lay f.operand f.slot f.lo f.hi (ground arith) clear in
    ground (arith, back)

fields_read :
    (lay : Layout) (fs : List Field) (m : ℕ) (env : ℕ → ℕ)
    → fields_ok lay fs ≡ true
    → IsClear m lay
    → ReadsBack fs (bit_or m (build env lay)) env
unfolding fields_ok
fields_read lay [] m env ok clear = tt
fields_read lay (f ∷ fs) m env ok clear =
    let parts = &&-true (field_ok lay f) (fields_ok lay fs) ok in
    (field_reads lay f m env parts.0 clear, fields_read lay fs m env parts.1 clear)

pub format_reads :
    (c : Codec) (m : ℕ) (env : ℕ → ℕ)
    → IsClear m (layout c)
    → ReadsBack (fields c) (bit_or m (build env (layout c))) env
format_reads c m env clear = fields_read (layout c) (fields c) m env (formats_ok c) clear
