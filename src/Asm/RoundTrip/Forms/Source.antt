-- ===== src/Asm/RoundTrip/Forms/Source.antt =====
-- src/asm/meta.cc: the source of a move is not x0, since `c.li` stands before `c.mv` among the forms.
use mathlib.Core.Bool.{true≢false}
use rv8_riscv_ckpt.Base.{
  ℕ, true, false, ◌≡◌, ◌≢◌, refl, sym, ap, ◌∙◌, Bool-cases, inl, inr, arith, List, [], ◌∷◌, entry,
  some,
}
use rv8_riscv_ckpt.Asm.Op as Op
use rv8_riscv_ckpt.Asm.Inst.{Decode}
use rv8_riscv_ckpt.Asm.Constraints.{constraint_check, holds}
use rv8_riscv_ckpt.Asm.Codec.{first_form, rewrite_by, compress_inst_rv64}
use rv8_riscv_ckpt.Asm.Meta.CompData.{CompData}
use rv8_riscv_ckpt.Asm.Meta.Compress64.{rv_inst_comp_rv64, rvcd_rv64_addi}
use rv8_riscv_ckpt.Asm.Meta.CompressedConstraints.{rvcc_c_li, rvcc_c_mv}

-- A move from x0 is a load of 0.
li_of_zero :
    (d : Decode)
    → d.rs1 ≡ 0
    → constraint_check d rvcc_c_mv ≡ true
    → constraint_check d rvcc_c_li ≡ true
unfolding constraint_check holds
li_of_zero d zero_source h = ground arith

-- A form that is not the one taken is refused.
first_form-cons :
    (d : Decode) (op : ℕ) (c : CompData) (cs : List CompData)
    → (first_form d (c ∷ cs)).0.op ≡ op
    → c.op ≢ op
    → ((first_form d cs).0.op ≡ op) × (constraint_check d c.constraints ≡ false)
unfolding first_form
first_form-cons d op c cs taken other = elim (Bool-cases (constraint_check d c.constraints)) [
  | inl ok ↦ absurd (other (rw ok at taken))
  | inr refused ↦ (rw refused at taken, refused)
]

first_form-last :
    (d : Decode) (op : ℕ) (c : CompData)
    → (first_form d (c ∷ [])).0.op ≡ op
    → d.op ≢ op
    → constraint_check d c.constraints ≡ true
unfolding first_form
first_form-last d op c taken other = elim (Bool-cases (constraint_check d c.constraints)) [
  | inl ok ↦ ok
  | inr refused ↦ absurd (other (rw refused at taken))
]

addi_forms :
    (d : Decode) → d.op ≡ Op.addi → (compress_inst_rv64 d).0 ≡ (first_form d rvcd_rv64_addi).0
unfolding compress_inst_rv64 rewrite_by rv_inst_comp_rv64
addi_forms d e =
    let found : entry d.op rv_inst_comp_rv64 ≡ some rvcd_rv64_addi = rw e refl in
    rw (found, rewrite_by) refl

pub c_mv_source : (d : Decode) → d.op ≡ Op.addi → (compress_inst_rv64 d).0.op ≡ Op.c_mv → d.rs1 ≢ 0
c_mv_source d e taken zero_source =
    let t0 = ap (λ (x : Decode). x.op) (sym (addi_forms d e)) ∙ taken in
    let t1 = first_form-cons d Op.c_mv _ _ t0 (λ q. omega (arith, q)) in
    let t2 = first_form-cons d Op.c_mv _ _ t1.0 (λ q. omega (arith, q)) in
    let t3 = first_form-cons d Op.c_mv _ _ t2.0 (λ q. omega (arith, q)) in
    let t4 = first_form-cons d Op.c_mv _ _ t3.0 (λ q. omega (arith, q)) in
    let t5 = first_form-cons d Op.c_mv _ _ t4.0 (λ q. omega (arith, q)) in
    let last = first_form-last d Op.c_mv _ t5.0 (λ q. omega (arith, q, e)) in
    true≢false (sym (li_of_zero d zero_source last) ∙ t4.1)
