-- ===== src/Asm/Codec/PseudoForms.antt =====
-- src/asm/codec.h: a pseudo-instruction and the instruction that it stands for.
use rv8_riscv_ckpt.Base.{
  inr, inl, Bool-cases, ◌∙◌, ap, ◌⊎◌, some, false, entry, ℕ, ◌≡◌, refl, arith, true, &&-true, List,
  [], ◌∷◌,
}
use rv8_riscv_ckpt.Asm.Inst.{Decode}
use rv8_riscv_ckpt.Asm.Constraints.{Constraint, holds, apply, constraint_check, constraint_set}
use rv8_riscv_ckpt.Asm.Codec.{with_op, rewrite_by, codec_of, encode_pseudo, decode_pseudo_inst}
use rv8_riscv_ckpt.Asm.Meta.CompData.{CompData, comp}
use rv8_riscv_ckpt.Asm.Meta.Pseudo.{rv_inst_pseudo, rv_inst_depseudo}
use rv8_riscv_ckpt.Asm.Codec.Compress.{rewrite_by_left, rewrite_by_lem, EachForm}

-- Setting what already holds changes nothing.
apply-holds : (c : Constraint) (d : Decode) → holds c d ≡ true → apply c d ≡ d
unfolding holds apply
apply-holds Constraint.simm_6 d h = refl
apply-holds c d h = ground arith

constraint_set-constraint_check :
    (cs : List Constraint) (d : Decode) → constraint_check d cs ≡ true → constraint_set d cs ≡ d
unfolding constraint_set constraint_check
constraint_set-constraint_check [] d h = refl
constraint_set-constraint_check (c ∷ cs) d h =
    let both = &&-true (holds c d) (constraint_check d cs) h in
    rw (apply-holds c d both.0) (constraint_set-constraint_check cs d both.1)

-- The table of instructions is the table of pseudo-instructions read backwards.
abbrev ReadsBackwards : List (ℕ × List CompData) → Type 0
ReadsBackwards = EachForm (λ op c. entry c.op rv_inst_depseudo ≡ some (comp op c.constraints))

rv_inst_pseudo-ReadsBackwards : ReadsBackwards rv_inst_pseudo
unfolding rv_inst_pseudo rv_inst_depseudo
rv_inst_pseudo-ReadsBackwards = ground arith

-- An instruction that is shown as a pseudo-instruction is found again from it: `encode_pseudo`
-- succeeds and gives the opcode, format and operands of the instruction. One that is not shown so is
-- left alone.
pub encode_pseudo-decode_pseudo_inst :
    (d : Decode)
    → d.codec ≡ codec_of d.op
    → (((decode_pseudo_inst d).1 ≡ false) × ((decode_pseudo_inst d).0 ≡ d))
      ⊎ (((decode_pseudo_inst d).1 ≡ true) × (encode_pseudo (decode_pseudo_inst d).0 ≡ (d, true)))
unfolding decode_pseudo_inst encode_pseudo
encode_pseudo-decode_pseudo_inst d k = elim (Bool-cases (rewrite_by rv_inst_pseudo d).1) [
  | inl taken ↦ inr (taken, back taken)
  | inr left ↦ inl (left, rewrite_by_left rv_inst_pseudo d left)
]
  where
    back :
        (rewrite_by rv_inst_pseudo d).1 ≡ true
        → encode_pseudo (rewrite_by rv_inst_pseudo d).0 ≡ (d, true)
    back h =
        let t =
          rewrite_by_lem (λ op c. entry c.op rv_inst_depseudo ≡ some (comp op c.constraints))
            rv_inst_pseudo d rv_inst_pseudo-ReadsBackwards h in
        let same : with_op d d.op ≡ d = ground arith in
        ap encode_pseudo t.3
        ∙ rw (encode_pseudo, t.1, same, constraint_set-constraint_check t.0.constraints d t.2)
