-- ===== src/Asm/Codec/PseudoSet.antt =====
-- src/asm/codec.h: what `encode_pseudo` sets.
use rv8_riscv_ckpt.Base.{
  ap, ◌∙◌, false, refl, ==_iff, Option-cases, none, All, ℕ, ◌≡◌, arith, true, ◌==◌, List, [], ◌∷◌,
  some, entry, Bool-cases, inl, inr,
}
use mathlib.Core.Bool.{false≢true}
use rv8_riscv_ckpt.Asm.Inst.{Decode}
use rv8_riscv_ckpt.Asm.Constraints.{Constraint, holds, apply, constraint_check, constraint_set}
use rv8_riscv_ckpt.Asm.Meta.CompData.{CompData}
use rv8_riscv_ckpt.Asm.Meta.Pseudo.{rv_inst_pseudo, rv_inst_depseudo}
use rv8_riscv_ckpt.Asm.Codec.{with_op, encode_pseudo, decode_pseudo_inst, rewrite_by, first_form}

-- Setting the constraints of a pseudo-instruction makes them hold.
abbrev Establishes : ℕ × CompData → Type 0
Establishes e =
    (d : Decode) → constraint_check (constraint_set d e.1.constraints) e.1.constraints ≡ true

rv_inst_depseudo-Establishes : All Establishes rv_inst_depseudo
unfolding rv_inst_depseudo constraint_check constraint_set holds apply
rv_inst_depseudo-Establishes = ground arith

-- A property of every entry of a table holds of the one that is found.
entry_all :
    (P : ℕ × CompData → Type 0) (table : List (ℕ × CompData)) (k : ℕ) (c : CompData)
    → All P table
    → entry k table ≡ some c
    → P (k, c)
entry_all P [] k c all h = cc
entry_all P ((j, a) ∷ t) k c all h = elim (Bool-cases (j == k)) [
  | inl here ↦
      let place : j ≡ k = (==_iff j k).0 here in
      let same : a ≡ c = ground arith in rw (← place, ← same) all.0
  | inr away ↦ entry_all P t k c all.1 (rw away at h)
]

-- The forms that an instruction may be shown as.
forms_of : List (ℕ × List CompData) → ℕ → List CompData
forms_of table op = elim (entry op table) [ none ↦ [] | some forms ↦ forms ]

rewrite_by-forms_of :
    (table : List (ℕ × List CompData)) (d : Decode)
    → (rewrite_by table d).1 ≡ (first_form d (forms_of table d.op)).1
unfolding rewrite_by forms_of first_form
rewrite_by-forms_of table d = elim (Option-cases (entry d.op table)) [
  | inl e ↦ rw (e, rewrite_by, forms_of) refl
  | inr found ↦ rw (found.1, rewrite_by, forms_of) refl
]

-- An instruction for which the constraints of a pseudo-instruction hold is shown as one.
abbrev Shows : ℕ × CompData → Type 0
Shows e =
    (d : Decode)
    → constraint_check d e.1.constraints ≡ true
    → (first_form d (forms_of rv_inst_pseudo e.1.op)).1 ≡ true

rv_inst_depseudo-Shows : All Shows rv_inst_depseudo
unfolding rv_inst_depseudo rv_inst_pseudo constraint_check first_form forms_of
rv_inst_depseudo-Shows = ground arith

op-apply : (c : Constraint) (d : Decode) → (apply c d).op ≡ d.op
unfolding apply
op-apply c d = ground arith

op-constraint_set : (cs : List Constraint) (d : Decode) → (constraint_set d cs).op ≡ d.op
unfolding constraint_set
op-constraint_set [] d = refl
op-constraint_set (c ∷ cs) d = op-constraint_set cs (apply c d) ∙ op-apply c d

shown :
    (d : Decode) (c : CompData)
    → entry d.op rv_inst_depseudo ≡ some c
    → (decode_pseudo_inst (constraint_set (with_op d c.op) c.constraints)).1 ≡ true
unfolding decode_pseudo_inst
shown d c found =
    let e = constraint_set (with_op d c.op) c.constraints in
    let holding =
      entry_all Establishes rv_inst_depseudo d.op c rv_inst_depseudo-Establishes found
        (with_op d c.op) in
    let op : e.op ≡ c.op = op-constraint_set c.constraints (with_op d c.op) in
    rewrite_by-forms_of rv_inst_pseudo e
    ∙ ap (λ o. (first_form e (forms_of rv_inst_pseudo o)).1) op
    ∙ entry_all Shows rv_inst_depseudo d.op c rv_inst_depseudo-Shows found e holding

-- What `encode_pseudo` makes of a pseudo-instruction, whatever its fields hold, is shown as a
-- pseudo-instruction again by `decode_pseudo_inst`.
pub decode_pseudo_inst-encode_pseudo :
    (d : Decode) → (encode_pseudo d).1 ≡ true → (decode_pseudo_inst (encode_pseudo d).0).1 ≡ true
unfolding encode_pseudo
decode_pseudo_inst-encode_pseudo d h = elim (Option-cases (entry d.op rv_inst_depseudo)) [
  | inl missing ↦ absurd (false≢true (failed missing ∙ h))
  | inr found ↦ ap (λ r. (decode_pseudo_inst r).1) (made found.0 found.1) ∙ shown d found.0 found.1
]
  where
    failed : entry d.op rv_inst_depseudo ≡ none → false ≡ (encode_pseudo d).1
    failed missing = rw (encode_pseudo, missing) refl

    made :
        (c : CompData)
        → entry d.op rv_inst_depseudo ≡ some c
        → (encode_pseudo d).0 ≡ constraint_set (with_op d c.op) c.constraints
    made c found = rw (encode_pseudo, found) refl
