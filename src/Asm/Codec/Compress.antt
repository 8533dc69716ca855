-- ===== src/Asm/Codec/Compress.antt =====
-- src/asm/codec.h: compression of an instruction, and expansion after it.
use mathlib.Core.Bool.{false, Bool, false≢true}
use rv8_riscv_ckpt.Base.{
  refl, ◌∙◌, ap, Option-cases, All, ℕ, ◌≡◌, arith, true, ◌==◌, ==_iff, List, [], ◌∷◌, some, entry,
  Bool-cases, inl, inr, ◌⊎◌, sym,
}
use rv8_riscv_ckpt.Asm.Inst.{Decode}
use rv8_riscv_ckpt.Asm.Constraints.{constraint_check}
use rv8_riscv_ckpt.Asm.Meta.CompData.{CompData}
use rv8_riscv_ckpt.Asm.Meta.Compress32.{rv_inst_comp_rv32}
use rv8_riscv_ckpt.Asm.Meta.Compress64.{rv_inst_comp_rv64}
use rv8_riscv_ckpt.Asm.Meta.Compress128.{rv_inst_comp_rv128}
use rv8_riscv_ckpt.Asm.Meta.Decompress.{
  rv_inst_decomp_rv32, rv_inst_decomp_rv64, rv_inst_decomp_rv128,
}
use rv8_riscv_ckpt.Asm.Codec.{
  codec_of, with_op, decompress_by, first_form, rewrite_by, compress_inst_rv32, compress_inst_rv64,
  compress_inst_rv128, decompress_inst_rv32, decompress_inst_rv64, decompress_inst_rv128,
}

-- Which form `first_form` takes: one of the list, whose constraints hold.
pub first_form_lem {ℓ} :
    (P : CompData → Type ℓ) (d : Decode) (forms : List CompData)
    → All P forms
    → (first_form d forms).1 ≡ true
    → (c : CompData) × P c
      × (constraint_check d c.constraints ≡ true)
      × ((first_form d forms).0 ≡ with_op d c.op)
unfolding first_form
first_form_lem P d [] all h = cc
first_form_lem P d (c ∷ cs) all h = elim (Bool-cases (constraint_check d c.constraints)) [
  | inl e ↦ (c, all.0, e, rw e)
  | inr e ↦ rw e (first_form_lem P d cs all.1 (rw e at h))
]

-- A property of every form in a table, with the opcode that it replaces.
abbrev pub EachForm {ℓ} : (ℕ → CompData → Type ℓ) → List (ℕ × List CompData) → Type ℓ
EachForm P [] = Unit
EachForm P ((op, forms) ∷ t) = All (P op) forms × EachForm P t

entry_forms {ℓ} :
    (P : ℕ → CompData → Type ℓ) (table : List (ℕ × List CompData)) (k : ℕ) (forms : List CompData)
    → EachForm P table
    → entry k table ≡ some forms
    → All (P k) forms
entry_forms P [] k forms each h = cc
entry_forms P ((op, fs) ∷ t) k forms each h = elim (Bool-cases (op == k)) [
  | inl e ↦
      let same : op ≡ k = (==_iff op k).0 e in
      let here : fs ≡ forms = ground arith in rw (← same, ← here) each.0
  | inr e ↦ entry_forms P t k forms each.1 (rw e at h)
]

-- Which form `rewrite_by` takes.
pub rewrite_by_lem {ℓ} :
    (P : ℕ → CompData → Type ℓ) (table : List (ℕ × List CompData)) (d : Decode)
    → EachForm P table
    → (rewrite_by table d).1 ≡ true
    → (c : CompData) × P d.op c
      × (constraint_check d c.constraints ≡ true)
      × ((rewrite_by table d).0 ≡ with_op d c.op)
unfolding rewrite_by
rewrite_by_lem P table d each h = elim (Option-cases (entry d.op table)) [
  | inl e ↦ absurd (unfold rewrite_by in ground arith)
  | inr found ↦
      let forms = found.0 in
      rw (found.1, rewrite_by)
        (first_form_lem (P d.op) d forms (entry_forms P table d.op forms each found.1)
          (rw (found.1, rewrite_by) at h))
]

first_form_left :
    (d : Decode) (forms : List CompData)
    → (first_form d forms).1 ≡ false
    → (first_form d forms).0 ≡ d
unfolding first_form
first_form_left d [] h = refl
first_form_left d (c ∷ cs) h = elim (Bool-cases (constraint_check d c.constraints)) [
  | inl e ↦ absurd (false≢true (sym (rw e at h)))
  | inr e ↦ rw e (first_form_left d cs (rw e at h))
]

-- An instruction that is not rewritten is left alone.
pub rewrite_by_left :
    (table : List (ℕ × List CompData)) (d : Decode)
    → (rewrite_by table d).1 ≡ false
    → (rewrite_by table d).0 ≡ d
unfolding rewrite_by
rewrite_by_left table d h = elim (Option-cases (entry d.op table)) [
  | inl e ↦ rw (e, rewrite_by)
  | inr found ↦ rw (found.1, rewrite_by) (first_form_left d found.0 (rw (found.1, rewrite_by) at h))
]

-- Expansion by a table takes each form in another table back to the opcode that it replaces.
abbrev Inverts : List (ℕ × ℕ) → List (ℕ × List CompData) → Type 0
Inverts back table = EachForm (λ op c. entry c.op back ≡ some op) table

rv_inst_comp_rv32-Inverts : Inverts rv_inst_decomp_rv32 rv_inst_comp_rv32
unfolding rv_inst_decomp_rv32 rv_inst_comp_rv32
rv_inst_comp_rv32-Inverts = ground arith

rv_inst_comp_rv64-Inverts : Inverts rv_inst_decomp_rv64 rv_inst_comp_rv64
unfolding rv_inst_decomp_rv64 rv_inst_comp_rv64
rv_inst_comp_rv64-Inverts = ground arith

rv_inst_comp_rv128-Inverts : Inverts rv_inst_decomp_rv128 rv_inst_comp_rv128
unfolding rv_inst_decomp_rv128 rv_inst_comp_rv128
rv_inst_comp_rv128-Inverts = ground arith

decompress_by-rewrite_by :
    (back : List (ℕ × ℕ)) (table : List (ℕ × List CompData)) (d : Decode)
    → Inverts back table
    → d.codec ≡ codec_of d.op
    → (rewrite_by table d).1 ≡ true
    → decompress_by back (rewrite_by table d).0 ≡ d
unfolding decompress_by
decompress_by-rewrite_by back table d inv k h =
    let taken = rewrite_by_lem (λ op c. entry c.op back ≡ some op) table d inv h in
    ap (decompress_by back) taken.3 ∙ rw (taken.1, decompress_by) (ground arith)

-- What an attempt to compress `d` may give: `d` itself and `false`, or `true` and an instruction that
-- expands to `d`.
abbrev pub IsReversible : (Decode → Decode) → Decode → Decode × Bool → Type 0
IsReversible expand d r = ((r.1 ≡ false) × (r.0 ≡ d)) ⊎ ((r.1 ≡ true) × (expand r.0 ≡ d))

rewrite_by-IsReversible :
    (back : List (ℕ × ℕ)) (table : List (ℕ × List CompData)) (d : Decode)
    → Inverts back table
    → d.codec ≡ codec_of d.op
    → IsReversible (decompress_by back) d (rewrite_by table d)
rewrite_by-IsReversible back table d inv k = elim (Bool-cases (rewrite_by table d).1) [
  | inl e ↦ inr (e, decompress_by-rewrite_by back table d inv k e)
  | inr e ↦ inl (e, rewrite_by_left table d e)
]

-- For any of the three register widths, an instruction is either left alone, or compressed to one
-- that expands, by the table of that width, to the same opcode, format and operands.
pub decompress_inst-compress_inst :
    (d : Decode)
    → d.codec ≡ codec_of d.op
    → IsReversible decompress_inst_rv32 d (compress_inst_rv32 d)
      × IsReversible decompress_inst_rv64 d (compress_inst_rv64 d)
      × IsReversible decompress_inst_rv128 d (compress_inst_rv128 d)
unfolding compress_inst_rv32 compress_inst_rv64 compress_inst_rv128 decompress_inst_rv32
    decompress_inst_rv64 decompress_inst_rv128
decompress_inst-compress_inst d k = (
  rewrite_by-IsReversible rv_inst_decomp_rv32 rv_inst_comp_rv32 d rv_inst_comp_rv32-Inverts k,
  rewrite_by-IsReversible rv_inst_decomp_rv64 rv_inst_comp_rv64 d rv_inst_comp_rv64-Inverts k,
  rewrite_by-IsReversible rv_inst_decomp_rv128 rv_inst_comp_rv128 d rv_inst_comp_rv128-Inverts k,
)
