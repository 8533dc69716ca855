-- ===== src/Emu/RunLoop/Fields.antt =====
-- src/asm/decode.h and src/emu/processor-model.h: what the interpreter reads of a decoded instruction does
-- not depend on the instruction that was decoded before.
use rv8_riscv_ckpt.Base.{
  false, ◌&&◌, ◌||◌, ltb, not, true, ◌==◌, Bool, Bool-cases, Option-cases, ◌⊎◌, inl, inr, ◌≤◌,
  &&-true, arith, List, [], ◌∷◌, Option, none, some, entry, sym, ap, ◌∙◌, ℕ, ◌≡◌, ◌≢◌, refl,
}
use mathlib.Core.Bool.{true≢false}
use rv8_riscv_ckpt.Asm.RoundTrip.Opcodes.{op_count}
use rv8_riscv_ckpt.Asm.Meta.Decompress.{rv_inst_decomp_rv64}
use rv8_riscv_ckpt.Asm.Inst.{Codec, Decode}
use rv8_riscv_ckpt.Asm.Switch.{decode_inst_type, decode_codec}
use rv8_riscv_ckpt.Emu.Interp.Ops.{int_ops, is_float, int_op}
use rv8_riscv_ckpt.Asm.Decoders.{
  decode_none, decode_u, decode_uj, decode_i, decode_i_sh5, decode_i_sh6, decode_i_sh7,
  decode_i_csr, decode_s, decode_sb, decode_r, decode_r_m, decode_r4_m, decode_r_a, decode_r_l,
  decode_r_f, decode_cb, decode_cb_imm, decode_cb_sh5, decode_cb_sh6, decode_ci, decode_ci_sh5,
  decode_ci_sh6, decode_ci_16sp, decode_ci_lwsp, decode_ci_ldsp, decode_ci_lqsp, decode_ci_li,
  decode_ci_lui, decode_ci_none, decode_ciw_4spn, decode_cj, decode_cj_jal, decode_cl_lw,
  decode_cl_ld, decode_cl_lq, decode_cr, decode_cr_mv, decode_cr_jalr, decode_cr_jr, decode_cs,
  decode_cs_sw, decode_cs_sd, decode_cs_sq, decode_css_swsp, decode_css_sdsp, decode_css_sqsp,
}
use rv8_riscv_ckpt.Asm.Codec.{decompress_by, decompress_inst_rv64, codec_of}
use rv8_riscv_ckpt.Asm.Codec.Decoding.{rv64imafdc, decode_inst, inst_decode_rv64}
use rv8_riscv_ckpt.Asm.Types.Read.{all_below_at, all_below}
use rv8_riscv_ckpt.Asm.Meta.{rv_inst_codec}
use rv8_riscv_ckpt.Asm.Switch.Opcode.{decode_inst_op}

-- The fields that the interpreter reads.
abbrev pub SameFields : Decode → Decode → Type 0
SameFields d e = (d.rd ≡ e.rd) × (d.rs1 ≡ e.rs1) × (d.rs2 ≡ e.rs2) × (d.imm ≡ e.imm)

-- The same opcode and fields, or an opcode that the interpreter does not have.
abbrev pub SameInst : Decode → Decode → Type 0
SameInst d e = (d.op ≡ e.op) × (SameFields d e ⊎ (int_op d.op ≡ none))

decode_codec-SameFields :
    (c : Codec) (d e : Decode) (inst : ℕ)
    → c ≢ Codec.illegal
    → SameFields (decode_codec c d inst) (decode_codec c e inst)
unfolding decode_codec decode_none decode_u decode_uj decode_i decode_i_sh5 decode_i_sh6
    decode_i_sh7 decode_i_csr decode_s decode_sb decode_r decode_r_m decode_r4_m decode_r_a
    decode_r_l decode_r_f decode_cb decode_cb_imm decode_cb_sh5 decode_cb_sh6 decode_ci
    decode_ci_sh5 decode_ci_sh6 decode_ci_16sp decode_ci_lwsp decode_ci_ldsp decode_ci_lqsp
    decode_ci_li decode_ci_lui decode_ci_none decode_ciw_4spn decode_cj decode_cj_jal decode_cl_lw
    decode_cl_ld decode_cl_lq decode_cr decode_cr_mv decode_cr_jalr decode_cr_jr decode_cs
    decode_cs_sw decode_cs_sd decode_cs_sq decode_css_swsp decode_css_sdsp decode_css_sqsp
decode_codec-SameFields Codec.illegal d e inst h = absurd (h refl)
decode_codec-SameFields Codec.none d e inst h = (refl, refl, refl, refl)
decode_codec-SameFields Codec.u d e inst h = (refl, refl, refl, refl)
decode_codec-SameFields Codec.uj d e inst h = (refl, refl, refl, refl)
decode_codec-SameFields Codec.i d e inst h = (refl, refl, refl, refl)
decode_codec-SameFields Codec.i_sh5 d e inst h = (refl, refl, refl, refl)
decode_codec-SameFields Codec.i_sh6 d e inst h = (refl, refl, refl, refl)
decode_codec-SameFields Codec.i_sh7 d e inst h = (refl, refl, refl, refl)
decode_codec-SameFields Codec.i_csr d e inst h = (refl, refl, refl, refl)
decode_codec-SameFields Codec.s d e inst h = (refl, refl, refl, refl)
decode_codec-SameFields Codec.sb d e inst h = (refl, refl, refl, refl)
decode_codec-SameFields Codec.r d e inst h = (refl, refl, refl, refl)
decode_codec-SameFields Codec.r_m d e inst h = (refl, refl, refl, refl)
decode_codec-SameFields Codec.r4_m d e inst h = (refl, refl, refl, refl)
decode_codec-SameFields Codec.r_a d e inst h = (refl, refl, refl, refl)
decode_codec-SameFields Codec.r_l d e inst h = (refl, refl, refl, refl)
decode_codec-SameFields Codec.r_f d e inst h = (refl, refl, refl, refl)
decode_codec-SameFields Codec.cb d e inst h = (refl, refl, refl, refl)
decode_codec-SameFields Codec.cb_imm d e inst h = (refl, refl, refl, refl)
decode_codec-SameFields Codec.cb_sh5 d e inst h = (refl, refl, refl, refl)
decode_codec-SameFields Codec.cb_sh6 d e inst h = (refl, refl, refl, refl)
decode_codec-SameFields Codec.ci d e inst h = (refl, refl, refl, refl)
decode_codec-SameFields Codec.ci_sh5 d e inst h = (refl, refl, refl, refl)
decode_codec-SameFields Codec.ci_sh6 d e inst h = (refl, refl, refl, refl)
decode_codec-SameFields Codec.ci_16sp d e inst h = (refl, refl, refl, refl)
decode_codec-SameFields Codec.ci_lwsp d e inst h = (refl, refl, refl, refl)
decode_codec-SameFields Codec.ci_ldsp d e inst h = (refl, refl, refl, refl)
decode_codec-SameFields Codec.ci_lqsp d e inst h = (refl, refl, refl, refl)
decode_codec-SameFields Codec.ci_li d e inst h = (refl, refl, refl, refl)
decode_codec-SameFields Codec.ci_lui d e inst h = (refl, refl, refl, refl)
decode_codec-SameFields Codec.ci_none d e inst h = (refl, refl, refl, refl)
decode_codec-SameFields Codec.ciw_4spn d e inst h = (refl, refl, refl, refl)
decode_codec-SameFields Codec.cj d e inst h = (refl, refl, refl, refl)
decode_codec-SameFields Codec.cj_jal d e inst h = (refl, refl, refl, refl)
decode_codec-SameFields Codec.cl_lw d e inst h = (refl, refl, refl, refl)
decode_codec-SameFields Codec.cl_ld d e inst h = (refl, refl, refl, refl)
decode_codec-SameFields Codec.cl_lq d e inst h = (refl, refl, refl, refl)
decode_codec-SameFields Codec.cr d e inst h = (refl, refl, refl, refl)
decode_codec-SameFields Codec.cr_mv d e inst h = (refl, refl, refl, refl)
decode_codec-SameFields Codec.cr_jalr d e inst h = (refl, refl, refl, refl)
decode_codec-SameFields Codec.cr_jr d e inst h = (refl, refl, refl, refl)
decode_codec-SameFields Codec.cs d e inst h = (refl, refl, refl, refl)
decode_codec-SameFields Codec.cs_sw d e inst h = (refl, refl, refl, refl)
decode_codec-SameFields Codec.cs_sd d e inst h = (refl, refl, refl, refl)
decode_codec-SameFields Codec.cs_sq d e inst h = (refl, refl, refl, refl)
decode_codec-SameFields Codec.css_swsp d e inst h = (refl, refl, refl, refl)
decode_codec-SameFields Codec.css_sdsp d e inst h = (refl, refl, refl, refl)
decode_codec-SameFields Codec.css_sqsp d e inst h = (refl, refl, refl, refl)

decode_codec-op : (c : Codec) (d : Decode) (inst : ℕ) → (decode_codec c d inst).op ≡ d.op
unfolding decode_codec decode_none decode_u decode_uj decode_i decode_i_sh5 decode_i_sh6
    decode_i_sh7 decode_i_csr decode_s decode_sb decode_r decode_r_m decode_r4_m decode_r_a
    decode_r_l decode_r_f decode_cb decode_cb_imm decode_cb_sh5 decode_cb_sh6 decode_ci
    decode_ci_sh5 decode_ci_sh6 decode_ci_16sp decode_ci_lwsp decode_ci_ldsp decode_ci_lqsp
    decode_ci_li decode_ci_lui decode_ci_none decode_ciw_4spn decode_cj decode_cj_jal decode_cl_lw
    decode_cl_ld decode_cl_lq decode_cr decode_cr_mv decode_cr_jalr decode_cr_jr decode_cs
    decode_cs_sw decode_cs_sd decode_cs_sq decode_css_swsp decode_css_sdsp decode_css_sqsp
decode_codec-op Codec.illegal d inst = refl
decode_codec-op Codec.none d inst = refl
decode_codec-op Codec.u d inst = refl
decode_codec-op Codec.uj d inst = refl
decode_codec-op Codec.i d inst = refl
decode_codec-op Codec.i_sh5 d inst = refl
decode_codec-op Codec.i_sh6 d inst = refl
decode_codec-op Codec.i_sh7 d inst = refl
decode_codec-op Codec.i_csr d inst = refl
decode_codec-op Codec.s d inst = refl
decode_codec-op Codec.sb d inst = refl
decode_codec-op Codec.r d inst = refl
decode_codec-op Codec.r_m d inst = refl
decode_codec-op Codec.r4_m d inst = refl
decode_codec-op Codec.r_a d inst = refl
decode_codec-op Codec.r_l d inst = refl
decode_codec-op Codec.r_f d inst = refl
decode_codec-op Codec.cb d inst = refl
decode_codec-op Codec.cb_imm d inst = refl
decode_codec-op Codec.cb_sh5 d inst = refl
decode_codec-op Codec.cb_sh6 d inst = refl
decode_codec-op Codec.ci d inst = refl
decode_codec-op Codec.ci_sh5 d inst = refl
decode_codec-op Codec.ci_sh6 d inst = refl
decode_codec-op Codec.ci_16sp d inst = refl
decode_codec-op Codec.ci_lwsp d inst = refl
decode_codec-op Codec.ci_ldsp d inst = refl
decode_codec-op Codec.ci_lqsp d inst = refl
decode_codec-op Codec.ci_li d inst = refl
decode_codec-op Codec.ci_lui d inst = refl
decode_codec-op Codec.ci_none d inst = refl
decode_codec-op Codec.ciw_4spn d inst = refl
decode_codec-op Codec.cj d inst = refl
decode_codec-op Codec.cj_jal d inst = refl
decode_codec-op Codec.cl_lw d inst = refl
decode_codec-op Codec.cl_ld d inst = refl
decode_codec-op Codec.cl_lq d inst = refl
decode_codec-op Codec.cr d inst = refl
decode_codec-op Codec.cr_mv d inst = refl
decode_codec-op Codec.cr_jalr d inst = refl
decode_codec-op Codec.cr_jr d inst = refl
decode_codec-op Codec.cs d inst = refl
decode_codec-op Codec.cs_sw d inst = refl
decode_codec-op Codec.cs_sd d inst = refl
decode_codec-op Codec.cs_sq d inst = refl
decode_codec-op Codec.css_swsp d inst = refl
decode_codec-op Codec.css_sdsp d inst = refl
decode_codec-op Codec.css_sqsp d inst = refl

abbrev is_illegal : Codec → Bool
is_illegal Codec.illegal = true
is_illegal _ = false

is_illegal-Codec : (c : Codec) → is_illegal c ≡ false → c ≢ Codec.illegal
is_illegal-Codec c h e = true≢false (sym (ap is_illegal e) ∙ h)

keys_below : {A : Type 0} → ℕ → List (ℕ × A) → Bool
keys_below bound [] = true
keys_below bound ((k, x) ∷ t) = ltb k bound && keys_below bound t

entry-above :
    {A : Type 0} (bound op : ℕ) (t : List (ℕ × A))
    → keys_below bound t ≡ true
    → bound ≤ op
    → entry op t ≡ none
unfolding keys_below
entry-above bound op [] small above = refl
entry-above bound op ((k, x) ∷ t) small above =
    let both = &&-true (ltb k bound) (keys_below bound t) small in
    let other : (k == op) ≡ false = ground arith in rw other (entry-above bound op t both.1 above)

-- An opcode without a format is no compressed one, and the interpreter does not have it.
has_none : {A : Type 0} → Option A → Bool
has_none none = true
has_none (some x) = false

has_none-lem : {A : Type 0} (o : Option A) → has_none o ≡ true → o ≡ none
unfolding has_none
has_none-lem none h = refl
has_none-lem (some x) h = cc

formatted : ℕ → Bool
formatted op =
    not (is_illegal (codec_of op))
    || has_none (entry op rv_inst_decomp_rv64) && has_none (int_op op)

formatted_table : all_below op_count formatted ≡ true
unfolding all_below formatted rv_inst_codec rv_inst_decomp_rv64 int_op has_none
formatted_table = refl

above-none : (op : ℕ) → op_count ≤ op → (entry op rv_inst_decomp_rv64 ≡ none) × (int_op op ≡ none)
unfolding keys_below rv_inst_decomp_rv64 int_op
above-none op above =
    let float : is_float op ≡ false = ground arith in
    (
      entry-above op_count op rv_inst_decomp_rv64 refl above,
      rw float (entry-above op_count op int_ops refl above),
    )

illegal-none :
    (op : ℕ)
    → is_illegal (codec_of op) ≡ true
    → (entry op rv_inst_decomp_rv64 ≡ none) × (int_op op ≡ none)
unfolding formatted
illegal-none op h = elim (Bool-cases (ltb op op_count)) [
  | inl small ↦
      let t = all_below_at op_count formatted op formatted_table (ground arith) in
      let both : (has_none (entry op rv_inst_decomp_rv64) && has_none (int_op op)) ≡ true =
        ground arith in
      let each = &&-true (has_none (entry op rv_inst_decomp_rv64)) (has_none (int_op op)) both in
      (has_none-lem _ each.0, has_none-lem _ each.1)
  | inr large ↦ above-none op (ground arith)
]

-- Expansion of two instructions of one opcode.
decompress-SameInst :
    (d e : Decode)
    → d.op ≡ e.op
    → SameFields d e ⊎ ((entry d.op rv_inst_decomp_rv64 ≡ none) × (int_op d.op ≡ none))
    → SameInst (decompress_inst_rv64 d) (decompress_inst_rv64 e)
unfolding decompress_inst_rv64 decompress_by
decompress-SameInst d e op fields =
    let o : entry d.op rv_inst_decomp_rv64 ≡ entry e.op rv_inst_decomp_rv64 =
      ap (λ k. entry k rv_inst_decomp_rv64) op in
    elim (Option-cases (entry d.op rv_inst_decomp_rv64)) [
      | inl plain ↦
          rw (plain, sym o ∙ plain, decompress_by)
            (elim fields [ inl same ↦ (op, inl same) | inr lacking ↦ (op, inr lacking.1) ])
      | inr expands ↦
          rw (expands.1, sym o ∙ expands.1, decompress_by)
            (elim fields [
              | inl same ↦ (refl, inl same)
              | inr lacking ↦ absurd (ground (arith, lacking.0, expands.1))
            ])
    ]

pub inst_decode_rv64-SameInst :
    (d e : Decode) (inst : ℕ) → SameInst (inst_decode_rv64 d inst) (inst_decode_rv64 e inst)
unfolding inst_decode_rv64 decode_inst decode_inst_type
inst_decode_rv64-SameInst d e inst =
    let op = decode_inst_op rv64imafdc inst in
    let c = codec_of op in
    let d1 = record d { op = op; codec = c } in
    let e1 = record e { op = op; codec = c } in
    let opd = decode_codec-op c d1 inst in
    let ope = decode_codec-op c e1 inst in
    decompress-SameInst (decode_codec c d1 inst) (decode_codec c e1 inst) (opd ∙ sym ope)
      (elim (Bool-cases (is_illegal c)) [
        | inl lacking ↦ inr (rw opd (illegal-none op lacking))
        | inr has ↦ inl (decode_codec-SameFields c d1 e1 inst (is_illegal-Codec c has))
      ])
