-- ===== src/Emu/Priv/Steps.antt =====
-- src/emu/processor-priv-1.9.h: the steps of the privileged processor, and what they keep.
use rv8_riscv_ckpt.Base.{
  ℕ, ◌+◌, ◌/◌, ◌^◌, ◌<◌, ◌≤◌, Bool, true, false, ◌==◌, not, ◌&&◌, leb, bit_and, ◌≡◌, refl,
  Bool-cases, inl, inr, Option, none, some, arith,
}
use native.Mathlib.Nat.{mod-lt, one-le-pow}
use rv8_riscv_ckpt.Emu.Plic.{Plic, irq_pending}
use rv8_riscv_ckpt.Emu.Priv.{
  Priv, Source, external, timer, software, put_reg, put_field, get_field, cause_word, strap, mtrap,
  sret, mret, service, unless_trapped, isr, translate_cause, save_badaddr, sets_badaddr, dispatch,
  trap, op_ebreak,
}
use rv8_riscv_ckpt.Emu.Priv.Field.{
  field, mie_shift, sie_shift, mpie_shift, spie_shift, mpp_shift, spp_shift, mt_shift, me_shift,
  ms_shift, st_shift, se_shift, ss_shift,
}
use rv8_riscv_ckpt.Emu.Priv.Csr.{
  mstatus, mip, mie, mtvec, stvec, mepc, mcause, mbadaddr, sepc, scause, sbadaddr, medeleg,
}
use rv8_riscv_ckpt.Emu.Priv.Access.{reg_bits}
use rv8_riscv_ckpt.Emu.Priv.Inv.{IsPriv, put_reg-IsPriv, put_field-IsPriv, cause_word_below}

mtrap-IsPriv :
    (w cause : ℕ) (interrupt : Bool) (s : Priv)
    → 32 ≤ w
    → cause < 16
    → IsPriv w s
    → IsPriv w (mtrap w cause interrupt s)
unfolding mtrap
mtrap-IsPriv w cause interrupt s wide small inv =
    let s1 = put_reg mepc s.pc s in
    let s2 = put_reg mcause (cause_word w cause interrupt) s1 in
    let s3 = put_field mstatus mpp_shift 2 s.mode s2 in
    let s4 = put_field mstatus mpie_shift 1 (get_field mstatus mie_shift 1 s3) s3 in
    let i1 = put_reg-IsPriv w mepc s.pc s inv.1 inv in
    let i2 =
      put_reg-IsPriv w mcause (cause_word w cause interrupt) s1
        (cause_word_below w cause interrupt wide small) i1 in
    let i3 = put_field-IsPriv w mstatus mpp_shift 2 s.mode s2 wide (inl refl) (omega arith) i2 in
    let i4 =
      put_field-IsPriv w mstatus mpie_shift 1 (get_field mstatus mie_shift 1 s3) s3 wide (inl refl)
        (omega arith) i3 in
    let i5 = put_field-IsPriv w mstatus mie_shift 1 0 s4 wide (inl refl) (omega arith) i4 in
    (omega arith, i5.4 mtvec, inv.2, inv.3, i5.4)

strap-IsPriv :
    (w cause : ℕ) (interrupt : Bool) (s : Priv)
    → 32 ≤ w
    → cause < 16
    → IsPriv w s
    → IsPriv w (strap w cause interrupt s)
unfolding strap
strap-IsPriv w cause interrupt s wide small inv =
    let s1 = put_reg sepc s.pc s in
    let s2 = put_reg scause (cause_word w cause interrupt) s1 in
    let s3 = put_field mstatus spp_shift 1 s.mode s2 in
    let s4 = put_field mstatus spie_shift 1 (get_field mstatus sie_shift 1 s3) s3 in
    let i1 = put_reg-IsPriv w sepc s.pc s inv.1 inv in
    let i2 =
      put_reg-IsPriv w scause (cause_word w cause interrupt) s1
        (cause_word_below w cause interrupt wide small) i1 in
    let i3 = put_field-IsPriv w mstatus spp_shift 1 s.mode s2 wide (inl refl) (omega arith) i2 in
    let i4 =
      put_field-IsPriv w mstatus spie_shift 1 (get_field mstatus sie_shift 1 s3) s3 wide (inl refl)
        (omega arith) i3 in
    let i5 = put_field-IsPriv w mstatus sie_shift 1 0 s4 wide (inl refl) (omega arith) i4 in
    (omega arith, i5.4 stvec, inv.2, inv.3, i5.4)

field_below : (k n x : ℕ) → field k n x < 2 ^ n
unfolding field
field_below k n x = mod-lt (x / 2 ^ k) (one-le-pow n 2 (omega arith))

-- The state that a return leaves, if it is legal.
abbrev pub KeepsPriv : ℕ → Option (ℕ × Priv) → Type 0
KeepsPriv w none = Unit
KeepsPriv w (some r) = IsPriv w r.1

pub mret-IsPriv : (w : ℕ) (s : Priv) → 32 ≤ w → IsPriv w s → KeepsPriv w (mret w s)
unfolding mret
mret-IsPriv w s wide inv = elim (Bool-cases (leb 3 s.mode)) [
  | inl legal ↦
      let s1 = record s { mode = get_field mstatus mpp_shift 2 s } in
      let s2 = put_field mstatus mpp_shift 2 0 s1 in
      let s3 = put_field mstatus mie_shift 1 (get_field mstatus mpie_shift 1 s2) s2 in
      let low = field_below mpp_shift 2 (s.regs mstatus) in
      let i1 : IsPriv w s1 = (omega (arith, low), inv.1, inv.2, inv.3, inv.4) in
      let i2 = put_field-IsPriv w mstatus mpp_shift 2 0 s1 wide (inl refl) (omega arith) i1 in
      let i3 =
        put_field-IsPriv w mstatus mie_shift 1 (get_field mstatus mpie_shift 1 s2) s2 wide
          (inl refl) (omega arith) i2 in
      rw legal (put_field-IsPriv w mstatus mpie_shift 1 0 s3 wide (inl refl) (omega arith) i3)
  | inr illegal ↦ rw illegal tt
]

pub sret-IsPriv : (w : ℕ) (s : Priv) → 32 ≤ w → IsPriv w s → KeepsPriv w (sret w s)
unfolding sret
sret-IsPriv w s wide inv = elim (Bool-cases (leb 1 s.mode)) [
  | inl legal ↦
      let s1 = record s { mode = get_field mstatus spp_shift 1 s } in
      let s2 = put_field mstatus spp_shift 1 0 s1 in
      let s3 = put_field mstatus sie_shift 1 (get_field mstatus spie_shift 1 s2) s2 in
      let low = field_below spp_shift 1 (s.regs mstatus) in
      let i1 : IsPriv w s1 = (omega (arith, low), inv.1, inv.2, inv.3, inv.4) in
      let i2 = put_field-IsPriv w mstatus spp_shift 1 0 s1 wide (inl refl) (omega arith) i1 in
      let i3 =
        put_field-IsPriv w mstatus sie_shift 1 (get_field mstatus spie_shift 1 s2) s2 wide
          (inl refl) (omega arith) i2 in
      rw legal (put_field-IsPriv w mstatus spie_shift 1 0 s3 wide (inl refl) (omega arith) i3)
  | inr illegal ↦ rw illegal tt
]

-- One source of interrupts.
service-IsPriv :
    (w : ℕ) (i : Source) (pending : Bool) (s : Priv)
    → 32 ≤ w
    → (i.m_shift + 1 ≤ 32) × (i.s_shift + 1 ≤ 32) × (i.m_intr < 16) × (i.s_intr < 16)
    → IsPriv w s
    → IsPriv w (service w i pending s).1
unfolding service
service-IsPriv w i false s wide fits inv =
    put_field-IsPriv w mip i.s_shift 1 0 (put_field mip i.m_shift 1 0 s) wide (inr refl) fits.1
      (put_field-IsPriv w mip i.m_shift 1 0 s wide (inr refl) fits.0 inv)
service-IsPriv w i true s wide fits inv =
    let s2 = put_field mip i.s_shift 1 1 (put_field mip i.m_shift 1 1 s) in
    let i2 =
      put_field-IsPriv w mip i.s_shift 1 1 (put_field mip i.m_shift 1 1 s) wide (inr refl) fits.1
        (put_field-IsPriv w mip i.m_shift 1 1 s wide (inr refl) fits.0 inv) in
    elim (Bool-cases (get_field mstatus mie_shift 1 s2 == 1 && get_field mie i.m_shift 1 s2 == 1)) [
      | inl on ↦ rw on (mtrap-IsPriv w i.m_intr true s2 wide fits.2 i2)
      | inr off ↦
          rw off
            (elim (Bool-cases
              (get_field mstatus sie_shift 1 s2 == 1 && get_field mie i.s_shift 1 s2 == 1)) [
                | inl on ↦ rw on (strap-IsPriv w i.s_intr true s2 wide fits.3 i2)
                | inr masked ↦ rw masked i2
              ])
    ]

unless_trapped-IsPriv :
    (w : ℕ) (f : Priv → Bool × Priv) (r : Bool × Priv)
    → ((s : Priv) → IsPriv w s → IsPriv w (f s).1)
    → IsPriv w r.1
    → IsPriv w (unless_trapped f r).1
unless_trapped-IsPriv w f (true, s) keeps inv = inv
unless_trapped-IsPriv w f (false, s) keeps inv = keeps s inv

pub isr-IsPriv :
    (w : ℕ) (plic : Plic) (tip sip : Bool) (s : Priv)
    → 32 ≤ w
    → IsPriv w s
    → IsPriv w (isr w plic tip sip s).1
unfolding isr
isr-IsPriv w plic tip sip s wide inv =
    unless_trapped-IsPriv w (service w software sip) _
      (λ s'.
        service-IsPriv w software sip s' wide (omega arith, omega arith, omega arith, omega arith))
      (unless_trapped-IsPriv w (service w timer tip) (service w external (irq_pending plic) s)
        (λ s'.
          service-IsPriv w timer tip s' wide (omega arith, omega arith, omega arith, omega arith))
        (service-IsPriv w external (irq_pending plic) s wide
          (omega arith, omega arith, omega arith, omega arith) inv))

save_badaddr-IsPriv :
    (w : ℕ) (b : Bool) (r : ℕ) (s : Priv)
    → reg_bits w r ≡ w
    → IsPriv w s
    → IsPriv w (save_badaddr b r s)
save_badaddr-IsPriv w true r s e inv = put_reg-IsPriv w r s.badaddr s (rw e inv.2) inv
save_badaddr-IsPriv w false r s e inv = inv

-- Three fields of `mip` that are cleared.
cleared-IsPriv :
    (w a b c : ℕ) (s : Priv)
    → 32 ≤ w
    → (a + 1 ≤ 32) × (b + 1 ≤ 32) × (c + 1 ≤ 32)
    → IsPriv w s
    → IsPriv w (put_field mip c 1 0 (put_field mip b 1 0 (put_field mip a 1 0 s)))
cleared-IsPriv w a b c s wide fits inv =
    let i1 = put_field-IsPriv w mip a 1 0 s wide (inr refl) fits.0 inv in
    let i2 = put_field-IsPriv w mip b 1 0 (put_field mip a 1 0 s) wide (inr refl) fits.1 i1 in
    put_field-IsPriv w mip c 1 0 (put_field mip b 1 0 (put_field mip a 1 0 s)) wide (inr refl)
      fits.2 i2

dispatch-IsPriv :
    (w cause : ℕ) (s : Priv) → 32 ≤ w → cause < 16 → IsPriv w s → IsPriv w (dispatch w cause s)
unfolding dispatch
dispatch-IsPriv w cause s wide small inv =
    elim (Bool-cases (not (bit_and (s.regs medeleg) (2 ^ cause) == 0))) [
      | inl delegated ↦ rw delegated (
          strap-IsPriv w cause false
            (put_field mip ss_shift 1 0 (
              put_field mip se_shift 1 0
                (put_field mip st_shift 1 0 (save_badaddr (sets_badaddr cause) sbadaddr s))))
            wide small
            (cleared-IsPriv w st_shift se_shift ss_shift
              (save_badaddr (sets_badaddr cause) sbadaddr s) wide
              (omega arith, omega arith, omega arith)
              (save_badaddr-IsPriv w (sets_badaddr cause) sbadaddr s refl inv)))
      | inr kept ↦ rw kept (
          mtrap-IsPriv w cause false
            (put_field mip ms_shift 1 0 (
              put_field mip me_shift 1 0
                (put_field mip mt_shift 1 0 (save_badaddr (sets_badaddr cause) mbadaddr s))))
            wide small
            (cleared-IsPriv w mt_shift me_shift ms_shift
              (save_badaddr (sets_badaddr cause) mbadaddr s) wide
              (omega arith, omega arith, omega arith)
              (save_badaddr-IsPriv w (sets_badaddr cause) mbadaddr s refl inv)))
    ]

translate_cause_below :
    (op cause mode : ℕ) → cause < 16 → mode ≤ 3 → translate_cause op cause mode < 16
unfolding translate_cause
translate_cause_below op cause mode h g = ground arith

pub trap-IsPriv :
    (w op cause : ℕ) (s : Priv) → 32 ≤ w → cause < 16 → IsPriv w s → IsPriv w (trap w op cause s)
unfolding trap
trap-IsPriv w op cause s wide small inv = elim (Bool-cases (op == op_ebreak)) [
  | inl ends ↦ rw ends inv
  | inr other ↦ rw other (
      dispatch-IsPriv w (translate_cause op cause s.mode) s wide
        (translate_cause_below op cause s.mode small inv.0) inv)
]
