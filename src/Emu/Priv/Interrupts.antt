-- ===== src/Emu/Priv/Interrupts.antt =====
-- src/emu/processor-priv-1.9.h: which interrupt is taken.
use rv8_riscv_ckpt.Base.{
  arith, ◌∙◌, ℕ, Bool, true, false, ◌&&◌, ◌||◌, ◌==◌, if◌then◌else◌, ◌≡◌, refl, Bool-cases, inl,
  inr,
}
use rv8_riscv_ckpt.Emu.Mmu.{rv_mode_M, rv_mode_S}
use rv8_riscv_ckpt.Emu.Priv.{
  software, timer, external, isr, Priv, Source, service, mtrap, strap, cause_word, put_field,
  get_field,
}
use rv8_riscv_ckpt.Emu.Priv.Field.{sie_shift, mie_shift}
use rv8_riscv_ckpt.Emu.Priv.Csr.{mstatus, mip, mie, mtvec, stvec, mepc, mcause, sepc, scause}
use rv8_riscv_ckpt.Emu.Plic.{irq_pending, Plic}

-- A source is enabled for machine mode, or for supervisor mode.
abbrev pub machine_on : Source → Priv → Bool
machine_on i s = get_field mstatus mie_shift 1 s == 1 && get_field mie i.m_shift 1 s == 1

abbrev pub supervisor_on : Source → Priv → Bool
supervisor_on i s = get_field mstatus sie_shift 1 s == 1 && get_field mie i.s_shift 1 s == 1

abbrev pub wanted : Source → Bool → Priv → Bool
wanted i pending s = pending && (machine_on i s || supervisor_on i s)

-- The state with the two bits of a source in `mip`.
abbrev noted : Source → ℕ → Priv → Priv
noted i v s = put_field mip i.s_shift 1 v (put_field mip i.m_shift 1 v s)

abbrev bit_of : Bool → ℕ
bit_of b = if b then 1 else 0

abbrev trapped : ℕ → Source → Priv → Priv → Priv
trapped w i s s' = if machine_on i s then mtrap w i.m_intr true s' else strap w i.s_intr true s'

service_cases :
    (w : ℕ) (i : Source) (pending : Bool) (s : Priv)
    → service w i pending s ≡ (
        if wanted i pending s
        then (true, trapped w i s (noted i 1 s))
        else (false, noted i (bit_of pending) s))
unfolding service
service_cases w i false s = refl
service_cases w i true s = elim (Bool-cases (machine_on i s)) [
  | inl on ↦ rw on refl
  | inr off ↦ elim (Bool-cases (supervisor_on i s)) [
    | inl on ↦ rw (off, on) refl
    | inr masked ↦ rw (off, masked) refl
  ]
]

-- The interrupt of a source is taken: to machine mode if it is enabled there, and otherwise to
-- supervisor mode, with its cause, from the program counter to the trap vector.
abbrev pub Taken : ℕ → Source → Priv → Priv → Type 0
Taken w i s s' =
    if machine_on i s
    then (s'.mode ≡ rv_mode_M)
      × (s'.regs mcause ≡ cause_word w i.m_intr true)
      × (s'.regs mepc ≡ s.pc)
      × (s'.pc ≡ s.regs mtvec)
    else (s'.mode ≡ rv_mode_S)
      × (s'.regs scause ≡ cause_word w i.s_intr true)
      × (s'.regs sepc ≡ s.pc)
      × (s'.pc ≡ s.regs stvec)

trapped-Taken :
    (w : ℕ) (i : Source) (s s' : Priv)
    → s'.pc ≡ s.pc
    → s'.regs mtvec ≡ s.regs mtvec
    → s'.regs stvec ≡ s.regs stvec
    → Taken w i s (trapped w i s s')
unfolding mtrap strap
trapped-Taken w i s s' e f g = elim (Bool-cases (machine_on i s)) [
  | inl on ↦ rw on (refl, refl, e, f)
  | inr off ↦ rw off (refl, refl, e, g)
]

service-wanted :
    (w : ℕ) (i : Source) (pending : Bool) (s : Priv)
    → wanted i pending s ≡ true
    → service w i pending s ≡ (true, trapped w i s (noted i 1 s))
service-wanted w i pending s h = service_cases w i pending s ∙ rw h refl

service_quiet :
    (w : ℕ) (i : Source) (pending : Bool) (s : Priv)
    → wanted i pending s ≡ false
    → service w i pending s ≡ (false, noted i (bit_of pending) s)
service_quiet w i pending s h = service_cases w i pending s ∙ rw h refl

-- Once per step of the processor, an interrupt is taken exactly if some source is pending and enabled
-- for machine or supervisor mode; then it is that of the first such source in the order of external,
-- timer and software interrupts. External interrupts are pending when the interrupt controller has an
-- interrupt that is not served.
pub isr_lem :
    (w : ℕ) (plic : Plic) (tip sip : Bool) (s : Priv)
    → let outside = wanted external (irq_pending plic) s in
      ((isr w plic tip sip s).0 ≡ (outside || (wanted timer tip s || wanted software sip s)))
      × (((isr w plic tip sip s).0 ≡ true)
          → Taken w
              (if outside then external else if wanted timer tip s then timer else software)
              s
              (isr w plic tip sip s).1)
unfolding isr
isr_lem w plic tip sip s =
    let n1 = noted external (bit_of (irq_pending plic)) s in
    let n2 = noted timer (bit_of tip) n1 in
    elim (Bool-cases (wanted external (irq_pending plic) s)) [
      | inl first ↦
          rw (service-wanted w external (irq_pending plic) s first, first)
            (refl, λ t. trapped-Taken w external s (noted external 1 s) refl refl refl)
      | inr rest ↦
          let quiet : service w external (irq_pending plic) s ≡ (false, n1) =
            service_quiet w external (irq_pending plic) s rest in
          elim (Bool-cases (wanted timer tip s)) [
            | inl second ↦
                let t : service w timer tip n1 ≡ (true, trapped w timer n1 (noted timer 1 n1)) =
                  service-wanted w timer tip n1 second in
                rw (quiet, rest, t, second)
                  (refl, λ t. trapped-Taken w timer s (noted timer 1 n1) refl refl refl)
            | inr last ↦
                let t : service w timer tip n1 ≡ (false, n2) = service_quiet w timer tip n1 last in
                elim (Bool-cases (wanted software sip s)) [
                  | inl third ↦
                      let u : service w software sip n2
                          ≡ (true, trapped w software n2 (noted software 1 n2)) =
                        service-wanted w software sip n2 third in
                      rw (quiet, rest, t, last, u, third)
                        (refl, λ t. trapped-Taken w software s (noted software 1 n2) refl refl refl)
                  | inr none ↦
                      let u : service w software sip n2 ≡ (false, noted software (bit_of sip) n2) =
                        service_quiet w software sip n2 none in
                      rw (quiet, rest, t, last, u, none) (refl, λ t. absurd (ground arith))
                ]
          ]
    ]
