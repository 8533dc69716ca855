-- ===== src/Emu/Priv.antt =====
-- src/emu/processor-priv-1.9.h: the registers of the privileged architecture, traps and interrupts.
pub mod Field
pub mod Csr
pub mod Access
pub mod Trap
pub mod Interrupts
pub mod Delegation
pub mod Unguarded
pub mod Inv
pub mod CsrWidth
pub mod Steps
pub mod Reach
pub mod Tests
use rv8_riscv_ckpt.Base.{
  assign, ℕ, ◌+◌, ◌-◌, ◌*◌, ◌/◌, ◌%◌, ◌^◌, Bool, true, false, ◌&&◌, ◌||◌, not, ltb, leb, ◌==◌,
  if◌then◌else◌, bit_and, bit_or, Option, none, some,
}
use rv8_riscv_ckpt.Emu.Plic.{Plic, irq_pending}
use rv8_riscv_ckpt.Emu.Mmu.{rv_mode_U, rv_mode_S, rv_mode_M}
use rv8_riscv_ckpt.Emu.Priv.Field.{
  field, set_field, sie_shift, mie_shift, spie_shift, mpie_shift, spp_shift, mpp_shift, mprv_shift,
  vm_shift, ss_shift, ms_shift, st_shift, mt_shift, se_shift, me_shift,
}
use rv8_riscv_ckpt.Emu.Priv.Csr.{
  mstatus, mip, mie, mtvec, stvec, medeleg, mepc, mcause, mbadaddr, sepc, scause, sbadaddr,
}

-- `processor_priv`. A register is found under the number of its CSR, `instret` under that of
-- `minstret`; `mstatus`, `mip` and `mie` are words with bit fields.
pub record Priv : Type 0 where
  pub mode : ℕ
  pub pc : ℕ
  pub badaddr : ℕ
  pub resetvec : ℕ
  pub running : Bool
  pub regs : ℕ → ℕ

abbrev pub put_reg : ℕ → ℕ → Priv → Priv
put_reg r v s = record s { regs = assign s.regs r v }

-- `P::mstatus.r.f = v`, and the same of the other words with fields.
abbrev pub put_field : ℕ → ℕ → ℕ → ℕ → Priv → Priv
put_field r k n v s = put_reg r (set_field k n v (s.regs r)) s

abbrev pub get_field : ℕ → ℕ → ℕ → Priv → ℕ
get_field r k n s = field k n (s.regs r)

-- `cause | (interrupt ? (1ULL << (P::xlen - 1)) : 0ULL)`.
abbrev pub cause_word : ℕ → ℕ → Bool → ℕ
cause_word w cause interrupt = bit_or cause (if interrupt then 2 ^ (w - 1) else 0)

unfoldable pub strap : ℕ → ℕ → Bool → Priv → Priv
strap w cause interrupt s =
    let s1 = put_reg sepc s.pc s in
    let s2 = put_reg scause (cause_word w cause interrupt) s1 in
    let s3 = put_field mstatus spp_shift 1 s2.mode s2 in
    let s4 = put_field mstatus spie_shift 1 (get_field mstatus sie_shift 1 s3) s3 in
    let s5 = put_field mstatus sie_shift 1 0 s4 in
    record s5 { mode = rv_mode_S; pc = s5.regs stvec }

unfoldable pub mtrap : ℕ → ℕ → Bool → Priv → Priv
mtrap w cause interrupt s =
    let s1 = put_reg mepc s.pc s in
    let s2 = put_reg mcause (cause_word w cause interrupt) s1 in
    let s3 = put_field mstatus mpp_shift 2 s2.mode s2 in
    let s4 = put_field mstatus mpie_shift 1 (get_field mstatus mie_shift 1 s3) s3 in
    let s5 = put_field mstatus mie_shift 1 0 s4 in
    record s5 { mode = rv_mode_M; pc = s5.regs mtvec }

-- The offset of a return, and the state after it; `none` is `return -1`, an illegal instruction. An
-- offset that is itself -1 stays a return here, where the run loop of the source takes it for an
-- illegal instruction.
unfoldable pub sret : ℕ → Priv → Option (ℕ × Priv)
sret w s =
    if leb rv_mode_S s.mode
    then (let s1 = record s { mode = get_field mstatus spp_shift 1 s } in
        let s2 = put_field mstatus spp_shift 1 rv_mode_U s1 in
        let s3 = put_field mstatus sie_shift 1 (get_field mstatus spie_shift 1 s2) s2 in
        let s4 = put_field mstatus spie_shift 1 0 s3 in
        some ((s4.regs sepc + (2 ^ w - s4.pc)) % 2 ^ w, s4))
    else none

unfoldable pub mret : ℕ → Priv → Option (ℕ × Priv)
mret w s =
    if leb rv_mode_M s.mode
    then (let s1 = record s { mode = get_field mstatus mpp_shift 2 s } in
        let s2 = put_field mstatus mpp_shift 2 rv_mode_U s1 in
        let s3 = put_field mstatus mie_shift 1 (get_field mstatus mpie_shift 1 s2) s2 in
        let s4 = put_field mstatus mpie_shift 1 0 s3 in
        some ((s4.regs mepc + (2 ^ w - s4.pc)) % 2 ^ w, s4))
    else none

-- One source of interrupts: its two bits of `mip` and `mie`, and the causes for the two modes.
pub record Source : Type 0 where
  pub m_shift : ℕ
  pub s_shift : ℕ
  pub m_intr : ℕ
  pub s_intr : ℕ

abbrev pub external : Source
external = record { m_shift = me_shift; s_shift = se_shift; m_intr = 11; s_intr = 9 }

abbrev pub timer : Source
timer = record { m_shift = mt_shift; s_shift = st_shift; m_intr = 7; s_intr = 5 }

abbrev pub software : Source
software = record { m_shift = ms_shift; s_shift = ss_shift; m_intr = 3; s_intr = 1 }

-- The part of `isr` of one source: whether it traps, and the state after it.
unfoldable pub service : ℕ → Source → Bool → Priv → Bool × Priv
service w i pending s =
    if pending
    then (let s1 = put_field mip i.m_shift 1 1 s in
        let s2 = put_field mip i.s_shift 1 1 s1 in
        if get_field mstatus mie_shift 1 s2 == 1 && get_field mie i.m_shift 1 s2 == 1
        then (true, mtrap w i.m_intr true s2)
        else if get_field mstatus sie_shift 1 s2 == 1 && get_field mie i.s_shift 1 s2 == 1
        then (true, strap w i.s_intr true s2)
        else (false, s2))
    else (false, put_field mip i.s_shift 1 0 (put_field mip i.m_shift 1 0 s))

abbrev pub unless_trapped : (Priv → Bool × Priv) → Bool × Priv → Bool × Priv
unless_trapped f (true, s) = (true, s)
unless_trapped f (false, s) = f s

-- `isr`, with what the timer and the interprocessor interrupts and the console say.
unfoldable pub isr : ℕ → Plic → Bool → Bool → Priv → Bool × Priv
isr w plic tip sip s =
    unless_trapped (service w software sip)
      (unless_trapped (service w timer tip) (service w external (irq_pending plic) s))

-- `enum rv_cause`, and the instructions that `trap` looks at.
abbrev pub op_ecall : ℕ
op_ecall = 115

abbrev pub op_ebreak : ℕ
op_ebreak = 116

abbrev pub illegal_instruction : ℕ
illegal_instruction = 2

-- The causes that are caught as illegal instructions: `ebreak`, and `ecall` by its mode.
unfoldable pub translate_cause : ℕ → ℕ → ℕ → ℕ
translate_cause op cause mode =
    if cause == illegal_instruction
    then (if op == op_ebreak then 3 else if op == op_ecall && leb mode 3 then 8 + mode else cause)
    else cause

-- The load, store and fetch faults.
abbrev pub sets_badaddr : ℕ → Bool
sets_badaddr cause =
    cause == 0 || cause == 4 || cause == 6 || cause == 1 || cause == 5 || cause == 7

abbrev pub save_badaddr : Bool → ℕ → Priv → Priv
save_badaddr true r s = put_reg r s.badaddr s
save_badaddr false r s = s

-- The end of `trap`, which delegates a cause to supervisor mode or not.
unfoldable pub dispatch : ℕ → ℕ → Priv → Priv
dispatch w cause s =
    if not (bit_and (s.regs medeleg) (2 ^ cause) == 0)
    then (let s1 = save_badaddr (sets_badaddr cause) sbadaddr s in
        let s2 = put_field mip st_shift 1 0 s1 in
        let s3 = put_field mip se_shift 1 0 s2 in
        let s4 = put_field mip ss_shift 1 0 s3 in strap w cause false s4)
    else (let s1 = save_badaddr (sets_badaddr cause) mbadaddr s in
        let s2 = put_field mip mt_shift 1 0 s1 in
        let s3 = put_field mip me_shift 1 0 s2 in
        let s4 = put_field mip ms_shift 1 0 s3 in mtrap w cause false s4)

-- `trap`, of a cause of the architecture and without the command line; `ebreak` ends the run.
unfoldable pub trap : ℕ → ℕ → ℕ → Priv → Priv
trap w op cause s =
    if op == op_ebreak
    then record s { running = false }
    else dispatch w (translate_cause op cause s.mode) s

unfoldable pub reset : Priv → Priv
reset s =
    let s1 = record s { mode = rv_mode_M } in
    let s2 = put_field mstatus vm_shift 4 0 s1 in
    let s3 = put_field mstatus mprv_shift 1 0 s2 in
    let s4 = put_field mstatus mie_shift 1 0 s3 in
    let s5 = put_reg mcause 0 s4 in record s5 { pc = s5.resetvec }
