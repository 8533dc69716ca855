-- ===== src/Emu/Priv/Delegation.antt =====
-- src/emu/processor-priv-1.9.h: where an exception is taken.
use rv8_riscv_ckpt.Base.{
  bit-zero, bit-or, bit_ext, zero, suc, ◌&&◌, ◌≤◌, ◌&&◌, ◌⊎◌, ◌≤◌, arith, ℕ, ◌^◌, true, false, not,
  ◌==◌, if◌then◌else◌, bit_and, bit, bit_and-power, ◌≡◌, ◌≢◌, refl, ◌∙◌, Bool-cases, inl, inr,
}
use rv8_riscv_ckpt.Emu.Mmu.{rv_mode_M, rv_mode_S}
use rv8_riscv_ckpt.Emu.Priv.{
  op_ecall, Priv, trap, dispatch, strap, mtrap, translate_cause, sets_badaddr, cause_word,
  op_ebreak,
}
use rv8_riscv_ckpt.Emu.Priv.Csr.{
  mtvec, stvec, medeleg, mepc, mcause, mbadaddr, sepc, scause, sbadaddr,
}

-- The cause of an `ecall` by the mode that makes it.
abbrev pub ecall_cause : ℕ → ℕ
ecall_cause zero = 8
ecall_cause (suc zero) = 9
ecall_cause (suc (suc zero)) = 10
ecall_cause (suc (suc (suc n))) = 11

-- The cause of the architecture: `ecall` raises an illegal instruction, which becomes its own cause.
abbrev pub cause_of : ℕ → ℕ → ℕ → ℕ
cause_of op cause mode = if op == op_ecall && cause == 2 then ecall_cause mode else cause

-- Misaligned addresses and faults: of a fetch, 0 and 1, and of a load or a store, 4 to 7.
abbrev pub HasAddress : ℕ → Type 0
HasAddress cause = (cause ≤ 1) ⊎ ((4 ≤ cause) × (cause ≤ 7))

-- What a trap leaves in the mode and the registers of the level that takes it.
abbrev pub TakenAt : ℕ → ℕ → ℕ → ℕ → ℕ → ℕ → Priv → Priv → Type 0
TakenAt level vector epc cause_reg badaddr_reg cause s s' =
    (s'.mode ≡ level)
    × (s'.pc ≡ s.regs vector)
    × (s'.regs epc ≡ s.pc)
    × (s'.regs cause_reg ≡ cause)
    × (HasAddress cause → s'.regs badaddr_reg ≡ s.badaddr)
    × (¬ HasAddress cause → s'.regs badaddr_reg ≡ s.regs badaddr_reg)

translate_cause-cause_of :
    (op cause mode : ℕ)
    → mode ≤ 3
    → op ≢ op_ebreak
    → translate_cause op cause mode ≡ cause_of op cause mode
unfolding translate_cause
translate_cause-cause_of op cause zero h other = ground arith
translate_cause-cause_of op cause (suc zero) h other = ground arith
translate_cause-cause_of op cause (suc (suc zero)) h other = ground arith
translate_cause-cause_of op cause (suc (suc (suc zero))) h other = ground arith
translate_cause-cause_of op cause (suc (suc (suc (suc n)))) h other = omega (arith, h)

sets_badaddr-HasAddress :
    (cause : ℕ)
    → ((sets_badaddr cause ≡ true) × HasAddress cause)
      ⊎ ((sets_badaddr cause ≡ false) × ¬ HasAddress cause)
sets_badaddr-HasAddress cause = ground arith

cause_word-exception : (w cause : ℕ) → cause_word w cause false ≡ cause
cause_word-exception w cause = bit_ext _ _ λ i. ground (arith, bit-or cause 0 i, bit-zero i)

supervisor_takes :
    (w cause : ℕ) (s : Priv)
    → not (bit_and (s.regs medeleg) (2 ^ cause) == 0) ≡ true
    → TakenAt rv_mode_S stvec sepc scause sbadaddr cause s (dispatch w cause s)
unfolding dispatch strap
supervisor_takes w cause s h = elim (sets_badaddr-HasAddress cause) [
  | inl address ↦
      rw (h, address.0)
        (refl, refl, refl, cause_word-exception w cause, λ a. refl, λ a. absurd (a address.1))
  | inr other ↦
      rw (h, other.0)
        (refl, refl, refl, cause_word-exception w cause, λ a. absurd (other.1 a), λ a. refl)
]

machine_takes :
    (w cause : ℕ) (s : Priv)
    → not (bit_and (s.regs medeleg) (2 ^ cause) == 0) ≡ false
    → TakenAt rv_mode_M mtvec mepc mcause mbadaddr cause s (dispatch w cause s)
unfolding dispatch mtrap
machine_takes w cause s h = elim (sets_badaddr-HasAddress cause) [
  | inl address ↦
      rw (h, address.0)
        (refl, refl, refl, cause_word-exception w cause, λ a. refl, λ a. absurd (a address.1))
  | inr other ↦
      rw (h, other.0)
        (refl, refl, refl, cause_word-exception w cause, λ a. absurd (other.1 a), λ a. refl)
]

-- An exception other than that of `ebreak` is taken by supervisor mode if the bit of its cause is set
-- in `medeleg`, from machine mode too, and by machine mode otherwise: the program counter goes to the
-- vector of that mode, and the mode's registers hold the old program counter, the cause and, for the
-- causes 0, 1 and 4 to 7, the faulting address, while for any other cause the register of the address
-- is left alone. The cause is that of the exception, but for an `ecall` 8, 9, 10 or 11 from user,
-- supervisor, hypervisor and machine mode. An `ebreak` ends the run and changes no register. The mode
-- is one of the four.
pub trap_lem :
    (w op cause : ℕ) (s : Priv)
    → s.mode ≤ 3
    → let c = cause_of op cause s.mode in
      ((op ≢ op_ebreak)
        → if bit (s.regs medeleg) c
          then TakenAt rv_mode_S stvec sepc scause sbadaddr c s (trap w op cause s)
          else TakenAt rv_mode_M mtvec mepc mcause mbadaddr c s (trap w op cause s))
      × ((op ≡ op_ebreak) → trap w op cause s ≡ record s { running = false })
unfolding trap
trap_lem w op cause s modes =
    let c = cause_of op cause s.mode in
    let delegated = bit_and-power c (s.regs medeleg) in
    (
      λ other.
          let e : (op == op_ebreak) ≡ false = ground arith in
          let same = translate_cause-cause_of op cause s.mode modes other in
          elim (Bool-cases (bit (s.regs medeleg) c)) [
            | inl set ↦ rw (e, same, set) (supervisor_takes w c s (delegated ∙ set))
            | inr clear ↦ rw (e, same, clear) (machine_takes w c s (delegated ∙ clear))
          ],
      λ ends. rw ends refl,
    )
