-- ===== src/Emu/Priv/Tests.antt =====
-- A processor for the theorems on src/emu/processor-priv-1.9.h.
use rv8_riscv_ckpt.Base.{assign, bit, ◌≤◌, if◌then◌else◌}
use rv8_riscv_ckpt.Emu.Priv.Reach.{Step, Reach}
use rv8_riscv_ckpt.Base.{◌||◌, some, ◌≡◌, false, ◌≢◌, true, arith, ℕ}
use rv8_riscv_ckpt.Emu.Plic.{irq_pending, Plic}
use rv8_riscv_ckpt.Emu.Priv.{
  strap, sret, software, timer, external, trap, op_ebreak, mtrap, reset, mret, op_ecall, isr, Priv,
}
use rv8_riscv_ckpt.Emu.Priv.Inv.{IsPriv}
use rv8_riscv_ckpt.Emu.Priv.Csr.{
  mbadaddr, mtvec, sbadaddr, stvec, scause, sepc, medeleg, mstatus, mcause, mepc, mie,
}
use rv8_riscv_ckpt.Emu.Priv.Reach.{Reach-IsPriv}
use rv8_riscv_ckpt.Emu.Priv.Interrupts.{isr_lem, Taken, wanted}
use rv8_riscv_ckpt.Emu.Priv.Trap.{mret-mtrap, Returns}
use rv8_riscv_ckpt.Emu.Priv.Field.{spp_shift, spie_shift, mpp_shift, mpie_shift, set_field}
use rv8_riscv_ckpt.Emu.Priv.Delegation.{cause_of, trap_lem, TakenAt}
use rv8_riscv_ckpt.Emu.Mmu.{rv_mode_M, rv_mode_S}

-- In user mode, with `stvec` and the interrupts of both modes enabled.
abbrev user : Priv
user = record {
  mode = 0;
  pc = 0x2000;
  badaddr = 0;
  resetvec = 0x1000;
  running = true;
  regs = assign (λ r. 0) mie 0xaaa;
}

abbrev quiet : Plic
quiet = record { pending = 0; served = 0 }

mret-mtrap_example :
    ((r : ℕ × Priv) × (mret 64 (mtrap 64 2 false user) ≡ some r)
      × Returns 64 mepc mcause
          (set_field mpie_shift 1 0 (set_field mpp_shift 2 0 (user.regs mstatus)))
          user
          r)
    × ((user.mode ≤ 1)
        → (r : ℕ × Priv) × (sret 64 (strap 64 2 false user) ≡ some r)
          × Returns 64 sepc scause
              (set_field spie_shift 1 0 (set_field spp_shift 1 0 (user.regs mstatus)))
              user
              r)
mret-mtrap_example =
    mret-mtrap 64 2 false user (omega arith) (omega arith) (omega arith) (omega arith)

isr_lem_example :
    ((isr 64 quiet true false user).0 ≡ (
      wanted external (irq_pending quiet) user
      || (wanted timer true user || wanted software false user)))
    × (((isr 64 quiet true false user).0 ≡ true)
        → Taken 64
            (if wanted external (irq_pending quiet) user
              then external
              else if wanted timer true user
              then timer
              else software)
            user
            (isr 64 quiet true false user).1)
isr_lem_example = isr_lem 64 quiet true false user

trap_lem_example :
    ((op_ecall ≢ op_ebreak)
      → if bit (user.regs medeleg) (cause_of op_ecall 2 0)
        then TakenAt rv_mode_S stvec sepc scause sbadaddr
            (cause_of op_ecall 2 0)
            user
            (trap 64 op_ecall 2 user)
        else TakenAt rv_mode_M mtvec mepc mcause mbadaddr
            (cause_of op_ecall 2 0)
            user
            (trap 64 op_ecall 2 user))
    × ((op_ecall ≡ op_ebreak) → trap 64 op_ecall 2 user ≡ record user { running = false })
trap_lem_example = trap_lem 64 op_ecall 2 user (omega arith)

user-IsPriv : IsPriv 64 user
user-IsPriv = (omega arith, omega arith, omega arith, omega arith, λ r. ground arith)

-- A trap and the return from it.
Reach-IsPriv_example : IsPriv 64 (reset (trap 64 op_ecall 2 user))
Reach-IsPriv_example =
    Reach-IsPriv 64 user (reset (trap 64 op_ecall 2 user)) (omega arith) user-IsPriv (
      Reach.next (trap 64 op_ecall 2 user) _
        (Reach.next user _ Reach.begin (Step.trapped user op_ecall 2 (omega arith)))
        (Step.restarted (trap 64 op_ecall 2 user)))
