-- ===== src/Emu/Priv/Reach.antt =====
-- src/emu/processor-priv-1.9.h: the runs of the privileged processor.
use rv8_riscv_ckpt.Base.{ℕ, ◌≤◌, ◌<◌, ◌^◌, Bool, ◌≡◌, refl, inl, Option, some, arith}
use mathlib.Core.Path.{subst}
use native.Mathlib.Nat.{one-le-pow}
use rv8_riscv_ckpt.Emu.Plic.{Plic}
use rv8_riscv_ckpt.Emu.Priv.{Priv, put_field, isr, trap, sret, mret, reset}
use rv8_riscv_ckpt.Emu.Priv.Field.{mie_shift, vm_shift, mprv_shift}
use rv8_riscv_ckpt.Emu.Priv.Csr.{mstatus, mcause}
use rv8_riscv_ckpt.Emu.Priv.Access.{CsrOp, inst_csr}
use rv8_riscv_ckpt.Emu.Priv.Inv.{IsPriv, put_reg-IsPriv, put_field-IsPriv}
use rv8_riscv_ckpt.Emu.Priv.CsrWidth.{inst_csr-IsPriv}
use rv8_riscv_ckpt.Emu.Priv.Steps.{isr-IsPriv, trap-IsPriv, sret-IsPriv, mret-IsPriv, KeepsPriv}

reset-IsPriv : (w : ℕ) (s : Priv) → 32 ≤ w → IsPriv w s → IsPriv w (reset s)
unfolding reset
reset-IsPriv w s wide inv =
    let s1 = record s { mode = 3 } in
    let s2 = put_field mstatus vm_shift 4 0 s1 in
    let s3 = put_field mstatus mprv_shift 1 0 s2 in
    let s4 = put_field mstatus mie_shift 1 0 s3 in
    let i1 : IsPriv w s1 = (omega arith, inv.1, inv.2, inv.3, inv.4) in
    let i2 = put_field-IsPriv w mstatus vm_shift 4 0 s1 wide (inl refl) (omega arith) i1 in
    let i3 = put_field-IsPriv w mstatus mprv_shift 1 0 s2 wide (inl refl) (omega arith) i2 in
    let i4 = put_field-IsPriv w mstatus mie_shift 1 0 s3 wide (inl refl) (omega arith) i3 in
    let i5 = put_reg-IsPriv w mcause 0 s4 (one-le-pow w 2 (omega arith)) i4 in
    (omega arith, inv.3, i5.2, i5.3, i5.4)

-- A step of the processor: an instruction that only moves the program counter, a fault with its bad
-- address, the service routine for any interrupts, a trap for any cause of the architecture, a return,
-- an access to a register from any mode, and a reset.
pub data Step (w : ℕ) : Priv → Priv → Type 0 where
  moved : (s : Priv) (pc : ℕ) → pc < 2 ^ w → Step w s (record s { pc = pc })
  faulted : (s : Priv) (badaddr : ℕ) → badaddr < 2 ^ w → Step w s (record s { badaddr = badaddr })
  serviced : (s : Priv) (plic : Plic) (tip sip : Bool) → Step w s (isr w plic tip sip s).1
  trapped : (s : Priv) (op cause : ℕ) → cause < 16 → Step w s (trap w op cause s)
  returned_m : (s : Priv) (r : ℕ × Priv) → mret w s ≡ some r → Step w s r.1
  returned_s : (s : Priv) (r : ℕ × Priv) → sret w s ≡ some r → Step w s r.1
  accessed :
      (s : Priv) (now rd : ℕ) (op : CsrOp) (csr value : ℕ) (r : Option ℕ × Priv)
      → now < 2 ^ 64
      → inst_csr w now rd op csr value s ≡ some r
      → Step w s r.1
  restarted : (s : Priv) → Step w s (reset s)

-- The states that a run comes to.
pub data Reach (w : ℕ) (start : Priv) : Priv → Type 0 where
  begin : Reach w start start
  next : (s s' : Priv) → Reach w start s → Step w s s' → Reach w start s'

returned-IsPriv :
    (w : ℕ) (o : Option (ℕ × Priv)) (r : ℕ × Priv) → KeepsPriv w o → o ≡ some r → IsPriv w r.1
returned-IsPriv w o r keeps e = subst (KeepsPriv w) e keeps

Step-IsPriv : (w : ℕ) (s s' : Priv) → 32 ≤ w → IsPriv w s → Step w s s' → IsPriv w s'
Step-IsPriv w s _ wide inv (Step.moved _ pc b) = (inv.0, b, inv.2, inv.3, inv.4)
Step-IsPriv w s _ wide inv (Step.faulted _ badaddr b) = (inv.0, inv.1, b, inv.3, inv.4)
Step-IsPriv w s _ wide inv (Step.serviced _ plic tip sip) = isr-IsPriv w plic tip sip s wide inv
Step-IsPriv w s _ wide inv (Step.trapped _ op cause b) = trap-IsPriv w op cause s wide b inv
Step-IsPriv w s _ wide inv (Step.returned_m _ r e) =
    returned-IsPriv w (mret w s) r (mret-IsPriv w s wide inv) e
Step-IsPriv w s _ wide inv (Step.returned_s _ r e) =
    returned-IsPriv w (sret w s) r (sret-IsPriv w s wide inv) e
Step-IsPriv w s _ wide inv (Step.accessed _ now rd op csr value r b e) =
    inst_csr-IsPriv w now rd op csr value s b inv r e
Step-IsPriv w s _ wide inv (Step.restarted _) = reset-IsPriv w s wide inv

-- From a state in which it is so, every state of every run has one of the four modes, a program
-- counter, a bad address and registers of at most `w` bits, and a time and a counter of retired
-- instructions of at most 64, for registers of 32 bits or more: whatever the mode, the interrupts,
-- the causes of traps and the values that are written to the registers.
pub Reach-IsPriv : (w : ℕ) (start s : Priv) → 32 ≤ w → IsPriv w start → Reach w start s → IsPriv w s
Reach-IsPriv w start _ wide inv Reach.begin = inv
Reach-IsPriv w start s wide inv (Reach.next s1 _ reached step) =
    Step-IsPriv w s1 s wide (Reach-IsPriv w start s1 wide inv reached) step
