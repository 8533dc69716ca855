-- ===== src/Emu/Interp/Inv.antt =====
-- src/emu/interp.h: the registers after an instruction.
use rv8_riscv_ckpt.Base.{
  get_or-replicate, refl, ℕ, zero, suc, ◌%◌, ◌^◌, ◌<◌, ◌==◌, List, [], ◌∷◌, length, get_or, set,
  length-set, get_or-set_self, get_or-set_ne, ◌≡◌, ◌∙◌, Bool-cases, inl, inr, Option, none, some,
  arith,
}
use native.Mathlib.Nat.{mod-lt, one-le-pow}
use rv8_riscv_ckpt.Asm.Inst.{Decode}
use rv8_riscv_ckpt.Emu.Mmu.{Outcome}
use rv8_riscv_ckpt.Emu.Hart.{ireg_count, new_hart, Hart, reg, set_reg}
use rv8_riscv_ckpt.Emu.Interp.Ops.{Op, int_op}
use rv8_riscv_ckpt.Emu.Interp.Exec.{
  MmuOps, Executed, after_load, after_store, exec_op, exec_rv32, exec_with, is_rv64, exec_inst_rv32,
  exec_inst_rv64,
}

-- There are 32 registers, `x0` holds 0, and every register fits `w` bits.
abbrev pub IsHart : {U : Type 0} → ℕ → Hart U → Type 0
IsHart w h = (length h.ireg ≡ 32) × (reg h 0 ≡ 0) × ((i : ℕ) → reg h i < 2 ^ w)

get_or-set_below :
    (xs : List ℕ) (i v j b : ℕ)
    → ((k : ℕ) → get_or xs k 0 < b)
    → v < b
    → get_or (set xs i v) j 0 < b
get_or-set_below [] i v j b h below = h 0
get_or-set_below (x ∷ xs) zero v zero b h below = below
get_or-set_below (x ∷ xs) zero v (suc j) b h below = h (suc j)
get_or-set_below (x ∷ xs) (suc i) v zero b h below = h 0
get_or-set_below (x ∷ xs) (suc i) v (suc j) b h below =
    get_or-set_below xs i v j b (λ k. h (suc k)) below

pub set_reg-IsHart :
    {U : Type 0} (w rd val : ℕ) (h : Hart U) → IsHart w h → IsHart w (set_reg w rd val h)
unfolding set_reg
set_reg-IsHart w rd val h inv =
    let positive : 0 < 2 ^ w = one-le-pow w 2 (omega arith) in
    elim (Bool-cases (rd == 0)) [
      | inl zero_reg ↦
          let e : rd ≡ 0 = ground arith in
          rw (zero_reg, e)
            (
              length-set h.ireg 0 0 ∙ inv.0,
              get_or-set_self h.ireg 0 0 0 (omega (arith, inv.0)),
              λ i. get_or-set_below h.ireg 0 0 i (2 ^ w) inv.2 positive,
            )
      | inr other ↦ rw other (
        length-set h.ireg rd (val % 2 ^ w) ∙ inv.0,
        get_or-set_ne h.ireg rd 0 (val % 2 ^ w) 0 (λ e. ground arith) ∙ inv.1,
        λ i. get_or-set_below h.ireg rd (val % 2 ^ w) i (2 ^ w) inv.2 (mod-lt val positive),
      )
    ]

pub new_hart-IsHart : {U : Type 0} (w : ℕ) (mmu : U) → IsHart w (new_hart mmu)
new_hart-IsHart w mmu = (
  refl,
  refl,
  λ i. omega (arith, get_or-replicate {A = ℕ} ireg_count i 0, one-le-pow w 2 (omega arith)),
)

module _ {U : Type 0} (shift_count : ℕ → ℕ → ℕ) (mem : MmuOps U) (undef w : ℕ) where
  after_load-IsHart :
      (o : Outcome ℕ × U) (f : ℕ → ℕ) (dec : Decode) (pc_offset : ℕ) (h : Hart U)
      → IsHart w h
      → IsHart w (after_load shift_count mem undef w o f dec pc_offset h).1
  after_load-IsHart (Outcome.done t, u) f dec pc_offset h inv =
      set_reg-IsHart w dec.rd (f t) (record h { mmu = u }) inv
  after_load-IsHart (Outcome.raised cause va, u) f dec pc_offset h inv = inv
  after_load-IsHart (Outcome.skipped, u) f dec pc_offset h inv =
      set_reg-IsHart w dec.rd (f undef) (record h { mmu = u }) inv
  after_load-IsHart (Outcome.lost, u) f dec pc_offset h inv = inv
  after_load-IsHart (Outcome.panicked, u) f dec pc_offset h inv = inv

  after_store-IsHart :
      (o : Outcome Unit × U) (f : Hart U → Executed U) (h : Hart U)
      → IsHart w h
      → ((h' : Hart U) → IsHart w h' → IsHart w (f h').1)
      → IsHart w (after_store shift_count mem undef w o f h).1
  after_store-IsHart (Outcome.done t, u) f h inv rest = rest (record h { mmu = u }) inv
  after_store-IsHart (Outcome.raised cause va, u) f h inv rest = inv
  after_store-IsHart (Outcome.skipped, u) f h inv rest = rest (record h { mmu = u }) inv
  after_store-IsHart (Outcome.lost, u) f h inv rest = inv
  after_store-IsHart (Outcome.panicked, u) f h inv rest = inv

  exec_op-IsHart :
      (op : Op) (dec : Decode) (pc_offset : ℕ) (h : Hart U)
      → IsHart w h
      → IsHart w (exec_op shift_count mem undef w op dec pc_offset h).1
  unfolding exec_op
  exec_op-IsHart Op.lui dec pc_offset h inv = set_reg-IsHart w dec.rd _ h inv
  exec_op-IsHart Op.auipc dec pc_offset h inv = set_reg-IsHart w dec.rd _ h inv
  exec_op-IsHart Op.jal dec pc_offset h inv = set_reg-IsHart w dec.rd _ h inv
  exec_op-IsHart Op.jalr dec pc_offset h inv = set_reg-IsHart w dec.rd _ h inv
  exec_op-IsHart (Op.branch op) dec pc_offset h inv = inv
  exec_op-IsHart (Op.load op) dec pc_offset h inv = after_load-IsHart _ _ dec pc_offset h inv
  exec_op-IsHart (Op.store op) dec pc_offset h inv = after_store-IsHart _ _ h inv λ h' inv'. inv'
  exec_op-IsHart (Op.imm op) dec pc_offset h inv = set_reg-IsHart w dec.rd _ h inv
  exec_op-IsHart (Op.shift op) dec pc_offset h inv = set_reg-IsHart w dec.rd _ h inv
  exec_op-IsHart (Op.reg op) dec pc_offset h inv = set_reg-IsHart w dec.rd _ h inv
  exec_op-IsHart (Op.word op) dec pc_offset h inv = set_reg-IsHart w dec.rd _ h inv
  exec_op-IsHart (Op.mul_div op) dec pc_offset h inv = set_reg-IsHart w dec.rd _ h inv
  exec_op-IsHart (Op.mul_word op) dec pc_offset h inv = set_reg-IsHart w dec.rd _ h inv
  exec_op-IsHart (Op.lr size) dec pc_offset h inv =
      after_load-IsHart _ _ dec pc_offset (record h { lr = reg h dec.rs1 }) inv
  exec_op-IsHart (Op.sc size) dec pc_offset h inv = elim (Bool-cases (h.lr == reg h dec.rs1)) [
    | inl reserved ↦
        rw reserved (after_store-IsHart _ _ h inv λ h' inv'. set_reg-IsHart w dec.rd 0 h' inv')
    | inr lost ↦ rw lost (set_reg-IsHart w dec.rd 1 h inv)
  ]
  exec_op-IsHart (Op.amo size op) dec pc_offset h inv = after_load-IsHart _ _ dec pc_offset h inv
  exec_op-IsHart Op.float dec pc_offset h inv = inv
  exec_op-IsHart Op.float_long dec pc_offset h inv = inv

module _ {U : Type 0} (shift_count : ℕ → ℕ → ℕ) (mem : MmuOps U) (undef : ℕ) where
  exec_rv32-IsHart :
      (op : Op) (dec : Decode) (pc_offset : ℕ) (h : Hart U)
      → IsHart 32 h
      → IsHart 32 (exec_rv32 shift_count mem undef op dec pc_offset h).1
  unfolding exec_rv32
  exec_rv32-IsHart op dec pc_offset h inv = elim (Bool-cases (is_rv64 op)) [
    | inl wide ↦ rw wide inv
    | inr shared ↦ rw shared (exec_op-IsHart shift_count mem undef 32 op dec pc_offset h inv)
  ]

  exec_with-IsHart :
      (f : Op → Decode → ℕ → Hart U → Executed U) (w : ℕ) (o : Option Op)
      → (dec : Decode) (pc_offset : ℕ) (h : Hart U)
      → ((op : Op) → IsHart w (f op dec pc_offset h).1)
      → IsHart w h
      → IsHart w (exec_with shift_count mem undef f w o dec pc_offset h).1
  exec_with-IsHart f w none dec pc_offset h keeps inv = inv
  exec_with-IsHart f w (some op) dec pc_offset h keeps inv = keeps op

  -- Whatever the decoded instruction is, its fields included, whatever the memory answers, and however
  -- the instruction ends, with an exception or without: afterwards there are 32 registers, `x0` holds
  -- 0, and every register fits its 32 or 64 bits, if it was so before.
  pub exec_inst-IsHart :
      (dec : Decode) (pc_offset : ℕ) (h : Hart U)
      → ((IsHart 32 h) → IsHart 32 (exec_inst_rv32 shift_count mem undef dec pc_offset h).1)
        × ((IsHart 64 h) → IsHart 64 (exec_inst_rv64 shift_count mem undef dec pc_offset h).1)
  unfolding exec_inst_rv32 exec_inst_rv64
  exec_inst-IsHart dec pc_offset h = (
    λ inv.
        exec_with-IsHart (exec_rv32 shift_count mem undef) 32 (int_op dec.op) dec pc_offset h
          (λ op. exec_rv32-IsHart op dec pc_offset h inv) inv,
    λ inv.
        exec_with-IsHart (exec_op shift_count mem undef 64) 64 (int_op dec.op) dec pc_offset h
          (λ op. exec_op-IsHart shift_count mem undef 64 op dec pc_offset h inv) inv,
  )
