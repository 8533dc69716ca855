-- ===== src/Emu/Interp/Jumps.antt =====
-- src/emu/interp.h and src/emu/processor-runloop.h: the program counter after a jump or a branch.
use rv8_riscv_ckpt.Base.{
  difference, ℕ, suc, ◌+◌, ◌-◌, ◌*◌, ◌/◌, ◌%◌, ◌^◌, ◌<◌, Bool, true, false, not, ◌&&◌, ◌==◌, ltb,
  leb, if◌then◌else◌, bit_and, ◌≡◌, refl, sym, ap, ◌∙◌, Bool-cases, inl, inr, arith,
}
use rv8_riscv_ckpt.Base.{bit, bit_ext, bit-and, bit-mod, bit-mul, bit-div, bit-one, bit_complement}
use native.Mathlib.Nat.{pow-succ', one-le-pow, mod-lt, mod-eq_of_lt, mul-add-mod_self_right}
use rv8_riscv_ckpt.Asm.Inst.{Decode}
use rv8_riscv_ckpt.Emu.Mmu.{Outcome}
use rv8_riscv_ckpt.Emu.Hart.{Hart, reg, set_reg}
use rv8_riscv_ckpt.Emu.Interp.Word.{less, minus}
use rv8_riscv_ckpt.Emu.Interp.Ops.{BranchOp, Op}
use rv8_riscv_ckpt.Emu.Interp.Exec.{MmuOps, Executed, exec_op, branch_taken, imm_of}

-- `P::pc += new_offset`, of `w` bits.
unfoldable pub advance : {U : Type 0} → ℕ → ℕ → Hart U → Hart U
advance w new_offset h = record h { pc = (h.pc + new_offset) % 2 ^ w }

-- The order of signed numbers: by sign first, and by pattern within a sign.
unfoldable pub signed_before : ℕ → ℕ → ℕ → Bool
signed_before w x y =
    if leb (2 ^ (w - 1)) x
    then (if leb (2 ^ (w - 1)) y then ltb x y else true)
    else (if leb (2 ^ (w - 1)) y then false else ltb x y)

turned_over : (p x : ℕ) → x < 2 * p → (x + p) % (2 * p) ≡ (if leb p x then x - p else x + p)
turned_over p x h = elim (Bool-cases (leb p x)) [
  | inl negative ↦
      let e : x + p ≡ 1 * (2 * p) + (x - p) = ground arith in
      rw negative (
        ap (λ n. n % (2 * p)) e
        ∙ mul-add-mod_self_right 1 (2 * p) (x - p)
        ∙ mod-eq_of_lt (ground arith))
  | inr positive ↦ rw positive (mod-eq_of_lt (ground arith))
]

-- `a < b` of signed numbers is the signed order.
pub less_lem :
    (w x y : ℕ) → x < 2 ^ suc w → y < 2 ^ suc w → less (suc w) x y ≡ signed_before (suc w) x y
unfolding less signed_before
less_lem w x y hx hy =
    let two : 2 ^ suc w ≡ 2 * 2 ^ w = pow-succ' 2 w in
    let same : suc w - 1 ≡ w = omega arith in
    let bx : x < 2 * 2 ^ w = omega (arith, two) in
    let by : y < 2 * 2 ^ w = omega (arith, two) in
    rw (same, two) (ground (arith, turned_over (2 ^ w) x bx, turned_over (2 ^ w) y by))

clear_lowest : (k t : ℕ) → t < 2 ^ suc k → bit_and t (2 ^ suc k - 2) ≡ t - t % 2
clear_lowest k t h = bit_ext _ _ same ∙ e
  where
    positive : 1 < 2 ^ suc k
    positive = omega (arith, pow-succ' 2 k, one-le-pow k 2 (omega arith))

    e : t / 2 ^ 1 * 2 ^ 1 ≡ t - t % 2
    e = omega arith

    f : 2 ^ suc k - 2 ≡ 2 ^ suc k - 1 - 1
    f = omega arith

    same : (i : ℕ) → bit (bit_and t (2 ^ suc k - 2)) i ≡ bit (t / 2 ^ 1 * 2 ^ 1) i
    same i =
        let below : (ltb i (suc k) && bit t i) ≡ bit t i =
          sym (bit-mod t (suc k) i) ∙ ap (λ z. bit z i) (mod-eq_of_lt h) in
        let ones = bit_complement (suc k) 1 i positive in
        rw
          (
            f,
            bit-mul (t / 2 ^ 1) 1 i,
            bit-and t (2 ^ suc k - 1 - 1) i,
            ones,
            bit-one i,
            bit-div t 1 (i - 1),
          )
          (elim (Bool-cases (i == 0)) [
            | inl lowest ↦ ground arith
            | inr higher ↦ let g : i - 1 + 1 ≡ i = ground arith in rw g (ground (arith, below))
          ])

even_target :
    (p t pc : ℕ)
    → t < 2 * p
    → pc < 2 * p
    → pc % 2 ≡ 0
    → (pc + ((t + (2 * p - pc)) % (2 * p) - (t + (2 * p - pc)) % (2 * p) % 2)) % (2 * p) ≡ t - t % 2
even_target p t pc ht hpc even = rw (difference (2 * p) t pc ht hpc) (elim (Bool-cases (leb pc t)) [
  | inl above ↦
      let e : pc + (t - pc - (t - pc) % 2) ≡ t - t % 2 = ground arith in
      rw (above, e) (mod-eq_of_lt (omega arith))
  | inr below ↦
      let e : pc + (t + (2 * p - pc) - (t + (2 * p - pc)) % 2) ≡ 1 * (2 * p) + (t - t % 2) =
        ground arith in
      rw (below, e) (mul-add-mod_self_right 1 (2 * p) (t - t % 2) ∙ mod-eq_of_lt (omega arith))
])

-- The offset that `jalr` computes leads to the target with its lowest bit cleared.
jump_target :
    (k t pc : ℕ)
    → t < 2 ^ suc k
    → pc < 2 ^ suc k
    → pc % 2 ≡ 0
    → (pc + bit_and (minus (suc k) t pc) (2 ^ suc k - 2)) % 2 ^ suc k ≡ t - t % 2
unfolding minus
jump_target k t pc ht hpc even =
    let two : 2 ^ suc k ≡ 2 * 2 ^ k = pow-succ' 2 k in
    let below : minus (suc k) t pc < 2 ^ suc k =
      mod-lt (t + (2 ^ suc k - pc)) (one-le-pow (suc k) 2 (omega arith)) in
    ap (λ n. (pc + n) % 2 ^ suc k) (clear_lowest k (minus (suc k) t pc) below)
    ∙ rw two (even_target (2 ^ k) t pc (omega (arith, two)) (omega (arith, two)) even)

-- The offset of an instruction that ends without an exception.
abbrev pub offset_of : {U : Type 0} → ℕ → Executed U → ℕ
offset_of d (Outcome.done pc_offset, h) = pc_offset
offset_of d (_, h) = d

choose :
    (m pc i o : ℕ) (b c : Bool)
    → b ≡ c
    → (pc + (if b then i else o)) % m ≡ (if c then (pc + i) % m else (pc + o) % m)
choose m pc i o b true e = rw e refl
choose m pc i o b false e = rw e refl

choose_not :
    (m pc i o : ℕ) (b c : Bool)
    → b ≡ c
    → (pc + (if not b then i else o)) % m ≡ (if c then (pc + o) % m else (pc + i) % m)
choose_not m pc i o b true e = rw e refl
choose_not m pc i o b false e = rw e refl

module _ {U : Type 0} (shift_count : ℕ → ℕ → ℕ) (mem : MmuOps U) (undef k : ℕ) where
  -- The program counter after an instruction.
  unfoldable pub next_pc : Op → Decode → ℕ → Hart U → ℕ
  next_pc op dec pc_offset h =
      (advance (suc k) (offset_of 0 (exec_op shift_count mem undef (suc k) op dec pc_offset h))
        h).pc

  -- From an even program counter, `jalr` goes to the sum of the register and the immediate with its
  -- lowest bit cleared, `jal` goes to the sum of the program counter and the immediate, and both leave
  -- the address of the next instruction in `rd`. The branches `blt` and `bge` go to the sum of the
  -- program counter and the immediate if the first register is below the second as a signed number,
  -- or is not, and to the next instruction otherwise. Registers have any number of bits from 1 on.
  pub next_pc_lem :
      (dec : Decode) (pc_offset : ℕ) (h : Hart U)
      → h.pc < 2 ^ suc k
      → h.pc % 2 ≡ 0
      → reg h dec.rs1 < 2 ^ suc k
      → reg h dec.rs2 < 2 ^ suc k
      → (next_pc Op.jalr dec pc_offset h
          ≡ (reg h dec.rs1 + imm_of (suc k) dec) % 2 ^ suc k
            - (reg h dec.rs1 + imm_of (suc k) dec) % 2 ^ suc k % 2)
        × ((exec_op shift_count mem undef (suc k) Op.jalr dec pc_offset h).1
            ≡ set_reg (suc k) dec.rd (h.pc + pc_offset) h)
        × (next_pc Op.jal dec pc_offset h ≡ (h.pc + imm_of (suc k) dec) % 2 ^ suc k)
        × ((exec_op shift_count mem undef (suc k) Op.jal dec pc_offset h).1
            ≡ set_reg (suc k) dec.rd (h.pc + pc_offset) h)
        × (next_pc (Op.branch BranchOp.blt) dec pc_offset h ≡ (
            if signed_before (suc k) (reg h dec.rs1) (reg h dec.rs2)
            then (h.pc + imm_of (suc k) dec) % 2 ^ suc k
            else (h.pc + pc_offset) % 2 ^ suc k))
        × (next_pc (Op.branch BranchOp.bge) dec pc_offset h ≡ (
            if signed_before (suc k) (reg h dec.rs1) (reg h dec.rs2)
            then (h.pc + pc_offset) % 2 ^ suc k
            else (h.pc + imm_of (suc k) dec) % 2 ^ suc k))
  unfolding exec_op advance branch_taken next_pc
  next_pc_lem dec pc_offset h hpc even h1 h2 =
      let target = (reg h dec.rs1 + imm_of (suc k) dec) % 2 ^ suc k in
      let below : target < 2 ^ suc k =
        mod-lt (reg h dec.rs1 + imm_of (suc k) dec) (one-le-pow (suc k) 2 (omega arith)) in
      let ordered = less_lem k (reg h dec.rs1) (reg h dec.rs2) h1 h2 in
      (
        jump_target k target h.pc below hpc even,
        refl,
        refl,
        refl,
        choose (2 ^ suc k) h.pc (imm_of (suc k) dec) pc_offset _ _ ordered,
        choose_not (2 ^ suc k) h.pc (imm_of (suc k) dec) pc_offset _ _ ordered,
      )
