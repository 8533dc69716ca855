-- ===== src/Emu/Priv/CsrWidth.antt =====
-- src/emu/processor-impl.h: the width of a register after an access to it.
use rv8_riscv_ckpt.Base.{
  ◌&◌, ℕ, ◌-◌, ◌*◌, ◌%◌, ◌^◌, ◌<◌, Bool, true, false, ◌==◌, if◌then◌else◌, bit_and, bit_or,
  bit_or_below, bit_and_below, ◌≡◌, refl, Bool-cases, inl, inr, Option, none, some, List, [], ◌∷◌,
  All, entry, arith,
}
use mathlib.Core.Path.{subst}
use native.Mathlib.Nat.{mod-lt, one-le-pow}
use rv8_riscv_ckpt.Emu.Priv.{Priv, put_reg}
use rv8_riscv_ckpt.Emu.Priv.Csr.{time}
use rv8_riscv_ckpt.Emu.Priv.Access.{
  CsrOp, Access, set_csr, get_csr, set_csr_hi, get_csr_hi, write_csr, write_csr_hi, readonly,
  reg_bits, access_by, reg_of, accessed, accesses, update_time, inst_csr,
}
use rv8_riscv_ckpt.Emu.Priv.Inv.{IsPriv, put_reg-IsPriv}

write_csr_below :
    (b : ℕ) (op : CsrOp) (reg mask bits value : ℕ)
    → reg < 2 ^ b
    → bits < 2 ^ b
    → write_csr b op reg mask bits value < 2 ^ b
write_csr_below b CsrOp.csr_rw reg mask bits value h g =
    bit_or_below b (bit_and reg (2 ^ b - 1 - mask)) bits (bit_and_below b reg (2 ^ b - 1 - mask) h)
      g
write_csr_below b CsrOp.csr_rs reg mask bits value h g = elim (Bool-cases (value == 0)) [
  | inl nil ↦ rw nil h
  | inr given ↦ rw given (bit_or_below b reg bits h g)
]
write_csr_below b CsrOp.csr_rc reg mask bits value h g = elim (Bool-cases (value == 0)) [
  | inl nil ↦ rw nil h
  | inr given ↦ rw given (bit_and_below b reg (2 ^ b - 1 - bits) h)
]

set_csr_below :
    (b rd mode : ℕ) (op : CsrOp) (csr reg value write_mask read_mask shift : ℕ)
    → reg < 2 ^ b
    → (set_csr b rd mode op csr reg value write_mask read_mask shift).1 < 2 ^ b
unfolding set_csr
set_csr_below b rd mode op csr reg value write_mask read_mask shift h =
    elim (Bool-cases (readonly csr)) [
      | inl fixed ↦ rw fixed h
      | inr writable ↦ rw writable (
          write_csr_below b op reg (write_mask * 2 ^ shift % 2 ^ b)
            (bit_and value write_mask * 2 ^ shift % 2 ^ b) value h
            (mod-lt (bit_and value write_mask * 2 ^ shift) (one-le-pow b 2 (omega arith))))
    ]

write_csr_hi_below :
    (op : CsrOp) (reg value : ℕ) → reg < 2 ^ 64 → write_csr_hi op reg value < 2 ^ 64
write_csr_hi_below CsrOp.csr_rw reg value h =
    bit_or_below 64 (value * 2 ^ 32 % 2 ^ 64) (reg % 2 ^ 32) (omega arith) (omega arith)
write_csr_hi_below CsrOp.csr_rs reg value h = elim (Bool-cases (value == 0)) [
  | inl nil ↦ rw nil h
  | inr given ↦ rw given (bit_or_below 64 reg (value * 2 ^ 32 % 2 ^ 64) h (omega arith))
]
write_csr_hi_below CsrOp.csr_rc reg value h = elim (Bool-cases (value == 0)) [
  | inl nil ↦ rw nil h
  | inr given ↦
      rw given (bit_and_below 64 reg (bit_or (2 ^ 64 - 1 - value * 2 ^ 32 % 2 ^ 64) (2 ^ 32 - 1)) h)
]

set_csr_hi_below :
    (w rd mode : ℕ) (op : CsrOp) (csr reg value : ℕ)
    → reg < 2 ^ 64
    → (set_csr_hi w rd mode op csr reg value).1 < 2 ^ 64
unfolding set_csr_hi
set_csr_hi_below w rd mode op csr reg value h = elim (Bool-cases (readonly csr)) [
  | inl fixed ↦ rw fixed h
  | inr writable ↦ rw writable (write_csr_hi_below op reg value h)
]

-- The upper half that is set is that of a register of 64 bits.
abbrev IsWide : ℕ → Access → Type 0
IsWide w (Access.set_hi reg) = reg_bits w reg ≡ 64
IsWide w (Access.set_user reg) = reg_bits w reg ≡ 64
IsWide w _ = Unit

access_by_below :
    (w : ℕ) (a : Access) (rd : ℕ) (op : CsrOp) (csr value : ℕ) (s : Priv)
    → IsWide w a
    → IsPriv w s
    → (access_by w a rd op csr value s).1 < 2 ^ reg_bits w (reg_of a)
unfolding get_csr get_csr_hi
access_by_below w (Access.set reg wm rm) rd op csr value s wide inv =
    set_csr_below (reg_bits w reg) rd s.mode op csr (s.regs reg) value wm rm 0 (inv.4 reg)
access_by_below w (Access.set_user reg) rd op csr value s wide inv =
    set_csr_below (reg_bits w reg) rd 0 op csr (s.regs reg) value (2 ^ 64 - 1) (2 ^ 64 - 1) 0
      (inv.4 reg)
access_by_below w (Access.get reg) rd op csr value s wide inv = inv.4 reg
access_by_below w (Access.get_user reg) rd op csr value s wide inv = inv.4 reg
access_by_below w (Access.set_hi reg) rd op csr value s wide inv = rw wide (
    set_csr_hi_below w rd s.mode op csr (s.regs reg) value
      (subst (λ b. s.regs reg < 2 ^ b) wide (inv.4 reg)))
access_by_below w (Access.get_hi reg) rd op csr value s wide inv = inv.4 reg

-- What holds of the entries of a table holds of the one that is found.
entry-All :
    (P : Access → Type 0) (k : ℕ) (m : List (ℕ × Access)) (a : Access)
    → All (λ e. P e.1) m
    → entry k m ≡ some a
    → P a
entry-All P k [] a h e = absurd (ground arith)
entry-All P k ((j, b) ∷ m) a h e = elim (Bool-cases (j == k)) [
  | inl here ↦ let same : b ≡ a = ground arith in subst P same h.0
  | inr further ↦ let rest : entry k m ≡ some a = ground arith in entry-All P k m a h.1 rest
]

accesses-IsWide : (w : ℕ) → All (λ e. IsWide w e.1) (accesses w)
accesses-IsWide w =
    tt & tt & tt & tt & tt & tt & tt & tt & tt & tt & tt & tt & tt & tt & tt & tt & tt & tt & tt
    & tt & tt & tt & tt & tt & tt & tt & tt & tt & tt & tt & refl & tt & refl & refl & tt & tt & tt
    & tt & tt & tt & tt & tt & tt & tt & tt & tt

abbrev KeptBy : ℕ → Option (Option ℕ × Priv) → Type 0
KeptBy w none = Unit
KeptBy w (some r) = IsPriv w r.1

put_accessed :
    (w : ℕ) (o : Option Access) (rd : ℕ) (op : CsrOp) (csr value : ℕ) (s : Priv)
    → ((a : Access) → o ≡ some a → IsWide w a)
    → IsPriv w s
    → (r : Option ℕ × Priv) → accessed w o rd op csr value s ≡ some r
    → IsPriv w r.1
put_accessed w none rd op csr value s wide inv r e = absurd (ground arith)
put_accessed w (some a) rd op csr value s wide inv r e =
    subst (λ o. KeptBy w o) e
      (put_reg-IsPriv w (reg_of a) (access_by w a rd op csr value s).1 s
        (access_by_below w a rd op csr value s (wide a refl) inv) inv)

pub inst_csr-IsPriv :
    (w now rd : ℕ) (op : CsrOp) (csr value : ℕ) (s : Priv)
    → now < 2 ^ 64
    → IsPriv w s
    → (r : Option ℕ × Priv) → inst_csr w now rd op csr value s ≡ some r
    → IsPriv w r.1
unfolding inst_csr
inst_csr-IsPriv w now rd op csr value s small inv =
    put_accessed w (entry csr (accesses w)) rd op csr value (update_time csr now s)
      (λ a e. entry-All (IsWide w) csr (accesses w) a (accesses-IsWide w) e) (timed (csr == time))
  where
    timed : (b : Bool) → IsPriv w (if b then put_reg time now s else s)
    timed true = put_reg-IsPriv w time now s small inv
    timed false = inv
