-- ===== src/Emu/Priv/Inv.antt =====
-- src/emu/processor-priv-1.9.h: the widths of the registers, through traps, returns and accesses.
use rv8_riscv_ckpt.Base.{
  ℕ, suc, ◌+◌, ◌-◌, ◌*◌, ◌/◌, ◌%◌, ◌^◌, ◌<◌, ◌≤◌, Bool, true, false, ◌==◌, if◌then◌else◌,
  bit_or_below, pow_add, ◌≡◌, refl, ap, ◌∙◌, Bool-cases, inl, inr, ◌⊎◌, arith,
}
use mathlib.Core.Path.{subst}
use native.Mathlib.Nat.{mod-lt, one-le-pow, div-lt_iff_lt-mul, mul-le-mul, pow-le-pow_right}
use rv8_riscv_ckpt.Emu.Priv.{Priv, put_reg, put_field, cause_word}
use rv8_riscv_ckpt.Emu.Priv.Field.{set_field}
use rv8_riscv_ckpt.Emu.Priv.Csr.{mstatus, mip}
use rv8_riscv_ckpt.Emu.Priv.Access.{reg_bits}

-- The mode is one of the four, and every register fits its width.
abbrev pub IsPriv : ℕ → Priv → Type 0
IsPriv w s =
    (s.mode ≤ 3)
    × (s.pc < 2 ^ w)
    × (s.badaddr < 2 ^ w)
    × (s.resetvec < 2 ^ w)
    × ((r : ℕ) → s.regs r < 2 ^ reg_bits w r)

set_field_below : (w k n v x : ℕ) → k + n ≤ w → x < 2 ^ w → set_field k n v x < 2 ^ w
unfolding set_field
set_field_below w k n v x h hx =
    let split : 2 ^ w ≡ 2 ^ (k + n) * 2 ^ (w - (k + n)) =
      ap (λ e. 2 ^ e) (omega (arith, h)) ∙ pow_add (k + n) (w - (k + n)) in
    let low : 2 ^ (k + n) ≡ 2 ^ k * 2 ^ n = pow_add k n in
    let positive : 0 < 2 ^ (k + n) = one-le-pow (k + n) 2 (omega arith) in
    let above : x / 2 ^ (k + n) < 2 ^ (w - (k + n)) =
      (div-lt_iff_lt-mul positive).1 (omega (arith, split)) in
    let hi : suc (x / 2 ^ (k + n)) * 2 ^ (k + n) ≤ 2 ^ (w - (k + n)) * 2 ^ (k + n) =
      mul-le-mul above (omega arith) in
    let fits : v % 2 ^ n < 2 ^ n = mod-lt v (one-le-pow n 2 (omega arith)) in
    let mid : suc (v % 2 ^ n) * 2 ^ k ≤ 2 ^ n * 2 ^ k = mul-le-mul fits (omega arith) in
    let lowest : x % 2 ^ k < 2 ^ k = mod-lt x (one-le-pow k 2 (omega arith)) in
    omega (arith, split, low, hi, mid, lowest)

pub put_reg-IsPriv :
    (w r v : ℕ) (s : Priv) → v < 2 ^ reg_bits w r → IsPriv w s → IsPriv w (put_reg r v s)
put_reg-IsPriv w r v s h inv = (
  inv.0,
  inv.1,
  inv.2,
  inv.3,
  λ q. elim (Bool-cases (q == r)) [
    | inl same ↦ let e : q ≡ r = ground arith in rw (same, e) h
    | inr other ↦ rw other (inv.4 q)
  ],
)

-- The words with fields, and the fields below bit 32.
abbrev IsWord : ℕ → Type 0
IsWord r = (r ≡ mstatus) ⊎ (r ≡ mip)

word_bits : (w r : ℕ) → IsWord r → reg_bits w r ≡ w
word_bits w r (inl e) = rw e refl
word_bits w r (inr e) = rw e refl

pub put_field-IsPriv :
    (w r k n v : ℕ) (s : Priv)
    → 32 ≤ w
    → IsWord r
    → k + n ≤ 32
    → IsPriv w s
    → IsPriv w (put_field r k n v s)
put_field-IsPriv w r k n v s wide word fits inv =
    put_reg-IsPriv w r (set_field k n v (s.regs r)) s
      (rw (word_bits w r word) (
        set_field_below w k n v (s.regs r) (omega arith)
          (subst (λ b. s.regs r < 2 ^ b) (word_bits w r word) (inv.4 r))))
      inv

pub cause_word_below :
    (w cause : ℕ) (interrupt : Bool) → 32 ≤ w → cause < 16 → cause_word w cause interrupt < 2 ^ w
cause_word_below w cause interrupt wide small =
    bit_or_below w cause (if interrupt then 2 ^ (w - 1) else 0) (omega (arith, large))
      (sign interrupt)
  where
    large : 2 ^ 4 ≤ 2 ^ w
    large = pow-le-pow_right (omega arith) {i = 4} {j = w} (omega arith)

    sign : (b : Bool) → (if b then 2 ^ (w - 1) else 0) < 2 ^ w
    sign true =
        let e : w ≡ w - 1 + 1 = omega (arith, wide) in
        let halves : 2 ^ w ≡ 2 ^ (w - 1) * 2 ^ 1 = ap (λ i. 2 ^ i) e ∙ pow_add (w - 1) 1 in
        omega (arith, halves, one-le-pow (w - 1) 2 (omega arith))
    sign false = one-le-pow w 2 (omega arith)
