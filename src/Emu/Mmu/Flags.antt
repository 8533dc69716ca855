-- ===== src/Emu/Mmu/Flags.antt =====
-- src/emu/mmu-soft.h: the tests of `walk_page_table` on the flags of an entry, bit by bit.
use rv8_riscv_ckpt.Base.{
  ℕ, ◌-◌, ◌/◌, ◌%◌, ◌^◌, ◌<◌, true, false, ◌||◌, bit, bit-or, bit-and, bit-mod, bit-div, bit-mul,
  bit_and, bit_or, bit_and-power, bit_or_below, bit_complement, ◌≡◌, ap, arith,
}
use rv8_riscv_ckpt.Emu.Pte.{Ptm, flags, ppn}
use rv8_riscv_ckpt.Emu.Mmu.Walk.{MmuOp, ad_flags, is_pointer, is_invalid, touched}

-- Valid; readable or executable; and writable only if readable.
abbrev pub IsPermission : ℕ → Type 0
IsPermission f =
    (bit f 0 ≡ true) × ((bit f 1 || bit f 3) ≡ true) × (bit f 2 ≡ true → bit f 1 ≡ true)

pub bit-flags : (pte i : ℕ) → i < 10 → bit (flags pte) i ≡ bit pte i
bit-flags pte i h = ground (arith, bit-mod pte 10 i)

pub not_pointer :
    (pte : ℕ) → is_pointer pte ≡ false → (bit pte 1 || (bit pte 2 || bit pte 3)) ≡ true
unfolding is_pointer
not_pointer pte h =
    let z = bit_or (bit_or (pte / 2 ^ 1) (pte / 2 ^ 2)) (pte / 2 ^ 3) in
    ground (
      arith,
      bit_and-power 0 z,
      bit-or (bit_or (pte / 2 ^ 1) (pte / 2 ^ 2)) (pte / 2 ^ 3) 0,
      bit-or (pte / 2 ^ 1) (pte / 2 ^ 2) 0,
      bit-div pte 1 0,
      bit-div pte 2 0,
      bit-div pte 3 0,
    )

pub not_invalid :
    (pte : ℕ)
    → is_invalid pte ≡ false
    → (bit (flags pte) 0 ≡ true) × (bit (flags pte) 2 ≡ true → bit (flags pte) 1 ≡ true)
unfolding is_invalid
not_invalid pte h =
    let f = flags pte in
    let inv = 2 ^ 32 - 1 - f in
    let small : f < 2 ^ 10 = omega arith in
    let rest = bit_and (inv / 2 ^ 1) (f / 2 ^ 2) in
    ground (
      arith,
      bit_and-power 0 (bit_or inv rest),
      bit-or inv rest 0,
      bit-and (inv / 2 ^ 1) (f / 2 ^ 2) 0,
      bit-div f 2 0,
      bit-div inv 1 0,
      bit_complement 32 f 0 (omega arith),
      bit_complement 32 f 1 (omega arith),
    )

pub ad_flags_below : (op : MmuOp) → ad_flags op < 2 ^ 10
ad_flags_below MmuOp.op_fetch = omega arith
ad_flags_below MmuOp.op_load = omega arith
ad_flags_below MmuOp.op_store = omega arith

pub ad_flags_low : (op : MmuOp) (i : ℕ) → i < 6 → bit (ad_flags op) i ≡ false
ad_flags_low MmuOp.op_fetch i h = ground (arith, bit-mul 1 6 i)
ad_flags_low MmuOp.op_load i h = ground (arith, bit-mul 1 6 i)
ad_flags_low MmuOp.op_store i h = ground (arith, bit-mul 3 6 i)

pub flags-touched :
    (op : MmuOp) (pte : ℕ) → flags (touched op pte) ≡ bit_or (flags pte) (ad_flags op)
flags-touched op pte =
    let small : bit_or (flags pte) (ad_flags op) < 2 ^ 10 =
      bit_or_below 10 (flags pte) (ad_flags op) (omega arith) (ad_flags_below op) in
    omega arith

pub ppn-touched : (ptm : Ptm) (op : MmuOp) (pte : ℕ) → ppn ptm (touched op pte) ≡ ppn ptm pte
ppn-touched ptm op pte =
    let small : bit_or (flags pte) (ad_flags op) < 2 ^ 10 =
      bit_or_below 10 (flags pte) (ad_flags op) (omega arith) (ad_flags_below op) in
    ap (λ n. n % 2 ^ ptm.ppn_bits) (omega arith)

pub IsPermission-touched :
    (op : MmuOp) (f : ℕ) → IsPermission f → IsPermission (bit_or f (ad_flags op))
IsPermission-touched op f h = ground (
  arith,
  bit-or f (ad_flags op) 0,
  bit-or f (ad_flags op) 1,
  bit-or f (ad_flags op) 2,
  bit-or f (ad_flags op) 3,
  ad_flags_low op 0,
  ad_flags_low op 1,
  ad_flags_low op 2,
  ad_flags_low op 3,
)
