-- ===== src/Emu/Mmu/Offset.antt =====
-- src/emu/mmu-soft.h: `page_translate_offset` joins a page with an offset.
use rv8_riscv_ckpt.Base.{ℕ, ◌+◌, ◌*◌, ◌/◌, ◌%◌, ◌^◌, ◌<◌, ◌≡◌, ◌∙◌, arith, bit_and-ones, pow_add}
use native.Mathlib.Nat.{
  mod-eq_of_lt, mod-lt, one-le-pow, div-add-mod, mul-add-div_right, mul-add-mod_self_right,
  div-eq_of_lt,
}
use rv8_riscv_ckpt.Emu.Pma.{page_shift, Param}
use rv8_riscv_ckpt.Emu.Pte.{Ptm}
use rv8_riscv_ckpt.Emu.Mmu.Walk.{page_translate_offset}

-- For an aligned page of any level whose address fits a register, the translated address lies in
-- that page, at the offset that the virtual address has in its own.
pub page_translate_offset_lem :
    (p : Param) (ptm : Ptm) (n va level : ℕ)
    → n % 2 ^ (ptm.bits * level) ≡ 0
    → n * 2 ^ page_shift < 2 ^ p.ux_bits
    → (page_translate_offset p ptm n va level / 2 ^ (ptm.bits * level + page_shift)
        ≡ n / 2 ^ (ptm.bits * level))
      × (page_translate_offset p ptm n va level % 2 ^ (ptm.bits * level + page_shift)
          ≡ va % 2 ^ (ptm.bits * level + page_shift))
unfolding page_translate_offset
page_translate_offset_lem p ptm n va level aligned fits =
    let s = ptm.bits * level + page_shift in
    let q = n / 2 ^ (ptm.bits * level) in
    let whole : n ≡ q * 2 ^ (ptm.bits * level) =
      omega (arith, div-add-mod n (2 ^ (ptm.bits * level)), aligned) in
    let e : n % 2 ^ p.ux_bits * 2 ^ page_shift % 2 ^ p.ux_bits ≡ q * 2 ^ s =
      rw
        (mod-eq_of_lt (fits_lower n fits), mod-eq_of_lt fits, pow_add (ptm.bits * level) page_shift)
        (omega (arith, whole)) in
    let low = bit_and-ones s va in
    let bound = mod-lt va (one-le-pow s 2 (omega arith)) in
    rw (e, low) (quotient q (va % 2 ^ s) s bound, remainder q (va % 2 ^ s) s bound)
  where
    fits_lower : (n : ℕ) → n * 2 ^ page_shift < 2 ^ p.ux_bits → n < 2 ^ p.ux_bits
    fits_lower n h = omega arith

    quotient : (q r s : ℕ) → r < 2 ^ s → (q * 2 ^ s + r) / 2 ^ s ≡ q
    quotient q r s h =
        omega (arith, mul-add-div_right (one-le-pow s 2 (omega arith)) q r, div-eq_of_lt h)

    remainder : (q r s : ℕ) → r < 2 ^ s → (q * 2 ^ s + r) % 2 ^ s ≡ r
    remainder q r s h = mul-add-mod_self_right q (2 ^ s) r ∙ mod-eq_of_lt h
