-- ===== src/Asm/Switch/Fixed.antt =====
-- src/asm/switch.h: the switches that only look at the fixed bits of an instruction.
use rv8_riscv_ckpt.Base.{
  if◌then◌else◌, inr, inl, Bool-cases, [], ◌∷◌, ap, bit_ext, bit-or, bit-div, refl, bit-and,
  bit-mul, ==_iff, bit-zero, ap₂, ◌∙◌, &&-true, List, [], ◌∷◌, ap,
}
use rv8_riscv_ckpt.Asm.Switch.Tree.{choose, find, Cases, select, Tree}
use rv8_riscv_ckpt.Base.{
  false, leb, arith, ◌-◌, ◌+◌, bit, ◌==◌, ◌/◌, bit_or, ◌^◌, ◌&&◌, ◌≡◌, ◌*◌, true, bit_and, Bool, ℕ,
  List,
}

-- The parts that a switch looks at stay clear of the fields.
unfoldable pub aside : List (ℕ × ℕ) → ℕ → Bool
aside [] fields = true
aside ((shift, m) ∷ parts) fields = bit_and (m * 2 ^ shift) fields == 0 && aside parts fields

-- On the way that the fixed bits `x` take, every switch stays clear of the fields.
unfoldable mutual
  pub fixed : Tree → ℕ → ℕ → Bool
  fixed (Tree.op o) x fields = true
  fixed (Tree.choice parts cs) x fields =
      aside parts fields && fixed_in cs (select parts x) x fields

  pub fixed_in : Cases → ℕ → ℕ → ℕ → Bool
  fixed_in (Cases.otherwise t) key x fields = fixed t x fields
  fixed_in (Cases.case k t cs) key x fields =
      if key == k then fixed t x fields else fixed_in cs key x fields

part_fixed :
    (shift m x y fields : ℕ)
    → bit_and (m * 2 ^ shift) fields ≡ 0
    → bit_and y fields ≡ y
    → bit_and (bit_or x y / 2 ^ shift) m ≡ bit_and (x / 2 ^ shift) m
part_fixed shift m x y fields clear within = bit_ext _ _ same
  where
    same : (i : ℕ) → bit (bit_and (bit_or x y / 2 ^ shift) m) i ≡ bit (bit_and (x / 2 ^ shift) m) i
    same i =
        let j = i + shift in
        let back : j - shift ≡ i = omega arith in
        let above : leb shift j ≡ true = ground arith in
        let none : bit (bit_and (m * 2 ^ shift) fields) j ≡ false =
          ap (λ (t : ℕ). bit t j) clear ∙ bit-zero j in
        let inside : bit (bit_and y fields) j ≡ bit y j = ap (λ (t : ℕ). bit t j) within in
        let m_bit : bit (m * 2 ^ shift) j ≡ bit m i = bit-mul m shift j ∙ rw (above, back) refl in
        rw
          (
            bit-and (bit_or x y / 2 ^ shift) m i,
            bit-and (x / 2 ^ shift) m i,
            bit-div (bit_or x y) shift i,
            bit-div x shift i,
            bit-or x y j,
          )
          (ground
            (arith, none, inside, m_bit, bit-and (m * 2 ^ shift) fields j, bit-and y fields j))

module _ (x y fields : ℕ) (within : bit_and y fields ≡ y) where
  pub select_fixed :
      (parts : List (ℕ × ℕ))
      → aside parts fields ≡ true
      → select parts (bit_or x y) ≡ select parts x
  unfolding aside select
  select_fixed [] h = refl
  select_fixed ((shift, m) ∷ parts) h =
      let both = &&-true (bit_and (m * 2 ^ shift) fields == 0) (aside parts fields) h in
      ap₂ (λ a b. bit_or a b)
        (part_fixed shift m x y fields ((==_iff (bit_and (m * 2 ^ shift) fields) 0).0 both.0)
          within)
        (select_fixed parts both.1)

  -- Such a way is taken by every instruction with these fixed bits.
  mutual
    unfolding fixed find

    pub find-fixed : (t : Tree) → fixed t x fields ≡ true → find t (bit_or x y) ≡ find t x
    find-fixed (Tree.op o) h = refl
    find-fixed (Tree.choice parts cs) h =
        let both = &&-true (aside parts fields) (fixed_in cs (select parts x) x fields) h in
        rw (select_fixed parts both.0) (choose-fixed cs (select parts x) both.1)

    choose-fixed :
        (cs : Cases) (key : ℕ)
        → fixed_in cs key x fields ≡ true
        → choose cs key (bit_or x y) ≡ choose cs key x
    choose-fixed (Cases.otherwise t) key h = find-fixed t h
    choose-fixed (Cases.case k t cs) key h = elim (Bool-cases (key == k)) [
      | inl same ↦ rw same (find-fixed t (rw same at h))
      | inr other ↦ rw other (choose-fixed cs key (rw other at h))
    ]
