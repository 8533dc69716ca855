-- ===== src/Asm/Switch/Told.antt =====
-- src/asm/switch.h: the switches that tell an instruction from another by the value of a field.
use rv8_riscv_ckpt.Base.{
  ℕ, Bool, true, false, not, ◌&&◌, ◌==◌, ◌≡◌, refl, Bool-cases, inl, inr, &&-true, arith, bit_and,
  bit_or, if◌then◌else◌,
}
use rv8_riscv_ckpt.Asm.Switch.Tree.{choose, find, Cases, select, Tree}
use rv8_riscv_ckpt.Asm.Switch.Fixed.{aside, select_fixed}

-- The opcode on the way of the fixed bits `x`, on which a switch that looks at a field takes its
-- `default`.
unfoldable mutual
  pub way : Tree → ℕ → ℕ → ℕ
  way (Tree.op o) x fields = o
  way (Tree.choice parts cs) x fields =
      if aside parts fields then way_in cs (select parts x) x fields else way_default cs x fields

  pub way_in : Cases → ℕ → ℕ → ℕ → ℕ
  way_in (Cases.otherwise t) key x fields = way t x fields
  way_in (Cases.case k t cs) key x fields =
      if key == k then way t x fields else way_in cs key x fields

  pub way_default : Cases → ℕ → ℕ → ℕ
  way_default (Cases.otherwise t) x fields = way t x fields
  way_default (Cases.case k t cs) x fields = way_default cs x fields

-- The word `w` misses the cases of those switches.
unfoldable mutual
  pub misses : Tree → ℕ → ℕ → ℕ → Bool
  misses (Tree.op o) x fields w = true
  misses (Tree.choice parts cs) x fields w =
      if aside parts fields
      then misses_in cs (select parts x) x fields w
      else misses_cases cs (select parts w) x fields w

  pub misses_in : Cases → ℕ → ℕ → ℕ → ℕ → Bool
  misses_in (Cases.otherwise t) key x fields w = misses t x fields w
  misses_in (Cases.case k t cs) key x fields w =
      if key == k then misses t x fields w else misses_in cs key x fields w

  pub misses_cases : Cases → ℕ → ℕ → ℕ → ℕ → Bool
  misses_cases (Cases.otherwise t) key x fields w = misses t x fields w
  misses_cases (Cases.case k t cs) key x fields w = not (key == k) && misses_cases cs key x fields w

module _ (x y fields : ℕ) (within : bit_and y fields ≡ y) where
  -- A word with these fixed bits that misses them takes that way.
  mutual
    unfolding way misses find

    pub find-way :
        (t : Tree) → misses t x fields (bit_or x y) ≡ true → find t (bit_or x y) ≡ way t x fields
    find-way (Tree.op o) h = refl
    find-way (Tree.choice parts cs) h = elim (Bool-cases (aside parts fields)) [
      | inl clear ↦
          rw (clear, select_fixed x y fields within parts clear)
            (choose-way cs (select parts x) (rw clear at h))
      | inr looks ↦ rw looks (choose-default cs (select parts (bit_or x y)) (rw looks at h))
    ]

    choose-way :
        (cs : Cases) (key : ℕ)
        → misses_in cs key x fields (bit_or x y) ≡ true
        → choose cs key (bit_or x y) ≡ way_in cs key x fields
    choose-way (Cases.otherwise t) key h = find-way t h
    choose-way (Cases.case k t cs) key h = elim (Bool-cases (key == k)) [
      | inl same ↦ rw same (find-way t (rw same at h))
      | inr other ↦ rw other (choose-way cs key (rw other at h))
    ]

    choose-default :
        (cs : Cases) (key : ℕ)
        → misses_cases cs key x fields (bit_or x y) ≡ true
        → choose cs key (bit_or x y) ≡ way_default cs x fields
    choose-default (Cases.otherwise t) key h = find-way t h
    choose-default (Cases.case k t cs) key h =
        let both = &&-true (not (key == k)) (misses_cases cs key x fields (bit_or x y)) h in
        let other : (key == k) ≡ false = ground arith in rw other (choose-default cs key both.1)
