-- ===== src/Emu/Mmu/Leaf.antt =====
-- src/emu/mmu-soft.h: what `walk_page_table` promises of the entry that it finds.
use rv8_riscv_ckpt.Base.{
  zero, suc, Option-cases, ◌≤◌, ◌+◌, suc, bit_and-ones, ℕ, ◌-◌, ◌*◌, ◌/◌, ◌%◌, ◌^◌, false, ◌==◌,
  ==_iff, Bool-cases, bit_and-bit_or, bit_and, ◌≡◌, refl, inl, inr, arith,
}
use mathlib.Core.Path.{subst}
use rv8_riscv_ckpt.Emu.Pma.{page_shift, Param}
use rv8_riscv_ckpt.Emu.Pte.{Ptm, flags, ppn}
use rv8_riscv_ckpt.Emu.Bus.{Bus}
use rv8_riscv_ckpt.Emu.Mmu.Walk.{
  walk_page_table, walk_from, has, WalkEnd, round, finish, examine, MmuOp, ad_flags,
  page_translate_offset, is_pointer, is_invalid, Round, touched, take_leaf,
}
use rv8_riscv_ckpt.Emu.Mmu.Flags.{
  IsPermission, bit-flags, not_pointer, not_invalid, flags-touched, ppn-touched,
  IsPermission-touched,
}

module _ (p : Param) (ptm : Ptm) (va : ℕ) (op : MmuOp) where
  -- A leaf at `level`: it gives permission, its accessed flag and for a store its dirty flag are set,
  -- a superpage is aligned, and `pa` is the address in its page.
  abbrev pub IsLeaf : ℕ → ℕ → ℕ → Type 0
  IsLeaf level pte pa =
      IsPermission (flags pte)
      × (bit_and (flags pte) (ad_flags op) ≡ ad_flags op)
      × (ppn ptm pte % 2 ^ (ptm.bits * level) ≡ 0)
      × (pa ≡ page_translate_offset p ptm (ppn ptm pte) va level)

  -- What a round may find.
  IsFound : ℕ → Round → Type 0
  IsFound level (Round.leaf pte pa) = IsLeaf level pte pa
  IsFound level _ = Unit

  -- How a walk from `level` may end.
  IsEnd : ℕ → WalkEnd → Type 0
  IsEnd level (WalkEnd.found pte l pa) = (l ≤ level) × IsLeaf l pte pa
  IsEnd level _ = Unit

module _ {M : Type 0} (bus : Bus M) (p : Param) (ptm : Ptm) (va : ℕ) (op : MmuOp) where
  take_leaf-IsFound :
      (level pte_mpa pte : ℕ) (m : M)
      → IsPermission (flags pte)
      → ppn ptm pte % 2 ^ (ptm.bits * level) ≡ 0
      → IsFound p ptm va op level (take_leaf bus p ptm va op level pte_mpa pte m).0
  unfolding take_leaf IsFound
  take_leaf-IsFound level pte_mpa pte m perm aligned =
      elim (Bool-cases (bit_and (flags pte) (ad_flags op) == ad_flags op)) [
        | inl up ↦ rw up (perm, (==_iff _ _).0 up, aligned, refl)
        | inr stale ↦
            rw stale (elim (Bool-cases (bus.store ptm.pte_bytes pte_mpa (touched op pte) m).0) [
              | inl stored ↦
                  rw (stored, flags-touched op pte, ppn-touched ptm op pte)
                    (
                      IsPermission-touched op (flags pte) perm,
                      bit_and-bit_or (flags pte) (ad_flags op),
                      aligned,
                      refl,
                    )
              | inr failed ↦ rw failed tt
            ])
      ]

  examine-IsFound :
      (level table pte_mpa pte : ℕ) (m : M)
      → IsFound p ptm va op level (examine bus p ptm va op level table pte_mpa pte m).0
  unfolding examine IsFound
  examine-IsFound level table pte_mpa pte m = elim (Bool-cases (is_pointer pte)) [
    | inl pointer ↦ rw pointer tt
    | inr leaf ↦ elim (Bool-cases (is_invalid pte)) [
      | inl invalid ↦ rw (leaf, invalid) tt
      | inr valid ↦ elim (Bool-cases (has 10 (flags pte))) [
        | inr useless ↦ rw (leaf, valid, useless) tt
        | inl useful ↦ elim (Bool-cases (has (2 ^ (ptm.bits * level) - 1) (ppn ptm pte))) [
          | inl misaligned ↦ rw (leaf, valid, useful, misaligned) tt
          | inr aligned ↦
              rw (leaf, valid, useful, aligned)
                (take_leaf-IsFound level pte_mpa pte m (permission leaf valid) (on_page aligned))
        ]
      ]
    ]
  ]
    where
      permission : is_pointer pte ≡ false → is_invalid pte ≡ false → IsPermission (flags pte)
      permission leaf valid = ground (
        arith,
        not_pointer pte leaf,
        not_invalid pte valid,
        bit-flags pte 1,
        bit-flags pte 2,
        bit-flags pte 3,
      )

      on_page :
          has (2 ^ (ptm.bits * level) - 1) (ppn ptm pte) ≡ false
          → ppn ptm pte % 2 ^ (ptm.bits * level) ≡ 0
      on_page aligned = ground (arith, bit_and-ones (ptm.bits * level) (ppn ptm pte))

  round-IsFound :
      (level table : ℕ) (m : M) → IsFound p ptm va op level (round bus p ptm va op level table m).0
  unfolding round IsFound
  round-IsFound level table m =
      let at =
        (table
          + bit_and (va / 2 ^ (ptm.bits * level + page_shift)) (2 ^ ptm.bits - 1) * ptm.pte_bytes)
        % 2 ^ p.ux_bits in
      let loaded = bus.load ptm.pte_bytes at m in
      elim (Option-cases loaded.0) [
        | inl failed ↦ rw (failed, round) tt
        | inr pte ↦ rw (pte.1, round) (examine-IsFound level table at pte.0 loaded.1)
      ]

  finish-IsEnd :
      (level : ℕ) (rest : ℕ → M → WalkEnd × M) (r : Round × M)
      → ((table : ℕ) (m : M) → IsEnd p ptm va op level (rest table m).0)
      → IsFound p ptm va op level r.0
      → IsEnd p ptm va op level (finish bus p ptm va op level rest r).0
  unfolding finish IsFound IsEnd
  finish-IsEnd level rest (Round.next table, m) below f = below table m
  finish-IsEnd level rest (Round.fault, m) below f = tt
  finish-IsEnd level rest (Round.leaf pte pa, m) below f = (omega arith, f)

  deeper : (l : ℕ) (e : WalkEnd) → IsEnd p ptm va op l e → IsEnd p ptm va op (suc l) e
  unfolding IsEnd
  deeper l (WalkEnd.found pte k pa) h = (omega (arith, h.0), h.1)
  deeper l WalkEnd.faulted h = tt
  deeper l WalkEnd.below h = tt

  walk_from-IsEnd :
      (level table : ℕ) (m : M)
      → IsEnd p ptm va op level (walk_from bus p ptm va op level table m).0
  unfolding walk_from IsEnd
  walk_from-IsEnd zero table m =
      finish-IsEnd zero _ (round bus p ptm va op zero table m) (λ _ _. tt)
        (round-IsFound zero table m)
  walk_from-IsEnd (suc l) table m =
      finish-IsEnd (suc l) _ (round bus p ptm va op (suc l) table m)
        (λ t m'. deeper l _ (walk_from-IsEnd l t m')) (round-IsFound (suc l) table m)

  -- Whatever the page tables hold and whichever loads and stores fail, an entry that the walk finds is
  -- on one of the levels of the paging mode, is valid, readable or executable, and writable only if
  -- readable, has its accessed flag set and for a store its dirty flag, points to an aligned page of
  -- its level, and gives the address of that page with the offset of the virtual address.
  pub walk_page_table-IsLeaf :
      (sptbr : ℕ) (m : M) (pte level pa : ℕ)
      → (walk_page_table bus p ptm va op sptbr m).0 ≡ WalkEnd.found pte level pa
      → (level ≤ ptm.levels - 1) × IsLeaf p ptm va op level pte pa
  unfolding walk_page_table IsEnd
  walk_page_table-IsLeaf sptbr m pte level pa h =
      subst (IsEnd p ptm va op (ptm.levels - 1)) h (
        walk_from-IsEnd (ptm.levels - 1) (sptbr % 2 ^ p.ppn_bits * 2 ^ page_shift % 2 ^ p.ux_bits)
          m)
