-- ===== src/Emu/Mmu/Walk.antt =====
-- src/emu/mmu-soft.h: `walk_page_table`.
use rv8_riscv_ckpt.Base.{
  ℕ, zero, suc, ◌+◌, ◌-◌, ◌*◌, ◌/◌, ◌%◌, ◌^◌, Bool, not, ◌==◌, if◌then◌else◌, bit_and, bit_or, none,
  some,
}
use rv8_riscv_ckpt.Emu.Pma.{page_shift, Param}
use rv8_riscv_ckpt.Emu.Pte.{
  pte_shift_R, pte_shift_W, pte_shift_X, pte_flag_R, pte_flag_X, pte_flag_A, pte_flag_D, Ptm, flags,
  ppn,
}
use rv8_riscv_ckpt.Emu.Bus.{Bus}

pub data MmuOp : Type 0 where
  op_fetch op_load op_store : MmuOp

-- `x & f` as a condition.
abbrev pub has : ℕ → ℕ → Bool
has f x = not (bit_and x f == 0)

-- `pte_flag_A | (op == op_store ? pte_flag_D : 0)`.
abbrev pub ad_flags : MmuOp → ℕ
ad_flags MmuOp.op_store = bit_or pte_flag_A pte_flag_D
ad_flags _ = bit_or pte_flag_A 0

-- The machine physical address of a page of the given level, at the offset of `va`.
unfoldable pub page_translate_offset : Param → Ptm → ℕ → ℕ → ℕ → ℕ
page_translate_offset p ptm n va level =
    n % 2 ^ p.ux_bits * 2 ^ page_shift % 2 ^ p.ux_bits
    + bit_and va (2 ^ (ptm.bits * level + page_shift) - 1)

-- No read, write or execute permission.
unfoldable pub is_pointer : ℕ → Bool
is_pointer pte =
    bit_and
      (bit_or (bit_or (pte / 2 ^ pte_shift_R) (pte / 2 ^ pte_shift_W)) (pte / 2 ^ pte_shift_X)) 1
    == 0

-- `~flags`, of an `int`.
abbrev inverted : ℕ → ℕ
inverted f = 2 ^ 32 - 1 - f

-- Not valid, or writable and not readable.
unfoldable pub is_invalid : ℕ → Bool
is_invalid pte = has 1 (
    bit_or (inverted (flags pte))
      (bit_and (inverted (flags pte) / 2 ^ pte_shift_R) (flags pte / 2 ^ pte_shift_W)))

-- What one round of the loop does: it goes on with the table at `ppn`, faults, or finds a leaf.
pub data Round : Type 0 where
  next : (ppn : ℕ) → Round
  fault : Round
  leaf : (pte pa : ℕ) → Round

-- `pte.val.flags |= ad_flags`.
abbrev pub touched : MmuOp → ℕ → ℕ
touched op pte = pte - flags pte + bit_or (flags pte) (ad_flags op)

module _ {M : Type 0} (bus : Bus M) (p : Param) (ptm : Ptm) (va : ℕ) (op : MmuOp) where
  -- A leaf that is in place: its accessed and dirty flags are set, and it is written back.
  unfoldable pub take_leaf : ℕ → ℕ → ℕ → M → Round × M
  take_leaf level pte_mpa pte m =
      if bit_and (flags pte) (ad_flags op) == ad_flags op
      then (Round.leaf pte (page_translate_offset p ptm (ppn ptm pte) va level), m)
      else let stored = bus.store ptm.pte_bytes pte_mpa (touched op pte) m in
        if stored.0
        then (
          Round.leaf (touched op pte)
              (page_translate_offset p ptm (ppn ptm (touched op pte)) va level),
          stored.1,
        )
        else (Round.fault, stored.1)

  unfoldable pub examine : ℕ → ℕ → ℕ → ℕ → M → Round × M
  examine level table pte_mpa pte m =
      if is_pointer pte
      then (Round.next (ppn ptm pte * 2 ^ page_shift % 2 ^ p.ux_bits), m)
      else if is_invalid pte
      then (Round.fault, m)
      else if has (bit_or pte_flag_R pte_flag_X) (flags pte)
      then (if has (2 ^ (ptm.bits * level) - 1) (ppn ptm pte)
          then (Round.fault, m)
          else take_leaf level pte_mpa pte m)
      else (Round.next table, m)

  -- One round of the loop, at `level`, of the table at `table`.
  unfoldable pub round : ℕ → ℕ → M → Round × M
  round level table m =
      let vpn = bit_and (va / 2 ^ (ptm.bits * level + page_shift)) (2 ^ ptm.bits - 1) in
      let pte_mpa = (table + vpn * ptm.pte_bytes) % 2 ^ p.ux_bits in
      let loaded = bus.load ptm.pte_bytes pte_mpa m in
      elim loaded.0 [
        | none ↦ (Round.fault, loaded.1)
        | some pte ↦ examine level table pte_mpa pte loaded.1
      ]

-- The end of the loop. `level` is unsigned, so that `level >= 0` always holds: after a round at level
-- 0 that goes on, `level` wraps, and the source reads on with a shift that makes no sense. The model
-- ends there with `below`.
pub data WalkEnd : Type 0 where
  found : (pte level pa : ℕ) → WalkEnd
  faulted : WalkEnd
  below : WalkEnd

module _ {M : Type 0} (bus : Bus M) (p : Param) (ptm : Ptm) (va : ℕ) (op : MmuOp) where
  unfoldable pub finish : ℕ → (ℕ → M → WalkEnd × M) → Round × M → WalkEnd × M
  finish level rest (Round.fault, m) = (WalkEnd.faulted, m)
  finish level rest (Round.leaf pte pa, m) = (WalkEnd.found pte level pa, m)
  finish level rest (Round.next table, m) = rest table m

  unfoldable pub walk_from : ℕ → ℕ → M → WalkEnd × M
  walk_from zero table m =
      finish zero (λ _ m'. (WalkEnd.below, m')) (round bus p ptm va op zero table m)
  walk_from (suc l) table m = finish (suc l) (walk_from l) (round bus p ptm va op (suc l) table m)

  unfoldable pub walk_page_table : ℕ → M → WalkEnd × M
  walk_page_table sptbr m =
      walk_from (ptm.levels - 1) (sptbr % 2 ^ p.ppn_bits * 2 ^ page_shift % 2 ^ p.ux_bits) m
