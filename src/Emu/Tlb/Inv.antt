-- ===== src/Emu/Tlb/Inv.antt =====
-- The invariant of the translation buffer against its abstract mappings.
use rv8_riscv_ckpt.Base.{
  ◌≢◌, ℕ, ◌/◌, ◌%◌, ◌^◌, pow_split, ◌<◌, some, length, get_or, length-replicate, get_or-replicate,
  ◌≡◌, ap, ◌⊎◌, inl, inr, arith, bit_and-ones,
}
use native.Mathlib.Nat.{mod-eq_of_lt}
use rv8_riscv_ckpt.Emu.Pma.{page_shift, Param}
use rv8_riscv_ckpt.Emu.Tlb.{
  TlbEntry, Tlb, blank_entry, new_entry, new_tlb, index, vpn_bits, flush_pdid_entry,
  flush_asid_entry,
}
use rv8_riscv_ckpt.Emu.Tlb.Spec.{TlbOp, Fits, Mappings, no_mappings, step_mappings}

module _ (p : Param) where
  -- An entry of place `i`: blank, or a mapping that stands and belongs there.
  abbrev pub Holds : Mappings → ℕ → ℕ → TlbEntry → Type 0
  Holds s shift i e =
      (e ≡ blank_entry p) ⊎ ((e.vpn % 2 ^ shift ≡ i) × (s e.pdid e.asid e.vpn ≡ some e))

  abbrev pub IsSound : Mappings → Tlb → Type 0
  IsSound s t =
      (length t.entries ≡ 2 ^ t.shift)
      × ((i : ℕ) → Holds s t.shift i (get_or t.entries i (blank_entry p)))

  pub new_tlb-IsSound : (shift : ℕ) → IsSound no_mappings (new_tlb p shift)
  new_tlb-IsSound shift = (
    length-replicate (2 ^ shift) (blank_entry p),
    λ i. inl (get_or-replicate (2 ^ shift) i (blank_entry p)),
  )

  pub index_mod : (t : Tlb) (vpn : ℕ) → index t vpn ≡ vpn % 2 ^ t.shift
  index_mod t vpn = bit_and-ones t.shift vpn

  pub Holds-flush_pdid :
      (s : Mappings) (shift i pdid : ℕ) (e : TlbEntry)
      → Holds s shift i e
      → Holds (step_mappings p (TlbOp.flushed_pdid pdid) s) shift i (flush_pdid_entry p pdid e)
  unfolding flush_pdid_entry
  Holds-flush_pdid s shift i pdid e h = ground arith

  pub Holds-flush_asid :
      (s : Mappings) (shift i pdid asid : ℕ) (e : TlbEntry)
      → Holds s shift i e
      → Holds
          (step_mappings p (TlbOp.flushed_asid pdid asid) s)
          shift
          i
          (flush_asid_entry p pdid asid e)
  unfolding flush_asid_entry
  Holds-flush_asid s shift i pdid asid e h = ground arith

  pub keeps_blank_pdid : (pdid : ℕ) → flush_pdid_entry p pdid (blank_entry p) ≡ blank_entry p
  unfolding flush_pdid_entry
  keeps_blank_pdid pdid = ground arith

  pub keeps_blank_asid :
      (pdid asid : ℕ) → flush_asid_entry p pdid asid (blank_entry p) ≡ blank_entry p
  unfolding flush_asid_entry
  keeps_blank_asid pdid asid = ground arith

  -- The virtual page number of an address fits its field.
  pub vpn_fits :
      (va : ℕ) → va < 2 ^ p.ux_bits → va / 2 ^ page_shift % 2 ^ vpn_bits p ≡ va / 2 ^ page_shift
  vpn_fits va h = mod-eq_of_lt (omega (arith, pow_split p.ux_bits page_shift))

  pub insert_other :
      (s : Mappings) (shift i pdid asid va ptel pteb ppn : ℕ) (e : TlbEntry)
      → (va / 2 ^ page_shift % 2 ^ shift ≢ i)
      → Holds s shift i e
      → Holds (step_mappings p (TlbOp.inserted pdid asid va ptel pteb ppn) s) shift i e
  insert_other s shift i pdid asid va ptel pteb ppn e away h = ground arith

  pub insert_here :
      (s : Mappings) (shift pdid asid va ptel pteb ppn : ℕ)
      → Fits p (TlbOp.inserted pdid asid va ptel pteb ppn)
      → Holds
          (step_mappings p (TlbOp.inserted pdid asid va ptel pteb ppn) s)
          shift
          (va / 2 ^ page_shift % 2 ^ shift)
          (new_entry p pdid asid (va / 2 ^ page_shift) ptel pteb ppn)
  insert_here s shift pdid asid va ptel pteb ppn h =
      let d : pdid % 2 ^ 32 ≡ pdid = mod-eq_of_lt h.0 in
      let a : asid % 2 ^ p.asid_bits ≡ asid = mod-eq_of_lt h.1 in
      inr (ap (λ v. v % 2 ^ shift) (vpn_fits va h.2), rw (d, a, vpn_fits va h.2) (ground arith))
