-- ===== src/Emu/Tlb/Flush.antt =====
-- src/emu/tlb-soft.h: what the two flushes remove, and what a blank entry answers.
use rv8_riscv_ckpt.Base.{
  ℕ, ◌-◌, ◌/◌, ◌^◌, ◌||◌, ◌==◌, if◌then◌else◌, none, some, get_or-map, get_or-replicate, ◌≡◌, arith,
}
use rv8_riscv_ckpt.Emu.Pma.{page_shift, Param}
use rv8_riscv_ckpt.Emu.Tlb.{
  Tlb, blank_entry, new_tlb, index, vpn_bits, lookup, flush_pdid, flush_asid, flush_pdid_entry,
  flush_asid_entry,
}
use rv8_riscv_ckpt.Emu.Tlb.Inv.{keeps_blank_pdid, keeps_blank_asid}
use rv8_riscv_ckpt.Emu.Tlb.Refine.{IsBlankTag}

-- After a flush, whichever lookup that is not for the tag of a blank entry: that of one protection
-- domain leaves nothing of the domain and every mapping of the others; that of a domain and an
-- address space leaves nothing of the domain, nothing of the address space in any domain, nothing
-- at all for address space 0, and every other mapping.
pub lookup-flush :
    (p : Param) (t : Tlb) (pdid asid d a v : ℕ)
    → ¬ IsBlankTag p d a v
    → (lookup p (flush_pdid p pdid t) d a v ≡ (if d == pdid then none else lookup p t d a v))
      × (lookup p (flush_asid p pdid asid t) d a v
          ≡ (if asid == 0 || d == pdid || a == asid then none else lookup p t d a v))
unfolding lookup flush_pdid flush_asid flush_pdid_entry flush_asid_entry
lookup-flush p t pdid asid d a v tag =
    let i = index t (v / 2 ^ page_shift) in
    (
      rw
          (get_or-map (flush_pdid_entry p pdid) t.entries i (blank_entry p)
            (keeps_blank_pdid p pdid))
          (ground arith),
      rw
          (get_or-map (flush_asid_entry p pdid asid) t.entries i (blank_entry p)
            (keeps_blank_asid p pdid asid))
          (ground arith),
    )

-- A buffer that nothing was inserted into answers the tag of a blank entry: protection domain 0, the
-- largest address space and the last page. The answer is the largest physical page, without any
-- permission.
pub lookup-new_tlb :
    (p : Param) (shift va : ℕ)
    → va / 2 ^ page_shift ≡ 2 ^ vpn_bits p - 1
    → lookup p (new_tlb p shift) 0 (2 ^ p.asid_bits - 1) va ≡ some (blank_entry p)
unfolding lookup
lookup-new_tlb p shift va h =
    let i = index (new_tlb p shift) (va / 2 ^ page_shift) in
    rw (get_or-replicate (2 ^ shift) i (blank_entry p), h) (ground arith)
