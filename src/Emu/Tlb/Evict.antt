-- ===== src/Emu/Tlb/Evict.antt =====
-- src/emu/tlb-soft.h: what an insertion adds and what it evicts.
use rv8_riscv_ckpt.Base.{
  ℕ, ◌/◌, ◌%◌, ◌^◌, ◌<◌, ◌&&◌, ◌==◌, ==_iff, Bool-cases, if◌then◌else◌, none, some, length,
  get_or-set_self, get_or-set_ne, ◌≡◌, refl, inl, inr, arith,
}
use native.Mathlib.Nat.{one-le-pow, mod-eq_of_lt}
use rv8_riscv_ckpt.Emu.Pma.{page_shift, Param}
use rv8_riscv_ckpt.Emu.Tlb.{Tlb, blank_entry, new_entry, insert, lookup}
use rv8_riscv_ckpt.Emu.Tlb.Spec.{TlbOp, Fits}
use rv8_riscv_ckpt.Emu.Tlb.Inv.{index_mod, vpn_fits}

-- A lookup after an insertion: in the place that was written it finds the new mapping for its own
-- protection domain, address space and page, and nothing for any other, which is the eviction;
-- a page of another place is looked up as before.
pub lookup-insert :
    (p : Param) (t : Tlb) (pdid asid va ptel pteb ppn : ℕ)
    → length t.entries ≡ 2 ^ t.shift
    → Fits p (TlbOp.inserted pdid asid va ptel pteb ppn)
    → (d a v : ℕ)
    → lookup p (insert p t pdid asid va ptel pteb ppn).1 d a v ≡ (
        if va / 2 ^ page_shift % 2 ^ t.shift == v / 2 ^ page_shift % 2 ^ t.shift
        then (if pdid == d && asid == a && va / 2 ^ page_shift == v / 2 ^ page_shift
            then some (insert p t pdid asid va ptel pteb ppn).0
            else none)
        else lookup p t d a v)
unfolding insert lookup
lookup-insert p t pdid asid va ptel pteb ppn size h d a v =
    let i = va / 2 ^ page_shift % 2 ^ t.shift in
    let j = v / 2 ^ page_shift % 2 ^ t.shift in
    let e = new_entry p pdid asid (va / 2 ^ page_shift) ptel pteb ppn in
    let bound : i < length t.entries = omega (arith, one-le-pow t.shift 2 (omega arith), size) in
    rw (index_mod p t (va / 2 ^ page_shift), index_mod p t (v / 2 ^ page_shift))
      (elim (Bool-cases (i == j)) [
        | inl here ↦
            rw
              (
                ← (==_iff i j).0 here,
                get_or-set_self t.entries i e (blank_entry p) bound,
                mod-eq_of_lt h.0,
                mod-eq_of_lt h.1,
                vpn_fits p va h.2,
              )
              (ground arith)
        | inr away ↦ rw (get_or-set_ne t.entries i j e (blank_entry p) (ground arith), away) refl
      ])
