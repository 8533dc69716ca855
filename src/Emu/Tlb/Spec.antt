-- ===== src/Emu/Tlb/Spec.antt =====
-- What a translation buffer promises: the mappings that were inserted and not flushed since.
use rv8_riscv_ckpt.Base.{
  ℕ, ◌/◌, ◌^◌, ◌<◌, ◌&&◌, ◌||◌, ◌==◌, if◌then◌else◌, List, [], ◌∷◌, Option, none, some,
}
use rv8_riscv_ckpt.Emu.Pma.{page_shift, Param}
use rv8_riscv_ckpt.Emu.Tlb.{TlbEntry, Tlb, new_entry, flush_pdid, flush_asid, insert}

-- An operation of the buffer, with its arguments in the source's order.
pub data TlbOp : Type 0 where
  inserted : (pdid asid va ptel pteb ppn : ℕ) → TlbOp
  flushed_pdid : (pdid : ℕ) → TlbOp
  flushed_asid : (pdid asid : ℕ) → TlbOp

-- The arguments have their types' widths.
abbrev pub Fits : Param → TlbOp → Type 0
Fits p (TlbOp.inserted pdid asid va ptel pteb ppn) =
    (pdid < 2 ^ 32) × (asid < 2 ^ p.asid_bits) × (va < 2 ^ p.ux_bits)
Fits p (TlbOp.flushed_pdid pdid) = Unit
Fits p (TlbOp.flushed_asid pdid asid) = Unit

abbrev pub step : Param → TlbOp → Tlb → Tlb
step p (TlbOp.inserted pdid asid va ptel pteb ppn) t = (insert p t pdid asid va ptel pteb ppn).1
step p (TlbOp.flushed_pdid pdid) t = flush_pdid p pdid t
step p (TlbOp.flushed_asid pdid asid) t = flush_asid p pdid asid t

abbrev pub run : Param → List TlbOp → Tlb → Tlb
run p [] t = t
run p (o ∷ os) t = run p os (step p o t)

-- The mapping of each protection domain, address space and page.
abbrev pub Mappings : Type 0
Mappings = ℕ → ℕ → ℕ → Option TlbEntry

abbrev pub no_mappings : Mappings
no_mappings pdid asid vpn = none

abbrev pub step_mappings : Param → TlbOp → Mappings → Mappings
step_mappings p (TlbOp.inserted pdid asid va ptel pteb ppn) s = λ d a v.
    if d == pdid && a == asid && v == va / 2 ^ page_shift
    then some (new_entry p pdid asid (va / 2 ^ page_shift) ptel pteb ppn)
    else s d a v
step_mappings p (TlbOp.flushed_pdid pdid) s = λ d a v. if d == pdid then none else s d a v
step_mappings p (TlbOp.flushed_asid pdid asid) s =
    λ d a v. if asid == 0 || d == pdid || a == asid then none else s d a v

abbrev pub run_mappings : Param → List TlbOp → Mappings → Mappings
run_mappings p [] s = s
run_mappings p (o ∷ os) s = run_mappings p os (step_mappings p o s)
