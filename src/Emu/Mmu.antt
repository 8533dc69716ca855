-- ===== src/Emu/Mmu.antt =====
-- src/emu/mmu-soft.h: page translation, and the accesses of the processor to memory.
pub mod Walk
pub mod Access
pub mod Flags
pub mod Leaf
pub mod Offset
pub mod Retranslate
pub mod Permission
pub mod Fetch
pub mod FetchAgrees
pub mod Tests
use rv8_riscv_ckpt.Base.{
  ℕ, ◌+◌, ◌-◌, ◌*◌, ◌/◌, ◌%◌, ◌^◌, Bool, true, false, not, ◌&&◌, ◌||◌, ◌==◌, ltb, leb,
  if◌then◌else◌, bit_and, Option, none, some,
}
use rv8_riscv_ckpt.Emu.Pma.{page_shift, Param}
use rv8_riscv_ckpt.Emu.Pte.{
  pte_flag_R, pte_flag_W, pte_flag_X, pte_flag_U, Ptm, sv32, sv39, sv48, flags, ppn,
}
use rv8_riscv_ckpt.Emu.Bus.{Bus}
use rv8_riscv_ckpt.Emu.Tlb.{TlbEntry, Tlb, lookup, insert}
use rv8_riscv_ckpt.Emu.Mmu.Walk.{
  MmuOp, has, ad_flags, page_translate_offset, WalkEnd, walk_page_table,
}

-- `enum rv_mode` and `enum rv_cause`, of src/asm/meta.h.
abbrev pub rv_mode_U : ℕ
rv_mode_U = 0

abbrev pub rv_mode_S : ℕ
rv_mode_S = 1

abbrev pub rv_mode_M : ℕ
rv_mode_M = 3

pub data Cause : Type 0 where
  misaligned_fetch fault_fetch misaligned_load fault_load misaligned_store fault_store : Cause

-- What an access reads of the processor: its mode, the fields of `mstatus`, and two registers.
pub record Proc : Type 0 where
  pub mode : ℕ
  pub mprv : Bool
  pub mpp : ℕ
  pub vm : ℕ
  pub mxr : Bool
  pub pum : Bool
  pub pdid : ℕ
  pub sptbr : ℕ

pub record Mmu (M : Type 0) : Type 0 where
  pub l1_itlb : Tlb
  pub l1_dtlb : Tlb
  pub mem : M

-- How an access ends. `raised` is `proc.raise`, which does not return while the processor runs;
-- `skipped` is the early return for a translation to address 0, `lost` a page walk that ended `below`,
-- and `panicked` an unsupported translation mode.
pub data Outcome (A : Type 0) : Type 0 where
  done : (a : A) → Outcome A
  raised : (cause : Cause) (badaddr : ℕ) → Outcome A
  skipped : Outcome A
  lost : Outcome A
  panicked : Outcome A

-- `misaligned<T>`, for a `T` of that many bytes.
unfoldable pub misaligned : ℕ → ℕ → Bool
misaligned bytes va = has (bytes - 1) va

-- The check of U=1 pages against the privilege, and of U=0 pages.
unfoldable pub fetch_access_fault : Proc → ℕ → Option TlbEntry → Bool
fetch_access_fault proc level none = false
fetch_access_fault proc level (some e) =
    not (has pte_flag_X e.pteb)
    || (if has pte_flag_U e.pteb then ltb rv_mode_U level else ltb level rv_mode_S)

unfoldable pub load_access_fault : Proc → ℕ → Option TlbEntry → Bool
load_access_fault proc level none = false
load_access_fault proc level (some e) =
    (not (has pte_flag_R e.pteb) && not (has pte_flag_X e.pteb && proc.mxr))
    || (if has pte_flag_U e.pteb then ltb rv_mode_U level && proc.pum else ltb level rv_mode_S)

unfoldable pub store_access_fault : Proc → ℕ → Option TlbEntry → Bool
store_access_fault proc level none = false
store_access_fault proc level (some e) =
    not (has pte_flag_W e.pteb)
    || (if has pte_flag_U e.pteb then ltb rv_mode_U level && proc.pum else ltb level rv_mode_S)

unfoldable pub effective_mode : Proc → MmuOp → ℕ
effective_mode proc MmuOp.op_fetch = proc.mode
effective_mode proc _ =
    if leb rv_mode_M proc.mode && proc.mprv && leb proc.mpp rv_mode_S then proc.mpp else proc.mode

-- `switch (op)` at the end of `walk_page_table`.
abbrev pub fault_cause : MmuOp → Cause
fault_cause MmuOp.op_fetch = Cause.fault_fetch
fault_cause MmuOp.op_load = Cause.fault_load
fault_cause MmuOp.op_store = Cause.fault_store

-- `op == op_fetch ? l1_itlb : l1_dtlb`.
abbrev pub tlb_of : {M : Type 0} → MmuOp → Mmu M → Tlb
tlb_of MmuOp.op_fetch u = u.l1_itlb
tlb_of _ u = u.l1_dtlb

abbrev pub with_tlb : {M : Type 0} → MmuOp → Tlb → Mmu M → Mmu M
with_tlb MmuOp.op_fetch t u = record u { l1_itlb = t }
with_tlb _ t u = record u { l1_dtlb = t }

-- A machine physical address, and the entry that allows the access.
abbrev pub Translated : Type 0
Translated = ℕ × Option TlbEntry

-- An access that goes on with the value of its first part.
abbrev pub and_then :
    {M A B : Type 0} → Outcome A × Mmu M → (A → Mmu M → Outcome B × Mmu M) → Outcome B × Mmu M
and_then (Outcome.done a, u) f = f a u
and_then (Outcome.raised cause va, u) f = (Outcome.raised cause va, u)
and_then (Outcome.skipped, u) f = (Outcome.skipped, u)
and_then (Outcome.lost, u) f = (Outcome.lost, u)
and_then (Outcome.panicked, u) f = (Outcome.panicked, u)

-- Without translation, a virtual address is the physical one.
abbrev pub bare : {M : Type 0} → ℕ → Mmu M → Outcome Translated × Mmu M
bare va u = if va == 0 then (Outcome.skipped, u) else (Outcome.done (va, none), u)

-- `proc.sptbr >> tlb_type::ppn_bits`.
abbrev pub asid_of : Param → Proc → ℕ
asid_of p proc = proc.sptbr / 2 ^ p.ppn_bits

module _ {M : Type 0} (p : Param) where
  -- The rest of `page_translate_addr_tlb_miss`, after the walk.
  unfoldable pub fill_tlb : Ptm → Proc → ℕ → MmuOp → WalkEnd → Mmu M → Outcome Translated × Mmu M
  fill_tlb ptm proc va op WalkEnd.faulted u = (Outcome.raised (fault_cause op) va, u)
  fill_tlb ptm proc va op WalkEnd.below u = (Outcome.lost, u)
  fill_tlb ptm proc va op (WalkEnd.found pte level pa) u =
      let inserted =
        insert p (tlb_of op u) proc.pdid (asid_of p proc) va level (flags pte) (ppn ptm pte) in
      if pa == 0
      then (Outcome.skipped, u)
      else (Outcome.done (pa, some inserted.0), with_tlb op inserted.1 u)

module _ {M : Type 0} (bus : Bus M) (p : Param) where
  unfoldable pub page_translate_addr_tlb_miss :
      Ptm → Proc → ℕ → MmuOp → Mmu M → Outcome Translated × Mmu M
  page_translate_addr_tlb_miss ptm proc va op u =
      let walked = walk_page_table bus p ptm va op proc.sptbr u.mem in
      fill_tlb p ptm proc va op walked.0 (record u { mem = walked.1 })

  -- The entry is used when its flags are not up to date, as the source has it.
  unfoldable pub page_translate_addr : Ptm → Proc → ℕ → MmuOp → Mmu M → Outcome Translated × Mmu M
  page_translate_addr ptm proc va op u =
      elim (lookup p (tlb_of op u) proc.pdid (asid_of p proc) va) [
        | none ↦ page_translate_addr_tlb_miss ptm proc va op u
        | some e ↦
            let pa = page_translate_offset p ptm e.ppn va e.ptel in
            if not (bit_and e.pteb (ad_flags op) == ad_flags op)
            then (if pa == 0 then (Outcome.skipped, u) else (Outcome.done (pa, some e), u))
            else page_translate_addr_tlb_miss ptm proc va op u
      ]

  unfoldable pub translate_addr : Proc → ℕ → MmuOp → Mmu M → Outcome Translated × Mmu M
  translate_addr proc va op u =
      if leb rv_mode_M (effective_mode proc op) || proc.vm == 0
      then bare va u
      else if proc.vm == 8
      then page_translate_addr sv32 proc va op u
      else if proc.vm == 9
      then page_translate_addr sv39 proc va op u
      else if proc.vm == 10
      then page_translate_addr sv48 proc va op u
      else (Outcome.panicked, u)
