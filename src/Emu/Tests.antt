-- ===== src/Emu/Tests.antt =====
-- Concrete buffers, page tables and accesses for the theorems on src/emu.
use rv8_riscv_ckpt.Base.{
  ◌≤◌, ℕ, ◌+◌, ◌-◌, ◌*◌, ◌/◌, ◌%◌, ◌^◌, ◌||◌, ◌&&◌, ◌==◌, if◌then◌else◌, true, false, List, [], ◌∷◌,
  none, some, ◌≡◌, refl, arith,
}
use rv8_riscv_ckpt.Emu.Pma.{page_shift, param_rv64}
use rv8_riscv_ckpt.Emu.Pte.{sv39}
use rv8_riscv_ckpt.Emu.Bus.{Bus}
use rv8_riscv_ckpt.Emu.Tlb.{
  TlbEntry, Tlb, blank_entry, new_entry, new_tlb, lookup, insert, flush_pdid, flush_asid,
}
use rv8_riscv_ckpt.Emu.Tlb.Spec.{TlbOp, run_mappings, no_mappings}
use rv8_riscv_ckpt.Emu.Tlb.Refine.{lookup-run}
use rv8_riscv_ckpt.Emu.Tlb.Evict.{lookup-insert}
use rv8_riscv_ckpt.Emu.Tlb.Flush.{lookup-flush, lookup-new_tlb}
use rv8_riscv_ckpt.Emu.Mmu.Walk.{
  MmuOp, page_translate_offset, is_pointer, is_invalid, take_leaf, examine, round, finish,
  walk_from, walk_page_table,
}
use rv8_riscv_ckpt.Emu.Mmu.{Proc, Mmu, fill_tlb, page_translate_addr, page_translate_addr_tlb_miss}
use rv8_riscv_ckpt.Emu.Mmu.Leaf.{IsLeaf, walk_page_table-IsLeaf}
use rv8_riscv_ckpt.Emu.Mmu.Offset.{page_translate_offset_lem}
use rv8_riscv_ckpt.Emu.Mmu.Retranslate.{page_translate_addr_again}

-- Page 1 of address space 2 in domain 1.
abbrev page_one : List TlbOp
page_one = TlbOp.inserted 1 2 0x1000 0 0xdf 0x80 ∷ []

lookup-run_example :
    run_mappings param_rv64 page_one no_mappings 1 2 (0x1008 / 2 ^ page_shift)
    ≡ some (new_entry param_rv64 1 2 1 0 0xdf 0x80)
unfolding lookup insert
lookup-run_example =
    lookup-run param_rv64 1 page_one ((omega arith, omega arith, omega arith), tt) 1 2 0x1008
      (new_entry param_rv64 1 2 1 0 0xdf 0x80) (λ t. omega (arith, t.0)) refl

abbrev small : Tlb
small = new_tlb param_rv64 1

lookup-insert_example :
    lookup param_rv64 (insert param_rv64 small 1 2 0x1000 0 0xdf 0x80).1 1 2 0x3000 ≡ (
      if 0x1000 / 2 ^ page_shift % 2 ^ 1 == 0x3000 / 2 ^ page_shift % 2 ^ 1
      then (if 1 == 1 && 2 == 2 && 0x1000 / 2 ^ page_shift == 0x3000 / 2 ^ page_shift
          then some (insert param_rv64 small 1 2 0x1000 0 0xdf 0x80).0
          else none)
      else lookup param_rv64 small 1 2 0x3000)
lookup-insert_example =
    lookup-insert param_rv64 small 1 2 0x1000 0 0xdf 0x80 refl
      (omega arith, omega arith, omega arith) 1 2 0x3000

lookup-flush_example :
    (lookup param_rv64 (flush_pdid param_rv64 1 small) 1 2 0x1000
      ≡ (if 1 == 1 then none else lookup param_rv64 small 1 2 0x1000))
    × (lookup param_rv64 (flush_asid param_rv64 1 2 small) 1 2 0x1000
        ≡ (if 2 == 0 || 1 == 1 || 2 == 2 then none else lookup param_rv64 small 1 2 0x1000))
lookup-flush_example = lookup-flush param_rv64 small 1 2 1 2 0x1000 (λ t. omega (arith, t.0))

lookup-new_tlb_example :
    lookup param_rv64 small 0 (2 ^ 26 - 1) (2 ^ 64 - 1) ≡ some (blank_entry param_rv64)
lookup-new_tlb_example = lookup-new_tlb param_rv64 1 (2 ^ 64 - 1) refl

-- A memory in which every page table entry is the leaf of a page of 2 to 30 bytes at 2 to 31, and
-- every 16-bit word is `c.nop`.
abbrev word_of : ℕ → ℕ
word_of bytes = if bytes == 2 then 1 else 0x80000 * 2 ^ 10 + 0xdf

abbrev uniform : Bus Unit
uniform = record {
  load = λ bytes a m. (some (word_of bytes), m);
  store = λ bytes a val m. (true, m);
}

walk_page_table-IsLeaf_example :
    (2 ≤ 2) × IsLeaf param_rv64 sv39 0x1234 MmuOp.op_store 2 (0x80000 * 2 ^ 10 + 0xdf) 0x80001234
unfolding walk_page_table walk_from finish round examine take_leaf is_pointer is_invalid
    page_translate_offset
walk_page_table-IsLeaf_example =
    walk_page_table-IsLeaf uniform param_rv64 sv39 0x1234 MmuOp.op_store 0 tt
      (0x80000 * 2 ^ 10 + 0xdf) 2 0x80001234 refl

page_translate_offset_lem_example :
    (page_translate_offset param_rv64 sv39 0x80000 0x1234 2 / 2 ^ 30 ≡ 0x80000 / 2 ^ 18)
    × (page_translate_offset param_rv64 sv39 0x80000 0x1234 2 % 2 ^ 30 ≡ 0x1234 % 2 ^ 30)
page_translate_offset_lem_example =
    page_translate_offset_lem param_rv64 sv39 0x80000 0x1234 2 refl (omega arith)

abbrev user : Proc
user = record {
  mode = 0;
  mprv = false;
  mpp = 0;
  vm = 9;
  mxr = false;
  pum = false;
  pdid = 1;
  sptbr = 0;
}

abbrev empty : Mmu Unit
empty = record { l1_itlb = small; l1_dtlb = small; mem = tt }

abbrev entry_of_walk : TlbEntry
entry_of_walk = new_entry param_rv64 1 0 1 2 0xdf 0x80000

abbrev filled : Mmu Unit
filled = record empty {
  l1_dtlb = record small { entries = blank_entry param_rv64 ∷ entry_of_walk ∷ [] };
}

page_translate_addr_again_example :
    (lookup param_rv64 filled.l1_dtlb 1 0 0x1234 ≡ some entry_of_walk)
    × (page_translate_addr uniform param_rv64 sv39 user 0x1234 MmuOp.op_load filled
        ≡ page_translate_addr_tlb_miss uniform param_rv64 sv39 user 0x1234 MmuOp.op_load filled)
unfolding page_translate_addr_tlb_miss fill_tlb insert walk_page_table walk_from finish round
    examine take_leaf is_pointer is_invalid page_translate_offset
page_translate_addr_again_example =
    page_translate_addr_again uniform param_rv64 sv39 user 0x1234 MmuOp.op_load empty filled
      0x80001234 entry_of_walk refl (omega arith, omega arith, omega arith) refl
