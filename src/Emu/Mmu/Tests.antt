-- ===== src/Emu/Mmu/Tests.antt =====
-- Concrete accesses for the theorems on loads, stores and fetches.
use rv8_riscv_ckpt.Base.{
  none, ℕ, ◌+◌, ◌-◌, ◌*◌, ◌%◌, ◌^◌, ◌==◌, if◌then◌else◌, bit_and, true, false, some, ◌≡◌, refl,
  arith,
}
use rv8_riscv_ckpt.Asm.Codec.{inst_fetch, load16}
use rv8_riscv_ckpt.Emu.Pma.{param_rv64}
use rv8_riscv_ckpt.Emu.Bus.{Bus}
use rv8_riscv_ckpt.Emu.Tlb.{new_tlb, lookup, insert}
use rv8_riscv_ckpt.Emu.Mmu.Walk.{
  MmuOp, page_translate_offset, is_pointer, is_invalid, take_leaf, examine, round, finish,
  walk_from, walk_page_table,
}
use rv8_riscv_ckpt.Emu.Mmu.{
  Proc, Mmu, Outcome, Translated, misaligned, fetch_access_fault, load_access_fault,
  store_access_fault, effective_mode, fill_tlb, page_translate_addr, page_translate_addr_tlb_miss,
  translate_addr,
}
use rv8_riscv_ckpt.Emu.Mmu.Access.{checked_load, checked_store, load, store}
use rv8_riscv_ckpt.Emu.Mmu.Permission.{AllowsStore, AllowsLoad, store-AllowsStore, load-AllowsLoad}
use rv8_riscv_ckpt.Emu.Mmu.Fetch.{mmu_inst_fetch}
use rv8_riscv_ckpt.Emu.Mmu.FetchAgrees.{Fetched, mmu_inst_fetch-inst_fetch}

-- Every page table entry is the leaf of a page of 2 to 30 bytes at 2 to 31, and the bytes are those of
-- `c.nop`.
abbrev byte_of : ℕ → ℕ
byte_of a = if a % 2 == 0 then 1 else 0

abbrev nops : Bus Unit
nops = record {
  load = λ bytes a m. (some (if bytes == 2 then load16 byte_of a else 0x80000 * 2 ^ 10 + 0xdf), m);
  store = λ bytes a val m. (true, m);
}

abbrev user : Proc
user = record {
  mode = 0;
  mprv = false;
  mpp = 0;
  vm = 9;
  mxr = false;
  pum = false;
  pdid = 1;
  sptbr = 0;
}

abbrev start : Mmu Unit
start = record { l1_itlb = new_tlb param_rv64 1; l1_dtlb = new_tlb param_rv64 1; mem = tt }

store-AllowsStore_example :
    (bit_and 0x1238 (8 - 1) ≡ 0)
    × ((t : Translated) × ((translate_addr nops param_rv64 user 0x1238 MmuOp.op_store start).0
          ≡ Outcome.done t)
        × AllowsStore user t.1
        × ((nops.store 8
              (t.0 % 2 ^ 64)
              5
              (translate_addr nops param_rv64 user 0x1238 MmuOp.op_store start).1.mem).0
            ≡ true)
        × ((store nops param_rv64 user 8 0x1238 5 start).1
            ≡ record (translate_addr nops param_rv64 user 0x1238 MmuOp.op_store start).1 {
              mem =
                  (nops.store 8
                    (t.0 % 2 ^ 64)
                    5
                    (translate_addr nops param_rv64 user 0x1238 MmuOp.op_store start).1.mem).1;
            }))
unfolding store misaligned checked_store store_access_fault translate_addr effective_mode
    page_translate_addr lookup page_translate_addr_tlb_miss fill_tlb insert walk_page_table
    walk_from finish round examine take_leaf is_pointer is_invalid page_translate_offset
store-AllowsStore_example = store-AllowsStore nops param_rv64 user 8 0x1238 5 start refl

load-AllowsLoad_example :
    (bit_and 0x1238 (8 - 1) ≡ 0)
    × ((t : Translated) × ((translate_addr nops param_rv64 user 0x1238 MmuOp.op_load start).0
          ≡ Outcome.done t)
        × AllowsLoad user t.1
        × ((nops.load 8
              (t.0 % 2 ^ 64)
              (translate_addr nops param_rv64 user 0x1238 MmuOp.op_load start).1.mem).0
            ≡ some (0x80000 * 2 ^ 10 + 0xdf)))
unfolding load misaligned checked_load load_access_fault translate_addr effective_mode
    page_translate_addr lookup page_translate_addr_tlb_miss fill_tlb insert walk_page_table
    walk_from finish round examine take_leaf is_pointer is_invalid page_translate_offset
load-AllowsLoad_example =
    load-AllowsLoad nops param_rv64 user 8 0x1238 (0x80000 * 2 ^ 10 + 0xdf) start refl

mmu_inst_fetch-inst_fetch_example :
    mmu_inst_fetch nops param_rv64 (record user { mode = 3 }) 0x1000 start
    ≡ (Fetched 0x1000 (inst_fetch byte_of 0x1000), start)
unfolding misaligned translate_addr effective_mode fetch_access_fault
mmu_inst_fetch-inst_fetch_example =
    mmu_inst_fetch-inst_fetch nops param_rv64 (record user { mode = 3 }) 0x1000 byte_of
      (λ b. ground arith) (λ a m. refl) start start (0x1000, none) refl refl refl (omega arith)
