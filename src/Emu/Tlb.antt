-- ===== src/Emu/Tlb.antt =====
-- src/emu/tlb-soft.h: the direct-mapped translation buffer.
pub mod Spec
pub mod Inv
pub mod Refine
pub mod Evict
pub mod Flush
use rv8_riscv_ckpt.Base.{
  ℕ, ◌+◌, ◌-◌, ◌/◌, ◌%◌, ◌^◌, Bool, not, ◌&&◌, ◌||◌, ◌==◌, if◌then◌else◌, bit_and, List, [], ◌∷◌,
  Option, none, some, map, get_or, set, replicate,
}
use rv8_riscv_ckpt.Emu.Pma.{page_shift, Param}

pub record TlbEntry : Type 0 where
  pub ppn : ℕ
  pub asid : ℕ
  pub vpn : ℕ
  pub ptel : ℕ
  pub pteb : ℕ
  pub pdid : ℕ
  pub pma : ℕ

abbrev pub vpn_bits : Param → ℕ
vpn_bits p = p.ux_bits - page_shift

-- `tagged_tlb_entry()`.
abbrev pub blank_entry : Param → TlbEntry
blank_entry p = record {
  ppn = 2 ^ p.ppn_bits - 1;
  asid = 2 ^ p.asid_bits - 1;
  vpn = 2 ^ vpn_bits p - 1;
  ptel = 0;
  pteb = 0;
  pdid = 0;
  pma = 0;
}

-- `tagged_tlb_entry(pdid, asid, vpn, ptel, pteb, ppn)`: every field keeps its width.
abbrev pub new_entry : Param → ℕ → ℕ → ℕ → ℕ → ℕ → ℕ → TlbEntry
new_entry p pdid asid vpn ptel pteb ppn = record {
  ppn = ppn % 2 ^ p.ppn_bits;
  asid = asid % 2 ^ p.asid_bits;
  vpn = vpn % 2 ^ vpn_bits p;
  ptel = ptel % 2 ^ 2;
  pteb = pteb % 2 ^ (page_shift - 2);
  pdid = pdid % 2 ^ 32;
  pma = 0;
}

-- `tagged_tlb`, of 2 to `shift` entries.
pub record Tlb : Type 0 where
  pub shift : ℕ
  pub entries : List TlbEntry

abbrev pub new_tlb : Param → ℕ → Tlb
new_tlb p shift = record { shift = shift; entries = replicate (2 ^ shift) (blank_entry p) }

-- `vpn & mask`.
abbrev pub index : Tlb → ℕ → ℕ
index t vpn = bit_and vpn (2 ^ t.shift - 1)

-- The round of `flush(pdid)`, and of `flush(pdid, asid)`, at one entry.
unfoldable pub flush_pdid_entry : Param → ℕ → TlbEntry → TlbEntry
flush_pdid_entry p pdid e = if not (e.pdid == pdid) then e else blank_entry p

unfoldable pub flush_asid_entry : Param → ℕ → ℕ → TlbEntry → TlbEntry
flush_asid_entry p pdid asid e =
    if not (asid == 0) && not (e.pdid == pdid) && not (e.asid == asid) then e else blank_entry p

unfoldable pub flush_pdid : Param → ℕ → Tlb → Tlb
flush_pdid p pdid t = record t { entries = map (flush_pdid_entry p pdid) t.entries }

unfoldable pub flush_asid : Param → ℕ → ℕ → Tlb → Tlb
flush_asid p pdid asid t = record t { entries = map (flush_asid_entry p pdid asid) t.entries }

unfoldable pub lookup : Param → Tlb → ℕ → ℕ → ℕ → Option TlbEntry
lookup p t pdid asid va =
    let vpn = va / 2 ^ page_shift in
    let e = get_or t.entries (index t vpn) (blank_entry p) in
    if e.pdid == pdid && e.asid == asid && e.vpn == vpn then some e else none

-- The entry, and the buffer that holds it.
unfoldable pub insert : Param → Tlb → ℕ → ℕ → ℕ → ℕ → ℕ → ℕ → TlbEntry × Tlb
insert p t pdid asid va ptel pteb ppn =
    let vpn = va / 2 ^ page_shift in
    let e = new_entry p pdid asid vpn ptel pteb ppn in
    (e, record t { entries = set t.entries (index t vpn) e })
