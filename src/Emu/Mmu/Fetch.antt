-- ===== src/Emu/Mmu/Fetch.antt =====
-- src/emu/mmu-soft.h: `inst_fetch`, which reads an instruction in parcels of 16 bits.
use rv8_riscv_ckpt.Base.{
  ℕ, zero, suc, ◌+◌, ◌*◌, ◌^◌, false, not, ◌==◌, if◌then◌else◌, bit_and, bit_or,
}
use rv8_riscv_ckpt.Emu.Pma.{Param}
use rv8_riscv_ckpt.Emu.Bus.{Bus}
use rv8_riscv_ckpt.Emu.Mmu.Walk.{MmuOp}
use rv8_riscv_ckpt.Emu.Mmu.{
  Cause, Proc, Mmu, Outcome, misaligned, fetch_access_fault, translate_addr, and_then,
}
use rv8_riscv_ckpt.Emu.Mmu.Access.{checked_load}

module _ {M : Type 0} (bus : Bus M) (p : Param) (proc : Proc) (pc : ℕ) where
  -- `n` more parcels of the instruction at `mpa`, the first of them number `k`.
  unfoldable pub fetch_parcels : ℕ → ℕ → ℕ → ℕ → Mmu M → Outcome ℕ × Mmu M
  fetch_parcels mpa zero k inst u = (Outcome.done inst, u)
  fetch_parcels mpa (suc n) k inst u =
      and_then (checked_load bus p proc false Cause.fault_fetch pc 2 (mpa + 2 * k) u)
        λ part u'. fetch_parcels mpa n (k + 1) (bit_or inst (part * 2 ^ (16 * k))) u'

  -- `n` more parcels, and the length of the instruction.
  abbrev pub fetch_rest : ℕ → ℕ → ℕ → ℕ → Mmu M → Outcome (ℕ × ℕ) × Mmu M
  fetch_rest mpa n length inst u =
      and_then (fetch_parcels mpa n 1 inst u) λ whole u'. (Outcome.done (whole, length), u')

  unfoldable pub fetch_at : ℕ → ℕ → Mmu M → Outcome (ℕ × ℕ) × Mmu M
  fetch_at mpa inst u =
      if not (bit_and inst 0b11 == 0b11)
      then (Outcome.done (inst, 2), u)
      else if not (bit_and inst 0b11100 == 0b11100)
      then fetch_rest mpa 1 4 inst u
      else if bit_and inst 0b111111 == 0b011111
      then fetch_rest mpa 2 6 inst u
      else if bit_and inst 0b1111111 == 0b0111111
      then fetch_rest mpa 3 8 inst u
      else (Outcome.raised Cause.fault_fetch pc, u)

  -- The instruction and `pc_offset`.
  unfoldable pub mmu_inst_fetch : Mmu M → Outcome (ℕ × ℕ) × Mmu M
  mmu_inst_fetch u =
      if misaligned 2 pc
      then (Outcome.raised Cause.misaligned_fetch pc, u)
      else and_then (translate_addr bus p proc pc MmuOp.op_fetch u) λ t u1.
        and_then
          (checked_load bus p proc (fetch_access_fault proc proc.mode t.1) Cause.fault_fetch pc 2
            t.0 u1)
          λ inst u2. fetch_at t.0 inst u2
