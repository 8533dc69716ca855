-- ===== src/Emu/Mmu/Access.antt =====
-- src/emu/mmu-soft.h: `inst_fetch`, `load`, `store` and `amo`.
use rv8_riscv_ckpt.Base.{
  ℕ, ◌+◌, ◌-◌, ◌*◌, ◌%◌, ◌^◌, Bool, true, false, if◌then◌else◌, ltb, none, some,
}
use rv8_riscv_ckpt.Emu.Pma.{Param}
use rv8_riscv_ckpt.Emu.Bus.{Bus}
use rv8_riscv_ckpt.Emu.Amo.{AmoOp, amo_fn}
use rv8_riscv_ckpt.Emu.Mmu.Walk.{MmuOp}
use rv8_riscv_ckpt.Emu.Mmu.{
  Cause, Proc, Mmu, Outcome, and_then, misaligned, load_access_fault, store_access_fault,
  translate_addr,
}

module _ {M : Type 0} (bus : Bus M) (p : Param) (proc : Proc) where
  -- `fault || mem->load(mpa, val)`, and the exception when either holds.
  unfoldable pub checked_load : Bool → Cause → ℕ → ℕ → ℕ → Mmu M → Outcome ℕ × Mmu M
  checked_load true cause va bytes mpa u = (Outcome.raised cause va, u)
  checked_load false cause va bytes mpa u =
      let loaded = bus.load bytes (mpa % 2 ^ p.ux_bits) u.mem in
      let u' = record u { mem = loaded.1 } in
      elim loaded.0 [ none ↦ (Outcome.raised cause va, u') | some val ↦ (Outcome.done val, u') ]

  unfoldable pub checked_store : Bool → Cause → ℕ → ℕ → ℕ → ℕ → Mmu M → Outcome Unit × Mmu M
  checked_store true cause va bytes mpa val u = (Outcome.raised cause va, u)
  checked_store false cause va bytes mpa val u =
      let stored = bus.store bytes (mpa % 2 ^ p.ux_bits) val u.mem in
      let u' = record u { mem = stored.1 } in
      if stored.0 then (Outcome.done tt, u') else (Outcome.raised cause va, u')

  unfoldable pub load : ℕ → ℕ → Mmu M → Outcome ℕ × Mmu M
  load bytes va u =
      if misaligned bytes va
      then (Outcome.raised Cause.misaligned_load va, u)
      else and_then (translate_addr bus p proc va MmuOp.op_load u) λ t u'.
        checked_load (load_access_fault proc proc.mode t.1) Cause.fault_load va bytes t.0 u'

  unfoldable pub store : ℕ → ℕ → ℕ → Mmu M → Outcome Unit × Mmu M
  store bytes va val u =
      if misaligned bytes va
      then (Outcome.raised Cause.misaligned_store va, u)
      else and_then (translate_addr bus p proc va MmuOp.op_store u) λ t u'.
        checked_store (store_access_fault proc proc.mode t.1) Cause.fault_store va bytes t.0 val u'

  -- `T` is `s32` or `s64`: both operands are sign-extended to `UX`, and the result is cut to `T`.
  abbrev to_ux : ℕ → ℕ → ℕ
  to_ux bytes x = if ltb x (2 ^ (8 * bytes - 1)) then x else x + (2 ^ p.ux_bits - 2 ^ (8 * bytes))

  -- The value that was loaded.
  unfoldable pub amo : ℕ → AmoOp → ℕ → ℕ → Mmu M → Outcome ℕ × Mmu M
  amo bytes a_op va val2 u =
      if misaligned bytes va
      then (Outcome.raised Cause.misaligned_store va, u)
      else and_then (translate_addr bus p proc va MmuOp.op_store u) λ t u1.
        and_then
          (checked_load (load_access_fault proc proc.mode t.1) Cause.fault_store va bytes t.0 u1)
          λ val1 u2.
            let val =
              amo_fn p.ux_bits a_op (to_ux bytes val1) (to_ux bytes val2) % 2 ^ (8 * bytes) in
            and_then
              (checked_store (store_access_fault proc proc.mode t.1) Cause.fault_store va bytes t.0
                val u2)
              λ _ u3. (Outcome.done val1, u3)
