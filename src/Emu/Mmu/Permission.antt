-- ===== src/Emu/Mmu/Permission.antt =====
-- src/emu/mmu-soft.h: what a load or a store that completes was allowed to do.
use rv8_riscv_ckpt.Base.{
  ℕ, ◌-◌, ◌%◌, ◌^◌, ◌≤◌, Bool, true, false, bit, bit_and, bit_and-power, Bool-cases, Option-cases,
  Option, none, some, ◌≡◌, ◌⊎◌, refl, ap, ◌∙◌, inl, inr, arith,
}
use rv8_riscv_ckpt.Emu.Pma.{Param}
use rv8_riscv_ckpt.Emu.Bus.{Bus}
use rv8_riscv_ckpt.Emu.Tlb.{TlbEntry}
use rv8_riscv_ckpt.Emu.Mmu.Walk.{MmuOp, has}
use rv8_riscv_ckpt.Emu.Mmu.{
  Cause, Proc, Mmu, Outcome, Translated, misaligned, load_access_fault, store_access_fault,
  translate_addr, and_then,
}
use rv8_riscv_ckpt.Emu.Mmu.Access.{checked_load, checked_store, load, store}

and_then-done :
    {M A B : Type 0} (r : Outcome A × Mmu M) (f : A → Mmu M → Outcome B × Mmu M) (b : B)
    → (and_then r f).0 ≡ Outcome.done b
    → (a : A) × (r.0 ≡ Outcome.done a) × ((f a r.1).0 ≡ Outcome.done b)
and_then-done (Outcome.done a, u) f b h = (a, refl, h)
and_then-done (Outcome.raised cause va, u) f b h = cc
and_then-done (Outcome.skipped, u) f b h = cc
and_then-done (Outcome.lost, u) f b h = cc
and_then-done (Outcome.panicked, u) f b h = cc

module _ (proc : Proc) where
  -- A page of the user is open to the supervisor unless `pum` is set, and to user mode always; any
  -- other page is closed to user mode.
  abbrev pub IsOpen : TlbEntry → Type 0
  IsOpen e =
      (bit e.pteb 4 ≡ true → (proc.mode ≡ 0) ⊎ (proc.pum ≡ false))
      × (bit e.pteb 4 ≡ false → 1 ≤ proc.mode)

  -- An untranslated access has no entry.
  abbrev pub AllowsStore : Option TlbEntry → Type 0
  AllowsStore none = Unit
  AllowsStore (some e) = (bit e.pteb 2 ≡ true) × IsOpen e

  -- Readable, or executable with `mxr`.
  abbrev pub AllowsLoad : Option TlbEntry → Type 0
  AllowsLoad none = Unit
  AllowsLoad (some e) =
      ((bit e.pteb 1 ≡ true) ⊎ ((bit e.pteb 3 ≡ true) × (proc.mxr ≡ true))) × IsOpen e

  store_access_fault-AllowsStore :
      (e : Option TlbEntry) → store_access_fault proc proc.mode e ≡ false → AllowsStore e
  unfolding store_access_fault
  store_access_fault-AllowsStore none h = tt
  store_access_fault-AllowsStore (some e) h =
      ground (arith, bit_and-power 2 e.pteb, bit_and-power 4 e.pteb)

  load_access_fault-AllowsLoad :
      (e : Option TlbEntry) → load_access_fault proc proc.mode e ≡ false → AllowsLoad e
  unfolding load_access_fault
  load_access_fault-AllowsLoad none h = tt
  load_access_fault-AllowsLoad (some e) h =
      ground (arith, bit_and-power 1 e.pteb, bit_and-power 3 e.pteb, bit_and-power 4 e.pteb)

module _ {M : Type 0} (bus : Bus M) (p : Param) (proc : Proc) where
  checked_store-done :
      (fault : Bool) (cause : Cause) (va bytes mpa val : ℕ) (u : Mmu M)
      → (checked_store bus p proc fault cause va bytes mpa val u).0 ≡ Outcome.done tt
      → (fault ≡ false)
        × ((bus.store bytes (mpa % 2 ^ p.ux_bits) val u.mem).0 ≡ true)
        × ((checked_store bus p proc fault cause va bytes mpa val u).1
            ≡ record u { mem = (bus.store bytes (mpa % 2 ^ p.ux_bits) val u.mem).1 })
  unfolding checked_store
  checked_store-done true cause va bytes mpa val u h = cc
  checked_store-done false cause va bytes mpa val u h =
      elim (Bool-cases (bus.store bytes (mpa % 2 ^ p.ux_bits) val u.mem).0) [
        | inl stored ↦ rw stored (refl, refl, refl)
        | inr failed ↦ let k = rw failed at h in cc
      ]

  checked_load-done :
      (fault : Bool) (cause : Cause) (va bytes mpa val : ℕ) (u : Mmu M)
      → (checked_load bus p proc fault cause va bytes mpa u).0 ≡ Outcome.done val
      → (fault ≡ false) × ((bus.load bytes (mpa % 2 ^ p.ux_bits) u.mem).0 ≡ some val)
  unfolding checked_load
  checked_load-done true cause va bytes mpa val u h = cc
  checked_load-done false cause va bytes mpa val u h =
      elim (Option-cases (bus.load bytes (mpa % 2 ^ p.ux_bits) u.mem).0) [
        | inl failed ↦ let k = rw (failed, checked_load) at h in cc
        | inr loaded ↦
            let k = rw (loaded.1, checked_load) at h in
            let same : loaded.0 ≡ val = cc in (refl, loaded.1 ∙ ap some same)
      ]

  -- A store that completes is aligned, and the state that it leaves is that of the translation with the
  -- memory after a successful write of the value at the translated address; if the address was translated by a page, the page is writable, a page of the user is
  -- written in user mode or without `pum`, and any other page not in user mode.
  pub store-AllowsStore :
      (bytes va val : ℕ) (u : Mmu M)
      → (store bus p proc bytes va val u).0 ≡ Outcome.done tt
      → (bit_and va (bytes - 1) ≡ 0)
        × ((t : Translated) × ((translate_addr bus p proc va MmuOp.op_store u).0 ≡ Outcome.done t)
            × AllowsStore proc t.1
            × ((bus.store bytes
                  (t.0 % 2 ^ p.ux_bits)
                  val
                  (translate_addr bus p proc va MmuOp.op_store u).1.mem).0
                ≡ true)
            × ((store bus p proc bytes va val u).1
                ≡ record (translate_addr bus p proc va MmuOp.op_store u).1 {
                  mem =
                      (bus.store bytes
                        (t.0 % 2 ^ p.ux_bits)
                        val
                        (translate_addr bus p proc va MmuOp.op_store u).1.mem).1;
                }))
  unfolding store misaligned
  store-AllowsStore bytes va val u h = elim (Bool-cases (has (bytes - 1) va)) [
    | inl odd ↦ let k = rw odd at h in cc
    | inr even ↦
        let r = translate_addr bus p proc va MmuOp.op_store u in
        let k = rw even at h in
        let a = and_then-done r _ tt k in
        let s =
          checked_store-done (store_access_fault proc proc.mode a.0.1) Cause.fault_store va bytes
            a.0.0 val r.1 a.2 in
        (
          ground arith,
          (a.0, a.1, store_access_fault-AllowsStore proc a.0.1 s.0, s.1, rw (even, a.1) s.2),
        )
  ]

  -- A load that completes is aligned, and its value is what the memory holds at the address that it
  -- was translated to; if the address was translated by a page, the page is readable, or executable
  -- with `mxr`, a page of the user is read in user mode or without `pum`, and any other page not in
  -- user mode.
  pub load-AllowsLoad :
      (bytes va val : ℕ) (u : Mmu M)
      → (load bus p proc bytes va u).0 ≡ Outcome.done val
      → (bit_and va (bytes - 1) ≡ 0)
        × ((t : Translated) × ((translate_addr bus p proc va MmuOp.op_load u).0 ≡ Outcome.done t)
            × AllowsLoad proc t.1
            × ((bus.load bytes
                  (t.0 % 2 ^ p.ux_bits)
                  (translate_addr bus p proc va MmuOp.op_load u).1.mem).0
                ≡ some val))
  unfolding load misaligned
  load-AllowsLoad bytes va val u h = elim (Bool-cases (has (bytes - 1) va)) [
    | inl odd ↦ let k = rw odd at h in cc
    | inr even ↦
        let r = translate_addr bus p proc va MmuOp.op_load u in
        let k = rw even at h in
        let a = and_then-done r _ val k in
        let s =
          checked_load-done (load_access_fault proc proc.mode a.0.1) Cause.fault_load va bytes a.0.0
            val r.1 a.2 in
        (ground arith, (a.0, a.1, load_access_fault-AllowsLoad proc a.0.1 s.0, s.1))
  ]
