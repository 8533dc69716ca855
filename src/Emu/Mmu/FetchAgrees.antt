-- ===== src/Emu/Mmu/FetchAgrees.antt =====
-- src/emu/mmu-soft.h and src/asm/codec.h: the fetch of the processor and that of the codec.
use rv8_riscv_ckpt.Base.{
  ℕ, suc, ◌+◌, ◌*◌, ◌%◌, ◌^◌, ◌≤◌, ◌<◌, false, Bool-cases, ◌==◌, if◌then◌else◌, bit_and, bit_or,
  bit_and-ones, bit_or_above, bit_and_low, some, ◌≡◌, refl, sym, ap, ◌∙◌, inl, inr, arith,
}
use native.Mathlib.Nat.{mod-eq_of_lt}
use rv8_riscv_ckpt.Asm.Codec.{inst_fetch, load16, load32}
use rv8_riscv_ckpt.Emu.Pma.{Param}
use rv8_riscv_ckpt.Emu.Bus.{Bus}
use rv8_riscv_ckpt.Emu.Mmu.Walk.{MmuOp}
use rv8_riscv_ckpt.Emu.Mmu.{
  Cause, Proc, Mmu, Outcome, Translated, misaligned, fetch_access_fault, translate_addr,
}
use rv8_riscv_ckpt.Emu.Mmu.Access.{checked_load}
use rv8_riscv_ckpt.Emu.Mmu.Fetch.{fetch_parcels, fetch_at, mmu_inst_fetch}

module _ (mem : ℕ → ℕ) (byte : (b : ℕ) → mem b < 2 ^ 8) (a : ℕ) where
  low16 : load16 mem a < 2 ^ 16
  low16 = omega (arith, byte a, byte (a + 1))

  masked : (m : ℕ) → m < 2 ^ 16 → bit_and (load32 mem a) m ≡ bit_and (load16 mem a) m
  masked m h =
      let e : load32 mem a % 2 ^ 16 ≡ load16 mem a = omega (arith, low16) in
      sym (bit_and_low 16 (load32 mem a) m h) ∙ ap (λ x. bit_and x m) e

  first_parcel : bit_and (load32 mem a) 0xffff ≡ load16 mem a
  first_parcel = omega (arith, bit_and-ones 16 (load32 mem a), low16)

  two_parcels : bit_or (load16 mem a) (load16 mem (a + 2) * 2 ^ 16) ≡ load32 mem a
  two_parcels = omega (arith, bit_or_above 16 (load16 mem a) (load16 mem (a + 2)) low16)

  four_parcels :
      bit_or (bit_or (load32 mem a) (load16 mem (a + 4) * 2 ^ 32)) (load16 mem (a + 6) * 2 ^ 48)
      ≡ bit_or (load32 mem a) (load32 mem (a + 4) * 2 ^ 32)
  four_parcels =
      let w = load32 mem a in
      let h = load16 mem (a + 4) in
      let small : w < 2 ^ 32 =
        omega (arith, byte a, byte (a + 1), byte (a + 2), byte (a + 2 + 1)) in
      let next : load16 mem (a + 4 + 2) ≡ load16 mem (a + 6) = ap (load16 mem) (omega arith) in
      let middle : w + h * 2 ^ 32 < 2 ^ 48 = omega (arith, small, byte (a + 4), byte (a + 4 + 1)) in
      rw
        (
          bit_or_above 32 w h small,
          bit_or_above 32 w (load32 mem (a + 4)) small,
          bit_or_above 48 (w + h * 2 ^ 32) (load16 mem (a + 6)) middle,
        )
        (omega (arith, next))

-- How a fetch of the codec ends for the processor.
abbrev pub Fetched : ℕ → ℕ × ℕ → Outcome (ℕ × ℕ)
Fetched pc r = if r.1 == 0 then Outcome.raised Cause.fault_fetch pc else Outcome.done r

module _ {M : Type 0} (bus : Bus M) (p : Param) (proc : Proc) (pc : ℕ) (mem : ℕ → ℕ)
    (byte : (b : ℕ) → mem b < 2 ^ 8)
    (reads : (a : ℕ) (m : M) → bus.load 2 a m ≡ (some (load16 mem a), m)) where
  parcel :
      (a : ℕ) (u : Mmu M)
      → a < 2 ^ p.ux_bits
      → checked_load bus p proc false Cause.fault_fetch pc 2 a u ≡ (Outcome.done (load16 mem a), u)
  unfolding checked_load
  parcel a u h =
      let r : bus.load 2 (a % 2 ^ p.ux_bits) u.mem ≡ (some (load16 mem a), u.mem) =
        ap (λ b. bus.load 2 b u.mem) (mod-eq_of_lt h) ∙ reads a u.mem in
      rw (checked_load, ap (λ x. x.0) r, ap (λ x. x.1) r) refl

  next_parcel :
      (mpa n k inst : ℕ) (u : Mmu M)
      → mpa + 2 * k < 2 ^ p.ux_bits
      → fetch_parcels bus p proc pc mpa (suc n) k inst u
        ≡ fetch_parcels bus p proc pc mpa n
            (k + 1)
            (bit_or inst (load16 mem (mpa + 2 * k) * 2 ^ (16 * k)))
            u
  unfolding fetch_parcels
  next_parcel mpa n k inst u h = rw (parcel (mpa + 2 * k) u h) refl

  module _ (mpa : ℕ) (u : Mmu M) (room : mpa + 8 ≤ 2 ^ p.ux_bits) where
    one_more :
        fetch_parcels bus p proc pc mpa 1 1 (load16 mem mpa) u ≡ (Outcome.done (load32 mem mpa), u)
    unfolding fetch_parcels
    one_more =
        next_parcel mpa 0 1 (load16 mem mpa) u (omega arith)
        ∙ ap (λ w. (Outcome.done w, u)) (two_parcels mem byte mpa)

    two_more :
        fetch_parcels bus p proc pc mpa 2 1 (load16 mem mpa) u
        ≡ (Outcome.done (bit_or (load32 mem mpa) (load16 mem (mpa + 4) * 2 ^ 32)), u)
    unfolding fetch_parcels
    two_more =
        next_parcel mpa 1 1 (load16 mem mpa) u (omega arith)
        ∙ ap (λ w. fetch_parcels bus p proc pc mpa 1 2 w u) (two_parcels mem byte mpa)
        ∙ next_parcel mpa 0 2 (load32 mem mpa) u (omega arith)

    three_more :
        fetch_parcels bus p proc pc mpa 3 1 (load16 mem mpa) u
        ≡ (Outcome.done (bit_or (load32 mem mpa) (load32 mem (mpa + 4) * 2 ^ 32)), u)
    unfolding fetch_parcels
    three_more =
        next_parcel mpa 2 1 (load16 mem mpa) u (omega arith)
        ∙ ap (λ w. fetch_parcels bus p proc pc mpa 2 2 w u) (two_parcels mem byte mpa)
        ∙ next_parcel mpa 1 2 (load32 mem mpa) u (omega arith)
        ∙ next_parcel mpa 0 3 _ u (omega arith)
        ∙ ap (λ w. (Outcome.done w, u)) (four_parcels mem byte mpa)

    fetch_at-inst_fetch :
        fetch_at bus p proc pc mpa (load16 mem mpa) u ≡ (Fetched pc (inst_fetch mem mpa), u)
    unfolding fetch_at inst_fetch
    fetch_at-inst_fetch =
        let l = load16 mem mpa in
        rw
          (
            masked mem byte mpa 3 (omega arith),
            masked mem byte mpa 28 (omega arith),
            masked mem byte mpa 63 (omega arith),
            masked mem byte mpa 127 (omega arith),
            first_parcel mem byte mpa,
            one_more,
            two_more,
            three_more,
          )
          (elim (Bool-cases (bit_and l 3 == 3)) [
            | inr short ↦ rw short refl
            | inl long ↦ elim (Bool-cases (bit_and l 28 == 28)) [
              | inr word ↦ rw (long, word) refl
              | inl longer ↦ elim (Bool-cases (bit_and l 63 == 31)) [
                | inl six ↦ rw (long, longer, six) refl
                | inr more ↦ elim (Bool-cases (bit_and l 127 == 63)) [
                  | inl eight ↦ rw (long, longer, more, eight) refl
                  | inr illegal ↦ rw (long, longer, more, illegal) refl
                ]
              ]
            ]
          ])

  -- For a bus that serves 16-bit loads from a memory of bytes, an aligned address that is translated
  -- to `mpa`, with 8 bytes left before the addresses end, and an entry that allows the fetch: the
  -- processor fetches the instruction and the length that `inst_fetch` of the codec finds at `mpa`,
  -- and raises a fetch fault for a word of no valid length.
  pub mmu_inst_fetch-inst_fetch :
      (u u1 : Mmu M) (t : Translated)
      → misaligned 2 pc ≡ false
      → translate_addr bus p proc pc MmuOp.op_fetch u ≡ (Outcome.done t, u1)
      → fetch_access_fault proc proc.mode t.1 ≡ false
      → t.0 + 8 ≤ 2 ^ p.ux_bits
      → mmu_inst_fetch bus p proc pc u ≡ (Fetched pc (inst_fetch mem t.0), u1)
  unfolding mmu_inst_fetch
  mmu_inst_fetch-inst_fetch u u1 t even found allowed room =
      rw (even, found, allowed, parcel t.0 u1 (omega arith)) (fetch_at-inst_fetch t.0 u1 room)
