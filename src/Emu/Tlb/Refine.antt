-- ===== src/Emu/Tlb/Refine.antt =====
-- src/emu/tlb-soft.h: what a lookup finds after any sequence of operations.
use rv8_riscv_ckpt.Base.{
  ℕ, ◌-◌, ◌/◌, ◌%◌, ◌^◌, ◌<◌, Bool-cases, ◌&&◌, ◌==◌, ==_iff, List, [], ◌∷◌, none, some, length,
  get_or, set, All, length-map, length-set, get_or-map, get_or-set_self, get_or-set_ne, ◌≡◌, ◌≢◌,
  ap, sym, ◌∙◌, inl, inr, arith, if◌then◌else◌,
}
use mathlib.Core.Path.{subst}
use native.Mathlib.Nat.{one-le-pow}
use rv8_riscv_ckpt.Emu.Pma.{page_shift, Param}
use rv8_riscv_ckpt.Emu.Tlb.{
  TlbEntry, Tlb, blank_entry, new_entry, new_tlb, index, vpn_bits, flush_pdid, flush_asid,
  flush_pdid_entry, flush_asid_entry, insert, lookup,
}
use rv8_riscv_ckpt.Emu.Tlb.Spec.{
  TlbOp, Fits, step, run, Mappings, no_mappings, step_mappings, run_mappings,
}
use rv8_riscv_ckpt.Emu.Tlb.Inv.{
  IsSound, Holds, Holds-flush_pdid, Holds-flush_asid, keeps_blank_pdid, keeps_blank_asid, index_mod,
  insert_here, insert_other, new_tlb-IsSound,
}

module _ (p : Param) where
  insert_at :
      (s : Mappings) (t : Tlb) (pdid asid va ptel pteb ppn : ℕ)
      → Fits p (TlbOp.inserted pdid asid va ptel pteb ppn)
      → IsSound p s t
      → (i : ℕ)
      → Holds p (step_mappings p (TlbOp.inserted pdid asid va ptel pteb ppn) s) t.shift i (
          get_or
            (set t.entries
              (va / 2 ^ page_shift % 2 ^ t.shift)
              (new_entry p pdid asid (va / 2 ^ page_shift) ptel pteb ppn))
            i
            (blank_entry p))
  insert_at s t pdid asid va ptel pteb ppn h sound i =
      let j = va / 2 ^ page_shift % 2 ^ t.shift in
      let e = new_entry p pdid asid (va / 2 ^ page_shift) ptel pteb ppn in
      let bound : j < length t.entries =
        omega (arith, one-le-pow t.shift 2 (omega arith), sound.0) in
      elim (Bool-cases (j == i)) [
        | inl here ↦
            subst
              (λ k.
                Holds p (step_mappings p (TlbOp.inserted pdid asid va ptel pteb ppn) s) t.shift k
                  (get_or (set t.entries j e) k (blank_entry p)))
              ((==_iff j i).0 here)
              (rw (get_or-set_self t.entries j e (blank_entry p) bound)
                (insert_here p s t.shift pdid asid va ptel pteb ppn h))
        | inr away ↦
            let apart : j ≢ i = ground arith in
            rw (get_or-set_ne t.entries j i e (blank_entry p) apart)
              (insert_other p s t.shift i pdid asid va ptel pteb ppn _ apart (sound.1 i))
      ]

  insert-IsSound :
      (s : Mappings) (t : Tlb) (pdid asid va ptel pteb ppn : ℕ)
      → Fits p (TlbOp.inserted pdid asid va ptel pteb ppn)
      → IsSound p s t
      → IsSound p
          (step_mappings p (TlbOp.inserted pdid asid va ptel pteb ppn) s)
          (insert p t pdid asid va ptel pteb ppn).1
  unfolding insert
  insert-IsSound s t pdid asid va ptel pteb ppn h sound = rw (index_mod p t (va / 2 ^ page_shift)) (
    length-set t.entries (va / 2 ^ page_shift % 2 ^ t.shift) _ ∙ sound.0,
    insert_at s t pdid asid va ptel pteb ppn h sound,
  )

  step-IsSound :
      (s : Mappings) (t : Tlb) (o : TlbOp)
      → Fits p o
      → IsSound p s t
      → IsSound p (step_mappings p o s) (step p o t)
  unfolding flush_pdid flush_asid
  step-IsSound s t (TlbOp.inserted pdid asid va ptel pteb ppn) h sound =
      insert-IsSound s t pdid asid va ptel pteb ppn h sound
  step-IsSound s t (TlbOp.flushed_pdid pdid) h sound = (
    length-map (flush_pdid_entry p pdid) t.entries ∙ sound.0,
    λ i.
        rw
          (get_or-map (flush_pdid_entry p pdid) t.entries i (blank_entry p)
            (keeps_blank_pdid p pdid))
          (Holds-flush_pdid p s t.shift i pdid _ (sound.1 i)),
  )
  step-IsSound s t (TlbOp.flushed_asid pdid asid) h sound = (
    length-map (flush_asid_entry p pdid asid) t.entries ∙ sound.0,
    λ i.
        rw
          (get_or-map (flush_asid_entry p pdid asid) t.entries i (blank_entry p)
            (keeps_blank_asid p pdid asid))
          (Holds-flush_asid p s t.shift i pdid asid _ (sound.1 i)),
  )

  run-IsSound :
      (os : List TlbOp) (s : Mappings) (t : Tlb)
      → All (Fits p) os
      → IsSound p s t
      → IsSound p (run_mappings p os s) (run p os t)
  run-IsSound [] s t h sound = sound
  run-IsSound (o ∷ os) s t h sound =
      run-IsSound os (step_mappings p o s) (step p o t) h.1 (step-IsSound s t o h.0 sound)

  mapped :
      (s : Mappings) (pdid asid vpn : ℕ) (f e : TlbEntry)
      → (f ≡ e) × (f.pdid ≡ pdid) × (f.asid ≡ asid) × (f.vpn ≡ vpn)
      → s f.pdid f.asid f.vpn ≡ some f
      → s pdid asid vpn ≡ some e
  mapped s pdid asid vpn f e same h = rw (← same.1, ← same.2, ← same.3) (h ∙ ap some same.0)

  -- The tag of a blank entry, under which a lookup finds an entry that nobody inserted.
  abbrev pub IsBlankTag : ℕ → ℕ → ℕ → Type 0
  IsBlankTag pdid asid va =
      (pdid ≡ 0) × (asid ≡ 2 ^ p.asid_bits - 1) × (va / 2 ^ page_shift ≡ 2 ^ vpn_bits p - 1)

  hit :
      (pdid asid vpn : ℕ) (f e : TlbEntry)
      → (if f.pdid == pdid && f.asid == asid && f.vpn == vpn then some f else none) ≡ some e
      → (f ≡ e) × (f.pdid ≡ pdid) × (f.asid ≡ asid) × (f.vpn ≡ vpn)
  hit pdid asid vpn f e h = ground arith

  lookup-IsSound :
      (s : Mappings) (t : Tlb) (pdid asid va : ℕ) (e : TlbEntry)
      → IsSound p s t
      → ¬ IsBlankTag pdid asid va
      → lookup p t pdid asid va ≡ some e
      → s pdid asid (va / 2 ^ page_shift) ≡ some e
  unfolding lookup
  lookup-IsSound s t pdid asid va e sound tag h =
      let f = get_or t.entries (index t (va / 2 ^ page_shift)) (blank_entry p) in
      let same = hit pdid asid (va / 2 ^ page_shift) f e h in
      elim (sound.1 (index t (va / 2 ^ page_shift))) [
        | inl blank ↦ absurd (
            tag (
              sym same.1 ∙ ap (λ (g : TlbEntry). g.pdid) blank,
              sym same.2 ∙ ap (λ (g : TlbEntry). g.asid) blank,
              sym same.3 ∙ ap (λ (g : TlbEntry). g.vpn) blank,
            ))
        | inr held ↦ mapped s pdid asid (va / 2 ^ page_shift) f e same held.1
      ]

  -- Whatever was inserted and flushed before, from an empty buffer of any size on, a lookup that hits
  -- gives the mapping that was last inserted for its protection domain, address space and page and
  -- not flushed since: never an older one, one of another page, or one that was flushed. The
  -- arguments of the operations have their types' widths, and the tag of a blank entry is left out.
  pub lookup-run :
      (shift : ℕ) (os : List TlbOp)
      → All (Fits p) os
      → (pdid asid va : ℕ) (e : TlbEntry) → ¬ IsBlankTag pdid asid va
      → lookup p (run p os (new_tlb p shift)) pdid asid va ≡ some e
      → run_mappings p os no_mappings pdid asid (va / 2 ^ page_shift) ≡ some e
  lookup-run shift os h pdid asid va e tag hit =
      lookup-IsSound (run_mappings p os no_mappings) (run p os (new_tlb p shift)) pdid asid va e
        (run-IsSound os no_mappings (new_tlb p shift) h (new_tlb-IsSound p shift)) tag hit
