-- ===== src/Emu/Mmu/Retranslate.antt =====
-- src/emu/mmu-soft.h: what a translation leaves in the translation buffer.
use rv8_riscv_ckpt.Base.{
  ==_iff, ◌%◌, bit_and, arith, ◌∙◌, sym, ◌^◌, ◌<◌, length, ℕ, true, false, Bool-cases, ◌==◌, Option,
  none, some, ◌≡◌, refl, ap, inl, inr,
}
use rv8_riscv_ckpt.Emu.Pma.{Param}
use rv8_riscv_ckpt.Emu.Pte.{Ptm, flags, ppn}
use rv8_riscv_ckpt.Emu.Tlb.{lookup, TlbEntry, Tlb, insert}
use rv8_riscv_ckpt.Emu.Mmu.Walk.{ad_flags, walk_page_table, MmuOp, WalkEnd}
use rv8_riscv_ckpt.Emu.Mmu.{
  page_translate_addr, page_translate_addr_tlb_miss, Proc, Mmu, Outcome, Translated, tlb_of,
  with_tlb, asid_of, fill_tlb,
}
use rv8_riscv_ckpt.Emu.Bus.{Bus}
use rv8_riscv_ckpt.Emu.Tlb.Spec.{TlbOp, Fits}
use rv8_riscv_ckpt.Emu.Mmu.Leaf.{walk_page_table-IsLeaf}
use rv8_riscv_ckpt.Emu.Tlb.Evict.{lookup-insert}

abbrev got : Outcome Translated → Translated
got (Outcome.done t) = t
got _ = (0, none)

tlb_of-with_tlb : {M : Type 0} (op : MmuOp) (t : Tlb) (u : Mmu M) → tlb_of op (with_tlb op t u) ≡ t
tlb_of-with_tlb MmuOp.op_fetch t u = refl
tlb_of-with_tlb MmuOp.op_load t u = refl
tlb_of-with_tlb MmuOp.op_store t u = refl

module _ {M : Type 0} (p : Param) (ptm : Ptm) (proc : Proc) (va : ℕ) (op : MmuOp) where
  -- A translation that succeeded for `proc` with entry `e` in state `u`, and left `u'`.
  abbrev Filled : WalkEnd → Mmu M → ℕ → Option TlbEntry → Mmu M → Type 0
  Filled w u pa e u' =
      (pte : ℕ) × (level : ℕ) × (w ≡ WalkEnd.found pte level pa)
      × (some
            (insert p (tlb_of op u) proc.pdid (asid_of p proc) va level (flags pte) (ppn ptm pte)).0
          ≡ e)
      × (with_tlb op
            (insert p (tlb_of op u) proc.pdid (asid_of p proc) va level (flags pte) (ppn ptm pte)).1
            u
          ≡ u')

  fill_tlb-done :
      (w : WalkEnd) (u u' : Mmu M) (pa : ℕ) (e : Option TlbEntry)
      → fill_tlb p ptm proc va op w u ≡ (Outcome.done (pa, e), u')
      → Filled w u pa e u'
  unfolding fill_tlb
  fill_tlb-done WalkEnd.faulted u u' pa e h = cc
  fill_tlb-done WalkEnd.below u u' pa e h = cc
  fill_tlb-done (WalkEnd.found pte level q) u u' pa e h = elim (Bool-cases (q == 0)) [
    | inl zero_page ↦ absurd (unreached pte level q zero_page h)
    | inr other ↦ reached pte level q other h
  ]
    where
      reached :
          (pte level q : ℕ)
          → (q == 0) ≡ false
          → fill_tlb p ptm proc va op (WalkEnd.found pte level q) u ≡ (Outcome.done (pa, e), u')
          → Filled (WalkEnd.found pte level q) u pa e u'
      reached pte level q other h =
          let k = rw (fill_tlb, other) at h in
          (
            pte,
            level,
            ap (λ r. WalkEnd.found pte level (got r.0).0) k,
            ap (λ r. (got r.0).1) k,
            ap (λ r. r.1) k,
          )

      unreached :
          (pte level q : ℕ)
          → (q == 0) ≡ true
          → fill_tlb p ptm proc va op (WalkEnd.found pte level q) u ≡ (Outcome.done (pa, e), u')
          → ⊥
      unreached pte level q zero_page h = let k = rw (fill_tlb, zero_page) at h in cc

mem_apart :
    {M : Type 0} (op : MmuOp) (u : Mmu M) (m : M) → tlb_of op (record u { mem = m }) ≡ tlb_of op u
mem_apart MmuOp.op_fetch u m = refl
mem_apart MmuOp.op_load u m = refl
mem_apart MmuOp.op_store u m = refl

-- The arguments of a lookup fit the fields of an entry.
abbrev pub IsTagged : Param → Proc → ℕ → Type 0
IsTagged p proc va =
    (proc.pdid < 2 ^ 32) × (asid_of p proc < 2 ^ p.asid_bits) × (va < 2 ^ p.ux_bits)

own_lookup :
    (p : Param) (t : Tlb) (pdid asid va level f n : ℕ)
    → length t.entries ≡ 2 ^ t.shift
    → Fits p (TlbOp.inserted pdid asid va level f n)
    → lookup p (insert p t pdid asid va level f n).1 pdid asid va
      ≡ some (insert p t pdid asid va level f n).0
own_lookup p t pdid asid va level f n size fits =
    lookup-insert p t pdid asid va level f n size fits pdid asid va ∙ ground arith

module _ {M : Type 0} (bus : Bus M) (p : Param) (ptm : Ptm) (proc : Proc) (va : ℕ) (op : MmuOp)
    (u u' : Mmu M) where
  HasLookup : Option TlbEntry → Type 0
  HasLookup e = lookup p (tlb_of op u') proc.pdid (asid_of p proc) va ≡ e

  lookup-Filled :
      (w : WalkEnd) (u1 : Mmu M) (pa : ℕ) (e : Option TlbEntry)
      → length (tlb_of op u1).entries ≡ 2 ^ (tlb_of op u1).shift
      → IsTagged p proc va
      → Filled p ptm proc va op w u1 pa e u'
      → HasLookup e
  unfolding HasLookup
  lookup-Filled w u1 pa e size tag f =
      ap (λ v. lookup p (tlb_of op v) proc.pdid (asid_of p proc) va) (sym f.4)
      ∙ rw
          (tlb_of-with_tlb op
            (insert p (tlb_of op u1) proc.pdid (asid_of p proc) va f.1 (flags f.0) (ppn ptm f.0)).1
            u1)
          (own_lookup p (tlb_of op u1) proc.pdid (asid_of p proc) va f.1 (flags f.0) (ppn ptm f.0)
            size tag)
      ∙ f.3

  pteb_of :
      (w : WalkEnd) (u1 : Mmu M) (pa : ℕ) (e : TlbEntry)
      (f : Filled p ptm proc va op w u1 pa (some e) u')
      → e.pteb ≡ flags f.0
  unfolding insert
  pteb_of w u1 pa e f =
      let kept : flags f.0 % 2 ^ 10 ≡ flags f.0 = omega arith in ap pteb_or (sym f.3) ∙ kept
    where
      pteb_or : Option TlbEntry → ℕ
      pteb_or none = 0
      pteb_or (some g) = g.pteb

  walks_again :
      (e : TlbEntry)
      → lookup p (tlb_of op u') proc.pdid (asid_of p proc) va ≡ some e
      → bit_and e.pteb (ad_flags op) ≡ ad_flags op
      → page_translate_addr bus p ptm proc va op u'
        ≡ page_translate_addr_tlb_miss bus p ptm proc va op u'
  unfolding page_translate_addr
  walks_again e hit up =
      let eq : (bit_and e.pteb (ad_flags op) == ad_flags op) ≡ true =
        (==_iff (bit_and e.pteb (ad_flags op)) (ad_flags op)).1 up in
      rw (page_translate_addr, hit, eq) refl

  -- What a translation that walked the page table leaves behind, when the fields of the lookup fit an
  -- entry: the entry that it returns is found by the next lookup of the address; and yet the next
  -- translation of the address for the same operation walks the page table again, since
  -- `page_translate_addr` uses an entry only when its accessed and dirty flags are not up to date.
  pub page_translate_addr_again :
      (pa : ℕ) (e : TlbEntry)
      → length (tlb_of op u).entries ≡ 2 ^ (tlb_of op u).shift
      → IsTagged p proc va
      → page_translate_addr_tlb_miss bus p ptm proc va op u ≡ (Outcome.done (pa, some e), u')
      → (lookup p (tlb_of op u') proc.pdid (asid_of p proc) va ≡ some e)
        × (page_translate_addr bus p ptm proc va op u'
            ≡ page_translate_addr_tlb_miss bus p ptm proc va op u')
  unfolding page_translate_addr_tlb_miss HasLookup
  page_translate_addr_again pa e size tag h =
      let w = walk_page_table bus p ptm va op proc.sptbr u.mem in
      let u1 : Mmu M = record u { mem = w.1 } in
      let f = fill_tlb-done p ptm proc va op w.0 u1 u' pa (some e) h in
      let leaf = walk_page_table-IsLeaf bus p ptm va op proc.sptbr u.mem f.0 f.1 pa f.2 in
      let size1 : length (tlb_of op u1).entries ≡ 2 ^ (tlb_of op u1).shift =
        rw (mem_apart op u w.1) size in
      let hit = lookup-Filled w.0 u1 pa (some e) size1 tag f in
      (
        hit,
        walks_again e hit (ap (λ b. bit_and b (ad_flags op)) (pteb_of w.0 u1 pa e f) ∙ leaf.1.1),
      )
