-- ===== src/Ckpt/Replay/Fetches.antt =====
-- src/util/fmt.h: what `MemTrace::fetch` records.
use mathlib.Core.Path.{subst}
use rv8_riscv_ckpt.Base.{
  ==_iff, ==_iff, ℕ, ◌+◌, ◌-◌, ◌*◌, ◌/◌, ◌%◌, ◌^◌, ◌≤◌, ◌<◌, Bool, false, ◌==◌, bit_and,
  bit_and-ones, ◌≡◌, ◌≢◌, refl, sym, ap, ◌∙◌, ◌⊎◌, Bool-cases, inl, inr, arith, Option, some,
  if◌then◌else◌,
}
use rv8_riscv_ckpt.Ckpt.Page.{PageRec, size_mask, check}
use rv8_riscv_ckpt.Ckpt.Seen.{within, recorded_in, recorded_in-put}
use rv8_riscv_ckpt.Ckpt.Mem.{MemTrace, get_page, with_page}
use rv8_riscv_ckpt.Ckpt.Recorded.{
  recorded_at, recorded, recorded-with_page, IsSound, IsCached-KeepsPages, get_page-IsCached,
  get_page_rest,
}
use rv8_riscv_ckpt.Ckpt.Load.{HasPage, with_page-IsSound}
use rv8_riscv_ckpt.Ckpt.Execs.{
  IsCounted, IsCounted-SameExecs, get_page-SameExecs, count_exec-IsCounted,
}
use rv8_riscv_ckpt.Ckpt.Fetch.{and_fetch, fetch_page, get_fetch_page, fetch_at, fetch, and_fetch}
use rv8_riscv_ckpt.Ckpt.Partial.{recorded_in-put_marked}

-- A trace whose pointer caches are sound.
abbrev pub IsReady : MemTrace → Type 0
IsReady t = IsSound t × IsCounted t

-- A fetch that succeeds and changes no byte outside a range.
abbrev pub Fetches : ℕ → ℕ → MemTrace → Option (Bool × MemTrace) → Type 0
Fetches size addr t o =
    (r : Bool × MemTrace) × (o ≡ some r)
    × IsReady r.1
    × ((a : ℕ) → within size addr a ≡ false → recorded r.1 a ≡ recorded t a)

-- On each of its paths, `fetch` of a page changes no byte outside the instruction.
fetch_page_outside :
    (size : ℕ) (page : PageRec) (offset inst o : ℕ)
    → 0 < size
    → offset % 8 + size ≤ 8
    → within size offset o ≡ false
    → recorded_in (fetch_page size page offset inst).1 o ≡ recorded_in page o
unfolding fetch_page
fetch_page_outside size page offset inst o positive fits outside =
    let away : o ≢ offset = λ e. ground arith in
    elim (Bool-cases (check size page offset == 0)) [
      | inl fresh ↦ rw fresh (recorded_in-put size page offset inst o fits ∙ rw outside refl)
      | inr old ↦ elim (Bool-cases (check size page offset == size_mask size)) [
        | inl full ↦ rw (old, full) refl
        | inr partial ↦
            rw (old, partial)
              (recorded_in-put_marked size 0 (check size page offset) offset inst page o away)
      ]
    ]

get_fetch_page-HasPage :
    (pn : ℕ) (t : MemTrace)
    → 0 < pn
    → IsReady t
    → ((get_fetch_page pn t).0 ≡ some pn)
      × HasPage pn (get_fetch_page pn t).1
      × IsReady (get_fetch_page pn t).1
      × ((a : ℕ) → recorded (get_fetch_page pn t).1 a ≡ recorded t a)
unfolding get_fetch_page recorded
get_fetch_page-HasPage pn t h ready =
    let found = get_page-IsCached pn t.fetch_cache t h ready.0.0 in
    let rest = get_page_rest pn t.fetch_cache t in
    let load_cached =
      IsCached-KeepsPages t.load_cache t (get_page pn t.fetch_cache t).1 found.3 ready.0.1 in
    let counted =
      IsCounted-SameExecs t (get_page pn t.fetch_cache t).1 (get_page-SameExecs pn t.fetch_cache t)
        ready.1 in
    (found.0, found.1, ((found.2, rw rest.1 load_cached), counted), found.4)

fetch_at-Fetches :
    (size pn offset inst : ℕ) (t : MemTrace)
    → 0 < size
    → 0 < pn
    → offset < 4096
    → offset % 8 + size ≤ 8
    → IsReady t
    → Fetches size (pn * 4096 + offset) t (fetch_at size pn offset inst t)
unfolding fetch_at recorded
fetch_at-Fetches size pn offset inst t positive far small fits ready =
    let t1 = (get_fetch_page pn t).1 in
    let found = get_fetch_page-HasPage pn t far ready in
    let page = found.1.0 in
    let page' = (fetch_page size page offset inst).1 in
    let kept = with_page-IsSound pn page' t1 found.2.0 in
    let same : (a : ℕ)
        → within size (pn * 4096 + offset) a ≡ false
        → recorded (with_page (some pn) page' t1) a ≡ recorded t a =
      λ a outside. recorded-with_page pn page' t1 a ∙ elim (Bool-cases (a / 4096 == pn)) [
        | inl inside ↦
            let at : t1.pages (a / 4096) ≡ some page =
              rw ((==_iff (a / 4096) pn).0 inside) found.1.1 in
            let range : within size offset (a % 4096) ≡ false = ground arith in
            rw inside (
              fetch_page_outside size page offset inst (a % 4096) positive fits range
              ∙ sym (ap (λ q. recorded_at q (a % 4096)) at)
              ∙ found.3 a)
        | inr other ↦ rw other (found.3 a)
      ] in
    rw (found.0, found.1.1) (_, refl, (kept.1, found.2.1), same)

-- The two halves of an instruction that is not aligned.
fetch-Fetches_both :
    (addr next : ℕ) (t : MemTrace) (o : Option (Bool × MemTrace))
    (f : MemTrace → Option (Bool × MemTrace))
    → next ≡ addr + 2
    → Fetches 2 addr t o
    → ((t1 : MemTrace) → IsReady t1 → Fetches 2 next t1 (f t1))
    → Fetches 4 addr t (and_fetch o f)
fetch-Fetches_both addr next t o f e first second =
    let rest = second first.0.1 first.2 in
    rw (first.1, rest.1)
      (_, refl, rest.2, λ a outside. rest.3 a (ground arith) ∙ first.3 a (ground arith))

-- One part of an instruction, at its address.
part-Fetches :
    (size pn offset addr inst : ℕ) (t : MemTrace)
    → 0 < size
    → 0 < pn
    → offset < 4096
    → offset % 8 + size ≤ 8
    → pn * 4096 + offset ≡ addr
    → IsReady t
    → Fetches size addr t (fetch_at size pn offset inst t)
part-Fetches size pn offset addr inst t positive far small fits e ready =
    subst (λ i. Fetches size i t (fetch_at size pn offset inst t)) e
      (fetch_at-Fetches size pn offset inst t positive far small fits ready)

-- The halves, in one page or in two.
halves-Fetches :
    (addr inst : ℕ) (t : MemTrace)
    → 4096 ≤ addr
    → addr % 2 ≡ 0
    → IsReady t
    → Fetches 4 addr t (
        and_fetch (fetch_at 2 (addr / 2 ^ 12) (addr % 4096) (inst % 2 ^ 16) t) λ t2.
          if addr % 4096 + 2 == 4096
          then fetch_at 2 (addr / 2 ^ 12 + 1) 0 (inst / 2 ^ 16 % 2 ^ 16) t2
          else fetch_at 2 (addr / 2 ^ 12) (addr % 4096 + 2) (inst / 2 ^ 16 % 2 ^ 16) t2)
halves-Fetches addr inst t far even ready =
    let pn = addr / 2 ^ 12 in
    let positive : 0 < pn = omega arith in
    let first =
      part-Fetches 2 pn (addr % 4096) addr (inst % 2 ^ 16) t (omega arith) positive (omega arith)
        (omega arith) (omega arith) ready in
    fetch-Fetches_both addr (addr + 2) t (fetch_at 2 pn (addr % 4096) (inst % 2 ^ 16) t) _ refl
      first
      λ t1 ready1. elim (Bool-cases (addr % 4096 + 2 == 4096)) [
        | inl crosses ↦ rw crosses (
            part-Fetches 2 (pn + 1) 0 (addr + 2) (inst / 2 ^ 16 % 2 ^ 16) t1 (omega arith)
              (omega arith) (omega arith) (omega arith) (ground arith) ready1)
        | inr stays ↦ rw stays (
            part-Fetches 2 pn (addr % 4096 + 2) (addr + 2) (inst / 2 ^ 16 % 2 ^ 16) t1 (omega arith)
              positive (ground arith) (omega arith) (omega arith) ready1)
      ]

Fetches-from :
    (size addr : ℕ) (t t1 : MemTrace) (o : Option (Bool × MemTrace))
    → t1.pages ≡ t.pages
    → Fetches size addr t1 o
    → Fetches size addr t o
unfolding recorded
Fetches-from size addr t t1 o e h =
    (h.0, h.1, h.2, λ a outside. h.3 a outside ∙ ap (λ f. recorded_at (f (a / 4096)) (a % 4096)) e)

-- The fetch of an instruction of 2 or 4 bytes at an even address outside page 0 never faults, and it
-- changes no byte that is recorded outside the instruction.
pub fetch-Fetches :
    (addr inst length : ℕ) (t : MemTrace)
    → (length ≡ 2) ⊎ (length ≡ 4)
    → 4096 ≤ addr
    → addr % 2 ≡ 0
    → IsReady t
    → Fetches length addr t (fetch addr inst length t)
unfolding fetch
fetch-Fetches addr inst length t sizes far even ready =
    let pn = addr / 2 ^ 12 in
    let low : bit_and addr (2 ^ 12 - 1) ≡ addr % 4096 = bit_and-ones 12 addr in
    let two_bits : bit_and addr 3 ≡ addr % 4 = bit_and-ones 2 addr in
    let c = count_exec-IsCounted addr t far ready.1 in
    let sound : IsSound c.0 = rw (c.3, c.4, c.5) ready.0 in
    let ready' : IsReady c.0 = (sound, c.2) in
    rw (c.1, low)
      (elim sizes [
        | inl two ↦ rw two (
            Fetches-from 2 addr t c.0 (fetch_at 2 pn (addr % 4096) (inst % 2 ^ 16) c.0) c.3 (
              part-Fetches 2 pn (addr % 4096) addr (inst % 2 ^ 16) c.0 (omega arith) (omega arith)
                (omega arith) (omega arith) (omega arith) ready'))
        | inr four ↦ rw four (elim (Bool-cases (bit_and addr 3 == 0)) [
          | inl aligned ↦ rw aligned (
              Fetches-from 4 addr t c.0 (fetch_at 4 pn (addr % 4096) (inst % 2 ^ 32) c.0) c.3 (
                part-Fetches 4 pn (addr % 4096) addr (inst % 2 ^ 32) c.0 (omega arith) (omega arith)
                  (omega arith) (ground arith) (omega arith) ready'))
          | inr unaligned ↦
              rw unaligned
                (Fetches-from 4 addr t c.0 _ c.3 (halves-Fetches addr inst c.0 far even ready'))
        ])
      ])
