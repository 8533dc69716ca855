-- ===== src/Ckpt/Load.antt =====
-- src/util/fmt.h: what `MemTrace::load` records, on each of its paths.
use rv8_riscv_ckpt.Base.{
  if◌then◌else◌, Option-cases, ==_iff, ℕ, zero, suc, ◌+◌, ◌-◌, ◌*◌, ◌/◌, ◌%◌, ◌^◌, ◌≤◌, ◌<◌, true,
  false, ◌&&◌, ◌==◌, ◌≡◌, refl, ap, ◌∙◌, ◌⊎◌, Bool-cases, inl, inr, arith, Option, some, bit_and,
  bit_and-ones,
}
use mathlib.Core.Path.{subst}
use rv8_riscv_ckpt.Ckpt.Page.{PageRec, check, put, size_mask}
use rv8_riscv_ckpt.Ckpt.Seen.{seen, within, check-zero, check-full}
use rv8_riscv_ckpt.Ckpt.Mem.{
  MemTrace, get_page, get_load_page, with_page, put_byte, load_bytes, load, store,
}
use rv8_riscv_ckpt.Ckpt.Recorded.{
  get_page_rest, recorded, first_access, IsSound, IsCached-KeepsPages, KeepsPages,
  get_page-IsCached, with_page-KeepsPages, recorded-put, recorded_all, first_access-suc,
}

-- A trace with a page that is there, and a value that an access records.
abbrev pub HasPage : ℕ → MemTrace → Type 0
HasPage n t = (page : PageRec) × (t.pages n ≡ some page)

abbrev pub Records : ℕ → ℕ → ℕ → MemTrace → MemTrace → Type 0
Records size addr val t t' =
    IsSound t' × ((a : ℕ) → recorded t' a ≡ first_access size addr val (recorded t) a)

abbrev pub Succeeds : (MemTrace → Type 0) → Option MemTrace → Type 0
Succeeds P o = (t : MemTrace) × (o ≡ some t) × P t

pub IsSound-KeepsPages :
    (t t' : MemTrace)
    → t'.fetch_cache ≡ t.fetch_cache
    → t'.load_cache ≡ t.load_cache
    → KeepsPages t t'
    → IsSound t
    → IsSound t'
IsSound-KeepsPages t t' e f keeps sound =
    rw (e, f)
      (
        IsCached-KeepsPages t.fetch_cache t t' keeps sound.0,
        IsCached-KeepsPages t.load_cache t t' keeps sound.1,
      )

-- The page of `load`.
get_load_page-HasPage :
    (pn : ℕ) (t : MemTrace)
    → 0 < pn
    → IsSound t
    → ((get_load_page pn t).0 ≡ some pn)
      × HasPage pn (get_load_page pn t).1
      × IsSound (get_load_page pn t).1
      × ((a : ℕ) → recorded (get_load_page pn t).1 a ≡ recorded t a)
unfolding get_load_page recorded
get_load_page-HasPage pn t h sound =
    let found = get_page-IsCached pn t.load_cache t h sound.1 in
    let rest = get_page_rest pn t.load_cache t in
    let fetch_cached =
      IsCached-KeepsPages t.fetch_cache t (get_page pn t.load_cache t).1 found.3 sound.0 in
    (found.0, found.1, (rw rest.0 fetch_cached, found.2), found.4)

-- A page that is changed.
pub with_page-IsSound :
    (n : ℕ) (page : PageRec) (t : MemTrace)
    → IsSound t
    → HasPage n (with_page (some n) page t) × IsSound (with_page (some n) page t)
with_page-IsSound n page t sound =
    let here : (n == n) ≡ true = ground arith in
    (
      (page, rw here refl),
      (
        IsCached-KeepsPages t.fetch_cache t (with_page (some n) page t)
            (with_page-KeepsPages n page t) sound.0,
        IsCached-KeepsPages t.load_cache t (with_page (some n) page t)
            (with_page-KeepsPages n page t) sound.1,
      ),
    )

check_one :
    (page : PageRec) (pos : ℕ) → (check 1 page pos == 0) ≡ false → check 1 page pos ≡ size_mask 1
unfolding check
check_one page pos h =
    let e = bit_and-ones 1 (page.visited (pos / 8) / 2 ^ (pos % 8)) in ground arith

put_byte-Records :
    (n : ℕ) (page : PageRec) (pos x : ℕ) (t : MemTrace)
    → pos < 4096
    → t.pages n ≡ some page
    → IsSound t
    → HasPage n (put_byte (some n) page pos x t)
      × Records 1 (n * 4096 + pos) (x % 256) t (put_byte (some n) page pos x t)
unfolding put_byte
put_byte-Records n page pos x t h there sound =
    let fits : pos % 8 + 1 ≤ 8 = omega arith in
    elim (Bool-cases (check 1 page pos == 0)) [
      | inl fresh ↦
          let none_seen : (o : ℕ) → within 1 pos o ≡ true → seen page o ≡ false =
            λ o inside. check-zero 1 page pos o fits ((==_iff _ 0).0 fresh) inside in
          let kept = with_page-IsSound n (put 1 page pos (x % 256)) t sound in
          rw fresh (
            kept.0,
            (
              kept.1,
              λ a. recorded-put 1 n page pos (x % 256) t a fits (omega arith) there none_seen,
            ),
          )
      | inr old ↦
          let all_seen : (o : ℕ) → within 1 pos o ≡ true → seen page o ≡ true =
            λ o inside. check-full 1 page pos o fits (check_one page pos old) inside in
          rw old (
            (page, there),
            (sound, λ a. recorded_all 1 n page pos (x % 256) t a (omega arith) there all_seen),
          )
    ]

first_access_cong :
    (size addr val : ℕ) (r s : ℕ → Option ℕ) (a : ℕ)
    → r a ≡ s a
    → first_access size addr val r a ≡ first_access size addr val s a
unfolding first_access
first_access_cong size addr val r s a e = rw e refl

-- A first byte and the others are an access.
Records-suc :
    (n addr first next x : ℕ) (t t1 t2 : MemTrace)
    → first ≡ addr
    → next ≡ addr + 1
    → Records 1 first (x % 256) t t1
    → Records n next (x / 256) t1 t2
    → Records (suc n) addr x t t2
Records-suc n addr first next x t t1 t2 e f h1 h2 =
    let at_first : (a : ℕ) → recorded t1 a ≡ first_access 1 addr (x % 256) (recorded t) a =
      λ a. h1.1 a ∙ ap (λ i. first_access 1 i (x % 256) (recorded t) a) e in
    let others : (a : ℕ) → recorded t2 a ≡ first_access n (addr + 1) (x / 256) (recorded t1) a =
      λ a. h2.1 a ∙ ap (λ i. first_access n i (x / 256) (recorded t1) a) f in
    (
      h2.0,
      λ a.
          others a
          ∙ first_access_cong n (addr + 1) (x / 256) (recorded t1)
              (first_access 1 addr (x % 256) (recorded t)) a (at_first a)
          ∙ first_access-suc n addr x (recorded t) a,
    )

Records-from :
    (size addr val : ℕ) (t t1 t2 : MemTrace)
    → ((a : ℕ) → recorded t1 a ≡ recorded t a)
    → Records size addr val t1 t2
    → Records size addr val t t2
Records-from size addr val t t1 t2 same h =
    (h.0, λ a. h.1 a ∙ first_access_cong size addr val (recorded t1) (recorded t) a (same a))

first_access_none : (addr x : ℕ) (r : ℕ → Option ℕ) (a : ℕ) → r a ≡ first_access 0 addr x r a
unfolding first_access
first_access_none addr x r a =
    let outside : within 0 addr a ≡ false = ground arith in
    rw outside
      (elim (Option-cases (r a)) [ inl missing ↦ rw missing refl | inr there ↦ rw there.1 refl ])

load_bytes-Records :
    (n pn pos x : ℕ) (t : MemTrace)
    → 0 < pn
    → pos ≤ 4096
    → HasPage pn t
    → IsSound t
    → Succeeds (Records n (pn * 4096 + pos) x t) (load_bytes n (some pn) pn pos x t)
unfolding load_bytes
load_bytes-Records zero pn pos x t h b there sound =
    (t, refl, (sound, λ a. first_access_none (pn * 4096 + pos) x (recorded t) a))
load_bytes-Records (suc n) pn pos x t h b there sound = elim (Bool-cases (pos == 4096)) [
  | inl crosses ↦
      let found = get_load_page-HasPage (pn + 1) t (omega arith) sound in
      let first_put =
        put_byte-Records (pn + 1) found.1.0 0 x (get_load_page (pn + 1) t).1 (omega arith) found.1.1
          found.2 in
      let rest =
        load_bytes-Records n (pn + 1) 1 (x / 256)
          (put_byte (some (pn + 1)) found.1.0 0 x (get_load_page (pn + 1) t).1) (omega arith)
          (omega arith) first_put.0 first_put.1.0 in
      rw (crosses, found.0, found.1.1)
        (
          rest.0,
          rest.1,
          Records-from (suc n) (pn * 4096 + pos) x t (get_load_page (pn + 1) t).1 rest.0 found.3 (
              Records-suc n (pn * 4096 + pos) ((pn + 1) * 4096 + 0) ((pn + 1) * 4096 + 1) x
                (get_load_page (pn + 1) t).1
                (put_byte (some (pn + 1)) found.1.0 0 x (get_load_page (pn + 1) t).1) rest.0
                (ground arith) (ground arith) first_put.1 rest.2),
        )
  | inr stays ↦
      let first_put = put_byte-Records pn there.0 pos x t (ground arith) there.1 sound in
      let rest =
        load_bytes-Records n pn (pos + 1) (x / 256) (put_byte (some pn) there.0 pos x t) h
          (ground arith) first_put.0 first_put.1.0 in
      rw (stays, there.1)
        (
          rest.0,
          rest.1,
          Records-suc n (pn * 4096 + pos) (pn * 4096 + pos) (pn * 4096 + (pos + 1)) x t
              (put_byte (some pn) there.0 pos x t) rest.0 refl (omega arith) first_put.1 rest.2,
        )
]

-- The sizes of the accesses: 1, 2, 4 and 8 bytes.
abbrev pub IsSize : ℕ → Type 0
IsSize size = (size ≡ 1) ⊎ ((size ≡ 2) ⊎ ((size ≡ 4) ⊎ (size ≡ 8)))

aligned_fits :
    (size offset : ℕ)
    → IsSize size
    → offset < 4096
    → (bit_and offset (size - 1) == 0) ≡ true
    → (offset % 8 + size ≤ 8) × (offset + size ≤ 4096)
aligned_fits size offset (inl e) h = rw e λ aligned. (omega arith, omega arith)
aligned_fits size offset (inr (inl e)) h = rw e λ aligned. ground (arith, bit_and-ones 1 offset)
aligned_fits size offset (inr (inr (inl e))) h =
    rw e λ aligned. ground (arith, bit_and-ones 2 offset)
aligned_fits size offset (inr (inr (inr e))) h =
    rw e λ aligned. ground (arith, bit_and-ones 3 offset)

-- The three paths of `load`, once its page is found.
load_page-Records :
    (size pn offset val : ℕ) (t : MemTrace)
    → IsSize size
    → 0 < pn
    → offset < 4096
    → (there : HasPage pn t) → IsSound t
    → Succeeds (Records size (pn * 4096 + offset) val t) (
        if (bit_and offset (size - 1) == 0) && check size there.0 offset == 0
        then some (with_page (some pn) (put size there.0 offset val) t)
        else if (bit_and offset (size - 1) == 0) && check size there.0 offset == size_mask size
        then some t
        else load_bytes size (some pn) pn offset val t)
load_page-Records size pn offset val t h positive small there sound =
    elim (Bool-cases (bit_and offset (size - 1) == 0)) [
      | inl aligned ↦
          let fits = aligned_fits size offset h small aligned in
          rw aligned (elim (Bool-cases (check size there.0 offset == 0)) [
            | inl fresh ↦
                let none_seen : (o : ℕ) → within size offset o ≡ true → seen there.0 o ≡ false =
                  λ o inside.
                    check-zero size there.0 offset o fits.0 ((==_iff _ 0).0 fresh) inside in
                let kept = with_page-IsSound pn (put size there.0 offset val) t sound in
                rw fresh (
                  with_page (some pn) (put size there.0 offset val) t,
                  refl,
                  (
                    kept.1,
                    λ a.
                        recorded-put size pn there.0 offset val t a fits.0 fits.1 there.1 none_seen,
                  ),
                )
            | inr partial ↦
                rw partial (elim (Bool-cases (check size there.0 offset == size_mask size)) [
                  | inl full ↦
                      let all_seen : (o : ℕ) → within size offset o ≡ true → seen there.0 o ≡ true =
                        λ o inside.
                          check-full size there.0 offset o fits.0 ((==_iff _ _).0 full) inside in
                      rw full (
                        t,
                        refl,
                        (
                          sound,
                          λ a. recorded_all size pn there.0 offset val t a fits.1 there.1 all_seen,
                        ),
                      )
                  | inr some_seen ↦
                      rw some_seen
                        (load_bytes-Records size pn offset val t positive (omega arith) there sound)
                ])
          ])
      | inr unaligned ↦
          rw unaligned (load_bytes-Records size pn offset val t positive (omega arith) there sound)
    ]

pub load-Records :
    (size addr val : ℕ) (t : MemTrace)
    → IsSize size
    → 4096 ≤ addr
    → IsSound t
    → Succeeds (Records size addr val t) (load size addr val t)
unfolding load
load-Records size addr val t h far sound =
    let found = get_load_page-HasPage (addr / 2 ^ 12) t (omega arith) sound in
    let low : bit_and addr (2 ^ 12 - 1) ≡ addr % 4096 = bit_and-ones 12 addr in
    let rest =
      load_page-Records size (addr / 2 ^ 12) (addr % 4096) val (get_load_page (addr / 2 ^ 12) t).1 h
        (omega arith) (omega arith) found.1 found.2 in
    let split : addr / 2 ^ 12 * 4096 + addr % 4096 ≡ addr = omega arith in
    rw (found.0, found.1.1, low)
      (
        rest.0,
        rest.1,
        Records-from size addr val t (get_load_page (addr / 2 ^ 12) t).1 rest.0 found.3 (
            subst (λ i. Records size i val (get_load_page (addr / 2 ^ 12) t).1 rest.0) split
              rest.2),
      )

pub store-Records :
    (size addr : ℕ) (t : MemTrace)
    → IsSize size
    → 4096 ≤ addr
    → IsSound t
    → Succeeds (Records size addr 0 t) (store size addr t)
unfolding store recorded
store-Records size addr t h far sound =
    let done = load-Records size addr 0 t h far sound in rw done.1 (_, refl, done.2)

-- A load or a store of 1, 2, 4 or 8 bytes outside page 0 never faults, whatever was recorded
-- before, aligned or not, within a page or across two. For each of its bytes that was not recorded
-- before, the trace then holds the byte of the value after a load, and 0 after a store; for every
-- other address it holds what it held. So the first access to a byte is the one that is kept.
pub load-first_access :
    (size addr val : ℕ) (t : MemTrace)
    → IsSize size
    → 4096 ≤ addr
    → IsSound t
    → Succeeds (Records size addr val t) (load size addr val t)
      × Succeeds (Records size addr 0 t) (store size addr t)
load-first_access size addr val t h far sound =
    (load-Records size addr val t h far sound, store-Records size addr t h far sound)
