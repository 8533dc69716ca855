-- ===== src/Ckpt/Recorded.antt =====
-- src/util/fmt.h: the bytes that a `MemTrace` holds, and its page pointers.
use rv8_riscv_ckpt.Base.{
  suc, ==_iff, ℕ, ◌+◌, ◌-◌, ◌*◌, ◌/◌, ◌%◌, ◌≤◌, ◌<◌, Bool, true, false, ◌==◌, ◌≡◌, refl, sym, ap,
  ◌∙◌, ◌⊎◌, Bool-cases, Option-cases, inl, inr, bit-zero, arith, Option, none, some, if◌then◌else◌,
}
use rv8_riscv_ckpt.Ckpt.Page.{PageRec, new_page, byte, put}
use rv8_riscv_ckpt.Ckpt.Seen.{seen, within, recorded_in, recorded_in-put}
use rv8_riscv_ckpt.Ckpt.Mem.{MemTrace, PtrCache, add_page, get_page, with_page}

-- The byte that is recorded for an address.
abbrev pub recorded_at : Option PageRec → ℕ → Option ℕ
recorded_at none o = none
recorded_at (some page) o = recorded_in page o

unfoldable pub recorded : MemTrace → ℕ → Option ℕ
recorded t a = recorded_at (t.pages (a / 4096)) (a % 4096)

-- The bytes after an access: what was recorded stays, and the other bytes of the access are added.
abbrev pub or_else : Option ℕ → Option ℕ → Option ℕ
or_else none y = y
or_else (some v) y = some v

pub or_else_none : (x : Option ℕ) → or_else x none ≡ x
or_else_none none = refl
or_else_none (some v) = refl

or_else-fresh :
    (inside was_seen : Bool) (v w : ℕ)
    → (inside ≡ true → was_seen ≡ false)
    → (if inside then some v else (if was_seen then some w else none))
      ≡ or_else (if was_seen then some w else none) (if inside then some v else none)
or_else-fresh true was_seen v w h = rw (h refl) refl
or_else-fresh false was_seen v w h = sym (or_else_none _)

unfoldable pub first_access : ℕ → ℕ → ℕ → (ℕ → Option ℕ) → ℕ → Option ℕ
first_access size addr val r a =
    or_else (r a) (if within size addr a then some (byte val (a - addr)) else none)

-- A pointer cache is empty, or it points to the record of its page.
abbrev pub IsCached : PtrCache → MemTrace → Type 0
IsCached cache t =
    ((cache.idx ≡ 0) × (cache.ptr ≡ none))
    ⊎ ((cache.ptr ≡ some cache.idx) × ((page : PageRec) × (t.pages cache.idx ≡ some page)))

abbrev pub IsSound : MemTrace → Type 0
IsSound t = IsCached t.fetch_cache t × IsCached t.load_cache t

-- A change of the records that keeps every page.
abbrev pub KeepsPages : MemTrace → MemTrace → Type 0
KeepsPages t t' =
    (n : ℕ) (page : PageRec) → t.pages n ≡ some page → (page' : PageRec) × (t'.pages n ≡ some page')

pub IsCached-KeepsPages :
    (cache : PtrCache) (t t' : MemTrace) → KeepsPages t t' → IsCached cache t → IsCached cache t'
IsCached-KeepsPages cache t t' keeps (inl empty) = inl empty
IsCached-KeepsPages cache t t' keeps (inr (e, there)) = inr (e, keeps cache.idx there.0 there.1)

pub add_page-KeepsPages : (pn : ℕ) (t : MemTrace) → KeepsPages t (add_page pn t)
unfolding add_page
add_page-KeepsPages pn t n page h = elim (Option-cases (t.pages pn)) [
  | inl missing ↦ rw missing (elim (Bool-cases (n == pn)) [
    | inl same ↦ rw same (new_page, refl)
    | inr other ↦ rw other (page, h)
  ])
  | inr (old, there) ↦ rw there (page, h)
]

pub add_page_there :
    (pn : ℕ) (t : MemTrace) → (page : PageRec) × ((add_page pn t).pages pn ≡ some page)
unfolding add_page
add_page_there pn t = elim (Option-cases (t.pages pn)) [
  | inl missing ↦ let e : (pn == pn) ≡ true = ground arith in rw (missing, e) (new_page, refl)
  | inr (old, there) ↦ rw (there, there) (old, refl)
]

pub recorded-add_page : (pn : ℕ) (t : MemTrace) (a : ℕ) → recorded (add_page pn t) a ≡ recorded t a
unfolding add_page recorded
recorded-add_page pn t a = elim (Option-cases (t.pages pn)) [
  | inl missing ↦ rw missing (elim (Bool-cases (a / 4096 == pn)) [
    | inl same ↦
        let e : t.pages (a / 4096) ≡ none = ground arith in
        rw (same, e) (rw (bit-zero (a % 4096 % 8)) refl)
    | inr other ↦ rw other refl
  ])
  | inr (old, there) ↦ rw there refl
]

-- A page that is looked up is there, and what is recorded is unchanged.
pub get_page-IsCached :
    (pn : ℕ) (cache : PtrCache) (t : MemTrace)
    → 0 < pn
    → IsCached cache t
    → ((get_page pn cache t).0.ptr ≡ some pn)
      × ((page : PageRec) × ((get_page pn cache t).1.pages pn ≡ some page))
      × IsCached (get_page pn cache t).0 (get_page pn cache t).1
      × KeepsPages t (get_page pn cache t).1
      × ((a : ℕ) → recorded (get_page pn cache t).1 a ≡ recorded t a)
unfolding get_page
get_page-IsCached pn cache t h cached = elim (Bool-cases (pn == cache.idx)) [
  | inl same ↦ rw same (elim cached [
    | inl empty ↦ absurd (ground arith)
    | inr there ↦
        let e : pn ≡ cache.idx = ground arith in
        (rw e there.0, rw e there.1, inr there, (λ n page held. (page, held)), λ a. refl)
  ])
  | inr other ↦ rw other (
    refl,
    add_page_there pn t,
    inr (refl, add_page_there pn t),
    add_page-KeepsPages pn t,
    recorded-add_page pn t,
  )
]

-- The bytes of a page that is changed, and those of the others.
pub recorded-with_page :
    (n : ℕ) (page : PageRec) (t : MemTrace) (a : ℕ)
    → recorded (with_page (some n) page t) a
      ≡ (if a / 4096 == n then recorded_in page (a % 4096) else recorded t a)
unfolding recorded
recorded-with_page n page t a = ground arith

pub with_page-KeepsPages :
    (n : ℕ) (page : PageRec) (t : MemTrace) → KeepsPages t (with_page (some n) page t)
with_page-KeepsPages n page t k old h = elim (Bool-cases (k == n)) [
  | inl same ↦ rw same (page, refl)
  | inr other ↦ rw other (old, h)
]

-- A value put in bytes of a page of which none is recorded.
pub recorded-put :
    (size n : ℕ) (page : PageRec) (offset val : ℕ) (t : MemTrace) (a : ℕ)
    → offset % 8 + size ≤ 8
    → offset + size ≤ 4096
    → t.pages n ≡ some page
    → ((o : ℕ) → within size offset o ≡ true → seen page o ≡ false)
    → recorded (with_page (some n) (put size page offset val) t) a
      ≡ first_access size (n * 4096 + offset) val (recorded t) a
unfolding first_access recorded
recorded-put size n page offset val t a h fits there fresh = elim (Bool-cases (a / 4096 == n)) [
  | inl same ↦
      let e : t.pages (a / 4096) ≡ some page = rw ((==_iff (a / 4096) n).0 same) there in
      let range : within size (n * 4096 + offset) a ≡ within size offset (a % 4096) =
        ground arith in
      let index : a - (n * 4096 + offset) ≡ a % 4096 - offset = ground arith in
      rw (same, e, range, index)
        (recorded_in-put size page offset val (a % 4096) h
          ∙ or_else-fresh _ _ _ _ (fresh (a % 4096)))
  | inr other ↦
      let outside : within size (n * 4096 + offset) a ≡ false = ground arith in
      rw (other, outside) (sym (or_else_none _))
]

-- An access to bytes that are all recorded adds nothing.
pub recorded_all :
    (size n : ℕ) (page : PageRec) (offset val : ℕ) (t : MemTrace) (a : ℕ)
    → offset + size ≤ 4096
    → t.pages n ≡ some page
    → ((o : ℕ) → within size offset o ≡ true → seen page o ≡ true)
    → recorded t a ≡ first_access size (n * 4096 + offset) val (recorded t) a
unfolding first_access recorded
recorded_all size n page offset val t a fits there all_seen =
    elim (Bool-cases (within size (n * 4096 + offset) a)) [
      | inl inside ↦
          let same : a / 4096 ≡ n = ground arith in
          let e : t.pages (a / 4096) ≡ some page = rw same there in
          let range : within size offset (a % 4096) ≡ true = ground arith in
          rw (e, all_seen (a % 4096) range) refl
      | inr outside ↦ rw outside (sym (or_else_none _))
    ]

-- An access is one of its first byte and one of the others.
pub first_access-suc :
    (n addr x : ℕ) (r : ℕ → Option ℕ) (a : ℕ)
    → first_access n (addr + 1) (x / 256) (first_access 1 addr (x % 256) r) a
      ≡ first_access (suc n) addr x r a
unfolding first_access byte
first_access-suc n addr x r a = elim (Bool-cases (a == addr)) [
  | inl same ↦
      let e : a ≡ addr = ground arith in
      let d : addr - addr ≡ 0 = omega arith in
      let i : within 1 addr addr ≡ true = ground arith in
      let j : within (suc n) addr addr ≡ true = ground arith in
      let k : x % 256 % 256 ≡ x % 256 = omega arith in
      let outside : within n (addr + 1) addr ≡ false = ground arith in
      rw (e, i, j, d, k, outside) (or_else_none _)
  | inr other ↦ elim (Bool-cases (within n (addr + 1) a)) [
    | inl inside ↦
        let i : within 1 addr a ≡ false = ground arith in
        let j : within (suc n) addr a ≡ true = ground arith in
        let d : a - addr ≡ suc (a - (addr + 1)) = ground arith in
        rw (i, j, d, inside)
          (ap (λ y. or_else y (some (byte (x / 256) (a - (addr + 1))))) (or_else_none (r a)))
    | inr outside ↦
        let i : within 1 addr a ≡ false = ground arith in
        let j : within (suc n) addr a ≡ false = ground arith in rw (i, j, outside) (or_else_none _)
  ]
]

-- A page that is looked up changes neither pointer cache of the trace, nor its stores.
pub get_page_rest :
    (pn : ℕ) (cache : PtrCache) (t : MemTrace)
    → ((get_page pn cache t).1.fetch_cache ≡ t.fetch_cache)
      × ((get_page pn cache t).1.load_cache ≡ t.load_cache)
      × ((get_page pn cache t).1.stores ≡ t.stores)
unfolding get_page add_page
get_page_rest pn cache t = elim (Bool-cases (pn == cache.idx)) [
  | inl same ↦ rw same (refl, refl, refl)
  | inr other ↦ rw other (elim (Option-cases (t.pages pn)) [
    | inl missing ↦ rw missing (refl, refl, refl)
    | inr there ↦ rw there.1 (refl, refl, refl)
  ])
]
