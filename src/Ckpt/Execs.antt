-- ===== src/Ckpt/Execs.antt =====
-- src/util/fmt.h: the counters of the instructions of a trace, through its loads and stores.
use rv8_riscv_ckpt.Base.{
  assign, sym, ap, ◌%◌, if◌then◌else◌, Bool, true, false, ◌-◌, ◌-◌, true, ℕ, zero, suc, ◌+◌, ◌/◌,
  ◌^◌, ◌≤◌, ◌==◌, ◌≡◌, refl, ◌∙◌, ◌⊎◌, Bool-cases, Option-cases, inl, inr, arith, Option, none,
  some, bit_and,
}
use rv8_riscv_ckpt.Ckpt.Page.{put, PageRec, check}
use rv8_riscv_ckpt.Ckpt.Mem.{
  MemTrace, PtrCache, ExecRec, add_page, get_page, get_load_page, with_page, put_byte, load_bytes,
  load, store, deref,
}
use rv8_riscv_ckpt.Ckpt.Fetch.{get_exec, count_exec, counted, exec_of}

-- The cache of the counters is empty, or it points to the counters of its page.
abbrev pub IsCounted : MemTrace → Type 0
IsCounted t =
    ((t.exec_cache.idx ≡ 0) × (t.exec_cache.ptr ≡ none))
    ⊎ ((t.exec_cache.ptr ≡ some t.exec_cache.idx)
        × ((e : ExecRec) × (t.execs t.exec_cache.idx ≡ some e)))

-- Two traces have the same counters.
abbrev pub SameExecs : MemTrace → MemTrace → Type 0
SameExecs t t' = (t'.execs ≡ t.execs) × (t'.exec_cache ≡ t.exec_cache)

pub IsCounted-SameExecs : (t t' : MemTrace) → SameExecs t t' → IsCounted t → IsCounted t'
IsCounted-SameExecs t t' same counted = rw (same.0, same.1) counted

SameExecs-trans : (t t1 t2 : MemTrace) → SameExecs t t1 → SameExecs t1 t2 → SameExecs t t2
SameExecs-trans t t1 t2 first next = (next.0 ∙ first.0, next.1 ∙ first.1)

pub get_page-SameExecs :
    (pn : ℕ) (cache : PtrCache) (t : MemTrace) → SameExecs t (get_page pn cache t).1
unfolding get_page add_page
get_page-SameExecs pn cache t = elim (Bool-cases (pn == cache.idx)) [
  | inl same ↦ rw same (refl, refl)
  | inr other ↦ rw other (elim (Option-cases (t.pages pn)) [
    | inl missing ↦ rw missing (refl, refl)
    | inr there ↦ rw there.1 (refl, refl)
  ])
]

pub with_page-SameExecs :
    (ptr : Option ℕ) (page : PageRec) (t : MemTrace) → SameExecs t (with_page ptr page t)
with_page-SameExecs none page t = (refl, refl)
with_page-SameExecs (some n) page t = (refl, refl)

put_byte-SameExecs :
    (ptr : Option ℕ) (page : PageRec) (pos x : ℕ) (t : MemTrace)
    → SameExecs t (put_byte ptr page pos x t)
unfolding put_byte
put_byte-SameExecs ptr page pos x t = elim (Bool-cases (check 1 page pos == 0)) [
  | inl fresh ↦ rw fresh (with_page-SameExecs ptr _ t)
  | inr old ↦ rw old (refl, refl)
]

-- Any trace that is the result has the counters.
abbrev pub KeepsExecs : MemTrace → Option MemTrace → Type 0
KeepsExecs t o = (t' : MemTrace) → o ≡ some t' → SameExecs t t'

some-KeepsExecs : (t t1 : MemTrace) → SameExecs t t1 → KeepsExecs t (some t1)
some-KeepsExecs t t1 same t' h = let e : t1 ≡ t' = cc in rw (← e) same

none-KeepsExecs : (t : MemTrace) → KeepsExecs t none
none-KeepsExecs t t' h = cc

trans-KeepsExecs :
    (t t1 : MemTrace) (o : Option MemTrace) → SameExecs t t1 → KeepsExecs t1 o → KeepsExecs t o
trans-KeepsExecs t t1 o same kept t' h = SameExecs-trans t t1 t' same (kept t' h)

get_load_page-SameExecs : (pn : ℕ) (t : MemTrace) → SameExecs t (get_load_page pn t).1
unfolding get_load_page
get_load_page-SameExecs pn t = get_page-SameExecs pn t.load_cache t

load_bytes-KeepsExecs :
    (n : ℕ) (ptr : Option ℕ) (pn pos x : ℕ) (t : MemTrace)
    → KeepsExecs t (load_bytes n ptr pn pos x t)
unfolding load_bytes
load_bytes-KeepsExecs zero ptr pn pos x t = some-KeepsExecs t t (refl, refl)
load_bytes-KeepsExecs (suc n) ptr pn pos x t = elim (Bool-cases (pos == 4096)) [
  | inl crosses ↦
      let next = get_load_page (pn + 1) t in
      rw crosses (elim (Option-cases (deref next.0 next.1)) [
        | inl missing ↦ rw missing (none-KeepsExecs t)
        | inr there ↦
            let t1 = put_byte next.0 there.0 0 x next.1 in
            let same =
              SameExecs-trans t next.1 t1 (get_load_page-SameExecs (pn + 1) t)
                (put_byte-SameExecs next.0 there.0 0 x next.1) in
            rw there.1 (
              trans-KeepsExecs t t1 (load_bytes n next.0 (pn + 1) 1 (x / 256) t1) same
                (load_bytes-KeepsExecs n next.0 (pn + 1) 1 (x / 256) t1))
      ])
  | inr stays ↦ rw stays (elim (Option-cases (deref ptr t)) [
    | inl missing ↦ rw missing (none-KeepsExecs t)
    | inr there ↦
        let t1 = put_byte ptr there.0 pos x t in
        rw there.1 (
          trans-KeepsExecs t t1 (load_bytes n ptr pn (pos + 1) (x / 256) t1)
            (put_byte-SameExecs ptr there.0 pos x t)
            (load_bytes-KeepsExecs n ptr pn (pos + 1) (x / 256) t1))
  ])
]

-- The three paths of `load`.
load_page-KeepsExecs :
    (whole all : Bool) (t t1 t2 : MemTrace) (o : Option MemTrace)
    → SameExecs t t1
    → SameExecs t t2
    → KeepsExecs t o
    → KeepsExecs t (if whole then some t1 else if all then some t2 else o)
load_page-KeepsExecs true all t t1 t2 o h1 h2 h3 = some-KeepsExecs t t1 h1
load_page-KeepsExecs false true t t1 t2 o h1 h2 h3 = some-KeepsExecs t t2 h2
load_page-KeepsExecs false false t t1 t2 o h1 h2 h3 = h3

-- A load and a store keep the counters.
pub load-KeepsExecs : (size addr val : ℕ) (t : MemTrace) → KeepsExecs t (load size addr val t)
unfolding load
load-KeepsExecs size addr val t =
    let pn = addr / 2 ^ 12 in
    let found = get_load_page pn t in
    let offset = bit_and addr (2 ^ 12 - 1) in
    let same = get_load_page-SameExecs pn t in
    elim (Option-cases (deref found.0 found.1)) [
      | inl missing ↦ rw missing (none-KeepsExecs t)
      | inr there ↦
          let page = put size there.0 offset val in
          rw there.1 (
            load_page-KeepsExecs _ _ t (with_page found.0 page found.1) found.1
              (load_bytes size found.0 pn offset val found.1)
              (SameExecs-trans t found.1 (with_page found.0 page found.1) same
                (with_page-SameExecs found.0 page found.1))
              same
              (trans-KeepsExecs t found.1 (load_bytes size found.0 pn offset val found.1) same
                (load_bytes-KeepsExecs size found.0 pn offset val found.1)))
    ]

pub store-KeepsExecs : (size addr : ℕ) (t : MemTrace) → KeepsExecs t (store size addr t)
unfolding store
store-KeepsExecs size addr t = elim (Option-cases (load size addr 0 t)) [
  | inl fault ↦ rw fault (none-KeepsExecs t)
  | inr done ↦ rw done.1 (some-KeepsExecs t _ (load-KeepsExecs size addr 0 t done.0 done.1))
]

-- Counting an instruction whose counters the cache points to, and what else the trace holds.
IsCountedFrom : MemTrace → Option MemTrace → Type 0
IsCountedFrom t o =
    (t' : MemTrace) × (o ≡ some t')
    × IsCounted t'
    × (t'.pages ≡ t.pages)
    × (t'.fetch_cache ≡ t.fetch_cache)
    × (t'.load_cache ≡ t.load_cache)

counted-IsCountedFrom :
    (n addr : ℕ) (t : MemTrace) (e : ExecRec)
    → t.exec_cache.idx ≡ n
    → t.exec_cache.ptr ≡ some n
    → t.execs n ≡ some e
    → IsCountedFrom t (counted (exec_of t.exec_cache.ptr t) t.exec_cache.ptr addr t)
unfolding IsCountedFrom
counted-IsCountedFrom n addr t e at points there =
    let here : (n == n) ≡ true = ground arith in
    let exec : exec_of t.exec_cache.ptr t ≡ some e = ap (λ q. exec_of q t) points ∙ there in
    let i = bit_and addr (2 ^ 12 - 1) / 2 in
    let t' = record t { execs = assign t.execs n (some (assign e i ((e i + 1) % 2 ^ 32))) } in
    (
      t',
      ap (λ q. counted q t.exec_cache.ptr addr t) exec ∙ ap (λ q. counted (some e) q addr t) points,
      inr (points ∙ ap some (sym at), rw at (rw here (_, refl))),
      refl,
      refl,
      refl,
    )

-- Counting an instruction outside page 0 never faults, and changes no page and no cache of pages.
pub count_exec-IsCounted :
    (addr : ℕ) (t : MemTrace)
    → 4096 ≤ addr
    → IsCounted t
    → (t' : MemTrace) × (count_exec addr t ≡ some t')
      × IsCounted t'
      × (t'.pages ≡ t.pages)
      × (t'.fetch_cache ≡ t.fetch_cache)
      × (t'.load_cache ≡ t.load_cache)
unfolding count_exec get_exec IsCountedFrom
count_exec-IsCounted addr t far is_counted =
    let pn = addr / 2 ^ 12 in
    let here : (pn == pn) ≡ true = ground arith in
    elim (Bool-cases (pn == t.exec_cache.idx)) [
      | inl same ↦ rw same (elim is_counted [
        | inl empty ↦ absurd (ground arith)
        | inr there ↦ counted-IsCountedFrom t.exec_cache.idx addr t there.1.0 refl there.0 there.1.1
      ])
      | inr other ↦ rw other (elim (Option-cases (t.execs pn)) [
        | inl missing ↦
            let t1 = record t {
              execs = assign t.execs pn (some λ _. 0);
              exec_cache = record { idx = pn; ptr = some pn };
            } in
            rw missing (counted-IsCountedFrom pn addr t1 (λ _. 0) refl refl (rw here refl))
        | inr old ↦
            let t1 = record t { exec_cache = record { idx = pn; ptr = some pn } } in
            rw old.1 (counted-IsCountedFrom pn addr t1 old.0 refl refl old.1)
      ])
    ]
