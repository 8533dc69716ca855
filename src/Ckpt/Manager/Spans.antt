-- ===== src/Ckpt/Manager/Spans.antt =====
-- src/util/fmt.h: the intervals of the checkpoints.
use rv8_riscv_ckpt.Base.{
  arith, ◌∙◌, ℕ, ◌+◌, ◌/◌, ◌^◌, ◌≤◌, ◌<◌, Bool, true, false, ◌&&◌, ◌==◌, ltb, ltb→lt, ◌≡◌, sym,
  refl, ◌⊎◌, Bool-cases, if◌then◌else◌, inl, inr, Option, none, some, List, [], ◌∷◌,
}
use mathlib.Core.Path.{ap, subst}
use rv8_riscv_ckpt.Ckpt.Mem.{MemTrace}
use rv8_riscv_ckpt.Ckpt.Fetch.{get_exec_counter}
use rv8_riscv_ckpt.Ckpt.Fetch as Fetch
use rv8_riscv_ckpt.Ckpt.Mem as Mem
use rv8_riscv_ckpt.Ckpt.Manager.{
  begin, with_mem, on_mem, Manager, Broken, Fetched, ecall_inst, minus64, positive, break_repeated,
  break_rest, break_firstrvc, look_for_break, after_fetch, fetch, load, store,
}

-- What a fetch may leave, with the manager at the begin of its checkpoint: a checkpoint that ends at
-- the instruction and that is past the period, or one that goes on.
abbrev EndsAt : Fetched → Manager → Option (Option Broken × Manager) → Type 0
EndsAt f c none = Unit
EndsAt f c (some (none, c')) =
    (c'.begin_instret ≡ c.begin_instret) × (c'.period ≡ c.period) × (c'.out ≡ c.out)
EndsAt f c (some (some b, c')) =
    (c'.period ≡ c.period)
    × (c'.out ≡ c.out)
    × (c'.mem ≡ none)
    × (b.from ≡ c.begin_instret)
    × (b.till ≡ f.instret)

abbrev Past : Fetched → Manager → Type 0
Past f c = c.period < minus64 f.instret c.begin_instret

break_repeated-EndsAt :
    (rd count : Option ℕ) (f : Fetched) (t : MemTrace) (c : Manager)
    → EndsAt f c (break_repeated rd count f t c)
break_repeated-EndsAt none count f t c = (refl, refl, refl)
break_repeated-EndsAt (some rd) none f t c = tt
break_repeated-EndsAt (some rd) (some count) f t c =
    elim (Bool-cases (ltb count (minus64 f.instret c.begin_instret / 2 ^ 18))) [
      | inl seldom ↦ rw seldom (refl, refl, refl, refl, refl)
      | inr often ↦ rw often (refl, refl, refl)
    ]

break_rest-EndsAt : (f : Fetched) (t : MemTrace) (c : Manager) → EndsAt f c (break_rest f t c)
break_rest-EndsAt f t c = elim (Bool-cases (f.length == 4)) [
  | inl four ↦ rw four (break_repeated-EndsAt (positive f.rd) (get_exec_counter f.addr t) f t c)
  | inr other ↦ rw other (refl, refl, refl)
]

break_firstrvc-EndsAt :
    (r : Option (Bool × MemTrace)) (f : Fetched) (c : Manager) → EndsAt f c (break_firstrvc r f c)
break_firstrvc-EndsAt none f c = tt
break_firstrvc-EndsAt (some (true, t)) f c = (refl, refl, refl, refl, refl)
break_firstrvc-EndsAt (some (false, t)) f c = break_rest-EndsAt f t c

look_for_break-EndsAt :
    (first_visit : Bool) (f : Fetched) (t : MemTrace) (c : Manager)
    → EndsAt f c (look_for_break first_visit f t c)
look_for_break-EndsAt first_visit f t c = elim (Bool-cases (f.inst == ecall_inst)) [
  | inl call ↦ rw call (refl, refl, refl, refl, refl)
  | inr other ↦ rw other (elim (Bool-cases (first_visit && f.length == 4)) [
    | inl first ↦ rw first (refl, refl, refl, refl, refl)
    | inr later ↦ rw later (elim (Bool-cases (first_visit && f.length == 2)) [
      | inl short ↦ rw short (break_firstrvc-EndsAt (Fetch.prefetch (f.addr + 2) 2 t) f c)
      | inr long ↦ rw long (break_rest-EndsAt f t c)
    ])
  ])
]

-- The whole of a fetch, past its begin.
abbrev Ends : Fetched → Manager → Option (Option Broken × Manager) → Type 0
Ends f c none = Unit
Ends f c (some (none, c')) = EndsAt f c (some (none, c'))
Ends f c (some (some b, c')) = Past f c × EndsAt f c (some (some b, c'))

Ends-Past :
    (f : Fetched) (c : Manager) (r : Option (Option Broken × Manager))
    → Past f c
    → EndsAt f c r
    → Ends f c r
Ends-Past f c none past h = tt
Ends-Past f c (some (none, c')) past h = h
Ends-Past f c (some (some b, c')) past h = (past, h)

after_fetch-Ends :
    (r : Option (Bool × MemTrace)) (f : Fetched) (c : Manager) → Ends f c (after_fetch r f c)
after_fetch-Ends none f c = tt
after_fetch-Ends (some (first_visit, t)) f c =
    elim (Bool-cases (ltb c.period (minus64 f.instret c.begin_instret))) [
      | inl past ↦ rw past (
          Ends-Past f c (look_for_break first_visit f t c) (ltb→lt _ _ past)
            (look_for_break-EndsAt first_visit f t c))
      | inr early ↦ rw early (refl, refl, refl)
    ]

-- What the manager sees of a run of the program.
pub data Event : Type 0 where
  fetched : Fetched → Event
  loaded : (size addr val : ℕ) → Event
  stored : (size addr : ℕ) → Event

abbrev add_broken : Option Broken → List Broken → List Broken
add_broken none bs = bs
add_broken (some b) bs = b ∷ bs

abbrev Run : Type 0
Run = Option (List Broken × Manager)

abbrev with_broken : Option Broken → Run → Run
with_broken b none = none
with_broken b (some (bs, c)) = some (add_broken b bs, c)

abbrev on_fetched : Option (Option Broken × Manager) → (Manager → Run) → Run
on_fetched none f = none
on_fetched (some (b, c)) f = with_broken b (f c)

abbrev on_manager : Option Manager → (Manager → Run) → Run
on_manager none f = none
on_manager (some c) f = f c

-- The checkpoints that a run breaks, and the manager after it.
unfoldable pub run : List Event → Manager → Run
run [] c = some ([], c)
run (Event.fetched f ∷ es) c = on_fetched (fetch f c) λ c'. run es c'
run (Event.loaded size addr val ∷ es) c = on_manager (load size addr val c) λ c'. run es c'
run (Event.stored size addr ∷ es) c = on_manager (store size addr c) λ c'. run es c'

-- The number of retired instructions never decreases, and it stays in 64 bits.
abbrev pub Counts : ℕ → List Event → Type 0
Counts lo [] = Unit
Counts lo (Event.fetched f ∷ es) = (lo ≤ f.instret) × (f.instret < 2 ^ 64) × Counts f.instret es
Counts lo (_ ∷ es) = Counts lo es

-- Intervals in order, that do not overlap, each longer than the period.
abbrev pub Spans : ℕ → ℕ → List Broken → Type 0
Spans period lo [] = Unit
Spans period lo (b ∷ bs) = (lo ≤ b.from) × (b.from + period < b.till) × Spans period b.till bs

abbrev SpansOf : ℕ → ℕ → Run → Type 0
SpansOf period lo none = Unit
SpansOf period lo (some (bs, c)) = Spans period lo bs

-- Before an instruction: the last break, the begin of the checkpoint and the number of instructions
-- stand in this order.
abbrev Ready : ℕ → ℕ → ℕ → Manager → Type 0
Ready period last instret c =
    (c.period ≡ period)
    × (last ≤ instret)
    × ((c.mem ≡ none) ⊎ ((last ≤ c.begin_instret) × (c.begin_instret ≤ instret)))

SpansOf-with_broken :
    (period lo : ℕ) (b : Broken) (r : Run)
    → lo ≤ b.from
    → b.from + period < b.till
    → SpansOf period b.till r
    → SpansOf period lo (with_broken (some b) r)
SpansOf-with_broken period lo b none h past rest = tt
SpansOf-with_broken period lo b (some (bs, c)) h past rest = (h, past, rest)

SpansOf-on_fetched :
    (period last : ℕ) (f : Fetched) (c : Manager) (k : Manager → Run)
    → (r : Option (Option Broken × Manager)) → Ends f c r
    → c.period ≡ period
    → last ≤ c.begin_instret
    → c.begin_instret ≤ f.instret
    → f.instret < 2 ^ 64
    → ((c' : Manager) (last' : ℕ) → Ready period last' f.instret c' → SpansOf period last' (k c'))
    → SpansOf period last (on_fetched r k)
SpansOf-on_fetched period last f c k none ends e h g bound rest = tt
SpansOf-on_fetched period last f c k (some (none, c')) ends e h g bound rest =
    keeps (k c')
      (rest c' last (ends.1 ∙ e, omega arith, inr (omega (arith, ends.0), omega (arith, ends.0))))
  where
    keeps : (r : Run) → SpansOf period last r → SpansOf period last (with_broken none r)
    keeps none s = tt
    keeps (some (bs, c2)) s = s
SpansOf-on_fetched period last f c k (some (some b, c')) ends e h g bound rest =
    SpansOf-with_broken period last b (k c') (omega (arith, ends.1.3)) span (
      subst (λ i. SpansOf period i (k c')) (sym ends.1.4)
        (rest c' f.instret (ends.1.0 ∙ e, omega arith, inl ends.1.2)))
  where
    span : b.from + period < b.till
    span = omega (arith, ends.0, ends.1.3, ends.1.4, e)

-- A load or a store changes no more than the trace.
abbrev OnMem : (period last instret : ℕ) → Option Manager → Type 0
OnMem period last instret none = Unit
OnMem period last instret (some c) = Ready period last instret c

with_mem-Ready :
    (period last instret : ℕ) (o : Option MemTrace) (c : Manager)
    → Ready period last instret c
    → (last ≤ c.begin_instret) × (c.begin_instret ≤ instret)
    → OnMem period last instret (with_mem o c)
with_mem-Ready period last instret none c h order = tt
with_mem-Ready period last instret (some t) c h order = (h.0, h.1, inr order)

on_mem-Ready :
    (period last instret : ℕ) (f : MemTrace → Option MemTrace) (o : Option MemTrace) (c : Manager)
    → c.mem ≡ o
    → Ready period last instret c
    → OnMem period last instret (on_mem f o c)
on_mem-Ready period last instret f none c e h = h
on_mem-Ready period last instret f (some t) c e (same, order, inl idle) = absurd (ground arith)
on_mem-Ready period last instret f (some t) c e (same, order, inr began) =
    with_mem-Ready period last instret (f t) c (same, order, inr began) began

SpansOf-on_manager :
    (period last instret : ℕ) (k : Manager → Run)
    → (o : Option Manager) → OnMem period last instret o
    → ((c : Manager) → Ready period last instret c → SpansOf period last (k c))
    → SpansOf period last (on_manager o k)
SpansOf-on_manager period last instret k none h rest = tt
SpansOf-on_manager period last instret k (some c) h rest = rest c h

fetch_off : (f : Fetched) (c : Manager) → c.out ≡ false → fetch f c ≡ some (none, c)
unfolding fetch
fetch_off f c off =
    let begun = begin c.mem f c in
    ap
      (λ (b : Bool).
        if b
        then after_fetch (Fetch.fetch f.addr f.inst f.length begun.0) f begun.1
        else some (none, c))
      off

fetch-Ends : (f : Fetched) (c : Manager) → c.out ≡ true → Ends f (begin c.mem f c).1 (fetch f c)
unfolding fetch
fetch-Ends f c recording =
    let begun = begin c.mem f c in
    subst
      (λ (b : Bool). Ends f begun.1 (
        if b
        then after_fetch (Fetch.fetch f.addr f.inst f.length begun.0) f begun.1
        else some (none, c)))
      (sym recording) (after_fetch-Ends (Fetch.fetch f.addr f.inst f.length begun.0) f begun.1)

-- The begin of a checkpoint.
begin-Ready :
    (period last instret : ℕ) (f : Fetched) (o : Option MemTrace) (c : Manager)
    → c.mem ≡ o
    → Ready period last instret c
    → instret ≤ f.instret
    → ((begin o f c).1.period ≡ period)
      × (last ≤ (begin o f c).1.begin_instret)
      × ((begin o f c).1.begin_instret ≤ f.instret)
begin-Ready period last instret f none c e h order = (h.0, omega (arith, h.1), omega arith)
begin-Ready period last instret f (some t) c e (same, early, inl idle) order = absurd (ground arith)
begin-Ready period last instret f (some t) c e (same, early, inr began) order =
    (same, began.0, omega (arith, began.1))

-- A later instruction.
Ready-later :
    (period last instret later : ℕ) (c : Manager)
    → instret ≤ later
    → Ready period last instret c
    → Ready period last later c
Ready-later period last instret later c h (same, order, inl idle) = (same, omega arith, inl idle)
Ready-later period last instret later c h (same, order, inr began) =
    (same, omega arith, inr (began.0, omega (arith, began.1)))

SpansOf-none :
    (period last : ℕ) (r : Run) → SpansOf period last r → SpansOf period last (with_broken none r)
SpansOf-none period last none s = tt
SpansOf-none period last (some (bs, c2)) s = s

run-SpansOf :
    (es : List Event) (period last instret : ℕ) (c : Manager)
    → Ready period last instret c
    → Counts instret es
    → SpansOf period last (run es c)
unfolding run load store
run-SpansOf [] period last instret c h counts = tt
run-SpansOf (Event.fetched f ∷ es) period last instret c h counts = elim (Bool-cases c.out) [
  | inl recording ↦
      let begun = begin-Ready period last instret f c.mem c refl h counts.0 in
      SpansOf-on_fetched period last f (begin c.mem f c).1 (λ c'. run es c') (fetch f c)
        (fetch-Ends f c recording) begun.0 begun.1 begun.2 counts.1
        λ c' last' h'. run-SpansOf es period last' f.instret c' h' counts.2
  | inr off ↦
      subst (λ r. SpansOf period last (on_fetched r λ c'. run es c')) (sym (fetch_off f c off))
        (SpansOf-none period last (run es c) (
          run-SpansOf es period last f.instret c
            (Ready-later period last instret f.instret c counts.0 h) counts.2))
]
run-SpansOf (Event.loaded size addr val ∷ es) period last instret c h counts =
    SpansOf-on_manager period last instret (λ c'. run es c') (load size addr val c)
      (on_mem-Ready period last instret (Mem.load size addr val) c.mem c refl h)
      λ c' h'. run-SpansOf es period last instret c' h' counts
run-SpansOf (Event.stored size addr ∷ es) period last instret c h counts =
    SpansOf-on_manager period last instret (λ c'. run es c') (store size addr c)
      (on_mem-Ready period last instret (Mem.store size addr) c.mem c refl h)
      λ c' h'. run-SpansOf es period last instret c' h' counts

-- Through any run of fetches, loads and stores that no null pointer ends, from a manager that records
-- nothing yet, the checkpoints that are broken are intervals of retired instructions in order that do
-- not overlap, and each is longer than the period. The number of retired instructions never decreases
-- and stays in 64 bits.
pub run-Spans :
    (es : List Event) (instret : ℕ) (c c' : Manager) (bs : List Broken)
    → c.mem ≡ none
    → Counts instret es
    → run es c ≡ some (bs, c')
    → Spans c.period instret bs
run-Spans es instret c c' bs idle counts ran =
    subst (λ r. SpansOf c.period instret r) ran
      (run-SpansOf es c.period instret instret c (refl, omega arith, inl idle) counts)
