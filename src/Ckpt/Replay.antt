-- ===== src/Ckpt/Replay.antt =====
-- src/util/fmt.h and src/emu/mmu-proxy.h: a program that is run again from a checkpoint.
pub mod Access
pub mod Fetches
use mathlib.Core.Bool.{true≢false}
use rv8_riscv_ckpt.Base.{
  ◌⊎◌, ℕ, zero, suc, ◌+◌, ◌-◌, ◌*◌, ◌/◌, ◌%◌, ◌^◌, ◌≤◌, ◌<◌, Bool, true, false, ltb, leb, ◌&&◌, ◌≡◌,
  ◌≢◌, refl, sym, ap, ◌∙◌, Bool-cases, Option-cases, inl, inr, if◌then◌else◌, Option, none, some,
  List, [], ◌∷◌, arith,
}
use rv8_riscv_ckpt.Ckpt.Page.{PageRec, byte, store_bytes}
use rv8_riscv_ckpt.Ckpt.Seen.{seen, within}
use rv8_riscv_ckpt.Ckpt.Mem.{MemTrace, new_trace}
use rv8_riscv_ckpt.Ckpt.Mem as Mem
use rv8_riscv_ckpt.Ckpt.Recorded.{recorded_at, recorded, first_access, IsSound, or_else}
use rv8_riscv_ckpt.Ckpt.Load.{IsSize, load-Records, store-Records}
use rv8_riscv_ckpt.Ckpt.Fetch.{fetch}
use rv8_riscv_ckpt.Ckpt.Execs.{IsCounted, IsCounted-SameExecs, load-KeepsExecs, store-KeepsExecs}
use rv8_riscv_ckpt.Ckpt.Proxy.{Guest, read, load, store}
use rv8_riscv_ckpt.Ckpt.Replay.Fetches.{IsReady, fetch-Fetches}
use rv8_riscv_ckpt.Ckpt.Replay.Access.{
  Restores-stored, Agrees-stored, Keeps-Records, Restores-Records, read-Agrees, Agrees-loaded,
  Restores, Keeps, Agrees, AllAre, SameData,
}

-- A program, by its accesses to memory and the instructions that are fetched for them: what it does
-- next may depend on the values that it loaded. An `amo` below
-- `memory_top` is a load and a store, and the results of a system call are stores of a byte.
pub data Prog : Type 0 where
  stop : Prog
  fetches : (addr inst length : ℕ) → Prog → Prog
  loads : (size addr : ℕ) → (ℕ → Prog) → Prog
  stores : (size addr val : ℕ) → Prog → Prog

-- The loads and stores are of 1, 2, 4 or 8 bytes of data, and the fetches of 2 or 4 bytes of code at
-- even addresses, all outside page 0. `code` tells the bytes of code from those of data.
abbrev pub IsMapped : (ℕ → Bool) → Prog → Type 0
IsMapped code Prog.stop = Unit
IsMapped code (Prog.fetches addr inst length k) =
    ((length ≡ 2) ⊎ (length ≡ 4))
    × (4096 ≤ addr)
    × (addr % 2 ≡ 0)
    × AllAre code true length addr
    × IsMapped code k
IsMapped code (Prog.loads size addr k) =
    IsSize size × (4096 ≤ addr) × AllAre code false size addr × ((v : ℕ) → IsMapped code (k v))
IsMapped code (Prog.stores size addr val k) =
    IsSize size × (4096 ≤ addr) × AllAre code false size addr × IsMapped code k

abbrev with_fetched : Option (Bool × MemTrace) → (MemTrace → Option Guest) → Option Guest
with_fetched none f = none
with_fetched (some (first, t)) f = f t

abbrev with_loaded : Option (ℕ × Guest) → (ℕ → Guest → Option Guest) → Option Guest
with_loaded none f = none
with_loaded (some (v, g)) f = f v g

abbrev with_guest : Option Guest → (Guest → Option Guest) → Option Guest
with_guest none f = none
with_guest (some g) f = f g

-- A run while the checkpoint is recorded.
unfoldable pub run : Prog → Guest → Option Guest
run Prog.stop g = some g
run (Prog.fetches addr inst length k) g =
    with_fetched (fetch addr inst length g.trace) λ t. run k (record g { trace = t })
run (Prog.loads size addr k) g = with_loaded (load size addr g) λ v g'. run (k v) g'
run (Prog.stores size addr val k) g = with_guest (store size addr val g) λ g'. run k g'

-- The values that a program loads from a memory.
unfoldable pub loaded : Prog → (ℕ → ℕ) → List ℕ
loaded Prog.stop m = []
loaded (Prog.fetches addr inst length k) m = loaded k m
loaded (Prog.loads size addr k) m = read size m addr ∷ loaded (k (read size m addr)) m
loaded (Prog.stores size addr val k) m = loaded k (store_bytes size m addr val)

abbrev SucceedsAt : (Guest → Type 0) → Option Guest → Type 0
SucceedsAt P o = (g : Guest) × (o ≡ some g) × P g

module _ (code : ℕ → Bool) where
  -- What a recording gives: its trace keeps every byte of data, and it holds what a memory must hold
  -- so that the program loads the same values from it.
  abbrev Replays : Prog → Guest → Guest → Type 0
  Replays prog g g' =
      Keeps code g.trace g'.trace
      × ((m : ℕ → ℕ)
          → Agrees code g.trace g.mem m
          → Restores code g.trace g'.trace m
          → loaded prog m ≡ loaded prog g.mem)

  -- A step of the recording that changes no byte of data.
  fetched-Replays :
      (addr inst length : ℕ) (k : Prog) (g g1 g2 : Guest)
      → g1.mem ≡ g.mem
      → SameData code g.trace g1.trace
      → Replays k g1 g2
      → Replays (Prog.fetches addr inst length k) g g2
  unfolding loaded
  fetched-Replays addr inst length k g g1 g2 e same h = (
    (λ a v plain old. h.0 a v plain (same a plain ∙ old)),
    λ m agrees restores.
        h.1 m (λ a v plain now. ap (λ f. f a % 256) e ∙ agrees a v plain (sym (same a plain) ∙ now))
          (λ a v plain missing later. restores a v plain (sym (same a plain) ∙ missing) later)
        ∙ ap (loaded k) e,
  )

  run-Replays :
      (prog : Prog) (g : Guest)
      → IsMapped code prog
      → IsReady g.trace
      → SucceedsAt (Replays prog g) (run prog g)
  unfolding run loaded load store
  run-Replays Prog.stop g h ready = (g, refl, ((λ a v plain old. old), λ m agrees restores. refl))
  run-Replays (Prog.fetches addr inst length k) g h ready =
      let done = fetch-Fetches addr inst length g.trace h.0 h.1 h.2 ready in
      let g1 = record g { trace = done.0.1 } in
      let rest = run-Replays k g1 h.4 done.2 in
      let same : SameData code g.trace done.0.1 = λ a plain.
        elim (Bool-cases (within length addr a)) [
          | inl inside ↦ absurd (true≢false (sym (h.3 a inside) ∙ plain))
          | inr outside ↦ done.3 a outside
        ] in
      rw (done.1) (rest.0, rest.1, fetched-Replays addr inst length k g g1 rest.0 refl same rest.2)
  run-Replays (Prog.loads size addr k) g h ready =
      let val = read size g.mem addr in
      let done = load-Records size addr val g.trace h.0 h.1 ready.0 in
      let counted =
        IsCounted-SameExecs g.trace done.0 (load-KeepsExecs size addr val g.trace done.0 done.1)
          ready.1 in
      let rest = run-Replays (k val) (record g { trace = done.0 }) (h.3 val) (done.2.0, counted) in
      let same : (m : ℕ → ℕ)
          → Agrees code g.trace g.mem m
          → Restores code g.trace rest.0.trace m
          → loaded (Prog.loads size addr k) m ≡ loaded (Prog.loads size addr k) g.mem =
        λ m agrees restores.
          let agrees' =
            Agrees-loaded code size addr g.trace done.0 rest.0.trace g.mem m done.2 rest.2.0 agrees
              restores in
          let e = read-Agrees code size addr val g.trace done.0 g.mem m h.2 done.2 agrees' in
          rw (← e) (
            ap (λ vs. val ∷ vs)
              (rest.2.1 m agrees' (
                Restores-Records code size addr val g.trace done.0 rest.0.trace m done.2
                  restores))) in
      rw (done.1) (
        rest.0,
        rest.1,
        (
          (λ a v plain old.
              rest.2.0 a v plain
                (Keeps-Records code size addr val g.trace done.0 done.2 a v plain old)),
          same,
        ),
      )
  run-Replays (Prog.stores size addr val k) g h ready =
      let done = store-Records size addr g.trace h.0 h.1 ready.0 in
      let counted =
        IsCounted-SameExecs g.trace done.0 (store-KeepsExecs size addr g.trace done.0 done.1)
          ready.1 in
      let rest =
        run-Replays k (record { mem = store_bytes size g.mem addr val; trace = done.0 }) h.3
          (done.2.0, counted) in
      rw (done.1) (
        rest.0,
        rest.1,
        (
          (λ a v plain old.
              rest.2.0 a v plain
                (Keeps-Records code size addr 0 g.trace done.0 done.2 a v plain old)),
          λ m agrees restores.
              rest.2.1 (store_bytes size m addr val)
                (Agrees-stored code size addr val 0 g.trace done.0 g.mem m done.2 agrees)
                (Restores-stored code size addr val 0 g.trace done.0 rest.0.trace m done.2
                  restores),
        ),
      )

-- The memory that is restored from a checkpoint: the contents of its pages, over any other memory.
abbrev content_at : Option PageRec → ℕ → ℕ → ℕ
content_at none b o = b
content_at (some page) b o = page.content o

abbrev pub restored : MemTrace → (ℕ → ℕ) → ℕ → ℕ
restored t other a = content_at (t.pages (a / 4096)) (other a) (a % 4096)

content_at-recorded_at :
    (page : Option PageRec) (b o v : ℕ) → recorded_at page o ≡ some v → content_at page b o ≡ v
content_at-recorded_at none b o v h = absurd (ground arith)
content_at-recorded_at (some page) b o v h = elim (Bool-cases (seen page o)) [
  | inl marked ↦ ground arith
  | inr unmarked ↦ absurd (ground arith)
]

recorded-restored :
    (t : MemTrace) (other : ℕ → ℕ) (a v : ℕ) → recorded t a ≡ some v → restored t other a ≡ v
unfolding recorded
recorded-restored t other a v h =
    content_at-recorded_at (t.pages (a / 4096)) (other a) (a % 4096) v h

new_trace_empty : (a v : ℕ) → ¬ (recorded new_trace a ≡ some v)
unfolding recorded
new_trace_empty a v h = ground arith

-- A program whose loads and stores are of 1, 2, 4 or 8 bytes of data, and whose fetches are of 2 or 4
-- bytes of code at even addresses, all outside page 0, is recorded without a fault from an empty trace
-- on; and when it is run again from the contents of the recorded pages, over whatever else the memory
-- holds, its loads give the same values as in the first run, although its addresses, its stores and its
-- control flow depend on them. No byte is both data and code; what the fetches give is not stated.
pub loaded-restored :
    (code : ℕ → Bool) (prog : Prog) (m other : ℕ → ℕ)
    → IsMapped code prog
    → (g : Guest) × (run prog (record { mem = m; trace = new_trace }) ≡ some g)
      × (loaded prog (restored g.trace other) ≡ loaded prog m)
loaded-restored code prog m other h =
    let ran =
      run-Replays code prog (record { mem = m; trace = new_trace }) h
        ((inl (refl, refl), inl (refl, refl)), inl (refl, refl)) in
    (
      ran.0,
      ran.1,
      ran.2.1 (restored ran.0.trace other) (λ a v plain early. absurd (new_trace_empty a v early))
          λ a v plain missing later.
            ap (λ b. b % 256) (recorded-restored ran.0.trace other a v later),
    )
