-- ===== src/Ckpt/Tests.antt =====
-- src/util/fmt.h: checkpoints of small programs.
use rv8_riscv_ckpt.Base.{
  Bool, ltb, ℕ, ◌+◌, ◌*◌, ◌%◌, true, ◌≡◌, refl, inl, inr, Option, none, some, List, [], ◌∷◌, arith,
}
use rv8_riscv_ckpt.Ckpt.Page.{PageRec, new_page, check, put, set_visited}
use rv8_riscv_ckpt.Ckpt.Mem.{MemTrace, new_trace}
use rv8_riscv_ckpt.Ckpt.Mem as Mem
use rv8_riscv_ckpt.Ckpt.Load.{Succeeds, Records, load-first_access}
use rv8_riscv_ckpt.Ckpt.Proxy.{Guest}
use rv8_riscv_ckpt.Ckpt.Replay.{Prog, IsMapped, run, loaded, restored, loaded-restored}
use rv8_riscv_ckpt.Ckpt.Fetch.{fetch, fetch_page}
use rv8_riscv_ckpt.Ckpt.Fetch.{fetch, count_exec, get_exec, fetch_at, get_fetch_page}
use rv8_riscv_ckpt.Ckpt.Mem.{get_page, add_page}
use rv8_riscv_ckpt.Ckpt.Manager.{fetch as manage, Manager, Broken}
use rv8_riscv_ckpt.Ckpt.Manager.Spans.{run as run_events, run-Spans, Spans, Event}

-- A load and a store of 4 bytes over the border of two pages.
load-first_access_example :
    Succeeds (Records 4 8190 305419896 new_trace) (Mem.load 4 8190 305419896 new_trace)
    × Succeeds (Records 4 8190 0 new_trace) (Mem.store 4 8190 new_trace)
load-first_access_example =
    load-first_access 4 8190 305419896 new_trace (inr (inr (inl refl))) (omega arith)
      (inl (refl, refl), inl (refl, refl))

-- A load whose value is the address of a store, a load of what was stored, and one of bytes around it,
-- with the fetches of a long instruction over the border of two pages and of two short ones.
abbrev indirect : Prog
indirect = Prog.fetches 8190 0x55503 4 (
    Prog.loads 2 65536 λ v. Prog.fetches 8194 0xc111 2 (
      Prog.stores 1 (65540 + v % 4) 7 (
        Prog.loads 8 65538
          λ w. Prog.fetches 8194 0xc111 2 (Prog.loads 1 (65536 + w % 256) λ u. Prog.stop))))

abbrev below_data : ℕ → Bool
below_data a = ltb a 65536

abbrev ramp : ℕ → ℕ
ramp a = a * 3 + 1

abbrev blank_memory : ℕ → ℕ
blank_memory a = 0

indirect-IsMapped : IsMapped below_data indirect
indirect-IsMapped = (
  inr refl,
  omega arith,
  omega arith,
  (λ a inside. ground arith),
  (
    inr (inl refl),
    omega arith,
    (λ a inside. ground arith),
    λ v. (
      inl refl,
      omega arith,
      omega arith,
      (λ a inside. ground arith),
      (
        inl refl,
        omega arith,
        (λ a inside. ground arith),
        (
          inr (inr (inr refl)),
          omega arith,
          (λ a inside. ground arith),
          λ w. (
            inl refl,
            omega arith,
            omega arith,
            (λ a inside. ground arith),
            (inl refl, omega arith, (λ a inside. ground arith), λ u. tt),
          ),
        ),
      ),
    ),
  ),
)

loaded-restored_example :
    (g : Guest) × (run indirect (record { mem = ramp; trace = new_trace }) ≡ some g)
    × (loaded indirect (restored g.trace blank_memory) ≡ loaded indirect ramp)
loaded-restored_example = loaded-restored below_data indirect ramp blank_memory indirect-IsMapped

-- A page of which a load has recorded the first byte of an instruction.
abbrev half_seen : PageRec
half_seen = put 1 new_page 4 19

abbrev idle : Manager
idle = record { out = true; period = 2; begin_instret = 0; mem = none }

abbrev at_count : ℕ → ℕ → ℕ → Event
at_count n addr inst =
    Event.fetched (record { instret = n; addr = addr; inst = inst; length = 4; rd = none })

abbrev straight : List Event
straight =
    at_count 5 65536 19 ∷ at_count 6 65540 19 ∷ at_count 7 65544 19 ∷ at_count 8 65548 19 ∷ []

-- The result of a run, with no checkpoint and no change for a run that faults.
abbrev result_of : Option (List Broken × Manager) → List Broken × Manager
result_of none = ([], idle)
result_of (some r) = r

straight_ran : run_events straight idle ≡ some (result_of (run_events straight idle))
unfolding run_events manage fetch count_exec get_exec fetch_at get_fetch_page get_page add_page
    fetch_page check put set_visited
straight_ran = refl

abbrev tills : List Broken → List ℕ
tills [] = []
tills (b ∷ bs) = b.till ∷ tills bs

one_broken : tills (result_of (run_events straight idle)).0 ≡ 8 ∷ []
unfolding run_events manage fetch count_exec get_exec fetch_at get_fetch_page get_page add_page
    fetch_page check put set_visited
one_broken = refl

run-Spans_example : Spans idle.period 5 (result_of (run_events straight idle)).0
run-Spans_example =
    run-Spans straight 5 idle (result_of (run_events straight idle)).1
      (result_of (run_events straight idle)).0 refl
      (
        omega arith,
        omega arith,
        (omega arith, omega arith, (omega arith, omega arith, (omega arith, omega arith, tt))),
      )
      straight_ran
