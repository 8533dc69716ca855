-- ===== src/Emu/RunLoop/Ends.antt =====
-- src/emu/processor-runloop.h: when a step of a number of instructions ends.
use native.Mathlib.Nat.{mod-lt, one-le-pow, mod-eq_of_lt, pow-le-pow_right}
use mathlib.Core.Path.{ap}
use rv8_riscv_ckpt.Base.{
  true, ◌≤◌, ◌<◌, refl, ◌∙◌, arith, false, ◌-◌, ◌^◌, ◌≢◌, ◌==◌, ◌%◌, ◌+◌, ◌≡◌, ℕ, zero, suc, none,
  some, ◌&&◌, not,
}
use rv8_riscv_ckpt.Emu.RunLoop.{
  after_fetch, legal, or_priv, ExitCause, turn, step, settle, run, iteration, execute, Result, Loop,
  Processor, Core,
}

-- An operation leaves the count of retired instructions and the breakpoint alone.
abbrev pub IsKept : {S : Type 0} → Core S → Core S → Type 0
IsKept c c' = (c'.instret ≡ c.instret) × (c'.breakpoint ≡ c.breakpoint)

-- No operation changes the count or the breakpoint, whatever it gives. The decoder and the interpreter of
-- src/emu are such a processor (`machine-KeepsCount`).
pub record KeepsCount {S D : Type 0} (P : Processor S D) : Type 0 where
  pub clock_kept : (c : Core S) → IsKept c (P.clock c)
  pub isr_kept : (c : Core S) → IsKept c (P.isr c)
  pub fetch_kept : (c : Core S) → IsKept c (P.inst_fetch c).1
  pub checkpoint_fetch_kept :
      (d : D) (inst o : ℕ) (c : Core S) → IsKept c (P.checkpoint_fetch d inst o c)
  pub exec_kept : (d : D) (o : ℕ) (c : Core S) → IsKept c (P.inst_exec d o c).1
  pub checkpoint_execute_kept : (d : D) (c : Core S) → IsKept c (P.checkpoint_execute d c)

-- The core after an instruction that is retired.
abbrev IsNext : {S : Type 0} → Core S → Core S → Type 0
IsNext c c' = (c'.instret ≡ (c.instret + 1) % 2 ^ 64) × (c'.breakpoint ≡ c.breakpoint)

-- The interpreter has executed the instruction: it raised nothing and did not give -1.
abbrev pub IsExecuted : {S : Type 0} → ℕ → Result ℕ × Core S → Type 0
IsExecuted w (Result.value t, c) = t ≢ 2 ^ w - 1
IsExecuted w (Result.raised cause, c) = ⊥

module _ {S D : Type 0} (P : Processor S D) (w : ℕ) where
  module _ (decoded : ℕ → Loop S D → Loop S D) where
    -- The instruction that is fetched is one that the interpreter executes.
    abbrev pub IsExecutedAfter : Loop S D → Result (ℕ × ℕ) × Core S → Type 0
    IsExecutedAfter l (Result.value f, c) =
        let l1 = decoded f.0 (record l { core = c }) in
        IsExecuted w (P.inst_exec l1.dec f.1 (P.checkpoint_fetch l1.dec f.0 f.1 l1.core))
    IsExecutedAfter l (Result.raised cause, c) = ⊥

    -- In each of that many iterations.
    unfoldable pub AllExecuted : ℕ → Loop S D → Type 0
    AllExecuted zero l = Unit
    AllExecuted (suc n) l =
        IsExecutedAfter l (P.inst_fetch l.core) × AllExecuted n (iteration P decoded w l).1

  module _ (laws : KeepsCount P) where
    executed-value :
        (d : D) (o : ℕ) (r : Result ℕ × Core S)
        → IsExecuted w r
        → (t : ℕ) × (legal P w (or_priv P w d o r) ≡ (Result.value t, r.1))
    executed-value d o (Result.value t, c) h =
        let allowed : (t == 2 ^ w - 1) ≡ false = ground (arith, h) in
        rw (allowed, allowed) (t, refl)
    executed-value d o (Result.raised cause, c) h = absurd h

    execute-IsNext :
        (d : D) (inst o : ℕ) (c : Core S)
        → IsExecuted w (P.inst_exec d o (P.checkpoint_fetch d inst o c))
        → ((execute P w d inst o c).0 ≡ Result.value tt) × IsNext c (execute P w d inst o c).1
    unfolding execute
    execute-IsNext d inst o c h =
        let c1 = P.checkpoint_fetch d inst o c in
        let k1 = laws.checkpoint_fetch_kept d inst o c in
        let k2 = laws.exec_kept d o c1 in
        let r = executed-value d o (P.inst_exec d o c1) h in
        let k3 = laws.checkpoint_execute_kept d (P.inst_exec d o c1).1 in
        rw r.1 (refl, (ap (λ n. (n + 1) % 2 ^ 64) (k3.0 ∙ k2.0 ∙ k1.0), k3.1 ∙ k2.1 ∙ k1.1))

    module _ (decoded : ℕ → Loop S D → Loop S D)
        (decoded_core : (inst : ℕ) (l : Loop S D) → (decoded inst l).core ≡ l.core) where
      after_fetch-IsNext :
          (l : Loop S D) (r : Result (ℕ × ℕ) × Core S)
          → IsExecutedAfter decoded l r
          → ((after_fetch P decoded w l r).0 ≡ Result.value tt)
            × IsNext r.1 (after_fetch P decoded w l r).1.core
      after_fetch-IsNext l (Result.value f, c) h =
          let l1 = decoded f.0 (record l { core = c }) in
          let e = execute-IsNext l1.dec f.0 f.1 l1.core h in
          let same : l1.core ≡ c = decoded_core f.0 (record l { core = c }) in
          (
            e.0,
            (
              e.1.0 ∙ ap (λ (c : Core S). (c.instret + 1) % 2 ^ 64) same,
              e.1.1 ∙ ap (λ (c : Core S). c.breakpoint) same,
            ),
          )
      after_fetch-IsNext l (Result.raised cause, c) h = absurd h

      iteration-IsNext :
          (l : Loop S D)
          → IsExecutedAfter decoded l (P.inst_fetch l.core)
          → ((iteration P decoded w l).0 ≡ Result.value tt)
            × IsNext l.core (iteration P decoded w l).1.core
      unfolding iteration
      iteration-IsNext l h =
          let q = laws.fetch_kept l.core in
          let e = after_fetch-IsNext l (P.inst_fetch l.core) h in
          (e.0, (e.1.0 ∙ ap (λ n. (n + 1) % 2 ^ 64) q.0, e.1.1 ∙ q.1))

      settle-value :
          (r : Result Unit × Loop S D) → r.0 ≡ Result.value tt → settle P decoded w r ≡ (none, r.1)
      settle-value (Result.value t, l) h = refl
      settle-value (Result.raised cause, l) h = cc

      -- A turn before the end retires an instruction.
      turn_next :
          (stop : ℕ) (l : Loop S D)
          → l.core.instret ≢ stop
          → l.core.breakpoint ≡ 0
          → IsExecutedAfter decoded l (P.inst_fetch l.core)
          → (turn P decoded w stop l ≡ (none, (iteration P decoded w l).1))
            × ((iteration P decoded w l).1.core.instret ≡ (l.core.instret + 1) % 2 ^ 64)
            × ((iteration P decoded w l).1.core.breakpoint ≡ 0)
      turn_next stop l before none_set executed =
          let i = iteration-IsNext l executed in
          let goes : (l.core.instret == stop) ≡ false = ground arith in
          let unset : (l.core.pc == l.core.breakpoint && not (l.core.breakpoint == 0)) ≡ false =
            ground arith in
          (rw (goes, unset) (settle-value (iteration P decoded w l) i.0), i.1.0, i.1.1 ∙ none_set)

      run_ends :
          (stop n : ℕ) (l : Loop S D)
          → l.core.instret + n ≡ stop
          → stop < 2 ^ 64
          → l.core.breakpoint ≡ 0
          → AllExecuted decoded n l
          → ((run P decoded w stop (suc n) l).0 ≡ some ExitCause.continue)
            × ((run P decoded w stop (suc n) l).1.core.instret ≡ stop)
      unfolding run AllExecuted
      run_ends stop zero l e small unset executed =
          let there : l.core.instret ≡ stop = omega (arith, e) in
          let stops : (l.core.instret == stop) ≡ true = ground arith in rw stops (refl, there)
      run_ends stop (suc n) l e small unset executed =
          let t = turn_next stop l (λ same. omega (arith, same, e)) unset executed.0 in
          let m = (iteration P decoded w l).1 in
          let next : m.core.instret + n ≡ stop = omega (arith, t.1, e, small) in
          rw t.0 (run_ends stop n m next small t.2 executed.1)

      run_goes_on :
          (stop turns : ℕ) (l : Loop S D)
          → stop < l.core.instret
          → l.core.instret + turns < 2 ^ 64
          → l.core.breakpoint ≡ 0
          → AllExecuted decoded turns l
          → (run P decoded w stop turns l).0 ≡ none
      unfolding run AllExecuted
      run_goes_on stop zero l past small unset executed = refl
      run_goes_on stop (suc turns) l past small unset executed =
          let t = turn_next stop l (λ same. omega (arith, same, past)) unset executed.0 in
          let m = (iteration P decoded w l).1 in
          let next : m.core.instret ≡ l.core.instret + 1 = t.1 ∙ omega (arith, small) in
          rw t.0 (
            run_goes_on stop turns m (omega (arith, next, past)) (omega (arith, next, small)) t.2
              executed.1)

      -- When no breakpoint is set, a step of `count` instructions ends after `count` turns of its loop
      -- and has retired `count` instructions, if their number then fits a register of `w` bits and the
      -- interpreter executes each of them; but once the number of retired instructions does not fit a
      -- register, no number of turns within the 64 bits of that number ends a step, as long as the
      -- interpreter executes what is fetched.
      pub step_lem :
          (count : ℕ) (l : Loop S D)
          → w ≤ 64
          → l.core.breakpoint ≡ 0
          → ((l.core.instret + count < 2 ^ w)
              → AllExecuted decoded count (record l { core = P.isr (P.clock l.core) })
              → ((step P decoded w (suc count) count l).0 ≡ some ExitCause.continue)
                × ((step P decoded w (suc count) count l).1.core.instret ≡ l.core.instret + count))
            × ((turns : ℕ)
                → 2 ^ w ≤ l.core.instret
                → l.core.instret + turns < 2 ^ 64
                → AllExecuted decoded turns (record l { core = P.isr (P.clock l.core) })
                → (step P decoded w turns count l).0 ≡ none)
      unfolding step
      step_lem count l narrow unset =
          let c = P.isr (P.clock l.core) in
          let same : c.instret ≡ l.core.instret =
            (laws.isr_kept (P.clock l.core)).0 ∙ (laws.clock_kept l.core).0 in
          let free : c.breakpoint ≡ 0 =
            (laws.isr_kept (P.clock l.core)).1 ∙ (laws.clock_kept l.core).1 ∙ unset in
          let wide : 2 ^ w ≤ 2 ^ 64 = pow-le-pow_right (omega arith) narrow in
          let positive : 0 < 2 ^ w = one-le-pow w 2 (omega arith) in
          let l1 = record l { core = c } in
          (
            λ fits executed.
                let stop : (l.core.instret + count) % 2 ^ w ≡ l.core.instret + count =
                  mod-eq_of_lt fits in
                rw stop (
                  run_ends (l.core.instret + count) count l1 (ap (λ n. n + count) same)
                    (omega (arith, fits, wide)) free executed),
            λ turns past small executed.
                let low : (l.core.instret + count) % 2 ^ w < 2 ^ w =
                  mod-lt (l.core.instret + count) positive in
                run_goes_on ((l.core.instret + count) % 2 ^ w) turns l1
                  (omega (arith, low, past, same)) (omega (arith, small, same)) free executed,
          )
