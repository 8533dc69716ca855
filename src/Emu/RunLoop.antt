-- ===== src/Emu/RunLoop.antt =====
-- src/emu/processor-runloop.h: the loop that fetches, decodes and executes.
pub mod Machine
pub mod Fields
pub mod ReadPart
pub mod Cache
pub mod Ends
pub mod MachineLaws
pub mod Tests
use rv8_riscv_ckpt.Base.{
  assign, ◌||◌, ◌-◌, ℕ, zero, suc, ◌+◌, ◌%◌, ◌^◌, Bool, not, ◌&&◌, ◌==◌, if◌then◌else◌, Option,
  none, some,
}

-- What the loop itself reads and writes of the processor, and the rest.
pub record Core (S : Type 0) : Type 0 where
  pub pc : ℕ
  pub instret : ℕ
  pub breakpoint : ℕ
  pub badaddr : ℕ
  pub running : Bool
  pub rest : S

-- The value of a call, or the cause that it raises and that ends it.
pub data Result (A : Type 0) : Type 0 where
  value : (a : A) → Result A
  raised : (cause : ℕ) → Result A

-- The template parameter `P` with its `decode_type`, and the two calls to `checkpoint`. `clock` is
-- `P::time = cpu_cycle_clock()`.
pub record Processor (S D : Type 0) : Type 0 where
  pub clock : Core S → Core S
  pub isr : Core S → Core S
  pub trap : D → ℕ → Core S → Core S
  pub inst_fetch : Core S → Result (ℕ × ℕ) × Core S
  pub inst_decode : D → ℕ → D
  pub checkpoint_fetch : D → ℕ → ℕ → Core S → Core S
  pub inst_exec : D → ℕ → Core S → Result ℕ × Core S
  pub inst_priv : D → ℕ → Core S → Result ℕ × Core S
  pub checkpoint_execute : D → Core S → Core S

pub record CacheEnt (D : Type 0) : Type 0 where
  pub inst : ℕ
  pub dec : D

abbrev pub inst_cache_size : ℕ
inst_cache_size = 8191

-- The processor, the local `dec`, and the cache of instructions.
pub record Loop (S D : Type 0) : Type 0 where
  pub core : Core S
  pub dec : D
  pub inst_cache : ℕ → CacheEnt D

pub data ExitCause : Type 0 where
  continue cli poweroff : ExitCause

-- `internal_cause_cli`, `internal_cause_poweroff` and `internal_cause_fatal`.
abbrev pub cause_cli : ℕ
cause_cli = 0x1001

abbrev pub cause_poweroff : ℕ
cause_poweroff = 0x1002

abbrev pub cause_fatal : ℕ
cause_fatal = 0x1003

abbrev pub illegal_instruction : ℕ
illegal_instruction = 2

module _ {S D : Type 0} (P : Processor S D) where
  -- The decoding of an instruction through the cache, and without it.
  unfoldable pub cached : ℕ → Loop S D → Loop S D
  cached inst l =
      let key = inst % inst_cache_size in
      let entry = l.inst_cache key in
      if entry.inst == inst
      then record l { dec = entry.dec }
      else (let dec = P.inst_decode l.dec inst in
          record l {
            dec = dec;
            inst_cache = assign l.inst_cache key (record { inst = inst; dec = dec });
          })

  unfoldable pub fresh : ℕ → Loop S D → Loop S D
  fresh inst l = record l { dec = P.inst_decode l.dec inst }

  -- `raise(rv_cause_illegal_instruction, pc)` for an offset of -1.
  abbrev pub legal : ℕ → Result ℕ × Core S → Result ℕ × Core S
  legal w (Result.value t, c) =
      if t == 2 ^ w - 1
      then (Result.raised illegal_instruction, record c { badaddr = c.pc })
      else (Result.value t, c)
  legal w (Result.raised cause, c) = (Result.raised cause, c)

  abbrev pub or_priv : ℕ → D → ℕ → Result ℕ × Core S → Result ℕ × Core S
  or_priv w dec pc_offset (Result.value t, c) =
      if t == 2 ^ w - 1 then P.inst_priv dec pc_offset c else (Result.value t, c)
  or_priv w dec pc_offset (Result.raised cause, c) = (Result.raised cause, c)

  -- `P::pc += new_offset` and `P::instret++`.
  abbrev pub retire : ℕ → D → Result ℕ × Core S → Result Unit × Core S
  retire w dec (Result.value new_offset, c) =
      let c1 = P.checkpoint_execute dec c in
      (
        Result.value tt,
        record c1 { pc = (c1.pc + new_offset) % 2 ^ w; instret = (c1.instret + 1) % 2 ^ 64 },
      )
  retire w dec (Result.raised cause, c) = (Result.raised cause, c)

  unfoldable pub execute : ℕ → D → ℕ → ℕ → Core S → Result Unit × Core S
  execute w dec inst pc_offset c =
      let c1 = P.checkpoint_fetch dec inst pc_offset c in
      retire w dec (legal w (or_priv w dec pc_offset (P.inst_exec dec pc_offset c1)))

  abbrev pub with_core : Loop S D → Result Unit × Core S → Result Unit × Loop S D
  with_core l r = (r.0, record l { core = r.1 })

  module _ (decoded : ℕ → Loop S D → Loop S D) (w : ℕ) where
    abbrev pub after_fetch : Loop S D → Result (ℕ × ℕ) × Core S → Result Unit × Loop S D
    after_fetch l (Result.value f, c) =
        let l1 = decoded f.0 (record l { core = c }) in
        with_core l1 (execute w l1.dec f.0 f.1 l1.core)
    after_fetch l (Result.raised cause, c) = (Result.raised cause, record l { core = c })

    -- The body of the loop.
    unfoldable pub iteration : Loop S D → Result Unit × Loop S D
    iteration l = after_fetch l (P.inst_fetch l.core)

    -- The path from `setjmp`: the exit, or none to go on.
    unfoldable pub caught : ℕ → Loop S D → Option ExitCause × Loop S D
    caught cause l =
        if cause == cause_cli
        then (some ExitCause.cli, l)
        else if cause == cause_fatal || cause == cause_poweroff
        then (some ExitCause.poweroff, l)
        else (let c = P.trap l.dec cause l.core in
            (if c.running then none else some ExitCause.poweroff, record l { core = c }))

    abbrev pub settle : Result Unit × Loop S D → Option ExitCause × Loop S D
    settle (Result.value t, l) = (none, l)
    settle (Result.raised cause, l) = caught cause l

    abbrev pub go_on :
        (Loop S D → Option ExitCause × Loop S D)
        → Option ExitCause × Loop S D
        → Option ExitCause × Loop S D
    go_on f (none, l) = f l
    go_on f (some e, l) = (some e, l)

    abbrev pub turn : ℕ → Loop S D → Option ExitCause × Loop S D
    turn inststop l =
        if l.core.instret == inststop
        then (some ExitCause.continue, l)
        else if l.core.pc == l.core.breakpoint && not (l.core.breakpoint == 0)
        then (some ExitCause.cli, l)
        else settle (iteration l)

    -- That many turns of the loop, or fewer when it ends.
    unfoldable pub run : ℕ → ℕ → Loop S D → Option ExitCause × Loop S D
    run inststop zero l = (none, l)
    run inststop (suc n) l = go_on (run inststop n) (turn inststop l)

    -- `step`, in that many turns of its loop; `inststop` has the width of a register.
    unfoldable pub step : ℕ → ℕ → Loop S D → Option ExitCause × Loop S D
    step turns count l =
        let inststop = (l.core.instret + count) % 2 ^ w in
        run inststop turns (record l { core = P.isr (P.clock l.core) })
