-- ===== src/Ckpt/Manager.antt =====
-- src/util/fmt.h and src/util/fmt.cc: `CheckpointManager`, which begins and breaks checkpoints.
pub mod Spans
use rv8_riscv_ckpt.Base.{
  ℕ, zero, suc, ◌+◌, ◌-◌, ◌*◌, ◌/◌, ◌%◌, ◌^◌, Bool, true, false, ◌&&◌, ltb, ◌==◌, if◌then◌else◌,
  Option, none, some,
}
use rv8_riscv_ckpt.Ckpt.Mem.{then_trace, MemTrace, new_trace}
use rv8_riscv_ckpt.Ckpt.Mem as Mem
use rv8_riscv_ckpt.Ckpt.Fetch.{get_exec_counter}
use rv8_riscv_ckpt.Ckpt.Fetch as Fetch

-- Why a checkpoint ends, with what the `break` line says of it.
pub data Break : Type 0 where
  ecall first firstrvc exited : Break
  repeated : (exec_count rd : ℕ) → Break

-- The fields of `CheckpointManager` that its operations read; `mem` is `none` for `NULL`.
pub record Manager : Type 0 where
  pub out : Bool
  pub period : ℕ
  pub begin_instret : ℕ
  pub mem : Option MemTrace

-- What a fetched instruction leaves: the checkpoint that ends there, with its interval of retired
-- instructions, if one does, and the manager after it.
pub record Broken : Type 0 where
  pub reason : Break
  pub from : ℕ
  pub till : ℕ
  pub dump : MemTrace

-- What the fetch reads of the processor and the instruction; `rd` is `get_rd(dec)`, where a
-- negative number is `none`.
pub record Fetched : Type 0 where
  pub instret : ℕ
  pub addr : ℕ
  pub inst : ℕ
  pub length : ℕ
  pub rd : Option ℕ

abbrev pub ecall_inst : ℕ
ecall_inst = 115

-- `a - b` of 64 bits.
abbrev pub minus64 : ℕ → ℕ → ℕ
minus64 a b = (a + (2 ^ 64 - b)) % 2 ^ 64

-- `break_here`, after the `break` line.
abbrev pub break_here : Break → ℕ → MemTrace → Manager → Option Broken × Manager
break_here reason instret t c = (
  some (record { reason = reason; from = c.begin_instret; till = instret; dump = t }),
  record c { mem = none },
)

abbrev pub goes_on : MemTrace → Manager → Option Broken × Manager
goes_on t c = (none, record c { mem = some t })

-- `if (!mem)`: the begin of a checkpoint.
abbrev pub begin : Option MemTrace → Fetched → Manager → MemTrace × Manager
begin none f c = (new_trace, record c { begin_instret = f.instret })
begin (some t) f c = (t, c)

-- `(rd = proc.get_rd(dec)) > 0`.
abbrev pub positive : Option ℕ → Option ℕ
positive none = none
positive (some zero) = none
positive (some (suc n)) = some (suc n)

-- The last test: an instruction that an `ecall` may replace, and its counter.
abbrev pub break_repeated :
    Option ℕ → Option ℕ → Fetched → MemTrace → Manager → Option (Option Broken × Manager)
break_repeated none count f t c = some (goes_on t c)
break_repeated (some rd) none f t c = none
break_repeated (some rd) (some count) f t c =
    if ltb count (minus64 f.instret c.begin_instret / 2 ^ 18)
    then some (break_here (Break.repeated count rd) f.instret (Fetch.get_exec f.addr t) c)
    else some (goes_on (Fetch.get_exec f.addr t) c)

abbrev pub break_rest : Fetched → MemTrace → Manager → Option (Option Broken × Manager)
break_rest f t c =
    if f.length == 4
    then break_repeated (positive f.rd) (get_exec_counter f.addr t) f t c
    else some (goes_on t c)

-- `mem->prefetch(addr + 2, 2)`, of a compressed instruction.
abbrev pub break_firstrvc :
    Option (Bool × MemTrace) → Fetched → Manager → Option (Option Broken × Manager)
break_firstrvc none f c = none
break_firstrvc (some (true, t)) f c = some (break_here Break.firstrvc f.instret t c)
break_firstrvc (some (false, t)) f c = break_rest f t c

-- The search for a place to break, past the period.
abbrev pub look_for_break : Bool → Fetched → MemTrace → Manager → Option (Option Broken × Manager)
look_for_break first_visit f t c =
    if f.inst == ecall_inst
    then some (break_here Break.ecall f.instret t c)
    else if first_visit && f.length == 4
    then some (break_here Break.first f.instret t c)
    else if first_visit && f.length == 2
    then break_firstrvc (Fetch.prefetch (f.addr + 2) 2 t) f c
    else break_rest f t c

abbrev pub after_fetch :
    Option (Bool × MemTrace) → Fetched → Manager → Option (Option Broken × Manager)
after_fetch none f c = none
after_fetch (some (first_visit, t)) f c =
    if ltb c.period (minus64 f.instret c.begin_instret)
    then look_for_break first_visit f t c
    else some (goes_on t c)

-- `fetch`; the outer `none` is the fault of a null pointer.
unfoldable pub fetch : Fetched → Manager → Option (Option Broken × Manager)
fetch f c =
    if c.out
    then (let begun = begin c.mem f c in
        after_fetch (Fetch.fetch f.addr f.inst f.length begun.0) f begun.1)
    else some (none, c)

abbrev pub with_mem : Option MemTrace → Manager → Option Manager
with_mem none c = none
with_mem (some t) c = some (record c { mem = some t })

abbrev pub on_mem : (MemTrace → Option MemTrace) → Option MemTrace → Manager → Option Manager
on_mem f none c = some c
on_mem f (some t) c = with_mem (f t) c

-- `load` and `store`, when a checkpoint is being recorded.
unfoldable pub load : ℕ → ℕ → ℕ → Manager → Option Manager
load size addr val c = on_mem (Mem.load size addr val) c.mem c

unfoldable pub store : ℕ → ℕ → Manager → Option Manager
store size addr c = on_mem (Mem.store size addr) c.mem c

-- The stores of `syscall(retval, addr, size)`, when `addr` is not `NULL`.
unfoldable pub store_each : ℕ → ℕ → MemTrace → Option MemTrace
store_each zero addr t = some t
store_each (suc n) addr t = then_trace (Mem.store 1 addr t) λ t'. store_each n (addr + 1) t'

unfoldable pub syscall : ℕ → ℕ → Manager → Option Manager
syscall addr size c = if addr == 0 then some c else on_mem (store_each size addr) c.mem c

-- `exit`, after which the output is closed.
unfoldable pub exit : ℕ → Manager → Option Broken × Manager
exit instret c = exit_with c.mem instret c
  where
    exit_with : Option MemTrace → ℕ → Manager → Option Broken × Manager
    exit_with none instret c = (none, c)
    exit_with (some t) instret c = break_here Break.exited instret t c
