-- ===== src/Ckpt/Proxy.antt =====
-- src/emu/mmu-proxy.h: the accesses of a user program, which the checkpoint records.
use rv8_riscv_ckpt.Base.{
  bit_and, ℕ, zero, suc, ◌+◌, ◌-◌, ◌*◌, ◌%◌, ◌^◌, ltb, if◌then◌else◌, Option, none, some,
}
use rv8_riscv_ckpt.Emu.Amo.{AmoOp, amo_fn}
use rv8_riscv_ckpt.Ckpt.Page.{store_bytes}
use rv8_riscv_ckpt.Ckpt.Mem.{MemTrace}
use rv8_riscv_ckpt.Ckpt.Mem as Mem

-- The bytes of the guest's address space, and the trace of the checkpoint.
pub record Guest : Type 0 where
  pub mem : ℕ → ℕ
  pub trace : MemTrace

abbrev pub memory_top : ℕ
memory_top = 2 ^ 31

-- `*(T*)va`.
unfoldable pub read : ℕ → (ℕ → ℕ) → ℕ → ℕ
read zero m va = 0
read (suc n) m va = m va % 256 + 256 * read n m (va + 1)

abbrev pub with_trace {ℓ} : {A : Type ℓ} → Option MemTrace → (MemTrace → Option A) → Option A
with_trace none f = none
with_trace (some t) f = f t

-- `load`, `store` and `amo`, with a trace that is being recorded. `none` is the fault of a null pointer.
unfoldable pub load : ℕ → ℕ → Guest → Option (ℕ × Guest)
load size va g =
    let val = read size g.mem va in
    with_trace (Mem.load size va val g.trace) λ t. some (val, record g { trace = t })

unfoldable pub store : ℕ → ℕ → ℕ → Guest → Option Guest
store size va val g =
    with_trace (Mem.store size va g.trace)
      λ t. some (record { mem = store_bytes size g.mem va val; trace = t })

-- A `T` of that many bytes as a `UX` of `w` bits.
abbrev pub to_ux : ℕ → ℕ → ℕ → ℕ
to_ux w size x = if ltb x (2 ^ (8 * size - 1)) then x else x + (2 ^ w - 2 ^ (8 * size))

-- The access is at `va & (memory_top - 1)`, and it is recorded at `va`.
unfoldable pub amo : ℕ → ℕ → AmoOp → ℕ → ℕ → Guest → Option (ℕ × Guest)
amo w size a_op va val2 g =
    let at = bit_and va (memory_top - 1) in
    let val1 = read size g.mem at in
    let val = amo_fn w a_op (to_ux w size val1) (to_ux w size val2) % 2 ^ (8 * size) in
    with_trace (Mem.load size va val1 g.trace) λ t.
      with_trace (Mem.store size va t)
        λ t'. some (val1, record { mem = store_bytes size g.mem at val; trace = t' })
