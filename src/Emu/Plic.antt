-- ===== src/Emu/Plic.antt =====
-- src/emu/device-plic.h: the interrupt controller.
pub mod Claim
pub mod Tests
use rv8_riscv_ckpt.Base.{
  ℕ, zero, suc, ◌+◌, ◌-◌, ◌/◌, ◌%◌, ◌^◌, Bool, not, ltb, ◌==◌, if◌then◌else◌, bit_and, bit_or,
}

pub record Plic : Type 0 where
  pub pending : ℕ
  pub served : ℕ

-- `~x` of 32 bits.
abbrev pub inverted : ℕ → ℕ
inverted x = 2 ^ 32 - 1 - x

-- `1 << irq`.
abbrev pub irq_bit : ℕ → ℕ
irq_bit irq = 2 ^ irq % 2 ^ 32

unfoldable pub set_irq : ℕ → ℕ → Plic → Plic
set_irq irq val s =
    if val == 0
    then record s { pending = bit_and s.pending (inverted (irq_bit irq)) }
    else record s { pending = bit_or s.pending (irq_bit irq) }

abbrev pub unserved : Plic → ℕ
unserved s = bit_and s.pending (inverted s.served)

unfoldable pub irq_pending : Plic → Bool
irq_pending s = ltb 0 (unserved s)

-- `ctz` of a number of `n` bits, which is `n` for 0.
unfoldable pub ctz : ℕ → ℕ → ℕ
ctz zero x = 0
ctz (suc n) x = let rest = ctz n (x / 2) in if x % 2 == 1 then 0 else suc rest

-- The value that is read, and the state after it.
unfoldable pub claim : Plic → ℕ × Plic
claim s =
    let mask = unserved s in
    let i = ctz 32 mask in
    if mask == 0 then (0, s) else (i + 1, record s { served = bit_or s.served (irq_bit i) })

unfoldable pub load_32 : ℕ → Plic → ℕ × Plic
load_32 va s = if va == 4 then claim s else (0, s)

unfoldable pub load_64 : ℕ → Plic → ℕ × Plic
load_64 va s = if va == 0 then claim s else (0, s)

-- `val--`, of `w` bits, and the test after it.
unfoldable pub complete : ℕ → ℕ → Plic → Plic
complete w val s =
    let v = (val + (2 ^ w - 1)) % 2 ^ w in
    if ltb v 32 then record s { served = bit_and s.served (inverted (irq_bit v)) } else s

unfoldable pub store_32 : ℕ → ℕ → Plic → Plic
store_32 va val s = if va == 4 then complete 32 val s else s

unfoldable pub store_64 : ℕ → ℕ → Plic → Plic
store_64 va val s = if va == 0 then complete 64 val s else s
