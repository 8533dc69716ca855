-- ===== src/Emu/Plic/Tests.antt =====
-- Concrete states for the theorems on the interrupt controller.
use rv8_riscv_ckpt.Base.{ℕ, ◌+◌, ◌<◌, true, false, ◌||◌, ◌==◌, bit, ◌≡◌, ◌⊎◌, arith}
use rv8_riscv_ckpt.Emu.Plic.{Plic, irq_pending, claim, complete}
use rv8_riscv_ckpt.Emu.Plic.Claim.{waiting, claim_lem, complete-claim}

-- Interrupts 1 and 2 are pending, and 1 is served.
abbrev two_pending : Plic
two_pending = record { pending = 6; served = 2 }

claim_lem_example :
    ((irq_pending two_pending ≡ false) × (claim two_pending ≡ (0, two_pending)))
    ⊎ ((irq_pending two_pending ≡ true)
        × ((i : ℕ) × ((claim two_pending).0 ≡ i + 1)
            × (i < 32)
            × (waiting two_pending i ≡ true)
            × ((j : ℕ) → j < i → waiting two_pending j ≡ false)
            × ((claim two_pending).1.pending ≡ 6)
            × ((j : ℕ) → bit (claim two_pending).1.served j ≡ (bit 2 j || j == i))))
unfolding claim
claim_lem_example = claim_lem two_pending (omega arith, omega arith)

complete-claim_example :
    (complete 32 (claim two_pending).0 (claim two_pending).1 ≡ two_pending)
    × (complete 64 (claim two_pending).0 (claim two_pending).1 ≡ two_pending)
complete-claim_example = complete-claim two_pending (omega arith, omega arith)
