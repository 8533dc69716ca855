-- ===== src/Emu/Plic/Claim.antt =====
-- src/emu/device-plic.h: which interrupt a claim gives, and what a completion ends.
use rv8_riscv_ckpt.Base.{
  lt→ltb, le→ltb, ℕ, zero, suc, ◌+◌, ◌-◌, ◌/◌, ◌%◌, ◌^◌, ◌≤◌, ◌<◌, Bool, true, false, not, ◌&&◌,
  ◌||◌, ltb, ◌==◌, ==_iff, Bool-cases, bit, bit-and, bit-or, bit-mod, bit-suc, bit_lowest,
  bit-power, bit_complement, bit_and, bit_or, bit_ext, ◌≡◌, ◌≢◌, refl, sym, ap, ◌∙◌, ◌⊎◌, inl, inr,
  arith, bit_and_below,
}
use native.Mathlib.Nat.{mul-add-mod_self_right, pow-le-pow_right, mod-eq_of_lt, pow-succ'}
use rv8_riscv_ckpt.Emu.Plic.{Plic, inverted, irq_bit, unserved, irq_pending, ctz, claim, complete}

-- The lowest bit that is set.
IsLowest : ℕ → ℕ → Type 0
IsLowest x i = (bit x i ≡ true) × ((j : ℕ) → j < i → bit x j ≡ false)

below :
    (x i : ℕ)
    → (x % 2 == 1) ≡ false
    → ((j : ℕ) → j < i → bit (x / 2) j ≡ false)
    → (j : ℕ) → j < suc i
    → bit x j ≡ false
below x i even lower zero k = bit_lowest x ∙ even
below x i even lower (suc j) k = bit-suc x j ∙ lower j (omega (arith, k))

ctz-IsLowest : (n x : ℕ) → x < 2 ^ n → x ≢ 0 → IsLowest x (ctz n x) × (ctz n x < n)
unfolding ctz IsLowest
ctz-IsLowest zero x h nz = absurd (nz (omega arith))
ctz-IsLowest (suc n) x h nz = elim (Bool-cases (x % 2 == 1)) [
  | inl odd ↦ rw odd ((bit_lowest x ∙ odd, λ j k. absurd (omega (arith, k))), omega arith)
  | inr even ↦
      let rest = ctz-IsLowest n (x / 2) (omega (arith, pow-succ' 2 n)) (λ z. nz (ground arith)) in
      rw even (
        (bit-suc x (ctz n (x / 2)) ∙ rest.0.0, below x (ctz n (x / 2)) even rest.0.1),
        omega (arith, rest.1),
      )
]

-- Both registers have 32 bits.
abbrev pub IsPlic : Plic → Type 0
IsPlic s = (s.pending < 2 ^ 32) × (s.served < 2 ^ 32)

-- Pending and not served.
abbrev pub waiting : Plic → ℕ → Bool
waiting s j = bit s.pending j && not (bit s.served j)

bit-unserved : (s : Plic) (j : ℕ) → IsPlic s → bit (unserved s) j ≡ waiting s j
bit-unserved s j h =
    let p : (ltb j 32 && bit s.pending j) ≡ bit s.pending j =
      sym (bit-mod s.pending 32 j) ∙ ap (λ z. bit z j) (mod-eq_of_lt h.0) in
    ground (arith, bit-and s.pending (inverted s.served) j, bit_complement 32 s.served j h.1, p)

bit-irq_bit : (i j : ℕ) → i < 32 → bit (irq_bit i) j ≡ (j == i)
bit-irq_bit i j h = ground (arith, bit-mod (2 ^ i) 32 j, bit-power i j)

-- A claim gives 0 and changes nothing when no interrupt is pending and not served. Otherwise it gives
-- the number, counted from 1, of the lowest that is, and marks that one as served and no other.
pub claim_lem :
    (s : Plic)
    → IsPlic s
    → ((irq_pending s ≡ false) × (claim s ≡ (0, s)))
      ⊎ ((irq_pending s ≡ true)
          × ((i : ℕ) × ((claim s).0 ≡ i + 1)
              × (i < 32)
              × (waiting s i ≡ true)
              × ((j : ℕ) → j < i → waiting s j ≡ false)
              × ((claim s).1.pending ≡ s.pending)
              × ((j : ℕ) → bit (claim s).1.served j ≡ (bit s.served j || j == i))))
unfolding claim irq_pending IsLowest
claim_lem s h = elim (Bool-cases (unserved s == 0)) [
  | inl idle ↦ inl (ground arith, rw idle refl)
  | inr busy ↦
      let low = ctz-IsLowest 32 (unserved s) (bit_and_below 32 s.pending _ h.0) (ground arith) in
      inr (
        ground arith,
        rw busy (
          ctz 32 (unserved s),
          refl,
          low.1,
          sym (bit-unserved s (ctz 32 (unserved s)) h) ∙ low.0.0,
          λ j k. sym (bit-unserved s j h) ∙ low.0.1 j k,
          refl,
          λ j. ground (
            arith,
            bit-or s.served (irq_bit (ctz 32 (unserved s))) j,
            bit-irq_bit (ctz 32 (unserved s)) j low.1,
          ),
        ),
      )
]

-- Serving an interrupt that is waiting and ending it leaves the registers as they were.
served_again :
    (served i : ℕ)
    → served < 2 ^ 32
    → i < 32
    → bit served i ≡ false
    → bit_and (bit_or served (irq_bit i)) (inverted (irq_bit i)) ≡ served
served_again served i h small clear = bit_ext _ _ λ j.
    let small_bit : irq_bit i < 2 ^ 32 = omega arith in
    let s : (ltb j 32 && bit served j) ≡ bit served j =
      sym (bit-mod served 32 j) ∙ ap (λ z. bit z j) (mod-eq_of_lt h) in
    let at_i : (j == i) ≡ true → bit served j ≡ false =
      λ e. ap (bit served) ((==_iff j i).0 e) ∙ clear in
    ground (
      arith,
      at_i,
      bit-and (bit_or served (irq_bit i)) (inverted (irq_bit i)) j,
      bit-or served (irq_bit i) j,
      bit_complement 32 (irq_bit i) j small_bit,
      bit-irq_bit i j small,
      s,
    )

complete-served :
    (w i : ℕ) (s : Plic)
    → 6 ≤ w
    → i < 32
    → complete w (i + 1) s ≡ record s { served = bit_and s.served (inverted (irq_bit i)) }
unfolding complete
complete-served w i s wide small =
    let big : 2 ^ 6 ≤ 2 ^ w = pow-le-pow_right (omega arith) wide in
    let e : (i + 1 + (2 ^ w - 1)) % 2 ^ w ≡ i =
      ap (λ n. n % 2 ^ w) (omega (arith, big))
      ∙ mul-add-mod_self_right 1 (2 ^ w) i
      ∙ mod-eq_of_lt (omega (arith, big)) in
    let t : ltb i 32 ≡ true = lt→ltb i 32 small in rw (e, t) refl

complete-idle : (w : ℕ) (s : Plic) → 6 ≤ w → complete w 0 s ≡ s
unfolding complete
complete-idle w s wide =
    let big : 2 ^ 6 ≤ 2 ^ w = pow-le-pow_right (omega arith) wide in
    let e : (0 + (2 ^ w - 1)) % 2 ^ w ≡ 2 ^ w - 1 =
      mod-eq_of_lt (omega (arith, big)) ∙ omega arith in
    let t : ltb (2 ^ w - 1) 32 ≡ false = le→ltb (2 ^ w - 1) 32 (omega (arith, big)) in
    rw (e, t) refl

-- Writing back what a claim gave, by either width of access, leaves the registers as they were before
-- the claim.
pub complete-claim :
    (s : Plic)
    → IsPlic s
    → (complete 32 (claim s).0 (claim s).1 ≡ s) × (complete 64 (claim s).0 (claim s).1 ≡ s)
unfolding claim IsLowest
complete-claim s h = (back 32 (omega arith), back 64 (omega arith))
  where
    back : (w : ℕ) → 6 ≤ w → complete w (claim s).0 (claim s).1 ≡ s
    back w wide = elim (Bool-cases (unserved s == 0)) [
      | inl idle ↦ rw (idle, claim) (complete-idle w s wide)
      | inr busy ↦
          let i = ctz 32 (unserved s) in
          let low =
            ctz-IsLowest 32 (unserved s) (bit_and_below 32 s.pending _ h.0) (ground arith) in
          let waits : waiting s i ≡ true = sym (bit-unserved s i h) ∙ low.0.0 in
          let clear : bit s.served i ≡ false = ground arith in
          rw (busy, claim)
            (complete-served w i (record s { served = bit_or s.served (irq_bit i) }) wide low.1
              ∙ ap (λ v. record s { served = v }) (served_again s.served i h.1 low.1 clear))
    ]
