-- ===== src/Asm/Types/Scatter.antt =====
-- src/asm/types.h: which instruction bit each decoded bit of an operand is read from and written to.
use mathlib.Core.Bool.{xor}
use rv8_riscv_ckpt.Base.{
  ℕ, ◌+◌, ◌-◌, ◌*◌, ◌^◌, ◌≤◌, ◌<◌, bit_and, List, [], ◌∷◌, ◌++◌, Bool, true, false, ◌&&◌, ◌||◌, leb,
  ltb, if◌then◌else◌, ◌≡◌, refl, arith, bit, bit-and, bit-or, bit-xor, bit-div, bit-mul, bit-mod,
  bit-zero, bit_ones, Bool-cases, inl, inr, ◌∙◌,
}
use rv8_riscv_ckpt.Asm.Types.{
  BitRange, width, offset, shift_down, shift_up, mask, decode_ranges, encode_ranges,
}

unfoldable pub any_of {ℓ} : {A : Type ℓ} → (A → Bool) → List A → Bool
any_of p [] = false
any_of p (x ∷ xs) = p x || any_of p xs

pub any_of-append {ℓ} :
    {A : Type ℓ} (p : A → Bool) (xs ys : List A)
    → any_of p (xs ++ ys) ≡ (any_of p xs || any_of p ys)
unfolding any_of
any_of-append p [] ys = refl
any_of-append p (x ∷ xs) ys = ground (arith, any_of-append p xs ys)

-- The instruction bit that the lowest bit of the first range stands at.
abbrev pub low : ℕ → List BitRange → ℕ
low l t = offset t + l

abbrev pub inside : BitRange → ℕ → Bool
inside h j = leb h.m j && leb j h.n

-- The instruction bits that decoded bit `j` is read from.
unfoldable pub reads_ranges : ℕ → List BitRange → ℕ → List ℕ
reads_ranges l [] j = []
reads_ranges l (h ∷ t) j =
    if inside h j then (j + low l t - h.m) ∷ reads_ranges l t j else reads_ranges l t j

-- The decoded bits that are written to instruction bit `q`.
unfoldable pub writes_ranges : ℕ → List BitRange → ℕ → List ℕ
writes_ranges l [] q = []
writes_ranges l (h ∷ t) q =
    if leb (low l t) q && leb (q + h.m) (low l t + h.n)
    then (q + h.m - low l t) ∷ writes_ranges l t q
    else writes_ranges l t q

-- Every range has its ends in order, and stays within 64 bits on both sides.
unfoldable pub fit_ranges : ℕ → List BitRange → Bool
fit_ranges l [] = true
fit_ranges l (h ∷ t) =
    leb h.m h.n && (ltb h.n 64 && (ltb (low l t + h.n) (64 + h.m) && fit_ranges l t))

bit-mask : (h : BitRange) (j : ℕ) → h.m ≤ h.n → bit (mask h) j ≡ inside h j
unfolding mask xor
bit-mask h j order =
    bit-xor (2 ^ (h.n + 1) - 1) (2 ^ h.m - 1) j
    ∙ ground (arith, bit_ones (h.n + 1) j, bit_ones h.m j)

bit-shift_down :
    (up down x j : ℕ)
    → j < 64
    → down ≤ j + up
    → bit (shift_down up down x) j ≡ bit x (j + up - down)
unfolding shift_down
bit-shift_down up down x j small above = elim (Bool-cases (ltb up down)) [
  | inl e ↦
      let k : j - (down - up) ≡ j + up - down = ground arith in
      rw (e, bit-mod (x * 2 ^ (down - up)) 64 j, bit-mul x (down - up) j, ← k) (ground arith)
  | inr e ↦
      let k : j + (up - down) ≡ j + up - down = ground arith in rw (e, bit-div x (up - down) j, k)
]

bit-shift_up :
    (up down x i : ℕ)
    → bit (shift_up up down x) i
      ≡ ((ltb i 64 || ltb up down) && (leb up (i + down) && bit x (i + down - up)))
unfolding shift_up
bit-shift_up up down x i = elim (Bool-cases (ltb up down)) [
  | inl e ↦
      let k : i + (down - up) ≡ i + down - up = ground arith in
      rw (e, bit-div x (down - up) i, k) (ground arith)
  | inr e ↦
      let k : i - (up - down) ≡ i + down - up = ground arith in
      rw (e, bit-mod (x * 2 ^ (up - down)) 64 i, bit-mul x (up - down) i, k) (ground arith)
]

decode_head :
    (l : ℕ) (h : BitRange) (t : List BitRange) (inst j : ℕ)
    → h.m ≤ h.n
    → h.n < 64
    → bit (bit_and (shift_down (offset (h ∷ t) + l) (width h + h.m) inst) (mask h)) j
      ≡ (inside h j && bit inst (j + low l t - h.m))
decode_head l h t inst j order fits =
    bit-and _ (mask h) j
    ∙ rw (bit-mask h j order) (elim (Bool-cases (inside h j)) [
      | inl e ↦
          let k : j + (offset (h ∷ t) + l) - (width h + h.m) ≡ j + low l t - h.m = omega arith in
          rw (e, ← k) (ground (arith, bit-shift_down (offset (h ∷ t) + l) (width h + h.m) inst j))
      | inr e ↦ rw e (ground arith)
    ])

encode_head :
    (l : ℕ) (h : BitRange) (t : List BitRange) (imm q : ℕ)
    → h.m ≤ h.n
    → low l t + h.n < 64 + h.m
    → bit (shift_up (offset (h ∷ t) + l) (width h + h.m) (bit_and imm (mask h))) q
      ≡ ((leb (low l t) q && leb (q + h.m) (low l t + h.n)) && bit imm (q + h.m - low l t))
encode_head l h t imm q order fits =
    let k : q + (width h + h.m) - (offset (h ∷ t) + l) ≡ q + h.m - low l t = omega arith in
    bit-shift_up (offset (h ∷ t) + l) (width h + h.m) (bit_and imm (mask h)) q
    ∙ rw (k, bit-and imm (mask h) (q + h.m - low l t), bit-mask h (q + h.m - low l t) order)
        (ground arith)

-- A decoded bit is the disjunction of the instruction bits that it is read from.
pub bit-decode_ranges :
    (l : ℕ) (rs : List BitRange) (inst j : ℕ)
    → fit_ranges l rs ≡ true
    → bit (decode_ranges l rs inst) j ≡ any_of (bit inst) (reads_ranges l rs j)
unfolding decode_ranges reads_ranges any_of fit_ranges
bit-decode_ranges l [] inst j fit = bit-zero j
bit-decode_ranges l (h ∷ t) inst j fit =
    bit-or _ _ j ∙ ground (arith, decode_head l h t inst j, bit-decode_ranges l t inst j)

pub bit-encode_ranges :
    (l : ℕ) (rs : List BitRange) (imm q : ℕ)
    → fit_ranges l rs ≡ true
    → bit (encode_ranges l rs imm) q ≡ any_of (bit imm) (writes_ranges l rs q)
unfolding encode_ranges writes_ranges any_of fit_ranges
bit-encode_ranges l [] imm q fit = bit-zero q
bit-encode_ranges l (h ∷ t) imm q fit =
    bit-or _ _ q ∙ ground (arith, encode_head l h t imm q, bit-encode_ranges l t imm q)
