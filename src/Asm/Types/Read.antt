-- ===== src/Asm/Types/Read.antt =====
-- src/asm/types.h: an operand that passes the check is read back from the word that it was put into.
use rv8_riscv_ckpt.Base.{
  ℕ, zero, suc, ◌+◌, ◌-◌, ◌*◌, ◌/◌, ◌%◌, ◌^◌, ◌≤◌, ◌<◌, bit_and, bit_or, List, [], ◌∷◌, Bool, true,
  false, not, ◌&&◌, leb, ltb, ◌==◌, if◌then◌else◌, ◌≡◌, refl, arith, bit, bit-and, bit-or, bit-div,
  bit-mul, bit-mod, bit-zero, bit_ones, bit_ext, Bool-cases, inl, inr, ◌∙◌, ap, sym, &&-true,
  ltb→lt, ltb→le, le→ltb,
}
use rv8_riscv_ckpt.Asm.Types.{BitRange, Segment, Operand, decode_segments}
use rv8_riscv_ckpt.Asm.Types.Scatter.{any_of, reads_ranges, writes_ranges, fit_ranges, inside}
use rv8_riscv_ckpt.Asm.Types.Layout.{
  Layout, build, reads, writes, fit, sources, sound, value_bit, bit-decode_segments, bit-build,
}

unfoldable pub all_below : ℕ → (ℕ → Bool) → Bool
all_below zero p = true
all_below (suc n) p = p n && all_below n p

pub all_below_at : (n : ℕ) (p : ℕ → Bool) (x : ℕ) → all_below n p ≡ true → x < n → p x ≡ true
unfolding all_below
all_below_at zero p x h lt = absurd (omega arith)
all_below_at (suc n) p x h lt = ground (arith, all_below_at n p x)

one_source : List (ℕ × ℕ) → ℕ → ℕ → Bool
one_source [] s j = false
one_source ((a, b) ∷ []) s j = a == s && b == j
one_source (x ∷ y ∷ r) s j = false

only_from : Layout → ℕ → ℕ → List ℕ → Bool
only_from lay s j [] = true
only_from lay s j (q ∷ qs) = one_source (sources lay q) s j && only_from lay s j qs

some_of : List ℕ → Bool
some_of [] = false
some_of (q ∷ qs) = true

readable_at : Layout → Operand → ℕ → ℕ → ℕ → ℕ → Bool
readable_at lay o s lo hi j =
    if leb lo j && ltb j hi
    then some_of (reads o.segments j) && only_from lay s j (reads o.segments j)
    else not (some_of (reads o.segments j))

-- The operand reads the bits of slot `s` from `lo` to `hi`, each from a place where the layout puts
-- that bit and nothing else, and reads no other bit.
unfoldable pub readable : Layout → Operand → ℕ → ℕ → ℕ → Bool
unfolding one_source only_from some_of readable_at all_below sources reads writes fit sound
    reads_ranges writes_ranges fit_ranges
readable lay o s lo hi =
    fit o.segments && (sound lay && (leb hi 64 && all_below 64 (readable_at lay o s lo hi)))

-- The fixed bits `m` of an instruction stay clear of the bits that the layout writes.
abbrev pub IsClear : ℕ → Layout → Type 0
IsClear m lay = bit_and m (build (λ s. 2 ^ 64 - 1) lay) ≡ 0

bit_of_one_source :
    (env : ℕ → ℕ) (xs : List (ℕ × ℕ)) (s j : ℕ)
    → one_source xs s j ≡ true
    → any_of (value_bit env) xs ≡ bit (env s) j
unfolding one_source any_of
bit_of_one_source env [] s j h = cc
bit_of_one_source env ((a, b) ∷ []) s j h =
    let e : a ≡ s = ground arith in let k : b ≡ j = ground arith in rw (e, k) (ground arith)
bit_of_one_source env (x ∷ y ∷ r) s j h = cc

module _ (env : ℕ → ℕ) (m : ℕ) (lay : Layout) (s j : ℕ) (small : j < 64) (good : sound lay ≡ true)
    (clear : IsClear m lay) where
  bit_of_source :
      (q : ℕ)
      → one_source (sources lay q) s j ≡ true
      → bit (bit_or m (build env lay)) q ≡ bit (env s) j
  bit_of_source q h = bit-or m (build env lay) q ∙ rw (off, here env) (ground arith)
    where
      here : (e : ℕ → ℕ) → bit (build e lay) q ≡ bit (e s) j
      here e = bit-build e lay q good ∙ bit_of_one_source e (sources lay q) s j h

      ones : bit (build (λ s. 2 ^ 64 - 1) lay) q ≡ true
      ones = here (λ s. 2 ^ 64 - 1) ∙ ground (arith, bit_ones 64 j)

      off : bit m q ≡ false
      off =
          let both = bit-and m (build (λ s. 2 ^ 64 - 1) lay) q in
          let none : bit (bit_and m (build (λ s. 2 ^ 64 - 1) lay)) q ≡ false =
            ap (λ (t : ℕ). bit t q) clear ∙ bit-zero q in
          ground (arith, both, ones, none)

  any_of_sources :
      (qs : List ℕ)
      → only_from lay s j qs ≡ true
      → any_of (bit (bit_or m (build env lay))) qs ≡ (some_of qs && bit (env s) j)
  unfolding only_from any_of some_of
  any_of_sources [] h = refl
  any_of_sources (q ∷ qs) h = ground (arith, bit_of_source q, any_of_sources qs)

reads_ranges_high :
    (l : ℕ) (rs : List BitRange) (j : ℕ)
    → fit_ranges l rs ≡ true
    → 64 ≤ j
    → reads_ranges l rs j ≡ []
unfolding reads_ranges fit_ranges
reads_ranges_high l [] j f h = refl
reads_ranges_high l (r ∷ t) j f h =
    let rest : fit_ranges l t ≡ true = ground arith in
    let outside : inside r j ≡ false = ground arith in rw outside (reads_ranges_high l t j rest h)

reads_high : (g : List Segment) (j : ℕ) → fit g ≡ true → 64 ≤ j → reads g j ≡ []
unfolding reads fit
reads_high [] j f h = refl
reads_high (g ∷ t) j f h =
    let parts = &&-true (fit t) (fit_ranges g.l g.ranges) f in
    rw (reads_high t j parts.0 h, reads_ranges_high g.l g.ranges j parts.1 h)

any_of_none : (p : ℕ → Bool) (qs : List ℕ) → some_of qs ≡ false → any_of p qs ≡ false
unfolding any_of some_of
any_of_none p [] h = refl
any_of_none p (q ∷ qs) h = cc

none_and : (a b : Bool) (p : ℕ → Bool) → any_of p [] ≡ ((a && false) && b)
unfolding any_of
none_and true b p = refl
none_and false b p = refl

module _ (env : ℕ → ℕ) (m : ℕ) (lay : Layout) (o : Operand) (s lo hi : ℕ) where
  read_bit_below :
      (j : ℕ)
      → j < 64
      → sound lay ≡ true
      → IsClear m lay
      → readable_at lay o s lo hi j ≡ true
      → any_of (bit (bit_or m (build env lay))) (reads o.segments j)
        ≡ ((leb lo j && ltb j hi) && bit (env s) j)
  unfolding readable_at
  read_bit_below j small good clear h = elim (Bool-cases (leb lo j && ltb j hi)) [
    | inl e ↦
        let both =
          &&-true (some_of (reads o.segments j)) (only_from lay s j (reads o.segments j))
            (rw e at h) in
        rw e
          (ground (arith, any_of_sources env m lay s j small good clear (reads o.segments j), both))
    | inr e ↦
        let none : some_of (reads o.segments j) ≡ false = ground arith in
        rw (e, any_of_none (bit (bit_or m (build env lay))) (reads o.segments j) none)
          (ground arith)
  ]

  read_bit :
      (j : ℕ)
      → readable lay o s lo hi ≡ true
      → IsClear m lay
      → bit (decode_segments o.segments (bit_or m (build env lay))) j
        ≡ ((leb lo j && ltb j hi) && bit (env s) j)
  unfolding readable
  read_bit j check clear =
      let f : fit o.segments ≡ true = ground arith in
      let good : sound lay ≡ true = ground arith in
      let bounded : hi ≤ 64 = ground arith in
      let table : all_below 64 (readable_at lay o s lo hi) ≡ true = ground arith in
      bit-decode_segments o.segments (bit_or m (build env lay)) j f ∙ elim (Bool-cases (ltb j 64)) [
        | inl e ↦
            let small = ltb→lt j 64 e in
            read_bit_below j small good clear
              (all_below_at 64 (readable_at lay o s lo hi) j table small)
        | inr e ↦
            let high = ltb→le j 64 e in
            rw (reads_high o.segments j f high, le→ltb j hi (omega arith))
              (none_and (leb lo j) (bit (env s) j) (bit (bit_or m (build env lay))))
      ]

  -- What the operand reads is the value of the slot, without the bits below `lo` and from `hi` on.
  pub decode_segments-build :
      readable lay o s lo hi ≡ true
      → IsClear m lay
      → decode_segments o.segments (bit_or m (build env lay)) ≡ env s / 2 ^ lo * 2 ^ lo % 2 ^ hi
  decode_segments-build check clear = bit_ext _ _ same
    where
      same :
          (j : ℕ)
          → bit (decode_segments o.segments (bit_or m (build env lay))) j
            ≡ bit (env s / 2 ^ lo * 2 ^ lo % 2 ^ hi) j
      same j =
          read_bit j check clear
          ∙ sym (
              bit-mod (env s / 2 ^ lo * 2 ^ lo) hi j
              ∙ rw (bit-mul (env s / 2 ^ lo) lo j, bit-div (env s) lo (j - lo))
                  (elim (Bool-cases (leb lo j)) [
                    | inl e ↦ let k : j - lo + lo ≡ j = ground arith in rw (e, k) (ground arith)
                    | inr e ↦ rw e (ground arith)
                  ]))
