-- ===== src/Asm/Types/Within.antt =====
-- src/asm/types.h: the bits that the operands of a layout can set.
use rv8_riscv_ckpt.Asm.Types.Layout.{
  bit-encode_segments, writes, fit, build, sound, Layout, nothing, put, join,
}
use rv8_riscv_ckpt.Base.{
  inr, bit_ones, ltb, inl, ◌+◌, ◌&&◌, bit-or, sym, ◌∙◌, leb, Bool-cases, &&-true, bit-and, arith,
  bit_ext, ◌-◌, bit_and, bit, List, [], ◌∷◌, ◌^◌, true, ◌≡◌, ℕ,
}
use rv8_riscv_ckpt.Asm.Types.{Segment, BitRange, encode}
use rv8_riscv_ckpt.Asm.Types.Scatter.{low, any_of-append, any_of, writes_ranges, fit_ranges}

-- All that a layout can write.
abbrev pub fields_of : Layout → ℕ
fields_of lay = build (λ s. 2 ^ 64 - 1) lay

module _ (x : ℕ) where
  ranges_within :
      (l : ℕ) (rs : List BitRange) (q : ℕ)
      → fit_ranges l rs ≡ true
      → any_of (bit x) (writes_ranges l rs q) ≡ true
      → any_of (bit (2 ^ 64 - 1)) (writes_ranges l rs q) ≡ true
  unfolding fit_ranges writes_ranges any_of
  ranges_within l [] q f h = h
  ranges_within l (r ∷ t) q f h =
      elim (Bool-cases (leb (low l t) q && leb (q + r.m) (low l t + r.n))) [
        | inl here ↦
            let j = q + r.m - low l t in
            let small : ltb j 64 ≡ true = ground arith in rw here (ground (arith, bit_ones 64 j))
        | inr off ↦
            let rest : fit_ranges l t ≡ true = ground arith in
            rw off (ranges_within l t q rest (rw off at h))
      ]

  segments_within :
      (g : List Segment) (q : ℕ)
      → fit g ≡ true
      → any_of (bit x) (writes g q) ≡ true
      → any_of (bit (2 ^ 64 - 1)) (writes g q) ≡ true
  unfolding fit writes any_of
  segments_within [] q f h = h
  segments_within (g ∷ t) q f h =
      let parts = &&-true (fit t) (fit_ranges g.l g.ranges) f in
      let a = any_of-append (bit x) (writes t q) (writes_ranges g.l g.ranges q) in
      let b = any_of-append (bit (2 ^ 64 - 1)) (writes t q) (writes_ranges g.l g.ranges q) in
      ground (arith, a, b, segments_within t q parts.0, ranges_within g.l g.ranges q parts.1)

bit_within :
    (env : ℕ → ℕ) (lay : Layout) (q : ℕ)
    → sound lay ≡ true
    → bit (build env lay) q ≡ true
    → bit (fields_of lay) q ≡ true
unfolding sound encode
bit_within env nothing q f h = h
bit_within env (put s o) q f h =
    bit-encode_segments o.segments (2 ^ 64 - 1) q f
    ∙ segments_within (env s) o.segments q f (sym (bit-encode_segments o.segments (env s) q f) ∙ h)
bit_within env (join a b) q f h =
    let parts = &&-true (sound a) (sound b) f in
    ground (
      arith,
      bit-or (build env a) (build env b) q,
      bit-or (fields_of a) (fields_of b) q,
      bit_within env a q parts.0,
      bit_within env b q parts.1,
    )

-- Whatever the values are, only those bits are set.
pub build-within :
    (env : ℕ → ℕ) (lay : Layout)
    → sound lay ≡ true
    → bit_and (build env lay) (fields_of lay) ≡ build env lay
build-within env lay f =
    bit_ext _ _
      λ q. ground (arith, bit-and (build env lay) (fields_of lay) q, bit_within env lay q f)
