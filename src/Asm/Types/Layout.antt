-- ===== src/Asm/Types/Layout.antt =====
-- src/asm/types.h: whole instructions as operands joined by `|`, and a check, by evaluation, that an
-- operand can be read back from such a word.
use rv8_riscv_ckpt.Base.{
  ℕ, bit_or, List, [], ◌∷◌, ◌++◌, Bool, true, ◌&&◌, ◌≡◌, refl, bit, bit-or, bit-zero, ◌∙◌, sym,
  &&-true,
}
use rv8_riscv_ckpt.Asm.Types.{Segment, Operand, decode_segments, encode_segments, encode}
use rv8_riscv_ckpt.Asm.Types.Scatter.{
  any_of, any_of-append, reads_ranges, writes_ranges, fit_ranges, bit-decode_ranges,
  bit-encode_ranges,
}

unfoldable pub reads : List Segment → ℕ → List ℕ
reads [] j = []
reads (h ∷ t) j = reads t j ++ reads_ranges h.l h.ranges j

unfoldable pub writes : List Segment → ℕ → List ℕ
writes [] q = []
writes (h ∷ t) q = writes t q ++ writes_ranges h.l h.ranges q

unfoldable pub fit : List Segment → Bool
fit [] = true
fit (h ∷ t) = fit t && fit_ranges h.l h.ranges

pub bit-decode_segments :
    (s : List Segment) (inst j : ℕ)
    → fit s ≡ true
    → bit (decode_segments s inst) j ≡ any_of (bit inst) (reads s j)
unfolding decode_segments reads fit any_of
bit-decode_segments [] inst j f = bit-zero j
bit-decode_segments (h ∷ t) inst j f =
    let parts = &&-true (fit t) (fit_ranges h.l h.ranges) f in
    bit-or _ _ j
    ∙ rw (
      bit-decode_segments t inst j parts.0,
      bit-decode_ranges h.l h.ranges inst j parts.1,
      any_of-append (bit inst) (reads t j),
    )

pub bit-encode_segments :
    (s : List Segment) (imm q : ℕ)
    → fit s ≡ true
    → bit (encode_segments s imm) q ≡ any_of (bit imm) (writes s q)
unfolding encode_segments writes fit any_of
bit-encode_segments [] imm q f = bit-zero q
bit-encode_segments (h ∷ t) imm q f =
    let parts = &&-true (fit t) (fit_ranges h.l h.ranges) f in
    bit-or _ _ q
    ∙ rw (
      bit-encode_segments t imm q parts.0,
      bit-encode_ranges h.l h.ranges imm q parts.1,
      any_of-append (bit imm) (writes t q),
    )

-- A word built from operands; `put s o` encodes the value of slot `s` by operand `o`.
pub data Layout : Type 0 where
  nothing : Layout
  put : ℕ → Operand → Layout
  join : Layout → Layout → Layout

abbrev pub build : (ℕ → ℕ) → Layout → ℕ
build env nothing = 0
build env (put s o) = encode o (env s)
build env (join a b) = bit_or (build env a) (build env b)

-- The slots, and the bits of their values, that are written to instruction bit `q`.
tagged : ℕ → List ℕ → List (ℕ × ℕ)
tagged s [] = []
tagged s (j ∷ js) = (s, j) ∷ tagged s js

unfoldable pub sources : Layout → ℕ → List (ℕ × ℕ)
unfolding tagged
sources nothing q = []
sources (put s o) q = tagged s (writes o.segments q)
sources (join a b) q = sources a q ++ sources b q

unfoldable pub sound : Layout → Bool
sound nothing = true
sound (put s o) = fit o.segments
sound (join a b) = sound a && sound b

abbrev pub value_bit : (ℕ → ℕ) → ℕ × ℕ → Bool
value_bit env p = bit (env p.0) p.1

any_of-tagged :
    (env : ℕ → ℕ) (s : ℕ) (js : List ℕ)
    → any_of (value_bit env) (tagged s js) ≡ any_of (bit (env s)) js
unfolding any_of tagged
any_of-tagged env s [] = refl
any_of-tagged env s (j ∷ js) = rw (any_of-tagged env s js)

pub bit-build :
    (env : ℕ → ℕ) (lay : Layout) (q : ℕ)
    → sound lay ≡ true
    → bit (build env lay) q ≡ any_of (value_bit env) (sources lay q)
unfolding sources sound any_of encode
bit-build env nothing q f = bit-zero q
bit-build env (put s o) q f =
    bit-encode_segments o.segments (env s) q f ∙ sym (any_of-tagged env s (writes o.segments q))
bit-build env (join a b) q f =
    let parts = &&-true (sound a) (sound b) f in
    bit-or _ _ q
    ∙ rw (
      bit-build env a q parts.0,
      bit-build env b q parts.1,
      any_of-append (value_bit env) (sources a q),
    )
