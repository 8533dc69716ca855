-- ===== src/Ckpt/Seen.antt =====
-- src/util/fmt.h: the byte of a page that `PageRec` marks and holds.
use rv8_riscv_ckpt.Base.{
  ℕ, ◌+◌, ◌-◌, ◌*◌, ◌/◌, ◌%◌, ◌^◌, ◌≤◌, ◌<◌, Bool, true, false, ◌&&◌, ◌||◌, ltb, leb, ◌==◌, bit_or,
  ◌≡◌, refl, sym, ◌∙◌, Bool-cases, inl, inr, bit-and, bit-or, bit-zero, bit-div, bit-mul, bit-mod,
  bit_ones, arith, Option, none, some, if◌then◌else◌,
}
use rv8_riscv_ckpt.Base.{bit}
use rv8_riscv_ckpt.Ckpt.Page.{PageRec, byte, size_mask, check, set_visited, put}

-- Whether a byte is marked, and the byte that is recorded.
abbrev pub seen : PageRec → ℕ → Bool
seen page o = bit (page.visited (o / 8)) (o % 8)

abbrev pub within : ℕ → ℕ → ℕ → Bool
within size offset o = leb offset o && ltb o (offset + size)

marked_bit :
    (v size k i : ℕ)
    → k + size ≤ 8
    → i < 8
    → bit (bit_or v ((2 ^ size - 1) * 2 ^ k) % 256) i ≡ (bit v i || (leb k i && ltb i (k + size)))
marked_bit v size k i h hi =
    bit-mod (bit_or v ((2 ^ size - 1) * 2 ^ k)) 8 i
    ∙ ground (
      arith,
      bit-or v ((2 ^ size - 1) * 2 ^ k) i,
      bit-mul (2 ^ size - 1) k i,
      bit_ones size (i - k),
    )

pub seen-set_visited :
    (size : ℕ) (page : PageRec) (offset o : ℕ)
    → offset % 8 + size ≤ 8
    → seen (set_visited size page offset) o ≡ (seen page o || within size offset o)
unfolding set_visited
seen-set_visited size page offset o h = elim (Bool-cases (o / 8 == offset / 8)) [
  | inl same ↦
      let e : o / 8 ≡ offset / 8 = ground arith in
      let range : (leb (offset % 8) (o % 8) && ltb (o % 8) (offset % 8 + size))
          ≡ within size offset o =
        ground arith in
      rw same (
        marked_bit (page.visited (offset / 8)) size (offset % 8) (o % 8) h (omega arith)
        ∙ rw (e, range) refl)
  | inr other ↦
      let outside : within size offset o ≡ false = ground arith in
      rw (other, outside) (ground arith)
]

bit-check :
    (size : ℕ) (page : PageRec) (offset o : ℕ)
    → offset % 8 + size ≤ 8
    → within size offset o ≡ true
    → bit (check size page offset) (o - offset) ≡ seen page o
unfolding check
bit-check size page offset o h inside =
    let e : o - offset + offset % 8 ≡ o % 8 = ground arith in
    let f : offset / 8 ≡ o / 8 = ground arith in
    bit-and (page.visited (offset / 8) / 2 ^ (offset % 8)) (2 ^ size - 1) (o - offset)
    ∙ rw
        (
          bit-div (page.visited (offset / 8)) (offset % 8) (o - offset),
          e,
          f,
          bit_ones size (o - offset),
        )
        (ground arith)

-- No byte of the range is marked when `check` gives 0.
pub check-zero :
    (size : ℕ) (page : PageRec) (offset o : ℕ)
    → offset % 8 + size ≤ 8
    → check size page offset ≡ 0
    → within size offset o ≡ true
    → seen page o ≡ false
check-zero size page offset o h e inside =
    sym (bit-check size page offset o h inside) ∙ rw e (bit-zero (o - offset))

-- Every byte of the range is marked when `check` gives the mask of the size.
pub check-full :
    (size : ℕ) (page : PageRec) (offset o : ℕ)
    → offset % 8 + size ≤ 8
    → check size page offset ≡ size_mask size
    → within size offset o ≡ true
    → seen page o ≡ true
check-full size page offset o h e inside =
    sym (bit-check size page offset o h inside) ∙ rw e (bit_ones size (o - offset) ∙ ground arith)

-- The byte of a page that is recorded.
abbrev pub recorded_in : PageRec → ℕ → Option ℕ
recorded_in page o = if seen page o then some (page.content o) else none

pub recorded_in-put :
    (size : ℕ) (page : PageRec) (offset val o : ℕ)
    → offset % 8 + size ≤ 8
    → recorded_in (put size page offset val) o
      ≡ (if within size offset o then some (byte val (o - offset)) else recorded_in page o)
unfolding put
recorded_in-put size page offset val o h = elim (Bool-cases (within size offset o)) [
  | inl inside ↦ rw (seen-set_visited size page offset o h, inside) (ground arith)
  | inr outside ↦ rw (seen-set_visited size page offset o h, outside) (ground arith)
]
