-- ===== src/Asm/Types.antt =====
-- src/asm/types.h: the templates that describe how an operand is scattered over an instruction.
pub mod Scatter
pub mod Layout
pub mod Read
pub mod Within
use rv8_riscv_ckpt.Base.{
  ℕ, ◌+◌, ◌-◌, ◌*◌, ◌/◌, ◌%◌, ◌^◌, bit_and, bit_or, bit_xor, List, [], ◌∷◌, Bool, ltb,
  if◌then◌else◌,
}

-- `(u64)x << k` and `(u64)x >> k`.
abbrev pub shl64 : ℕ → ℕ → ℕ
shl64 x k = x * 2 ^ k % 2 ^ 64

abbrev pub shr64 : ℕ → ℕ → ℕ
shr64 x k = x / 2 ^ k

-- `B<N,M>`: the decoded bits from `n` down to `m`.
pub record BitRange : Type 0 where
  pub n : ℕ
  pub m : ℕ

abbrev pub width : BitRange → ℕ
width b = b.n + 1 - b.m

-- `S<K,L,...>`: the instruction bits from `k` down to `l`, split over decoded ranges.
pub record Segment : Type 0 where
  pub k : ℕ
  pub l : ℕ
  pub ranges : List BitRange

-- `S::offset`.
abbrev pub offset : List BitRange → ℕ
offset [] = 0
offset (h ∷ t) = offset t + width h

-- `mask`; both shifts stay below 64 bits.
unfoldable pub mask : BitRange → ℕ
mask h = bit_xor (2 ^ (h.n + 1) - 1) (2 ^ h.m - 1)

-- `shift < 0 ? x << -shift : x >> shift`, where `shift` is the difference `up - down`.
unfoldable pub shift_down : ℕ → ℕ → ℕ → ℕ
shift_down up down x = if ltb up down then shl64 x (down - up) else shr64 x (up - down)

-- `shift < 0 ? x >> -shift : x << shift`.
unfoldable pub shift_up : ℕ → ℕ → ℕ → ℕ
shift_up up down x = if ltb up down then shr64 x (down - up) else shl64 x (up - down)

-- `S::decode` and `S::encode`. `shift` is `offset + L - H::width - H::m`, with the offset of this
-- range included.
unfoldable pub decode_ranges : ℕ → List BitRange → ℕ → ℕ
decode_ranges l [] inst = 0
decode_ranges l (h ∷ t) inst =
    bit_or (bit_and (shift_down (offset (h ∷ t) + l) (width h + h.m) inst) (mask h))
      (decode_ranges l t inst)

unfoldable pub encode_ranges : ℕ → List BitRange → ℕ → ℕ
encode_ranges l [] imm = 0
encode_ranges l (h ∷ t) imm =
    bit_or (shift_up (offset (h ∷ t) + l) (width h + h.m) (bit_and imm (mask h)))
      (encode_ranges l t imm)

-- `imm_operand_impl_t::decode` and `encode`: the segments joined, the first one last.
unfoldable pub decode_segments : List Segment → ℕ → ℕ
decode_segments [] inst = 0
decode_segments (h ∷ t) inst = bit_or (decode_segments t inst) (decode_ranges h.l h.ranges inst)

unfoldable pub encode_segments : List Segment → ℕ → ℕ
encode_segments [] imm = 0
encode_segments (h ∷ t) imm = bit_or (encode_segments t imm) (encode_ranges h.l h.ranges imm)

-- `sign_extend<s64,W>`, as the 64-bit pattern of its result.
unfoldable pub sign_extend : ℕ → ℕ → ℕ
sign_extend w x =
    let low = x % 2 ^ w in if ltb low (2 ^ (w - 1)) then low else low + (2 ^ 64 - 2 ^ w)

-- `simm_operand_t<W,...>` and `uimm_operand_t<W,...>`.
pub record Operand : Type 0 where
  pub signed : Bool
  pub bits : ℕ
  pub segments : List Segment

unfoldable pub decode : Operand → ℕ → ℕ
decode o inst =
    if o.signed
    then sign_extend o.bits (decode_segments o.segments inst)
    else decode_segments o.segments inst

unfoldable pub encode : Operand → ℕ → ℕ
encode o imm = encode_segments o.segments imm
