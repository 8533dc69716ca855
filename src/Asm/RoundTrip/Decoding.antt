-- ===== src/Asm/RoundTrip/Decoding.antt =====
-- src/asm/codec.h and src/emu/processor-model.h: the decoding of an encoded instruction.
use rv8_riscv_ckpt.Asm.Switch.System.{environment, fences, atomics, system}
use rv8_riscv_ckpt.Asm.Switch.Integer.{
  loads, immediates, word_immediates, stores, registers, word_registers, branches, jumps,
}
use rv8_riscv_ckpt.Asm.Switch.Doubles.{double_immediates, double_registers}
use rv8_riscv_ckpt.Asm.Switch.Floating.{
  float_loads, float_stores, fmadd_fused, fmsub_fused, fnmsub_fused, fnmadd_fused,
}
use rv8_riscv_ckpt.Asm.Switch.FloatingOps.{floats}
use rv8_riscv_ckpt.Asm.RoundTrip.FieldBits.{field_bits, fields_of-layout, layout-sound}
use rv8_riscv_ckpt.Base.{==_iff, ◌∙◌, sym, bit_and}
use rv8_riscv_ckpt.Asm.Types.Within.{build-within}
use rv8_riscv_ckpt.Asm.Switch.Compressed.{
  quadrant_0, quadrant_1, quadrant_2, quadrant_1_arithmetic, quadrant_2_registers,
}
use rv8_riscv_ckpt.Asm.Codec.Decoding.{
  rv64imafdc, rv32imafdc, decode_inst, inst_decode_rv64, inst_decode_rv32,
}
use rv8_riscv_ckpt.Asm.Switch.Fixed.{find-fixed, aside, fixed}
use rv8_riscv_ckpt.Asm.Switch.Tree.{select, find, Isa}
use rv8_riscv_ckpt.Base.{
  ap, arith, refl, &&-true, some, ◌==◌, true, ◌≡◌, ◌&&◌, ◌||◌, ◌<◌, leb, [], ◌∷◌, not, get_or,
  false, List, Bool, ℕ,
}
use rv8_riscv_ckpt.Asm.Inst.{blank, Decode}
use rv8_riscv_ckpt.Asm.Types.Read.{all_below_at, all_below}
use rv8_riscv_ckpt.Asm.Meta.{rv_inst_codec, rv_inst_match}
use rv8_riscv_ckpt.Asm.RoundTrip.Opcodes.{
  encode_inst-word, decode_inst_type-word, word, selects_by_rs2, op_count,
}
use rv8_riscv_ckpt.Asm.Switch.Opcode.{quadrant_3, decode_inst_op, root}
use rv8_riscv_ckpt.Asm.Codec.{decompress_inst_rv64, decompress_inst_rv32, codec_of}
use rv8_riscv_ckpt.Asm.RoundTrip.Layouts.{layout}
use rv8_riscv_ckpt.Asm.RoundTrip.Encodable.{IsEncodable}
use rv8_riscv_ckpt.Asm.Types.Layout.{build}
use rv8_riscv_ckpt.Asm.Switch.{encode_inst}
use rv8_riscv_ckpt.Asm.RoundTrip.Slots.{value}

-- The fixed bits of an opcode lead to it, and the switches on the way look at no field.
found : Isa → ℕ → Bool
found isa op =
    let m = get_or rv_inst_match op 0 in
    fixed (root isa) m (field_bits (codec_of op)) && find (root isa) m == op

one_in : ℕ → List (ℕ × ℕ) → Bool
one_in op [] = false
one_in op ((first, last) ∷ ranges) = leb first op && leb op last || one_in op ranges

-- The opcodes of RV32IMAFDC and RV64IMAFDC, without those whose instructions are told apart by the
-- place of a field: `sfence.vm` and `sfence.vma`, the floating-point square roots, conversions, moves
-- and classes, and `c.addi`, `c.lui`, `c.mv`, `c.add` and `c.jalr`.
unfoldable pub has_fixed_rv32 : ℕ → Bool
unfolding one_in
has_fixed_rv32 op = one_in op (
    (1, 51)
    ∷ (64, 76)
    ∷ (82, 103)
    ∷ (115, 121)
    ∷ (124, 145)
    ∷ (147, 149)
    ∷ (161, 175)
    ∷ (179, 181)
    ∷ (227, 234)
    ∷ (236, 238)
    ∷ (240, 256)
    ∷ (258, 258)
    ∷ (261, 263)
    ∷ [])

unfoldable pub has_fixed_rv64 : ℕ → Bool
unfolding one_in
has_fixed_rv64 op = one_in op (
    (1, 51)
    ∷ (64, 76)
    ∷ (82, 103)
    ∷ (115, 121)
    ∷ (124, 145)
    ∷ (147, 149)
    ∷ (161, 175)
    ∷ (179, 181)
    ∷ (227, 229)
    ∷ (231, 232)
    ∷ (234, 234)
    ∷ (237, 238)
    ∷ (240, 254)
    ∷ (256, 256)
    ∷ (258, 258)
    ∷ (261, 262)
    ∷ (264, 268)
    ∷ [])

readable : (ℕ → Bool) → Isa → ℕ → Bool
readable p isa op = not (p op) || found isa op && not (selects_by_rs2 op)

table_rv32 : all_below op_count (readable has_fixed_rv32 rv32imafdc) ≡ true
unfolding readable found fixed find select aside root loads float_loads fences immediates
    word_immediates stores float_stores atomics registers word_registers fmadd_fused fmsub_fused
    fnmsub_fused fnmadd_fused floats double_immediates branches jumps system environment
    double_registers quadrant_0 quadrant_1 quadrant_2 quadrant_3 quadrant_1_arithmetic
    quadrant_2_registers field_bits rv_inst_codec rv_inst_match all_below has_fixed_rv32
    selects_by_rs2
table_rv32 = refl

table_rv64 : all_below op_count (readable has_fixed_rv64 rv64imafdc) ≡ true
unfolding readable found fixed find select aside root loads float_loads fences immediates
    word_immediates stores float_stores atomics registers word_registers fmadd_fused fmsub_fused
    fnmsub_fused fnmadd_fused floats double_immediates branches jumps system environment
    double_registers quadrant_0 quadrant_1 quadrant_2 quadrant_3 quadrant_1_arithmetic
    quadrant_2_registers field_bits rv_inst_codec rv_inst_match all_below has_fixed_rv64
    selects_by_rs2
table_rv64 = refl

module _ (p : ℕ → Bool) (isa : Isa) (table : all_below op_count (readable p isa) ≡ true)
    (d : Decode) (small : d.op < op_count) (here : p d.op ≡ true) (k : d.codec ≡ codec_of d.op)
    (fits : IsEncodable (codec_of d.op) d) where
  decode_inst_op-word : (found isa d.op ≡ true) → decode_inst_op isa (word d) ≡ d.op
  unfolding found decode_inst_op
  decode_inst_op-word f =
      let m = get_or rv_inst_match d.op 0 in
      let c = codec_of d.op in
      let y = build (value d) (layout c) in
      let both = &&-true (fixed (root isa) m (field_bits c)) (find (root isa) m == d.op) f in
      let within : bit_and y (field_bits c) ≡ y =
        ap (λ (t : ℕ). bit_and y t) (sym (fields_of-layout c))
        ∙ build-within (value d) (layout c) (layout-sound c) in
      find-fixed m y (field_bits c) within (root isa) both.0
      ∙ (==_iff (find (root isa) m) d.op).0 both.1

  decode_inst-word : decode_inst isa blank (word d) ≡ d
  unfolding decode_inst readable
  decode_inst-word =
      let t = all_below_at op_count (readable p isa) d.op table small in
      let f : found isa d.op ≡ true = ground arith in
      let plain : selects_by_rs2 d.op ≡ false = ground arith in
      rw (decode_inst_op-word f) (decode_inst_type-word d small plain k fits)

-- The opcode of a word of RV64.
pub decode_inst_op-rv64 :
    (d : Decode)
    → d.op < op_count
    → has_fixed_rv64 d.op ≡ true
    → d.codec ≡ codec_of d.op
    → IsEncodable (codec_of d.op) d
    → decode_inst_op rv64imafdc (word d) ≡ d.op
unfolding readable
decode_inst_op-rv64 d small here k fits =
    let t = all_below_at op_count (readable has_fixed_rv64 rv64imafdc) d.op table_rv64 small in
    let f : found rv64imafdc d.op ≡ true = ground arith in
    decode_inst_op-word has_fixed_rv64 rv64imafdc table_rv64 d small here k fits f

-- For every opcode of RV32IMAFDC and RV64IMAFDC whose instructions are told apart by fixed bits alone
-- (`has_fixed_rv32`, `has_fixed_rv64`), an instruction whose fields fit its format is encoded without a
-- failed assertion, and the processor of that width decodes the word, opcode, format and fields, to
-- the instruction, or to what the instruction expands to if it is a compressed one.
pub inst_decode-encode_inst :
    (d : Decode)
    → d.op < op_count
    → d.codec ≡ codec_of d.op
    → IsEncodable (codec_of d.op) d
    → (w : ℕ) × (encode_inst d ≡ some (d, w))
      × ((has_fixed_rv32 d.op ≡ true)
          → (decode_inst rv32imafdc blank w ≡ d)
            × (inst_decode_rv32 blank w ≡ decompress_inst_rv32 d))
      × ((has_fixed_rv64 d.op ≡ true)
          → (decode_inst rv64imafdc blank w ≡ d)
            × (inst_decode_rv64 blank w ≡ decompress_inst_rv64 d))
unfolding inst_decode_rv32 inst_decode_rv64
inst_decode-encode_inst d small k fits = (
  word d,
  encode_inst-word d k fits,
  λ here.
      let e = decode_inst-word has_fixed_rv32 rv32imafdc table_rv32 d small here k fits in
      (e, ap decompress_inst_rv32 e),
  λ here.
      let e = decode_inst-word has_fixed_rv64 rv64imafdc table_rv64 d small here k fits in
      (e, ap decompress_inst_rv64 e),
)
