-- ===== src/Asm/RoundTrip/Told.antt =====
-- src/asm/switch.h: the compressed instructions that are told from another by the value of a field.
use rv8_riscv_ckpt.Base.{
  bit_ext, bit-or, bit-zero, ℕ, ◌/◌, ◌^◌, Bool, true, false, ◌==◌, ◌≡◌, ◌≢◌, refl, sym, ap, ◌∙◌,
  arith, bit_and, bit_or, bit_and-ones, get_or, ◌%◌,
}
use rv8_riscv_ckpt.Asm.Op as Op
use rv8_riscv_ckpt.Asm.Inst.{Codec, Decode}
use rv8_riscv_ckpt.Asm.Operands
use rv8_riscv_ckpt.Asm.Types.{decode, decode_segments, decode_ranges, shift_down, mask}
use rv8_riscv_ckpt.Asm.Types.Layout.{build}
use rv8_riscv_ckpt.Asm.Types.Within.{build-within}
use rv8_riscv_ckpt.Asm.Meta.{rv_inst_codec, rv_inst_match}
use rv8_riscv_ckpt.Asm.Codec.{codec_of, with_op}
use rv8_riscv_ckpt.Asm.Codec.Decoding.{rv64imafdc}
use rv8_riscv_ckpt.Asm.Switch.{decode_inst_type, decode_codec}
use rv8_riscv_ckpt.Asm.Switch.Tree.{select}
use rv8_riscv_ckpt.Asm.Switch.Opcode.{quadrant_3, decode_inst_op, root}
use rv8_riscv_ckpt.Asm.Switch.Compressed.{
  quadrant_0, quadrant_1, quadrant_2, quadrant_1_arithmetic, quadrant_2_registers,
}
use rv8_riscv_ckpt.Asm.Switch.Fixed.{aside}
use rv8_riscv_ckpt.Asm.Switch.Told.{way, misses, find-way}
use rv8_riscv_ckpt.Asm.Decoders.Compressed.{
  decode_cr, decode_cr_mv, decode_cr_jalr, decode_ci, decode_ci_lui,
}
use rv8_riscv_ckpt.Asm.RoundTrip.Slots.{value}
use rv8_riscv_ckpt.Asm.RoundTrip.Layouts.{layout}
use rv8_riscv_ckpt.Asm.RoundTrip.Encodable.{IsEncodable}
use rv8_riscv_ckpt.Asm.RoundTrip.FieldBits.{field_bits, fields_of-layout, layout-sound}
use rv8_riscv_ckpt.Asm.RoundTrip.Opcodes.{word, selects_by_rs2, decode_inst_type-word}

-- The way of an opcode, and what its instructions must miss.
abbrev way_of : ℕ → ℕ
way_of op = way (root rv64imafdc) (get_or rv_inst_match op 0) (field_bits (codec_of op))

abbrev misses_of : ℕ → ℕ → Bool
misses_of op w = misses (root rv64imafdc) (get_or rv_inst_match op 0) (field_bits (codec_of op)) w

decode_inst_op-way :
    (d : Decode) → misses_of d.op (word d) ≡ true → decode_inst_op rv64imafdc (word d) ≡ way_of d.op
unfolding decode_inst_op
decode_inst_op-way d h =
    let m = get_or rv_inst_match d.op 0 in
    let c = codec_of d.op in
    let y = build (value d) (layout c) in
    let within : bit_and y (field_bits c) ≡ y =
      ap (λ (t : ℕ). bit_and y t) (sym (fields_of-layout c))
      ∙ build-within (value d) (layout c) (layout-sound c) in
    find-way m y (field_bits c) within (root rv64imafdc) h

bit_or_none : (x : ℕ) → bit_or x 0 ≡ x
bit_or_none x = bit_ext _ _ λ i. ground (arith, bit-or x 0 i, bit-zero i)

c_mv_misses : (w : ℕ) → bit_and (w / 2 ^ 2) 31 ≢ 0 → misses_of Op.c_mv w ≡ true
unfolding misses aside select root quadrant_0 quadrant_1 quadrant_2 quadrant_3 quadrant_1_arithmetic
    quadrant_2_registers field_bits rv_inst_codec rv_inst_match
c_mv_misses w h =
    let e : (bit_or (bit_and (w / 2 ^ 2) 31) 0 == 0) ≡ false =
      ground (arith, h, bit_or_none (bit_and (w / 2 ^ 2) 31)) in
    rw e refl

c_mv_way : way_of Op.c_mv ≡ Op.c_mv
unfolding way aside select root quadrant_0 quadrant_1 quadrant_2 quadrant_3 quadrant_1_arithmetic
    quadrant_2_registers field_bits rv_inst_codec rv_inst_match
c_mv_way = refl

pub c_mv_told :
    (e : Decode)
    → IsEncodable Codec.cr_mv (with_op e Op.c_mv)
    → e.rs1 ≢ 0
    → decode_inst_op rv64imafdc (word (with_op e Op.c_mv)) ≡ Op.c_mv
unfolding decode_inst_type decode_codec decode_cr_mv decode decode_segments decode_ranges shift_down
    mask Operands.crs2 selects_by_rs2 rv_inst_codec
c_mv_told e fits field =
    let w = word (with_op e Op.c_mv) in
    let back : decode Operands.crs2 w % 256 ≡ e.rs1 =
      ap (λ (d : Decode). d.rs1)
        (decode_inst_type-word (with_op e Op.c_mv) (omega arith) refl refl fits) in
    let seen : bit_and (w / 2 ^ 2) 31 ≢ 0 = λ z. field (sym back ∙ rw z refl) in
    decode_inst_op-way (with_op e Op.c_mv) (c_mv_misses w seen) ∙ c_mv_way

c_add_misses : (w : ℕ) → bit_and (w / 2 ^ 2) 31 ≢ 0 → misses_of Op.c_add w ≡ true
unfolding misses aside select root quadrant_0 quadrant_1 quadrant_2 quadrant_3 quadrant_1_arithmetic
    quadrant_2_registers field_bits rv_inst_codec rv_inst_match
c_add_misses w h =
    let e : (bit_or (bit_and (w / 2 ^ 2) 31) 0 == 0) ≡ false =
      ground (arith, h, bit_or_none (bit_and (w / 2 ^ 2) 31)) in
    rw e refl

c_add_way : way_of Op.c_add ≡ Op.c_add
unfolding way aside select root quadrant_0 quadrant_1 quadrant_2 quadrant_3 quadrant_1_arithmetic
    quadrant_2_registers field_bits rv_inst_codec rv_inst_match
c_add_way = refl

pub c_add_told :
    (e : Decode)
    → IsEncodable Codec.cr (with_op e Op.c_add)
    → e.rs2 ≢ 0
    → decode_inst_op rv64imafdc (word (with_op e Op.c_add)) ≡ Op.c_add
unfolding decode_inst_type decode_codec decode_cr decode decode_segments decode_ranges shift_down
    mask Operands.crs2 selects_by_rs2 rv_inst_codec
c_add_told e fits field =
    let w = word (with_op e Op.c_add) in
    let back : decode Operands.crs2 w % 256 ≡ e.rs2 =
      ap (λ (d : Decode). d.rs2)
        (decode_inst_type-word (with_op e Op.c_add) (omega arith) refl refl fits) in
    let seen : bit_and (w / 2 ^ 2) 31 ≢ 0 = λ z. field (sym back ∙ rw z refl) in
    decode_inst_op-way (with_op e Op.c_add) (c_add_misses w seen) ∙ c_add_way

c_jalr_misses : (w : ℕ) → bit_and (w / 2 ^ 7) 31 ≢ 0 → misses_of Op.c_jalr w ≡ true
unfolding misses aside select root quadrant_0 quadrant_1 quadrant_2 quadrant_3 quadrant_1_arithmetic
    quadrant_2_registers field_bits rv_inst_codec rv_inst_match
c_jalr_misses w h =
    let e : (bit_or (bit_and (w / 2 ^ 7) 31) 0 == 0) ≡ false =
      ground (arith, h, bit_or_none (bit_and (w / 2 ^ 7) 31)) in
    rw e refl

c_jalr_way : way_of Op.c_jalr ≡ Op.c_jalr
unfolding way aside select root quadrant_0 quadrant_1 quadrant_2 quadrant_3 quadrant_1_arithmetic
    quadrant_2_registers field_bits rv_inst_codec rv_inst_match
c_jalr_way = refl

pub c_jalr_told :
    (e : Decode)
    → IsEncodable Codec.cr_jalr (with_op e Op.c_jalr)
    → e.rs1 ≢ 0
    → decode_inst_op rv64imafdc (word (with_op e Op.c_jalr)) ≡ Op.c_jalr
unfolding decode_inst_type decode_codec decode_cr_jalr decode decode_segments decode_ranges
    shift_down mask Operands.crs1 selects_by_rs2 rv_inst_codec
c_jalr_told e fits field =
    let w = word (with_op e Op.c_jalr) in
    let back : decode Operands.crs1 w % 256 ≡ e.rs1 =
      ap (λ (d : Decode). d.rs1)
        (decode_inst_type-word (with_op e Op.c_jalr) (omega arith) refl refl fits) in
    let seen : bit_and (w / 2 ^ 7) 31 ≢ 0 = λ z. field (sym back ∙ rw z refl) in
    decode_inst_op-way (with_op e Op.c_jalr) (c_jalr_misses w seen) ∙ c_jalr_way

c_lui_misses : (w : ℕ) → bit_and (w / 2 ^ 7) 31 ≢ 2 → misses_of Op.c_lui w ≡ true
unfolding misses aside select root quadrant_0 quadrant_1 quadrant_2 quadrant_3 quadrant_1_arithmetic
    quadrant_2_registers field_bits rv_inst_codec rv_inst_match
c_lui_misses w h =
    let e : (bit_or (bit_and (w / 2 ^ 7) 31) 0 == 2) ≡ false =
      ground (arith, h, bit_or_none (bit_and (w / 2 ^ 7) 31)) in
    rw e refl

c_lui_way : way_of Op.c_lui ≡ Op.c_lui
unfolding way aside select root quadrant_0 quadrant_1 quadrant_2 quadrant_3 quadrant_1_arithmetic
    quadrant_2_registers field_bits rv_inst_codec rv_inst_match
c_lui_way = refl

pub c_lui_told :
    (e : Decode)
    → IsEncodable Codec.ci_lui (with_op e Op.c_lui)
    → e.rd ≢ 2
    → decode_inst_op rv64imafdc (word (with_op e Op.c_lui)) ≡ Op.c_lui
unfolding decode_inst_type decode_codec decode_ci_lui decode decode_segments decode_ranges
    shift_down mask Operands.crd selects_by_rs2 rv_inst_codec
c_lui_told e fits field =
    let w = word (with_op e Op.c_lui) in
    let back : decode Operands.crd w % 256 ≡ e.rd =
      ap (λ (d : Decode). d.rd)
        (decode_inst_type-word (with_op e Op.c_lui) (omega arith) refl refl fits) in
    let seen : bit_and (w / 2 ^ 7) 31 ≢ 2 = λ z. field (sym back ∙ rw z refl) in
    decode_inst_op-way (with_op e Op.c_lui) (c_lui_misses w seen) ∙ c_lui_way

c_addi_misses : (w : ℕ) → bit_and (w / 2 ^ 2) 2047 ≢ 0 → misses_of Op.c_addi w ≡ true
unfolding misses aside select root quadrant_0 quadrant_1 quadrant_2 quadrant_3 quadrant_1_arithmetic
    quadrant_2_registers field_bits rv_inst_codec rv_inst_match
c_addi_misses w h =
    let e : (bit_or (bit_and (w / 2 ^ 2) 2047) 0 == 0) ≡ false =
      ground (arith, h, bit_or_none (bit_and (w / 2 ^ 2) 2047)) in
    rw e refl

c_addi_way : way_of Op.c_addi ≡ Op.c_addi
unfolding way aside select root quadrant_0 quadrant_1 quadrant_2 quadrant_3 quadrant_1_arithmetic
    quadrant_2_registers field_bits rv_inst_codec rv_inst_match
c_addi_way = refl

pub c_addi_told :
    (e : Decode)
    → IsEncodable Codec.ci (with_op e Op.c_addi)
    → e.rd ≢ 0
    → decode_inst_op rv64imafdc (word (with_op e Op.c_addi)) ≡ Op.c_addi
unfolding decode_inst_type decode_codec decode_ci decode decode_segments decode_ranges shift_down
    mask Operands.crs1rd selects_by_rs2 rv_inst_codec
c_addi_told e fits field =
    let w = word (with_op e Op.c_addi) in
    let back : decode Operands.crs1rd w % 256 ≡ e.rd =
      ap (λ (d : Decode). d.rd)
        (decode_inst_type-word (with_op e Op.c_addi) (omega arith) refl refl fits) in
    let none : bit_and (w / 2 ^ 2) 2047 ≡ 0 → bit_and (w / 2 ^ 7) 31 ≡ 0 =
      λ z. omega (arith, z, bit_and-ones 11 (w / 2 ^ 2), bit_and-ones 5 (w / 2 ^ 7)) in
    let seen : bit_and (w / 2 ^ 2) 2047 ≢ 0 = λ z. field (sym back ∙ rw (none z) refl) in
    decode_inst_op-way (with_op e Op.c_addi) (c_addi_misses w seen) ∙ c_addi_way
