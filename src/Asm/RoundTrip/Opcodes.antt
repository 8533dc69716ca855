-- ===== src/Asm/RoundTrip/Opcodes.antt =====
-- src/asm/switch.h: `encode_inst` and `decode_inst_type`, over the opcodes of the tables.
use rv8_riscv_ckpt.Base.{
  [], ◌∷◌, ◌||◌, false, List, ℕ, ◌^◌, ◌-◌, ◌<◌, ◌==◌, ==_iff, some, ◌≡◌, refl, arith, bit_and,
  bit_or, Bool, true, get_or,
}
use rv8_riscv_ckpt.Asm.Types.{encode, encode_segments, encode_ranges, shift_up, mask}
use rv8_riscv_ckpt.Asm.Types.Layout.{build}
use rv8_riscv_ckpt.Asm.Types.Read.{all_below, all_below_at, IsClear}
use rv8_riscv_ckpt.Asm.Operands
use rv8_riscv_ckpt.Asm.Inst.{Codec, Decode, blank}
use rv8_riscv_ckpt.Asm.Meta.{rv_inst_codec, rv_inst_match}
use rv8_riscv_ckpt.Asm.Switch.{encode_codec, decode_codec, encode_inst, decode_inst_type}
use rv8_riscv_ckpt.Asm.RoundTrip.Slots.{value}
use rv8_riscv_ckpt.Asm.RoundTrip.Layouts.{layout}
use rv8_riscv_ckpt.Asm.RoundTrip.Encodable.{IsEncodable}
use rv8_riscv_ckpt.Asm.RoundTrip.Formats.{encode_codec-build, decode_codec-build}
use rv8_riscv_ckpt.Asm.Codec.{codec_of}

-- The number of opcodes, `rv_op_illegal` included.
abbrev pub op_count : ℕ
op_count = 319

one_of : ℕ → List ℕ → Bool
one_of a [] = false
one_of a (x ∷ xs) = a == x || one_of a xs

-- `sfence.vm` and the conversions between floating-point formats, whose fixed bits use the place of
-- `rs2` to tell one from another.
unfoldable pub selects_by_rs2 : ℕ → Bool
unfolding one_of
selects_by_rs2 op = one_of op (
    122 ∷ 151 ∷ 153 ∷ 157 ∷ 158 ∷ 159 ∷ 160 ∷ 176 ∷ 183 ∷ 185 ∷ 187 ∷ 188 ∷ 190 ∷ 191 ∷ 208 ∷ 210
    ∷ 211 ∷ 217 ∷ 219 ∷ 221 ∷ 222 ∷ 223 ∷ 224 ∷ [])

clear_at : ℕ → Bool
unfolding selects_by_rs2
clear_at op =
    selects_by_rs2 op
    || bit_and (get_or rv_inst_match op 0) (build (λ s. 2 ^ 64 - 1) (layout (codec_of op))) == 0

or_right : (a b : Bool) → a ≡ false → (a || b) ≡ true → b ≡ true
or_right a b h k = ground arith

clear_table : all_below op_count clear_at ≡ true
unfolding all_below clear_at layout rv_inst_codec rv_inst_match encode encode_segments encode_ranges
    shift_up mask Operands.aq Operands.cimm16sp Operands.cimm4spn Operands.cimmb Operands.cimmd
    Operands.cimmi Operands.cimmj Operands.cimmldsp Operands.cimmlqsp Operands.cimmlwsp
    Operands.cimmq Operands.cimmsdsp Operands.cimmsh5 Operands.cimmsh6 Operands.cimmsqsp
    Operands.cimmswsp Operands.cimmui Operands.cimmw Operands.crd Operands.crdq Operands.crs1
    Operands.crs1q Operands.crs1rd Operands.crs1rdq Operands.crs2 Operands.crs2q Operands.csr12
    Operands.imm12 Operands.imm20 Operands.jimm20 Operands.pred Operands.rd Operands.rl Operands.rm
    Operands.rs1 Operands.rs2 Operands.rs3 Operands.sbimm12 Operands.shamt5 Operands.shamt6
    Operands.shamt7 Operands.simm12 Operands.succ
clear_table = refl

pub match-IsClear :
    (op : ℕ)
    → op < op_count
    → selects_by_rs2 op ≡ false
    → IsClear (get_or rv_inst_match op 0) (layout (codec_of op))
unfolding clear_at
match-IsClear op h plain =
    let t : clear_at op ≡ true = all_below_at op_count clear_at op clear_table h in
    (==_iff (bit_and (get_or rv_inst_match op 0) (build (λ s. 2 ^ 64 - 1) (layout (codec_of op))))
        0).0
      (or_right (selects_by_rs2 op) _ plain t)

pub encode_inst_of :
    (c : Codec) (d : Decode) (x : ℕ)
    → codec_of d.op ≡ c
    → d.codec ≡ c
    → encode_codec c d ≡ some x
    → encode_inst d ≡ some (d, bit_or (get_or rv_inst_match d.op 0) x)
unfolding encode_inst
encode_inst_of c d x e k h =
    let same : record d { codec = codec_of d.op } ≡ d = ground arith in rw (same, e, h)

pub decode_inst_type_of :
    (c : Codec) (op w : ℕ)
    → codec_of op ≡ c
    → decode_inst_type (record blank { op = op }) w
      ≡ decode_codec c (record blank { op = op; codec = c }) w
unfolding decode_inst_type
decode_inst_type_of c op w e = rw e

-- The fixed bits of an instruction and its fields.
abbrev pub word : Decode → ℕ
word d = bit_or (get_or rv_inst_match d.op 0) (build (value d) (layout (codec_of d.op)))

pub encode_inst-word :
    (d : Decode)
    → d.codec ≡ codec_of d.op
    → IsEncodable (codec_of d.op) d
    → encode_inst d ≡ some (d, word d)
encode_inst-word d k fits =
    let c = codec_of d.op in
    encode_inst_of c d (build (value d) (layout c)) refl k (encode_codec-build c d fits)

pub decode_inst_type-word :
    (d : Decode)
    → d.op < op_count
    → selects_by_rs2 d.op ≡ false
    → d.codec ≡ codec_of d.op
    → IsEncodable (codec_of d.op) d
    → decode_inst_type (record blank { op = d.op }) (word d) ≡ d
unfolding decode_inst_type
decode_inst_type-word d h plain k fits =
    decode_codec-build (codec_of d.op) d (get_or rv_inst_match d.op 0) fits k
      (match-IsClear d.op h plain)

-- Encoding an instruction of any opcode whose fields fit its format fails no assertion and leaves the
-- instruction alone, and decoding the word in that format gives every field back.
pub decode_inst_type-encode_inst :
    (d : Decode)
    → d.op < op_count
    → selects_by_rs2 d.op ≡ false
    → d.codec ≡ codec_of d.op
    → IsEncodable (codec_of d.op) d
    → (w : ℕ) × (encode_inst d ≡ some (d, w))
      × (decode_inst_type (record blank { op = d.op }) w ≡ d)
decode_inst_type-encode_inst d h plain k fits =
    (word d, encode_inst-word d k fits, decode_inst_type-word d h plain k fits)
