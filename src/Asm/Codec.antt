-- ===== src/Asm/Codec.antt =====
-- src/asm/codec.h: the length of instructions, fetching them, and the rewriting of decoded
-- instructions into compressed, expanded and pseudo forms.
pub mod Fetch
pub mod Compress
pub mod Decoding
pub mod PseudoForms
pub mod PseudoSet
pub mod Tests
use rv8_riscv_ckpt.Base.{
  ℕ, ◌+◌, ◌*◌, ◌^◌, bit_and, bit_or, Bool, true, false, not, ◌==◌, if◌then◌else◌, List, [], ◌∷◌,
  none, some, get_or, entry,
}
use rv8_riscv_ckpt.Asm.Inst.{Codec, Decode}
use rv8_riscv_ckpt.Asm.Constraints.{constraint_check, constraint_set}
use rv8_riscv_ckpt.Asm.Meta.{rv_inst_codec}
use rv8_riscv_ckpt.Asm.Meta.CompData.{CompData}
use rv8_riscv_ckpt.Asm.Meta.Compress32.{rv_inst_comp_rv32}
use rv8_riscv_ckpt.Asm.Meta.Compress64.{rv_inst_comp_rv64}
use rv8_riscv_ckpt.Asm.Meta.Compress128.{rv_inst_comp_rv128}
use rv8_riscv_ckpt.Asm.Meta.Decompress.{
  rv_inst_decomp_rv32, rv_inst_decomp_rv64, rv_inst_decomp_rv128,
}
use rv8_riscv_ckpt.Asm.Meta.Pseudo.{rv_inst_pseudo, rv_inst_depseudo}

unfoldable pub inst_length : ℕ → ℕ
inst_length inst =
    if not (bit_and inst 0b11 == 0b11)
    then 2
    else if not (bit_and inst 0b11100 == 0b11100)
    then 4
    else if bit_and inst 0b111111 == 0b011111
    then 6
    else if bit_and inst 0b1111111 == 0b0111111
    then 8
    else 0

-- Loads of the host, which is little-endian, so `htole16` and `htole32` change nothing.
abbrev pub load16 : (ℕ → ℕ) → ℕ → ℕ
load16 mem a = mem a + 2 ^ 8 * mem (a + 1)

abbrev pub load32 : (ℕ → ℕ) → ℕ → ℕ
load32 mem a = load16 mem a + 2 ^ 16 * load16 mem (a + 2)

-- The instruction and `pc_offset`.
unfoldable pub inst_fetch : (ℕ → ℕ) → ℕ → ℕ × ℕ
inst_fetch mem addr =
    let inst = load32 mem addr in
    if not (bit_and inst 0b11 == 0b11)
    then (bit_and inst 0xffff, 2)
    else if not (bit_and inst 0b11100 == 0b11100)
    then (inst, 4)
    else if bit_and inst 0b111111 == 0b011111
    then (bit_or inst (load16 mem (addr + 4) * 2 ^ 32), 6)
    else if bit_and inst 0b1111111 == 0b0111111
    then (bit_or inst (load32 mem (addr + 4) * 2 ^ 32), 8)
    else (0, 0)

abbrev pub codec_of : ℕ → Codec
codec_of op = get_or rv_inst_codec op Codec.illegal

-- `dec.op = op; dec.codec = rv_inst_codec[op]`.
abbrev pub with_op : Decode → ℕ → Decode
with_op d op = record d { op = op; codec = codec_of op }

unfoldable pub decompress_by : List (ℕ × ℕ) → Decode → Decode
decompress_by table d = elim (entry d.op table) [ none ↦ d | some op ↦ with_op d op ]

unfoldable pub decompress_inst_rv32 : Decode → Decode
unfolding decompress_by
decompress_inst_rv32 d = decompress_by rv_inst_decomp_rv32 d

unfoldable pub decompress_inst_rv64 : Decode → Decode
unfolding decompress_by
decompress_inst_rv64 d = decompress_by rv_inst_decomp_rv64 d

unfoldable pub decompress_inst_rv128 : Decode → Decode
unfolding decompress_by
decompress_inst_rv128 d = decompress_by rv_inst_decomp_rv128 d

-- The `while` loop over the forms of an instruction.
unfoldable pub first_form : Decode → List CompData → Decode × Bool
first_form d [] = (d, false)
first_form d (c ∷ cs) =
    if constraint_check d c.constraints then (with_op d c.op, true) else first_form d cs

unfoldable pub rewrite_by : List (ℕ × List CompData) → Decode → Decode × Bool
rewrite_by table d = elim (entry d.op table) [ none ↦ (d, false) | some forms ↦ first_form d forms ]

unfoldable pub decode_pseudo_inst : Decode → Decode × Bool
decode_pseudo_inst d = rewrite_by rv_inst_pseudo d

unfoldable pub compress_inst_rv32 : Decode → Decode × Bool
compress_inst_rv32 d = rewrite_by rv_inst_comp_rv32 d

unfoldable pub compress_inst_rv64 : Decode → Decode × Bool
compress_inst_rv64 d = rewrite_by rv_inst_comp_rv64 d

unfoldable pub compress_inst_rv128 : Decode → Decode × Bool
compress_inst_rv128 d = rewrite_by rv_inst_comp_rv128 d

unfoldable pub encode_pseudo : Decode → Decode × Bool
encode_pseudo d = elim (entry d.op rv_inst_depseudo) [
  | none ↦ (d, false)
  | some c ↦ (constraint_set (with_op d c.op) c.constraints, true)
]
