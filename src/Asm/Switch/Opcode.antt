-- ===== src/Asm/Switch/Opcode.antt =====
-- src/asm/switch.h: `decode_inst_op`.
use rv8_riscv_ckpt.Base.{ℕ, if◌then◌else◌, [], ◌∷◌}
use rv8_riscv_ckpt.Asm.Op as Op
use rv8_riscv_ckpt.Asm.Switch.Tree.{find, Isa, Tree, switch, illegal}
use rv8_riscv_ckpt.Asm.Switch.Compressed.{quadrant_0, quadrant_1, quadrant_2}
use rv8_riscv_ckpt.Asm.Switch.Integer.{
  loads, immediates, word_immediates, stores, registers, word_registers, branches, jumps,
}
use rv8_riscv_ckpt.Asm.Switch.Doubles.{double_immediates, double_registers}
use rv8_riscv_ckpt.Asm.Switch.System.{fences, atomics, system}
use rv8_riscv_ckpt.Asm.Switch.Floating.{
  float_loads, float_stores, fmadd_fused, fmsub_fused, fnmsub_fused, fnmadd_fused,
}
use rv8_riscv_ckpt.Asm.Switch.FloatingOps.{floats}

unfoldable pub quadrant_3 : Isa → Tree
quadrant_3 isa =
    switch ((2, 31) ∷ [])
      ((0, loads isa)
        ∷ (1, float_loads isa)
        ∷ (3, fences isa)
        ∷ (4, immediates isa)
        ∷ (5, Tree.op (if isa.rvi then Op.auipc else illegal))
        ∷ (6, word_immediates isa)
        ∷ (8, stores isa)
        ∷ (9, float_stores isa)
        ∷ (11, atomics isa)
        ∷ (12, registers isa)
        ∷ (13, Tree.op (if isa.rvi then Op.lui else illegal))
        ∷ (14, word_registers isa)
        ∷ (16, fmadd_fused isa)
        ∷ (17, fmsub_fused isa)
        ∷ (18, fnmsub_fused isa)
        ∷ (19, fnmadd_fused isa)
        ∷ (20, floats isa)
        ∷ (22, double_immediates isa)
        ∷ (24, branches isa)
        ∷ (25, jumps isa)
        ∷ (27, Tree.op (if isa.rvi then Op.jal else illegal))
        ∷ (28, system isa)
        ∷ (30, double_registers isa)
        ∷ [])
      (Tree.op illegal)

unfoldable pub root : Isa → Tree
root isa =
    switch ((0, 3) ∷ [])
      ((0, quadrant_0 isa) ∷ (1, quadrant_1 isa) ∷ (2, quadrant_2 isa) ∷ (3, quadrant_3 isa) ∷ [])
      (Tree.op illegal)

-- The opcode of an instruction, for the extensions that are set.
unfoldable pub decode_inst_op : Isa → ℕ → ℕ
decode_inst_op isa inst = find (root isa) inst
