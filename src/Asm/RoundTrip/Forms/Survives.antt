-- ===== src/Asm/RoundTrip/Forms/Survives.antt =====
-- Which instructions lose something in their compressed form.
use rv8_riscv_ckpt.Asm.Op
use rv8_riscv_ckpt.Base.{true, ◌||◌, ◌%◌, ◌^◌, ltb, ◌==◌, if◌then◌else◌, Bool, ℕ}
use rv8_riscv_ckpt.Asm.Inst.{Decode}

-- The forms whose constraints accept an instruction that their encoding cannot hold, with the
-- condition under which it does. The others hold whatever they accept.
unfoldable pub survives : ℕ → Decode → Bool
survives op d =
    if op == Op.c_lui
    then ltb d.imm (2 ^ 17)
    else if op == Op.c_addi16sp
    then d.imm % 16 == 0
    else if op == Op.c_nop
    then d.imm == 0
    else if op == Op.c_sub
        || op == Op.c_xor
        || op == Op.c_or
        || op == Op.c_and
        || op == Op.c_subw
        || op == Op.c_addw
    then d.rs2 == d.rd
    else true
