-- ===== src/Emu/Priv/Unguarded.antt =====
-- src/emu/processor-impl.h: the accesses to registers of a higher mode.
use rv8_riscv_ckpt.Emu.Priv.{Priv}
use rv8_riscv_ckpt.Emu.Priv.Access.{Access}
