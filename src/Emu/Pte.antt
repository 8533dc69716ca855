-- ===== src/Emu/Pte.antt =====
-- src/emu/pte.h: the flags of a page table entry, and the layouts of the paging modes.
use rv8_riscv_ckpt.Base.{ℕ, ◌/◌, ◌%◌, ◌^◌}

abbrev pub pte_shift_R : ℕ
pte_shift_R = 1

abbrev pub pte_shift_W : ℕ
pte_shift_W = 2

abbrev pub pte_shift_X : ℕ
pte_shift_X = 3

abbrev pub pte_flag_R : ℕ
pte_flag_R = 2 ^ pte_shift_R

abbrev pub pte_flag_W : ℕ
pte_flag_W = 2 ^ pte_shift_W

abbrev pub pte_flag_X : ℕ
pte_flag_X = 2 ^ pte_shift_X

abbrev pub pte_flag_U : ℕ
pte_flag_U = 2 ^ 4

abbrev pub pte_flag_A : ℕ
pte_flag_A = 2 ^ 6

abbrev pub pte_flag_D : ℕ
pte_flag_D = 2 ^ 7

-- A paging mode: its levels, the bits of an index, the bytes of an entry and the bits of its
-- physical page number.
pub record Ptm : Type 0 where
  pub levels : ℕ
  pub bits : ℕ
  pub pte_bytes : ℕ
  pub ppn_bits : ℕ

abbrev pub sv32 : Ptm
sv32 = record { levels = 2; bits = 10; pte_bytes = 4; ppn_bits = 22 }

abbrev pub sv39 : Ptm
sv39 = record { levels = 3; bits = 9; pte_bytes = 8; ppn_bits = 44 }

abbrev pub sv48 : Ptm
sv48 = record { levels = 4; bits = 9; pte_bytes = 8; ppn_bits = 44 }

-- `pte.val.flags` and `pte.val.ppn`.
abbrev pub flags : ℕ → ℕ
flags pte = pte % 2 ^ 10

abbrev pub ppn : Ptm → ℕ → ℕ
ppn ptm pte = pte / 2 ^ 10 % 2 ^ ptm.ppn_bits
