-- ===== src/Emu/Priv/Field.antt =====
-- src/emu/processor-priv-1.9.h: the bit fields of `mstatus`, `mip` and `mie`.
use rv8_riscv_ckpt.Base.{ℕ, ◌+◌, ◌*◌, ◌/◌, ◌%◌, ◌^◌}

-- The field of `n` bits at bit `k`, and a store to it.
unfoldable pub field : ℕ → ℕ → ℕ → ℕ
field k n x = x / 2 ^ k % 2 ^ n

unfoldable pub set_field : ℕ → ℕ → ℕ → ℕ → ℕ
set_field k n v x = x % 2 ^ k + v % 2 ^ n * 2 ^ k + x / 2 ^ (k + n) * 2 ^ (k + n)

abbrev pub sie_shift : ℕ
sie_shift = 1

abbrev pub mie_shift : ℕ
mie_shift = 3

abbrev pub spie_shift : ℕ
spie_shift = 5

abbrev pub mpie_shift : ℕ
mpie_shift = 7

abbrev pub spp_shift : ℕ
spp_shift = 8

abbrev pub mpp_shift : ℕ
mpp_shift = 11

abbrev pub mprv_shift : ℕ
mprv_shift = 17

abbrev pub vm_shift : ℕ
vm_shift = 24

abbrev pub ss_shift : ℕ
ss_shift = 1

abbrev pub ms_shift : ℕ
ms_shift = 3

abbrev pub st_shift : ℕ
st_shift = 5

abbrev pub mt_shift : ℕ
mt_shift = 7

abbrev pub se_shift : ℕ
se_shift = 9

abbrev pub me_shift : ℕ
me_shift = 11
