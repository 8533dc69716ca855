-- ===== src/Emu/Priv/Access.antt =====
-- src/emu/processor-impl.h and src/emu/processor-priv-1.9.h: the instructions on control and status
-- registers, without `fflags`, `frm` and `fcsr`.
use rv8_riscv_ckpt.Base.{
  ℕ, ◌-◌, ◌*◌, ◌/◌, ◌%◌, ◌^◌, Bool, leb, ◌==◌, if◌then◌else◌, bit_and, bit_or, List, [], ◌∷◌, entry,
  Option, none, some,
}
use rv8_riscv_ckpt.Emu.Mmu.{rv_mode_U}
use rv8_riscv_ckpt.Emu.Interp.Word.{sext}
use rv8_riscv_ckpt.Emu.Priv.{Priv, put_reg}
use rv8_riscv_ckpt.Emu.Priv.Csr.{
  cycle, time, instret, cycleh, timeh, instreth, misa, mvendorid, marchid, mimpid, mhartid, mstatus,
  mtvec, medeleg, mideleg, mip, mie, mhcounteren, mscounteren, mucounteren, mscratch, mepc, mcause,
  mbadaddr, mbase, mbound, mibase, mibound, mdbase, mdbound, mcycle, minstret, mcycleh, minstreth,
  sstatus, stvec, sedeleg, sideleg, sip, sie, sscratch, sepc, scause, sbadaddr, sptbr,
}

pub data CsrOp : Type 0 where
  csr_rw csr_rs csr_rc : CsrOp

-- `(csr >> 8) & 3`, and `(csr >> 12) & 1`.
abbrev pub csr_mode : ℕ → ℕ
csr_mode csr = csr / 2 ^ 8 % 4

abbrev pub readonly : ℕ → Bool
readonly csr = csr / 2 ^ 12 % 2 == 1

-- What an access leaves: the value for `rd`, unless `rd` is `x0`, and the register.
abbrev pub Accessed : Type 0
Accessed = Option ℕ × ℕ

abbrev pub read_csr : ℕ → ℕ → ℕ → ℕ → Option ℕ
read_csr rd mode csr val =
    if rd == 0 then none else some (if leb (csr_mode csr) mode then val else 0)

-- The `switch (op)` of `set_csr`, on a register of `w` bits, with the mask and the value that are
-- shifted in place.
abbrev pub write_csr : ℕ → CsrOp → ℕ → ℕ → ℕ → ℕ → ℕ
write_csr w CsrOp.csr_rw reg mask bits value = bit_or (bit_and reg (2 ^ w - 1 - mask)) bits
write_csr w CsrOp.csr_rs reg mask bits value = if value == 0 then reg else bit_or reg bits
write_csr w CsrOp.csr_rc reg mask bits value =
    if value == 0 then reg else bit_and reg (2 ^ w - 1 - bits)

unfoldable pub set_csr : ℕ → ℕ → ℕ → CsrOp → ℕ → ℕ → ℕ → ℕ → ℕ → ℕ → Accessed
set_csr w rd mode op csr reg value write_mask read_mask shift = (
  read_csr rd mode csr (bit_and (reg / 2 ^ shift) read_mask),
  if readonly csr
      then reg
      else write_csr w op reg (write_mask * 2 ^ shift % 2 ^ w)
          (bit_and value write_mask * 2 ^ shift % 2 ^ w) value,
)

unfoldable pub get_csr : ℕ → ℕ → ℕ → ℕ → Accessed
get_csr rd mode csr reg = (read_csr rd mode csr reg, reg)

-- `s32(u32(reg >> 32))`, for registers of `w` bits.
abbrev pub high_word : ℕ → ℕ → ℕ
high_word w reg = sext 32 w (reg / 2 ^ 32 % 2 ^ 32)

unfoldable pub get_csr_hi : ℕ → ℕ → ℕ → ℕ → ℕ → Accessed
get_csr_hi w rd mode csr reg = (read_csr rd mode csr (high_word w reg), reg)

abbrev pub write_csr_hi : CsrOp → ℕ → ℕ → ℕ
write_csr_hi CsrOp.csr_rw reg value = bit_or (value * 2 ^ 32 % 2 ^ 64) (reg % 2 ^ 32)
write_csr_hi CsrOp.csr_rs reg value =
    if value == 0 then reg else bit_or reg (value * 2 ^ 32 % 2 ^ 64)
write_csr_hi CsrOp.csr_rc reg value =
    if value == 0
    then reg
    else bit_and reg (bit_or (2 ^ 64 - 1 - value * 2 ^ 32 % 2 ^ 64) (2 ^ 32 - 1))

unfoldable pub set_csr_hi : ℕ → ℕ → ℕ → CsrOp → ℕ → ℕ → ℕ → Accessed
set_csr_hi w rd mode op csr reg value = (
  read_csr rd mode csr (high_word w reg),
  if readonly csr then reg else write_csr_hi op reg value,
)

-- A case of `inst_csr`: the register, and how it is accessed. `set` and `get` are for the mode of the
-- processor, `set_user` and `get_user` for `rv_mode_U`.
pub data Access : Type 0 where
  set : (reg write_mask read_mask : ℕ) → Access
  set_user get get_user set_hi get_hi : (reg : ℕ) → Access

abbrev pub ones : ℕ → ℕ
ones w = 2 ^ w - 1

abbrev pub sstatus_mask : ℕ
sstatus_mask = 385331

abbrev pub si_mask : ℕ
si_mask = 819

abbrev pub full : ℕ → ℕ → Access
full w reg = Access.set reg (ones w) (ones w)

-- `switch (csr)`. For `mtvec` and `stvec` the masks stand in the source's order.
abbrev pub accesses : ℕ → List (ℕ × Access)
accesses w =
    (cycle, Access.get_user minstret)
    ∷ (time, Access.get_user time)
    ∷ (instret, Access.get minstret)
    ∷ (cycleh, Access.get_hi minstret)
    ∷ (timeh, Access.get_hi time)
    ∷ (instreth, Access.get_hi minstret)
    ∷ (misa, Access.set misa (2 ^ (w - 2) - 1) (ones w))
    ∷ (mvendorid, Access.get mvendorid)
    ∷ (marchid, Access.get marchid)
    ∷ (mimpid, Access.get mimpid)
    ∷ (mhartid, Access.get mhartid)
    ∷ (mstatus, Access.set mstatus (2 ^ (w - 1) - 1) (ones w))
    ∷ (mtvec, Access.set mtvec (ones w) (2 ^ w - 4))
    ∷ (medeleg, full w medeleg)
    ∷ (mideleg, full w mideleg)
    ∷ (mip, full w mip)
    ∷ (mie, full w mie)
    ∷ (mhcounteren, full w mhcounteren)
    ∷ (mscounteren, full w mscounteren)
    ∷ (mucounteren, full w mucounteren)
    ∷ (mscratch, full w mscratch)
    ∷ (mepc, full w mepc)
    ∷ (mcause, full w mcause)
    ∷ (mbadaddr, full w mbadaddr)
    ∷ (mbase, full w mbase)
    ∷ (mbound, full w mbound)
    ∷ (mibase, full w mibase)
    ∷ (mibound, full w mibound)
    ∷ (mdbase, full w mdbase)
    ∷ (mdbound, full w mdbound)
    ∷ (mcycle, Access.set_user minstret)
    ∷ (minstret, full 64 minstret)
    ∷ (mcycleh, Access.set_hi minstret)
    ∷ (minstreth, Access.set_hi minstret)
    ∷ (sstatus, Access.set mstatus sstatus_mask (bit_or sstatus_mask (2 ^ (w - 1))))
    ∷ (stvec, Access.set stvec (ones w) (2 ^ w - 4))
    ∷ (sedeleg, full w sedeleg)
    ∷ (sideleg, full w sideleg)
    ∷ (sip, Access.set mip si_mask si_mask)
    ∷ (sie, Access.set mie si_mask si_mask)
    ∷ (sscratch, full w sscratch)
    ∷ (sepc, full w sepc)
    ∷ (scause, full w scause)
    ∷ (sbadaddr, full w sbadaddr)
    ∷ (sptbr, full w sptbr)
    ∷ []

-- `instret` and `time` have 64 bits, the other registers `w`.
abbrev pub reg_bits : ℕ → ℕ → ℕ
reg_bits w reg = if reg == minstret then 64 else if reg == time then 64 else w

abbrev pub access_by : ℕ → Access → ℕ → CsrOp → ℕ → ℕ → Priv → Accessed
access_by w (Access.set reg wm rm) rd op csr value s =
    set_csr (reg_bits w reg) rd s.mode op csr (s.regs reg) value wm rm 0
access_by w (Access.set_user reg) rd op csr value s =
    set_csr (reg_bits w reg) rd rv_mode_U op csr (s.regs reg) value (2 ^ 64 - 1) (2 ^ 64 - 1) 0
access_by w (Access.get reg) rd op csr value s = get_csr rd s.mode csr (s.regs reg)
access_by w (Access.get_user reg) rd op csr value s = get_csr rd rv_mode_U csr (s.regs reg)
access_by w (Access.set_hi reg) rd op csr value s = set_csr_hi w rd s.mode op csr (s.regs reg) value
access_by w (Access.get_hi reg) rd op csr value s = get_csr_hi w rd s.mode csr (s.regs reg)

abbrev pub reg_of : Access → ℕ
reg_of (Access.set reg wm rm) = reg
reg_of (Access.set_user reg) = reg
reg_of (Access.get reg) = reg
reg_of (Access.get_user reg) = reg
reg_of (Access.set_hi reg) = reg
reg_of (Access.get_hi reg) = reg

abbrev pub accessed : ℕ → Option Access → ℕ → CsrOp → ℕ → ℕ → Priv → Option (Option ℕ × Priv)
accessed w none rd op csr value s = none
accessed w (some a) rd op csr value s =
    let r = access_by w a rd op csr value s in some (r.0, put_reg (reg_of a) r.1 s)

-- `P::time = get_time()`, before an access to `time`.
abbrev pub update_time : ℕ → ℕ → Priv → Priv
update_time csr now s = if csr == time then put_reg time now s else s

-- `inst_csr`, at a time of the host: the value for `rd` and the registers; `none` is `-1`.
unfoldable pub inst_csr : ℕ → ℕ → ℕ → CsrOp → ℕ → ℕ → Priv → Option (Option ℕ × Priv)
inst_csr w now rd op csr value s =
    accessed w (entry csr (accesses w)) rd op csr value (update_time csr now s)
