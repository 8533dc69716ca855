-- ===== src/Emu/Priv/Csr.antt =====
-- src/asm/meta.h: the numbers of the control and status registers.
use rv8_riscv_ckpt.Base.{ℕ}

abbrev pub cycle : ℕ
cycle = 3072

abbrev pub time : ℕ
time = 3073

abbrev pub instret : ℕ
instret = 3074

abbrev pub cycleh : ℕ
cycleh = 3200

abbrev pub timeh : ℕ
timeh = 3201

abbrev pub instreth : ℕ
instreth = 3202

abbrev pub misa : ℕ
misa = 769

abbrev pub mvendorid : ℕ
mvendorid = 3857

abbrev pub marchid : ℕ
marchid = 3858

abbrev pub mimpid : ℕ
mimpid = 3859

abbrev pub mhartid : ℕ
mhartid = 3860

abbrev pub mstatus : ℕ
mstatus = 768

abbrev pub mtvec : ℕ
mtvec = 773

abbrev pub medeleg : ℕ
medeleg = 770

abbrev pub mideleg : ℕ
mideleg = 771

abbrev pub mip : ℕ
mip = 836

abbrev pub mie : ℕ
mie = 772

abbrev pub mhcounteren : ℕ
mhcounteren = 802

abbrev pub mscounteren : ℕ
mscounteren = 801

abbrev pub mucounteren : ℕ
mucounteren = 800

abbrev pub mscratch : ℕ
mscratch = 832

abbrev pub mepc : ℕ
mepc = 833

abbrev pub mcause : ℕ
mcause = 834

abbrev pub mbadaddr : ℕ
mbadaddr = 835

abbrev pub mbase : ℕ
mbase = 896

abbrev pub mbound : ℕ
mbound = 897

abbrev pub mibase : ℕ
mibase = 898

abbrev pub mibound : ℕ
mibound = 899

abbrev pub mdbase : ℕ
mdbase = 900

abbrev pub mdbound : ℕ
mdbound = 901

abbrev pub mcycle : ℕ
mcycle = 2816

abbrev pub minstret : ℕ
minstret = 2818

abbrev pub mcycleh : ℕ
mcycleh = 2944

abbrev pub minstreth : ℕ
minstreth = 2946

abbrev pub sstatus : ℕ
sstatus = 256

abbrev pub stvec : ℕ
stvec = 261

abbrev pub sedeleg : ℕ
sedeleg = 258

abbrev pub sideleg : ℕ
sideleg = 259

abbrev pub sip : ℕ
sip = 324

abbrev pub sie : ℕ
sie = 260

abbrev pub sscratch : ℕ
sscratch = 320

abbrev pub sepc : ℕ
sepc = 321

abbrev pub scause : ℕ
scause = 322

abbrev pub sbadaddr : ℕ
sbadaddr = 323

abbrev pub sptbr : ℕ
sptbr = 384
