-- ===== src/Asm/Meta/Matches.antt =====
-- src/asm/meta.cc: the fixed bits of each opcode, in the order of `enum rv_op`.
use rv8_riscv_ckpt.Base.{ℕ, List, [], ◌∷◌, ◌++◌}

unfoldable pub match_integer : List ℕ
match_integer =
    0x0 ∷ 0x37 ∷ 0x17 ∷ 0x6f ∷ 0x67 ∷ 0x63 ∷ 0x1063 ∷ 0x4063 ∷ 0x5063 ∷ 0x6063 ∷ 0x7063 ∷ 0x3
    ∷ 0x1003 ∷ 0x2003 ∷ 0x4003 ∷ 0x5003 ∷ 0x23 ∷ 0x1023 ∷ 0x2023 ∷ 0x13 ∷ 0x2013 ∷ 0x3013 ∷ 0x4013
    ∷ 0x6013 ∷ 0x7013 ∷ 0x1013 ∷ 0x5013 ∷ 0x40005013 ∷ 0x33 ∷ 0x40000033 ∷ 0x1033 ∷ 0x2033 ∷ 0x3033
    ∷ 0x4033 ∷ 0x5033 ∷ 0x40005033 ∷ 0x6033 ∷ 0x7033 ∷ 0xf ∷ 0x100f ∷ 0x6003 ∷ 0x3003 ∷ 0x3023
    ∷ 0x1b ∷ 0x101b ∷ 0x501b ∷ 0x4000501b ∷ 0x3b ∷ 0x4000003b ∷ 0x103b ∷ 0x503b ∷ 0x4000503b
    ∷ 0x7003 ∷ 0x200f ∷ 0x4023 ∷ 0x5b ∷ 0x105b ∷ 0x505b ∷ 0x4000505b ∷ 0x7b ∷ 0x4000007b ∷ 0x107b
    ∷ 0x507b ∷ 0x4000507b ∷ 0x2000033 ∷ 0x2001033 ∷ 0x2002033 ∷ 0x2003033 ∷ 0x2004033 ∷ 0x2005033
    ∷ 0x2006033 ∷ 0x2007033 ∷ 0x200003b ∷ 0x200403b ∷ 0x200503b ∷ 0x200603b ∷ 0x200703b ∷ 0x200007b
    ∷ 0x200407b ∷ 0x200507b ∷ 0x200607b ∷ 0x200707b ∷ 0x1000202f ∷ 0x1800202f ∷ 0x800202f ∷ 0x202f
    ∷ 0x2000202f ∷ 0x4000202f ∷ 0x6000202f ∷ 0x8000202f ∷ 0xa000202f ∷ 0xc000202f ∷ 0xe000202f
    ∷ 0x1000302f ∷ 0x1800302f ∷ 0x800302f ∷ 0x302f ∷ 0x2000302f ∷ 0x4000302f ∷ 0x6000302f
    ∷ 0x8000302f ∷ 0xa000302f ∷ 0xc000302f ∷ 0xe000302f ∷ 0x1000402f ∷ 0x1800402f ∷ 0x800402f
    ∷ 0x402f ∷ 0x2000402f ∷ 0x4000402f ∷ 0x6000402f ∷ 0x8000402f ∷ 0xa000402f ∷ 0xc000402f
    ∷ 0xe000402f ∷ 0x73 ∷ 0x100073 ∷ 0x200073 ∷ 0x10200073 ∷ 0x20200073 ∷ 0x30200073 ∷ 0x7b200073
    ∷ 0x10400073 ∷ 0x12000073 ∷ 0x10500073 ∷ 0x1073 ∷ 0x2073 ∷ 0x3073 ∷ 0x5073 ∷ 0x6073 ∷ 0x7073
    ∷ []

unfoldable pub match_floating : List ℕ
match_floating =
    0x2007 ∷ 0x2027 ∷ 0x43 ∷ 0x47 ∷ 0x4b ∷ 0x4f ∷ 0x53 ∷ 0x8000053 ∷ 0x10000053 ∷ 0x18000053
    ∷ 0x20000053 ∷ 0x20001053 ∷ 0x20002053 ∷ 0x28000053 ∷ 0x28001053 ∷ 0x58000053 ∷ 0xa0000053
    ∷ 0xa0001053 ∷ 0xa0002053 ∷ 0xc0000053 ∷ 0xc0100053 ∷ 0xd0000053 ∷ 0xd0100053 ∷ 0xe0000053
    ∷ 0xe0001053 ∷ 0xf0000053 ∷ 0xc0200053 ∷ 0xc0300053 ∷ 0xd0200053 ∷ 0xd0300053 ∷ 0x3007 ∷ 0x3027
    ∷ 0x2000043 ∷ 0x2000047 ∷ 0x200004b ∷ 0x200004f ∷ 0x2000053 ∷ 0xa000053 ∷ 0x12000053
    ∷ 0x1a000053 ∷ 0x22000053 ∷ 0x22001053 ∷ 0x22002053 ∷ 0x2a000053 ∷ 0x2a001053 ∷ 0x40100053
    ∷ 0x42000053 ∷ 0x5a000053 ∷ 0xa2000053 ∷ 0xa2001053 ∷ 0xa2002053 ∷ 0xc2000053 ∷ 0xc2100053
    ∷ 0xd2000053 ∷ 0xd2100053 ∷ 0xe2001053 ∷ 0xc2200053 ∷ 0xc2300053 ∷ 0xe2000053 ∷ 0xd2200053
    ∷ 0xd2300053 ∷ 0xf2000053 ∷ 0x4007 ∷ 0x4027 ∷ 0x6000043 ∷ 0x6000047 ∷ 0x600004b ∷ 0x600004f
    ∷ 0x6000053 ∷ 0xe000053 ∷ 0x16000053 ∷ 0x1e000053 ∷ 0x26000053 ∷ 0x26001053 ∷ 0x26002053
    ∷ 0x2e000053 ∷ 0x2e001053 ∷ 0x40300053 ∷ 0x46000053 ∷ 0x42300053 ∷ 0x46100053 ∷ 0x5e000053
    ∷ 0xa6000053 ∷ 0xa6001053 ∷ 0xa6002053 ∷ 0xc6000053 ∷ 0xc6100053 ∷ 0xd6000053 ∷ 0xd6100053
    ∷ 0xe6001053 ∷ 0xc6200053 ∷ 0xc6300053 ∷ 0xd6200053 ∷ 0xd6300053 ∷ 0xe6000053 ∷ 0xf6000053 ∷ []

unfoldable pub match_compressed : List ℕ
match_compressed =
    0x0 ∷ 0x2000 ∷ 0x4000 ∷ 0x6000 ∷ 0xa000 ∷ 0xc000 ∷ 0xe000 ∷ 0x1 ∷ 0x1 ∷ 0x2001 ∷ 0x4001 ∷ 0x6101
    ∷ 0x6001 ∷ 0x8001 ∷ 0x8401 ∷ 0x8801 ∷ 0x8c01 ∷ 0x8c21 ∷ 0x8c41 ∷ 0x8c61 ∷ 0x9c01 ∷ 0x9c21
    ∷ 0xa001 ∷ 0xc001 ∷ 0xe001 ∷ 0x2 ∷ 0x2002 ∷ 0x4002 ∷ 0x6002 ∷ 0x8002 ∷ 0x8002 ∷ 0x9002 ∷ 0x9002
    ∷ 0x9002 ∷ 0xa002 ∷ 0xc002 ∷ 0xe002 ∷ 0x6000 ∷ 0xe000 ∷ 0x2001 ∷ 0x6002 ∷ 0xe002 ∷ 0x2000
    ∷ 0xa000 ∷ 0x2002 ∷ 0xa002 ∷ []

unfoldable pub match_pseudo : List ℕ
match_pseudo =
    0x0 ∷ 0x0 ∷ 0x0 ∷ 0x0 ∷ 0x0 ∷ 0x0 ∷ 0x0 ∷ 0x0 ∷ 0x0 ∷ 0x0 ∷ 0x0 ∷ 0x0 ∷ 0x0 ∷ 0x0 ∷ 0x0 ∷ 0x0
    ∷ 0x0 ∷ 0x0 ∷ 0x0 ∷ 0x0 ∷ 0x0 ∷ 0x0 ∷ 0x0 ∷ 0x0 ∷ 0x0 ∷ 0x0 ∷ 0x0 ∷ 0x0 ∷ 0x0 ∷ 0x0 ∷ 0x0 ∷ 0x0
    ∷ 0x0 ∷ 0x0 ∷ 0x0 ∷ 0x0 ∷ 0x0 ∷ 0x0 ∷ 0x0 ∷ 0x0 ∷ 0x0 ∷ 0x0 ∷ 0x0 ∷ 0x0 ∷ 0x0 ∷ 0x0 ∷ []

unfoldable pub rv_inst_match : List ℕ
unfolding match_integer match_floating match_compressed match_pseudo
rv_inst_match = match_integer ++ (match_floating ++ (match_compressed ++ match_pseudo))
