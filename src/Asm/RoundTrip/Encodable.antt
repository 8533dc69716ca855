-- ===== src/Asm/RoundTrip/Encodable.antt =====
-- Which decoded instructions a format can express.
use rv8_riscv_ckpt.Base.{ℕ, ◌+◌, ◌-◌, ◌%◌, ◌^◌, ◌≤◌, ◌<◌, ◌≡◌}
use rv8_riscv_ckpt.Asm.Inst.{Codec, Decode}

-- A register, and a register of x8 to x15.
abbrev pub IsReg : ℕ → Type 0
IsReg r = r < 32

abbrev pub IsRegQ : ℕ → Type 0
IsRegQ r = (8 ≤ r) × (r < 16)

-- A multiple of 2 to `lo` below 2 to `hi`; and a signed number of `hi` bits, as a 32-bit pattern.
abbrev pub IsUimm : ℕ → ℕ → ℕ → Type 0
IsUimm lo hi imm = (imm < 2 ^ hi) × (imm % 2 ^ lo ≡ 0)

abbrev pub IsSimm : ℕ → ℕ → ℕ → Type 0
IsSimm lo hi imm = (imm < 2 ^ 32) × ((imm + 2 ^ (hi - 1)) % 2 ^ 32 < 2 ^ hi) × (imm % 2 ^ lo ≡ 0)

-- The fields that few formats have are clear.
abbrev pub IsPlain : Decode → Type 0
IsPlain d = (d.rs3 ≡ 0) × (d.rm ≡ 0) × (d.aq ≡ 0) × (d.rl ≡ 0) × (d.pred ≡ 0) × (d.succ ≡ 0)

abbrev pub IsEncodable : Codec → Decode → Type 0
IsEncodable Codec.illegal d = (d.rd ≡ 0) × (d.rs1 ≡ 0) × (d.rs2 ≡ 0) × (d.imm ≡ 0) × IsPlain d
IsEncodable Codec.none d = (d.rd ≡ 0) × (d.rs1 ≡ 0) × (d.rs2 ≡ 0) × (d.imm ≡ 0) × IsPlain d
IsEncodable Codec.u d = IsReg d.rd × (d.rs1 ≡ 0) × (d.rs2 ≡ 0) × IsSimm 12 32 d.imm × IsPlain d
IsEncodable Codec.uj d = IsReg d.rd × (d.rs1 ≡ 0) × (d.rs2 ≡ 0) × IsSimm 1 21 d.imm × IsPlain d
IsEncodable Codec.i d = IsReg d.rd × IsReg d.rs1 × (d.rs2 ≡ 0) × IsSimm 0 12 d.imm × IsPlain d
IsEncodable Codec.i_sh5 d = IsReg d.rd × IsReg d.rs1 × (d.rs2 ≡ 0) × IsUimm 0 5 d.imm × IsPlain d
IsEncodable Codec.i_sh6 d = IsReg d.rd × IsReg d.rs1 × (d.rs2 ≡ 0) × IsUimm 0 6 d.imm × IsPlain d
IsEncodable Codec.i_sh7 d = IsReg d.rd × IsReg d.rs1 × (d.rs2 ≡ 0) × IsUimm 0 7 d.imm × IsPlain d
IsEncodable Codec.i_csr d = IsReg d.rd × IsReg d.rs1 × (d.rs2 ≡ 0) × IsUimm 0 12 d.imm × IsPlain d
IsEncodable Codec.s d = (d.rd ≡ 0) × IsReg d.rs1 × IsReg d.rs2 × IsSimm 0 12 d.imm × IsPlain d
IsEncodable Codec.sb d = (d.rd ≡ 0) × IsReg d.rs1 × IsReg d.rs2 × IsSimm 1 13 d.imm × IsPlain d
IsEncodable Codec.r d = IsReg d.rd × IsReg d.rs1 × IsReg d.rs2 × (d.imm ≡ 0) × IsPlain d
IsEncodable Codec.r_m d =
    IsReg d.rd
    × IsReg d.rs1
    × IsReg d.rs2
    × (d.imm ≡ 0)
    × (d.rs3 ≡ 0)
    × (d.rm < 8)
    × (d.aq ≡ 0)
    × (d.rl ≡ 0)
    × (d.pred ≡ 0)
    × (d.succ ≡ 0)
IsEncodable Codec.r4_m d =
    IsReg d.rd
    × IsReg d.rs1
    × IsReg d.rs2
    × (d.imm ≡ 0)
    × IsReg d.rs3
    × (d.rm < 8)
    × (d.aq ≡ 0)
    × (d.rl ≡ 0)
    × (d.pred ≡ 0)
    × (d.succ ≡ 0)
IsEncodable Codec.r_a d =
    IsReg d.rd
    × IsReg d.rs1
    × IsReg d.rs2
    × (d.imm ≡ 0)
    × (d.rs3 ≡ 0)
    × (d.rm ≡ 0)
    × (d.aq < 2)
    × (d.rl < 2)
    × (d.pred ≡ 0)
    × (d.succ ≡ 0)
IsEncodable Codec.r_l d =
    IsReg d.rd
    × IsReg d.rs1
    × (d.rs2 ≡ 0)
    × (d.imm ≡ 0)
    × (d.rs3 ≡ 0)
    × (d.rm ≡ 0)
    × (d.aq < 2)
    × (d.rl < 2)
    × (d.pred ≡ 0)
    × (d.succ ≡ 0)
IsEncodable Codec.r_f d =
    (d.rd ≡ 0)
    × (d.rs1 ≡ 0)
    × (d.rs2 ≡ 0)
    × (d.imm ≡ 0)
    × (d.rs3 ≡ 0)
    × (d.rm ≡ 0)
    × (d.aq ≡ 0)
    × (d.rl ≡ 0)
    × (d.pred < 16)
    × (d.succ < 16)
IsEncodable Codec.cb d = (d.rd ≡ 0) × IsRegQ d.rs1 × (d.rs2 ≡ 0) × IsSimm 1 9 d.imm × IsPlain d
IsEncodable Codec.cb_imm d =
    (d.rd ≡ d.rs1) × IsRegQ d.rs1 × (d.rs2 ≡ 0) × IsSimm 0 6 d.imm × IsPlain d
IsEncodable Codec.cb_sh5 d =
    (d.rd ≡ d.rs1) × IsRegQ d.rs1 × (d.rs2 ≡ 0) × IsUimm 0 5 d.imm × IsPlain d
IsEncodable Codec.cb_sh6 d =
    (d.rd ≡ d.rs1) × IsRegQ d.rs1 × (d.rs2 ≡ 0) × IsUimm 0 6 d.imm × IsPlain d
IsEncodable Codec.ci d = (d.rd ≡ d.rs1) × IsReg d.rs1 × (d.rs2 ≡ 0) × IsSimm 0 6 d.imm × IsPlain d
IsEncodable Codec.ci_sh5 d =
    (d.rd ≡ d.rs1) × IsReg d.rs1 × (d.rs2 ≡ 0) × IsUimm 0 5 d.imm × IsPlain d
IsEncodable Codec.ci_sh6 d =
    (d.rd ≡ d.rs1) × IsReg d.rs1 × (d.rs2 ≡ 0) × IsUimm 0 6 d.imm × IsPlain d
IsEncodable Codec.ci_16sp d = (d.rd ≡ 2) × (d.rs1 ≡ 2) × (d.rs2 ≡ 0) × IsSimm 4 10 d.imm × IsPlain d
IsEncodable Codec.ci_lwsp d = IsReg d.rd × (d.rs1 ≡ 2) × (d.rs2 ≡ 0) × IsUimm 2 8 d.imm × IsPlain d
IsEncodable Codec.ci_ldsp d = IsReg d.rd × (d.rs1 ≡ 2) × (d.rs2 ≡ 0) × IsUimm 3 9 d.imm × IsPlain d
IsEncodable Codec.ci_lqsp d = IsReg d.rd × (d.rs1 ≡ 2) × (d.rs2 ≡ 0) × IsUimm 4 10 d.imm × IsPlain d
IsEncodable Codec.ci_li d = IsReg d.rd × (d.rs1 ≡ 0) × (d.rs2 ≡ 0) × IsSimm 0 6 d.imm × IsPlain d
IsEncodable Codec.ci_lui d = IsReg d.rd × (d.rs1 ≡ 0) × (d.rs2 ≡ 0) × IsSimm 12 18 d.imm × IsPlain d
IsEncodable Codec.ci_none d = (d.rd ≡ 0) × (d.rs1 ≡ 0) × (d.rs2 ≡ 0) × (d.imm ≡ 0) × IsPlain d
IsEncodable Codec.ciw_4spn d =
    IsRegQ d.rd × (d.rs1 ≡ 2) × (d.rs2 ≡ 0) × IsUimm 2 10 d.imm × IsPlain d
IsEncodable Codec.cj d = (d.rd ≡ 0) × (d.rs1 ≡ 0) × (d.rs2 ≡ 0) × IsSimm 1 12 d.imm × IsPlain d
IsEncodable Codec.cj_jal d = (d.rd ≡ 1) × (d.rs1 ≡ 0) × (d.rs2 ≡ 0) × IsSimm 1 12 d.imm × IsPlain d
IsEncodable Codec.cl_lw d = IsRegQ d.rd × IsRegQ d.rs1 × (d.rs2 ≡ 0) × IsUimm 2 7 d.imm × IsPlain d
IsEncodable Codec.cl_ld d = IsRegQ d.rd × IsRegQ d.rs1 × (d.rs2 ≡ 0) × IsUimm 3 8 d.imm × IsPlain d
IsEncodable Codec.cl_lq d = IsRegQ d.rd × IsRegQ d.rs1 × (d.rs2 ≡ 0) × IsUimm 4 9 d.imm × IsPlain d
IsEncodable Codec.cr d = (d.rd ≡ d.rs1) × IsReg d.rs1 × IsReg d.rs2 × (d.imm ≡ 0) × IsPlain d
IsEncodable Codec.cr_mv d = IsReg d.rd × IsReg d.rs1 × (d.rs2 ≡ 0) × (d.imm ≡ 0) × IsPlain d
IsEncodable Codec.cr_jalr d = (d.rd ≡ 1) × IsReg d.rs1 × (d.rs2 ≡ 0) × (d.imm ≡ 0) × IsPlain d
IsEncodable Codec.cr_jr d = (d.rd ≡ 0) × IsReg d.rs1 × (d.rs2 ≡ 0) × (d.imm ≡ 0) × IsPlain d
IsEncodable Codec.cs d = (d.rd ≡ d.rs1) × IsRegQ d.rs1 × (d.rs2 ≡ d.rd) × (d.imm ≡ 0) × IsPlain d
IsEncodable Codec.cs_sw d = (d.rd ≡ 0) × IsRegQ d.rs1 × IsRegQ d.rs2 × IsUimm 2 7 d.imm × IsPlain d
IsEncodable Codec.cs_sd d = (d.rd ≡ 0) × IsRegQ d.rs1 × IsRegQ d.rs2 × IsUimm 3 8 d.imm × IsPlain d
IsEncodable Codec.cs_sq d = (d.rd ≡ 0) × IsRegQ d.rs1 × IsRegQ d.rs2 × IsUimm 4 9 d.imm × IsPlain d
IsEncodable Codec.css_swsp d = (d.rd ≡ 0) × (d.rs1 ≡ 2) × IsReg d.rs2 × IsUimm 2 8 d.imm × IsPlain d
IsEncodable Codec.css_sdsp d = (d.rd ≡ 0) × (d.rs1 ≡ 2) × IsReg d.rs2 × IsUimm 3 9 d.imm × IsPlain d
IsEncodable Codec.css_sqsp d =
    (d.rd ≡ 0) × (d.rs1 ≡ 2) × IsReg d.rs2 × IsUimm 4 10 d.imm × IsPlain d
