-- ===== src/Asm/Op/Compressed.antt =====
-- src/asm/meta.h: the compressed opcodes of `enum rv_op`.
use rv8_riscv_ckpt.Base.{ℕ}

abbrev pub c_addi4spn : ℕ
c_addi4spn = 227

abbrev pub c_fld : ℕ
c_fld = 228

abbrev pub c_lw : ℕ
c_lw = 229

abbrev pub c_flw : ℕ
c_flw = 230

abbrev pub c_fsd : ℕ
c_fsd = 231

abbrev pub c_sw : ℕ
c_sw = 232

abbrev pub c_fsw : ℕ
c_fsw = 233

abbrev pub c_nop : ℕ
c_nop = 234

abbrev pub c_addi : ℕ
c_addi = 235

abbrev pub c_jal : ℕ
c_jal = 236

abbrev pub c_li : ℕ
c_li = 237

abbrev pub c_addi16sp : ℕ
c_addi16sp = 238

abbrev pub c_lui : ℕ
c_lui = 239

abbrev pub c_srli : ℕ
c_srli = 240

abbrev pub c_srai : ℕ
c_srai = 241

abbrev pub c_andi : ℕ
c_andi = 242

abbrev pub c_sub : ℕ
c_sub = 243

abbrev pub c_xor : ℕ
c_xor = 244

abbrev pub c_or : ℕ
c_or = 245

abbrev pub c_and : ℕ
c_and = 246

abbrev pub c_subw : ℕ
c_subw = 247

abbrev pub c_addw : ℕ
c_addw = 248

abbrev pub c_j : ℕ
c_j = 249

abbrev pub c_beqz : ℕ
c_beqz = 250

abbrev pub c_bnez : ℕ
c_bnez = 251

abbrev pub c_slli : ℕ
c_slli = 252

abbrev pub c_fldsp : ℕ
c_fldsp = 253

abbrev pub c_lwsp : ℕ
c_lwsp = 254

abbrev pub c_flwsp : ℕ
c_flwsp = 255

abbrev pub c_jr : ℕ
c_jr = 256

abbrev pub c_mv : ℕ
c_mv = 257

abbrev pub c_ebreak : ℕ
c_ebreak = 258

abbrev pub c_jalr : ℕ
c_jalr = 259

abbrev pub c_add : ℕ
c_add = 260

abbrev pub c_fsdsp : ℕ
c_fsdsp = 261

abbrev pub c_swsp : ℕ
c_swsp = 262

abbrev pub c_fswsp : ℕ
c_fswsp = 263

abbrev pub c_ld : ℕ
c_ld = 264

abbrev pub c_sd : ℕ
c_sd = 265

abbrev pub c_addiw : ℕ
c_addiw = 266

abbrev pub c_ldsp : ℕ
c_ldsp = 267

abbrev pub c_sdsp : ℕ
c_sdsp = 268

abbrev pub c_lq : ℕ
c_lq = 269

abbrev pub c_sq : ℕ
c_sq = 270

abbrev pub c_lqsp : ℕ
c_lqsp = 271

abbrev pub c_sqsp : ℕ
c_sqsp = 272
