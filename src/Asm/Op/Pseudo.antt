-- ===== src/Asm/Op/Pseudo.antt =====
-- src/asm/meta.h: the pseudo opcodes of `enum rv_op`.
use rv8_riscv_ckpt.Base.{ℕ}

abbrev pub nop : ℕ
nop = 273

abbrev pub mv : ℕ
mv = 274

abbrev pub not : ℕ
not = 275

abbrev pub neg : ℕ
neg = 276

abbrev pub negw : ℕ
negw = 277

abbrev pub sext_w : ℕ
sext_w = 278

abbrev pub seqz : ℕ
seqz = 279

abbrev pub snez : ℕ
snez = 280

abbrev pub sltz : ℕ
sltz = 281

abbrev pub sgtz : ℕ
sgtz = 282

abbrev pub fmv_s : ℕ
fmv_s = 283

abbrev pub fabs_s : ℕ
fabs_s = 284

abbrev pub fneg_s : ℕ
fneg_s = 285

abbrev pub fmv_d : ℕ
fmv_d = 286

abbrev pub fabs_d : ℕ
fabs_d = 287

abbrev pub fneg_d : ℕ
fneg_d = 288

abbrev pub fmv_q : ℕ
fmv_q = 289

abbrev pub fabs_q : ℕ
fabs_q = 290

abbrev pub fneg_q : ℕ
fneg_q = 291

abbrev pub beqz : ℕ
beqz = 292

abbrev pub bnez : ℕ
bnez = 293

abbrev pub blez : ℕ
blez = 294

abbrev pub bgez : ℕ
bgez = 295

abbrev pub bltz : ℕ
bltz = 296

abbrev pub bgtz : ℕ
bgtz = 297

abbrev pub ble : ℕ
ble = 298

abbrev pub bleu : ℕ
bleu = 299

abbrev pub bgt : ℕ
bgt = 300

abbrev pub bgtu : ℕ
bgtu = 301

abbrev pub j : ℕ
j = 302

abbrev pub ret : ℕ
ret = 303

abbrev pub jr : ℕ
jr = 304

abbrev pub rdcycle : ℕ
rdcycle = 305

abbrev pub rdtime : ℕ
rdtime = 306

abbrev pub rdinstret : ℕ
rdinstret = 307

abbrev pub rdcycleh : ℕ
rdcycleh = 308

abbrev pub rdtimeh : ℕ
rdtimeh = 309

abbrev pub rdinstreth : ℕ
rdinstreth = 310

abbrev pub frcsr : ℕ
frcsr = 311

abbrev pub frrm : ℕ
frrm = 312

abbrev pub frflags : ℕ
frflags = 313

abbrev pub fscsr : ℕ
fscsr = 314

abbrev pub fsrm : ℕ
fsrm = 315

abbrev pub fsflags : ℕ
fsflags = 316

abbrev pub fsrmi : ℕ
fsrmi = 317

abbrev pub fsflagsi : ℕ
fsflagsi = 318
