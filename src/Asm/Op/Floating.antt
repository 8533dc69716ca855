-- ===== src/Asm/Op/Floating.antt =====
-- src/asm/meta.h: the opcodes that only `decode_inst_op` names, of floating-point numbers.
use rv8_riscv_ckpt.Base.{ℕ}

abbrev pub fmadd_s : ℕ
fmadd_s = 133

abbrev pub fmsub_s : ℕ
fmsub_s = 134

abbrev pub fnmsub_s : ℕ
fnmsub_s = 135

abbrev pub fnmadd_s : ℕ
fnmadd_s = 136

abbrev pub fadd_s : ℕ
fadd_s = 137

abbrev pub fsub_s : ℕ
fsub_s = 138

abbrev pub fmul_s : ℕ
fmul_s = 139

abbrev pub fdiv_s : ℕ
fdiv_s = 140

abbrev pub fmin_s : ℕ
fmin_s = 144

abbrev pub fmax_s : ℕ
fmax_s = 145

abbrev pub fsqrt_s : ℕ
fsqrt_s = 146

abbrev pub fle_s : ℕ
fle_s = 147

abbrev pub flt_s : ℕ
flt_s = 148

abbrev pub feq_s : ℕ
feq_s = 149

abbrev pub fcvt_w_s : ℕ
fcvt_w_s = 150

abbrev pub fcvt_wu_s : ℕ
fcvt_wu_s = 151

abbrev pub fcvt_s_w : ℕ
fcvt_s_w = 152

abbrev pub fcvt_s_wu : ℕ
fcvt_s_wu = 153

abbrev pub fmv_x_s : ℕ
fmv_x_s = 154

abbrev pub fclass_s : ℕ
fclass_s = 155

abbrev pub fmv_s_x : ℕ
fmv_s_x = 156

abbrev pub fcvt_l_s : ℕ
fcvt_l_s = 157

abbrev pub fcvt_lu_s : ℕ
fcvt_lu_s = 158

abbrev pub fcvt_s_l : ℕ
fcvt_s_l = 159

abbrev pub fcvt_s_lu : ℕ
fcvt_s_lu = 160

abbrev pub fmadd_d : ℕ
fmadd_d = 163

abbrev pub fmsub_d : ℕ
fmsub_d = 164

abbrev pub fnmsub_d : ℕ
fnmsub_d = 165

abbrev pub fnmadd_d : ℕ
fnmadd_d = 166

abbrev pub fadd_d : ℕ
fadd_d = 167

abbrev pub fsub_d : ℕ
fsub_d = 168

abbrev pub fmul_d : ℕ
fmul_d = 169

abbrev pub fdiv_d : ℕ
fdiv_d = 170

abbrev pub fmin_d : ℕ
fmin_d = 174

abbrev pub fmax_d : ℕ
fmax_d = 175

abbrev pub fcvt_s_d : ℕ
fcvt_s_d = 176

abbrev pub fcvt_d_s : ℕ
fcvt_d_s = 177

abbrev pub fsqrt_d : ℕ
fsqrt_d = 178

abbrev pub fle_d : ℕ
fle_d = 179

abbrev pub flt_d : ℕ
flt_d = 180

abbrev pub feq_d : ℕ
feq_d = 181

abbrev pub fcvt_w_d : ℕ
fcvt_w_d = 182

abbrev pub fcvt_wu_d : ℕ
fcvt_wu_d = 183

abbrev pub fcvt_d_w : ℕ
fcvt_d_w = 184

abbrev pub fcvt_d_wu : ℕ
fcvt_d_wu = 185

abbrev pub fclass_d : ℕ
fclass_d = 186

abbrev pub fcvt_l_d : ℕ
fcvt_l_d = 187

abbrev pub fcvt_lu_d : ℕ
fcvt_lu_d = 188

abbrev pub fmv_x_d : ℕ
fmv_x_d = 189

abbrev pub fcvt_d_l : ℕ
fcvt_d_l = 190

abbrev pub fcvt_d_lu : ℕ
fcvt_d_lu = 191

abbrev pub fmv_d_x : ℕ
fmv_d_x = 192

abbrev pub flq : ℕ
flq = 193

abbrev pub fsq : ℕ
fsq = 194

abbrev pub fmadd_q : ℕ
fmadd_q = 195

abbrev pub fmsub_q : ℕ
fmsub_q = 196

abbrev pub fnmsub_q : ℕ
fnmsub_q = 197

abbrev pub fnmadd_q : ℕ
fnmadd_q = 198

abbrev pub fadd_q : ℕ
fadd_q = 199

abbrev pub fsub_q : ℕ
fsub_q = 200

abbrev pub fmul_q : ℕ
fmul_q = 201

abbrev pub fdiv_q : ℕ
fdiv_q = 202

abbrev pub fmin_q : ℕ
fmin_q = 206

abbrev pub fmax_q : ℕ
fmax_q = 207

abbrev pub fcvt_s_q : ℕ
fcvt_s_q = 208

abbrev pub fcvt_q_s : ℕ
fcvt_q_s = 209

abbrev pub fcvt_d_q : ℕ
fcvt_d_q = 210

abbrev pub fcvt_q_d : ℕ
fcvt_q_d = 211

abbrev pub fsqrt_q : ℕ
fsqrt_q = 212

abbrev pub fle_q : ℕ
fle_q = 213

abbrev pub flt_q : ℕ
flt_q = 214

abbrev pub feq_q : ℕ
feq_q = 215

abbrev pub fcvt_w_q : ℕ
fcvt_w_q = 216

abbrev pub fcvt_wu_q : ℕ
fcvt_wu_q = 217

abbrev pub fcvt_q_w : ℕ
fcvt_q_w = 218

abbrev pub fcvt_q_wu : ℕ
fcvt_q_wu = 219

abbrev pub fclass_q : ℕ
fclass_q = 220

abbrev pub fcvt_l_q : ℕ
fcvt_l_q = 221

abbrev pub fcvt_lu_q : ℕ
fcvt_lu_q = 222

abbrev pub fcvt_q_l : ℕ
fcvt_q_l = 223

abbrev pub fcvt_q_lu : ℕ
fcvt_q_lu = 224

abbrev pub fmv_x_q : ℕ
fmv_x_q = 225

abbrev pub fmv_q_x : ℕ
fmv_q_x = 226
