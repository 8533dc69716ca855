-- ===== src/Asm/Op.antt =====
-- src/asm/meta.h: the opcodes of `enum rv_op` that the tables of instructions name.
mod Compressed
mod Pseudo
mod Integer
mod Floating
pub use Compressed.*
pub use Pseudo.*
pub use Integer.*
pub use Floating.*
use rv8_riscv_ckpt.Base.{ℕ}

abbrev pub lui : ℕ
lui = 1

abbrev pub jal : ℕ
jal = 3

abbrev pub jalr : ℕ
jalr = 4

abbrev pub beq : ℕ
beq = 5

abbrev pub bne : ℕ
bne = 6

abbrev pub blt : ℕ
blt = 7

abbrev pub bge : ℕ
bge = 8

abbrev pub bltu : ℕ
bltu = 9

abbrev pub bgeu : ℕ
bgeu = 10

abbrev pub lw : ℕ
lw = 13

abbrev pub sw : ℕ
sw = 18

abbrev pub addi : ℕ
addi = 19

abbrev pub sltiu : ℕ
sltiu = 21

abbrev pub xori : ℕ
xori = 22

abbrev pub andi : ℕ
andi = 24

abbrev pub slli : ℕ
slli = 25

abbrev pub srli : ℕ
srli = 26

abbrev pub srai : ℕ
srai = 27

abbrev pub add : ℕ
add = 28

abbrev pub sub : ℕ
sub = 29

abbrev pub slt : ℕ
slt = 31

abbrev pub sltu : ℕ
sltu = 32

abbrev pub xor : ℕ
xor = 33

abbrev pub or : ℕ
or = 36

abbrev pub and : ℕ
and = 37

abbrev pub ld : ℕ
ld = 41

abbrev pub sd : ℕ
sd = 42

abbrev pub addiw : ℕ
addiw = 43

abbrev pub addw : ℕ
addw = 47

abbrev pub subw : ℕ
subw = 48

abbrev pub lq : ℕ
lq = 53

abbrev pub sq : ℕ
sq = 54

abbrev pub ebreak : ℕ
ebreak = 116

abbrev pub csrrw : ℕ
csrrw = 125

abbrev pub csrrs : ℕ
csrrs = 126

abbrev pub csrrwi : ℕ
csrrwi = 128

abbrev pub flw : ℕ
flw = 131

abbrev pub fsw : ℕ
fsw = 132

abbrev pub fsgnj_s : ℕ
fsgnj_s = 141

abbrev pub fsgnjn_s : ℕ
fsgnjn_s = 142

abbrev pub fsgnjx_s : ℕ
fsgnjx_s = 143

abbrev pub fld : ℕ
fld = 161

abbrev pub fsd : ℕ
fsd = 162

abbrev pub fsgnj_d : ℕ
fsgnj_d = 171

abbrev pub fsgnjn_d : ℕ
fsgnjn_d = 172

abbrev pub fsgnjx_d : ℕ
fsgnjx_d = 173

abbrev pub fsgnj_q : ℕ
fsgnj_q = 203

abbrev pub fsgnjn_q : ℕ
fsgnjn_q = 204

abbrev pub fsgnjx_q : ℕ
fsgnjx_q = 205
