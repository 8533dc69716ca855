-- ===== src/Asm/Op/Integer.antt =====
-- src/asm/meta.h: the opcodes that only `decode_inst_op` names, of integers.
use rv8_riscv_ckpt.Base.{ℕ}

abbrev pub auipc : ℕ
auipc = 2

abbrev pub lb : ℕ
lb = 11

abbrev pub lh : ℕ
lh = 12

abbrev pub lbu : ℕ
lbu = 14

abbrev pub lhu : ℕ
lhu = 15

abbrev pub sb : ℕ
sb = 16

abbrev pub sh : ℕ
sh = 17

abbrev pub slti : ℕ
slti = 20

abbrev pub ori : ℕ
ori = 23

abbrev pub sll : ℕ
sll = 30

abbrev pub srl : ℕ
srl = 34

abbrev pub sra : ℕ
sra = 35

abbrev pub fence : ℕ
fence = 38

abbrev pub fence_i : ℕ
fence_i = 39

abbrev pub lwu : ℕ
lwu = 40

abbrev pub slliw : ℕ
slliw = 44

abbrev pub srliw : ℕ
srliw = 45

abbrev pub sraiw : ℕ
sraiw = 46

abbrev pub sllw : ℕ
sllw = 49

abbrev pub srlw : ℕ
srlw = 50

abbrev pub sraw : ℕ
sraw = 51

abbrev pub ldu : ℕ
ldu = 52

abbrev pub addid : ℕ
addid = 55

abbrev pub sllid : ℕ
sllid = 56

abbrev pub srlid : ℕ
srlid = 57

abbrev pub sraid : ℕ
sraid = 58

abbrev pub addd : ℕ
addd = 59

abbrev pub subd : ℕ
subd = 60

abbrev pub slld : ℕ
slld = 61

abbrev pub srld : ℕ
srld = 62

abbrev pub srad : ℕ
srad = 63

abbrev pub mul : ℕ
mul = 64

abbrev pub mulh : ℕ
mulh = 65

abbrev pub mulhsu : ℕ
mulhsu = 66

abbrev pub mulhu : ℕ
mulhu = 67

abbrev pub div : ℕ
div = 68

abbrev pub divu : ℕ
divu = 69

abbrev pub rem : ℕ
rem = 70

abbrev pub remu : ℕ
remu = 71

abbrev pub mulw : ℕ
mulw = 72

abbrev pub divw : ℕ
divw = 73

abbrev pub divuw : ℕ
divuw = 74

abbrev pub remw : ℕ
remw = 75

abbrev pub remuw : ℕ
remuw = 76

abbrev pub muld : ℕ
muld = 77

abbrev pub divd : ℕ
divd = 78

abbrev pub divud : ℕ
divud = 79

abbrev pub remd : ℕ
remd = 80

abbrev pub remud : ℕ
remud = 81

abbrev pub lr_w : ℕ
lr_w = 82

abbrev pub sc_w : ℕ
sc_w = 83

abbrev pub amoswap_w : ℕ
amoswap_w = 84

abbrev pub amoadd_w : ℕ
amoadd_w = 85

abbrev pub amoxor_w : ℕ
amoxor_w = 86

abbrev pub amoor_w : ℕ
amoor_w = 87

abbrev pub amoand_w : ℕ
amoand_w = 88

abbrev pub amomin_w : ℕ
amomin_w = 89

abbrev pub amomax_w : ℕ
amomax_w = 90

abbrev pub amominu_w : ℕ
amominu_w = 91

abbrev pub amomaxu_w : ℕ
amomaxu_w = 92

abbrev pub lr_d : ℕ
lr_d = 93

abbrev pub sc_d : ℕ
sc_d = 94

abbrev pub amoswap_d : ℕ
amoswap_d = 95

abbrev pub amoadd_d : ℕ
amoadd_d = 96

abbrev pub amoxor_d : ℕ
amoxor_d = 97

abbrev pub amoor_d : ℕ
amoor_d = 98

abbrev pub amoand_d : ℕ
amoand_d = 99

abbrev pub amomin_d : ℕ
amomin_d = 100

abbrev pub amomax_d : ℕ
amomax_d = 101

abbrev pub amominu_d : ℕ
amominu_d = 102

abbrev pub amomaxu_d : ℕ
amomaxu_d = 103

abbrev pub lr_q : ℕ
lr_q = 104

abbrev pub sc_q : ℕ
sc_q = 105

abbrev pub amoswap_q : ℕ
amoswap_q = 106

abbrev pub amoadd_q : ℕ
amoadd_q = 107

abbrev pub amoxor_q : ℕ
amoxor_q = 108

abbrev pub amoor_q : ℕ
amoor_q = 109

abbrev pub amoand_q : ℕ
amoand_q = 110

abbrev pub amomin_q : ℕ
amomin_q = 111

abbrev pub amomax_q : ℕ
amomax_q = 112

abbrev pub amominu_q : ℕ
amominu_q = 113

abbrev pub amomaxu_q : ℕ
amomaxu_q = 114

abbrev pub ecall : ℕ
ecall = 115

abbrev pub uret : ℕ
uret = 117

abbrev pub sret : ℕ
sret = 118

abbrev pub hret : ℕ
hret = 119

abbrev pub mret : ℕ
mret = 120

abbrev pub dret : ℕ
dret = 121

abbrev pub sfence_vm : ℕ
sfence_vm = 122

abbrev pub sfence_vma : ℕ
sfence_vma = 123

abbrev pub wfi : ℕ
wfi = 124

abbrev pub csrrc : ℕ
csrrc = 127

abbrev pub csrrsi : ℕ
csrrsi = 129

abbrev pub csrrci : ℕ
csrrci = 130
