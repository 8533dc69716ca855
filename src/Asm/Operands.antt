-- ===== src/Asm/Operands.antt =====
-- src/asm/operands.h: where each operand of an instruction stands.
use rv8_riscv_ckpt.Base.{ℕ, List, [], ◌∷◌, true, false}
use rv8_riscv_ckpt.Asm.Types.{BitRange, Segment, Operand}

abbrev range : ℕ → ℕ → BitRange
range n m = record { n = n; m = m }

abbrev seg : ℕ → ℕ → List BitRange → Segment
seg k l ranges = record { k = k; l = l; ranges = ranges }

abbrev simm : ℕ → List Segment → Operand
simm w segments = record { signed = true; bits = w; segments = segments }

abbrev uimm : ℕ → List Segment → Operand
uimm w segments = record { signed = false; bits = w; segments = segments }

unfoldable pub rd : Operand
rd = uimm 5 (seg 11 7 (range 4 0 ∷ []) ∷ [])

unfoldable pub rs1 : Operand
rs1 = uimm 5 (seg 19 15 (range 4 0 ∷ []) ∷ [])

unfoldable pub rs2 : Operand
rs2 = uimm 5 (seg 24 20 (range 4 0 ∷ []) ∷ [])

unfoldable pub rs3 : Operand
rs3 = uimm 5 (seg 31 27 (range 4 0 ∷ []) ∷ [])

unfoldable pub frd : Operand
frd = uimm 5 (seg 11 7 (range 4 0 ∷ []) ∷ [])

unfoldable pub frs1 : Operand
frs1 = uimm 5 (seg 19 15 (range 4 0 ∷ []) ∷ [])

unfoldable pub frs2 : Operand
frs2 = uimm 5 (seg 24 20 (range 4 0 ∷ []) ∷ [])

unfoldable pub frs3 : Operand
frs3 = uimm 5 (seg 31 27 (range 4 0 ∷ []) ∷ [])

unfoldable pub aq : Operand
aq = uimm 1 (seg 26 26 (range 0 0 ∷ []) ∷ [])

unfoldable pub rl : Operand
rl = uimm 1 (seg 25 25 (range 0 0 ∷ []) ∷ [])

unfoldable pub pred : Operand
pred = uimm 4 (seg 27 24 (range 3 0 ∷ []) ∷ [])

unfoldable pub succ : Operand
succ = uimm 4 (seg 23 20 (range 3 0 ∷ []) ∷ [])

unfoldable pub rm : Operand
rm = uimm 3 (seg 14 12 (range 2 0 ∷ []) ∷ [])

unfoldable pub imm20 : Operand
imm20 = simm 32 (seg 31 12 (range 31 12 ∷ []) ∷ [])

unfoldable pub oimm20 : Operand
oimm20 = simm 32 (seg 31 12 (range 31 12 ∷ []) ∷ [])

unfoldable pub jimm20 : Operand
jimm20 = simm 21 (seg 31 12 (range 20 20 ∷ range 10 1 ∷ range 11 11 ∷ range 19 12 ∷ []) ∷ [])

unfoldable pub imm12 : Operand
imm12 = simm 12 (seg 31 20 (range 11 0 ∷ []) ∷ [])

unfoldable pub oimm12 : Operand
oimm12 = simm 12 (seg 31 20 (range 11 0 ∷ []) ∷ [])

unfoldable pub csr12 : Operand
csr12 = uimm 12 (seg 31 20 (range 11 0 ∷ []) ∷ [])

unfoldable pub simm12 : Operand
simm12 = simm 12 (seg 31 25 (range 11 5 ∷ []) ∷ seg 11 7 (range 4 0 ∷ []) ∷ [])

unfoldable pub sbimm12 : Operand
sbimm12 =
    simm 13
      (seg 31 25 (range 12 12 ∷ range 10 5 ∷ []) ∷ seg 11 7 (range 4 1 ∷ range 11 11 ∷ []) ∷ [])

unfoldable pub zimm : Operand
zimm = uimm 5 (seg 19 15 (range 4 0 ∷ []) ∷ [])

unfoldable pub shamt5 : Operand
shamt5 = uimm 5 (seg 24 20 (range 4 0 ∷ []) ∷ [])

unfoldable pub shamt6 : Operand
shamt6 = uimm 6 (seg 25 20 (range 5 0 ∷ []) ∷ [])

unfoldable pub shamt7 : Operand
shamt7 = uimm 7 (seg 26 20 (range 6 0 ∷ []) ∷ [])

unfoldable pub crd0 : Operand
crd0 = uimm 1 (seg 12 12 (range 0 0 ∷ []) ∷ [])

unfoldable pub crdq : Operand
crdq = uimm 3 (seg 4 2 (range 2 0 ∷ []) ∷ [])

unfoldable pub crs1q : Operand
crs1q = uimm 3 (seg 9 7 (range 2 0 ∷ []) ∷ [])

unfoldable pub crs1rdq : Operand
crs1rdq = uimm 3 (seg 9 7 (range 2 0 ∷ []) ∷ [])

unfoldable pub crs2q : Operand
crs2q = uimm 3 (seg 4 2 (range 2 0 ∷ []) ∷ [])

unfoldable pub crd : Operand
crd = uimm 5 (seg 11 7 (range 4 0 ∷ []) ∷ [])

unfoldable pub crs1 : Operand
crs1 = uimm 5 (seg 11 7 (range 4 0 ∷ []) ∷ [])

unfoldable pub crs1rd : Operand
crs1rd = uimm 5 (seg 11 7 (range 4 0 ∷ []) ∷ [])

unfoldable pub crs2 : Operand
crs2 = uimm 5 (seg 6 2 (range 4 0 ∷ []) ∷ [])

unfoldable pub cfrdq : Operand
cfrdq = uimm 3 (seg 4 2 (range 2 0 ∷ []) ∷ [])

unfoldable pub cfrs2q : Operand
cfrs2q = uimm 3 (seg 4 2 (range 2 0 ∷ []) ∷ [])

unfoldable pub cfrs2 : Operand
cfrs2 = uimm 5 (seg 6 2 (range 4 0 ∷ []) ∷ [])

unfoldable pub cfrd : Operand
cfrd = uimm 5 (seg 11 7 (range 4 0 ∷ []) ∷ [])

unfoldable pub cimmsh5 : Operand
cimmsh5 = uimm 5 (seg 6 2 (range 4 0 ∷ []) ∷ [])

unfoldable pub cimmsh6 : Operand
cimmsh6 = uimm 6 (seg 12 12 (range 5 5 ∷ []) ∷ seg 6 2 (range 4 0 ∷ []) ∷ [])

unfoldable pub cimmi : Operand
cimmi = simm 6 (seg 12 12 (range 5 5 ∷ []) ∷ seg 6 2 (range 4 0 ∷ []) ∷ [])

unfoldable pub cnzimmi : Operand
cnzimmi = simm 6 (seg 12 12 (range 5 5 ∷ []) ∷ seg 6 2 (range 4 0 ∷ []) ∷ [])

unfoldable pub cimmui : Operand
cimmui = simm 18 (seg 12 12 (range 17 17 ∷ []) ∷ seg 6 2 (range 16 12 ∷ []) ∷ [])

unfoldable pub cimmlwsp : Operand
cimmlwsp = uimm 8 (seg 12 12 (range 5 5 ∷ []) ∷ seg 6 2 (range 4 2 ∷ range 7 6 ∷ []) ∷ [])

unfoldable pub cimmldsp : Operand
cimmldsp = uimm 9 (seg 12 12 (range 5 5 ∷ []) ∷ seg 6 2 (range 4 3 ∷ range 8 6 ∷ []) ∷ [])

unfoldable pub cimmlqsp : Operand
cimmlqsp = uimm 10 (seg 12 12 (range 5 5 ∷ []) ∷ seg 6 2 (range 4 4 ∷ range 9 6 ∷ []) ∷ [])

unfoldable pub cimm16sp : Operand
cimm16sp =
    simm 10 (
      seg 12 12 (range 9 9 ∷ [])
      ∷ seg 6 2 (range 4 4 ∷ range 6 6 ∷ range 8 7 ∷ range 5 5 ∷ [])
      ∷ [])

unfoldable pub cimmj : Operand
cimmj = simm 12 (
    seg 12 2 (
      range 11 11
      ∷ range 4 4
      ∷ range 9 8
      ∷ range 10 10
      ∷ range 6 6
      ∷ range 7 7
      ∷ range 3 1
      ∷ range 5 5
      ∷ [])
    ∷ [])

unfoldable pub cimmb : Operand
cimmb =
    simm 9 (
      seg 12 10 (range 8 8 ∷ range 4 3 ∷ [])
      ∷ seg 6 2 (range 7 6 ∷ range 2 1 ∷ range 5 5 ∷ [])
      ∷ [])

unfoldable pub cimmswsp : Operand
cimmswsp = uimm 8 (seg 12 7 (range 5 2 ∷ range 7 6 ∷ []) ∷ [])

unfoldable pub cimmsdsp : Operand
cimmsdsp = uimm 9 (seg 12 7 (range 5 3 ∷ range 8 6 ∷ []) ∷ [])

unfoldable pub cimmsqsp : Operand
cimmsqsp = uimm 10 (seg 12 7 (range 5 4 ∷ range 9 6 ∷ []) ∷ [])

unfoldable pub cimm4spn : Operand
cimm4spn = uimm 10 (seg 12 5 (range 5 4 ∷ range 9 6 ∷ range 2 2 ∷ range 3 3 ∷ []) ∷ [])

unfoldable pub cimmw : Operand
cimmw = uimm 7 (seg 12 10 (range 5 3 ∷ []) ∷ seg 6 5 (range 2 2 ∷ range 6 6 ∷ []) ∷ [])

unfoldable pub cimmd : Operand
cimmd = uimm 8 (seg 12 10 (range 5 3 ∷ []) ∷ seg 6 5 (range 7 6 ∷ []) ∷ [])

unfoldable pub cimmq : Operand
cimmq = uimm 9 (seg 12 10 (range 5 4 ∷ range 8 8 ∷ []) ∷ seg 6 5 (range 7 6 ∷ []) ∷ [])
