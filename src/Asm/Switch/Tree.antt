-- ===== src/Asm/Switch/Tree.antt =====
-- src/asm/switch.h: the shape of `decode_inst_op`, switches on bits of the instruction.
use rv8_riscv_ckpt.Base.{ℕ, ◌/◌, ◌^◌, Bool, ◌==◌, if◌then◌else◌, bit_and, bit_or, List, [], ◌∷◌}

-- The template parameters.
pub record Isa : Type 0 where
  pub rv32 : Bool
  pub rv64 : Bool
  pub rv128 : Bool
  pub rvi : Bool
  pub rvm : Bool
  pub rva : Bool
  pub rvs : Bool
  pub rvf : Bool
  pub rvd : Bool
  pub rvq : Bool
  pub rvc : Bool

-- `rv_op_illegal`.
abbrev pub illegal : ℕ
illegal = 0

-- A place that gives `op` its value, or a `switch` on parts of the instruction, each a shift to the
-- right and a mask.
mutual
  pub data Tree : Type 0 where
    op : ℕ → Tree
    choice : List (ℕ × ℕ) → Cases → Tree

  -- `default`, which leaves `op` alone where the source has none, and a `case` before others.
  pub data Cases : Type 0 where
    otherwise : Tree → Cases
    case : ℕ → Tree → Cases → Cases

abbrev pub with_cases : List (ℕ × Tree) → Tree → Cases
with_cases [] t = Cases.otherwise t
with_cases ((k, t) ∷ cs) d = Cases.case k t (with_cases cs d)

abbrev pub switch : List (ℕ × ℕ) → List (ℕ × Tree) → Tree → Tree
switch parts cases t = Tree.choice parts (with_cases cases t)

-- `((inst >> a) & m) | ...`.
unfoldable pub select : List (ℕ × ℕ) → ℕ → ℕ
select [] inst = 0
select ((shift, m) ∷ parts) inst = bit_or (bit_and (inst / 2 ^ shift) m) (select parts inst)

-- The opcode that the switches come to.
unfoldable mutual
  pub find : Tree → ℕ → ℕ
  find (Tree.op o) inst = o
  find (Tree.choice parts cs) inst = choose cs (select parts inst) inst

  pub choose : Cases → ℕ → ℕ → ℕ
  choose (Cases.otherwise t) key inst = find t inst
  choose (Cases.case k t cs) key inst = if key == k then find t inst else choose cs key inst
