-- ===== src/Ckpt/Replay/Access.antt =====
-- src/util/fmt.h and src/emu/mmu-proxy.h: one access of a program that is run again.
use rv8_riscv_ckpt.Base.{
  Bool, ◌⊎◌, ℕ, zero, suc, ◌+◌, ◌-◌, ◌*◌, ◌/◌, ◌%◌, ◌<◌, true, false, ◌≡◌, refl, sym, ap, ◌∙◌,
  Bool-cases, Option-cases, inl, inr, Option, none, some, arith,
}
use rv8_riscv_ckpt.Ckpt.Page.{byte, store_bytes}
use rv8_riscv_ckpt.Ckpt.Seen.{within}
use rv8_riscv_ckpt.Ckpt.Mem.{MemTrace}
use rv8_riscv_ckpt.Ckpt.Recorded.{recorded, first_access, or_else_none}
use rv8_riscv_ckpt.Ckpt.Load.{Records}
use rv8_riscv_ckpt.Ckpt.Proxy.{read}

pub byte-read : (n i : ℕ) (m : ℕ → ℕ) (a : ℕ) → i < n → byte (read n m a) i ≡ m (a + i) % 256
unfolding byte read
byte-read zero i m a h = absurd (omega arith)
byte-read (suc n) zero m a h = let e : a + 0 ≡ a = omega arith in rw e (omega arith)
byte-read (suc n) (suc i) m a h =
    let e : (m a % 256 + 256 * read n m (a + 1)) / 256 ≡ read n m (a + 1) = omega arith in
    let f : a + suc i ≡ a + 1 + i = omega arith in rw (e, f) (byte-read n i m (a + 1) (omega arith))

pub read_cong :
    (n : ℕ) (m m' : ℕ → ℕ) (a : ℕ)
    → ((i : ℕ) → i < n → m (a + i) % 256 ≡ m' (a + i) % 256)
    → read n m a ≡ read n m' a
unfolding read
read_cong zero m m' a h = refl
read_cong (suc n) m m' a h =
    let e : a + 0 ≡ a = omega arith in
    let first : m a % 256 ≡ m' a % 256 =
      ap (λ b. m b % 256) (sym e) ∙ h 0 (omega arith) ∙ ap (λ b. m' b % 256) e in
    let rest : read n m (a + 1) ≡ read n m' (a + 1) = read_cong n m m' (a + 1) λ i b.
      let f : a + suc i ≡ a + 1 + i = omega arith in
      ap (λ c. m c % 256) (sym f) ∙ h (suc i) (omega arith) ∙ ap (λ c. m' c % 256) f in
    omega (arith, first, rest)

-- A byte of an access is recorded after it, and one that was recorded keeps its value.
inside-first_access :
    (size addr val : ℕ) (r : ℕ → Option ℕ) (a : ℕ)
    → within size addr a ≡ true
    → (v : ℕ) × (first_access size addr val r a ≡ some v)
unfolding first_access
inside-first_access size addr val r a h = rw h (elim (Option-cases (r a)) [
  | inl missing ↦ rw missing (byte val (a - addr), refl)
  | inr there ↦ rw there.1 (there.0, refl)
])

-- What is recorded after an access was recorded before, or it is the byte of a new address.
first_access-cases :
    (size addr val : ℕ) (r : ℕ → Option ℕ) (a v : ℕ)
    → first_access size addr val r a ≡ some v
    → (r a ≡ some v) ⊎ ((r a ≡ none) × (within size addr a ≡ true) × (v ≡ byte val (a - addr)))
unfolding first_access
first_access-cases size addr val r a v h = elim (Option-cases (r a)) [
  | inl missing ↦ ground arith
  | inr there ↦ ground arith
]

outside-first_access :
    (size addr val : ℕ) (r : ℕ → Option ℕ) (a : ℕ)
    → within size addr a ≡ false
    → first_access size addr val r a ≡ r a
unfolding first_access
outside-first_access size addr val r a h = rw h (or_else_none (r a))

none-first_access :
    (size addr val : ℕ) (r : ℕ → Option ℕ) (a : ℕ)
    → first_access size addr val r a ≡ none
    → (r a ≡ none) × (within size addr a ≡ false)
unfolding first_access
none-first_access size addr val r a h = elim (Option-cases (r a)) [
  | inl missing ↦ ground arith
  | inr there ↦ ground arith
]

-- The bytes of an access are all of one kind.
abbrev pub AllAre : (ℕ → Bool) → Bool → ℕ → ℕ → Type 0
AllAre code kind size addr = (a : ℕ) → within size addr a ≡ true → code a ≡ kind

module _ (code : ℕ → Bool) where
  -- Every byte of data that is recorded in the first trace is recorded in the second.
  abbrev pub Keeps : MemTrace → MemTrace → Type 0
  Keeps t t' = (a v : ℕ) → code a ≡ false → recorded t a ≡ some v → recorded t' a ≡ some v

  -- Two memories agree on the bytes of data that are recorded.
  abbrev pub Agrees : MemTrace → (ℕ → ℕ) → (ℕ → ℕ) → Type 0
  Agrees t m m' = (a v : ℕ) → code a ≡ false → recorded t a ≡ some v → m a % 256 ≡ m' a % 256

  -- A memory holds the bytes of data that a later trace has and an earlier one has not.
  abbrev pub Restores : MemTrace → MemTrace → (ℕ → ℕ) → Type 0
  Restores t t' m =
      (a v : ℕ)
      → code a ≡ false
      → recorded t a ≡ none
      → recorded t' a ≡ some v
      → m a % 256 ≡ v % 256

  -- The two traces hold the same bytes of data.
  abbrev pub SameData : MemTrace → MemTrace → Type 0
  SameData t t' = (a : ℕ) → code a ≡ false → recorded t' a ≡ recorded t a

  pub Keeps-Records :
      (size addr val : ℕ) (t t' : MemTrace) → Records size addr val t t' → Keeps t t'
  unfolding first_access
  Keeps-Records size addr val t t' h a v plain old = h.1 a ∙ rw old refl

  -- A value that was loaded while the trace was recorded is what the restored memory gives.
  pub Agrees-loaded :
      (size addr : ℕ) (t t1 t2 : MemTrace) (m m' : ℕ → ℕ)
      → Records size addr (read size m addr) t t1
      → Keeps t1 t2
      → Agrees t m m'
      → Restores t t2 m'
      → Agrees t1 m m'
  Agrees-loaded size addr t t1 t2 m m' h kept agrees restores a v plain now =
      elim (first_access-cases size addr (read size m addr) (recorded t) a v (sym (h.1 a) ∙ now)) [
        | inl before ↦ agrees a v plain before
        | inr new ↦
            let e : addr + (a - addr) ≡ a = ground arith in
            let i : a - addr < size = ground arith in
            let held : v ≡ m a % 256 =
              new.2 ∙ byte-read size (a - addr) m addr i ∙ ap (λ b. m b % 256) e in
            let restored : m' a % 256 ≡ v % 256 = restores a v plain new.0 (kept a v plain now) in
            omega (arith, held, restored)
      ]

  pub read-Agrees :
      (size addr val : ℕ) (t t1 : MemTrace) (m m' : ℕ → ℕ)
      → AllAre code false size addr
      → Records size addr val t t1
      → Agrees t1 m m'
      → read size m addr ≡ read size m' addr
  read-Agrees size addr val t t1 m m' plain h agrees = read_cong size m m' addr λ i b.
      let inside : within size addr (addr + i) ≡ true = ground arith in
      let held = inside-first_access size addr val (recorded t) (addr + i) inside in
      agrees (addr + i) held.0 (plain (addr + i) inside) (h.1 (addr + i) ∙ held.1)

  pub Agrees-stored :
      (size addr val val' : ℕ) (t t1 : MemTrace) (m m' : ℕ → ℕ)
      → Records size addr val' t t1
      → Agrees t m m'
      → Agrees t1 (store_bytes size m addr val) (store_bytes size m' addr val)
  Agrees-stored size addr val val' t t1 m m' h agrees a v plain now =
      elim (Bool-cases (within size addr a)) [
        | inl inside ↦ rw inside refl
        | inr outside ↦ rw outside (
            agrees a v plain (
              sym (outside-first_access size addr val' (recorded t) a outside) ∙ sym (h.1 a) ∙ now))
      ]

  pub Restores-Records :
      (size addr val : ℕ) (t t1 t2 : MemTrace) (m : ℕ → ℕ)
      → Records size addr val t t1
      → Restores t t2 m
      → Restores t1 t2 m
  Restores-Records size addr val t t1 t2 m h restores a v plain missing =
      restores a v plain (none-first_access size addr val (recorded t) a (sym (h.1 a) ∙ missing)).0

  pub Restores-stored :
      (size addr val val' : ℕ) (t t1 t2 : MemTrace) (m : ℕ → ℕ)
      → Records size addr val' t t1
      → Restores t t2 m
      → Restores t1 t2 (store_bytes size m addr val)
  Restores-stored size addr val val' t t1 t2 m h restores a v plain missing later =
      let old = none-first_access size addr val' (recorded t) a (sym (h.1 a) ∙ missing) in
      rw old.1 (restores a v plain old.0 later)
