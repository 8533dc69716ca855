-- ===== src/Emu/Priv/Trap.antt =====
-- src/emu/processor-priv-1.9.h: traps and returns from them.
use rv8_riscv_ckpt.Base.{
  refl, false, ◌==◌, difference_back, some, ◌≢◌, Bool, ◌^◌, ◌%◌, ◌+◌, ◌<◌, ℕ, ◌≤◌, ◌≡◌, arith,
}
use rv8_riscv_ckpt.Emu.Priv.Field.{spp_shift, spie_shift, mpp_shift, mpie_shift, field, set_field}
use rv8_riscv_ckpt.Emu.Priv.{strap, sret, mtrap, mret, Priv}
use rv8_riscv_ckpt.Emu.Priv.Csr.{mstatus, mtvec, stvec, mepc, mcause, sepc, scause}

-- What a return from machine mode leaves of `mstatus`.
returned_mstatus :
    (x mode : ℕ)
    → mode ≤ 3
    → let t =
        set_field 3 1 0
          (set_field 7 1 (field 3 1 (set_field 11 2 mode x)) (set_field 11 2 mode x)) in
      (field 11 2 t ≡ mode) × (field 7 1 t ≡ field 3 1 x)
unfolding field set_field
returned_mstatus x mode h = (omega arith, omega arith)

m_round :
    (x mode : ℕ)
    → mode ≤ 3
    → let t = set_field 11 2 mode x in
      let u = set_field 3 1 0 (set_field 7 1 (field 3 1 t) t) in
      let v = set_field 11 2 0 u in
      (field 11 2 u ≡ mode)
      × (set_field 7 1 0 (set_field 3 1 (field 7 1 v) v) ≡ set_field 7 1 0 (set_field 11 2 0 x))
unfolding field set_field
m_round x mode h = (omega arith, omega arith)

s_round :
    (x mode : ℕ)
    → mode ≤ 1
    → let t = set_field 8 1 mode x in
      let u = set_field 1 1 0 (set_field 5 1 (field 1 1 t) t) in
      let v = set_field 8 1 0 u in
      (field 8 1 u ≡ mode)
      × (set_field 5 1 0 (set_field 1 1 (field 5 1 v) v) ≡ set_field 5 1 0 (set_field 8 1 0 x))
unfolding field set_field
s_round x mode h = (omega arith, omega arith)

-- What a trap and the return from it leave: the mode, the program counter, and every register but
-- those of the trap; `x` is what `mstatus` becomes.
abbrev pub Returns : ℕ → ℕ → ℕ → ℕ → Priv → ℕ × Priv → Type 0
Returns w epc cause x s r =
    (r.1.mode ≡ s.mode)
    × ((r.1.pc + r.0) % 2 ^ w ≡ s.pc)
    × (r.1.regs mstatus ≡ x)
    × ((n : ℕ) → n ≢ mstatus → n ≢ epc → n ≢ cause → r.1.regs n ≡ s.regs n)

-- A trap to machine mode and the return from it come back to the interrupted program counter and
-- mode, with `mstatus` as before but for the two fields of the trap, which are cleared: the interrupt
-- enable is restored. No other register changes than `mepc` and `mcause`. The same holds for a trap to
-- supervisor mode from user or supervisor mode, and its return. The program counter and the two trap
-- vectors fit a register.
pub mret-mtrap :
    (w cause : ℕ) (interrupt : Bool) (s : Priv)
    → s.mode ≤ 3
    → s.pc < 2 ^ w
    → s.regs mtvec < 2 ^ w
    → s.regs stvec < 2 ^ w
    → ((r : ℕ × Priv) × (mret w (mtrap w cause interrupt s) ≡ some r)
        × Returns w mepc mcause
            (set_field mpie_shift 1 0 (set_field mpp_shift 2 0 (s.regs mstatus)))
            s
            r)
      × ((s.mode ≤ 1)
          → (r : ℕ × Priv) × (sret w (strap w cause interrupt s) ≡ some r)
            × Returns w sepc scause
                (set_field spie_shift 1 0 (set_field spp_shift 1 0 (s.regs mstatus)))
                s
                r)
unfolding mret mtrap sret strap
mret-mtrap w cause interrupt s hm hpc hmt hst =
    let m = m_round (s.regs mstatus) s.mode hm in
    (
      (
        _,
        refl,
        (
          m.0,
          difference_back (2 ^ w) s.pc (s.regs mtvec) hpc hmt,
          m.1,
          λ n a b c.
              let e : (n == mstatus) ≡ false = ground arith in
              let f : (n == mepc) ≡ false = ground arith in
              let g : (n == mcause) ≡ false = ground arith in rw (e, f, g) refl,
        ),
      ),
      λ low.
          let l = s_round (s.regs mstatus) s.mode low in
          (
            _,
            refl,
            (
              l.0,
              difference_back (2 ^ w) s.pc (s.regs stvec) hpc hst,
              l.1,
              λ n a b c.
                  let e : (n == mstatus) ≡ false = ground arith in
                  let f : (n == sepc) ≡ false = ground arith in
                  let g : (n == scause) ≡ false = ground arith in rw (e, f, g) refl,
            ),
          ),
    )
