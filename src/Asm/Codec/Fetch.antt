-- ===== src/Asm/Codec/Fetch.antt =====
-- src/asm/codec.h: `inst_fetch` reads as many bytes as `inst_length` says.
use rv8_riscv_ckpt.Base.{
  ap, ℕ, zero, suc, ◌+◌, ◌*◌, ◌^◌, ◌<◌, bit_and, bit_or, ◌≡◌, arith, bit_and-ones, bit_or_above,
}
use rv8_riscv_ckpt.Asm.Codec.{inst_length, inst_fetch, load16, load32}

-- The number that `n` bytes from `a` on stand for, the lowest first.
abbrev pub little_endian : (ℕ → ℕ) → ℕ → ℕ → ℕ
little_endian mem a zero = 0
little_endian mem a (suc n) = mem a + 2 ^ 8 * little_endian mem (a + 1) n

module _ (mem : ℕ → ℕ) where
  word : (a : ℕ) → load32 mem a ≡ little_endian mem a 4
  word a =
      let e2 : mem (a + 2) ≡ mem (a + 1 + 1) = ap mem (omega arith) in
      let e3 : mem (a + 2 + 1) ≡ mem (a + 1 + 1 + 1) = ap mem (omega arith) in omega arith

  -- The bytes from `a` on, and those from `a + 4` on above them.
  two_words :
      (a n : ℕ)
      → little_endian mem a 4 + little_endian mem (a + 4) n * 2 ^ 32
        ≡ little_endian mem a (suc (suc (suc (suc n))))
  two_words a n =
      let e : little_endian mem (a + 4) n ≡ little_endian mem (a + 1 + 1 + 1 + 1) n =
        ap (λ (b : ℕ). little_endian mem b n) (omega arith) in
      omega arith

  module _ (a : ℕ) (byte : (b : ℕ) → mem b < 2 ^ 8) where
    low_half : bit_and (load32 mem a) 0xffff ≡ little_endian mem a 2
    low_half = let m = bit_and-ones 16 (load32 mem a) in omega (arith, m, byte a, byte (a + 1))

    fits : load32 mem a < 2 ^ 32
    fits = omega (arith, byte a, byte (a + 1), byte (a + 2), byte (a + 2 + 1))

    three_halves : bit_or (load32 mem a) (load16 mem (a + 4) * 2 ^ 32) ≡ little_endian mem a 6
    three_halves =
        omega
          (arith, bit_or_above 32 (load32 mem a) (load16 mem (a + 4)) fits, word a, two_words a 2)

    four_halves : bit_or (load32 mem a) (load32 mem (a + 4) * 2 ^ 32) ≡ little_endian mem a 8
    four_halves = omega (
      arith,
      bit_or_above 32 (load32 mem a) (load32 mem (a + 4)) fits,
      word a,
      word (a + 4),
      two_words a 4,
    )

    -- The fetch reads the bytes that the length of the instruction asks for and no more, and returns
    -- the number that they stand for beside that length, which is 0 for a word that no length fits.
    pub inst_fetch-little_endian :
        inst_fetch mem a
        ≡ (little_endian mem a (inst_length (load32 mem a)), inst_length (load32 mem a))
    unfolding inst_fetch inst_length
    inst_fetch-little_endian = ground (arith, word a, low_half, three_halves, four_halves)
