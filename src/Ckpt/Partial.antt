-- ===== src/Ckpt/Partial.antt =====
-- src/util/fmt.h: the fetch of an instruction of which a part is recorded.
use rv8_riscv_ckpt.Base.{
  ℕ, zero, suc, ◌+◌, ◌^◌, false, ◌==◌, bit_and, ◌≡◌, ◌≢◌, refl, ◌∙◌, Bool-cases, inl, inr, arith,
}
use rv8_riscv_ckpt.Ckpt.Page.{PageRec, byte, put}
use rv8_riscv_ckpt.Ckpt.Seen.{within, recorded_in, recorded_in-put}
use rv8_riscv_ckpt.Ckpt.Fetch.{put_marked}

pub recorded_in-put_marked :
    (n i mask offset inst : ℕ) (page : PageRec) (o : ℕ)
    → o ≢ offset
    → recorded_in (put_marked n i mask offset inst page) o ≡ recorded_in page o
unfolding put_marked
recorded_in-put_marked zero i mask offset inst page o h = refl
recorded_in-put_marked (suc n) i mask offset inst page o h =
    elim (Bool-cases (bit_and mask (2 ^ i) == 0)) [
      | inl clear ↦
          rw (clear, put_marked) (recorded_in-put_marked n (i + 1) mask offset inst page o h)
      | inr marked ↦
          let away : within 1 offset o ≡ false = ground arith in
          rw (marked, put_marked)
            (recorded_in-put_marked n (i + 1) mask offset inst (put 1 page offset (byte inst i)) o h
              ∙ recorded_in-put 1 page offset (byte inst i) o (omega arith)
              ∙ rw away refl)
    ]
