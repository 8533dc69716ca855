-- ===== src/Ckpt/Page.antt =====
-- src/util/fmt.h: `PageRec`, the bytes of a page that a checkpoint has recorded.
use rv8_riscv_ckpt.Base.{
  assign, ℕ, zero, suc, ◌+◌, ◌-◌, ◌*◌, ◌/◌, ◌%◌, ◌^◌, ltb, leb, ◌&&◌, if◌then◌else◌, bit_and,
  bit_or,
}

-- Arrays are functions of their index; a `uint8_t` is a number below 256.
pub record PageRec : Type 0 where
  pub visited : ℕ → ℕ
  pub content : ℕ → ℕ

-- The bytes of a number, the lowest first, as the little-endian host stores them.
unfoldable pub byte : ℕ → ℕ → ℕ
byte x zero = x % 256
byte x (suc k) = byte (x / 256) k

-- `PageRec()`.
abbrev pub new_page : PageRec
new_page = record { visited = λ _. 0; content = λ _. 0 }

-- `(1 << sizeof(T)) - 1`.
abbrev pub size_mask : ℕ → ℕ
size_mask size = 2 ^ size - 1

unfoldable pub check : ℕ → PageRec → ℕ → ℕ
check size page offset = bit_and (page.visited (offset / 8) / 2 ^ (offset % 8)) (size_mask size)

-- `PageRec::set`. The assignment cuts the result to 8 bits.
unfoldable pub set_visited : ℕ → PageRec → ℕ → PageRec
set_visited size page offset =
    let bits = bit_or (page.visited (offset / 8)) (size_mask size * 2 ^ (offset % 8)) % 2 ^ 8 in
    record page { visited = assign page.visited (offset / 8) bits }

-- The store of a `T` in the bytes of an array.
abbrev pub store_bytes : ℕ → (ℕ → ℕ) → ℕ → ℕ → ℕ → ℕ
store_bytes size a offset val j =
    if leb offset j && ltb j (offset + size) then byte val (j - offset) else a j

unfoldable pub put : ℕ → PageRec → ℕ → ℕ → PageRec
put size page offset val = record (set_visited size page offset) {
  content = store_bytes size page.content offset val;
}
