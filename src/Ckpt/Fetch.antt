-- ===== src/Ckpt/Fetch.antt =====
-- src/util/fmt.h: the instructions that `MemTrace` records and counts.
use rv8_riscv_ckpt.Base.{
  assign, ℕ, zero, suc, ◌+◌, ◌-◌, ◌/◌, ◌%◌, ◌^◌, Bool, true, false, ◌&&◌, ◌==◌, if◌then◌else◌,
  bit_and, Option, none, some,
}
use rv8_riscv_ckpt.Ckpt.Page.{PageRec, byte, size_mask, check, put}
use rv8_riscv_ckpt.Ckpt.Mem.{MemTrace, ExecRec, get_page, deref, with_page}

-- The record that `get_exec(pn)` makes, when there is none yet.
abbrev pub add_missing_exec : Option ExecRec → ℕ → MemTrace → MemTrace
add_missing_exec none pn t = record t { execs = assign t.execs pn (some λ _. 0) }
add_missing_exec (some e) pn t = t

-- `get_exec_counter(addr)`, up to its last line.
unfoldable pub get_exec : ℕ → MemTrace → MemTrace
get_exec addr t =
    let pn = addr / 2 ^ 12 in
    if pn == t.exec_cache.idx then t else record (add_missing_exec (t.execs pn) pn t) {
      exec_cache = record { idx = pn; ptr = some pn };
    }

abbrev pub exec_of : Option ℕ → MemTrace → Option ExecRec
exec_of none t = none
exec_of (some n) t = t.execs n

-- `exec_cache.ptr->get(addr & 0xfff)`; `none` is the fault of a null pointer.
abbrev pub counter_in : Option ExecRec → ℕ → Option ℕ
counter_in none addr = none
counter_in (some e) addr = some (e (bit_and addr (2 ^ 12 - 1) / 2))

unfoldable pub get_exec_counter : ℕ → MemTrace → Option ℕ
get_exec_counter addr t = let t' = get_exec addr t in counter_in (exec_of t'.exec_cache.ptr t') addr

-- `get_exec_counter(addr)++`, of 32 bits.
abbrev pub counted : Option ExecRec → Option ℕ → ℕ → MemTrace → Option MemTrace
counted (some e) (some n) addr t =
    let i = bit_and addr (2 ^ 12 - 1) / 2 in
    some (record t { execs = assign t.execs n (some (assign e i ((e i + 1) % 2 ^ 32))) })
counted _ _ addr t = none

unfoldable pub count_exec : ℕ → MemTrace → Option MemTrace
count_exec addr t =
    let t' = get_exec addr t in counted (exec_of t'.exec_cache.ptr t') t'.exec_cache.ptr addr t'

-- The loop of `fetch<T>` over a range that is marked in part, with the bytes to go and `i`.
unfoldable pub put_marked : ℕ → ℕ → ℕ → ℕ → ℕ → PageRec → PageRec
put_marked zero i mask offset inst page = page
put_marked (suc n) i mask offset inst page =
    put_marked n (i + 1) mask offset inst
      (if bit_and mask (2 ^ i) == 0 then page else put 1 page offset (byte inst i))

-- `fetch<T>(page, offset, inst)`: whether the bytes are new, and the page after it.
unfoldable pub fetch_page : ℕ → PageRec → ℕ → ℕ → Bool × PageRec
fetch_page size page offset inst =
    let mask = check size page offset in
    if mask == 0
    then (true, put size page offset inst)
    else if mask == size_mask size
    then (false, page)
    else (false, put_marked size 0 mask offset inst page)

unfoldable pub get_fetch_page : ℕ → MemTrace → Option ℕ × MemTrace
get_fetch_page pn t =
    let found = get_page pn t.fetch_cache t in
    (found.0.ptr, record found.1 { fetch_cache = found.0 })

abbrev pub fetched : ℕ → Option ℕ → ℕ → ℕ → Option PageRec → MemTrace → Option (Bool × MemTrace)
fetched size ptr offset inst none t = none
fetched size ptr offset inst (some page) t =
    let r = fetch_page size page offset inst in some (r.0, with_page ptr r.1 t)

-- The fetch of a `T` in a page.
unfoldable pub fetch_at : ℕ → ℕ → ℕ → ℕ → MemTrace → Option (Bool × MemTrace)
fetch_at size pn offset inst t =
    let found = get_fetch_page pn t in
    fetched size found.0 offset inst (deref found.0 found.1) found.1

abbrev pub and_fetch :
    Option (Bool × MemTrace) → (MemTrace → Option (Bool × MemTrace)) → Option (Bool × MemTrace)
and_fetch none f = none
and_fetch (some (first1, t)) f = both (f t)
  where
    both : Option (Bool × MemTrace) → Option (Bool × MemTrace)
    both none = none
    both (some (first2, t')) = some (first1 && first2, t')

abbrev pub after_count :
    Option MemTrace → (MemTrace → Option (Bool × MemTrace)) → Option (Bool × MemTrace)
after_count none f = none
after_count (some t) f = f t

-- `fetch(addr, inst, length)`. The page of the first half is looked up again for the second one,
-- which finds it in the cache.
unfoldable pub fetch : ℕ → ℕ → ℕ → MemTrace → Option (Bool × MemTrace)
fetch addr inst length t = after_count (count_exec addr t) λ t1.
    let pn = addr / 2 ^ 12 in
    let offset = bit_and addr (2 ^ 12 - 1) in
    if length == 2
    then fetch_at 2 pn offset (inst % 2 ^ 16) t1
    else if bit_and addr 3 == 0
    then fetch_at 4 pn offset (inst % 2 ^ 32) t1
    else and_fetch (fetch_at 2 pn offset (inst % 2 ^ 16) t1) λ t2.
      if offset + 2 == 4096
      then fetch_at 2 (pn + 1) 0 (inst / 2 ^ 16 % 2 ^ 16) t2
      else fetch_at 2 pn (offset + 2) (inst / 2 ^ 16 % 2 ^ 16) t2

abbrev pub unmarked : Option PageRec → ℕ → MemTrace → Option (Bool × MemTrace)
unmarked none offset t = none
unmarked (some page) offset t = some (check 2 page offset == 0, t)

unfoldable pub prefetch : ℕ → ℕ → MemTrace → Option (Bool × MemTrace)
prefetch addr length t =
    let found = get_fetch_page (addr / 2 ^ 12) t in
    if length == 2
    then unmarked (deref found.0 found.1) (bit_and addr (2 ^ 12 - 1)) found.1
    else some (false, found.1)
