-- ===== src/Ckpt/Mem.antt =====
-- src/util/fmt.h: `MemTrace`, the record of the memory that a checkpoint needs.
use rv8_riscv_ckpt.Base.{
  assign, ℕ, zero, suc, ◌+◌, ◌-◌, ◌/◌, ◌%◌, ◌^◌, ◌&&◌, ◌==◌, if◌then◌else◌, bit_and, bit_xor,
  Option, none, some,
}
use rv8_riscv_ckpt.Ckpt.Page.{PageRec, new_page, size_mask, check, put}

pub record StoreRec : Type 0 where
  pub addr : ℕ
  pub size : ℕ

-- `PtrCache`. A pointer to a record is its page number, since no record is deleted or moved while
-- the trace lives, and `none` is `NULL`.
pub record PtrCache : Type 0 where
  pub idx : ℕ
  pub ptr : Option ℕ

abbrev pub new_cache : PtrCache
new_cache = record { idx = 0; ptr = none }

-- `ExecRec`: the counters of the instructions of a page.
abbrev pub ExecRec : Type 0
ExecRec = ℕ → ℕ

-- `MemTrace`; the maps give `none` for a page without a record.
pub record MemTrace : Type 0 where
  pub pages : ℕ → Option PageRec
  pub execs : ℕ → Option ExecRec
  pub stores : ℕ → StoreRec
  pub fetch_cache : PtrCache
  pub load_cache : PtrCache
  pub exec_cache : PtrCache

abbrev pub new_trace : MemTrace
new_trace = record {
  pages = λ _. none;
  execs = λ _. none;
  stores = λ _. record { addr = 0; size = 0 };
  fetch_cache = new_cache;
  load_cache = new_cache;
  exec_cache = new_cache;
}

-- `if (page == NULL)` of `get_page(pn)`.
abbrev pub add_missing : Option PageRec → ℕ → MemTrace → MemTrace
add_missing none pn t = record t { pages = assign t.pages pn (some new_page) }
add_missing (some page) pn t = t

unfoldable pub add_page : ℕ → MemTrace → MemTrace
add_page pn t = add_missing (t.pages pn) pn t

-- `get_page(pn, cache)`: the cache after it, whose pointer is returned.
unfoldable pub get_page : ℕ → PtrCache → MemTrace → PtrCache × MemTrace
get_page pn cache t =
    if pn == cache.idx then (cache, t) else (record { idx = pn; ptr = some pn }, add_page pn t)

unfoldable pub get_load_page : ℕ → MemTrace → Option ℕ × MemTrace
get_load_page pn t =
    let found = get_page pn t.load_cache t in (found.0.ptr, record found.1 { load_cache = found.0 })

-- The record behind a pointer; `none` is the fault of a null pointer.
abbrev pub deref : Option ℕ → MemTrace → Option PageRec
deref none t = none
deref (some n) t = t.pages n

-- A step that reads the record behind a pointer; a null pointer is a fault.
abbrev pub on_page : Option PageRec → (PageRec → Option MemTrace) → Option MemTrace
on_page none f = none
on_page (some page) f = f page

abbrev pub then_trace : Option MemTrace → (MemTrace → Option MemTrace) → Option MemTrace
then_trace none f = none
then_trace (some t) f = f t

-- The record behind a pointer, changed.
abbrev pub with_page : Option ℕ → PageRec → MemTrace → MemTrace
with_page none page t = t
with_page (some n) page t = record t { pages = assign t.pages n (some page) }

-- `if (page->check<char>(offset + i) == 0) page->put(offset + i, x.b[i])`.
unfoldable pub put_byte : Option ℕ → PageRec → ℕ → ℕ → MemTrace → MemTrace
put_byte ptr page pos x t =
    if check 1 page pos == 0 then with_page ptr (put 1 page pos (x % 256)) t else t

-- The loop of `load`, with the bytes to go, the page, `offset + i` and the rest of the value.
unfoldable pub load_bytes : ℕ → Option ℕ → ℕ → ℕ → ℕ → MemTrace → Option MemTrace
load_bytes zero ptr pn pos x t = some t
load_bytes (suc n) ptr pn pos x t =
    let next = get_load_page (pn + 1) t in
    let crosses = pos == 4096 in
    let ptr' = if crosses then next.0 else ptr in
    let pos' = if crosses then 0 else pos in
    let t' = if crosses then next.1 else t in
    on_page (deref ptr' t') λ page.
      load_bytes n ptr' (if crosses then pn + 1 else pn) (pos' + 1) (x / 256)
        (put_byte ptr' page pos' x t')

-- `load<T>`, for a `T` of that many bytes; `none` is the fault of a null pointer.
unfoldable pub load : ℕ → ℕ → ℕ → MemTrace → Option MemTrace
load size addr val t =
    let pn = addr / 2 ^ 12 in
    let found = get_load_page pn t in
    let offset = bit_and addr (2 ^ 12 - 1) in
    on_page (deref found.0 found.1) λ page.
      let aligned = bit_and offset (size - 1) == 0 in
      if aligned && check size page offset == 0
      then some (with_page found.0 (put size page offset val) found.1)
      else if aligned && check size page offset == size_mask size
      then some found.1
      else load_bytes size found.0 pn offset val found.1

-- The loop of `store`, which joins the bytes of the address.
unfoldable pub hash_bytes : ℕ → ℕ → ℕ → ℕ
hash_bytes zero hash shift = hash
hash_bytes (suc n) hash shift = hash_bytes n (bit_xor hash (bit_and shift 255)) (shift / 256)

unfoldable pub store : ℕ → ℕ → MemTrace → Option MemTrace
store size addr t = then_trace (load size addr 0 t) λ t'. some (record t' {
  stores = assign t'.stores (hash_bytes 8 0 addr) (record { addr = addr; size = size });
})
