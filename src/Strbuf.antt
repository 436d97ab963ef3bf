-- ===== src/Strbuf.antt =====
-- The growing byte buffer of C/src/gbf_util.c (gbf_strbuf_t). `data` is the allocated block: its
-- length is the block's size. A write past the block is undefined behaviour, the outcome
-- `overrun`. Whether realloc succeeds at a size is the argument `alloc`; what a fresh part of the
-- block holds is not specified, and the argument `fresh` says it.
pub mod Growth
pub mod Append
pub mod Overrun
pub mod Content
use gbin.Prelude.{
  ℕ, zero, suc, ◌+◌, ◌*◌, ◌%◌, ◌^◌, Bool, true, false, List, [], ◌∷◌, ◌++◌, Option, none, some,
  Bytes, length, take, drop, leb, ltb, ◌==◌, if◌then◌else◌, c_str, ◌-◌,
}
use gbin.Word.{add64, mul64}

pub record StrBuf : Type 0 where
  pub block : Bytes
  pub len : ℕ
  pub cap : ℕ

-- `returns r sb`: the call returns r and leaves sb. `overrun`: it writes past the block.
-- `stuck`: the doubling loop does not end.
pub data Run : Type 0 where
  returns : Bool → StrBuf → Run
  overrun stuck : Run

-- What realloc does with the old block of a buffer when the size is the new one.
pub record Heap : Type 0 where
  pub alloc : ℕ → Bool
  pub fresh : ℕ → ℕ

unfoldable pub init : StrBuf
init = record { block = []; len = 0; cap = 0 }

-- gbf_sb_free of a buffer that is not NULL.
unfoldable pub release : StrBuf → StrBuf
unfolding init
release sb = init

-- `while (cap < need) cap *= 2;`, in size_t, with fuel.
unfoldable pub grow : ℕ → ℕ → ℕ → Option ℕ
grow zero cap need = none
grow (suc f) cap need =
    let more = grow f (mul64 cap 2) need in if ltb cap need then more else some cap

abbrev pub grow_fuel : ℕ
grow_fuel = 65

-- The first n bytes of fresh memory.
abbrev fill : (ℕ → ℕ) → ℕ → Bytes
fill fresh zero = []
fill fresh (suc n) = fresh n ∷ fill fresh n

unfoldable pub realloc_block : Heap → Bytes → ℕ → Bytes
realloc_block h b n = take n b ++ fill h.fresh (n - length b)

unfoldable pub resize : Heap → StrBuf → ℕ → Run
unfolding realloc_block
resize h sb cap =
    if h.alloc cap
    then returns true (record { block = realloc_block h sb.block cap; len = sb.len; cap = cap })
    else returns false sb

abbrev pub resize_to : Heap → StrBuf → Option ℕ → Run
resize_to h sb none = stuck
resize_to h sb (some cap) = resize h sb cap

unfoldable pub reserve : Heap → StrBuf → ℕ → Run
reserve h sb extra =
    let need = add64 sb.len extra in
    if leb need sb.cap
    then returns true sb
    else resize_to h sb (grow grow_fuel (if sb.cap == 0 then 64 else sb.cap) need)

-- Go on with the buffer if the call returned 1.
abbrev pub and_then : Run → (StrBuf → Run) → Run
and_then (returns true sb) k = k sb
and_then (returns false sb) k = returns false sb
and_then overrun k = overrun
and_then stuck k = stuck

-- memcpy(data + i, p, n)
unfoldable pub write_at : Bytes → ℕ → Bytes → Option Bytes
write_at b i p =
    if leb (i + length p) (length b) then some (take i b ++ (p ++ drop (i + length p) b)) else none

abbrev pub written : StrBuf → ℕ → Option Bytes → Run
written sb n none = overrun
written sb n (some b) = returns true (record { block = b; len = add64 sb.len n; cap = sb.cap })

-- Write `p` at the end, and add n to the length.
abbrev pub put_back : StrBuf → Bytes → ℕ → Run
put_back sb p n = written sb n (write_at sb.block sb.len p)

unfoldable pub append_byte : Heap → StrBuf → ℕ → Run
append_byte h sb c = and_then (reserve h sb 1) (λ sb'. put_back sb' (c ∷ []) 1)

unfoldable pub append_mem : Heap → StrBuf → Bytes → Run
append_mem h sb p =
    if length p == 0
    then returns true sb
    else and_then (reserve h sb (length p)) (λ sb'. put_back sb' p (length p))

-- A NULL string appends nothing; strlen stops at the first NUL.
unfoldable pub append_str : Heap → StrBuf → Option Bytes → Run
append_str h sb none = returns true sb
append_str h sb (some s) = append_mem h sb (c_str s)

-- `text` is what the format prints. The second vsnprintf writes it with its NUL.
unfoldable pub append_fmt : Heap → StrBuf → Bytes → Run
append_fmt h sb text =
    and_then (reserve h sb (length text)) (λ sb'. put_back sb' (text ++ 0 ∷ []) (length text))
