-- ===== src/Codec.antt =====
-- The payload codec of C/src/gbf.c: readers over a byte cursor and writers that append. A cursor
-- `*p` with its `end` is the list of the bytes from *p to end. A writer returns the bytes of the
-- buffer after the call; an allocation that fails is left out here (see Strbuf).
pub mod Encode
pub mod Decode
pub mod Describe
pub mod Elements
pub mod RoundTrip
pub mod Overflow
use gbin.Prelude.{
  ℕ, zero, suc, ◌+◌, ◌<◌, ◌++◌, Bytes, List, [], ◌∷◌, Option, none, some, Bool, length, take, drop,
  ltb, if◌then◌else◌, c_str, or_default, ◌==◌,
}
use gbin.Word.{u32_max, le_u32, le_i32, le_i64, store_le_u32, store_le_i32, store_le_i64}
use gbin.Value.{CalendarEntry}

-- A reader returns what it read and the cursor after it, or 0.
abbrev pub Reader : Type 0 → Type 0
Reader A = Bytes → Option (A × Bytes)

unfoldable pub read_u32 : Reader ℕ
read_u32 p = if ltb (length p) 4 then none else some (le_u32 p, drop 4 p)

unfoldable pub read_i32 : Reader ℕ
read_i32 p = if ltb (length p) 4 then none else some (le_i32 p, drop 4 p)

unfoldable pub read_i64 : Reader ℕ
read_i64 p = if ltb (length p) 8 then none else some (le_i64 p, drop 8 p)

infixl 5 ◌>>=◌
abbrev pub ◌>>=◌ : {A B : Type 0} → Option A → (A → Option B) → Option B
none >>= f = none
some a >>= f = f a

-- The bytes of a string as a `char*` shows them: up to the first NUL.
unfoldable pub read_str_u32len : Reader Bytes
read_str_u32len p = do
  (n, q) ← read_u32 p
  if ltb (length q) n then none else some (c_str (take n q), drop n q)

-- `for (i < n)` reading one element a round.
unfoldable pub read_many : {A : Type 0} → Reader A → ℕ → Reader (List A)
read_many r zero p = some ([], p)
read_many r (suc n) p = do (a, q) ← r p; (rest, end) ← read_many r n q; some (a ∷ rest, end)

unfoldable pub read_entry : Reader CalendarEntry
read_entry p = do
  (m, p1) ← read_i32 p
  (d, p2) ← read_i32 p1
  (t, p3) ← read_i64 p2
  some (record { months = m; days = d; time_ms = t }, p3)

unfoldable pub encode_u32 : Bytes → ℕ → Bytes
encode_u32 sb v = sb ++ store_le_u32 v

unfoldable pub encode_i32 : Bytes → ℕ → Bytes
encode_i32 sb v = sb ++ store_le_i32 v

unfoldable pub encode_i64 : Bytes → ℕ → Bytes
encode_i64 sb v = sb ++ store_le_i64 v

-- `none` where the function returns 0: the string does not fit a u32 length. A NULL has length 0.
unfoldable pub encode_str_u32len : Bytes → Option Bytes → Option Bytes
encode_str_u32len sb s =
    let text = or_default s [] in
    if ltb u32_max (length text) then none else some (encode_u32 sb (length text) ++ text)

unfoldable pub encode_all_i64 : Bytes → List ℕ → Bytes
encode_all_i64 sb [] = sb
encode_all_i64 sb (x ∷ xs) = encode_all_i64 (encode_i64 sb x) xs

unfoldable pub encode_all_u32 : Bytes → List ℕ → Bytes
encode_all_u32 sb [] = sb
encode_all_u32 sb (x ∷ xs) = encode_all_u32 (encode_u32 sb x) xs

unfoldable pub encode_entries : Bytes → List CalendarEntry → Bytes
encode_entries sb [] = sb
encode_entries sb (e ∷ es) =
    encode_entries (encode_i64 (encode_i32 (encode_i32 sb e.months) e.days) e.time_ms) es
