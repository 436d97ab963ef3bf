-- ===== src/Codec/Elements.antt =====
-- Each reader takes back what its writer appended, and loops of them do.
use gbin.Prelude.{
  ℕ, ◌≤◌, ◌≡◌, refl, sym, ap, ◌∙◌, arith, Bytes, List, [], ◌∷◌, ◌++◌, some, length, length-append,
  drop, ltb, le→ltb, All, IsCStr, c_str-IsCStr, append_assoc, append-nil, take-append, drop-append,
  false,
}
use gbin.Word.{
  u32_max, IsU32, IsU64, store_le_u32, store_le_u64, store_le_i32, store_le_i64, le_i32, le_i64,
}
use gbin.Word.Endian.{le_u32-store_le_u32, le_u64-store_le_u64}
use gbin.Value.{CalendarEntry}
use gbin.Codec.{
  Reader, read_u32, read_i32, read_i64, read_str_u32len, read_many, read_entry, encode_u32,
  encode_i32, encode_i64, encode_str_u32len, encode_all_i64, encode_all_u32, encode_entries,
}

-- `r` takes the print of `a` off the front of any bytes.
abbrev pub Reads : {A : Type 0} → Reader A → Bytes → A → Type 0
Reads r printed a = (rest : Bytes) → r (printed ++ rest) ≡ some (a, rest)

length_four : (v : ℕ) (rest : Bytes) → ltb (length (store_le_u32 v ++ rest)) 4 ≡ false
unfolding store_le_u32
length_four v rest = le→ltb _ 4 (omega arith)

drop_four : (v : ℕ) (rest : Bytes) → drop 4 (store_le_u32 v ++ rest) ≡ rest
unfolding store_le_u32
drop_four v rest = refl

length_eight : (v : ℕ) (rest : Bytes) → ltb (length (store_le_u64 v ++ rest)) 8 ≡ false
unfolding store_le_u64
length_eight v rest = le→ltb _ 8 (omega arith)

drop_eight : (v : ℕ) (rest : Bytes) → drop 8 (store_le_u64 v ++ rest) ≡ rest
unfolding store_le_u64
drop_eight v rest = refl

pub read_u32-Reads : (v : ℕ) → IsU32 v → Reads read_u32 (store_le_u32 v) v
unfolding read_u32
read_u32-Reads v h rest = rw (length_four v rest, le_u32-store_le_u32 v rest h, drop_four v rest)

pub read_i32-Reads : (v : ℕ) → IsU32 v → Reads read_i32 (store_le_i32 v) v
unfolding read_i32 le_i32 store_le_i32
read_i32-Reads v h rest = rw (length_four v rest, le_u32-store_le_u32 v rest h, drop_four v rest)

pub read_i64-Reads : (v : ℕ) → IsU64 v → Reads read_i64 (store_le_i64 v) v
unfolding read_i64 le_i64 store_le_i64
read_i64-Reads v h rest = rw (length_eight v rest, le_u64-store_le_u64 v rest h, drop_eight v rest)

-- A string behind its length.
unfoldable pub str_bytes : Bytes → Bytes
str_bytes s = store_le_u32 (length s) ++ s

abbrev pub IsShort : Bytes → Type 0
IsShort s = IsCStr s × (length s ≤ u32_max)

length_rest : (s rest : Bytes) → ltb (length (s ++ rest)) (length s) ≡ false
length_rest s rest = le→ltb _ _ (omega (arith, length-append s rest))

pub read_str_u32len-Reads : (s : Bytes) → IsShort s → Reads read_str_u32len (str_bytes s) s
unfolding read_str_u32len str_bytes
read_str_u32len-Reads s h rest = rw (
  append_assoc (store_le_u32 (length s)) s rest,
  read_u32-Reads (length s) (omega (arith, h.1)) (s ++ rest),
  length_rest s rest,
  take-append s rest,
  drop-append s rest,
  c_str-IsCStr s h.0,
)

unfoldable pub entry_bytes : CalendarEntry → Bytes
entry_bytes e = store_le_i32 e.months ++ (store_le_i32 e.days ++ store_le_i64 e.time_ms)

pub record IsEntry (e : CalendarEntry) : Type 0 where
  pub months_fit : IsU32 e.months
  pub days_fit : IsU32 e.days
  pub time_fits : IsU64 e.time_ms

pub read_entry-Reads : (e : CalendarEntry) → IsEntry e → Reads read_entry (entry_bytes e) e
unfolding read_entry entry_bytes
read_entry-Reads e h rest = rw (
  append_assoc (store_le_i32 e.months) (store_le_i32 e.days ++ store_le_i64 e.time_ms) rest,
  read_i32-Reads e.months h.months_fit ((store_le_i32 e.days ++ store_le_i64 e.time_ms) ++ rest),
  append_assoc (store_le_i32 e.days) (store_le_i64 e.time_ms) rest,
  read_i32-Reads e.days h.days_fit (store_le_i64 e.time_ms ++ rest),
  read_i64-Reads e.time_ms h.time_fits rest,
)

-- The prints of the elements, one after the other.
abbrev pub print_all : {A : Type 0} → (A → Bytes) → List A → Bytes
print_all print [] = []
print_all print (x ∷ xs) = print x ++ print_all print xs

pub read_many-Reads :
    {A : Type 0} {P : A → Type 0} (r : Reader A) (print : A → Bytes)
    → ((a : A) → P a → Reads r (print a) a)
    → (xs : List A) → All P xs
    → Reads (read_many r (length xs)) (print_all print xs) xs
unfolding read_many
read_many-Reads r print each [] h rest = refl
read_many-Reads r print each (x ∷ xs) h rest = rw (
  append_assoc (print x) (print_all print xs) rest,
  each x h.0 (print_all print xs ++ rest),
  read_many-Reads r print each xs h.1 rest,
)

-- Each writing loop appends the prints.
pub encode_all_i64-append :
    (sb : Bytes) (xs : List ℕ) → encode_all_i64 sb xs ≡ sb ++ print_all store_le_i64 xs
unfolding encode_all_i64 encode_i64
encode_all_i64-append sb [] = sym (append-nil sb)
encode_all_i64-append sb (x ∷ xs) =
    encode_all_i64-append (sb ++ store_le_i64 x) xs
    ∙ append_assoc sb (store_le_i64 x) (print_all store_le_i64 xs)

pub encode_all_u32-append :
    (sb : Bytes) (xs : List ℕ) → encode_all_u32 sb xs ≡ sb ++ print_all store_le_u32 xs
unfolding encode_all_u32 encode_u32
encode_all_u32-append sb [] = sym (append-nil sb)
encode_all_u32-append sb (x ∷ xs) =
    encode_all_u32-append (sb ++ store_le_u32 x) xs
    ∙ append_assoc sb (store_le_u32 x) (print_all store_le_u32 xs)

encode_entry_append :
    (sb : Bytes) (e : CalendarEntry)
    → encode_i64 (encode_i32 (encode_i32 sb e.months) e.days) e.time_ms ≡ sb ++ entry_bytes e
unfolding encode_i64 encode_i32 entry_bytes
encode_entry_append sb e = simp append_assoc

pub encode_entries-append :
    (sb : Bytes) (es : List CalendarEntry) → encode_entries sb es ≡ sb ++ print_all entry_bytes es
unfolding encode_entries
encode_entries-append sb [] = sym (append-nil sb)
encode_entries-append sb (e ∷ es) =
    encode_entries-append (encode_i64 (encode_i32 (encode_i32 sb e.months) e.days) e.time_ms) es
    ∙ ap (λ b. b ++ print_all entry_bytes es) (encode_entry_append sb e)
    ∙ append_assoc sb (entry_bytes e) (print_all entry_bytes es)

pub encode_str_u32len-append :
    (sb s : Bytes) → IsShort s → encode_str_u32len sb (some s) ≡ some (sb ++ str_bytes s)
unfolding encode_str_u32len encode_u32 str_bytes
encode_str_u32len-append sb s h =
    rw (le→ltb u32_max (length s) h.1, append_assoc sb (store_le_u32 (length s)) s)
