-- ===== src/Codec/RoundTrip/Times.antt =====
-- Datetime, duration and calendarDuration arrays read back from their bytes.
use gbin.Prelude.{
  ℕ, ◌*◌, ◌≤◌, ◌≡◌, refl, ap, ◌∙◌, arith, Bytes, List, [], ◌∷◌, ◌++◌, some, false, length,
  length-append, ltb, le→ltb, All, append_assoc, append-nil, take-append_eq, drop-append_eq, ok,
  eq→==,
}
use gbin.Word.{size_max, mul64, u32_max, IsU32, IsU64, store_le_u32, store_le_i32, store_le_i64}
use gbin.Value.{
  DatetimeArray, DurationArray, CalendarDurationArray, CalendarEntry, datetime, duration,
  calendar_duration,
}
use gbin.Codec.{encode_u32, read_u32, read_i64, read_entry, read_str_u32len}
use gbin.Codec.Encode.{encode_datetime, encode_duration, encode_calendar_duration}
use gbin.Codec.Decode.{decode_datetime, decode_duration, decode_calendar_duration}
use gbin.Codec.Elements.{
  IsShort, IsEntry, str_bytes, entry_bytes, print_all, read_u32-Reads, read_i64-Reads,
  read_entry-Reads, read_str_u32len-Reads, read_many-Reads, encode_all_i64-append,
  encode_entries-append, encode_str_u32len-append,
}
use gbin.Codec.RoundTrip.Shaped.{IsShaped, mul64_small}

length-store_le_i64 : (x : ℕ) → length (store_le_i64 x) ≡ 8
unfolding store_le_i64
length-store_le_i64 x = unfold gbin.Word.store_le_u64 in refl

length-print_i64 : (xs : List ℕ) → length (print_all store_le_i64 xs) ≡ length xs * 8
length-print_i64 [] = refl
length-print_i64 (x ∷ xs) = omega (
  arith,
  length-append (store_le_i64 x) (print_all store_le_i64 xs),
  length-store_le_i64 x,
  length-print_i64 xs,
)

length-entry_bytes : (e : CalendarEntry) → length (entry_bytes e) ≡ 16
unfolding entry_bytes store_le_i64 store_le_i32
length-entry_bytes e = unfold gbin.Word.store_le_u64 gbin.Word.store_le_u32 in refl

length-print_entries :
    (es : List CalendarEntry) → length (print_all entry_bytes es) ≡ length es * 16
length-print_entries [] = refl
length-print_entries (e ∷ es) = omega (
  arith,
  length-append (entry_bytes e) (print_all entry_bytes es),
  length-entry_bytes e,
  length-print_entries es,
)

pub record IsDuration (a : DurationArray) (n : ℕ) : Type 0 where
  pub shaped : IsShaped a.shape n
  pub count : n ≡ length a.ms
  pub mask_count : n ≡ length a.nan_mask
  pub count_fits : n ≤ u32_max
  pub ms_fit : All IsU64 a.ms

abbrev pub duration_bytes : DurationArray → Bytes
duration_bytes a = store_le_u32 (length a.ms) ++ (a.nan_mask ++ print_all store_le_i64 a.ms)

pub encode_duration-bytes :
    (a : DurationArray) (n : ℕ) → IsDuration a n → encode_duration a ≡ ok (duration_bytes a)
unfolding encode_duration encode_u32
encode_duration-bytes a n h = rw (
  le→ltb u32_max (length a.ms) (omega (arith, h.count, h.count_fits)),
  eq→== (length a.nan_mask) (length a.ms) (omega (arith, h.count, h.mask_count)),
  encode_all_i64-append (store_le_u32 (length a.ms) ++ a.nan_mask) a.ms,
  append_assoc (store_le_u32 (length a.ms)) a.nan_mask (print_all store_le_i64 a.ms),
)

-- A mask of n bytes, then n integers.
abbrev masked : Bytes → List ℕ → Bytes
masked mask ms = mask ++ print_all store_le_i64 ms

masked_room :
    (n : ℕ) (mask : Bytes) (ms : List ℕ) → n ≡ length mask → ltb (length (masked mask ms)) n ≡ false
masked_room n mask ms h = le→ltb _ n (omega (arith, length-append mask (print_all store_le_i64 ms)))

ms_room :
    (n : ℕ) (ms : List ℕ) → n ≡ length ms → ltb (length (print_all store_le_i64 ms)) (n * 8) ≡ false
ms_room n ms h = le→ltb _ (n * 8) (omega (arith, length-print_i64 ms))

read_ms :
    (n : ℕ) (ms : List ℕ)
    → n ≡ length ms
    → All IsU64 ms
    → gbin.Codec.read_many read_i64 n (print_all store_le_i64 ms) ≡ some (ms, [])
read_ms n ms e h =
    rw (e, ← append-nil (print_all store_le_i64 ms))
      (read_many-Reads read_i64 store_le_i64 read_i64-Reads ms h [])

pub duration_back :
    (a : DurationArray) (n : ℕ)
    → IsDuration a n
    → decode_duration a.shape n (duration_bytes a) ≡ ok (duration a)
unfolding decode_duration
duration_back a n h = rw (
  read_u32-Reads (length a.ms) (omega (arith, h.count, h.count_fits)) (masked a.nan_mask a.ms),
  eq→== (length a.ms) n (omega (arith, h.count)),
  masked_room n a.nan_mask a.ms h.mask_count,
  drop-append_eq n a.nan_mask (print_all store_le_i64 a.ms) h.mask_count,
  take-append_eq n a.nan_mask (print_all store_le_i64 a.ms) h.mask_count,
  mul64_small n 8 (omega (arith, h.count_fits)),
  ms_room n a.ms h.count,
  read_ms n a.ms h.count h.ms_fit,
)

pub record IsCalendarDuration (a : CalendarDurationArray) (n : ℕ) : Type 0 where
  pub shaped : IsShaped a.shape n
  pub count : n ≡ length a.entries
  pub mask_count : n ≡ length a.mask
  pub count_fits : n ≤ u32_max
  pub entries_fit : All IsEntry a.entries

abbrev pub calendar_duration_bytes : CalendarDurationArray → Bytes
calendar_duration_bytes a =
    store_le_u32 (length a.entries) ++ (a.mask ++ print_all entry_bytes a.entries)

pub encode_calendar_duration-bytes :
    (a : CalendarDurationArray) (n : ℕ)
    → IsCalendarDuration a n
    → encode_calendar_duration a ≡ ok (calendar_duration_bytes a)
unfolding encode_calendar_duration encode_u32
encode_calendar_duration-bytes a n h = rw (
  le→ltb u32_max (length a.entries) (omega (arith, h.count, h.count_fits)),
  eq→== (length a.mask) (length a.entries) (omega (arith, h.count, h.mask_count)),
  encode_entries-append (store_le_u32 (length a.entries) ++ a.mask) a.entries,
  append_assoc (store_le_u32 (length a.entries)) a.mask (print_all entry_bytes a.entries),
)

read_entries :
    (n : ℕ) (es : List CalendarEntry)
    → n ≡ length es
    → All IsEntry es
    → gbin.Codec.read_many read_entry n (print_all entry_bytes es) ≡ some (es, [])
read_entries n es e h =
    rw (e, ← append-nil (print_all entry_bytes es))
      (read_many-Reads read_entry entry_bytes read_entry-Reads es h [])

pub calendar_duration_back :
    (a : CalendarDurationArray) (n : ℕ)
    → IsCalendarDuration a n
    → decode_calendar_duration a.shape n (calendar_duration_bytes a) ≡ ok (calendar_duration a)
unfolding decode_calendar_duration
calendar_duration_back a n h =
    let entries = print_all entry_bytes a.entries in
    rw (
      read_u32-Reads (length a.entries) (omega (arith, h.count, h.count_fits)) (a.mask ++ entries),
      eq→== (length a.entries) n (omega (arith, h.count)),
      le→ltb (length (a.mask ++ entries)) n
          (omega (arith, h.mask_count, length-append a.mask entries)),
      drop-append_eq n a.mask entries h.mask_count,
      take-append_eq n a.mask entries h.mask_count,
      mul64_small n 16 (omega (arith, h.count_fits)),
      le→ltb (length entries) (n * 16) (omega (arith, h.count, length-print_entries a.entries)),
      read_entries n a.entries h.count h.entries_fit,
    )

-- A datetime whose texts are the strings given.
pub record IsDatetime (a : DatetimeArray) (n : ℕ) (tz loc fmt : Bytes) : Type 0 where
  pub shaped : IsShaped a.shape n
  pub count : n ≡ length a.ms
  pub mask_count : n ≡ length a.nat_mask
  pub count_fits : n ≤ u32_max
  pub ms_fit : All IsU64 a.ms
  pub timezone_is : a.timezone ≡ some tz
  pub locale_is : a.locale ≡ some loc
  pub format_is : a.format ≡ some fmt
  pub texts_fit : IsShort tz × IsShort loc × IsShort fmt

abbrev pub datetime_bytes : DatetimeArray → Bytes → Bytes → Bytes → Bytes
datetime_bytes a tz loc fmt =
    store_le_u32 (length a.ms)
    ++ (str_bytes tz ++ (str_bytes loc ++ (str_bytes fmt ++ masked a.nat_mask a.ms)))

module _ (a : DatetimeArray) (n : ℕ) (tz loc fmt : Bytes) (h : IsDatetime a n tz loc fmt) where
  pub encode_datetime-bytes : encode_datetime a ≡ ok (datetime_bytes a tz loc fmt)
  unfolding encode_datetime encode_u32
  encode_datetime-bytes =
      rw
        (
          h.timezone_is,
          h.locale_is,
          h.format_is,
          le→ltb u32_max (length a.ms) (omega (arith, h.count, h.count_fits)),
          encode_str_u32len-append (store_le_u32 (length a.ms)) tz h.texts_fit.0,
          encode_str_u32len-append (store_le_u32 (length a.ms) ++ str_bytes tz) loc h.texts_fit.1,
          encode_str_u32len-append ((store_le_u32 (length a.ms) ++ str_bytes tz) ++ str_bytes loc)
              fmt h.texts_fit.2,
          eq→== (length a.nat_mask) (length a.ms) (omega (arith, h.count, h.mask_count)),
        )
        (ap ok (encode_all_i64-append _ a.ms ∙ simp append_assoc))

  pub datetime_back : decode_datetime a.shape n (datetime_bytes a tz loc fmt) ≡ ok (datetime a)
  unfolding decode_datetime
  datetime_back =
      let rest = masked a.nat_mask a.ms in
      rw (
        read_u32-Reads (length a.ms) (omega (arith, h.count, h.count_fits))
            (str_bytes tz ++ (str_bytes loc ++ (str_bytes fmt ++ rest))),
        eq→== (length a.ms) n (omega (arith, h.count)),
        read_str_u32len-Reads tz h.texts_fit.0 (str_bytes loc ++ (str_bytes fmt ++ rest)),
        read_str_u32len-Reads loc h.texts_fit.1 (str_bytes fmt ++ rest),
        read_str_u32len-Reads fmt h.texts_fit.2 rest,
        masked_room n a.nat_mask a.ms h.mask_count,
        drop-append_eq n a.nat_mask (print_all store_le_i64 a.ms) h.mask_count,
        take-append_eq n a.nat_mask (print_all store_le_i64 a.ms) h.mask_count,
        mul64_small n 8 (omega (arith, h.count_fits)),
        ms_room n a.ms h.count,
        read_ms n a.ms h.count h.ms_fit,
        ← h.timezone_is,
        ← h.locale_is,
        ← h.format_is,
      )
