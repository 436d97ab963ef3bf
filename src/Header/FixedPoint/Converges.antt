-- ===== src/Header/FixedPoint/Converges.antt =====
-- The loop ends at a fixed point before its 8 iterations are used up.
use gbin.Prelude.{
  All, if◌then◌else◌, ℕ, zero, suc, ◌+◌, ◌*◌, ◌%◌, ◌^◌, ◌≤◌, ◌<◌, ◌≡◌, refl, ◌∙◌, arith, false,
  ◌&&◌, List, Bytes, codes, length, length-append, ◌==◌, Bool-cases, inl, inr, ==→eq, eq→==, ne→==,
  ◌++◌, [],
}
use gbin.Json.Text.{json_escape, escape_chars, escape_char}
use gbin.Libc.{decimal}
use gbin.Strbuf.Content.Fits.{FitsBlocks}
use gbin.Header.{FieldMeta}
use gbin.Header.Text.{header_text, front_text}
use gbin.Header.FixedPoint.{
  Layout, zeros, payload_start_of, next_layout, is_stable, fixed_point, ok,
}
use gbin.Header.FixedPoint.Text.{text_iterate, text_fixed_point, fixed_point-ok, header_texts}
use gbin.Header.FixedPoint.Width.{
  length-decimal_zero, length-decimal_le, length-decimal_mono, length-decimal_ten,
}

length-zeros : length (json_escape zeros) ≡ 10
unfolding json_escape escape_chars escape_char
length-zeros = refl

-- The length of a header text whose CRC digits are zeros.
pub length-header :
    (fields : List FieldMeta) (ps fs : ℕ)
    → length (header_text fields ps fs zeros)
      ≡ 44 + length (front_text fields) + length (decimal ps) + length (decimal fs)
unfolding header_text
length-header fields ps fs =
    let front = front_text fields in
    let a = front ++ decimal ps in
    let b = a ++ codes ",\"file_size\":" in
    let c = b ++ decimal fs in
    let d = c ++ codes ",\"header_crc32_hex\":" in
    let e = d ++ json_escape zeros in
    omega (
      arith,
      length-append front (decimal ps),
      length-append a (codes ",\"file_size\":"),
      length-append b (decimal fs),
      length-append c (codes ",\"header_crc32_hex\":"),
      length-append d (json_escape zeros),
      length-append e (codes "}"),
      length-zeros,
    )

-- The digits of a payload_start and of the file_size behind it.
abbrev both : ℕ → ℕ → ℕ
both size ps = length (decimal ps) + length (decimal (ps + size))

both_le : (size ps : ℕ) → both size ps ≤ 40
both_le size ps = omega (arith, length-decimal_le ps, length-decimal_le (ps + size))

both_mono : (size a b : ℕ) → a ≤ b → both size a ≤ both size b
both_mono size a b h =
    omega
      (arith, length-decimal_mono a b h, length-decimal_mono (a + size) (b + size) (omega arith))

both_pos : (size : ℕ) → 2 ≤ both size 0
both_pos size = omega (arith, length-decimal_zero, length-decimal_mono 0 (0 + size) (omega arith))

both_ten : (size a b : ℕ) → b ≤ 10 * a → both size b ≤ 2 + both size a
both_ten size a b h =
    omega (arith, length-decimal_ten a b h, length-decimal_ten (a + size) (b + size) (omega arith))

-- What the loop is to find: a header that prints where its payload starts and the file ends.
pub data IsConsistent (fields : List FieldMeta) (size : ℕ) (l : Layout) : Type 0 where
  consistent :
      l.header_zero ≡ header_text fields l.payload_start l.file_size zeros
      → l.payload_start ≡ 12 + length l.header_zero
      → l.file_size ≡ l.payload_start + size
      → IsConsistent fields size l

grew : (a b : ℕ) → b ≤ a → (a == b) ≡ false → suc b ≤ a
grew a b h ne = ground arith

cc_false : (a b : ℕ) → a ≡ b → (a == b) ≡ false → ⊥
cc_false a b e h = ground arith

module _ (fields : List FieldMeta) (size : ℕ) where
  -- The length of a header without the two numbers.
  abbrev base : ℕ
  base = 44 + length (front_text fields)

  start_fits :
      (ps fs : ℕ)
      → base + 40 < 2 ^ 32
      → payload_start_of (header_text fields ps fs zeros)
        ≡ 12 + base + length (decimal ps) + length (decimal fs)
  unfolding payload_start_of
  start_fits ps fs small =
      omega (arith, length-header fields ps fs, length-decimal_le ps, length-decimal_le fs)

  -- A state of the loop whose file_size stands `size` behind its payload_start.
  abbrev state : ℕ → Bytes → Layout
  state ps h = record { payload_start = ps; file_size = ps + size; header_zero = h }

  abbrev header_at : ℕ → ℕ → Bytes
  header_at ps fs = header_text fields ps fs zeros

  abbrev next_start : ℕ → ℕ
  next_start ps = 12 + base + both size ps

  fits_64 : (x : ℕ) → x < 2 ^ 64 → x % 2 ^ 64 ≡ x
  fits_64 x h = omega arith

  module _ (small : base + 40 < 2 ^ 32) (fits : base + 52 + size < 2 ^ 64) where
    iterate_step :
        (n ps : ℕ) (h : Bytes)
        → text_iterate fields size (suc n) (state ps h) ≡ (
            if next_start ps == ps && (next_start ps + size == ps + size)
            then state (next_start ps) (header_at ps (ps + size))
            else text_iterate fields size n (state (next_start ps) (header_at ps (ps + size))))
    unfolding text_iterate next_layout is_stable payload_start_of
    iterate_step n ps h =
        let start : payload_start_of (header_at ps (ps + size)) ≡ next_start ps =
          start_fits ps (ps + size) small ∙ omega arith in
        rw (start, fits_64 (next_start ps + size) (omega (arith, both_le size ps))) refl

    -- At a fixed point the loop stops with it.
    stops :
        (n ps : ℕ) (h : Bytes)
        → 1 ≤ n
        → next_start ps ≡ ps
        → IsConsistent fields size (text_iterate fields size n (state ps h))
    stops zero ps h pos e = absurd (omega arith)
    stops (suc n) ps h pos e =
        rw
          (
            iterate_step n ps h,
            eq→== (next_start ps) ps e,
            eq→== (next_start ps + size) (ps + size) (omega arith),
            e,
          )
          (consistent refl (omega (arith, length-header fields ps (ps + size))) refl)

    goes_on :
        (n ps : ℕ) (h : Bytes)
        → ¬ (next_start ps ≡ ps)
        → text_iterate fields size (suc n) (state ps h)
          ≡ text_iterate fields size n (state (next_start ps) (header_at ps (ps + size)))
    goes_on n ps h ne = rw (iterate_step n ps h, ne→== (next_start ps) ps ne) refl

    -- Each iteration that does not stop the loop after the next one adds a digit.
    converges :
        (n ps top : ℕ) (h : Bytes)
        → base + 14 ≤ ps
        → ps ≤ next_start ps
        → ((x : ℕ) → base + 14 ≤ x → x ≤ base + 52 → both size x ≤ top)
        → top + 2 ≤ n + both size ps
        → IsConsistent fields size (text_iterate fields size n (state ps h))
    converges zero ps top h lo up most enough =
        absurd (omega (arith, most ps lo (omega (arith, both_le size ps))))
    converges (suc n) ps top h lo up most enough = elim (Bool-cases (next_start ps == ps)) [
      | inl same ↦ stops (suc n) ps h (omega arith) (==→eq (next_start ps) ps same)
      | inr differs ↦
          let ne : ¬ (next_start ps ≡ ps) = λ e. absurd (cc_false (next_start ps) ps e differs) in
          let grows = both_mono size ps (next_start ps) up in
          rw (goes_on n ps h ne) (elim (Bool-cases (both size (next_start ps) == both size ps)) [
            | inl stable ↦
                stops n (next_start ps) (header_at ps (ps + size))
                  (omega (arith, most ps lo (omega (arith, both_le size ps))))
                  (omega (arith, ==→eq (both size (next_start ps)) (both size ps) stable))
            | inr more ↦
                converges n (next_start ps) top (header_at ps (ps + size)) (omega arith)
                  (omega arith) most
                  (omega (arith, grew (both size (next_start ps)) (both size ps) grows more))
          ])
    ]

    -- The first iteration leads from 0 to a payload_start with one digit for each number.
    first :
        text_iterate fields size 8 (record { payload_start = 0; file_size = 0; header_zero = [] })
        ≡ text_iterate fields size 7 (state (base + 14) (header_at 0 0))
    unfolding text_iterate next_layout is_stable payload_start_of
    first =
        let start : payload_start_of (header_at 0 0) ≡ base + 14 =
          start_fits 0 0 small ∙ rw length-decimal_zero (omega arith) in
        rw (start, fits_64 (base + 14 + size) (omega arith), ne→== (base + 14) 0 (omega arith)) refl

pub text_fixed_point-IsConsistent :
    (fields : List FieldMeta) (payload_size : ℕ)
    → length (front_text fields) + 84 < 2 ^ 32
    → length (front_text fields) + 96 + payload_size < 2 ^ 64
    → IsConsistent fields payload_size (text_fixed_point fields payload_size)
unfolding text_fixed_point
text_fixed_point-IsConsistent fields size small fits =
    let b = base fields size in
    rw (first fields size (omega arith) (omega arith)) (
      converges fields size (omega arith) (omega arith) 7 (b + 14) (2 + both size (b + 14))
        (header_at fields size 0 0) (omega arith)
        (omega (arith, both_mono size 0 (b + 14) (omega arith), both_pos size))
        (λ x lo hi. both_ten size (b + 14) x (omega arith)) (omega arith))

-- Let the header text before the number of payload_start have less than 2^32 - 84 bytes, and
-- together with the payloads less than 2^64 - 96; and let the header texts of the 8 iterations fit
-- the blocks of their buffers: each is shorter than 2^62 - 1, and no digit in it is the last byte of
-- a block of 64, 128, 256, ... bytes. Then the loop of 8 iterations ends with a header text that
-- prints the payload_start 12 + its own length and the file_size payload_start + payload_size.
pub fixed_point-IsConsistent :
    (fields : List FieldMeta) (payload_size : ℕ)
    → length (front_text fields) + 84 < 2 ^ 32
    → length (front_text fields) + 96 + payload_size < 2 ^ 64
    → All FitsBlocks (header_texts fields payload_size)
    → (l : Layout) × (fixed_point fields payload_size ≡ ok l) × IsConsistent fields payload_size l
fixed_point-IsConsistent fields size small fits texts = (
  text_fixed_point fields size,
  fixed_point-ok fields size texts,
  text_fixed_point-IsConsistent fields size small fits,
)
