-- ===== src/Json/Text/Escape.antt =====
-- parse_string reads back what json_escape_append writes.
use gbin.Prelude.{
  ℕ, zero, suc, ◌+◌, ◌*◌, ◌/◌, ◌%◌, ◌^◌, ◌≤◌, ◌<◌, ◌≡◌, refl, ap, ◌∙◌, arith, true, false, [], ◌∷◌,
  ◌++◌, append_assoc, append-nil, some, Bytes, IsCStr, c_str, c_str-IsCStr, length, length-append,
  ltb, ◌==◌, ok, Bool-cases, inl, inr, ==→eq, ltb→lt, le→ltb,
}
use gbin.Word.{bit_or_high_low}
use gbin.Json.Text.{
  is_hex, hex_val, hex_digits, simple_escape, surrogates, utf8_append_codepoint, more, escape_step,
  string_step, string_loop, parse_string, hex_char, escape_char, escape_chars, json_escape,
}

pub is_hex-hex_char : (d : ℕ) → d < 16 → is_hex (hex_char d) ≡ true
unfolding is_hex hex_char
is_hex-hex_char d h = ground arith

pub hex_val-hex_char : (d : ℕ) → d < 16 → hex_val (hex_char d) ≡ d
unfolding hex_val hex_char
hex_val-hex_char d h = ground arith

pub hex_digits_step :
    (n cp d : ℕ) (p : Bytes)
    → d < 16
    → hex_digits (suc n) cp (hex_char d ∷ p) ≡ hex_digits n (cp * 2 ^ 4 + d) p
unfolding hex_digits
hex_digits_step n cp d p h =
    rw (is_hex-hex_char d h, hex_val-hex_char d h, bit_or_high_low 4 cp d h)

two_zeros : (q : Bytes) → hex_digits 4 0 (b'0' ∷ b'0' ∷ q) ≡ hex_digits 2 0 q
unfolding hex_digits is_hex hex_val
two_zeros q = refl

no_digits : (cp : ℕ) (p : Bytes) → hex_digits 0 cp p ≡ some cp
unfolding hex_digits
no_digits cp p = refl

control_digits :
    (c : ℕ) (p : Bytes)
    → c < 32
    → hex_digits 4 0 (b'0' ∷ b'0' ∷ hex_char (c / 2 ^ 4 % 2 ^ 4) ∷ hex_char (c % 2 ^ 4) ∷ p)
      ≡ some c
control_digits c p h =
    two_zeros _
    ∙ hex_digits_step 1 0 (c / 2 ^ 4 % 2 ^ 4) (hex_char (c % 2 ^ 4) ∷ p) (omega arith)
    ∙ hex_digits_step 0 (0 * 2 ^ 4 + c / 2 ^ 4 % 2 ^ 4) (c % 2 ^ 4) p (omega arith)
    ∙ no_digits _ p
    ∙ ap some (omega arith)

small_surrogates : (c : ℕ) (p : Bytes) → c < 32 → surrogates c p ≡ (c, p)
unfolding surrogates
small_surrogates c p h = ground arith

small_utf8 : (sb : Bytes) (c : ℕ) → c < 32 → utf8_append_codepoint sb c ≡ sb ++ c ∷ []
unfolding utf8_append_codepoint
small_utf8 sb c h = ground arith

control_step :
    (sb p : Bytes) (c : ℕ)
    → c < 32
    → string_step sb
        (92 ∷ b'u' ∷ b'0' ∷ b'0' ∷ hex_char (c / 2 ^ 4 % 2 ^ 4) ∷ hex_char (c % 2 ^ 4) ∷ p)
      ≡ more (sb ++ c ∷ []) p
unfolding string_step escape_step
control_step sb p c h = rw (
  le→ltb (suc (suc (suc (suc (length p))))) 4 (omega arith),
  control_digits c p h,
  small_surrogates c p h,
  small_utf8 sb c h,
)

plain_step :
    (sb p : Bytes) (c : ℕ)
    → (c == 34) ≡ false
    → ltb c 32 ≡ false
    → (c == 92) ≡ false
    → string_step sb (c ∷ p) ≡ more (sb ++ c ∷ []) p
unfolding string_step
plain_step sb p c quote control back = rw (quote, control, back)

-- The printed form of a character is one round of the loop.
char_step : (sb p : Bytes) (c : ℕ) → string_step sb (escape_char c ++ p) ≡ more (sb ++ c ∷ []) p
unfolding escape_char
char_step sb p c = elim (Bool-cases (c == 34)) [
  | inl quote ↦ rw (==→eq c 34 quote) (unfold string_step escape_step simple_escape in refl)
  | inr unquoted ↦ elim (Bool-cases (c == 92)) [
    | inl back ↦ rw (==→eq c 92 back) (unfold string_step escape_step simple_escape in refl)
    | inr other ↦ elim (Bool-cases (ltb c 32)) [
      | inl control ↦ rw (unquoted, other, control) (control_step sb p c (ltb→lt c 32 control))
      | inr plain ↦ rw (unquoted, other, plain) (plain_step sb p c unquoted plain other)
    ]
  ]
]

string_loop-escape_chars :
    (s sb p : Bytes) (f : ℕ)
    → length s < f
    → string_loop f sb (escape_chars s ++ 34 ∷ p) ≡ ok (c_str (sb ++ s), p)
unfolding string_loop escape_chars
string_loop-escape_chars s sb p zero h = absurd (omega arith)
string_loop-escape_chars [] sb p (suc f) h = unfold string_step in rw (append-nil sb)
string_loop-escape_chars (c ∷ s) sb p (suc f) h =
    rw
      (
        append_assoc (escape_char c) (escape_chars s) (34 ∷ p),
        char_step sb (escape_chars s ++ 34 ∷ p) c,
      )
      (string_loop-escape_chars s (sb ++ c ∷ []) p f (omega arith)
        ∙ ap (λ t. ok (c_str t, p)) (append_assoc sb (c ∷ []) s))

length-escape_char : (c : ℕ) → 1 ≤ length (escape_char c)
unfolding escape_char
length-escape_char c = ground arith

length-escape_chars : (s : Bytes) → length s ≤ length (escape_chars s)
unfolding escape_chars
length-escape_chars [] = omega arith
length-escape_chars (c ∷ s) = omega (
  arith,
  length-append (escape_char c) (escape_chars s),
  length-escape_char c,
  length-escape_chars s,
)

-- Whatever follows, parse_string takes the printed form of a C string and returns the string.
pub parse_string-json_escape :
    (s rest : Bytes) → IsCStr s → parse_string (json_escape s ++ rest) ≡ ok (s, rest)
unfolding parse_string json_escape
parse_string-json_escape s rest h = rw (append_assoc (escape_chars s) (34 ∷ []) rest) (
    string_loop-escape_chars s [] rest (suc (length (escape_chars s ++ 34 ∷ rest)))
      (omega (arith, length-append (escape_chars s) (34 ∷ rest), length-escape_chars s))
    ∙ ap (λ t. ok (t, rest)) (c_str-IsCStr s h))
