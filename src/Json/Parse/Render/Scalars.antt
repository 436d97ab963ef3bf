-- ===== src/Json/Parse/Render/Scalars.antt =====
-- The scalars: what parse_value does with a number, a string and a literal, whatever follows.
use gbin.Prelude.{
  ne→==, ℕ, suc, ◌<◌, ◌≡◌, refl, ◌∙◌, arith, Bool, true, false, [], ◌∷◌, ◌++◌, Option, some, Bytes,
  codes, IsCStr, All, length, le→leb, if◌then◌else◌, ok,
}
use gbin.Json.{Items, Fields, number, string, bool, null}
use gbin.Json.Text.{Parsed, isspace, skip_ws, json_escape}
use gbin.Json.Text.Escape.{parse_string-json_escape}
use gbin.Json.Parse.{
  in_number, is_exponent, number_span, is_integer, parse_number, number_of, parse_scalar, dispatch,
  parse_value, match_lit,
}
use gbin.Json.Parse.Render.{Stops}
use gbin.Libc.Decimal.{IsDigit}

pub skip_ws_other : (c : ℕ) (p : Bytes) → isspace c ≡ false → skip_ws (c ∷ p) ≡ c ∷ p
unfolding skip_ws
skip_ws_other c p h = rw h refl

isspace_digit : (c : ℕ) → IsDigit c → isspace c ≡ false
unfolding isspace
isspace_digit c h = ground arith

exponent_digit : (c : ℕ) → IsDigit c → is_exponent c ≡ false
exponent_digit c h = ground arith

in_number_digit : (sign : Bool) (c : ℕ) → IsDigit c → in_number sign c ≡ true
unfolding in_number
in_number_digit sign c h = rw (le→leb b'0' c h.0, le→leb c b'9' h.1) refl

is_integer_digits : (raw : Bytes) → All IsDigit raw → is_integer raw ≡ true
unfolding is_integer
is_integer_digits [] h = refl
is_integer_digits (c ∷ raw) h = ground (arith, is_integer_digits raw)

in_number_mono : (c : ℕ) → in_number true c ≡ false → in_number false c ≡ false
unfolding in_number
in_number_mono c h = ground arith

-- What stops a number behind any character stops it everywhere.
stop_here :
    (sign : Bool) (c : ℕ) (rest : Bytes)
    → in_number true c ≡ false
    → number_span sign (c ∷ rest) ≡ ([], c ∷ rest)
unfolding number_span
stop_here true c rest h = rw h refl
stop_here false c rest h = rw (in_number_mono c h) refl

number_span-digits :
    (sign : Bool) (raw rest : Bytes)
    → All IsDigit raw
    → Stops rest
    → number_span sign (raw ++ rest) ≡ (raw, rest)
unfolding number_span
number_span-digits sign [] [] h stop = refl
number_span-digits sign [] (c ∷ rest) h stop = stop_here sign c rest stop
number_span-digits sign (c ∷ raw) rest h stop =
    rw (in_number_digit sign c h.0, number_span-digits (is_exponent c) raw rest h.1 stop) refl

module _ {D : Type 0} (strtod : Bytes → Option D) where
  dispatch_digit :
      (items : Bytes → Parsed (Items D)) (fields : Bytes → Parsed (Fields D)) (c : ℕ) (p : Bytes)
      → IsDigit c
      → dispatch strtod items fields (c ∷ p) ≡ parse_number strtod (c ∷ p)
  unfolding dispatch parse_scalar
  dispatch_digit items fields c p h =
      rw
        (
          ne→== c b'{' (λ e. omega arith),
          ne→== c b'[' (λ e. omega arith),
          ne→== c 34 (λ e. omega arith),
          ne→== c b't' (λ e. omega arith),
          ne→== c b'f' (λ e. omega arith),
          ne→== c b'n' (λ e. omega arith),
        )
        refl

  parse_number-digits :
      (c : ℕ) (raw rest : Bytes) (v : D)
      → All IsDigit (c ∷ raw)
      → strtod (c ∷ raw) ≡ some v
      → Stops rest
      → parse_number strtod (c ∷ raw ++ rest) ≡ ok (number v (c ∷ raw) true, rest)
  unfolding parse_number
  parse_number-digits c raw rest v h read stop =
      rw
        (
          number_span-digits true (c ∷ raw) rest h stop,
          ne→== (length (c ∷ raw)) 0 (λ e. omega arith),
        )
        (after_span c raw rest v h read)
    where
      after_span :
          (c : ℕ) (raw rest : Bytes) (v : D)
          → All IsDigit (c ∷ raw)
          → strtod (c ∷ raw) ≡ some v
          → number_of (c ∷ raw) rest (strtod (c ∷ raw)) ≡ ok (number v (c ∷ raw) true, rest)
      after_span c raw rest v h read = rw (read, is_integer_digits (c ∷ raw) h) refl

  pub parse_value-number :
      (f : ℕ) (raw rest : Bytes) (v : D)
      → All IsDigit raw
      → 0 < length raw
      → strtod raw ≡ some v
      → Stops rest
      → parse_value strtod (suc f) (raw ++ rest) ≡ ok (number v raw true, rest)
  unfolding parse_value
  parse_value-number f [] rest v h pos read stop = absurd (omega arith)
  parse_value-number f (c ∷ raw) rest v h pos read stop =
      rw (skip_ws_other c (raw ++ rest) (isspace_digit c h.0))
        (dispatch_digit _ _ c (raw ++ rest) h.0 ∙ parse_number-digits c raw rest v h read stop)

  parse_scalar-string :
      (s rest : Bytes)
      → IsCStr s
      → parse_scalar strtod 34 (json_escape s ++ rest) ≡ ok (string s, rest)
  unfolding parse_scalar
  parse_scalar-string s rest h = rw (parse_string-json_escape s rest h) refl

  at_quote :
      (f : ℕ) (s rest : Bytes)
      → parse_value strtod (suc f) (json_escape s ++ rest)
        ≡ parse_scalar strtod 34 (json_escape s ++ rest)
  unfolding parse_value dispatch skip_ws isspace json_escape
  at_quote f s rest = refl

  pub parse_value-string :
      (f : ℕ) (s rest : Bytes)
      → IsCStr s
      → parse_value strtod (suc f) (json_escape s ++ rest) ≡ ok (string s, rest)
  unfolding parse_value
  parse_value-string f s rest h = at_quote f s rest ∙ parse_scalar-string s rest h

  pub parse_value-bool :
      (f : ℕ) (b : Bool) (rest : Bytes)
      → parse_value strtod (suc f) ((if b then codes "true" else codes "false") ++ rest)
        ≡ ok (bool b, rest)
  unfolding parse_value dispatch parse_scalar match_lit skip_ws isspace
  parse_value-bool f true rest = refl
  parse_value-bool f false rest = refl

  pub parse_value-null :
      (f : ℕ) (rest : Bytes) → parse_value strtod (suc f) (codes "null" ++ rest) ≡ ok (null, rest)
  unfolding parse_value dispatch parse_scalar match_lit skip_ws isspace
  parse_value-null f rest = refl
