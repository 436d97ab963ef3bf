-- ===== src/Json/Parse.antt =====
-- The parser of C/src/gbf_json.c: parse_number, parse_array, parse_object, match_lit, parse_value and
-- gbf_json_parse. `strtod` is the C function on a raw number: `none` where it sets errno or converts
-- nothing. The functions recur on fuel; Json/Parse/Ends shows that gbf_json_parse has enough.
pub mod Ends
pub mod Render
use gbin.Prelude.{
  ℕ, zero, suc, ◌+◌, ◌*◌, Bool, true, false, ◌&&◌, ◌||◌, not, List, [], ◌∷◌, Option, none, some,
  Bytes, codes, length, drop, leb, ◌==◌, if◌then◌else◌, starts_with, Result, ok, err, ◌>>=◌,
}
use gbin.Error.{
  JsonError, unexpected_end, bad_literal, trailing_characters, expected_number, bad_number,
  unterminated_array, expected_comma_or_bracket, expected_colon, unterminated_object,
  expected_comma_or_brace, out_of_fuel, null_input,
}
use gbin.Json.{
  Json, Items, Fields, null, bool, number, string, array, object, no_items, item, no_fields, field,
}
use gbin.Json.Text.{Parsed, skip_ws, parse_string}

abbrev pub is_digit : ℕ → Bool
is_digit c = leb b'0' c && leb c b'9'

abbrev pub is_exponent : ℕ → Bool
is_exponent c = c == b'e' || c == b'E'

-- The characters that the scan of parse_number passes over. A sign is taken at the start and
-- right behind an exponent letter.
unfoldable pub in_number : Bool → ℕ → Bool
in_number sign c =
    is_digit c || (c == b'.' || (is_exponent c || (sign && (c == b'-' || c == b'+'))))

-- The raw number at the cursor, and the cursor after it.
unfoldable pub number_span : Bool → Bytes → Bytes × Bytes
number_span sign [] = ([], [])
number_span sign (c ∷ p) =
    let more = number_span (is_exponent c) p in
    if in_number sign c then (c ∷ more.0, more.1) else ([], c ∷ p)

-- Neither a dot nor an exponent letter was passed over.
unfoldable pub is_integer : Bytes → Bool
is_integer [] = true
is_integer (c ∷ raw) = not (c == b'.' || is_exponent c) && is_integer raw

-- match_lit: the cursor after the literal.
unfoldable pub match_lit : Bytes → Bytes → Option Bytes
match_lit lit p = if starts_with p lit then some (drop (length lit) p) else none

abbrev pub literal : {D : Type 0} → Json D → Option Bytes → Parsed (Json D)
literal j none = err bad_literal
literal j (some p) = ok (j, p)

abbrev pub as_array : {D : Type 0} → Items D × Bytes → Parsed (Json D)
as_array (xs, p) = ok (array xs, p)

abbrev pub as_object : {D : Type 0} → Fields D × Bytes → Parsed (Json D)
as_object (fs, p) = ok (object fs, p)

-- What follows an item: the end of the array, or a comma and the other items.
unfoldable pub after_item :
    {D : Type 0} → (Bytes → Parsed (Items D)) → Json D → Bytes → Parsed (Items D)
after_item rest v [] = err unterminated_array
after_item rest v (c ∷ p) =
    if c == b']'
    then ok (item v no_items, p)
    else if not (c == b',')
    then err expected_comma_or_bracket
    else (do (xs, q) ← rest p; ok (item v xs, q))

unfoldable pub after_field :
    {D : Type 0} → (Bytes → Parsed (Fields D)) → Bytes → Json D → Bytes → Parsed (Fields D)
after_field rest k v [] = err unterminated_object
after_field rest k v (c ∷ p) =
    if c == b'}'
    then ok (field k v no_fields, p)
    else if not (c == b',')
    then err expected_comma_or_brace
    else (do (fs, q) ← rest p; ok (field k v fs, q))

-- The colon after a key.
unfoldable pub expect_colon : Bytes → Result JsonError Bytes
expect_colon [] = err expected_colon
expect_colon (c ∷ p) = if c == b':' then ok p else err expected_colon

-- The end of an empty array or object right after its bracket.
unfoldable pub closes : ℕ → Bytes → Option Bytes
closes bracket [] = none
closes bracket (c ∷ p) = if c == bracket then some p else none

abbrev pub or_items : {D : Type 0} → Option Bytes → Parsed (Items D) → Parsed (Items D)
or_items none more = more
or_items (some p) more = ok (no_items, p)

abbrev pub or_fields : {D : Type 0} → Option Bytes → Parsed (Fields D) → Parsed (Fields D)
or_fields none more = more
or_fields (some p) more = ok (no_fields, p)

abbrev pub number_of : {D : Type 0} → Bytes → Bytes → Option D → Parsed (Json D)
number_of raw p none = err bad_number
number_of raw p (some v) = ok (number v raw (is_integer raw), p)

unfoldable pub finish : {D : Type 0} → Json D → Bytes → Result JsonError (Json D)
finish v [] = ok v
finish v (c ∷ p) = err trailing_characters

module _ {D : Type 0} (strtod : Bytes → Option D) where
  unfoldable pub parse_number : Bytes → Parsed (Json D)
  parse_number p =
      let (raw, q) = number_span true p in
      if length raw == 0 then err expected_number else number_of raw q (strtod raw)

  -- parse_value where the first character is none of `[` and `{`.
  unfoldable pub parse_scalar : ℕ → Bytes → Parsed (Json D)
  parse_scalar c p =
      if c == 34
      then (do (s, q) ← parse_string p; ok (string s, q))
      else if c == b't'
      then literal (bool true) (match_lit (codes "true") p)
      else if c == b'f'
      then literal (bool false) (match_lit (codes "false") p)
      else if c == b'n'
      then literal null (match_lit (codes "null") p)
      else parse_number p

  -- The dispatch on the first character, with the two recursive parsers.
  unfoldable pub dispatch :
      (Bytes → Parsed (Items D)) → (Bytes → Parsed (Fields D)) → Bytes → Parsed (Json D)
  dispatch items fields [] = err unexpected_end
  dispatch items fields (c ∷ p) =
      if c == b'{'
      then fields p >>= as_object
      else if c == b'['
      then items p >>= as_array
      else parse_scalar c (c ∷ p)

  unfoldable mutual
    -- parse_value
    pub parse_value : ℕ → Bytes → Parsed (Json D)
    parse_value zero p = err out_of_fuel
    parse_value (suc f) p =
        dispatch (λ q. or_items (closes b']' (skip_ws q)) (parse_items f (skip_ws q)))
          (λ q. or_fields (closes b'}' (skip_ws q)) (parse_fields f (skip_ws q))) (skip_ws p)

    -- The loop of parse_array.
    pub parse_items : ℕ → Bytes → Parsed (Items D)
    parse_items zero p = err out_of_fuel
    parse_items (suc f) p = do
      (v, q) ← parse_value f (skip_ws p)
      after_item (λ r. parse_items f r) v (skip_ws q)

    -- The loop of parse_object.
    pub parse_fields : ℕ → Bytes → Parsed (Fields D)
    parse_fields zero p = err out_of_fuel
    parse_fields (suc f) p = do
      (k, q) ← parse_string (skip_ws p)
      r ← expect_colon (skip_ws q)
      (v, s) ← parse_value f (skip_ws r)
      after_field (λ t. parse_fields f t) k v (skip_ws s)

  -- gbf_json_parse of an input that is not NULL.
  unfoldable pub json_parse : Bytes → Result JsonError (Json D)
  unfolding finish
  json_parse s = do (v, p) ← parse_value (2 * length s + 2) s; finish v (skip_ws p)
