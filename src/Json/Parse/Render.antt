-- ===== src/Json/Parse/Render.antt =====
-- A minified print of JSON values, and gbf_json_parse of it. The numbers are non-negative integers, the
-- only ones that build_header_json writes.
pub mod Scalars
pub mod Steps
pub mod RoundTrip
use gbin.Prelude.{
  ℕ, zero, suc, ◌+◌, ◌*◌, ◌≤◌, ◌<◌, ◌≡◌, refl, ap, ◌∙◌, sym, arith, Bool, true, false, List, [],
  ◌∷◌, ◌++◌, append_assoc, Option, none, some, Bytes, codes, IsCStr, All, length, length-append,
  if◌then◌else◌, Result, ok, err, ◌>>=◌,
}
use gbin.Json.{
  Json, Items, Fields, null, bool, number, string, array, object, no_items, item, no_fields, field,
}
use gbin.Json.Text.{Parsed, skip_ws, parse_string, json_escape}
use gbin.Json.Parse.{parse_value, parse_items, parse_fields, json_parse, finish, in_number}
use gbin.Libc.Decimal.{IsDigit}

module _ {D : Type 0} where
  unfoldable mutual
    pub render : Json D → Bytes
    render null = codes "null"
    render (bool b) = if b then codes "true" else codes "false"
    render (number v raw is_int) = raw
    render (string s) = json_escape s
    render (array no_items) = codes "[]"
    render (array (item v xs)) = b'[' ∷ (render v ++ render_items xs)
    render (object no_fields) = codes "{}"
    render (object (field k v fs)) = b'{' ∷ (json_escape k ++ b':' ∷ (render v ++ render_fields fs))

    -- The items after the first, and the bracket.
    pub render_items : Items D → Bytes
    render_items no_items = codes "]"
    render_items (item v xs) = b',' ∷ (render v ++ render_items xs)

    pub render_fields : Fields D → Bytes
    render_fields no_fields = codes "}"
    render_fields (field k v fs) = b',' ∷ (json_escape k ++ b':' ∷ (render v ++ render_fields fs))

  module _ (strtod : Bytes → Option D) where
    -- The strings are C strings, and the numbers are unsigned decimals that strtod reads.
    unfoldable mutual
      pub IsPrintable : Json D → Type 0
      IsPrintable null = Unit {0}
      IsPrintable (bool b) = Unit {0}
      IsPrintable (number v raw is_int) =
          All IsDigit raw × (0 < length raw) × (strtod raw ≡ some v) × (is_int ≡ true)
      IsPrintable (string s) = IsCStr s
      IsPrintable (array xs) = ArePrintable xs
      IsPrintable (object fs) = HavePrintable fs

      pub ArePrintable : Items D → Type 0
      ArePrintable no_items = Unit {0}
      ArePrintable (item v xs) = IsPrintable v × ArePrintable xs

      pub HavePrintable : Fields D → Type 0
      HavePrintable no_fields = Unit {0}
      HavePrintable (field k v fs) = IsCStr k × IsPrintable v × HavePrintable fs

  -- The recursion depth that the parser needs, counted generously.
  mutual
    pub cost : Json D → ℕ
    cost (array xs) = suc (cost_items xs)
    cost (object fs) = suc (cost_fields fs)
    cost null = 1
    cost (bool b) = 1
    cost (number v raw is_int) = 1
    cost (string s) = 1

    pub cost_items : Items D → ℕ
    cost_items no_items = 0
    cost_items (item v xs) = suc (cost v + cost_items xs)

    pub cost_fields : Fields D → ℕ
    cost_fields no_fields = 0
    cost_fields (field k v fs) = suc (cost v + cost_fields fs)

-- What may follow a value: no character that a number could go on with.
abbrev pub Stops : Bytes → Type 0
Stops [] = Unit {0}
Stops (c ∷ rest) = in_number true c ≡ false
