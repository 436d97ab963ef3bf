-- ===== src/Json/Parse/Render/Steps.antt =====
-- One step of gbf_json_parse (C/src/gbf_json.c) on the minified print of a value.
use gbin.Prelude.{
  ℕ, suc, ◌<◌, ◌≡◌, refl, arith, true, false, [], ◌∷◌, ◌++◌, Option, none, Bytes, codes, IsCStr,
  ◌==◌, ok,
}
use gbin.Json.{
  Json, Items, Fields, null, bool, number, string, array, object, no_items, item, no_fields, field,
}
use gbin.Json.Text.{Parsed, isspace, skip_ws, json_escape}
use gbin.Json.Text.Escape.{parse_string-json_escape}
use gbin.Json.Parse.{
  parse_value, parse_items, parse_fields, in_number, dispatch, closes, after_item, after_field,
  expect_colon,
}
use gbin.Json.Parse.Render.{render, render_items, render_fields, IsPrintable, cost, Stops}
use gbin.Json.Parse.Render.Scalars.{skip_ws_other}

-- A text that starts a value: no blank, and no bracket that closes.
pub data Starts (p : Bytes) : Type 0 where
  starts : (c : ℕ) (q : Bytes) → p ≡ c ∷ q → isspace c ≡ false → (c == b']') ≡ false → Starts p

module _ {D : Type 0} (strtod : Bytes → Option D) where
  pub render-Starts : (v : Json D) (rest : Bytes) → IsPrintable strtod v → Starts (render v ++ rest)
  unfolding render IsPrintable isspace json_escape
  render-Starts null rest h = starts _ _ refl refl refl
  render-Starts (bool true) rest h = starts _ _ refl refl refl
  render-Starts (bool false) rest h = starts _ _ refl refl refl
  render-Starts (number v [] is_int) rest h = absurd (omega arith)
  render-Starts (number v (c ∷ raw) is_int) rest h =
      starts c (raw ++ rest) refl (ground arith) (ground arith)
  render-Starts (string s) rest h = starts _ _ refl refl refl
  render-Starts (array no_items) rest h = starts _ _ refl refl refl
  render-Starts (array (item v xs)) rest h = starts _ _ refl refl refl
  render-Starts (object no_fields) rest h = starts _ _ refl refl refl
  render-Starts (object (field k v fs)) rest h = starts _ _ refl refl refl

  pub skip_ws-Starts : (p : Bytes) → Starts p → skip_ws p ≡ p
  skip_ws-Starts p (starts c q e blank open_) = rw e (skip_ws_other c q blank)

  pub closes-Starts : (p : Bytes) → Starts p → closes b']' p ≡ none
  unfolding closes
  closes-Starts p (starts c q e blank open_) = rw (e, open_) refl

  pub render_items-Stops : (xs : Items D) (rest : Bytes) → Stops (render_items xs ++ rest)
  unfolding render_items in_number
  render_items-Stops no_items rest = refl
  render_items-Stops (item v xs) rest = refl

  pub render_fields-Stops : (fs : Fields D) (rest : Bytes) → Stops (render_fields fs ++ rest)
  unfolding render_fields in_number
  render_fields-Stops no_fields rest = refl
  render_fields-Stops (field k v fs) rest = refl

  -- What follows a value in an array: the loop ends, or goes on behind the comma.
  pub skip_ws_items :
      (xs : Items D) (rest : Bytes) → skip_ws (render_items xs ++ rest) ≡ render_items xs ++ rest
  unfolding skip_ws isspace render_items
  skip_ws_items no_items rest = refl
  skip_ws_items (item v xs) rest = refl

  pub skip_ws_fields :
      (fs : Fields D) (rest : Bytes) → skip_ws (render_fields fs ++ rest) ≡ render_fields fs ++ rest
  unfolding skip_ws isspace render_fields
  skip_ws_fields no_fields rest = refl
  skip_ws_fields (field k v fs) rest = refl

  pub parse_items_step :
      (f : ℕ) (v : Json D) (xs : Items D) (rest p : Bytes)
      → Starts p
      → parse_value strtod f p ≡ ok (v, render_items xs ++ rest)
      → parse_items strtod (suc f) p
        ≡ after_item (λ r. parse_items strtod f r) v (render_items xs ++ rest)
  unfolding parse_items
  parse_items_step f v xs rest p s e = rw (skip_ws-Starts p s, e, skip_ws_items xs rest) refl

  pub parse_array :
      (f : ℕ) (v : Json D) (xs : Items D) (rest p : Bytes)
      → Starts p
      → parse_items strtod f p ≡ ok (item v xs, rest)
      → parse_value strtod (suc f) (b'[' ∷ p) ≡ ok (array (item v xs), rest)
  unfolding parse_value dispatch
  parse_array f v xs rest p s e =
      rw (skip_ws_other b'[' p (unfold isspace in refl), skip_ws-Starts p s, closes-Starts p s, e)
        refl

  pub skip_ws_string : (s rest : Bytes) → skip_ws (json_escape s ++ rest) ≡ json_escape s ++ rest
  unfolding skip_ws isspace json_escape
  skip_ws_string s rest = refl

  pub parse_fields_step :
      (f : ℕ) (k : Bytes) (v : Json D) (fs : Fields D) (rest p : Bytes)
      → IsCStr k
      → Starts p
      → parse_value strtod f p ≡ ok (v, render_fields fs ++ rest)
      → parse_fields strtod (suc f) (json_escape k ++ b':' ∷ p)
        ≡ after_field (λ t. parse_fields strtod f t) k v (render_fields fs ++ rest)
  unfolding parse_fields expect_colon
  parse_fields_step f k v fs rest p h s e =
      rw
        (
          skip_ws_string k (b':' ∷ p),
          parse_string-json_escape k (b':' ∷ p) h,
          skip_ws_other b':' p (unfold isspace in refl),
          skip_ws-Starts p s,
          e,
          skip_ws_fields fs rest,
        )
        refl

  pub open_string : (k p : Bytes) → closes b'}' (json_escape k ++ p) ≡ none
  unfolding closes json_escape
  open_string k p = refl

  pub parse_object :
      (f : ℕ) (k : Bytes) (v : Json D) (fs : Fields D) (rest p : Bytes)
      → parse_fields strtod f (json_escape k ++ p) ≡ ok (field k v fs, rest)
      → parse_value strtod (suc f) (b'{' ∷ (json_escape k ++ p)) ≡ ok (object (field k v fs), rest)
  unfolding parse_value dispatch
  parse_object f k v fs rest p e =
      rw
        (
          skip_ws_other b'{' (json_escape k ++ p) (unfold isspace in refl),
          skip_ws_string k p,
          open_string k p,
          e,
        )
        refl

  pub empty_array :
      (f : ℕ) (rest : Bytes)
      → parse_value strtod (suc f) (codes "[]" ++ rest) ≡ ok (array no_items, rest)
  unfolding parse_value dispatch closes skip_ws isspace
  empty_array f rest = refl

  pub empty_object :
      (f : ℕ) (rest : Bytes)
      → parse_value strtod (suc f) (codes "{}" ++ rest) ≡ ok (object no_fields, rest)
  unfolding parse_value dispatch closes skip_ws isspace
  empty_object f rest = refl

  pub more_items :
      (g : Bytes → Parsed (Items D)) (v u : Json D) (xs : Items D) (rest p : Bytes)
      → g p ≡ ok (item u xs, rest)
      → after_item g v (b',' ∷ p) ≡ ok (item v (item u xs), rest)
  unfolding after_item
  more_items g v u xs rest p e = rw e refl

  pub more_fields :
      (g : Bytes → Parsed (Fields D)) (k j : Bytes) (v u : Json D) (fs : Fields D) (rest p : Bytes)
      → g p ≡ ok (field j u fs, rest)
      → after_field g k v (b',' ∷ p) ≡ ok (field k v (field j u fs), rest)
  unfolding after_field
  more_fields g k j v u fs rest p e = rw e refl

  pub last_item :
      (g : Bytes → Parsed (Items D)) (v : Json D) (rest : Bytes)
      → after_item g v (b']' ∷ rest) ≡ ok (item v no_items, rest)
  unfolding after_item
  last_item g v rest = refl

  pub last_field :
      (g : Bytes → Parsed (Fields D)) (k : Bytes) (v : Json D) (rest : Bytes)
      → after_field g k v (b'}' ∷ rest) ≡ ok (field k v no_fields, rest)
  unfolding after_field
  last_field g k v rest = refl

  pub cost_pos : (j : Json D) → 0 < cost j
  unfolding cost
  cost_pos null = omega arith
  cost_pos (bool b) = omega arith
  cost_pos (number v raw i) = omega arith
  cost_pos (string s) = omega arith
  cost_pos (array xs) = omega arith
  cost_pos (object fs) = omega arith
