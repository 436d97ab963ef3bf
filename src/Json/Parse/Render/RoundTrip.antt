-- ===== src/Json/Parse/Render/RoundTrip.antt =====
-- gbf_json_parse reads a minified print back.
use gbin.Prelude.{
  ℕ, zero, suc, ◌+◌, ◌*◌, ◌≤◌, ◌≡◌, refl, ap, ◌∙◌, sym, arith, true, false, [], ◌∷◌, ◌++◌,
  append_assoc, append-nil, Option, Bytes, IsCStr, length, length-append, ok,
}
use gbin.Json.{
  Json, Items, Fields, null, bool, number, string, array, object, no_items, item, no_fields, field,
}
use gbin.Json.Text.{skip_ws, json_escape}
use gbin.Json.Parse.{parse_value, parse_items, parse_fields, json_parse}
use gbin.Json.Parse.Render.{
  render, render_items, render_fields, IsPrintable, ArePrintable, HavePrintable, cost, cost_items,
  cost_fields, Stops,
}
use gbin.Json.Parse.Render.Scalars.{
  parse_value-number, parse_value-string, parse_value-bool, parse_value-null,
}
use gbin.Json.Parse.Render.Steps.{
  cost_pos, empty_array, empty_object, last_field, last_item, more_fields, more_items, parse_array,
  parse_fields_step, parse_items_step, parse_object, render-Starts, render_fields-Stops,
  render_items-Stops,
}

module _ {D : Type 0} (strtod : Bytes → Option D) where
  mutual
    unfolding render render_items render_fields IsPrintable ArePrintable HavePrintable cost
        cost_items cost_fields

    value_back :
        (j : Json D) (f : ℕ) (rest : Bytes)
        → IsPrintable strtod j
        → Stops rest
        → cost j ≤ f
        → parse_value strtod f (render j ++ rest) ≡ ok (j, rest)
    value_back j zero rest h stop enough = absurd (omega (arith, cost_pos strtod j))
    value_back null (suc f) rest h stop enough = parse_value-null strtod f rest
    value_back (bool b) (suc f) rest h stop enough = parse_value-bool strtod f b rest
    value_back (number v raw i) (suc f) rest h stop enough =
        parse_value-number strtod f raw rest v h.0 h.1 h.2 stop
        ∙ ap (λ t. ok (number v raw t, rest)) (sym h.3)
    value_back (string s) (suc f) rest h stop enough = parse_value-string strtod f s rest h
    value_back (array no_items) (suc f) rest h stop enough = empty_array strtod f rest
    value_back (array (item v xs)) (suc f) rest h stop enough =
        rw (append_assoc (render v) (render_items xs) rest) (
          parse_array strtod f v xs rest _ (render-Starts strtod v (render_items xs ++ rest) h.0)
            (items_back v xs f rest h.0 h.1 (omega arith)))
    value_back (object no_fields) (suc f) rest h stop enough = empty_object strtod f rest
    value_back (object (field k v fs)) (suc f) rest h stop enough =
        let tail = render_fields fs ++ rest in
        rw
          (
            append_assoc (json_escape k) (b':' ∷ (render v ++ render_fields fs)) rest,
            append_assoc (render v) (render_fields fs) rest,
          )
          (parse_object strtod f k v fs rest (b':' ∷ (render v ++ tail))
            (fields_back k v fs f rest h.0 h.1 h.2 (omega arith)))

    items_back :
        (v : Json D) (xs : Items D) (f : ℕ) (rest : Bytes)
        → IsPrintable strtod v
        → ArePrintable strtod xs
        → suc (cost v + cost_items xs) ≤ f
        → parse_items strtod f (render v ++ (render_items xs ++ rest)) ≡ ok (item v xs, rest)
    items_back v xs zero rest h hs enough = absurd (omega arith)
    items_back v no_items (suc f) rest h hs enough =
        parse_items_step strtod f v no_items rest _ (render-Starts strtod v _ h)
          (value_back v f _ h (render_items-Stops strtod no_items rest) (omega arith))
        ∙ last_item strtod _ v rest
    items_back v (item u xs) (suc f) rest h hs enough =
        parse_items_step strtod f v (item u xs) rest _ (render-Starts strtod v _ h)
          (value_back v f _ h (render_items-Stops strtod (item u xs) rest) (omega arith))
        ∙ rw (append_assoc (render u) (render_items xs) rest)
            (more_items strtod _ v u xs rest _ (items_back u xs f rest hs.0 hs.1 (omega arith)))

    fields_back :
        (k : Bytes) (v : Json D) (fs : Fields D) (f : ℕ) (rest : Bytes)
        → IsCStr k
        → IsPrintable strtod v
        → HavePrintable strtod fs
        → suc (cost v + cost_fields fs) ≤ f
        → parse_fields strtod f (json_escape k ++ b':' ∷ (render v ++ (render_fields fs ++ rest)))
          ≡ ok (field k v fs, rest)
    fields_back k v fs zero rest c h hs enough = absurd (omega arith)
    fields_back k v no_fields (suc f) rest c h hs enough =
        parse_fields_step strtod f k v no_fields rest _ c (render-Starts strtod v _ h)
          (value_back v f _ h (render_fields-Stops strtod no_fields rest) (omega arith))
        ∙ last_field strtod _ k v rest
    fields_back k v (field j u fs) (suc f) rest c h hs enough =
        parse_fields_step strtod f k v (field j u fs) rest _ c (render-Starts strtod v _ h)
          (value_back v f _ h (render_fields-Stops strtod (field j u fs) rest) (omega arith))
        ∙ rw
            (
              append_assoc (json_escape j) (b':' ∷ (render u ++ render_fields fs)) rest,
              append_assoc (render u) (render_fields fs) rest,
            )
            (more_fields strtod _ k j v u fs rest _
              (fields_back j u fs f rest hs.0 hs.1 hs.2 (omega arith)))

  mutual
    unfolding render render_items render_fields IsPrintable ArePrintable HavePrintable cost
        cost_items cost_fields json_escape

    cost-le-length : (j : Json D) → IsPrintable strtod j → cost j ≤ length (render j)
    cost-le-length null h = omega arith
    cost-le-length (bool true) h = omega arith
    cost-le-length (bool false) h = omega arith
    cost-le-length (number v raw i) h = omega arith
    cost-le-length (string s) h = omega arith
    cost-le-length (array no_items) h = omega arith
    cost-le-length (array (item v xs)) h = omega (
      arith,
      length-append (render v) (render_items xs),
      cost-le-length v h.0,
      items-le-length xs h.1,
    )
    cost-le-length (object no_fields) h = omega arith
    cost-le-length (object (field k v fs)) h = omega (
      arith,
      length-append (json_escape k) (b':' ∷ (render v ++ render_fields fs)),
      length-append (render v) (render_fields fs),
      cost-le-length v h.1,
      fields-le-length fs h.2,
    )

    items-le-length :
        (xs : Items D) → ArePrintable strtod xs → suc (cost_items xs) ≤ length (render_items xs)
    items-le-length no_items h = omega arith
    items-le-length (item v xs) h = omega (
      arith,
      length-append (render v) (render_items xs),
      cost-le-length v h.0,
      items-le-length xs h.1,
    )

    fields-le-length :
        (fs : Fields D) → HavePrintable strtod fs → suc (cost_fields fs) ≤ length (render_fields fs)
    fields-le-length no_fields h = omega arith
    fields-le-length (field k v fs) h = omega (
      arith,
      length-append (json_escape k) (b':' ∷ (render v ++ render_fields fs)),
      length-append (render v) (render_fields fs),
      cost-le-length v h.1,
      fields-le-length fs h.2,
    )

  -- gbf_json_parse of the minified print of a JSON value is that value, where its strings and keys
  -- are C strings and its numbers are unsigned decimal integers that strtod reads.
  pub json_parse-render : (j : Json D) → IsPrintable strtod j → json_parse strtod (render j) ≡ ok j
  unfolding json_parse
  json_parse-render j h =
      let enough : cost j ≤ 2 * length (render j) + 2 = omega (arith, cost-le-length j h) in
      let back = value_back j (2 * length (render j) + 2) [] h tt enough in
      rw (no_rest (2 * length (render j) + 2) (render j) back) (unfold skip_ws in refl)
    where
      no_rest :
          (f : ℕ) (p : Bytes)
          → parse_value strtod f (p ++ []) ≡ ok (j, [])
          → parse_value strtod f p ≡ ok (j, [])
      no_rest f p e = rw (append-nil p) at e
