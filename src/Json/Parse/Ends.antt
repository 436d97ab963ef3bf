-- ===== src/Json/Parse/Ends.antt =====
-- gbf_json_parse ends on every input: the fuel of the model always suffices.
use gbin.Prelude.{
  ℕ, zero, suc, ◌+◌, ◌*◌, ◌≤◌, ◌<◌, ◌≡◌, ◌≢◌, refl, arith, Bool, true, false, [], ◌∷◌, Option, none,
  some, Bytes, length, length-drop, ◌==◌, Result, err, ◌>>=◌, Bool-cases, inl, inr, not, codes,
  starts_with,
}
use gbin.Error.{JsonError, out_of_fuel}
use gbin.Json.{Json, Items, Fields, bool, null}
use gbin.Json.Text.{Parsed, skip_ws}
use gbin.Json.Text.Ends.{
  Ends, ends, rejects, Ends-bind, Ends-if, Ends-mono, length-skip_ws, parse_string-Ends,
}
use gbin.Json.Parse.{
  number_span, in_number, is_exponent, match_lit, literal, as_array, as_object, after_item,
  after_field, expect_colon, closes, or_items, or_fields, number_of, parse_number, parse_scalar,
  dispatch, parse_value, parse_items, parse_fields, finish, json_parse,
}

-- What the number scan leaves is shorter by what it took.
length-number_span :
    (sign : Bool) (p : Bytes)
    → length (number_span sign p).0 + length (number_span sign p).1 ≡ length p
unfolding number_span
length-number_span sign [] = refl
length-number_span sign (c ∷ p) = elim (Bool-cases (in_number sign c)) [
  | inl taken ↦ rw taken (omega (arith, length-number_span (is_exponent c) p))
  | inr other ↦ rw other (omega arith)
]

starts_with_room : (p lit : Bytes) → starts_with p lit ≡ true → length lit ≤ length p
starts_with_room p [] h = omega arith
starts_with_room [] (b ∷ lit) h = cc
starts_with_room (a ∷ p) (b ∷ lit) h = ground (arith, starts_with_room p lit)

module _ {D : Type 0} where
  literal-Ends :
      (j : Json D) (lit p : Bytes) → 0 < length lit → Ends (length p) (literal j (match_lit lit p))
  unfolding match_lit
  literal-Ends j lit p pos = elim (Bool-cases (starts_with p lit)) [
    | inl found ↦
        rw found (ends (omega (arith, length-drop (length lit) p, starts_with_room p lit found)))
    | inr absent ↦ rw absent (rejects (λ e. cc))
  ]

  number_of-Ends :
      (raw q : Bytes) (n : ℕ) (o : Option D) → length q < n → Ends n (number_of raw q o)
  number_of-Ends raw q n none h = rejects (λ e. cc)
  number_of-Ends raw q n (some v) h = ends h

  after_item-Ends :
      (rest : Bytes → Parsed (Items D)) (v : Json D) (p : Bytes) (n : ℕ)
      → length p < n
      → ((q : Bytes) → length q < length p → Ends n (rest q))
      → Ends n (after_item rest v p)
  unfolding after_item
  after_item-Ends rest v [] n h k = rejects (λ e. cc)
  after_item-Ends rest v (c ∷ p) n h k = Ends-if (c == b']') (ends (omega arith)) (
      Ends-if (not (c == b',')) (rejects (λ e. cc))
        (Ends-bind _ (k p (omega arith)) λ xs q lt. ends lt))

  after_field-Ends :
      (rest : Bytes → Parsed (Fields D)) (key : Bytes) (v : Json D) (p : Bytes) (n : ℕ)
      → length p < n
      → ((q : Bytes) → length q < length p → Ends n (rest q))
      → Ends n (after_field rest key v p)
  unfolding after_field
  after_field-Ends rest key v [] n h k = rejects (λ e. cc)
  after_field-Ends rest key v (c ∷ p) n h k = Ends-if (c == b'}') (ends (omega arith)) (
      Ends-if (not (c == b',')) (rejects (λ e. cc))
        (Ends-bind _ (k p (omega arith)) λ xs q lt. ends lt))

  or_items-Ends :
      (bracket n : ℕ) (p : Bytes) (more : Parsed (Items D))
      → length p ≤ n
      → Ends n more
      → Ends n (or_items (closes bracket p) more)
  unfolding closes
  or_items-Ends bracket n [] more h k = k
  or_items-Ends bracket n (c ∷ p) more h k = elim (Bool-cases (c == bracket)) [
    | inl e ↦ rw e (ends (omega arith))
    | inr e ↦ rw e k
  ]

  or_fields-Ends :
      (bracket n : ℕ) (p : Bytes) (more : Parsed (Fields D))
      → length p ≤ n
      → Ends n more
      → Ends n (or_fields (closes bracket p) more)
  unfolding closes
  or_fields-Ends bracket n [] more h k = k
  or_fields-Ends bracket n (c ∷ p) more h k = elim (Bool-cases (c == bracket)) [
    | inl e ↦ rw e (ends (omega arith))
    | inr e ↦ rw e k
  ]

  colon-Ends :
      (p : Bytes) (n : ℕ) (f : Bytes → Parsed (Fields D))
      → ((q : Bytes) → length q < length p → Ends n (f q))
      → Ends n (expect_colon p >>= f)
  unfolding expect_colon
  colon-Ends [] n f k = rejects (λ e. cc)
  colon-Ends (c ∷ p) n f k = elim (Bool-cases (c == b':')) [
    | inl e ↦ rw e (k p (omega arith))
    | inr e ↦ rw e (rejects (λ x. cc))
  ]

module _ {D : Type 0} (strtod : Bytes → Option D) where
  parse_number-Ends : (p : Bytes) → Ends (length p) (parse_number strtod p)
  unfolding parse_number
  parse_number-Ends p = elim (Bool-cases (length (number_span true p).0 == 0)) [
    | inl nothing ↦ rw nothing (rejects (λ e. cc))
    | inr raw ↦ rw raw (
        number_of-Ends _ _ _ (strtod (number_span true p).0)
          (ground (arith, length-number_span true p)))
  ]

  parse_scalar-Ends : (c : ℕ) (p : Bytes) → Ends (length p) (parse_scalar strtod c p)
  unfolding parse_scalar
  parse_scalar-Ends c p = Ends-if (c == 34) (Ends-bind _ (parse_string-Ends p) λ s q lt. ends lt) (
      Ends-if (c == b't') (literal-Ends (bool true) (codes "true") p (omega arith)) (
        Ends-if (c == b'f') (literal-Ends (bool false) (codes "false") p (omega arith)) (
          Ends-if (c == b'n') (literal-Ends null (codes "null") p (omega arith))
            (parse_number-Ends p))))

  dispatch-Ends :
      (items : Bytes → Parsed (Items D)) (fields : Bytes → Parsed (Fields D)) (p : Bytes)
      → ((q : Bytes) → length q < length p → Ends (length p) (items q))
      → ((q : Bytes) → length q < length p → Ends (length p) (fields q))
      → Ends (length p) (dispatch strtod items fields p)
  unfolding dispatch
  dispatch-Ends items fields [] hi hf = rejects (λ e. cc)
  dispatch-Ends items fields (c ∷ p) hi hf =
      Ends-if (c == b'{') (Ends-bind as_object (hf p (omega arith)) λ fs q lt. ends lt) (
        Ends-if (c == b'[') (Ends-bind as_array (hi p (omega arith)) λ xs q lt. ends lt)
          (parse_scalar-Ends c (c ∷ p)))

  mutual
    unfolding parse_value

    parse_value-Ends :
        (f : ℕ) (p : Bytes) → 2 * length p < f → Ends (length p) (parse_value strtod f p)
    parse_value-Ends zero p h = absurd (omega arith)
    parse_value-Ends (suc f) p h = Ends-mono (length-skip_ws p) (
        dispatch-Ends _ _ (skip_ws p)
          (λ q lt. or_items-Ends b']' _ (skip_ws q) _ (omega (arith, length-skip_ws q)) (
            Ends-mono (omega (arith, length-skip_ws q))
              (parse_items-Ends f (skip_ws q) (omega (arith, length-skip_ws q, length-skip_ws p)))))
          (λ q lt. or_fields-Ends b'}' _ (skip_ws q) _ (omega (arith, length-skip_ws q)) (
            Ends-mono (omega (arith, length-skip_ws q)) (
              parse_fields-Ends f (skip_ws q)
                (omega (arith, length-skip_ws q, length-skip_ws p))))))

    parse_items-Ends :
        (f : ℕ) (p : Bytes) → suc (2 * length p) < f → Ends (length p) (parse_items strtod f p)
    parse_items-Ends zero p h = absurd (omega arith)
    parse_items-Ends (suc f) p h =
        Ends-bind _ (parse_value-Ends f (skip_ws p) (omega (arith, length-skip_ws p))) λ v q lt.
          after_item-Ends (λ r. parse_items strtod f r) v (skip_ws q) _
            (omega (arith, length-skip_ws p, length-skip_ws q))
            λ r less.
              Ends-mono (omega (arith, length-skip_ws p, length-skip_ws q))
                (parse_items-Ends f r (omega (arith, length-skip_ws p, length-skip_ws q)))

    parse_fields-Ends :
        (f : ℕ) (p : Bytes) → suc (2 * length p) < f → Ends (length p) (parse_fields strtod f p)
    parse_fields-Ends zero p h = absurd (omega arith)
    parse_fields-Ends (suc f) p h = Ends-bind _ (parse_string-Ends (skip_ws p)) λ k q lt.
        colon-Ends (skip_ws q) _ _ λ r less.
          Ends-bind _
            (parse_value-Ends f (skip_ws r)
              (omega (arith, length-skip_ws p, length-skip_ws q, length-skip_ws r)))
            λ v s shorter.
              after_field-Ends (λ t. parse_fields strtod f t) k v (skip_ws s) _
                (omega
                  (arith, length-skip_ws p, length-skip_ws q, length-skip_ws r, length-skip_ws s))
                λ t fewer.
                  Ends-mono
                    (omega (
                      arith,
                      length-skip_ws p,
                      length-skip_ws q,
                      length-skip_ws r,
                      length-skip_ws s,
                    ))
                    (parse_fields-Ends f t (
                      omega (
                        arith,
                        length-skip_ws p,
                        length-skip_ws q,
                        length-skip_ws r,
                        length-skip_ws s,
                      )))

  finish-ne-out_of_fuel : (v : Json D) (p : Bytes) → finish v p ≢ err out_of_fuel
  unfolding finish
  finish-ne-out_of_fuel v [] = λ e. cc
  finish-ne-out_of_fuel v (c ∷ p) = λ e. cc

  bind-ne-out_of_fuel :
      {r : Parsed (Json D)} {n : ℕ} (f : Json D × Bytes → Result JsonError (Json D))
      → Ends n r
      → ((v : Json D) (q : Bytes) → f (v, q) ≢ err out_of_fuel)
      → (r >>= f) ≢ err out_of_fuel
  bind-ne-out_of_fuel f (ends {a} {q} h) k = k a q
  bind-ne-out_of_fuel f (rejects h) k = λ e. h (cc)

  -- For every input the parser returns a value or one of the source's messages: the recursion of the
  -- model never runs out of fuel.
  pub json_parse-ne-out_of_fuel : (s : Bytes) → json_parse strtod s ≢ err out_of_fuel
  unfolding json_parse
  json_parse-ne-out_of_fuel s =
      bind-ne-out_of_fuel _ (parse_value-Ends (2 * length s + 2) s (omega arith))
        λ v q. finish-ne-out_of_fuel v (skip_ws q)
