-- ===== src/Easy/Shape.antt =====
-- shape_numel_checked and shape_total_bytes_checked of C/src/gbf_easy.c.
use gbin.Prelude.{
  ℕ, ◌*◌, ◌≤◌, ◌<◌, ◌≡◌, refl, arith, List, [], ◌∷◌, Option, none, some, true, false, Option-cases,
  All, ◌==◌, if◌then◌else◌, inl, inr, ap, ◌∙◌, sym, Bool-cases, ne→==, le→leb,
}
use gbin.Word.{size_max, checked_mul_size}
use gbin.Word.Size.{checked_mul_size_lem, checked_mul_size_cases}
use gbin.Value.Shape.{
  product, numel_loop, numel_loop_sound, numel_loop_complete, product_pos, le_mul_pos,
}
use mathlib.Core.Option.{none-ne-some}
use native.Mathlib.Nat.{one-mul}

abbrev next_numel : (ℕ → Option ℕ) → Option ℕ → Option ℕ
next_numel rest none = none
next_numel rest (some n) = rest n

-- A dimension of zero is refused.
unfoldable pub checked_loop : ℕ → List ℕ → Option ℕ
checked_loop n [] = some n
checked_loop n (d ∷ shape) = elim (d == 0) [
  | true ↦ none
  | false ↦ next_numel (λ t. checked_loop t shape) (checked_mul_size n d)
]

unfoldable pub shape_numel_checked : List ℕ → Option ℕ
unfolding checked_loop
shape_numel_checked [] = none
shape_numel_checked (d ∷ shape) = checked_loop 1 (d ∷ shape)

abbrev sized : ℕ → Option ℕ → Option (ℕ × ℕ)
sized n none = none
sized n (some total) = if total == 0 then none else some (n, total)

abbrev total_of : ℕ → Option ℕ → Option (ℕ × ℕ)
total_of size none = none
total_of size (some n) = sized n (checked_mul_size n size)

-- The count of the elements and of their bytes.
unfoldable pub shape_total_bytes_checked : List ℕ → ℕ → Option (ℕ × ℕ)
shape_total_bytes_checked shape size = total_of size (shape_numel_checked shape)

checked_loop-numel_loop :
    (n : ℕ) (shape : List ℕ) → All (λ d. 0 < d) shape → checked_loop n shape ≡ numel_loop n shape
unfolding checked_loop numel_loop
checked_loop-numel_loop n [] pos = refl
checked_loop-numel_loop n (d ∷ shape) pos = elim (checked_mul_size_cases n d) [
  | inl (over, _) ↦ rw (checked_loop, ne→== d 0 (omega (arith, pos.0)), over) refl
  | inr (exact, _) ↦
      rw (checked_loop, ne→== d 0 (omega (arith, pos.0)), exact)
        (checked_loop-numel_loop (n * d) shape pos.1)
]

checked_loop-All :
    (n : ℕ) (shape : List ℕ) (m : ℕ) → checked_loop n shape ≡ some m → All (λ d. 0 < d) shape
unfolding checked_loop
checked_loop-All n [] m h = tt
checked_loop-All n (d ∷ shape) m h = elim (Bool-cases (d == 0)) [
  | inl zero ↦ absurd (none-ne-some _ (rw (checked_loop, zero) at h))
  | inr pos ↦ elim (checked_mul_size_cases n d) [
    | inl (over, _) ↦ absurd (none-ne-some _ (rw (checked_loop, pos, over) at h))
    | inr (exact, fits) ↦
        (ground arith, checked_loop-All (n * d) shape m (rw (checked_loop, pos, exact) at h))
  ]
]

-- A shape that shape_total_bytes_checked accepts.
pub record IsCounted (shape : List ℕ) (size n total : ℕ) : Type 0 where
  pub dims : All (λ d. 0 < d) shape
  pub count : n ≡ product shape
  pub bytes : total ≡ product shape * size
  pub fits : total ≤ size_max

pair_of : Option (ℕ × ℕ) → ℕ × ℕ
pair_of none = (0, 0)
pair_of (some p) = p

pair_eq : {a b c d : ℕ} → Path (Option (ℕ × ℕ)) (some (a, b)) (some (c, d)) → (a ≡ c) × (b ≡ d)
unfolding pair_of
pair_eq h = (ap (λ o. (pair_of o).0) h, ap (λ o. (pair_of o).1) h)

counted :
    (shape : List ℕ) (size n m total : ℕ)
    → All (λ d. 0 < d) shape
    → (m ≡ product shape) × (m ≤ size_max)
    → sized m (checked_mul_size m size) ≡ some (n, total)
    → IsCounted shape size n total
counted shape size n m total pos h e = elim (checked_mul_size_cases m size) [
  | inl (over, _) ↦ absurd (none-ne-some _ (rw over at e))
  | inr (exact, fits) ↦ elim (Bool-cases (m * size == 0)) [
    | inl zero ↦ absurd (none-ne-some _ (rw (exact, zero) at e))
    | inr pos_total ↦
        let (count, bytes) = pair_eq (rw (exact, pos_total) at e) in
        record {
          dims = pos;
          count = sym count ∙ h.0;
          bytes = sym bytes ∙ ap (λ k. k * size) h.0;
          fits = omega (arith, bytes, fits);
        }
  ]
]

shape_numel_checked-cases :
    (shape : List ℕ) (m : ℕ)
    → shape_numel_checked shape ≡ some m
    → All (λ d. 0 < d) shape × (m ≡ product shape) × (m ≤ size_max)
unfolding shape_numel_checked
shape_numel_checked-cases [] m h = absurd (none-ne-some _ h)
shape_numel_checked-cases (d ∷ shape) m h =
    let pos = checked_loop-All 1 (d ∷ shape) m h in
    let (e, fits) =
      numel_loop_sound 1 (d ∷ shape) (omega arith)
        (sym (checked_loop-numel_loop 1 (d ∷ shape) pos) ∙ h) in
    (pos, omega (arith, e), fits)

pub shape_total_bytes_checked-IsCounted :
    (shape : List ℕ) (size n total : ℕ)
    → shape_total_bytes_checked shape size ≡ some (n, total)
    → IsCounted shape size n total
unfolding shape_total_bytes_checked
shape_total_bytes_checked-IsCounted shape size n total h =
    elim (Option-cases (shape_numel_checked shape)) [
      | inl refused ↦ absurd (none-ne-some _ (rw refused at h))
      | inr (m, e) ↦
          let cases = shape_numel_checked-cases shape m e in
          counted shape size n m total cases.0 (cases.1, cases.2) (rw e at h)
    ]

-- A shape with a dimension, all positive, whose elements take at most SIZE_MAX bytes.
pub shape_total_bytes_checked_complete :
    (d : ℕ) (shape : List ℕ) (size : ℕ)
    → All (λ k. 0 < k) (d ∷ shape)
    → 0 < size
    → product (d ∷ shape) * size ≤ size_max
    → shape_total_bytes_checked (d ∷ shape) size
      ≡ some (product (d ∷ shape), product (d ∷ shape) * size)
unfolding shape_total_bytes_checked shape_numel_checked
shape_total_bytes_checked_complete d shape size pos size_pos h =
    let p = product (d ∷ shape) in
    let p_pos = product_pos (d ∷ shape) pos in
    let p_fits : p ≤ size_max = omega (arith, le_mul_pos p size size_pos, h) in
    let exact : checked_mul_size p size ≡ some (p * size) =
      checked_mul_size_lem p size ∙ rw (le→leb (p * size) size_max h) refl in
    rw
      (
        checked_loop-numel_loop 1 (d ∷ shape) pos,
        numel_loop_complete 1 (d ∷ shape) pos (omega (arith, one-mul p, p_fits)),
        one-mul p,
        exact,
        ne→== (p * size) 0 (omega (arith, le_mul_pos p size size_pos, p_pos)),
      )
      refl
