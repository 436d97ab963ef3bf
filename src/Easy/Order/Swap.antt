-- ===== src/Easy/Order/Swap.antt =====
-- gbf_easy_bswap_inplace of C/src/gbf_easy.c reverses the bytes of every element.
use gbin.Prelude.{
  ℕ, zero, suc, ◌+◌, ◌-◌, ◌≤◌, ◌<◌, ◌≡◌, refl, sym, ap, ◌∙◌, arith, [], ◌∷◌, ◌++◌, Bytes, length,
  get_or, set, ltb, ltb→lt, ltb→le, ◌==◌, ==→eq, ==→ne, ◌⊎◌, Bool-cases, inl, inr, length-append,
  ◌⊎◌,
}
use gbin.Easy.Order.{swap_loop}

-- The element back to front.
unfoldable pub reverse : Bytes → Bytes
reverse [] = []
reverse (x ∷ xs) = reverse xs ++ x ∷ []

length-set : (xs : Bytes) (i v : ℕ) → length (set xs i v) ≡ length xs
length-set [] i v = refl
length-set (x ∷ xs) zero v = refl
length-set (x ∷ xs) (suc i) v = ap suc (length-set xs i v)

get_or-set_self : (xs : Bytes) (i v : ℕ) → i < length xs → get_or (set xs i v) i 0 ≡ v
get_or-set_self [] i v h = absurd (omega arith)
get_or-set_self (x ∷ xs) zero v h = refl
get_or-set_self (x ∷ xs) (suc i) v h = get_or-set_self xs i v (omega arith)

get_or-set_ne : (xs : Bytes) (i j v : ℕ) → ¬ (j ≡ i) → get_or (set xs i v) j 0 ≡ get_or xs j 0
get_or-set_ne [] i j v h = refl
get_or-set_ne (x ∷ xs) zero zero v h = absurd (h refl)
get_or-set_ne (x ∷ xs) zero (suc j) v h = refl
get_or-set_ne (x ∷ xs) (suc i) zero v h = refl
get_or-set_ne (x ∷ xs) (suc i) (suc j) v h = get_or-set_ne xs i j v (omega arith)

-- Two lists of one length with the same bytes are one.
get_or-ext :
    (xs ys : Bytes)
    → length xs ≡ length ys
    → ((i : ℕ) → i < length xs → get_or xs i 0 ≡ get_or ys i 0)
    → xs ≡ ys
get_or-ext [] [] e h = refl
get_or-ext [] (y ∷ ys) e h = absurd (omega arith)
get_or-ext (x ∷ xs) [] e h = absurd (omega arith)
get_or-ext (x ∷ xs) (y ∷ ys) e h =
    rw (h 0 (omega arith), get_or-ext xs ys (omega arith) λ i k. h (suc i) (omega arith)) refl

get_or-append_left : (xs ys : Bytes) (i : ℕ) → i < length xs → get_or (xs ++ ys) i 0 ≡ get_or xs i 0
get_or-append_left [] ys i h = absurd (omega arith)
get_or-append_left (x ∷ xs) ys zero h = refl
get_or-append_left (x ∷ xs) ys (suc i) h = get_or-append_left xs ys i (omega arith)

get_or-append_last : (xs : Bytes) (x i : ℕ) → i ≡ length xs → get_or (xs ++ x ∷ []) i 0 ≡ x
get_or-append_last [] x zero h = refl
get_or-append_last [] x (suc i) h = absurd (omega arith)
get_or-append_last (y ∷ xs) x zero h = absurd (omega arith)
get_or-append_last (y ∷ xs) x (suc i) h = get_or-append_last xs x i (omega arith)

pub length-reverse : (xs : Bytes) → length (reverse xs) ≡ length xs
unfolding reverse
length-reverse [] = refl
length-reverse (x ∷ xs) = omega (arith, length-append (reverse xs) (x ∷ []), length-reverse xs)

get_or-reverse :
    (xs : Bytes) (i j : ℕ) → i + suc j ≡ length xs → get_or (reverse xs) i 0 ≡ get_or xs j 0
unfolding reverse
get_or-reverse [] i j h = absurd (omega arith)
get_or-reverse (x ∷ xs) i zero h =
    get_or-append_last (reverse xs) x i (omega (arith, length-reverse xs))
get_or-reverse (x ∷ xs) i (suc j) h =
    get_or-append_left (reverse xs) (x ∷ []) i (omega (arith, length-reverse xs))
    ∙ get_or-reverse xs i j (omega arith)

-- What the loop over the range from a to b makes of the bytes.
record Swapped (a b : ℕ) (p r : Bytes) : Type 0 where
  size_kept : length r ≡ length p
  inside : (i j : ℕ) → a ≤ i → i ≤ b → i + j ≡ a + b → get_or r i 0 ≡ get_or p j 0
  outside : (i : ℕ) → (i < a) ⊎ (b < i) → get_or r i 0 ≡ get_or p i 0

module _ (a b : ℕ) (p : Bytes) (lt : a < b) (fits : b < length p) where
  length-exchanged : length (set (set p a (get_or p b 0)) b (get_or p a 0)) ≡ length p
  length-exchanged =
      length-set (set p a (get_or p b 0)) b (get_or p a 0) ∙ length-set p a (get_or p b 0)

  at_b : get_or (set (set p a (get_or p b 0)) b (get_or p a 0)) b 0 ≡ get_or p a 0
  at_b =
      get_or-set_self (set p a (get_or p b 0)) b (get_or p a 0)
        (omega (arith, length-set p a (get_or p b 0), fits))

  at_a : get_or (set (set p a (get_or p b 0)) b (get_or p a 0)) a 0 ≡ get_or p b 0
  at_a =
      get_or-set_ne (set p a (get_or p b 0)) b a (get_or p a 0) (omega (arith, lt))
      ∙ get_or-set_self p a (get_or p b 0) (omega (arith, lt, fits))

  elsewhere :
      (i : ℕ)
      → ¬ (i ≡ a)
      → ¬ (i ≡ b)
      → get_or (set (set p a (get_or p b 0)) b (get_or p a 0)) i 0 ≡ get_or p i 0
  elsewhere i na nb =
      get_or-set_ne (set p a (get_or p b 0)) b i (get_or p a 0) nb
      ∙ get_or-set_ne p a i (get_or p b 0) na

  Swapped-step :
      (r : Bytes)
      → Swapped (suc a) (b - 1) (set (set p a (get_or p b 0)) b (get_or p a 0)) r
      → Swapped a b p r
  Swapped-step r s = record {
    size_kept = s.size_kept ∙ length-exchanged;
    inside = λ i j lo hi sum. elim (Bool-cases (i == a)) [
      | inl first ↦
          ap (λ k. get_or r k 0) (==→eq i a first)
          ∙ s.outside a (inl (omega arith))
          ∙ at_a
          ∙ ap (λ k. get_or p k 0) (omega (arith, ==→eq i a first, sum))
      | inr not_first ↦ elim (Bool-cases (i == b)) [
        | inl last ↦
            ap (λ k. get_or r k 0) (==→eq i b last)
            ∙ s.outside b (inr (omega (arith, lt)))
            ∙ at_b
            ∙ ap (λ k. get_or p k 0) (omega (arith, ==→eq i b last, sum))
        | inr not_last ↦
            let ni = ==→ne i a not_first in
            let nj = ==→ne i b not_last in
            s.inside i j (omega (arith, lo, ni)) (omega (arith, hi, nj)) (omega (arith, sum, lt))
            ∙ elsewhere j (omega (arith, sum, nj)) (omega (arith, sum, ni))
      ]
    ];
    outside = λ i out. s.outside i (wider i out) ∙ elsewhere i (away_a i out) (away_b i out);
  }
    where
      wider : (i : ℕ) → (i < a) ⊎ (b < i) → (i < suc a) ⊎ (b - 1 < i)
      wider i (inl h) = inl (omega arith)
      wider i (inr h) = inr (omega arith)

      away_a : (i : ℕ) → (i < a) ⊎ (b < i) → ¬ (i ≡ a)
      away_a i (inl h) = omega arith
      away_a i (inr h) = omega (arith, lt)

      away_b : (i : ℕ) → (i < a) ⊎ (b < i) → ¬ (i ≡ b)
      away_b i (inl h) = omega (arith, lt)
      away_b i (inr h) = omega arith

unmoved : (a b : ℕ) (p : Bytes) → b ≤ a → Swapped a b p p
unmoved a b p h = record {
  size_kept = refl;
  inside = λ i j lo hi sum. ap (λ k. get_or p k 0) (omega (arith, lo, hi, sum, h));
  outside = λ i out. refl;
}

swap_loop-Swapped :
    (fuel a b : ℕ) (p : Bytes) → b ≤ a + fuel → b < length p → Swapped a b p (swap_loop fuel a b p)
unfolding swap_loop
swap_loop-Swapped zero a b p enough fits = unmoved a b p (omega arith)
swap_loop-Swapped (suc fuel) a b p enough fits = elim (Bool-cases (ltb a b)) [
  | inr met ↦ rw met (unmoved a b p (ltb→le a b met))
  | inl below ↦
      let lt = ltb→lt a b below in
      rw below (
        Swapped-step a b p lt fits _ (
          swap_loop-Swapped fuel (suc a) (b - 1) (set (set p a (get_or p b 0)) b (get_or p a 0))
            (omega arith) (omega (arith, length-exchanged a b p lt fits))))
]

-- The swaps of one element, with its size for fuel, turn it back to front.
pub swap_loop-reverse :
    (size : ℕ) (p : Bytes) → length p ≡ size → 0 < size → swap_loop size 0 (size - 1) p ≡ reverse p
swap_loop-reverse size p h pos =
    let s = swap_loop-Swapped size 0 (size - 1) p (omega arith) (omega arith) in
    get_or-ext (swap_loop size 0 (size - 1) p) (reverse p) (s.size_kept ∙ sym (length-reverse p))
      λ i k.
        s.inside i (size - 1 - i) (omega arith) (omega (arith, s.size_kept))
          (omega (arith, s.size_kept))
        ∙ sym (get_or-reverse p i (size - 1 - i) (omega (arith, s.size_kept)))
