-- ===== src/Memory.antt =====
-- Bytes in a block of memory that is a list: what a memcpy writes, and what it leaves.
use native.Mathlib.Nat.{mul-le-mul_right, suc-mul}
use gbin.Prelude.{
  ltb, ltb→lt, ltb→le, Bool-cases, ◌*◌, ◌<◌, ℕ, zero, suc, ◌+◌, ◌-◌, ◌≤◌, ◌≡◌, refl, sym, ap, ◌∙◌,
  arith, [], ◌∷◌, ◌++◌, append_assoc, Bytes, length, take, drop, length-append, length-take,
  length-drop, take-append, drop-append_eq, take-append-drop, inl, inr, ◌⊎◌,
}

-- memcpy of `size` bytes to the offset `at`.
unfoldable pub put_bytes : ℕ → Bytes → Bytes → Bytes
put_bytes at src dst = take at dst ++ (src ++ drop (at + length src) dst)

abbrev pub bytes_at : ℕ → ℕ → Bytes → Bytes
bytes_at at size src = take size (drop at src)

pub bytes_at-append_left :
    (pos size : ℕ) (xs r : Bytes)
    → pos + size ≤ length xs
    → bytes_at pos size (xs ++ r) ≡ bytes_at pos size xs
bytes_at-append_left zero zero xs r h = refl
bytes_at-append_left zero (suc size) [] r h = absurd (omega arith)
bytes_at-append_left zero (suc size) (x ∷ xs) r h =
    ap (λ t. x ∷ t) (bytes_at-append_left zero size xs r (omega arith))
bytes_at-append_left (suc pos) size [] r h = absurd (omega arith)
bytes_at-append_left (suc pos) size (x ∷ xs) r h = bytes_at-append_left pos size xs r (omega arith)

pub drop-append_ge :
    (pos : ℕ) (xs r : Bytes) → length xs ≤ pos → drop pos (xs ++ r) ≡ drop (pos - length xs) r
drop-append_ge pos [] r h = ap (λ k. drop k r) (omega arith)
drop-append_ge zero (x ∷ xs) r h = absurd (omega arith)
drop-append_ge (suc pos) (x ∷ xs) r h =
    drop-append_ge pos xs r (omega arith) ∙ ap (λ k. drop k r) (omega arith)

pub length-take_le : (k : ℕ) (xs : Bytes) → k ≤ length xs → length (take k xs) ≡ k
length-take_le k xs h = omega (arith, length-take k xs)

-- Cutting the list after the bytes that are read changes nothing.
pub bytes_at-take :
    (pos size total : ℕ) (src : Bytes)
    → pos + size ≤ total
    → total ≤ length src
    → bytes_at pos size (take total src) ≡ bytes_at pos size src
bytes_at-take pos size total src h enough =
    sym (
      bytes_at-append_left pos size (take total src) (drop total src)
        (omega (arith, length-take_le total src enough)))
    ∙ ap (bytes_at pos size) (take-append-drop total src)

pub length-bytes_at :
    (pos size : ℕ) (xs : Bytes) → pos + size ≤ length xs → length (bytes_at pos size xs) ≡ size
length-bytes_at pos size xs h = omega (arith, length-take size (drop pos xs), length-drop pos xs)

module _ (at : ℕ) (src dst : Bytes) (fits : at + length src ≤ length dst) where
  pub length-put_bytes : length (put_bytes at src dst) ≡ length dst
  unfolding put_bytes
  length-put_bytes = omega (
    arith,
    fits,
    length-append (take at dst) (src ++ drop (at + length src) dst),
    length-append src (drop (at + length src) dst),
    length-take at dst,
    length-drop (at + length src) dst,
  )

  pub bytes_at-put_self : bytes_at at (length src) (put_bytes at src dst) ≡ src
  unfolding put_bytes
  bytes_at-put_self =
      ap (take (length src)) (
        drop-append_eq at (take at dst) (src ++ drop (at + length src) dst)
          (sym (length-take_le at dst (omega (arith, fits)))))
      ∙ take-append src (drop (at + length src) dst)

  -- Before the bytes that are written.
  put_before :
      (pos size : ℕ)
      → pos + size ≤ at
      → bytes_at pos size (put_bytes at src dst) ≡ bytes_at pos size dst
  unfolding put_bytes
  put_before pos size h =
      let inside : pos + size ≤ length (take at dst) =
        omega (arith, h, fits, length-take_le at dst (omega (arith, fits))) in
      bytes_at-append_left pos size (take at dst) (src ++ drop (at + length src) dst) inside
      ∙ sym (bytes_at-append_left pos size (take at dst) (drop at dst) inside)
      ∙ ap (bytes_at pos size) (take-append-drop at dst)

  -- After the bytes that are written.
  put_after :
      (pos size : ℕ)
      → at + length src ≤ pos
      → bytes_at pos size (put_bytes at src dst) ≡ bytes_at pos size dst
  unfolding put_bytes
  put_after pos size h =
      let m = at + length src in
      let whole : length (take at dst ++ src) ≡ m = omega (
        arith,
        fits,
        length-append (take at dst) src,
        length-take_le at dst (omega (arith, fits)),
      ) in
      let same : drop pos (take at dst ++ (src ++ drop m dst)) ≡ drop pos dst =
        ap (drop pos) (sym (append_assoc (take at dst) src (drop m dst)))
        ∙ drop-append_ge pos (take at dst ++ src) (drop m dst) (omega (arith, whole, h))
        ∙ ap (λ k. drop k (drop m dst)) (omega (arith, whole, length-take_le m dst fits))
        ∙ sym (
            drop-append_ge pos (take m dst) (drop m dst)
              (omega (arith, length-take_le m dst fits, h)))
        ∙ ap (drop pos) (take-append-drop m dst) in
      ap (take size) same

  -- Away from the bytes that are written.
  pub bytes_at-put_other :
      (pos size : ℕ)
      → (pos + size ≤ at) ⊎ (at + length src ≤ pos)
      → bytes_at pos size (put_bytes at src dst) ≡ bytes_at pos size dst
  bytes_at-put_other pos size (inl h) = put_before pos size h
  bytes_at-put_other pos size (inr h) = put_after pos size h

-- An element of an array lies in the array.
pub element_fits : (k n size : ℕ) → k < n → k * size + size ≤ n * size
element_fits k n size h =
    omega (arith, mul-le-mul_right {m = suc k} {n = n} size (omega arith), suc-mul k size)

-- Two different elements have no byte in common.
pub elements_apart :
    (j k size : ℕ) → ¬ (j ≡ k) → (j * size + size ≤ k * size) ⊎ (k * size + size ≤ j * size)
elements_apart j k size ne = elim (Bool-cases (ltb j k)) [
  | inl below ↦ inl (element_fits j k size (ltb→lt j k below))
  | inr above ↦ inr (element_fits k j size (omega (arith, ltb→le j k above, ne)))
]
