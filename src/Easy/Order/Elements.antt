-- ===== src/Easy/Order/Elements.antt =====
-- gbf_easy_bswap_inplace of C/src/gbf_easy.c on a buffer of elements.
use native.Mathlib.Nat.{suc-mul, zero-mul, mul-le-mul_right}
use gbin.Prelude.{
  ℕ, zero, suc, ◌+◌, ◌-◌, ◌*◌, ◌≤◌, ◌<◌, ◌≡◌, refl, sym, ap, ◌∙◌, arith, [], ◌∷◌, ◌++◌, Bytes, Bool,
  true, false, length, take, drop, leb, leb→le, Bool-cases, inl, inr, length-append, length-drop,
  take-append_eq, take-append-drop,
}
use gbin.Easy.Order.{swap_loop, swap_elements, bswap_inplace, to_little, bytes_at}
use gbin.Memory.{drop-append_ge, length-take_le, length-bytes_at}
use gbin.Easy.Order.Swap.{reverse, length-reverse, swap_loop-reverse}

drop_past :
    (size k : ℕ) (xs r : Bytes)
    → length xs ≡ size
    → drop (suc k * size) (xs ++ r) ≡ drop (k * size) r
drop_past size k xs r e =
    drop-append_ge (suc k * size) xs r (omega (arith, suc-mul k size))
    ∙ ap (λ m. drop m r) (omega (arith, suc-mul k size))

-- Every element of the buffer is turned back to front.
pub swap_elements-reverse :
    (n size : ℕ) (buf : Bytes) (k : ℕ)
    → 0 < size
    → length buf ≡ n * size
    → k < n
    → bytes_at (k * size) size (swap_elements n size buf) ≡ reverse (bytes_at (k * size) size buf)
unfolding swap_elements
swap_elements-reverse zero size buf k pos e h = absurd (omega arith)
swap_elements-reverse (suc n) size buf zero pos e h =
    let first : length (take size buf) ≡ size =
      length-take_le size buf (omega (arith, e, suc-mul n size)) in
    rw (zero-mul size, swap_loop-reverse size (take size buf) first pos)
      (take-append_eq size (reverse (take size buf)) _
        (sym (length-reverse (take size buf) ∙ first)))
swap_elements-reverse (suc n) size buf (suc k) pos e h =
    let first : length (take size buf) ≡ size =
      length-take_le size buf (omega (arith, e, suc-mul n size)) in
    let rest =
      swap_elements-reverse n size (drop size buf) k pos
        (omega (arith, length-drop size buf, e, suc-mul n size)) (omega arith) in
    rw (swap_loop-reverse size (take size buf) first pos) (
      ap (take size) (
        drop_past size k (reverse (take size buf)) (swap_elements n size (drop size buf))
          (length-reverse (take size buf) ∙ first))
      ∙ rest
      ∙ ap (λ t. reverse (take size t))
          (sym (drop_past size k (take size buf) (drop size buf) first)
            ∙ ap (drop (suc k * size)) (take-append-drop size buf)))

pub length-swap_elements :
    (n size : ℕ) (buf : Bytes)
    → 0 < size
    → length buf ≡ n * size
    → length (swap_elements n size buf) ≡ n * size
unfolding swap_elements
length-swap_elements zero size buf pos e = e
length-swap_elements (suc n) size buf pos e =
    let first = length-take_le size buf (omega (arith, e, suc-mul n size)) in
    let rest =
      length-swap_elements n size (drop size buf) pos
        (omega (arith, length-drop size buf, e, suc-mul n size)) in
    length-append (swap_loop size 0 (size - 1) (take size buf))
      (swap_elements n size (drop size buf))
    ∙ rw (swap_loop-reverse size (take size buf) first pos)
        (omega (arith, length-reverse (take size buf), first, rest, suc-mul n size))

reverse_short : (p : Bytes) → length p ≤ 1 → reverse p ≡ p
unfolding reverse
reverse_short [] h = refl
reverse_short (x ∷ []) h = refl
reverse_short (x ∷ y ∷ p) h = absurd (omega arith)

-- The bytes of an element of a little-endian number, from those of the host.
unfoldable pub as_little : Bool → Bytes → Bytes
as_little true p = p
as_little false p = reverse p

pub length-to_little :
    (little : Bool) (size n : ℕ) (buf : Bytes)
    → 0 < size
    → length buf ≡ n * size
    → length (to_little little size n buf) ≡ n * size
unfolding to_little bswap_inplace
length-to_little true size n buf pos e = e
length-to_little false size n buf pos e = elim (Bool-cases (leb size 1)) [
  | inl one ↦ rw one e
  | inr wide ↦ rw wide (length-swap_elements n size buf pos e)
]

-- What the conversion does last makes every element little-endian, whatever the host is.
pub to_little-elements :
    (little : Bool) (size n : ℕ) (buf : Bytes) (k : ℕ)
    → 0 < size
    → length buf ≡ n * size
    → k < n
    → bytes_at (k * size) size (to_little little size n buf)
      ≡ as_little little (bytes_at (k * size) size buf)
unfolding to_little bswap_inplace as_little
to_little-elements true size n buf k pos e h = refl
to_little-elements false size n buf k pos e h = elim (Bool-cases (leb size 1)) [
  | inr wide ↦ rw wide (swap_elements-reverse n size buf k pos e h)
  | inl one ↦
      let fits : k * size + size ≤ length buf =
        omega (arith, mul-le-mul_right {m = suc k} {n = n} size (omega arith), suc-mul k size, e) in
      rw one (
        sym (
          reverse_short (bytes_at (k * size) size buf)
            (omega (arith, length-bytes_at (k * size) size buf fits, leb→le size 1 one))))
]
