-- ===== src/Strbuf/Content/Held.antt =====
-- What the appends to a buffer of C/src/gbf_util.c leave: the text; and which texts make one of them
-- write past the block.
use gbin.Prelude.{
  ℕ, zero, suc, ◌+◌, ◌*◌, ◌/◌, ◌%◌, ◌^◌, ◌≤◌, ◌<◌, ◌≡◌, refl, sym, ap, ◌∙◌, arith, tests, true,
  false, [], ◌∷◌, ◌++◌, append_assoc, append-nil, Option, none, some, Bytes, length, length-append,
  ltb, leb, le→leb, ◌==◌, ==→eq, Bool-cases, inl, inr, ◌⊎◌, Result, ok, err, ◌>>=◌,
}
use gbin.Error.{Error, undefined}
use gbin.Strbuf.Content.{empty_content, Content, cap_for, put_text, append_text, append_printed}
use gbin.Json.Parse.{is_digit}
use gbin.Libc.{digits, decimal}
use gbin.Strbuf.Content.Room.{doubled, Room, below_pow, cap_for-Room}

-- A text that is too long for the loop of gbf_sb_reserve, or with a digit that is the last byte of a
-- block.
pub data Bursts (t : Bytes) : Type 0 where
  long : 2 ^ 62 ≤ length t → Bursts t
  filled :
      (k d : ℕ) (front rest : Bytes)
      → t ≡ front ++ (d ∷ rest)
      → suc (length front) ≡ 64 * 2 ^ k
      → is_digit d ≡ true
      → Bursts t

-- A buffer that holds the text.
pub record Has (b : Content) (t : Bytes) : Type 0 where
  pub text_is : b.text ≡ t
  pub room : (2 ^ 62 ≤ length t) ⊎ Room (length t) b.cap

-- A buffer that holds the text t, which goes on from s; or undefined behaviour, for a reason.
pub data Holds (s t : Bytes) : Result Error Content → Type 0 where
  holds : {b : Content} (p : Bytes) → t ≡ s ++ p → Has b t → Holds s t (ok b)
  overran : (p : Bytes) → t ≡ s ++ p → Bursts t → Holds s t (err undefined)

goes_on :
    {s t u : Bytes} {r : Result Error Content} (p : Bytes) → t ≡ s ++ p → Holds t u r → Holds s u r
goes_on {s} p e (holds q e' h) = holds (p ++ q) (e' ∙ ap (λ x. x ++ q) e ∙ append_assoc s p q) h
goes_on {s} p e (overran q e' h) = overran (p ++ q) (e' ∙ ap (λ x. x ++ q) e ∙ append_assoc s p q) h

pub Bursts-append : (t p : Bytes) → Bursts t → Bursts (t ++ p)
Bursts-append t p (long h) = long (omega (arith, length-append t p))
Bursts-append t p (filled k d front rest e at digit) =
    filled k d front (rest ++ p) (ap (λ x. x ++ p) e ∙ append_assoc front (d ∷ rest) p) at digit

-- Some buffer with that text.
example_of : (t : Bytes) → (b : Content) × Has b t
example_of t = (
  record { text = t; cap = 64 * 2 ^ length t },
  record { text_is = refl; room = inr (inr (doubled (length t) refl), below_pow (length t)) },
)

tail_of : {t u : Bytes} {r : Result Error Content} → Holds t u r → (p : Bytes) × (u ≡ t ++ p)
tail_of (holds p e h) = (p, e)
tail_of (overran p e h) = (p, e)

Bursts-longer : {t u : Bytes} (p : Bytes) → u ≡ t ++ p → Bursts t → Bursts u
Bursts-longer {t} p e h = rw e (Bursts-append t p h)

pub Holds-bind :
    {s t u : Bytes} {r : Result Error Content} {k : Content → Result Error Content}
    → Holds s t r
    → ((b : Content) → Has b t → Holds t u (k b))
    → Holds s u (r >>= k)
Holds-bind (holds p e h) go = goes_on p e (go _ h)
Holds-bind {s} {t} (overran p e h) go =
    let (q, e') = tail_of (go (example_of t).0 (example_of t).1) in
    overran (p ++ q) (e' ∙ ap (λ x. x ++ q) e ∙ append_assoc s p q) (Bursts-longer q e' h)

pub holding : {s t u : Bytes} {r : Result Error Content} → t ≡ u → Holds s t r → Holds s u r
holding e h = rw e at h

-- Whatever an append to a text that is too long does.
put_long :
    (b : Content) (p t : Bytes) (size : ℕ) (cap : Option ℕ)
    → b.text ≡ t
    → 2 ^ 62 ≤ length (t ++ p)
    → Holds t (t ++ p) (put_text b p size cap)
unfolding put_text
put_long b p t size none e h = overran p refl (long h)
put_long b p t size (some cap) e h = elim (Bool-cases (leb (length b.text + size) cap)) [
  | inl fits ↦ rw fits (holds p refl (record { text_is = ap (λ x. x ++ p) e; room = inl h }))
  | inr past ↦ rw past (overran p refl (long h))
]

put_fits :
    (b : Content) (p t : Bytes) (size c : ℕ)
    → b.text ≡ t
    → Room (length t + length p) c
    → leb (length t + size) c ≡ true
    → Holds t (t ++ p) (put_text b p size (some c))
unfolding put_text
put_fits b p t size c e (block, within) fits =
    rw (e, fits)
      (holds p refl
        (record { text_is = refl; room = inr (block, omega (arith, length-append t p)) }))

long_still : (t p : Bytes) → 2 ^ 62 ≤ length t → 2 ^ 62 ≤ length (t ++ p)
long_still t p h = omega (arith, length-append t p)

nothing_added : (t p : Bytes) → length p ≡ 0 → t ≡ t ++ p
nothing_added t [] e = simp append-nil
nothing_added t (x ∷ p) e = absurd (omega arith)

add_more :
    (b : Content) (p t : Bytes)
    → Has b t
    → Holds t (t ++ p) (put_text b p (length p) (cap_for b (length p)))
add_more b p t h = elim (h.room) [
  | inl over ↦ put_long b p t (length p) _ h.text_is (long_still t p over)
  | inr room ↦ elim (Bool-cases (ltb (length t + length p) (2 ^ 62))) [
    | inr over ↦ put_long b p t (length p) _ h.text_is (omega (tests, length-append t p))
    | inl small ↦
        let (c, found, (block, reach)) = cap_for-Room b t (length p) h.text_is room (omega tests) in
        rw found (
          put_fits b p t (length p) c h.text_is (block, reach)
            (le→leb (length t + length p) c reach))
  ]
]

pub text : {t : Bytes} (p : Bytes) (b : Content) → Has b t → Holds t (t ++ p) (append_text b p)
unfolding append_text
text {t} p b h = elim (Bool-cases (length p == 0)) [
  | inl empty ↦
      let same = nothing_added t p (==→eq (length p) 0 empty) in
      rw empty (holding same (holds [] (nothing_added t [] refl) h))
  | inr more ↦ rw more (add_more b p t h)
]

-- A decimal number ends with a digit.
digits-out : (f n : ℕ) (out : Bytes) → (more : Bytes) × (digits f n out ≡ more ++ out)
unfolding digits
digits-out zero n out = ([], refl)
digits-out (suc f) n out = elim (Bool-cases (ltb n 10)) [
  | inl small ↦ ((b'0' + n) ∷ [], rw small refl)
  | inr big ↦
      let (more, e) = digits-out f (n / 10) ((b'0' + n % 10) ∷ out) in
      (
        more ++ (b'0' + n % 10) ∷ [],
        rw big (e ∙ sym (append_assoc more ((b'0' + n % 10) ∷ []) out)),
      )
]

last_digit :
    (n : ℕ) → (front : Bytes) × (d : ℕ) × (decimal n ≡ front ++ (d ∷ [])) × (is_digit d ≡ true)
unfolding decimal digits
last_digit n = elim (Bool-cases (ltb n 10)) [
  | inl small ↦ ([], b'0' + n, rw small refl, ground arith)
  | inr big ↦
      let (more, e) = digits-out 19 (n / 10) ((b'0' + n % 10) ∷ []) in
      (more, b'0' + n % 10, rw big e, ground arith)
]

not_leb : (a b : ℕ) → leb a b ≡ false → b < a
not_leb a b h = ground arith

-- A number that fills its block.
fills :
    (t p : Bytes)
    → (c : ℕ) → Room (length t + length p) c
    → leb (length t + (length p + 1)) c ≡ false
    → (front : Bytes) × (d : ℕ) × (p ≡ front ++ (d ∷ [])) × (is_digit d ≡ true)
    → Bursts (t ++ p)
fills t p c (inl none_yet, within) past (front, d, e, digit) =
    absurd (omega (arith, ap length e, length-append front (d ∷ [])))
fills t p c (inr (doubled k size), within) past (front, d, e, digit) =
    let no_room = not_leb _ _ past in
    filled k d (t ++ front) [] (ap (λ x. t ++ x) e ∙ sym (append_assoc t front (d ∷ [])))
      (omega
        (arith, ap length e, length-append front (d ∷ []), length-append t front, size, no_room))
      digit

print_room :
    (b : Content) (t : Bytes) (v c : ℕ)
    → b.text ≡ t
    → Room (length t + length (decimal v)) c
    → Holds t (t ++ decimal v) (put_text b (decimal v) (length (decimal v) + 1) (some c))
unfolding put_text
print_room b t v c e room = elim (Bool-cases (leb (length t + (length (decimal v) + 1)) c)) [
  | inl fits ↦ put_fits b (decimal v) t (length (decimal v) + 1) c e room fits
  | inr past ↦
      rw (e, past) (overran (decimal v) refl (fills t (decimal v) c room past (last_digit v)))
]

pub printed :
    {t : Bytes} (v : ℕ) (b : Content)
    → Has b t
    → Holds t (t ++ decimal v) (append_printed b (decimal v))
unfolding append_printed
printed {t} v b h = elim (h.room) [
  | inl over ↦ put_long b (decimal v) t _ _ h.text_is (long_still t (decimal v) over)
  | inr room ↦ elim (Bool-cases (ltb (length t + length (decimal v)) (2 ^ 62))) [
    | inr over ↦ put_long b (decimal v) t _ _ h.text_is (omega (tests, length-append t (decimal v)))
    | inl small ↦
        let (c, found, reach) =
          cap_for-Room b t (length (decimal v)) h.text_is room (omega tests) in
        rw found (print_room b t v c h.text_is reach)
  ]
]

-- No append.
pub stays : {t : Bytes} (b : Content) → Has b t → Holds t t (ok b)
stays {t} b h = holds [] (sym (append-nil t)) h

pub starts : Has empty_content []
starts = record { text_is = refl; room = inr (inl refl, omega arith) }
