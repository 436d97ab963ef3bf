-- ===== src/Strbuf/Content/Fits.antt =====
-- Texts that no append of C/src/gbf_util.c carries past its block.
use native.Mathlib.Nat.{pow-suc}
use gbin.Prelude.{
  Bool, true, ltb, not, ◌&&◌, ltb→lt, ℕ, zero, suc, ◌-◌, ◌*◌, ◌^◌, ◌≤◌, ◌<◌, ◌≡◌, refl, sym, ap,
  ◌∙◌, arith, false, [], ◌∷◌, ◌++◌, Bytes, length, length-append, get_or, Bool, true,
}
use gbin.Json.Parse.{is_digit}
use gbin.Strbuf.Content.Held.{Bursts, long, filled}
use gbin.Strbuf.Content.Room.{two_pow}

-- A text shorter than 2^62 - 1 in which no digit is the last byte of a block of 64, 128, 256, ...
-- bytes.
pub record FitsBlocks (t : Bytes) : Type 0 where
  pub short : suc (length t) < 2 ^ 62
  pub no_digit_last : (k : ℕ) → is_digit (get_or t (64 * 2 ^ k - 1) 0) ≡ false

get_or-append_zero : (t : Bytes) (i : ℕ) → get_or (t ++ 0 ∷ []) i 0 ≡ get_or t i 0
get_or-append_zero [] zero = refl
get_or-append_zero [] (suc i) = refl
get_or-append_zero (x ∷ t) zero = refl
get_or-append_zero (x ∷ t) (suc i) = get_or-append_zero t i

get_or-behind : (front rest : Bytes) (d : ℕ) → get_or (front ++ (d ∷ rest)) (length front) 0 ≡ d
get_or-behind [] rest d = refl
get_or-behind (x ∷ front) rest d = get_or-behind front rest d

pub FitsBlocks-not_Bursts : (t : Bytes) → FitsBlocks t → Bursts (t ++ 0 ∷ []) → ⊥
FitsBlocks-not_Bursts t h (long over) = absurd (omega (arith, h.short, length-append t (0 ∷ [])))
FitsBlocks-not_Bursts t h (filled k d front rest e at digit) =
    let place : length front ≡ 64 * 2 ^ k - 1 = omega (arith, at) in
    let found : d ≡ get_or t (64 * 2 ^ k - 1) 0 =
      sym (get_or-behind front rest d)
      ∙ ap (λ x. get_or x (length front) 0) (sym e)
      ∙ get_or-append_zero t (length front)
      ∙ ap (λ i. get_or t i 0) place in
    let not_digit : is_digit d ≡ false = ap is_digit found ∙ h.no_digit_last k in
    differ digit not_digit
  where
    differ : {b : Bool} → b ≡ true → b ≡ false → ⊥
    differ e f = cc

get_or-past : (t : Bytes) (i : ℕ) → length t ≤ i → get_or t i 0 ≡ 0
get_or-past [] i h = refl
get_or-past (x ∷ t) zero h = absurd (omega arith)
get_or-past (x ∷ t) (suc i) h = get_or-past t i (omega arith)

-- To be seen at the first blocks of a short text.
pub short-FitsBlocks :
    (t : Bytes)
    → length t < 1024
    → is_digit (get_or t 63 0) ≡ false
    → is_digit (get_or t 127 0) ≡ false
    → is_digit (get_or t 255 0) ≡ false
    → is_digit (get_or t 511 0) ≡ false
    → FitsBlocks t
short-FitsBlocks t h a b c d = record { short = omega arith; no_digit_last = each }
  where
    each : (k : ℕ) → is_digit (get_or t (64 * 2 ^ k - 1) 0) ≡ false
    each zero = a
    each (suc zero) = b
    each (suc (suc zero)) = c
    each (suc (suc (suc zero))) = d
    each (suc (suc (suc (suc k)))) = ap is_digit (
        get_or-past t (64 * 2 ^ suc (suc (suc (suc k))) - 1) (
          omega (
            arith,
            pow-suc 2 (suc (suc (suc k))),
            pow-suc 2 (suc (suc k)),
            pow-suc 2 (suc k),
            pow-suc 2 k,
            two_pow k,
            h,
          )))

-- The test of short-FitsBlocks.
abbrev pub fits_at_blocks : Bytes → Bool
fits_at_blocks t =
    ltb (length t) 1024
    && (not (is_digit (get_or t 63 0))
        && (not (is_digit (get_or t 127 0))
            && (not (is_digit (get_or t 255 0)) && not (is_digit (get_or t 511 0)))))

all_of :
    (a b c d e : Bool)
    → (a && (not b && (not c && (not d && not e)))) ≡ true
    → (a ≡ true) × (b ≡ false) × (c ≡ false) × (d ≡ false) × (e ≡ false)
all_of true false false false false h = (refl, refl, refl, refl, refl)
all_of _ _ _ _ _ h = cc

pub fits_at_blocks-FitsBlocks : (t : Bytes) → fits_at_blocks t ≡ true → FitsBlocks t
fits_at_blocks-FitsBlocks t h =
    let (size, a, b, c, d) = all_of _ _ _ _ _ h in
    short-FitsBlocks t (ltb→lt (length t) 1024 size) a b c d
