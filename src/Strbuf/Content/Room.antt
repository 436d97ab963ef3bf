-- ===== src/Strbuf/Content/Room.antt =====
-- The capacity of a buffer of C/src/gbf_util.c is 64, doubled; gbf_sb_reserve finds room for the text.
use native.Mathlib.Nat.{pow-suc}
use gbin.Prelude.{
  ℕ, zero, suc, ◌+◌, ◌*◌, ◌^◌, ◌≤◌, ◌<◌, ◌≡◌, refl, ap, ◌∙◌, arith, Option, none, some, Bytes,
  length, ltb, leb, ltb→lt, leb→le, ◌==◌, Bool-cases, inl, inr, ◌⊎◌, if◌then◌else◌,
}
use gbin.Word.{add64, mul64}
use gbin.Strbuf.{grow, grow_fuel}
use gbin.Strbuf.Growth.{grow_fuel_suffices}
use gbin.Strbuf.Content.{Content, cap_for}

-- 64, doubled k times.
pub data IsBlockSize (n : ℕ) : Type 0 where
  doubled : (k : ℕ) → n ≡ 64 * 2 ^ k → IsBlockSize n

abbrev pub Room : ℕ → ℕ → Type 0
Room len cap = ((cap ≡ 0) ⊎ IsBlockSize cap) × (len ≤ cap)

pub two_pow : (k : ℕ) → 0 < 2 ^ k
two_pow zero = omega arith
two_pow (suc k) = omega (arith, pow-suc 2 k, two_pow k)

pub below_pow : (n : ℕ) → n ≤ 64 * 2 ^ n
below_pow zero = omega arith
below_pow (suc n) = omega (arith, pow-suc 2 n, two_pow n, below_pow n)

some-injective : {a b : ℕ} → Path (Option ℕ) (some a) (some b) → a ≡ b
some-injective e = cc

no_some : {a : ℕ} → Path (Option ℕ) none (some a) → ⊥
no_some e = cc

twice : (cap : ℕ) → IsBlockSize cap → IsBlockSize (cap * 2)
twice cap (doubled k e) = doubled (suc k) (omega (arith, e, pow-suc 2 k))

grow-IsBlockSize :
    (f cap need c : ℕ) → IsBlockSize cap → need < 2 ^ 62 → grow f cap need ≡ some c → IsBlockSize c
unfolding grow
grow-IsBlockSize zero cap need c h small e = absurd (no_some e)
grow-IsBlockSize (suc f) cap need c h small e = elim (Bool-cases (ltb cap need)) [
  | inl short ↦
      let lt = ltb→lt cap need short in
      let exact : mul64 cap 2 ≡ cap * 2 = omega arith in
      grow-IsBlockSize f (cap * 2) need c (twice cap h) small (rw (short, exact) at e)
  | inr fits ↦ (let same = some-injective (rw fits at e) in rw same at h)
]

-- The capacity that the loop starts from.
start_size : (cap : ℕ) → (cap ≡ 0) ⊎ IsBlockSize cap → IsBlockSize (if cap == 0 then 64 else cap)
start_size cap (inl e) = rw e (doubled 0 refl)
start_size cap (inr h) = elim (Bool-cases (cap == 0)) [
  | inl fresh ↦ rw fresh (doubled 0 refl)
  | inr more ↦ rw more h
]

at_least : (n : ℕ) → IsBlockSize n → 64 ≤ n
at_least n (doubled k e) = omega (arith, e, two_pow k)

abbrev cap_of : Content → ℕ → Option ℕ
cap_of b need =
    if leb need b.cap then some b.cap else grow grow_fuel (if b.cap == 0 then 64 else b.cap) need

cap_for_is :
    (b : Content) (t : Bytes) (n : ℕ)
    → b.text ≡ t
    → length t + n < 2 ^ 62
    → cap_for b n ≡ cap_of b (length t + n)
unfolding cap_for
cap_for_is b t n e small =
    let need : add64 (length b.text) n ≡ length t + n = omega (arith, ap length e) in
    ap (λ m. cap_of b m) need

-- gbf_sb_reserve finds room for a text that is not too long.
pub cap_for-Room :
    (b : Content) (t : Bytes) (n : ℕ)
    → b.text ≡ t
    → Room (length t) b.cap
    → length t + n < 2 ^ 62
    → (c : ℕ) × (cap_for b n ≡ some c) × Room (length t + n) c
cap_for-Room b t n e (size, within) small = elim (Bool-cases (leb (length t + n) b.cap)) [
  | inl fits ↦
      (b.cap, cap_for_is b t n e small ∙ rw fits refl, (size, leb→le (length t + n) b.cap fits))
  | inr short ↦
      let start = start_size b.cap size in
      let (c, grown, reach, least, bound) =
        grow_fuel_suffices (if b.cap == 0 then 64 else b.cap) (length t + n) (at_least _ start)
          (omega arith) in
      (
        c,
        cap_for_is b t n e small ∙ rw short grown,
        (inr (grow-IsBlockSize grow_fuel _ (length t + n) c start small grown), reach),
      )
]
