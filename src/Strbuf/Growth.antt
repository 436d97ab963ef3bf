-- ===== src/Strbuf/Growth.antt =====
-- The doubling loop of gbf_sb_reserve.
use native.Mathlib.Nat.{pow-suc, le_refl}
use gbin.Prelude.{
  ℕ, zero, suc, ◌*◌, ◌^◌, ◌≤◌, ◌<◌, ◌≡◌, refl, ap, arith, some, ◌⊎◌, inl, inr, Bool-cases, ltb,
  ltb→lt, tests, true,
}
use gbin.Strbuf.{grow, grow_fuel}
use gbin.Word.{mul64}

twice_mul_pow : (c f : ℕ) → c * 2 ^ suc f ≡ c * 2 * 2 ^ f
twice_mul_pow c f = omega (arith, ap (λ (t : ℕ). c * t) (pow-suc 2 f))

grow_step :
    (f cap need : ℕ) {twice c : ℕ}
    → ltb cap need ≡ true
    → mul64 cap 2 ≡ twice
    → grow f twice need ≡ some c
    → grow (suc f) cap need ≡ some c
unfolding grow
grow_step f cap need short e h = rw (short, e) h

-- With the loop's fuel counted in doublings, it ends at the first doubling that reaches the
-- need, for every need up to half of the size_t range.
pub grow_ends :
    (f cap need : ℕ)
    → 0 < cap
    → need ≤ 2 ^ 63
    → need ≤ cap * 2 ^ f
    → (c : ℕ) × (grow (suc f) cap need ≡ some c)
      × (need ≤ c)
      × (cap ≤ c)
      × ((c ≡ cap) ⊎ (c < 2 * need))
unfolding grow
grow_ends zero cap need pos small enough = (cap, ground arith, omega arith, le_refl cap, inl refl)
grow_ends (suc f) cap need pos small enough = elim (Bool-cases (ltb cap need)) [
  | inl short ↦
      let lt = ltb→lt _ _ short in
      let exact : mul64 cap 2 ≡ cap * 2 = omega arith in
      let (c, e, reach, least, bound) =
        grow_ends f (cap * 2) need (omega arith) small (omega (arith, twice_mul_pow cap f)) in
      (c, grow_step (suc f) cap need short exact e, reach, omega arith, omega arith)
  | inr fits ↦ (cap, rw fits, omega tests, le_refl cap, inl refl)
]

-- From a capacity of at least 64 and for a need of at most 2^63, the doubling loop of gbf_sb_reserve
-- ends within its fuel, with a capacity that covers the need and is at least the old one; it is the
-- old one, or less than twice the need.
pub grow_fuel_suffices :
    (cap need : ℕ)
    → 64 ≤ cap
    → need ≤ 2 ^ 63
    → (c : ℕ) × (grow grow_fuel cap need ≡ some c)
      × (need ≤ c)
      × (cap ≤ c)
      × ((c ≡ cap) ⊎ (c < 2 * need))
grow_fuel_suffices cap need pos small = grow_ends 64 cap need (omega arith) small (omega arith)
