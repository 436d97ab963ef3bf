-- ===== src/Word/Endian.antt =====
-- Little-endian loads and stores of C/src/gbf_util.c are inverse to one another.
use gbin.Prelude.{
  ℕ, ◌+◌, ◌*◌, ◌/◌, ◌%◌, ◌^◌, ◌<◌, ◌≡◌, arith, [], ◌∷◌, ◌++◌, Bytes, IsByte, All, ◌∙◌,
}
use gbin.Word.{IsU32, IsU64, le_u32, le_u64, store_le_u32, store_le_u64, bit_or_low_high}

-- The load as a sum.
pub le_u32_sum :
    (a b c d : ℕ) (rest : Bytes)
    → a < 256
    → b < 256
    → c < 256
    → d < 256
    → le_u32 (a ∷ b ∷ c ∷ d ∷ rest) ≡ a + b * 2 ^ 8 + c * 2 ^ 16 + d * 2 ^ 24
unfolding le_u32
le_u32_sum a b c d rest ha hb hc hd =
    rw (bit_or_low_high 8 a b (omega arith), bit_or_low_high 16 (a + b * 2 ^ 8) c (omega arith))
      (bit_or_low_high 24 (a + b * 2 ^ 8 + c * 2 ^ 16) d (omega arith))

pub le_u64_sum :
    (a b c d e f g h : ℕ) (rest : Bytes)
    → All IsByte (a ∷ b ∷ c ∷ d ∷ e ∷ f ∷ g ∷ h ∷ [])
    → le_u64 (a ∷ b ∷ c ∷ d ∷ e ∷ f ∷ g ∷ h ∷ rest)
      ≡ a + b * 2 ^ 8 + c * 2 ^ 16 + d * 2 ^ 24 + e * 2 ^ 32 + f * 2 ^ 40 + g * 2 ^ 48 + h * 2 ^ 56
unfolding le_u64 le_u32
le_u64_sum a b c d e f g h rest (ha, (hb, (hc, (hd, (he, (hf, (hg, (hh, _)))))))) =
    let low : ℕ = a + b * 2 ^ 8 + c * 2 ^ 16 + d * 2 ^ 24 in
    rw
      (
        bit_or_low_high 8 a b (omega arith),
        bit_or_low_high 16 (a + b * 2 ^ 8) c (omega arith),
        bit_or_low_high 24 (a + b * 2 ^ 8 + c * 2 ^ 16) d (omega arith),
        bit_or_low_high 32 low e (omega arith),
        bit_or_low_high 40 (low + e * 2 ^ 32) f (omega arith),
        bit_or_low_high 48 (low + e * 2 ^ 32 + f * 2 ^ 40) g (omega arith),
      )
      (bit_or_low_high 56 (low + e * 2 ^ 32 + f * 2 ^ 40 + g * 2 ^ 48) h (omega arith))

-- Loading what was stored gives the uint32_t back, whatever bytes follow.
pub le_u32-store_le_u32 : (v : ℕ) (rest : Bytes) → IsU32 v → le_u32 (store_le_u32 v ++ rest) ≡ v
unfolding store_le_u32
le_u32-store_le_u32 v rest h = omega (
  arith,
  le_u32_sum (v % 256) (v / 256 % 256) (v / 65536 % 256) (v / 16777216 % 256) rest (omega arith)
      (omega arith) (omega arith) (omega arith),
)

-- Loading what was stored gives the uint64_t back, whatever bytes follow.
pub le_u64-store_le_u64 : (v : ℕ) (rest : Bytes) → IsU64 v → le_u64 (store_le_u64 v ++ rest) ≡ v
unfolding store_le_u64
le_u64-store_le_u64 v rest h = le_u64_sum _ _ _ _ _ _ _ _ rest (omega arith) ∙ omega arith

-- Storing what was loaded from four bytes gives them back, whatever bytes follow them.
pub store_le_u32-le_u32 :
    (a b c d : ℕ) (rest : Bytes)
    → a < 256
    → b < 256
    → c < 256
    → d < 256
    → store_le_u32 (le_u32 (a ∷ b ∷ c ∷ d ∷ rest)) ≡ a ∷ b ∷ c ∷ d ∷ []
unfolding store_le_u32
store_le_u32-le_u32 a b c d rest ha hb hc hd =
    rw (le_u32_sum a b c d rest ha hb hc hd) (ground arith)
