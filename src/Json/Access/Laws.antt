-- ===== src/Json/Access/Laws.antt =====
-- What the accessors of C/src/gbf_json.c return for the texts that a header holds.
use gbin.Prelude.{ℕ, ◌≡◌, refl, ap, arith, true, ◌∷◌, ◌⊎◌, inl, inr, some, Bytes}
use gbin.Word.{IsU64, IsU32}
use gbin.Json.{number, string}
use gbin.Json.Text.{skip_ws, isspace, is_hex, hex_val}
use gbin.Json.Access.{Floats, or_nat, as_u64, as_u32, hex_text, rounded}
use gbin.Libc.{strtoull, decimal, digit_value, scan_digits, in_range, skip_prefix, convert, signed}
use gbin.Libc.Decimal.{strtoull-decimal}

strtoull_prefixed :
    (x : ℕ) (s : Bytes) → (x ≡ b'x') ⊎ (x ≡ b'X') → strtoull 10 (b'0' ∷ x ∷ s) ≡ some 0
unfolding strtoull skip_ws isspace signed convert skip_prefix scan_digits digit_value is_hex hex_val
    in_range
strtoull_prefixed x s (inl e) = rw e refl
strtoull_prefixed x s (inr e) = rw e refl

module _ {D : Type 0} (fl : Floats D) where
  -- gbf_json_as_u64 gives back the uint64_t that a decimal text prints, from a JSON integer and
  -- from a JSON string alike, whatever the double and the default are.
  pub as_u64-decimal :
      (n : ℕ) (v : D) (d : ℕ)
      → IsU64 n
      → (as_u64 fl (some (number v (decimal n) true)) d ≡ n)
        × (as_u64 fl (some (string (decimal n))) d ≡ n)
  unfolding as_u64
  as_u64-decimal n v d h = (
    ap (λ o. or_nat o (rounded fl v)) (strtoull-decimal n h),
    ap (λ o. or_nat o (hex_text (decimal n) d)) (strtoull-decimal n h),
  )

  pub as_u32-decimal :
      (n : ℕ) (v : D) (d : ℕ) → IsU32 n → as_u32 fl (some (number v (decimal n) true)) d ≡ n
  unfolding as_u32
  as_u32-decimal n v d h = rw ((as_u64-decimal n v d (omega arith)).0) (omega arith)

  -- Of a JSON string that starts with 0x or 0X, gbf_json_as_u64 returns 0 whatever follows and
  -- whatever the default is.
  pub as_u64-hex_string :
      (x : ℕ) (s : Bytes) (d : ℕ)
      → (x ≡ b'x') ⊎ (x ≡ b'X')
      → as_u64 fl (some (string (b'0' ∷ x ∷ s))) d ≡ 0
  unfolding as_u64
  as_u64-hex_string x s d h =
      ap (λ o. or_nat o (hex_text (b'0' ∷ x ∷ s) d)) (strtoull_prefixed x s h)
