-- ===== src/Json/Crc/Digits.antt =====
-- strtoul reads the eight digits of crc_hex8 back.
use gbin.Prelude.{
  ℕ, ◌+◌, ◌*◌, ◌/◌, ◌%◌, ◌^◌, ◌<◌, ◌≡◌, refl, ap, ◌∙◌, arith, false, [], ◌∷◌, some, Bytes, le→ltb,
}
use gbin.Word.{IsU32}
use gbin.Json.Text.{skip_ws, isspace, is_hex, hex_val}
use gbin.Libc.{
  digit_value, scan_digits, in_range, skip_prefix, convert, signed, strtoull, ullong_max,
}
use gbin.Json.Crc.{hex_upper, crc_hex8}

digit_value-hex_upper : (d : ℕ) → d < 16 → digit_value 16 (hex_upper d) ≡ some d
unfolding digit_value hex_upper is_hex hex_val
digit_value-hex_upper d h = ground arith

scan_digit :
    (acc d : ℕ) (s : Bytes)
    → d < 16
    → scan_digits 16 acc (hex_upper d ∷ s) ≡ scan_digits 16 (acc * 16 + d) s
unfolding scan_digits
scan_digit acc d s h = rw (digit_value-hex_upper d h)

no_blank : (d : ℕ) (s : Bytes) → d < 16 → skip_ws (hex_upper d ∷ s) ≡ hex_upper d ∷ s
unfolding skip_ws isspace hex_upper
no_blank d s h = ground arith

no_sign :
    (d : ℕ) (s : Bytes) → d < 16 → signed 16 (hex_upper d ∷ s) ≡ convert 16 false (hex_upper d ∷ s)
unfolding signed hex_upper
no_sign d s h = ground arith

no_prefix :
    (d e : ℕ) (s : Bytes)
    → e < 16
    → skip_prefix 16 (hex_upper d ∷ hex_upper e ∷ s) ≡ hex_upper d ∷ hex_upper e ∷ s
unfolding skip_prefix hex_upper
no_prefix d e s h = ground arith

-- The digits start neither with a blank, nor a sign, nor 0x.
bare :
    (d e : ℕ) (s : Bytes)
    → d < 16
    → e < 16
    → strtoull 16 (hex_upper d ∷ hex_upper e ∷ s)
      ≡ in_range false (scan_digits 16 0 (hex_upper d ∷ hex_upper e ∷ s))
unfolding strtoull convert
bare d e s hd he =
    rw (no_blank d _ hd)
      (no_sign d _ hd ∙ ap (λ t. in_range false (scan_digits 16 0 t)) (no_prefix d e s he))

-- strtoul in base 16 gives back the CRC that crc_hex8 prints, for every uint32_t.
pub strtoull-crc_hex8 : (c : ℕ) → IsU32 c → strtoull 16 (crc_hex8 c) ≡ some c
unfolding crc_hex8
strtoull-crc_hex8 c h =
    bare _ _ _ (omega arith) (omega arith)
    ∙ ap (λ t. in_range false t)
        (scan_digit 0 (c / 2 ^ 28 % 2 ^ 4) _ (omega arith)
          ∙ scan_digit _ (c / 2 ^ 24 % 2 ^ 4) _ (omega arith)
          ∙ scan_digit _ (c / 2 ^ 20 % 2 ^ 4) _ (omega arith)
          ∙ scan_digit _ (c / 2 ^ 16 % 2 ^ 4) _ (omega arith)
          ∙ scan_digit _ (c / 2 ^ 12 % 2 ^ 4) _ (omega arith)
          ∙ scan_digit _ (c / 2 ^ 8 % 2 ^ 4) _ (omega arith)
          ∙ scan_digit _ (c / 2 ^ 4 % 2 ^ 4) _ (omega arith)
          ∙ scan_digit _ (c % 2 ^ 4) _ (omega arith)
          ∙ no_more _
          ∙ joined c h)
    ∙ fits c h
  where
    no_more : (acc : ℕ) → scan_digits 16 acc [] ≡ acc
    no_more acc = unfold scan_digits in refl

    joined :
        (c : ℕ)
        → IsU32 c
        → (((((((0 * 16 + c / 2 ^ 28 % 2 ^ 4) * 16 + c / 2 ^ 24 % 2 ^ 4) * 16 + c / 2 ^ 20 % 2 ^ 4)
                              * 16
                            + c / 2 ^ 16 % 2 ^ 4)
                          * 16
                        + c / 2 ^ 12 % 2 ^ 4)
                      * 16
                    + c / 2 ^ 8 % 2 ^ 4)
                  * 16
                + c / 2 ^ 4 % 2 ^ 4)
              * 16
            + c % 2 ^ 4
          ≡ c
    joined c h = omega arith

    fits : (m : ℕ) → IsU32 m → in_range false m ≡ some m
    fits m h = unfold in_range in rw (le→ltb ullong_max m (omega arith))
