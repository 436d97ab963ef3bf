-- ===== src/Json/Crc/Patch.antt =====
-- The CRC protocol of a header text: the writer puts eight digits in place of the zeros, the reader
-- reads them and puts the zeros back.
use gbin.Prelude.{
  ℕ, zero, suc, ◌+◌, ◌^◌, ◌%◌, ◌≤◌, ◌≡◌, refl, sym, ap, ◌∙◌, arith, true, false, ◌&&◌, [], ◌∷◌,
  ◌++◌, append_assoc, Option, none, some, Bytes, IsCStr, IsChar, c_str, c_str-IsCStr, length,
  length-append, length-take, length-drop, take, drop, take-append_eq, drop-append_eq,
  take-append-drop, replicate, ltb, ◌==◌, starts_with, Bool-cases, inl, inr, ltb→le, ltb→lt, lt→ltb,
  ◌<◌,
}
use gbin.Word.{IsU32}
use gbin.Json.Access.{or_nat}
use gbin.Libc.{strtoull}
use gbin.Json.Crc.{
  needle, eight_at, is_blank, after_colon, to_colon, find_value, locate, put_at,
  zero_out_header_crc32_field, extract_header_crc32_hex_u32, crc_hex8, hex_upper,
}
use gbin.Json.Crc.Digits.{strtoull-crc_hex8}

no_result : {j : ℕ} → none ≡ some j → ⊥
no_result e = cc

-- A search from index k that found i in p: the eight bytes at i and all behind them do not matter.
data Found (search : Bytes → Option ℕ) (k least : ℕ) (p : Bytes) (i : ℕ) : Type 0 where
  found :
      (a b : Bytes)
      → p ≡ a ++ b
      → k + length a ≡ i
      → least ≤ length a
      → 8 ≤ length b
      → ((b' : Bytes) → length b' ≡ length b → search (a ++ b') ≡ some i)
      → Found search k least p i

eight_at-Found : (k i : ℕ) (p : Bytes) → eight_at k p ≡ some i → Found (eight_at k) k 0 p i
unfolding eight_at
eight_at-Found k i p e = elim (Bool-cases (ltb (length p) 8)) [
  | inl short ↦ absurd (no_result (rw short at e))
  | inr room ↦
      let same : some k ≡ some i = rw room at e in
      found [] p refl (omega (arith, index k i same)) (omega arith) (ltb→le (length p) 8 room)
        λ b' len. rw (len, room) same
]
  where
    index : (a b : ℕ) → some a ≡ some b → a ≡ b
    index a b e = cc

-- One character passed over.
Found-suc :
    (search more : Bytes → Option ℕ) (k n i c : ℕ) (p : Bytes)
    → ((q : Bytes) → search (c ∷ q) ≡ more q)
    → Found more (suc k) n p i
    → Found search k n (c ∷ p) i
Found-suc search more k n i c p step (found a b e at_i least room same) =
    found (c ∷ a) b (ap (λ t. c ∷ t) e) (omega arith) (omega arith) room
      λ b' len. step (a ++ b') ∙ same b' len

after_colon-Found : (k i : ℕ) (p : Bytes) → after_colon k p ≡ some i → Found (after_colon k) k 0 p i
unfolding after_colon
after_colon-Found k i [] e = cc
after_colon-Found k i (c ∷ p) e = elim (Bool-cases (is_blank c)) [
  | inl blank ↦
      Found-suc _ (after_colon (suc k)) k 0 i c p (λ q. rw blank refl)
        (after_colon-Found (suc k) i p (rw blank at e))
  | inr not_blank ↦ elim (Bool-cases (c == 34)) [
    | inl quote ↦
        Found-suc _ (eight_at (suc k)) k 0 i c p (λ q. rw (not_blank, quote) refl)
          (eight_at-Found (suc k) i p (rw (not_blank, quote) at e))
    | inr other ↦ absurd (no_result (rw (not_blank, other) at e))
  ]
]

to_colon-Found : (k i : ℕ) (p : Bytes) → to_colon k p ≡ some i → Found (to_colon k) k 0 p i
unfolding to_colon
to_colon-Found k i [] e = cc
to_colon-Found k i (c ∷ p) e = elim (Bool-cases (c == b':')) [
  | inl colon ↦
      Found-suc _ (after_colon (suc k)) k 0 i c p (λ q. rw colon refl)
        (after_colon-Found (suc k) i p (rw colon at e))
  | inr other ↦
      Found-suc _ (to_colon (suc k)) k 0 i c p (λ q. rw other refl)
        (to_colon-Found (suc k) i p (rw other at e))
]

starts_with-append_room :
    (s t n : Bytes) → length n ≤ length s → starts_with (s ++ t) n ≡ starts_with s n
starts_with-append_room s t [] h = refl
starts_with-append_room [] t (x ∷ n) h = absurd (omega arith)
starts_with-append_room (c ∷ s) t (x ∷ n) h =
    ap (λ r. (c == x) && r) (starts_with-append_room s t n (omega arith))

find_match :
    (k : ℕ) (pre q : Bytes)
    → length pre ≡ 18
    → starts_with pre needle ≡ true
    → 8 ≤ length q
    → find_value k (pre ++ q) ≡ to_colon (k + 18) q
unfolding find_value
find_match k [] q len match room = absurd (omega arith)
find_match k (c ∷ pre) q len match room =
    rw
      (
        lt→ltb 18 (suc (length (pre ++ q))) (omega (arith, length-append pre q)),
        starts_with-append_room (c ∷ pre) q needle (omega arith),
        match,
      )
      (ap (λ t. to_colon (k + 18) t) (drop-append_eq 18 (c ∷ pre) q (omega arith)))

find_mismatch :
    (k c : ℕ) (a b : Bytes)
    → 18 ≤ length a
    → starts_with (c ∷ a) needle ≡ false
    → find_value k (c ∷ a ++ b) ≡ find_value (suc k) (a ++ b)
unfolding find_value
find_mismatch k c a b least mismatch =
    rw
      (
        lt→ltb 18 (suc (length (a ++ b))) (omega (arith, length-append a b)),
        starts_with-append_room (c ∷ a) b needle (omega arith),
        mismatch,
      )
      refl

find_at_match :
    (k i : ℕ) (p : Bytes)
    → 18 ≤ length p
    → starts_with p needle ≡ true
    → Found (to_colon (k + 18)) (k + 18) 0 (drop 18 p) i
    → Found (find_value k) k 18 p i
find_at_match k i p len match (found a b e at_i least room same) =
    let pre = take 18 p in
    let size : length pre ≡ 18 = omega (arith, length-take 18 p) in
    let whole : starts_with pre needle ≡ true =
      sym (starts_with-append_room pre (drop 18 p) needle (omega arith))
      ∙ ap (λ t. starts_with t needle) (take-append-drop 18 p)
      ∙ match in
    found (pre ++ a) b
      (sym (take-append-drop 18 p) ∙ ap (λ t. pre ++ t) e ∙ sym (append_assoc pre a b))
      (omega (arith, length-append pre a)) (omega (arith, length-append pre a)) room
      λ b' len'.
        ap (λ t. find_value k t) (append_assoc pre a b')
        ∙ find_match k pre (a ++ b') size whole (omega (arith, length-append a b'))
        ∙ same b' len'

find_after :
    (k i c : ℕ) (p : Bytes)
    → starts_with (c ∷ p) needle ≡ false
    → Found (find_value (suc k)) (suc k) 18 p i
    → Found (find_value k) k 18 (c ∷ p) i
find_after k i c p mismatch (found a b e at_i least room same) =
    let other : starts_with (c ∷ a) needle ≡ false =
      sym (starts_with-append_room (c ∷ a) b needle (omega arith))
      ∙ ap (λ t. starts_with (c ∷ t) needle) (sym e)
      ∙ mismatch in
    found (c ∷ a) b (ap (λ t. c ∷ t) e) (omega arith) (omega arith) room
      λ b' len. find_mismatch k c a b' least other ∙ same b' len

find_value-Found : (k i : ℕ) (p : Bytes) → find_value k p ≡ some i → Found (find_value k) k 18 p i
unfolding find_value
find_value-Found k i [] e = cc
find_value-Found k i (c ∷ p) e = elim (Bool-cases (ltb 18 (suc (length p)))) [
  | inr short ↦ absurd (no_result (rw short at e))
  | inl room ↦ elim (Bool-cases (starts_with (c ∷ p) needle)) [
    | inl match ↦
        find_at_match k i (c ∷ p) (omega (arith, ltb→lt 18 (suc (length p)) room)) match
          (to_colon-Found (k + 18) i (drop 18 (c ∷ p)) (rw (room, match) at e))
    | inr mismatch ↦
        find_after k i c p mismatch (find_value-Found (suc k) i p (rw (room, mismatch) at e))
  ]
]

put_at_split : (i : ℕ) (d a b : Bytes) → i ≡ length a → put_at i d (a ++ b) ≡ a ++ (d ++ drop 8 b)
unfolding put_at
put_at_split i d a b e = rw (take-append_eq i a b e) (ap (λ t. a ++ (d ++ t)) (drop_more 8 i a b e))
  where
    drop_more : (n i : ℕ) (a b : Bytes) → i ≡ length a → drop (i + n) (a ++ b) ≡ drop n b
    drop_more n zero [] b e = ap (λ t. drop t b) (omega arith)
    drop_more n zero (x ∷ a) b e = absurd (omega arith)
    drop_more n (suc i) [] b e = absurd (omega arith)
    drop_more n (suc i) (x ∷ a) b e =
        let shift : suc i + n ≡ suc (i + n) = omega arith in
        rw shift (drop_more n i a b (omega arith))

-- What the functions below use of a located field.
data Located (json : Bytes) (i : ℕ) : Type 0 where
  located :
      (a b : Bytes)
      → json ≡ a ++ b
      → i ≡ length a
      → 8 ≤ length b
      → ((d : Bytes) → length d ≡ 8 → locate (a ++ (d ++ drop 8 b)) ≡ some i)
      → Located json i

locate-Found : (json : Bytes) (i : ℕ) → Found (find_value 0) 0 18 json i → Located json i
unfolding locate
locate-Found json i (found a b e at_i least room same) =
    located a b e (omega arith) room
      λ d len. same (d ++ drop 8 b) (omega (arith, length-append d (drop 8 b), length-drop 8 b))

locate-Located : (json : Bytes) (i : ℕ) → locate json ≡ some i → Located json i
unfolding locate
locate-Located json i e = locate-Found json i (find_value-Found 0 i json e)

-- Eight characters put over the located ones leave them located.
put_at-locate :
    (json d : Bytes) (i : ℕ) → length d ≡ 8 → Located json i → locate (put_at i d json) ≡ some i
put_at-locate json d i len (located a b e at_i room same) =
    rw e (ap (λ t. locate t) (put_at_split i d a b at_i) ∙ same d len)

put_at_twice :
    (json d d' : Bytes) (i : ℕ)
    → length d ≡ 8
    → Located json i
    → put_at i d' (put_at i d json) ≡ put_at i d' json
put_at_twice json d d' i len (located a b e at_i room same) = rw e (
    ap (λ t. put_at i d' t) (put_at_split i d a b at_i)
    ∙ put_at_split i d' a (d ++ drop 8 b) at_i
    ∙ ap (λ t. a ++ (d' ++ t)) (drop-append_eq 8 d (drop 8 b) (sym len))
    ∙ sym (put_at_split i d' a b at_i))

put_at_back :
    (json d : Bytes) (i : ℕ) → length d ≡ 8 → Located json i → take 8 (drop i (put_at i d json)) ≡ d
put_at_back json d i len (located a b e at_i room same) = rw e (
    ap (λ t. take 8 (drop i t)) (put_at_split i d a b at_i)
    ∙ ap (λ t. take 8 t) (drop-append_eq i a (d ++ drop 8 b) at_i)
    ∙ take-append_eq 8 d (drop 8 b) (sym len))

zero_out_at :
    (json : Bytes) (i : ℕ)
    → locate json ≡ some i
    → zero_out_header_crc32_field json ≡ (put_at i (replicate 8 b'0') json, true)
unfolding zero_out_header_crc32_field
zero_out_at json i e = rw e refl

extract_at :
    (json : Bytes) (i : ℕ)
    → locate json ≡ some i
    → extract_header_crc32_hex_u32 json
      ≡ or_nat (strtoull 16 (c_str (take 8 (drop i json)))) 0 % 2 ^ 32
unfolding extract_header_crc32_hex_u32
extract_at json i e = rw e refl

hex_upper-IsChar : (d : ℕ) → d < 16 → IsChar (hex_upper d)
unfolding hex_upper
hex_upper-IsChar d h = ground arith

pub crc_hex8-IsCStr : (c : ℕ) → IsCStr (crc_hex8 c)
unfolding crc_hex8
crc_hex8-IsCStr c = (
  hex_upper-IsChar _ (omega arith),
  (
    hex_upper-IsChar _ (omega arith),
    (
      hex_upper-IsChar _ (omega arith),
      (
        hex_upper-IsChar _ (omega arith),
        (
          hex_upper-IsChar _ (omega arith),
          (
            hex_upper-IsChar _ (omega arith),
            (hex_upper-IsChar _ (omega arith), (hex_upper-IsChar _ (omega arith), tt)),
          ),
        ),
      ),
    ),
  ),
)

length-crc_hex8 : (c : ℕ) → length (crc_hex8 c) ≡ 8
unfolding crc_hex8
length-crc_hex8 c = refl

read_back : (c : ℕ) → IsU32 c → or_nat (strtoull 16 (c_str (crc_hex8 c))) 0 % 2 ^ 32 ≡ c
read_back c h =
    rw (c_str-IsCStr (crc_hex8 c) (crc_hex8-IsCStr c), strtoull-crc_hex8 c h) (omega arith)

-- In a text where the search locates the CRC field at i, put the eight digits that crc_hex8 prints
-- for a 32-bit crc at i. Then gbf_extract_header_crc32_hex_u32 returns that crc, and
-- gbf_zero_out_header_crc32_field succeeds and leaves what it leaves of the first text: that text
-- with eight zeros at i.
pub header_crc_lem :
    (json : Bytes) (i c : ℕ)
    → locate json ≡ some i
    → IsU32 c
    → (extract_header_crc32_hex_u32 (put_at i (crc_hex8 c) json) ≡ c)
      × (zero_out_header_crc32_field (put_at i (crc_hex8 c) json)
          ≡ zero_out_header_crc32_field json)
      × (zero_out_header_crc32_field json ≡ (put_at i (replicate 8 b'0') json, true))
header_crc_lem json i c e h =
    let len = length-crc_hex8 c in
    let at_i = locate-Located json i e in
    let there = put_at-locate json (crc_hex8 c) i len at_i in
    let back = put_at_back json (crc_hex8 c) i len at_i in
    (
      extract_at _ i there
          ∙ ap (λ t. or_nat (strtoull 16 (c_str t)) 0 % 2 ^ 32) back
          ∙ read_back c h,
      zero_out_at _ i there
          ∙ ap (λ t. (t, true)) (put_at_twice json (crc_hex8 c) (replicate 8 b'0') i len at_i)
          ∙ sym (zero_out_at json i e),
      zero_out_at json i e,
    )
