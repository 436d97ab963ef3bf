-- ===== src/Payload/Laws.antt =====
-- What compress_maybe writes, maybe_decompress reads back.
use gbin.Prelude.{
  guard, ◌>>◌, ℕ, ◌≡◌, ◌≤◌, refl, sym, ap, ◌∙◌, arith, false, [], ◌∷◌, some, Bytes, codes, length,
  take_all, ◌==◌, Bool-cases, Option-cases, inl, inr, ==→eq, eq→==, ne→==, le→leb, le→ltb, Result,
  ok, err,
}
use gbin.Error.{Error, usize_too_large}
use gbin.Word.{size_max}
use gbin.Header.{FieldMeta}
use gbin.Payload.{
  Zlib, WriteOptions, CompressionMode, auto, always, never, exactly, use_zlib, choose, or_never,
  level, maybe_decompress, compress_maybe,
}

-- What zlib documents: uncompress restores what compress2 compressed, given the size.
pub data Restores (z : Zlib) : Type 0 where
  restores :
      ((level : ℕ) (src comp : Bytes)
        → z.compress2 level src ≡ some comp
        → z.uncompress (length src) comp ≡ some src)
      → Restores z

-- The three results of compress_maybe.
data Chosen (z : Zlib) (src name buf : Bytes) : Type 0 where
  stored : name ≡ codes "none" → buf ≡ src → Chosen z src name buf
  packed :
      (level : ℕ) → name ≡ codes "zlib" → z.compress2 level src ≡ some buf → Chosen z src name buf

pair_eq :
    {n b n' b' : Bytes}
    → Path (Result Error (Bytes × Bytes)) (ok (n, b)) (ok (n', b'))
    → (n ≡ n') × (b ≡ b')
pair_eq e = (cc, cc)

empty_eq : (src : Bytes) → length src ≡ 0 → src ≡ []
empty_eq [] e = refl
empty_eq (b ∷ src) e = absurd (omega arith)

choose-Chosen :
    (z : Zlib) (mode : CompressionMode) (lv : ℕ) (src name buf : Bytes)
    → choose mode src (z.compress2 lv src) ≡ ok (name, buf)
    → Chosen z src name buf
unfolding choose
choose-Chosen z mode lv src name buf e = elim (Option-cases (z.compress2 lv src)) [
  | inl failed ↦ absurd (no_error (rw failed at e))
  | inr (comp, made) ↦ elim (Bool-cases (use_zlib mode comp src)) [
    | inl smaller ↦
        let (n, b) = pair_eq (rw (made, smaller) at e) in packed lv (sym n) (made ∙ ap some b)
    | inr larger ↦ let (n, b) = pair_eq (rw (made, larger) at e) in stored (sym n) (sym b)
  ]
]
  where
    no_error : {x : Error} {p : Bytes × Bytes} → err x ≡ ok p → ⊥
    no_error e = cc

not_empty-Chosen :
    (z : Zlib) (mode : CompressionMode) (lv : ℕ) (src name buf : Bytes)
    → or_never mode src (choose mode src (z.compress2 lv src)) ≡ ok (name, buf)
    → Chosen z src name buf
not_empty-Chosen z never lv src name buf e = let (n, b) = pair_eq e in stored (sym n) (sym b)
not_empty-Chosen z auto lv src name buf e = choose-Chosen z auto lv src name buf e
not_empty-Chosen z always lv src name buf e = choose-Chosen z always lv src name buf e

compress_maybe-Chosen :
    (z : Zlib) (opt : WriteOptions) (src name buf : Bytes)
    → compress_maybe z opt src ≡ ok (name, buf)
    → Chosen z src name buf
unfolding compress_maybe
compress_maybe-Chosen z opt src name buf e = elim (Bool-cases (length src == 0)) [
  | inl empty ↦
      let (n, b) = pair_eq (rw empty at e) in
      stored (sym n) (sym b ∙ sym (empty_eq src (==→eq (length src) 0 empty)))
  | inr full ↦
      not_empty-Chosen z opt.compression (level z.default_compression opt.zlib_level) src name buf
        (rw full at e)
]

-- A payload of no bytes.
decompress_empty :
    (z : Zlib) (meta : FieldMeta) (src buf : Bytes)
    → meta.usize ≡ length src
    → length src ≡ 0
    → maybe_decompress z meta buf ≡ ok src
unfolding maybe_decompress
decompress_empty z meta src buf u e = rw (eq→== meta.usize 0 (u ∙ e)) (ap ok (sym (empty_eq src e)))

decompress_stored :
    (z : Zlib) (meta : FieldMeta) (src : Bytes)
    → meta.usize ≡ length src
    → ¬ (length src ≡ 0)
    → meta.compression ≡ codes "none"
    → maybe_decompress z meta src ≡ ok src
unfolding maybe_decompress
decompress_stored z meta src u ne c =
    rw
      (
        ne→== meta.usize 0 (λ e. ne (sym u ∙ e)),
        c,
        le→ltb (length src) meta.usize (omega arith),
        take_all meta.usize src (omega arith),
      )
      refl

decompress_packed :
    (z : Zlib) (meta : FieldMeta) (src buf : Bytes)
    → meta.usize ≡ length src
    → ¬ (length src ≡ 0)
    → meta.compression ≡ codes "zlib"
    → length src ≤ size_max
    → z.uncompress (length src) buf ≡ some src
    → maybe_decompress z meta buf ≡ ok src
unfolding maybe_decompress
decompress_packed z meta src buf u ne c fits back =
    rw (u, ne→== (length src) 0 ne, c)
      (ap (λ b. guard b usize_too_large >> exactly (length src) (z.uncompress (length src) buf))
          (le→leb (length src) size_max fits)
        ∙ rw (back, eq→== (length src) (length src) refl) refl)

not_zero : (n : ℕ) → (n == 0) ≡ false → ¬ (n ≡ 0)
not_zero n h e = ground arith

read_back :
    (z : Zlib) (meta : FieldMeta) (src buf : Bytes)
    → Restores z
    → length src ≤ size_max
    → meta.usize ≡ length src
    → ¬ (length src ≡ 0)
    → Chosen z src meta.compression buf
    → maybe_decompress z meta buf ≡ ok src
read_back z meta src buf law fits u ne (stored name e) =
    rw e (decompress_stored z meta src u ne name)
read_back z meta src buf (restores law) fits u ne (packed lv name made) =
    decompress_packed z meta src buf u ne name fits (law lv src buf made)

-- Let uncompress restore what compress2 compressed. If compress_maybe turns a payload that fits in
-- a size_t into a compression name and a buffer, by whatever options, then maybe_decompress of that
-- buffer, for a field that holds the name and the payload's length as usize, is the payload.
pub maybe_decompress-compress_maybe :
    (z : Zlib) (opt : WriteOptions) (meta : FieldMeta) (src buf : Bytes)
    → Restores z
    → length src ≤ size_max
    → meta.usize ≡ length src
    → compress_maybe z opt src ≡ ok (meta.compression, buf)
    → maybe_decompress z meta buf ≡ ok src
maybe_decompress-compress_maybe z opt meta src buf law fits u e =
    elim (Bool-cases (length src == 0)) [
      | inl empty ↦ decompress_empty z meta src buf u (==→eq (length src) 0 empty)
      | inr full ↦
          read_back z meta src buf law fits u (not_zero (length src) full)
            (compress_maybe-Chosen z opt src meta.compression buf e)
    ]
