-- ===== src/Writer/Layout.antt =====
-- The file that gbf_write_file lays out is the one that gbf_read_header_only and read_payload_bytes
-- take apart.
use gbin.Prelude.{
  ℕ, ◌+◌, ◌*◌, ◌%◌, ◌^◌, ◌≤◌, ◌<◌, ◌≡◌, refl, sym, ap, ◌∙◌, arith, List, [], ◌∷◌, ◌++◌,
  append_assoc, Bytes, All, length, length-append, take-append_eq, drop-append_eq, take_all, ◌==◌,
  Bool-cases, inl, inr, ==→eq, le→leb, lt→ltb, ok,
}
use gbin.Word.{store_le_u32, le_u32, size_max}
use gbin.Word.Endian.{le_u32-store_le_u32}
use gbin.Payload.{read_payload_bytes}
use gbin.Reader.{k_magic, read_header_json}
use gbin.Writer.{WriterField, with_offsets, payloads, file_of}

-- What flatten_fields_rec sets of every field.
abbrev pub HasItsSize : WriterField → Type 0
HasItsSize f = f.meta.csize ≡ length f.payload

read_payload_bytes-at :
    (front p rest : Bytes) (offset csize : ℕ)
    → offset ≡ length front
    → csize ≡ length p
    → length front + length p < 2 ^ 63
    → read_payload_bytes (front ++ (p ++ rest)) offset csize ≡ ok p
unfolding read_payload_bytes
read_payload_bytes-at front p rest offset csize o c small = elim (Bool-cases (csize == 0)) [
  | inl none_there ↦ rw none_there (ap ok (empty_eq p (sym c ∙ ==→eq csize 0 none_there)))
  | inr there ↦
      rw
        (
          there,
          drop-append_eq offset front (p ++ rest) o,
          le→leb csize size_max (omega arith),
          lt→ltb offset (2 ^ 63) (omega arith),
          le→leb csize (length (p ++ rest)) (omega (arith, length-append p rest)),
        )
        (ap ok (take-append_eq csize p rest c))
]
  where
    empty_eq : (s : Bytes) → length s ≡ 0 → [] ≡ s
    empty_eq [] e = refl
    empty_eq (b ∷ s) e = absurd (omega arith)

-- A field is read back from a file, when payloads start at a place in it.
abbrev pub IsReadBack : Bytes → ℕ → WriterField → Type 0
IsReadBack file start f =
    read_payload_bytes file (start + f.meta.offset) f.meta.csize ≡ ok f.payload

moved :
    {file file' : Bytes} (start : ℕ) {a b : ℕ} (fs : List WriterField)
    → a ≡ b
    → file ≡ file'
    → All (IsReadBack file' start) (with_offsets b fs)
    → All (IsReadBack file start) (with_offsets a fs)
moved start fs e e' h = rw (e, e') h

read_each :
    (front : Bytes) (start size : ℕ) (fs : List WriterField)
    → All HasItsSize fs
    → start + size ≡ length front
    → length front + length (payloads fs) < 2 ^ 63
    → All (IsReadBack (front ++ payloads fs) start) (with_offsets size fs)
unfolding payloads with_offsets
read_each front start size [] h e small = tt
read_each front start size (f ∷ fs) h e small =
    let p = f.payload in
    let total = length-append p (payloads fs) in
    let grown = length-append front p in
    let next : (size + f.meta.csize) % 2 ^ 64 ≡ size + length p = rw (h.0) (omega arith) in
    (
      read_payload_bytes-at front p (payloads fs) (start + size) f.meta.csize e h.0 (omega arith),
      moved start fs next (sym (append_assoc front p (payloads fs)))
          (read_each (front ++ p) start (size + length p) fs h.1 (omega arith) (omega arith)),
    )

pub payloads-with_offsets :
    (size : ℕ) (fs : List WriterField) → payloads (with_offsets size fs) ≡ payloads fs
unfolding payloads with_offsets
payloads-with_offsets size [] = refl
payloads-with_offsets size (f ∷ fs) =
    ap (λ t. f.payload ++ t) (payloads-with_offsets ((size + f.meta.csize) % 2 ^ 64) fs)

read_header_json-at :
    (header rest : Bytes) (a b c d : ℕ)
    → le_u32 (a ∷ b ∷ c ∷ d ∷ []) ≡ length header
    → length header ≤ 2 ^ 28
    → read_header_json (k_magic ++ 0 ∷ a ∷ b ∷ c ∷ d ∷ (header ++ rest))
      ≡ ok (length header, header)
unfolding read_header_json
read_header_json-at header rest a b c d e small =
    rw
      (
        le→leb 8 (length (k_magic ++ 0 ∷ a ∷ b ∷ c ∷ d ∷ (header ++ rest))) (omega arith),
        le→leb 12 (length (k_magic ++ 0 ∷ a ∷ b ∷ c ∷ d ∷ (header ++ rest))) (omega arith),
        e,
        le→leb (length header) (1024 * 1024 * 256) (omega arith),
        le→leb (length header) (length (header ++ rest)) (omega (arith, length-append header rest)),
        take-append_eq (length header) header rest refl,
      )
      refl

front_of : Bytes → Bytes
front_of header = k_magic ++ 0 ∷ (store_le_u32 (length header) ++ header)

length-front_of : (header : Bytes) → length (front_of header) ≡ 12 + length header
unfolding front_of store_le_u32
length-front_of header = omega arith

file_of-front :
    (header : Bytes) (fs : List WriterField)
    → length header ≤ 2 ^ 28
    → file_of header fs ≡ front_of header ++ payloads fs
unfolding file_of front_of store_le_u32
file_of-front header fs small =
    let whole : length header % 2 ^ 32 ≡ length header = omega arith in
    rw (whole, take_all (length header) header (omega arith)) refl

file_of-header :
    (header : Bytes) (fs : List WriterField)
    → length header ≤ 2 ^ 28
    → read_header_json (front_of header ++ payloads fs) ≡ ok (length header, header)
unfolding front_of store_le_u32
file_of-header header fs small =
    read_header_json-at header (payloads fs) _ _ _ _
      (le_u32-store_le_u32 (length header) [] (omega arith)) small

pub length-file_of :
    (header : Bytes) (fs : List WriterField)
    → length header ≤ 2 ^ 28
    → length (file_of header (with_offsets 0 fs)) ≡ 12 + length header + length (payloads fs)
length-file_of header fs small =
    ap length (
      file_of-front header (with_offsets 0 fs) small
      ∙ ap (λ t. front_of header ++ t) (payloads-with_offsets 0 fs))
    ∙ length-append (front_of header) (payloads fs)
    ∙ omega (arith, length-front_of header)

-- Let every field have the length of its payload as csize, the header be at most 2^28 bytes and the
-- whole file less than 2^63. In the file that is laid out from the header and the fields with their
-- offsets, read_header_json finds the header and its length, and read_payload_bytes at 12 + that
-- length + the offset of a field finds the payload of the field.
pub file_of-reads :
    (header : Bytes) (fs : List WriterField)
    → All HasItsSize fs
    → length header ≤ 2 ^ 28
    → 12 + length header + length (payloads fs) < 2 ^ 63
    → (read_header_json (file_of header (with_offsets 0 fs)) ≡ ok (length header, header))
      × All
          (IsReadBack (file_of header (with_offsets 0 fs)) (12 + length header))
          (with_offsets 0 fs)
file_of-reads header fs h small total =
    let same : file_of header (with_offsets 0 fs) ≡ front_of header ++ payloads fs =
      file_of-front header (with_offsets 0 fs) small
      ∙ ap (λ t. front_of header ++ t) (payloads-with_offsets 0 fs) in
    (
      ap (λ t. read_header_json t) same ∙ file_of-header header fs small,
      moved (12 + length header) fs refl same (
          read_each (front_of header) (12 + length header) 0 fs h
            (omega (arith, length-front_of header)) (omega (arith, length-front_of header))),
    )
