-- ===== src/Codec/RoundTrip/Text.antt =====
-- String and categorical arrays read back from their bytes.
use gbin.Prelude.{
  ℕ, ◌*◌, ◌≤◌, ◌<◌, ◌≡◌, refl, sym, ap, ◌∙◌, arith, Bytes, List, [], ◌∷◌, ◌++◌, Option, none, some,
  length, length-append, le→ltb, All, c_str-IsCStr, append_assoc, append-nil, take-append,
  drop-append, ok, map, ne→==, eq→==,
}
use gbin.Word.{size_max, u32_max, IsU32, store_le_u32}
use gbin.Value.{StringArray, CategoricalArray, string, categorical}
use gbin.Codec.{encode_u32, read_u32, read_str_u32len}
use gbin.Codec.Encode.{encode_elements, encode_string, encode_categories, encode_categorical}
use gbin.Codec.Decode.{decode_element, decode_elements, decode_string, decode_categorical}
use gbin.Codec.Elements.{
  IsShort, str_bytes, print_all, read_u32-Reads, read_str_u32len-Reads, read_many-Reads,
  encode_all_u32-append, encode_str_u32len-append,
}
use gbin.Codec.RoundTrip.Shaped.{IsShaped, mul64_small}

-- An element that can be read back: NULL, or a string that is not empty. (An empty string has the
-- bytes of a NULL.)
abbrev pub IsElement : Option Bytes → Type 0
IsElement none = Unit
IsElement (some s) = IsShort s × (0 < length s)

abbrev element_bytes : Option Bytes → Bytes
element_bytes none = store_le_u32 0
element_bytes (some s) = store_le_u32 (length s) ++ s

decode_element-element_bytes :
    (e : Option Bytes) (rest : Bytes)
    → IsElement e
    → decode_element (element_bytes e ++ rest) ≡ ok (e, rest)
unfolding decode_element
decode_element-element_bytes none rest h = rw (read_u32-Reads 0 (omega arith) rest)
decode_element-element_bytes (some s) rest h = rw (
  append_assoc (store_le_u32 (length s)) s rest,
  read_u32-Reads (length s) (omega arith) (s ++ rest),
  ne→== (length s) 0 (omega arith),
  le→ltb (length (s ++ rest)) (length s) (omega (arith, length-append s rest)),
  take-append s rest,
  drop-append s rest,
  c_str-IsCStr s h.0.0,
)

decode_elements-print_all :
    (es : List (Option Bytes))
    → All IsElement es
    → decode_elements (length es) (print_all element_bytes es) ≡ ok es
unfolding decode_elements
decode_elements-print_all [] h = refl
decode_elements-print_all (e ∷ es) h = rw (
  decode_element-element_bytes e (print_all element_bytes es) h.0,
  decode_elements-print_all es h.1,
)

encode_elements-append :
    (sb : Bytes) (es : List (Option Bytes))
    → All IsElement es
    → encode_elements sb es ≡ ok (sb ++ print_all element_bytes es)
unfolding encode_elements encode_u32
encode_elements-append sb [] h = ap ok (sym (append-nil sb))
encode_elements-append sb (none ∷ es) h =
    encode_elements-append (sb ++ store_le_u32 0) es h.1
    ∙ ap ok (append_assoc sb (store_le_u32 0) (print_all element_bytes es))
encode_elements-append sb (some s ∷ es) h = rw (
  le→ltb u32_max (length s) h.0.0.1,
  append_assoc sb (store_le_u32 (length s)) s,
  encode_elements-append (sb ++ (store_le_u32 (length s) ++ s)) es h.1,
  append_assoc sb (store_le_u32 (length s) ++ s) (print_all element_bytes es),
)

pub record IsStringArray (a : StringArray) (n : ℕ) : Type 0 where
  pub shaped : IsShaped a.shape n
  pub count : n ≡ length a.elements
  pub count_fits : n ≤ u32_max
  pub elements_fit : All IsElement a.elements

abbrev pub string_bytes : StringArray → Bytes
string_bytes a = store_le_u32 (length a.elements) ++ print_all element_bytes a.elements

pub encode_string-bytes :
    (a : StringArray) (n : ℕ) → IsStringArray a n → encode_string a ≡ ok (string_bytes a)
unfolding encode_string
encode_string-bytes a n h =
    rw (le→ltb u32_max (length a.elements) (omega (arith, h.count, h.count_fits))) (
      encode_elements-append (encode_u32 [] (length a.elements)) a.elements h.elements_fit
      ∙ (unfold encode_u32 in refl))

pub string_back :
    (a : StringArray) (n : ℕ)
    → IsStringArray a n
    → decode_string a.shape n (string_bytes a) ≡ ok (string a)
unfolding decode_string
string_back a n h = rw (
  read_u32-Reads (length a.elements) (omega (arith, h.count, h.count_fits))
      (print_all element_bytes a.elements),
  h.count,
  eq→== (length a.elements) (length a.elements) refl,
  decode_elements-print_all a.elements h.elements_fit,
)

-- A category, or a text of a datetime: a string, not NULL.
abbrev pub IsText : Option Bytes → Type 0
IsText none = ⊥
IsText (some s) = IsShort s

abbrev pub text_bytes : Option Bytes → Bytes
text_bytes none = []
text_bytes (some s) = str_bytes s

encode_categories-append :
    (sb : Bytes) (cs : List (Option Bytes))
    → All IsText cs
    → encode_categories sb cs ≡ some (sb ++ print_all text_bytes cs)
unfolding encode_categories
encode_categories-append sb [] h = ap some (sym (append-nil sb))
encode_categories-append sb (none ∷ cs) h = absurd h.0
encode_categories-append sb (some s ∷ cs) h = rw (
  encode_str_u32len-append sb s h.0,
  encode_categories-append (sb ++ str_bytes s) cs h.1,
  append_assoc sb (str_bytes s) (print_all text_bytes cs),
)

-- The categories as plain strings.
abbrev names : List (Option Bytes) → List Bytes
names [] = []
names (none ∷ cs) = names cs
names (some s ∷ cs) = s ∷ names cs

names-All : (cs : List (Option Bytes)) → All IsText cs → All IsShort (names cs)
names-All [] h = tt
names-All (none ∷ cs) h = absurd h.0
names-All (some s ∷ cs) h = (h.0, names-All cs h.1)

some-names : (cs : List (Option Bytes)) → All IsText cs → map some (names cs) ≡ cs
some-names [] h = refl
some-names (none ∷ cs) h = absurd h.0
some-names (some s ∷ cs) h = rw (some-names cs h.1)

length-names : (cs : List (Option Bytes)) → All IsText cs → length (names cs) ≡ length cs
length-names [] h = refl
length-names (none ∷ cs) h = absurd h.0
length-names (some s ∷ cs) h = omega (arith, length-names cs h.1)

print_all-names :
    (cs : List (Option Bytes))
    → All IsText cs
    → print_all text_bytes cs ≡ print_all str_bytes (names cs)
print_all-names [] h = refl
print_all-names (none ∷ cs) h = absurd h.0
print_all-names (some s ∷ cs) h = rw (print_all-names cs h.1)

pub record IsCategorical (a : CategoricalArray) (n : ℕ) : Type 0 where
  pub shaped : IsShaped a.shape n
  pub count : n ≡ length a.codes
  pub size_fits : n * 4 ≤ size_max
  pub categories_count : length a.categories ≤ u32_max
  pub categories_fit : All IsText a.categories
  pub codes_fit : All IsU32 a.codes

abbrev pub categorical_bytes : CategoricalArray → Bytes
categorical_bytes a =
    store_le_u32 (length a.categories)
    ++ (print_all text_bytes a.categories ++ print_all store_le_u32 a.codes)

pub encode_categorical-bytes :
    (a : CategoricalArray) (n : ℕ)
    → IsCategorical a n
    → encode_categorical a ≡ ok (categorical_bytes a)
unfolding encode_categorical encode_u32
encode_categorical-bytes a n h = rw (
  le→ltb u32_max (length a.categories) h.categories_count,
  encode_categories-append (store_le_u32 (length a.categories)) a.categories h.categories_fit,
  encode_all_u32-append (store_le_u32 (length a.categories) ++ print_all text_bytes a.categories)
      a.codes,
  append_assoc (store_le_u32 (length a.categories)) (print_all text_bytes a.categories)
      (print_all store_le_u32 a.codes),
)

length-store_le_u32 : (x : ℕ) → length (store_le_u32 x) ≡ 4
unfolding store_le_u32
length-store_le_u32 x = refl

length-print_u32 : (xs : List ℕ) → length (print_all store_le_u32 xs) ≡ length xs * 4
length-print_u32 [] = refl
length-print_u32 (x ∷ xs) = omega (
  arith,
  length-append (store_le_u32 x) (print_all store_le_u32 xs),
  length-store_le_u32 x,
  length-print_u32 xs,
)

pub categorical_back :
    (a : CategoricalArray) (n : ℕ)
    → IsCategorical a n
    → decode_categorical a.shape n (categorical_bytes a) ≡ ok (categorical a)
unfolding decode_categorical
categorical_back a n h = rw (
  read_u32-Reads (length a.categories) (omega (arith, h.categories_count))
      (print_all text_bytes a.categories ++ print_all store_le_u32 a.codes),
  print_all-names a.categories h.categories_fit,
  ← length-names a.categories h.categories_fit,
  read_many-Reads read_str_u32len str_bytes read_str_u32len-Reads (names a.categories)
      (names-All a.categories h.categories_fit) (print_all store_le_u32 a.codes),
  mul64_small n 4 h.size_fits,
  le→ltb (length (print_all store_le_u32 a.codes)) (n * 4)
      (omega (arith, length-print_u32 a.codes, h.count)),
  le→ltb size_max (n * 4) h.size_fits,
  h.count,
  ← append-nil (print_all store_le_u32 a.codes),
  read_many-Reads read_u32 store_le_u32 read_u32-Reads a.codes h.codes_fit [],
  some-names a.categories h.categories_fit,
)
