-- ===== src/Writer/Sizes.antt =====
-- Every field that flatten_fields_rec pushes has the length of its payload as csize.
use gbin.Prelude.{
  ◌≡◌, refl, ap, not, List, [], ◌∷◌, ◌++◌, Bytes, All, is_empty, Result, ok, err, ◌>>=◌, guard,
}
use gbin.Error.{Error, unnamed_leaf}
use gbin.Value.{
  Value, struct, Entries, no_entries, entry, numeric, logical, string, char, datetime, duration,
  calendar_duration, categorical, opaque,
}
use gbin.Codec.Encode.{encode_value_bytes}
use gbin.Payload.{Zlib, WriteOptions, compress_maybe}
use gbin.Writer.{
  WriterField, field_of, join_name, leaf_field, empty_struct_fields, flatten_fields_rec,
  flatten_entries,
}
use gbin.Writer.Layout.{HasItsSize}

-- Whatever a call returns without an error is as stated.
data Returns {A : Type 0} (P : A → Type 0) : Result Error A → Type 0 where
  returned : (a : A) → P a → Returns P (ok a)
  refused : (e : Error) → Returns P (err e)

Returns-bind :
    {A B : Type 0} (P : B → Type 0) (r : Result Error A) (f : A → Result Error B)
    → ((a : A) → Returns P (f a))
    → Returns P (r >>= f)
Returns-bind P (err e) f k = refused e
Returns-bind P (ok a) f k = k a

Returns-then :
    {A B : Type 0} (P : A → Type 0) (Q : B → Type 0) (r : Result Error A) (f : A → Result Error B)
    → Returns P r
    → ((a : A) → P a → Returns Q (f a))
    → Returns Q (r >>= f)
Returns-then P Q _ f (returned a h) k = k a h
Returns-then P Q _ f (refused e) k = refused e

abbrev pub AllSized : List WriterField → Type 0
AllSized fs = All HasItsSize fs

All-append :
    (fs gs : List WriterField) → All HasItsSize fs → All HasItsSize gs → All HasItsSize (fs ++ gs)
All-append [] gs h k = k
All-append (f ∷ fs) gs h k = (h.0, All-append fs gs h.1 k)

module _ (z : Zlib) (opt : WriteOptions) where
  leaf_field-Returns : (prefix : Bytes) (v : Value) → Returns HasItsSize (leaf_field z opt prefix v)
  unfolding leaf_field field_of
  leaf_field-Returns prefix v =
      Returns-bind HasItsSize (guard (not (is_empty prefix)) unnamed_leaf) _ λ u.
        Returns-bind HasItsSize (encode_value_bytes v) _ λ raw.
          Returns-bind HasItsSize (compress_maybe z opt raw) _ λ (name, payload). returned _ refl

  alone :
      (prefix : Bytes) (v : Value)
      → Returns AllSized (leaf_field z opt prefix v >>= λ f. ok (f ∷ []))
  alone prefix v =
      Returns-then HasItsSize AllSized _ _ (leaf_field-Returns prefix v) λ f h. returned _ (h, tt)

  empty_struct-sized : (prefix : Bytes) → All HasItsSize (empty_struct_fields z opt prefix)
  unfolding empty_struct_fields field_of
  empty_struct-sized [] = tt
  empty_struct-sized (c ∷ prefix) = (refl, tt)

  mutual
    unfolding flatten_fields_rec

    flatten_value-Returns :
        (prefix : Bytes) (v : Value) → Returns AllSized (flatten_fields_rec z opt prefix v)
    flatten_value-Returns prefix (struct no_entries) = returned _ (empty_struct-sized prefix)
    flatten_value-Returns prefix (struct (entry key child es)) =
        flatten_entries-Returns prefix (entry key child es)
    flatten_value-Returns prefix (numeric a) = alone prefix (numeric a)
    flatten_value-Returns prefix (logical a) = alone prefix (logical a)
    flatten_value-Returns prefix (string a) = alone prefix (string a)
    flatten_value-Returns prefix (char a) = alone prefix (char a)
    flatten_value-Returns prefix (datetime a) = alone prefix (datetime a)
    flatten_value-Returns prefix (duration a) = alone prefix (duration a)
    flatten_value-Returns prefix (calendar_duration a) = alone prefix (calendar_duration a)
    flatten_value-Returns prefix (categorical a) = alone prefix (categorical a)
    flatten_value-Returns prefix (opaque a) = alone prefix (opaque a)

    flatten_entries-Returns :
        (prefix : Bytes) (es : Entries) → Returns AllSized (flatten_entries z opt prefix es)
    flatten_entries-Returns prefix no_entries = returned [] tt
    flatten_entries-Returns prefix (entry key child es) =
        Returns-bind AllSized (join_name prefix key) _ λ name.
          Returns-then AllSized AllSized _ _ (flatten_value-Returns name child) λ fs h.
            Returns-then AllSized AllSized _ _ (flatten_entries-Returns prefix es)
              λ more k. returned _ (All-append fs more h k)

abbrev value_or : {A : Type 0} → A → Result Error A → A
value_or d (ok a) = a
value_or d (err e) = d

ok-injective : {A : Type 0} {a b : A} → Path (Result Error A) (ok a) (ok b) → a ≡ b
ok-injective {a} e = ap (value_or a) e

what_returned :
    {A : Type 0} {P : A → Type 0} {r : Result Error A} {a : A} → Returns P r → r ≡ ok a → P a
what_returned (returned b h) e = rw (← ok-injective e) h
what_returned (refused x) e = cc

-- When flatten_fields_rec returns fields for a value under a prefix, each of them has the length of
-- its payload as csize, whatever zlib and the options are.
pub flatten_fields_rec-HasItsSize :
    (z : Zlib) (opt : WriteOptions) (prefix : Bytes) (v : Value) (fs : List WriterField)
    → flatten_fields_rec z opt prefix v ≡ ok fs
    → All HasItsSize fs
flatten_fields_rec-HasItsSize z opt prefix v fs e =
    what_returned (flatten_value-Returns z opt prefix v) e
