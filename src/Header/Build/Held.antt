-- ===== src/Header/Build/Held.antt =====
-- What the appends of build_header_json (C/src/gbf.c) leave: the text, where none of them leaves
-- the block.
use gbin.Prelude.{
  ℕ, List, [], ◌∷◌, ◌++◌, Bytes, ◌≡◌, refl, codes, Result, ok, err, ◌>>=◌, if◌then◌else◌,
  append-nil, append_assoc, sym,
}
use gbin.Error.{Error, undefined}
use gbin.Strbuf.Content.Fits.{FitsBlocks, FitsBlocks-not_Bursts}
use gbin.Strbuf.Content.Held.{
  Has, Holds, holds, overran, Holds-bind, holding, stays, starts, text, printed, Bursts,
  Bursts-append,
}
use gbin.Strbuf.Content.{Content, empty_content, append_text, append_bytes, append_printed}
use gbin.Json.Text.{json_escape}
use gbin.Libc.{decimal}
use gbin.Header.{FieldMeta}
use gbin.Header.Text.{
  field_end_text, back_text, dims_text, shape_text, field_text, more_fields_text, fields_text,
  front_text, header_text,
}
use gbin.Header.Build.{
  append_field_end, header_back, append_escaped, append_dims, append_shape, append_field,
  append_more_fields, append_fields, header_front, build_header_json,
}

then_text :
    {t u : Bytes} (p : Bytes) (b : Content) (k : Content → Result Error Content)
    → Has b t
    → ((b' : Content) → Has b' (t ++ p) → Holds (t ++ p) u (k b'))
    → Holds t u (append_text b p >>= k)
then_text p b k e h = Holds-bind (text p b e) h

then_printed :
    {t u : Bytes} (v : ℕ) (b : Content) (k : Content → Result Error Content)
    → Has b t
    → ((b' : Content) → Has b' (t ++ decimal v) → Holds (t ++ decimal v) u (k b'))
    → Holds t u (append_printed b (decimal v) >>= k)
then_printed v b k e h = Holds-bind (printed v b e) h

bytes : (p : Bytes) {t : Bytes} (b : Content) → Has b t → Holds t (t ++ p) (append_bytes b p)
unfolding append_bytes
bytes [] {t} b e = holding (sym (append-nil t)) (stays b e)
bytes (c ∷ p) {t} b e =
    then_text (c ∷ []) b _ e λ b e. holding (append_assoc t (c ∷ []) p) (bytes p b e)

-- json_escape_append
then_escaped :
    {t u : Bytes} (s : Bytes) (b : Content) (k : Content → Result Error Content)
    → Has b t
    → ((b' : Content) → Has b' (t ++ json_escape s) → Holds (t ++ json_escape s) u (k b'))
    → Holds t u (append_escaped b s >>= k)
unfolding append_escaped
then_escaped s b k e h = Holds-bind (bytes (json_escape s) b e) h

dims :
    (ds : List ℕ) {t : Bytes} (b : Content) → Has b t → Holds t (dims_text t ds) (append_dims b ds)
unfolding append_dims dims_text
dims [] b e = stays b e
dims (d ∷ ds) b e = then_text (codes ",") b _ e λ b e. then_printed d b _ e λ b e. dims ds b e

shape :
    {t : Bytes} (ds : List ℕ) (b : Content)
    → Has b t
    → Holds t (shape_text t ds) (append_shape b ds)
unfolding append_shape shape_text
shape [] b e = stays b e
shape (d ∷ ds) b e = then_printed d b _ e λ b e. dims ds b e

-- From the offset on.
field_end :
    {t : Bytes} (f : FieldMeta) (b : Content)
    → Has b t
    → Holds t (field_end_text t f) (append_field_end b f)
unfolding append_field_end field_end_text
field_end f b e = then_text (codes ",\"offset\":") b _ e λ b e. then_printed f.offset b _ e λ b e.
    then_text (codes ",\"csize\":") b _ e λ b e. then_printed f.csize b _ e λ b e.
      then_text (codes ",\"usize\":") b _ e λ b e. then_printed f.usize b _ e λ b e.
        then_text (codes ",\"crc32\":") b _ e
          λ b e. then_printed f.crc32 b _ e λ b e. text (codes "}") b e

field :
    {t : Bytes} (f : FieldMeta) (b : Content)
    → Has b t
    → Holds t (field_text t f) (append_field b f)
unfolding append_field field_text
field f b e = then_text (codes "{") b _ e λ b e. then_text (codes "\"name\":") b _ e λ b e.
    then_escaped f.name b _ e λ b e. then_text (codes ",\"kind\":") b _ e λ b e.
      then_escaped f.kind b _ e λ b e. then_text (codes ",\"class\":") b _ e λ b e.
        then_escaped f.class_name b _ e λ b e. then_text (codes ",\"shape\":[") b _ e λ b e.
          Holds-bind (shape f.shape b e) λ b e. then_text (codes "]") b _ e λ b e.
            then_text (codes ",\"complex\":") b _ e λ b e.
              then_text (if f.complex then codes "true" else codes "false") b _ e λ b e.
                then_text (codes ",\"encoding\":") b _ e λ b e. then_escaped f.encoding b _ e λ b e.
                  then_text (codes ",\"compression\":") b _ e
                    λ b e. then_escaped f.compression b _ e λ b e. field_end f b e

more_fields :
    (fs : List FieldMeta) {t : Bytes} (b : Content)
    → Has b t
    → Holds t (more_fields_text t fs) (append_more_fields b fs)
unfolding append_more_fields more_fields_text
more_fields [] b e = stays b e
more_fields (f ∷ fs) b e =
    then_text (codes ",") b _ e λ b e. Holds-bind (field f b e) λ b e. more_fields fs b e

fields :
    {t : Bytes} (fs : List FieldMeta) (b : Content)
    → Has b t
    → Holds t (fields_text t fs) (append_fields b fs)
unfolding append_fields fields_text
fields [] b e = stays b e
fields (f ∷ fs) b e = Holds-bind (field f b e) λ b e. more_fields fs b e

front : (fs : List FieldMeta) → Holds [] (front_text fs) (header_front fs)
unfolding header_front front_text
front fs = then_text (codes "{") empty_content _ starts λ b e.
    then_text (codes "\"format\":\"GBF\"") b _ e λ b e.
      then_text (codes ",\"magic\":\"GREDBIN\"") b _ e λ b e.
        then_text (codes ",\"version\":1") b _ e λ b e.
          then_text (codes ",\"endianness\":\"little\"") b _ e λ b e.
            then_text (codes ",\"order\":\"column-major\"") b _ e λ b e.
              then_text (codes ",\"root\":\"struct\"") b _ e λ b e.
                then_text (codes ",\"fields\":[") b _ e λ b e.
                  Holds-bind (fields fs b e)
                    λ b e. then_text (codes "]") b _ e λ b e. text (codes ",\"payload_start\":") b e

back :
    {t : Bytes} (file_size : ℕ) (crc : Bytes) (b : Content)
    → Has b t
    → Holds t (back_text t file_size crc) (header_back b file_size crc)
unfolding header_back back_text
back fs crc b e = then_text (codes ",\"file_size\":") b _ e λ b e. then_printed fs b _ e λ b e.
    then_text (codes ",\"header_crc32_hex\":") b _ e
      λ b e. then_escaped crc b _ e λ b e. text (codes "}") b e

-- The text, or undefined behaviour of which its NUL tells the reason.
pub data Built (t : Bytes) : Result Error Bytes → Type 0 where
  built : Built t (ok t)
  burst : Bursts (t ++ 0 ∷ []) → Built t (err undefined)

with_nul :
    {t : Bytes} (b : Content) (s : Result Error Content)
    → b.text ≡ t
    → Holds t (t ++ 0 ∷ []) s
    → Built t (s >>= λ z. ok b.text)
with_nul b _ e (overran p e' h) = burst h
with_nul b _ e (holds p e' h) = rw e built

-- The text of the last buffer, behind its NUL.
finish :
    {t : Bytes} (r : Result Error Content)
    → Holds [] t r
    → Built t (r >>= λ b. append_text b (0 ∷ []) >>= λ z. ok b.text)
finish {t} _ (overran p e h) = burst (Bursts-append t (0 ∷ []) h)
finish _ (holds {b} p e h) = with_nul b _ h.text_is (text (0 ∷ []) b h)

-- build_header_json returns the text of the header; or one of its appends leaves its block, for a
-- reason.
pub build_header_json-Built :
    (fields : List FieldMeta) (payload_start file_size : ℕ) (crc_hex : Bytes)
    → Built
        (header_text fields payload_start file_size crc_hex)
        (build_header_json fields payload_start file_size crc_hex)
unfolding build_header_json header_text
build_header_json-Built fs ps size crc =
    finish _ (Holds-bind (front fs) λ b e. then_printed ps b _ e λ b e. back size crc b e)

pub Built-ok : {t : Bytes} {r : Result Error Bytes} → Built t r → FitsBlocks t → r ≡ ok t
Built-ok built h = refl
Built-ok {t} (burst b) h = absurd (FitsBlocks-not_Bursts t h b)
