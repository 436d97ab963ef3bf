-- ===== src/Strbuf/Content.antt =====
-- A string buffer of C/src/gbf_util.c by the bytes it holds and its capacity, for the code that
-- fills one, where the allocation succeeds: what Strbuf models, without the rest of the block. The
-- functions return `err undefined` where the C writes past the block, or where the loop of
-- gbf_sb_reserve does not end.
pub mod Room
pub mod Held
pub mod Fits
use gbin.Prelude.{
  ◌>>=◌, ◌∷◌, ℕ, ◌+◌, Option, none, some, ◌++◌, [], Bytes, length, leb, ◌==◌, if◌then◌else◌, Result,
  ok, err,
}
use gbin.Error.{Error, undefined}
use gbin.Word.{add64}
use gbin.Strbuf.{grow, grow_fuel}

pub record Content : Type 0 where
  pub text : Bytes
  pub cap : ℕ

-- gbf_sb_init
abbrev pub empty_content : Content
empty_content = record { text = []; cap = 0 }

-- The capacity behind gbf_sb_reserve.
unfoldable pub cap_for : Content → ℕ → Option ℕ
cap_for b extra =
    let need = add64 (length b.text) extra in
    if leb need b.cap then some b.cap else grow grow_fuel (if b.cap == 0 then 64 else b.cap) need

-- Write `size` bytes, of which the first are `p`, into a block of that capacity, and add `p` to the
-- content.
unfoldable pub put_text : Content → Bytes → ℕ → Option ℕ → Result Error Content
put_text b p size none = err undefined
put_text b p size (some cap) =
    if leb (length b.text + size) cap
    then ok (record { text = b.text ++ p; cap = cap })
    else err undefined

-- gbf_sb_append_mem; also gbf_sb_append_str of a string without its NUL, and gbf_sb_append_byte.
unfoldable pub append_text : Content → Bytes → Result Error Content
unfolding cap_for put_text
append_text b p = if length p == 0 then ok b else put_text b p (length p) (cap_for b (length p))

-- gbf_sb_append_fmt of a format that prints `p`: the room is that of `p`, and vsnprintf writes `p`
-- and its NUL.
unfoldable pub append_printed : Content → Bytes → Result Error Content
unfolding cap_for put_text
append_printed b p = put_text b p (length p + 1) (cap_for b (length p))

-- A run of gbf_sb_append_byte.
unfoldable pub append_bytes : Content → Bytes → Result Error Content
unfolding append_text
append_bytes b [] = ok b
append_bytes b (c ∷ cs) = do b' ← append_text b (c ∷ []); append_bytes b' cs
