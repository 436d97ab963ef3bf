-- ===== src/Strbuf/Overrun.antt =====
-- gbf_sb_append_fmt reserves no room for the NUL that its second vsnprintf writes.
use gbin.Prelude.{
  ℕ, ◌+◌, ◌^◌, ◌≤◌, ◌<◌, ◌≡◌, arith, Bytes, length, length-append, le→leb, leb, [], ◌∷◌, ◌++◌,
  false, true, none,
}
use gbin.Word.{add64}
use gbin.Strbuf.{StrBuf, Heap, returns, overrun, reserve, write_at, append_fmt}
use gbin.Strbuf.Append.{IsValid}

lt→leb : (a b : ℕ) → b < a → leb a b ≡ false
lt→leb a b h = ground arith

write_at_past : (b p : Bytes) (i : ℕ) → length b < i + length p → write_at b i p ≡ none
unfolding write_at
write_at_past b p i h = rw (lt→leb _ _ h)

reserve_full :
    (h : Heap) (sb : StrBuf) (extra : ℕ)
    → add64 sb.len extra ≡ sb.cap
    → reserve h sb extra ≡ returns true sb
unfolding reserve
reserve_full h sb extra e = rw (e, le→leb sb.cap sb.cap (omega arith))

-- On a valid buffer whose free room is exactly the length of the text, and whose capacity is at most
-- 2^63, gbf_sb_append_fmt writes past the block.
pub append_fmt_overruns :
    (h : Heap) (sb : StrBuf) (text : Bytes)
    → IsValid sb
    → sb.cap ≤ 2 ^ 63
    → sb.len + length text ≡ sb.cap
    → append_fmt h sb text ≡ overrun
unfolding append_fmt
append_fmt_overruns h sb text v small full =
    let past : length sb.block < sb.len + length (text ++ 0 ∷ []) =
      omega (arith, v.block_size, length-append text (0 ∷ [])) in
    rw (reserve_full h sb (length text) (omega arith), write_at_past _ _ _ past)
