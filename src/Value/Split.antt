-- ===== src/Value/Split.antt =====
-- split_path of C/src/gbf.c cuts a path at its dots.
use gbin.Prelude.{
  ◌≡◌, refl, sym, ap, ◌∙◌, arith, Bytes, List, [], ◌∷◌, ◌++◌, append_assoc, append-nil, Bool, true,
  false, inl, inr, Bool-cases, All, ◌==◌, ==→eq,
}
use gbin.Value.Path.{split_loop, split_path}

-- The parts with a dot between any two.
abbrev pub join_dots : List Bytes → Bytes
join_dots [] = []
join_dots (p ∷ []) = p
join_dots (p ∷ next ∷ ps) = p ++ b'.' ∷ join_dots (next ∷ ps)

abbrev pub NoDot : Bytes → Type 0
NoDot p = All (λ c. (c == b'.') ≡ false) p

pub split_loop_cons :
    (part s : Bytes) → (p : Bytes) × (ps : List Bytes) × (split_loop part s ≡ p ∷ ps)
unfolding split_loop
split_loop_cons part [] = (part, [], refl)
split_loop_cons part (c ∷ s) = elim (Bool-cases (c == b'.')) [
  | inl dot ↦ (part, split_loop [] s, rw (dot, split_loop))
  | inr other ↦
      let (p, ps, e) = split_loop_cons (part ++ c ∷ []) s in (p, ps, rw (other, split_loop) e)
]

join_dots-cons :
    (part s : Bytes) (p : Bytes)
    → join_dots (p ∷ split_loop part s) ≡ p ++ b'.' ∷ join_dots (split_loop part s)
join_dots-cons part s p = let (x, xs, e) = split_loop_cons part s in rw e

join_dots-split_loop : (part s : Bytes) → join_dots (split_loop part s) ≡ part ++ s
unfolding split_loop
join_dots-split_loop part [] = sym (append-nil part)
join_dots-split_loop part (c ∷ s) = elim (Bool-cases (c == b'.')) [
  | inl dot ↦
      rw (dot, split_loop)
        (join_dots-cons [] s part ∙ rw (join_dots-split_loop [] s, ==→eq c b'.' dot))
  | inr other ↦
      rw (other, split_loop)
        (join_dots-split_loop (part ++ c ∷ []) s ∙ append_assoc part (c ∷ []) s)
]

All-append_one :
    (part : Bytes) (c : gbin.Prelude.ℕ) → NoDot part → (c == b'.') ≡ false → NoDot (part ++ c ∷ [])
All-append_one [] c h e = (e, tt)
All-append_one (b ∷ part) c h e = (h.0, All-append_one part c h.1 e)

split_loop-NoDot : (part s : Bytes) → NoDot part → All NoDot (split_loop part s)
unfolding split_loop
split_loop-NoDot part [] h = (h, tt)
split_loop-NoDot part (c ∷ s) h = elim (Bool-cases (c == b'.')) [
  | inl dot ↦ rw (dot, split_loop) (h, split_loop-NoDot [] s tt)
  | inr other ↦
      rw (other, split_loop) (split_loop-NoDot (part ++ c ∷ []) s (All-append_one part c h other))
]

-- The parts of a path hold no dot, and joined by dots they are the path.
pub split_path_lem :
    (path : Bytes) → (join_dots (split_path path) ≡ path) × All NoDot (split_path path)
unfolding split_path
split_path_lem path = (join_dots-split_loop [] path, split_loop-NoDot [] path tt)
