-- ===== src/Strbuf/Append.antt =====
-- A valid buffer's appends add their bytes, or leave the buffer alone where realloc fails.
use gbin.Prelude.{
  ℕ, zero, suc, ◌+◌, ◌-◌, ◌^◌, ◌≤◌, ◌<◌, ◌≡◌, refl, arith, ◌⊎◌, inl, inr, true, false, [], ◌∷◌,
  ◌++◌, some, Bytes, length, take, drop, append_assoc, length-append, length-take, take-append_eq,
  Bool-cases, leb, leb→le, le→leb, ◌==◌, if◌then◌else◌, ◌∙◌, sym, length-drop, append-nil, ne→==,
}
use gbin.Word.{add64}
use gbin.Strbuf.{
  StrBuf, Heap, Run, returns, grow, grow_fuel, fill, realloc_block, resize, reserve, and_then,
  write_at, put_back, append_byte, append_mem, init,
}
use gbin.Strbuf.Growth.{grow_fuel_suffices}

-- The bytes that were appended.
abbrev pub content : StrBuf → Bytes
content sb = take sb.len sb.block

pub record IsValid (sb : StrBuf) : Type 0 where
  pub block_size : length sb.block ≡ sb.cap
  pub within : sb.len ≤ sb.cap
  pub cap_size : (sb.cap ≡ 0) ⊎ (64 ≤ sb.cap)

length-fill : (fresh : ℕ → ℕ) (n : ℕ) → length (fill fresh n) ≡ n
length-fill fresh zero = refl
length-fill fresh (suc n) = omega (arith, length-fill fresh n)

take-take-append :
    (n m : ℕ) (b c : Bytes) → n ≤ m → n ≤ length b → take n (take m b ++ c) ≡ take n b
take-take-append zero m b c h k = refl
take-take-append (suc n) zero b c h k = absurd (omega arith)
take-take-append (suc n) (suc m) [] c h k = absurd (omega arith)
take-take-append (suc n) (suc m) (x ∷ b) c h k =
    rw (take-take-append n m b c (omega arith) (omega arith))

length-realloc_block :
    (h : Heap) (b : Bytes) (n : ℕ) → length b ≤ n → length (realloc_block h b n) ≡ n
unfolding realloc_block
length-realloc_block h b n le = omega (
  arith,
  length-append (take n b) (fill h.fresh (n - length b)),
  length-take n b,
  length-fill h.fresh (n - length b),
)

-- The heap does not grant every size.
abbrev pub Refuses : Heap → Type 0
Refuses h = (c : ℕ) × (h.alloc c ≡ false)

-- What reserve promises of its outcome: the same content, with room for the extra bytes.
abbrev Reserved : Heap → StrBuf → ℕ → Run → Type 0
Reserved h sb extra r =
    ((r ≡ returns false sb) × Refuses h)
    ⊎ ((sb' : StrBuf) × (r ≡ returns true sb')
        × IsValid sb'
        × (content sb' ≡ content sb)
        × (sb'.len ≡ sb.len)
        × (sb.len + extra ≤ sb'.cap))

resize-Reserved :
    (h : Heap) (sb : StrBuf) (extra c : ℕ)
    → IsValid sb
    → sb.cap ≤ c
    → 64 ≤ c
    → sb.len + extra ≤ c
    → Reserved h sb extra (resize h sb c)
unfolding resize
resize-Reserved h sb extra c v keep least room = elim (Bool-cases (h.alloc c)) [
  | inl done ↦
      let sb' : StrBuf = record { block = realloc_block h sb.block c; len = sb.len; cap = c } in
      inr (
        sb',
        rw done,
        record {
          block_size = length-realloc_block h sb.block c (omega (arith, v.block_size));
          within = omega arith;
          cap_size = inr least;
        },
        (unfold realloc_block in
            take-take-append sb.len c sb.block _ (omega arith) (omega (arith, v.block_size))),
        refl,
        room,
      )
  | inr fails ↦ inl (rw fails, (c, fails))
]

reserve_room :
    (h : Heap) (sb : StrBuf) (extra : ℕ)
    → add64 sb.len extra ≤ sb.cap
    → reserve h sb extra ≡ returns true sb
unfolding reserve
reserve_room h sb extra room = rw (le→leb _ _ room)

start_cap : StrBuf → ℕ
start_cap sb = if sb.cap == 0 then 64 else sb.cap

reserve_grows :
    (h : Heap) (sb : StrBuf) (extra need : ℕ) {c : ℕ}
    → add64 sb.len extra ≡ need
    → leb need sb.cap ≡ false
    → grow grow_fuel (start_cap sb) need ≡ some c
    → reserve h sb extra ≡ resize h sb c
unfolding reserve start_cap
reserve_grows h sb extra need e more g = rw (e, more, g)

start_cap_least : (sb : StrBuf) → IsValid sb → (64 ≤ start_cap sb) × (sb.cap ≤ start_cap sb)
unfolding start_cap
start_cap_least sb v = ground arith

pub reserve-Reserved :
    (h : Heap) (sb : StrBuf) (extra : ℕ)
    → IsValid sb
    → sb.len + extra ≤ 2 ^ 63
    → Reserved h sb extra (reserve h sb extra)
reserve-Reserved h sb extra v small =
    let exact : add64 sb.len extra ≡ sb.len + extra = omega arith in
    elim (Bool-cases (leb (sb.len + extra) sb.cap)) [
      | inl room ↦
          inr (
            sb,
            reserve_room h sb extra (rw exact (leb→le _ _ room)),
            v,
            refl,
            refl,
            leb→le _ _ room,
          )
      | inr more ↦
          let (least, keep) = start_cap_least sb v in
          let (c, g, reach, above, _) =
            grow_fuel_suffices (start_cap sb) (sb.len + extra) least small in
          let past : sb.cap < sb.len + extra = ground arith in
          rw (reserve_grows h sb extra (sb.len + extra) exact more g)
            (resize-Reserved h sb extra c v (omega arith) (omega arith) reach)
    ]

-- What an append of `p` promises: the bytes stand behind the old content, or realloc refused a size
-- and the buffer is as it was.
abbrev pub Appended : Heap → StrBuf → Bytes → Run → Type 0
Appended h sb p r =
    ((r ≡ returns false sb) × Refuses h)
    ⊎ ((sb' : StrBuf) × (r ≡ returns true sb') × IsValid sb' × (content sb' ≡ content sb ++ p))

length-overwrite :
    (b p : Bytes) (i : ℕ)
    → i + length p ≤ length b
    → length (take i b ++ (p ++ drop (i + length p) b)) ≡ length b
length-overwrite b p i h = omega (
  arith,
  length-append (take i b) (p ++ drop (i + length p) b),
  length-append p (drop (i + length p) b),
  length-take i b,
  length-drop (i + length p) b,
)

take-overwrite :
    (b p : Bytes) (i : ℕ)
    → i + length p ≤ length b
    → take (i + length p) (take i b ++ (p ++ drop (i + length p) b)) ≡ take i b ++ p
take-overwrite b p i h = rw (← append_assoc) (
    take-append_eq (i + length p) (take i b ++ p) _
      (omega (arith, length-append (take i b) p, length-take i b)))

pub write_at_fits :
    (b p : Bytes) (i : ℕ)
    → i + length p ≤ length b
    → write_at b i p ≡ some (take i b ++ (p ++ drop (i + length p) b))
unfolding write_at
write_at_fits b p i h = rw (le→leb _ _ h)

pub put_back-Appended :
    (sb : StrBuf) (p : Bytes)
    → IsValid sb
    → sb.len + length p ≤ sb.cap
    → sb.len + length p ≤ 2 ^ 63
    → (sb' : StrBuf) × (put_back sb p (length p) ≡ returns true sb')
      × IsValid sb'
      × (content sb' ≡ content sb ++ p)
put_back-Appended sb p v room small =
    let exact : add64 sb.len (length p) ≡ sb.len + length p = omega arith in
    let fits : sb.len + length p ≤ length sb.block = omega (arith, v.block_size) in
    (
      record {
        block = take sb.len sb.block ++ (p ++ drop (sb.len + length p) sb.block);
        len = sb.len + length p;
        cap = sb.cap;
      },
      rw (write_at_fits sb.block p sb.len fits, exact),
      record {
        block_size = length-overwrite sb.block p sb.len fits ∙ v.block_size;
        within = room;
        cap_size = v.cap_size;
      },
      take-overwrite sb.block p sb.len fits,
    )

-- What follows a reserve for `p` appends it.
after_reserve :
    (h : Heap) (sb : StrBuf) (p : Bytes) (r : Run)
    → sb.len + length p ≤ 2 ^ 63
    → Reserved h sb (length p) r
    → Appended h sb p (and_then r (λ sb'. put_back sb' p (length p)))
after_reserve h sb p r small (inl (fails, refuses)) = inl (rw fails, refuses)
after_reserve h sb p r small (inr (sb', e, v, same, len, room)) =
    let (sb'', e', v', c) = put_back-Appended sb' p v (omega arith) (omega arith) in
    inr (sb'', rw e e', v', rw (← same) c)

-- On a valid buffer whose length with the new bytes is at most 2^63, gbf_sb_append_mem appends the
-- bytes and leaves a valid buffer, or it returns 0 with the buffer unchanged and the heap refuses
-- some size. It never writes past the block, and its loop ends.
pub append_mem-Appended :
    (h : Heap) (sb : StrBuf) (p : Bytes)
    → IsValid sb
    → sb.len + length p ≤ 2 ^ 63
    → Appended h sb p (append_mem h sb p)
unfolding append_mem
append_mem-Appended h sb [] v small = inr (sb, refl, v, sym (append-nil (content sb)))
append_mem-Appended h sb (b ∷ p) v small =
    rw (ne→== (length (b ∷ p)) 0 (omega arith))
      (after_reserve h sb (b ∷ p) _ small (reserve-Reserved h sb (length (b ∷ p)) v small))

pub append_byte-Appended :
    (h : Heap) (sb : StrBuf) (c : ℕ)
    → IsValid sb
    → sb.len + 1 ≤ 2 ^ 63
    → Appended h sb (c ∷ []) (append_byte h sb c)
unfolding append_byte
append_byte-Appended h sb c v small =
    after_reserve h sb (c ∷ []) _ small (reserve-Reserved h sb 1 v small)

pub init-IsValid : IsValid init
unfolding init
init-IsValid = record { block_size = refl; within = omega arith; cap_size = inl refl }
