-- ===== src/Fetch/Gaps.antt =====
-- `missing_ranges` (api/src/tabayyun/services/coverage.py) against its description: the instants of
-- the window that no cached range holds, as separate ranges in order.
use tabayyun.Prelude.{
  ℕ, suc, ◌≡◌, refl, ◌≤◌, ◌<◌, true, false, ◌&&◌, ◌||◌, not, List, [], ◌∷◌, ◌++◌, ltb, leb, max,
  arith, select, any, sort_by, insert_by, All, All-weaken, All-sort_by, All-select, Bool-cases, inl,
  inr, any-append,
}
use tabayyun.Fetch.Coverage.{Range, holds, is_filled, range_before, gap_to, fill, missing_ranges}

-- Each range starts at or after every one before it.
abbrev pub Ascending : List Range → Type 0
Ascending [] = Unit
Ascending (r ∷ rs) = All (λ q. r.0 ≤ q.0) rs × Ascending rs

All-insert_range :
    (n : ℕ) (r : Range) (rs : List Range)
    → n ≤ r.0
    → All (λ q. n ≤ q.0) rs
    → All (λ q. n ≤ q.0) (insert_by range_before r rs)
unfolding insert_by
All-insert_range n r [] h hs = (h, tt)
All-insert_range n r (q ∷ rs) h hs = elim (Bool-cases (range_before q r)) [
  | inl e ↦ rw e (hs.0, All-insert_range n r rs h hs.1)
  | inr e ↦ rw e (h, hs)
]

insert_by-Ascending :
    (r : Range) (rs : List Range) → Ascending rs → Ascending (insert_by range_before r rs)
unfolding insert_by
insert_by-Ascending r [] h = (tt, tt)
insert_by-Ascending r (q ∷ rs) h = elim (Bool-cases (range_before q r)) [
  | inl e ↦ rw e (All-insert_range q.0 r rs (ground arith) h.0, insert_by-Ascending r rs h.1)
  | inr e ↦
      rw e (
        (ground arith, All-weaken (λ p. q.0 ≤ p.0) (λ p. r.0 ≤ p.0) (λ p k. ground arith) rs h.0),
        h,
      )
]

pub sort_by-Ascending : (rs : List Range) → Ascending (sort_by range_before rs)
unfolding sort_by
sort_by-Ascending [] = tt
sort_by-Ascending (r ∷ rs) = insert_by-Ascending r (sort_by range_before rs) (sort_by-Ascending rs)

-- Ranges that start at or after `end_ns` hold nothing before it.
none_before : (t n : ℕ) (rs : List Range) → t < n → All (λ q. n ≤ q.0) rs → any (holds t) rs ≡ false
unfolding any
none_before t n [] h hs = refl
none_before t n (q ∷ rs) h hs = ground (arith, none_before t n rs h hs.1, hs.0)

module _ (t end_ns : ℕ) where
  any-gap_to : (a b : ℕ) → any (holds t) (gap_to a b) ≡ (leb a t && ltb t b)
  unfolding any gap_to
  any-gap_to a b = ground arith

  -- The gaps from the cursor on hold the instants from the cursor on that the ranges do not.
  any-fill :
      (rs : List Range) (cursor : ℕ)
      → cursor < end_ns
      → Ascending rs
      → any (holds t) (fill end_ns rs cursor)
        ≡ (leb cursor t && ltb t end_ns && not (any (holds t) rs))
  unfolding any fill
  any-fill [] cursor c h = ground (arith, any-gap_to cursor end_ns)
  any-fill ((lo, hi) ∷ rs) cursor c h =
      let m = max cursor hi in
      elim (Bool-cases (leb hi cursor)) [
        | inl skip ↦ rw skip (ground (arith, any-fill rs cursor c h.1))
        | inr on ↦ elim (Bool-cases (leb end_ns lo)) [
          | inl beyond ↦
              let after =
                All-weaken (λ q. lo ≤ q.0) (λ q. end_ns ≤ q.0) (λ q k. ground arith) rs h.0 in
              rw (on, beyond)
                (ground (arith, none_before t end_ns rs, any-gap_to cursor end_ns, after))
          | inr within ↦ elim (Bool-cases (leb end_ns m)) [
            | inl full ↦
                rw (on, within, full)
                  (ground (
                    arith,
                    any-append (holds t) (gap_to cursor lo) [],
                    any-gap_to cursor lo,
                    none_before t lo rs,
                    h.0,
                  ))
            | inr more ↦
                rw (on, within, more)
                  (ground (
                    arith,
                    any-append (holds t) (gap_to cursor lo) (fill end_ns rs m),
                    any-gap_to cursor lo,
                    any-fill rs m (ground arith) h.1,
                    none_before t lo rs,
                    h.0,
                  ))
          ]
        ]
      ]

any-insert_by_range :
    (t : ℕ) (r : Range) (rs : List Range)
    → any (holds t) (insert_by range_before r rs) ≡ (holds t r || any (holds t) rs)
unfolding any insert_by
any-insert_by_range t r [] = ground arith
any-insert_by_range t r (q ∷ rs) = ground (arith, any-insert_by_range t r rs)

-- Neither the order nor an empty range matters to what the ranges hold.
any-prepared :
    (t : ℕ) (rs : List Range)
    → any (holds t) (sort_by range_before (select is_filled rs)) ≡ any (holds t) rs
unfolding any sort_by select
any-prepared t [] = refl
any-prepared t (r ∷ rs) = elim (Bool-cases (is_filled r)) [
  | inl e ↦ rw e (
      ground (
        arith,
        any-prepared t rs,
        any-insert_by_range t r (sort_by range_before (select is_filled rs)),
      ))
  | inr e ↦ rw e (ground (arith, any-prepared t rs))
]

-- The gaps of a window hold exactly its instants that no cached range holds, whatever the order of
-- the ranges and however they overlap.
pub missing_ranges-holds :
    (covered : List Range) (start_ns end_ns t : ℕ)
    → any (holds t) (missing_ranges covered start_ns end_ns)
      ≡ (holds t (start_ns, end_ns) && not (any (holds t) covered))
unfolding missing_ranges any
missing_ranges-holds covered start_ns end_ns t =
    let ready = sort_by range_before (select is_filled covered) in
    elim (Bool-cases (leb end_ns start_ns)) [
      | inl e ↦ rw e (ground arith)
      | inr e ↦ rw e (
          ground (
            arith,
            any-prepared t covered,
            any-fill t end_ns ready start_ns (ground arith)
                (sort_by-Ascending (select is_filled covered)),
          ))
    ]

-- Filled ranges between two instants, in order, with something between each and the next.
abbrev pub Apart : ℕ → ℕ → List Range → Type 0
Apart from end_ns [] = Unit
Apart from end_ns ((lo, hi) ∷ rs) =
    (from ≤ lo) × (lo < hi) × (hi ≤ end_ns) × Apart (suc hi) end_ns rs

Apart-weaken : (a b end_ns : ℕ) (rs : List Range) → b ≤ a → Apart a end_ns rs → Apart b end_ns rs
Apart-weaken a b end_ns [] h k = tt
Apart-weaken a b end_ns ((lo, hi) ∷ rs) h k = (omega (arith, h, k.0), k.1, k.2, k.3)

Apart-gap_to :
    (lo hi from end_ns : ℕ) (rs : List Range)
    → lo ≤ from
    → hi < from
    → hi ≤ end_ns
    → Apart from end_ns rs
    → Apart lo end_ns (gap_to lo hi ++ rs)
unfolding gap_to
Apart-gap_to lo hi from end_ns rs h k m a = elim (Bool-cases (ltb lo hi)) [
  | inl e ↦
      rw e (omega arith, ground arith, m, Apart-weaken from (suc hi) end_ns rs (omega (arith, k)) a)
  | inr e ↦ rw e (Apart-weaken from lo end_ns rs h a)
]

Apart-last : (lo end_ns : ℕ) → Apart lo end_ns (gap_to lo end_ns)
unfolding gap_to
Apart-last lo end_ns = elim (Bool-cases (ltb lo end_ns)) [
  | inl e ↦ rw e (omega arith, ground arith, omega arith, tt)
  | inr e ↦ rw e tt
]

fill-Apart :
    (end_ns : ℕ) (rs : List Range) (cursor : ℕ)
    → All (λ r. is_filled r ≡ true) rs
    → Apart cursor end_ns (fill end_ns rs cursor)
unfolding fill
fill-Apart end_ns [] cursor h = Apart-last cursor end_ns
fill-Apart end_ns ((lo, hi) ∷ rs) cursor h =
    let m = max cursor hi in
    let filled = h.0 in
    elim (Bool-cases (leb hi cursor)) [
      | inl skip ↦ rw skip (fill-Apart end_ns rs cursor h.1)
      | inr on ↦ elim (Bool-cases (leb end_ns lo)) [
        | inl beyond ↦ rw (on, beyond) (Apart-last cursor end_ns)
        | inr within ↦ elim (Bool-cases (leb end_ns m)) [
          | inl full ↦
              rw (on, within, full)
                (Apart-gap_to cursor lo m end_ns [] (omega arith) (ground arith) (ground arith) tt)
          | inr more ↦
              rw (on, within, more)
                (Apart-gap_to cursor lo m end_ns (fill end_ns rs m) (omega arith) (ground arith)
                  (ground arith) (fill-Apart end_ns rs m h.1))
        ]
      ]
    ]

-- The gaps of a window lie in it in order, none is empty, and none touches the next.
pub missing_ranges-Apart :
    (covered : List Range) (start_ns end_ns : ℕ)
    → Apart start_ns end_ns (missing_ranges covered start_ns end_ns)
unfolding missing_ranges
missing_ranges-Apart covered start_ns end_ns = elim (Bool-cases (leb end_ns start_ns)) [
  | inl e ↦ rw e tt
  | inr e ↦ rw e (
      fill-Apart end_ns (sort_by range_before (select is_filled covered)) start_ns (
        All-sort_by range_before (λ r. is_filled r ≡ true) (select is_filled covered)
          (All-select is_filled covered)))
]
