-- ===== src/Rows.antt =====
-- Rows of a table by where they stand: what an object of the ORM refers to.
use Prim.Native.Nat.{◌+◌}
use mathlib.Core.Option
use tabayyun.Prelude.{
  sym, subst, Bool-cases, Option-cases, inl, inr, if◌then◌else◌, count, first, first-All,
  first_holds, count_zero_of_any, is_some-first, is_some, ℕ, zero, suc, ◌≡◌, refl, Bool, true,
  false, Option, none, some, List, [], ◌∷◌, ◌++◌, arith, any, select, All, length, any-append,
  some-injective, ap, ◌∙◌, map, length-append,
}

pub select-append_none :
    {A : Type 0} (q : A → Bool) (xs : List A) (y : A)
    → q y ≡ false
    → select q (xs ++ y ∷ []) ≡ select q xs
unfolding select
select-append_none q [] y h = rw h refl
select-append_none q (x ∷ xs) y h = rw (select-append_none q xs y h) refl

module _ {A : Type 0} where
  abbrev next_place : ℕ × A → ℕ × A
  next_place (n, x) = (suc n, x)

  -- Each row with its place.
  unfoldable pub placed : List A → List (ℕ × A)
  placed [] = []
  placed (x ∷ xs) = (0, x) ∷ map next_place (placed xs)

  unfoldable pub update_at : ℕ → A → List A → List A
  update_at n y [] = []
  update_at zero y (x ∷ xs) = y ∷ xs
  update_at (suc n) y (x ∷ xs) = x ∷ update_at n y xs

  unfoldable pub remove_at : ℕ → List A → List A
  remove_at n [] = []
  remove_at zero (x ∷ xs) = xs
  remove_at (suc n) (x ∷ xs) = x ∷ remove_at n xs

  unfoldable pub row_at : ℕ → List A → Option A
  row_at n [] = none
  row_at zero (x ∷ xs) = some x
  row_at (suc n) (x ∷ xs) = row_at n xs

  All-map_next :
      (P : ℕ × A → Type 0) (ps : List (ℕ × A))
      → All (λ p. P (next_place p)) ps
      → All P (map next_place ps)
  All-map_next P [] h = tt
  All-map_next P (p ∷ ps) h = (h.0, All-map_next P ps h.1)

  pub placed-row_at : (xs : List A) → All (λ p. row_at p.0 xs ≡ some p.1) (placed xs)
  unfolding placed row_at
  placed-row_at [] = tt
  placed-row_at (x ∷ xs) =
      (refl, All-map_next (λ p. row_at p.0 (x ∷ xs) ≡ some p.1) (placed xs) (placed-row_at xs))

  any-map_next :
      (q : A → Bool) (ps : List (ℕ × A))
      → any (λ p. q p.1) (map next_place ps) ≡ any (λ p. q p.1) ps
  unfolding any
  any-map_next q [] = refl
  any-map_next q (p ∷ ps) = ground (arith, any-map_next q ps)

  pub any-placed : (q : A → Bool) (xs : List A) → any (λ p. q p.1) (placed xs) ≡ any q xs
  unfolding placed any
  any-placed q [] = refl
  any-placed q (x ∷ xs) = ground (arith, any-map_next q (placed xs), any-placed q xs)

  module _ (q : A → Bool) (y : A) where
    -- A row that is replaced by one with a property takes the property from no table.
    pub any-update_at :
        (n : ℕ) (xs : List A) (x : A)
        → row_at n xs ≡ some x
        → (q x ≡ true → q y ≡ true)
        → any q xs ≡ true
        → any q (update_at n y xs) ≡ true
    unfolding row_at update_at any
    any-update_at n [] x e h k = k
    any-update_at zero (z ∷ xs) x e h k =
        let same = some-injective z x e in ground (arith, h, ap q same, k)
    any-update_at (suc n) (z ∷ xs) x e h k = ground (arith, any-update_at n xs x e h, k)

    pub any-remove_at :
        (n : ℕ) (xs : List A) (x : A)
        → row_at n xs ≡ some x
        → (q x ≡ true → q y ≡ true)
        → any q xs ≡ true
        → any q (remove_at n xs ++ y ∷ []) ≡ true
    unfolding row_at remove_at any
    any-remove_at n [] x e h k = absurd (cc)
    any-remove_at zero (z ∷ xs) x e h k =
        let same = some-injective z x e in ground (arith, h, ap q same, k, any-append q xs (y ∷ []))
    any-remove_at (suc n) (z ∷ xs) x e h k = ground (arith, any-remove_at n xs x e h, k)

    -- Where neither the row nor its replacement has the property, the rows with it stay as they are.
    pub select-update_at :
        (n : ℕ) (xs : List A) (x : A)
        → row_at n xs ≡ some x
        → q x ≡ false
        → q y ≡ false
        → select q (update_at n y xs) ≡ select q xs
    unfolding row_at update_at select
    select-update_at n [] x e h k = refl
    select-update_at zero (z ∷ xs) x e h k =
        let same = some-injective z x e in rw (k, ap q same ∙ h) refl
    select-update_at (suc n) (z ∷ xs) x e h k = rw (select-update_at n xs x e h k) refl

    pub select-remove_at :
        (n : ℕ) (xs : List A) (x : A)
        → row_at n xs ≡ some x
        → q x ≡ false
        → q y ≡ false
        → select q (remove_at n xs ++ y ∷ []) ≡ select q xs
    unfolding row_at remove_at select
    select-remove_at n [] x e h k = absurd (cc)
    select-remove_at zero (z ∷ xs) x e h k =
        let same = some-injective z x e in rw (ap q same ∙ h) (select-append_none q xs y k)
    select-remove_at (suc n) (z ∷ xs) x e h k = rw (select-remove_at n xs x e h k) refl

  pub length-update_at : (n : ℕ) (y : A) (xs : List A) → length (update_at n y xs) ≡ length xs
  unfolding update_at
  length-update_at n y [] = refl
  length-update_at zero y (x ∷ xs) = refl
  length-update_at (suc n) y (x ∷ xs) = ground (arith, length-update_at n y xs)

  pub length-remove_at :
      (n : ℕ) (y : A) (xs : List A) (x : A)
      → row_at n xs ≡ some x
      → length (remove_at n xs ++ y ∷ []) ≡ length xs
  unfolding row_at remove_at
  length-remove_at n y [] x e = absurd (cc)
  length-remove_at zero y (z ∷ xs) x e = ground (arith, length-append xs (y ∷ []))
  length-remove_at (suc n) y (z ∷ xs) x e = ground (arith, length-remove_at n y xs x e)

  pub count-update_at :
      (q : A → Bool) (y : A) (n : ℕ) (xs : List A) (x : A)
      → row_at n xs ≡ some x
      → count q (update_at n y xs) + (if q x then 1 else 0) ≡ count q xs + (if q y then 1 else 0)
  unfolding row_at update_at count
  count-update_at q y n [] x e = absurd (cc)
  count-update_at q y zero (z ∷ xs) x e =
      let same = some-injective z x e in ground (arith, ap q same)
  count-update_at q y (suc n) (z ∷ xs) x e = ground (arith, count-update_at q y n xs x e)

  -- The row that is found stands where it was found, and passes the test.
  pub first-placed :
      (q : A → Bool) (xs : List A) (n : ℕ) (x : A)
      → first (λ p. q p.1) (placed xs) ≡ some (n, x)
      → (row_at n xs ≡ some x) × (q x ≡ true)
  first-placed q xs n x e = (
    first-All (λ p. row_at p.0 xs ≡ some p.1) (λ p. q p.1) (placed xs) (n, x) (placed-row_at xs) e,
    first_holds (λ p. q p.1) (placed xs) (n, x) e,
  )

  pub first-placed-none :
      (q : A → Bool) (xs : List A) → first (λ p. q p.1) (placed xs) ≡ none → count q xs ≡ 0
  first-placed-none q xs e =
      count_zero_of_any q xs
        (sym (any-placed q xs) ∙ sym (is_some-first (λ p. q p.1) (placed xs)) ∙ ap is_some e)

  first-map_next :
      (q : A → Bool) (ps : List (ℕ × A))
      → first (λ p. q p.1) (map next_place ps) ≡ Option.map next_place (first (λ p. q p.1) ps)
  unfolding first
  first-map_next q [] = refl
  first-map_next q (p ∷ ps) = elim (Bool-cases (q p.1)) [
    | inl e ↦ rw e refl
    | inr e ↦ rw e (first-map_next q ps)
  ]

  -- The row that is found, replaced by one that passes the test too, is found at the same place.
  pub first-placed_update :
      (q : A → Bool) (y : A) (xs : List A) (n : ℕ) (x : A)
      → q y ≡ true
      → first (λ p. q p.1) (placed xs) ≡ some (n, x)
      → first (λ p. q p.1) (placed (update_at n y xs)) ≡ some (n, y)
  unfolding placed update_at first
  first-placed_update q y [] n x h e = absurd (cc)
  first-placed_update q y (z ∷ xs) n x h e = elim (Bool-cases (q z)) [
    | inl k ↦ let front : n ≡ 0 = cc (rw k at e) in rw front (rw h refl)
    | inr k ↦ elim (Option-cases (first (λ p. q p.1) (placed xs))) [
      | inl absent ↦ absurd (
          cc (
            sym (ap (Option.map next_place) absent)
            ∙ sym (first-map_next q (placed xs))
            ∙ (rw k at e)))
      | inr ((m, w), there) ↦
          let same : some (suc m, w) ≡ some (n, x) =
            sym (ap (Option.map next_place) there)
            ∙ sym (first-map_next q (placed xs))
            ∙ (rw k at e) in
          let place : suc m ≡ n = cc same in
          let rest = first-placed_update q y xs m w h there in
          subst (λ j. first (λ p. q p.1) (placed (update_at j y (z ∷ xs))) ≡ some (j, y)) place
            (rw k (first-map_next q (placed (update_at m y xs)) ∙ ap (Option.map next_place) rest))
    ]
  ]
