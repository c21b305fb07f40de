-- ===== src/Prelude/Tables.antt =====
-- Tables of rows, and what SQL's SELECT, UPDATE and DELETE with a WHERE clause do to them.
use Prim.Native.Nat.{ℕ, ◌+◌, ◌≤◌}
use mathlib.Core.Path.{◌≡◌, refl}
use mathlib.Core.Bool.{Bool, true, false, ◌&&◌}
use mathlib.Core.Option.{Option, none, some}
use mathlib.Core.List.{List, [], ◌∷◌, ◌++◌}
use native.Mathlib.Omega.{arith}
use tabayyun.Prelude.Tests.{if◌then◌else◌, is_some}
use tabayyun.Prelude.Lists.{any}

module _ {ℓ} {A : Type ℓ} where
  -- SELECT ... WHERE p
  unfoldable pub select : (A → Bool) → List A → List A
  select p [] = []
  select p (x ∷ xs) = let rest = select p xs in if p x then x ∷ rest else rest

  -- The first row of SELECT ... WHERE p
  unfoldable pub first : (A → Bool) → List A → Option A
  first p [] = none
  first p (x ∷ xs) = if p x then some x else first p xs

  -- UPDATE ... SET f WHERE p
  unfoldable pub update : (A → Bool) → (A → A) → List A → List A
  update p f [] = []
  update p f (x ∷ xs) = (if p x then f x else x) ∷ update p f xs

  -- DELETE ... WHERE p
  unfoldable pub delete : (A → Bool) → List A → List A
  delete p [] = []
  delete p (x ∷ xs) = let rest = delete p xs in if p x then rest else x ∷ rest

  -- SELECT count(*) WHERE p
  unfoldable pub count : (A → Bool) → List A → ℕ
  count p [] = 0
  count p (x ∷ xs) = (if p x then 1 else 0) + count p xs

-- The head of a join: the first row for which `f` finds its partner.
unfoldable pub find_map {ℓ κ} : {A : Type ℓ} {B : Type κ} → (A → Option B) → List A → Option B
find_map f [] = none
find_map f (x ∷ xs) = elim (f x) [ none ↦ find_map f xs | some b ↦ some b ]

module _ {ℓ} {A : Type ℓ} where
  pub is_some-first : (p : A → Bool) (xs : List A) → is_some (first p xs) ≡ any p xs
  unfolding first any
  is_some-first p [] = refl
  is_some-first p (x ∷ xs) = ground (arith, is_some-first p xs)

  pub first_holds : (p : A → Bool) (xs : List A) (x : A) → first p xs ≡ some x → p x ≡ true
  unfolding first
  first_holds p [] x h = cc
  first_holds p (y ∷ ys) x h = ground (arith, first_holds p ys x)

  pub first-none : (p : A → Bool) (xs : List A) → any p xs ≡ false → first p xs ≡ none
  unfolding first any
  first-none p [] h = refl
  first-none p (x ∷ xs) h = ground (arith, first-none p xs)

  pub any-delete_self : (p : A → Bool) (xs : List A) → any p (delete p xs) ≡ false
  unfolding any delete
  any-delete_self p [] = refl
  any-delete_self p (x ∷ xs) = ground (arith, any-delete_self p xs)

  pub any-false_of_imp :
      (p q : A → Bool)
      → ((x : A) → p x ≡ true → q x ≡ true)
      → (xs : List A) → any q xs ≡ false
      → any p xs ≡ false
  unfolding any
  any-false_of_imp p q imp [] h = refl
  any-false_of_imp p q imp (x ∷ xs) h = ground (arith, imp x, any-false_of_imp p q imp xs)

  -- A row that an update does not touch is what it was.
  pub first-update_other :
      (p q : A → Bool) (f : A → A)
      → ((x : A) → q x ≡ true → p x ≡ false)
      → ((x : A) → q x ≡ true → p (f x) ≡ false)
      → (xs : List A) → first p (update q f xs) ≡ first p xs
  unfolding first update
  first-update_other p q f h k [] = refl
  first-update_other p q f h k (x ∷ xs) = ground (arith, h x, k x, first-update_other p q f h k xs)

  pub first-delete_other :
      (p q : A → Bool)
      → ((x : A) → q x ≡ true → p x ≡ false)
      → (xs : List A) → first p (delete q xs) ≡ first p xs
  unfolding first delete
  first-delete_other p q h [] = refl
  first-delete_other p q h (x ∷ xs) = ground (arith, h x, first-delete_other p q h xs)

  -- An update loses at most the rows that it touches.
  pub count-update_le :
      (p q : A → Bool) (f : A → A) (xs : List A)
      → count p xs ≤ count p (update q f xs) + count (λ x. p x && q x) xs
  unfolding count update
  count-update_le p q f [] = omega arith
  count-update_le p q f (x ∷ xs) = ground (arith, count-update_le p q f xs)

  pub count-delete :
      (p q : A → Bool) (xs : List A)
      → count p xs ≡ count p (delete q xs) + count (λ x. p x && q x) xs
  unfolding count delete
  count-delete p q [] = omega arith
  count-delete p q (x ∷ xs) = ground (arith, count-delete p q xs)

  pub count-delete_le : (p q : A → Bool) (xs : List A) → count p (delete q xs) ≤ count p xs
  count-delete_le p q xs = omega (arith, count-delete p q xs)

  pub count_and_le : (p q : A → Bool) (xs : List A) → count (λ x. p x && q x) xs ≤ count q xs
  unfolding count
  count_and_le p q [] = omega arith
  count_and_le p q (x ∷ xs) = ground (arith, count_and_le p q xs)

  pub count_zero_of_any : (p : A → Bool) (xs : List A) → any p xs ≡ false → count p xs ≡ 0
  unfolding count any
  count_zero_of_any p [] h = refl
  count_zero_of_any p (x ∷ xs) h = ground (arith, count_zero_of_any p xs)

  pub count-and_zero :
      (p q : A → Bool) (xs : List A) → count q xs ≡ 0 → count (λ x. p x && q x) xs ≡ 0
  count-and_zero p q xs h = omega (arith, count_and_le p q xs)

  -- If a key names one row and that row fails `p`, no row of that key passes `p`.
  pub count_and_unique :
      (p q : A → Bool) (xs : List A) (x : A)
      → count q xs ≤ 1
      → first q xs ≡ some x
      → p x ≡ false
      → count (λ y. p y && q y) xs ≡ 0
  unfolding count first
  count_and_unique p q [] x u h e = refl
  count_and_unique p q (y ∷ ys) x u h e =
      ground (arith, count_and_unique p q ys x, count-and_zero p q ys)

  pub count-update_same :
      (p q : A → Bool) (f : A → A)
      → ((x : A) → p (f x) ≡ p x)
      → (xs : List A) → count p (update q f xs) ≡ count p xs
  unfolding count update
  count-update_same p q f h [] = refl
  count-update_same p q f h (x ∷ xs) = ground (arith, h x, count-update_same p q f h xs)

  -- An update that only makes rows pass `p` loses none.
  pub count-update_ge :
      (p q : A → Bool) (f : A → A)
      → ((x : A) → p x ≡ true → p (f x) ≡ true)
      → (xs : List A) → count p xs ≤ count p (update q f xs)
  unfolding count update
  count-update_ge p q f h [] = omega arith
  count-update_ge p q f h (x ∷ xs) = ground (arith, h x, count-update_ge p q f h xs)

  pub any-append_new :
      (p : A → Bool) (xs : List A) (x : A) → p x ≡ true → any p (xs ++ x ∷ []) ≡ true
  unfolding any
  any-append_new p [] x h = ground arith
  any-append_new p (y ∷ ys) x h = ground (arith, any-append_new p ys x)

  pub count_le_of_imp :
      (p q : A → Bool)
      → ((x : A) → p x ≡ true → q x ≡ true)
      → (xs : List A) → count p xs ≤ count q xs
  unfolding count
  count_le_of_imp p q imp [] = omega arith
  count_le_of_imp p q imp (x ∷ xs) = ground (arith, imp x, count_le_of_imp p q imp xs)

  any_of_count : (p : A → Bool) (xs : List A) → count p xs ≡ 0 → any p xs ≡ false
  unfolding count any
  any_of_count p [] h = refl
  any_of_count p (x ∷ xs) h = ground (arith, any_of_count p xs)

  any_and_false :
      (p q : A → Bool) (xs : List A) → any p xs ≡ false → any (λ x. p x && q x) xs ≡ false
  unfolding any
  any_and_false p q [] h = refl
  any_and_false p q (x ∷ xs) h = ground (arith, any_and_false p q xs)

  -- Where at most one row passes `p`, it decides what the rows that pass `p` say of `q`.
  pub any_and_first :
      (p q : A → Bool) (xs : List A)
      → count p xs ≤ 1
      → any (λ x. p x && q x) xs ≡ elim (first p xs) [ none ↦ false | some x ↦ q x ]
  unfolding count any first
  any_and_first p q [] h = refl
  any_and_first p q (x ∷ xs) h =
      ground (arith, any_and_first p q xs, any_of_count p xs, any_and_false p q xs)
