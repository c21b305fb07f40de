-- ===== src/Prelude/Found.antt =====
-- What the selections, updates and deletions of rows do to the rows that a test finds.
use mathlib.Core.Logic.{inl, inr}
use Prim.Native.Nat.{◌+◌}
use mathlib.Core.Path.{◌≡◌, refl, ap, subst}
use mathlib.Core.Bool.{Bool, true, false, ◌&&◌}
use mathlib.Core.Option.{none, some}
use mathlib.Core.List.{Mem, mem-cons_self, mem-cons_of_mem, List, [], ◌∷◌, ◌++◌}
use native.Mathlib.Omega.{arith}
use tabayyun.Prelude.Tests.{Bool-cases, if◌then◌else◌}
use tabayyun.Prelude.Lists.{any, All}
use tabayyun.Prelude.Tables.{select, first, update, delete, count}

module _ {ℓ} {A : Type ℓ} where
  pub select_ext :
      (p q : A → Bool) (xs : List A) → All (λ x. p x ≡ q x) xs → select p xs ≡ select q xs
  unfolding select
  select_ext p q [] h = refl
  select_ext p q (x ∷ xs) h = ground (arith, h.0, select_ext p q xs h.1)

  pub first-update_self :
      (p : A → Bool) (f : A → A)
      → ((x : A) → p x ≡ true → p (f x) ≡ true)
      → (xs : List A) (x : A) → first p xs ≡ some x
      → first p (update p f xs) ≡ some (f x)
  unfolding first update
  first-update_self p f h [] x e = cc
  first-update_self p f h (y ∷ ys) x e = ground (arith, h y, first-update_self p f h ys x)

  -- The row that a test finds, behind an update that does not change what the test says of a row.
  pub first-update :
      (p q : A → Bool) (f : A → A)
      → ((x : A) → p (f x) ≡ p x)
      → (xs : List A) (x : A) → first p xs ≡ some x
      → first p (update q f xs) ≡ some (if q x then f x else x)
  unfolding first update
  first-update p q f same [] x e = absurd (cc)
  first-update p q f same (y ∷ ys) x e = elim (Bool-cases (p y)) [
    | inl k ↦
        let found : y ≡ x = cc (rw k at e) in
        ground (arith, same y, ap (λ z. if q z then f z else z) found)
    | inr k ↦ ground (arith, same y, first-update p q f same ys x (rw k at e))
  ]

  pub first-update-none :
      (p q : A → Bool) (f : A → A)
      → ((x : A) → p (f x) ≡ p x)
      → (xs : List A) → first p xs ≡ none
      → first p (update q f xs) ≡ none
  unfolding first update
  first-update-none p q f same [] e = refl
  first-update-none p q f same (y ∷ ys) e = ground (arith, same y, first-update-none p q f same ys)

  pub first-append_new :
      (p : A → Bool) (xs : List A) (x : A)
      → first p xs ≡ none
      → p x ≡ true
      → first p (xs ++ x ∷ []) ≡ some x
  unfolding first
  first-append_new p [] x e h = ground arith
  first-append_new p (y ∷ ys) x e h = ground (arith, first-append_new p ys x)

  pub first-append_other :
      (p : A → Bool) (xs : List A) (x : A) → p x ≡ false → first p (xs ++ x ∷ []) ≡ first p xs
  unfolding first
  first-append_other p [] x h = ground arith
  first-append_other p (y ∷ ys) x h = ground (arith, first-append_other p ys x)

  pub any_of_first :
      (p q : A → Bool)
      → ((x : A) → p x ≡ true → q x ≡ true)
      → (xs : List A) (x : A) → first p xs ≡ some x
      → any q xs ≡ true
  unfolding first any
  any_of_first p q imp [] x e = cc
  any_of_first p q imp (y ∷ ys) x e = ground (arith, imp y, any_of_first p q imp ys x)

  -- The row that is found counts for any test that it passes.
  pub any_at_first :
      (p q : A → Bool) (xs : List A) (x : A) → first p xs ≡ some x → q x ≡ true → any q xs ≡ true
  unfolding first any
  any_at_first p q [] x e h = cc
  any_at_first p q (y ∷ ys) x e h = elim (Bool-cases (p y)) [
    | inl k ↦ let same : y ≡ x = cc (rw k at e) in ground (arith, ap q same)
    | inr k ↦ ground (arith, any_at_first p q ys x (rw k at e) h)
  ]

  pub All-select : (p : A → Bool) (xs : List A) → All (λ x. p x ≡ true) (select p xs)
  unfolding select
  All-select p [] = tt
  All-select p (x ∷ xs) = elim (Bool-cases (p x)) [
    | inl e ↦ rw e (e, All-select p xs)
    | inr e ↦ rw e (All-select p xs)
  ]

  pub any-delete_le :
      (p q : A → Bool) (xs : List A) → any p xs ≡ false → any p (delete q xs) ≡ false
  unfolding any delete
  any-delete_le p q [] h = h
  any-delete_le p q (x ∷ xs) h = ground (arith, any-delete_le p q xs)

  pub some-injective : (x y : A) → some x ≡ some y → x ≡ y
  some-injective x y e = cc

  -- The row that `first` finds is still there after an update, as the update leaves it.
  pub any-update-first :
      (p q r : A → Bool) (f : A → A) (xs : List A) (x : A)
      → first p xs ≡ some x
      → r (if q x then f x else x) ≡ true
      → any r (update q f xs) ≡ true
  unfolding any update first
  any-update-first p q r f [] x h k = absurd (cc)
  any-update-first p q r f (y ∷ ys) x h k = elim (Bool-cases (p y)) [
    | inl e ↦
        let same = some-injective y x (rw e at h) in
        ground (arith, ap (λ z. r (if q z then f z else z)) same)
    | inr e ↦ ground (arith, any-update-first p q r f ys x (rw e at h) k)
  ]

  pub any-update-false :
      (p q : A → Bool) (f : A → A)
      → ((x : A) → p (if q x then f x else x) ≡ false)
      → (xs : List A) → any p (update q f xs) ≡ false
  unfolding any update
  any-update-false p q f h [] = refl
  any-update-false p q f h (x ∷ xs) = ground (arith, h x, any-update-false p q f h xs)

  pub count-append : (p : A → Bool) (xs ys : List A) → count p (xs ++ ys) ≡ count p xs + count p ys
  unfolding count
  count-append p [] ys = omega arith
  count-append p (x ∷ xs) ys = ground (arith, count-append p xs ys)

  -- Nothing is left that is deleted.
  pub any-delete_all :
      (p q : A → Bool)
      → ((x : A) → p x ≡ true → q x ≡ true)
      → (xs : List A) → any p (delete q xs) ≡ false
  unfolding any delete
  any-delete_all p q imp [] = refl
  any-delete_all p q imp (x ∷ xs) = ground (arith, imp x, any-delete_all p q imp xs)

  -- What `first` finds has no property that no row has beside the test.
  pub first-and_false :
      (p q : A → Bool) (xs : List A) (x : A)
      → any (λ y. p y && q y) xs ≡ false
      → first p xs ≡ some x
      → q x ≡ false
  unfolding any first
  first-and_false p q [] x h e = absurd (cc)
  first-and_false p q (y ∷ ys) x h e = elim (Bool-cases (p y)) [
    | inl k ↦ let same = some-injective y x (rw k at e) in ground (arith, ap q same)
    | inr k ↦ first-and_false p q ys x (ground (arith, h)) (rw k at e)
  ]

  -- An update that keeps what holds of each row.
  pub All-update {κ} :
      (P : A → Type κ) (q : A → Bool) (f : A → A) (xs : List A)
      → ((x : A) → q x ≡ true → P x → P (f x))
      → All P xs
      → All P (update q f xs)
  unfolding update
  All-update P q f [] keep h = tt
  All-update P q f (x ∷ xs) keep h = elim (Bool-cases (q x)) [
    | inl e ↦ rw e (keep x e h.0, All-update P q f xs keep h.1)
    | inr e ↦ rw e (h.0, All-update P q f xs keep h.1)
  ]

  -- The row that is found is one of the rows.
  pub first-Mem : (p : A → Bool) (xs : List A) (x : A) → first p xs ≡ some x → Mem x xs
  unfolding first
  first-Mem p [] x e = absurd (cc)
  first-Mem p (y ∷ ys) x e = elim (Bool-cases (p y)) [
    | inl k ↦ subst (λ z. Mem z (y ∷ ys)) (some-injective y x (rw k at e)) mem-cons_self
    | inr k ↦ mem-cons_of_mem y (first-Mem p ys x (rw k at e))
  ]

  -- What holds of every row holds of the one that is found.
  pub first-All {κ} :
      (P : A → Type κ) (p : A → Bool) (xs : List A) (x : A) → All P xs → first p xs ≡ some x → P x
  unfolding first
  first-All P p [] x h e = absurd (cc)
  first-All P p (y ∷ ys) x h e = elim (Bool-cases (p y)) [
    | inl k ↦ subst P (some-injective y x (rw k at e)) h.0
    | inr k ↦ first-All P p ys x h.1 (rw k at e)
  ]
