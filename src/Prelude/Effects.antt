-- ===== src/Prelude/Effects.antt =====
-- Results of code that may raise, and transactions: a raise rolls the state back.
use mathlib.Core.Path.{ap, ◌≡◌, refl}
use mathlib.Core.Logic.{◌⊎◌, inl, inr}
use mathlib.Core.Bool.{Bool, true, false}

pub data Outcome {ℓ κ} (E : Type ℓ) (A : Type κ) : Type (ℓ ⊔ κ) where
  ok : A → Outcome E A
  err : E → Outcome E A

pub Outcome-cases {ℓ κ} :
    {E : Type ℓ} {A : Type κ} (r : Outcome E A) → ((a : A) × (r ≡ ok a)) ⊎ ((e : E) × (r ≡ err e))
Outcome-cases (ok a) = inl (a, refl)
Outcome-cases (err e) = inr (e, refl)

-- One transaction over a state: an error leaves nothing of it.
abbrev pub Tx : Type 0 → Type 0 → Type 0 → Type 0
Tx E S A = S → Outcome E (A × S)

module _ {E S A : Type 0} where
  abbrev pub pure : A → Tx E S A
  pure a s = ok (a, s)

  abbrev pub raise : E → Tx E S A
  raise e s = err e

  abbrev pub gets : (S → A) → Tx E S A
  gets f s = ok (f s, s)

  abbrev pub lift : Outcome E A → Tx E S A
  lift (ok a) s = ok (a, s)
  lift (err e) s = err e

module _ {E S : Type 0} where
  abbrev pub modify : (S → S) → Tx E S (Unit {0})
  modify f s = ok (tt, f s)

  -- `if not b: raise e`
  abbrev pub ensure : Bool → E → Tx E S (Unit {0})
  ensure true e s = ok (tt, s)
  ensure false e s = err e

infixl 5 ◌>>=◌ ◌>>◌
abbrev pub ◌>>=◌ : {E S A B : Type 0} → Tx E S A → (A → Tx E S B) → Tx E S B
◌>>=◌ m f s = elim (m s) [ ok (a, s') ↦ f a s' | err e ↦ err e ]

abbrev pub ◌>>◌ : {E S B : Type 0} → Tx E S (Unit {0}) → Tx E S B → Tx E S B
m >> k = m >>= λ _. k

-- A bind after a step that returned.
pub >>=-ok :
    {E S A B : Type 0} (m : Tx E S A) (f : A → Tx E S B) (s : S) {a : A} {t : S}
    → m s ≡ ok (a, t)
    → (m >>= f) s ≡ f a t
>>=-ok m f s e = ap (λ r. elim r [ ok (a, t) ↦ f a t | err e ↦ err e ]) e

-- Inversion of a bind that returned.
pub >>=-eq-ok :
    {E S A B : Type 0} (m : Tx E S A) (f : A → Tx E S B) (s : S) {b : B} {s' : S}
    → (m >>= f) s ≡ ok (b, s')
    → (a : A) × (t : S) × (m s ≡ ok (a, t)) × (f a t ≡ ok (b, s'))
>>=-eq-ok {E} {S} {A} {B} m f s {b} {s'} h = go (m s) refl h
  where
    go :
        (r : Outcome E (A × S))
        → m s ≡ r
        → elim r [ ok (a, t) ↦ f a t | err e ↦ err e ] ≡ ok (b, s')
        → (a : A) × (t : S) × (m s ≡ ok (a, t)) × (f a t ≡ ok (b, s'))
    go (ok (a, t)) e h = (a, t, e, h)
    go (err e') e h = cc
