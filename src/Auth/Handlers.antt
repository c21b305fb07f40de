-- ===== src/Auth/Handlers.antt =====
-- A request under way: what the dependencies of api/src/tabayyun/auth/deps.py and authz/deps.py keep
-- between their steps. Each look-up of a session is a transaction of its own, so an error that is
-- raised afterwards does not undo it.
use tabayyun.Prelude.{ℕ, ◌≡◌, refl, Bool, true, false, Option, String, Outcome, ok, err}
use tabayyun.Db.{Db}
use tabayyun.Auth.Sessions.{CurrentSession}

-- The tables, and what `request.state` keeps once the session was looked up.
pub record World : Type 0 where
  pub db : Db
  pub looked_up : Option (Option CurrentSession)

-- `HTTPException`
pub data HttpError : Type 0 where
  not_authenticated no_access second_factor_required invalid_workspace not_found : HttpError
  not_allowed_to : String → HttpError

abbrev pub status_code : HttpError → ℕ
status_code not_authenticated = 401
status_code no_access = 403
status_code second_factor_required = 403
status_code invalid_workspace = 400
status_code not_found = 404
status_code (not_allowed_to action) = 403

abbrev pub Handler : Type 0 → Type 0
Handler A = World → Outcome HttpError A × World

module _ {A : Type 0} where
  abbrev pub pure : A → Handler A
  pure a w = (ok a, w)

  abbrev pub raise : HttpError → Handler A
  raise e w = (err e, w)

  abbrev pub gets : (World → A) → Handler A
  gets f w = (ok (f w), w)

-- `if not b: raise e`
abbrev pub ensure : Bool → HttpError → Handler (Unit {0})
ensure true e w = (ok tt, w)
ensure false e w = (err e, w)

infixl 5 ◌>>=◌
abbrev pub ◌>>=◌ : {A B : Type 0} → Handler A → (A → Handler B) → Handler B
◌>>=◌ m f w = let (result, after) = m w in elim result [ ok a ↦ f a after | err e ↦ (err e, after) ]

-- Inversion of a step that was followed by another, where both returned.
pub >>=-eq-ok :
    {A B : Type 0} (m : Handler A) (f : A → Handler B) (w : World) {b : B}
    → ((m >>= f) w).0 ≡ ok b
    → (a : A) × ((m w).0 ≡ ok a) × ((f a (m w).1).0 ≡ ok b)
>>=-eq-ok {A} {B} m f w {b} h = go (m w).0 refl h
  where
    go :
        (r : Outcome HttpError A)
        → (m w).0 ≡ r
        → (elim r as (λ _. Outcome HttpError B × World) [
          | ok a ↦ f a (m w).1
          | err e ↦ (err e, (m w).1)
        ]).0
          ≡ ok b
        → (a : A) × ((m w).0 ≡ ok a) × ((f a (m w).1).0 ≡ ok b)
    go (ok a) e h = (a, e, h)
    go (err x) e h = cc
