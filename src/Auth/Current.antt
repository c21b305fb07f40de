-- ===== src/Auth/Current.antt =====
-- Who is signed in (api/src/tabayyun/auth/deps.py and `get_principal` of authz/deps.py).

use Prim.Native.Nat.{◌+◌}
use tabayyun.Prelude.{
  ℕ, ◌≡◌, refl, ap, sym, subst, ◌∙◌, Bool, true, false, Option, none, some, String, ◌==◌,
  if◌then◌else◌, arith, ok, Option-cases, inl, inr, some-injective, ◌<◌, Mem, any, is_none, first,
  first_holds, first-Mem,
}
use tabayyun.Authz.Roles.{Principal}
use tabayyun.Db.{Db, AuthSession}
use tabayyun.Auth.Sessions.{
  CurrentSession, given, is_found, is_disabled, current_of, find_session, revoke_user_sessions,
}
use tabayyun.Auth.Revoked.{revoke_user_sessions-ends}
use tabayyun.Auth.Handlers.{World, >>=-eq-ok}
use tabayyun.Auth.Request.{
  Settings, Request, oidc, look_up, fresh_session, current_session, require_session, principal_of,
  get_principal,
}

some_unless :
    (b : Bool) (found s : CurrentSession) (x y : Db)
    → (if◌then◌else◌ {A = Option CurrentSession × Db} b (none, x) (some found, y)).0 ≡ some s
    → (found ≡ s) × (b ≡ false)
some_unless true found s x y e = absurd (cc)
some_unless false found s x y e = (some-injective found s e, refl)

-- A live row of the hash whose user is there, as the session that is found shows it.
record IsShown (id_hash idle : ℕ) (db : Db) (s : CurrentSession) (row : AuthSession) : Type 0 where
  hash : row.id_hash ≡ id_hash
  not_revoked : row.revoked_at ≡ none
  not_expired : db.now < row.expires_at
  not_idle : db.now < row.last_seen_at + idle
  known : any (λ u. u.id == row.user_id) db.users ≡ true
  shown : current_of db.users row ≡ s

is_none-eq : (o : Option ℕ) → is_none o ≡ true → o ≡ none
is_none-eq none e = refl
is_none-eq (some n) e = absurd (cc)

find_session-row :
    (id_hash idle : ℕ) (db : Db) (s : CurrentSession)
    → (find_session id_hash idle db).0 ≡ some s
    → (row : AuthSession) × Mem row db.sessions × IsShown id_hash idle db s row
unfolding find_session
find_session-row id_hash idle db s e =
    elim (Option-cases (first (is_found id_hash idle db) db.sessions)) [
      | inl f ↦ absurd (cc (rw (f, find_session) at e))
      | inr (row, f) ↦
          let holds = first_holds (is_found id_hash idle db) db.sessions row f in
          let same = rw (f, find_session) at e in
          (
            row,
            first-Mem (is_found id_hash idle db) db.sessions row f,
            record {
              hash = ground (arith, holds);
              not_revoked = is_none-eq row.revoked_at (ground (arith, holds));
              not_expired = ground (arith, holds);
              not_idle = ground (arith, holds);
              known = ground (arith, holds);
              shown = some-injective (current_of db.users row) s same;
            },
          )
    ]

-- A live row of the hash, for the user and the org of the principal, whose user is there and not disabled.
pub record IsNamed (id_hash idle : ℕ) (principal : Principal) (db : Db) (row : AuthSession)
    : Type 0 where
  pub hash : row.id_hash ≡ id_hash
  pub not_revoked : row.revoked_at ≡ none
  pub not_expired : db.now < row.expires_at
  pub not_idle : db.now < row.last_seen_at + idle
  pub known : any (λ u. u.id == row.user_id) db.users ≡ true
  pub enabled : is_disabled db.users row.user_id ≡ false
  pub user : row.user_id ≡ principal.user_id
  pub org : row.org_id ≡ some principal.org_id

shown-IsNamed :
    (id_hash idle : ℕ) (principal : Principal) (db : Db) (s : CurrentSession) (row : AuthSession)
    → IsShown id_hash idle db s row
    → s.user_disabled ≡ false
    → s.user_id ≡ principal.user_id
    → s.org_id ≡ some principal.org_id
    → IsNamed id_hash idle principal db row
shown-IsNamed id_hash idle principal db s row i on user org = record {
  hash = i.hash;
  not_revoked = i.not_revoked;
  not_expired = i.not_expired;
  not_idle = i.not_idle;
  known = i.known;
  enabled = ap (λ x. x.user_disabled) i.shown ∙ on;
  user = ap (λ x. x.user_id) i.shown ∙ user;
  org = ap (λ x. x.org_id) i.shown ∙ org;
}

module _ (settings : Settings) (request : Request) where
  -- A token of a disabled user signs nobody in, and looking it up ends every session of that user:
  -- none is found afterwards, at whatever time.
  pub look_up-disabled :
      (token : String) (db : Db) (s : CurrentSession)
      → (find_session (settings.token_hash token) settings.session_idle db).0 ≡ some s
      → s.user_disabled ≡ true
      → ((look_up settings request token db).0 ≡ none)
        × ((id_hash idle later : ℕ) (other : CurrentSession)
            → (find_session id_hash idle
                (record (look_up settings request token db).1 { now = later })).0
              ≡ some other
            → (other.user_id == s.user_id) ≡ false)
  unfolding look_up
  look_up-disabled token db s e off =
      let after = (find_session (settings.token_hash token) settings.session_idle db).1 in
      let ended : look_up settings request token db
          ≡ (none, (revoke_user_sessions s.user_id none after).1) =
        rw (e, look_up) (rw (off, look_up) refl) in
      (
        ap (λ r. r.0) ended,
        λ id_hash idle later other h. ground (
          arith,
          revoke_user_sessions-ends s.user_id none after id_hash idle later other (
              subst (λ r. (find_session id_hash idle (record r.1 { now = later })).0 ≡ some other)
                ended h),
        ),
      )

  look_up-some :
      (token : String) (db : Db) (s : CurrentSession)
      → (look_up settings request token db).0 ≡ some s
      → ((find_session (settings.token_hash token) settings.session_idle db).0 ≡ some s)
        × (s.user_disabled ≡ false)
  unfolding look_up
  look_up-some token db s e =
      let found = (find_session (settings.token_hash token) settings.session_idle db).0 in
      elim (Option-cases found) [
        | inl absent ↦ absurd (ground (arith, absent))
        | inr (s', there) ↦
            let (same, on) = some_unless (s'.user_disabled) s' s _ _ (rw (there, look_up) at e) in
            (there ∙ ap (λ x. some x) same, ap (λ x. x.user_disabled) (sym same) ∙ on)
      ]

  abbrev pub start : Db → World
  start db = record { db = db; looked_up = none }

  require_session-fresh :
      (db : Db) (s : CurrentSession)
      → (require_session settings request (start db)).0 ≡ ok s
      → (fresh_session settings request db).0 ≡ some s
  unfolding require_session current_session
  require_session-fresh db s e = elim (Option-cases (fresh_session settings request db).0) [
    | inl absent ↦ absurd (ground (arith, absent))
    | inr (s', there) ↦ ground (arith, there)
  ]

  principal_of_session :
      (session : CurrentSession) (w : World) (principal : Principal)
      → (principal_of session w).0 ≡ ok principal
      → (session.user_id ≡ principal.user_id) × (session.org_id ≡ some principal.org_id)
  principal_of_session session w principal e = (ground arith, ground arith)

  -- With the login, a request acts for the user of a live session that its cookie names: there is a row with
  -- the hash of the cookie's token that is neither revoked nor expired nor idle for too long, it is of the
  -- principal's user and org, and that user is there and not disabled.
  pub get_principal-session :
      (db : Db) (principal : Principal)
      → settings.auth_mode ≡ oidc
      → (get_principal settings request (start db)).0 ≡ ok principal
      → (token : String) × (row : AuthSession) × (given request.session_cookie ≡ some token)
        × Mem row db.sessions
        × IsNamed (settings.token_hash token) settings.session_idle principal db row
  unfolding get_principal fresh_session
  get_principal-session db principal mode e =
      let (s, found, rest) =
        >>=-eq-ok (require_session settings request) principal_of (start db)
          (rw (mode, get_principal) at e) in
      let fresh = require_session-fresh db s found in
      elim (Option-cases (given request.session_cookie)) [
        | inl absent ↦ absurd (ground (arith, rw (mode, fresh_session) at fresh))
        | inr (token, there) ↦
            let looked = rw (there, fresh_session) at (rw (mode, fresh_session) at fresh) in
            let (live, on) = look_up-some token db s looked in
            let (user, org) = principal_of_session s _ principal rest in
            let (row, within, named) =
              find_session-row (settings.token_hash token) settings.session_idle db s live in
            (
              token,
              row,
              there,
              within,
              shown-IsNamed (settings.token_hash token) settings.session_idle principal db s row
                  named on user org,
            )
      ]
