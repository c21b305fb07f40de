-- ===== src/Auth/Request.antt =====
-- Whom a request acts for, and where: api/src/tabayyun/auth/deps.py and authz/deps.py.

use Prim.Native.Nat.{◌+◌}
use tabayyun.Prelude.{
  ℕ, Bool, true, false, ◌&&◌, ◌||◌, Option, none, some, String, List, [], ◌∷◌, ◌==◌, str_eq,
  if◌then◌else◌, ltb, select, sort_by, ok, err, strip, not,
}
use tabayyun.Authz.Roles.{Action, Principal, Scope, action_value}
use tabayyun.Authz.Policy.{not_visible, forbidden, authorize, is_visible}
use tabayyun.Db.{Db, Workspace, default_org_id, default_workspace_id, bootstrap_user_id}
use tabayyun.Auth.Handlers.{
  not_authenticated, no_access, second_factor_required, invalid_workspace, not_found,
  not_allowed_to, Handler, pure, raise, gets, ensure, ◌>>=◌,
}
use tabayyun.Auth.Sessions.{CurrentSession, given, find_session, revoke_user_sessions}

pub data AuthMode : Type 0 where
  dev oidc : AuthMode

-- The settings read here, and what the code takes from libraries: the hash of a token and the parse
-- of a UUID.
pub record Settings : Type 0 where
  pub auth_mode : AuthMode
  pub session_idle : ℕ
  pub passkey_fresh : ℕ
  pub token_hash : String → ℕ
  pub parse_uuid : String → Option ℕ

-- The session cookie and the workspace header.
pub record Request : Type 0 where
  pub session_cookie : Option String
  pub workspace_header : Option String

-- ORDER BY (id = default first), created_at, id
abbrev pub preferred : Workspace → Workspace → Bool
preferred a b =
    let a_default = a.id == default_workspace_id in
    let b_default = b.id == default_workspace_id in
    if a_default
    then not b_default
      || ltb a.created_at b.created_at
      || a.created_at == b.created_at && ltb a.id b.id
    else not b_default
      && (ltb a.created_at b.created_at || a.created_at == b.created_at && ltb a.id b.id)

abbrev pub first_id : List Workspace → ℕ
first_id [] = default_workspace_id
first_id (w ∷ ws) = w.id

unfoldable pub fallback_workspace : Principal → Db → ℕ
unfolding is_visible
fallback_workspace principal db =
    first_id (sort_by preferred (select (is_visible db principal) db.workspaces))

-- The user in the org that their session signed in to.
abbrev pub principal_of : CurrentSession → Handler Principal
principal_of session = elim session.org_id [
  | none ↦ raise no_access
  | some org_id ↦ pure (record { user_id = session.user_id; org_id = org_id })
]

-- `authorize`, and the scope.
unfoldable pub authorized : Action → Principal → ℕ → Handler Scope
unfolding authorize
authorized action principal workspace_id w = elim (authorize w.db principal action workspace_id) [
  | err not_visible ↦ (err not_found, w)
  | err forbidden ↦ (err (not_allowed_to (action_value action)), w)
  | ok role ↦ (ok (record { org_id = principal.org_id; workspace_id = workspace_id }), w)
]

module _ (settings : Settings) (request : Request) where
  -- The look-up of a token. A disabled user's sessions are all revoked.
  unfoldable pub look_up : String → Db → Option CurrentSession × Db
  look_up token db =
      let (found, after) = find_session (settings.token_hash token) settings.session_idle db in
      elim found [
        | none ↦ (none, after)
        | some s ↦
            if s.user_disabled
            then (none, (revoke_user_sessions s.user_id none after).1)
            else (some s, after)
      ]

  -- The part of `current_session` behind the look in `request.state`.
  unfoldable pub fresh_session : Db → Option CurrentSession × Db
  unfolding look_up
  fresh_session db = elim settings.auth_mode [
    | dev ↦ (none, db)
    | oidc ↦ elim (given request.session_cookie) [
      | none ↦ (none, db)
      | some token ↦ look_up token db
    ]
  ]

  unfoldable pub current_session : Handler (Option CurrentSession)
  unfolding fresh_session
  current_session world = elim world.looked_up [
    | some cached ↦ (ok cached, world)
    | none ↦
        let (found, after) = fresh_session world.db in
        (ok found, record { db = after; looked_up = some found })
  ]

  unfoldable pub require_session : Handler CurrentSession
  unfolding current_session
  require_session = do
    found ← current_session
    elim found [ none ↦ raise not_authenticated | some s ↦ pure s ]

  unfoldable pub passkey_is_fresh : Option CurrentSession → ℕ → Bool
  passkey_is_fresh session clock = elim settings.auth_mode [
    | dev ↦ true
    | oidc ↦ elim session [
      | none ↦ false
      | some s ↦
          str_eq s.sign_in_method "passkey" && ltb clock (s.created_at + settings.passkey_fresh)
    ]
  ]

  unfoldable pub require_recent_passkey : Handler (Unit {0})
  unfolding require_session passkey_is_fresh
  require_recent_passkey = elim settings.auth_mode [
    | dev ↦ pure tt
    | oidc ↦ do
      session ← require_session
      clock ← gets (λ w. w.db.clock)
      ensure (passkey_is_fresh (some session) clock) second_factor_required
  ]

  abbrev pub bootstrap_principal : Principal
  bootstrap_principal = record { user_id = bootstrap_user_id; org_id = default_org_id }

  unfoldable pub get_principal : Handler Principal
  unfolding require_session
  get_principal = elim settings.auth_mode [
    | dev ↦ pure bootstrap_principal
    | oidc ↦ do session ← require_session; principal_of session
  ]

  unfoldable pub get_workspace_id : Principal → Handler ℕ
  unfolding fallback_workspace
  get_workspace_id principal = elim request.workspace_header [
    | none ↦ gets (λ w. fallback_workspace principal w.db)
    | some named ↦ elim (settings.parse_uuid (strip named)) [
      | none ↦ raise invalid_workspace
      | some id ↦ pure id
    ]
  ]

  unfoldable pub require : Action → Handler Scope
  unfolding get_principal get_workspace_id
  require action = do
    principal ← get_principal
    workspace_id ← get_workspace_id principal
    authorized action principal workspace_id
