-- ===== src/Auth/Sessions.antt =====
-- The sessions of api/src/tabayyun/auth/store.py.

use Prim.Native.Nat.{◌+◌}
use tabayyun.Prelude.{
  ℕ, Bool, false, ◌&&◌, ◌||◌, not, Option, none, some, String, List, [], ◌∷◌, ◌++◌, ◌==◌, str_eq,
  is_some, is_none, is_empty, if◌then◌else◌, ltb, min, select, first, any, update, delete, count,
  sort_by,
}
use tabayyun.Db.{Db, Host, User, AuthSession, default_org_id}

-- `TOUCH_INTERVAL`
abbrev pub touch_interval : ℕ
touch_interval = 60000000

pub record CurrentSession : Type 0 where
  pub id : ℕ
  pub user_id : ℕ
  pub org_id : Option ℕ
  pub sign_in_method : String
  pub created_at : ℕ
  pub last_seen_at : ℕ
  pub id_token : Option String
  pub user_disabled : Bool

-- Not revoked, idle or expired at an instant.
abbrev pub is_live : ℕ → ℕ → AuthSession → Bool
is_live idle now s = is_none s.revoked_at && ltb now s.expires_at && ltb now (s.last_seen_at + idle)

-- What `create_session` prunes: a revoked, an expired or an idle session of the user.
abbrev pub is_dead : ℕ → ℕ → ℕ → AuthSession → Bool
is_dead user_id idle now s =
    s.user_id == user_id
    && (is_some s.revoked_at || ltb s.expires_at now || ltb (s.last_seen_at + idle) now)

module _ ⦃host : Host⦄ (id_hash user_id : ℕ) (org_id : Option ℕ) (sign_in_method : String)
    (idp_sid id_token ip_address user_agent : Option String) (absolute idle : ℕ) where
  unfoldable pub create_session : Db → Db
  create_session db = record db {
    sessions =
        delete (is_dead user_id idle db.now) db.sessions
        ++ record {
          id = host.uuid4 db.drawn;
          id_hash = id_hash;
          user_id = user_id;
          org_id = org_id;
          sign_in_method = sign_in_method;
          idp_sid = idp_sid;
          id_token = id_token;
          ip_address = ip_address;
          user_agent = user_agent;
          created_at = db.now;
          last_seen_at = db.now;
          expires_at = db.now + absolute;
          revoked_at = none;
        }
          ∷ [];
    drawn = db.drawn + 1;
  }

-- The row with the hash that is live and whose user exists (the JOIN).
abbrev pub is_found : ℕ → ℕ → Db → AuthSession → Bool
is_found id_hash idle db s =
    s.id_hash == id_hash && is_live idle db.now s && any (λ u. u.id == s.user_id) db.users

abbrev pub is_disabled : List User → ℕ → Bool
is_disabled users id = elim (first (λ u. u.id == id) users) [
  | none ↦ false
  | some u ↦ is_some u.disabled_at
]

abbrev pub current_of : List User → AuthSession → CurrentSession
current_of users s = record {
  id = s.id;
  user_id = s.user_id;
  org_id = s.org_id;
  sign_in_method = s.sign_in_method;
  created_at = s.created_at;
  last_seen_at = s.last_seen_at;
  id_token = s.id_token;
  user_disabled = is_disabled users s.user_id;
}

-- The UPDATE of `last_seen_at`, at most once in `TOUCH_INTERVAL`.
unfoldable pub touch : ℕ → Db → Db
touch id db = record db {
  sessions =
      update (λ s. s.id == id && ltb (s.last_seen_at + touch_interval) db.now)
        (λ s. record s { last_seen_at = db.now }) db.sessions;
}

unfoldable pub find_session : ℕ → ℕ → Db → Option CurrentSession × Db
unfolding touch
find_session id_hash idle db = elim (first (is_found id_hash idle db) db.sessions) [
  | none ↦ (none, db)
  | some s ↦ (some (current_of db.users s), touch s.id db)
]

abbrev pub recent_first : AuthSession → AuthSession → Bool
recent_first a b =
    ltb b.last_seen_at a.last_seen_at
    || a.last_seen_at == b.last_seen_at && ltb b.created_at a.created_at

unfoldable pub list_sessions : ℕ → ℕ → Db → List AuthSession
list_sessions user_id idle db =
    sort_by recent_first (select (λ s. s.user_id == user_id && is_live idle db.now s) db.sessions)

abbrev pub revoked_now : ℕ → AuthSession → AuthSession
revoked_now now s = record s { revoked_at = some now }

-- UPDATE .. SET revoked_at = now() .. RETURNING: how many rows there were, and the rows after it.
unfoldable pub revoke_where : (AuthSession → Bool) → Db → ℕ × Db
unfolding count
revoke_where chosen db = (
  count chosen db.sessions,
  record db { sessions = update chosen (revoked_now db.now) db.sessions },
)

unfoldable pub revoke : ℕ → ℕ → Db → Bool × Db
unfolding revoke_where
revoke session_id user_id db =
    let (n, after) =
      revoke_where (λ s. s.id == session_id && s.user_id == user_id && is_none s.revoked_at) db in
    (ltb 0 n, after)

abbrev pub is_kept : Option ℕ → ℕ → Bool
is_kept none id = false
is_kept (some keep) id = id == keep

unfoldable pub revoke_user_sessions : ℕ → Option ℕ → Db → ℕ × Db
unfolding revoke_where
revoke_user_sessions user_id keep =
    revoke_where (λ s. s.user_id == user_id && is_none s.revoked_at && not (is_kept keep s.id))

-- `if value`, of a text that may be missing.
abbrev pub given : Option String → Option String
given none = none
given (some s) = if is_empty s then none else some s

abbrev pub same_text : Option String → String → Bool
same_text none s = false
same_text (some r) s = str_eq r s

unfoldable pub revoke_by_idp : String → Option String → Option String → Db → ℕ × Db
unfolding revoke_where
revoke_by_idp issuer sid subject db = elim (given sid) [
  | some sid' ↦ revoke_where (λ s. is_none s.revoked_at && same_text s.idp_sid sid') db
  | none ↦ elim (given subject) [
    | some subject' ↦
        revoke_where
          (λ s.
            is_none s.revoked_at
            && any
                (λ i. str_eq i.issuer issuer && str_eq i.subject subject' && i.user_id == s.user_id)
                db.identities)
          db
    | none ↦ (0, db)
  ]
]

abbrev pub min_of : ℕ → List ℕ → ℕ
min_of least [] = least
min_of least (x ∷ xs) = min x (min_of least xs)

-- The org that a user moves into of those that they joined: the default org first, else the least id.
unfoldable pub joined_org : List ℕ → Option ℕ
joined_org [] = none
joined_org (o ∷ os) =
    if any (λ x. x == default_org_id) (o ∷ os) then some default_org_id else some (min_of o os)

-- `accept` is `tabayyun_accept_invitations()` of the database: the orgs that the user joined.
unfoldable pub join_invited_org : (accept : ℕ → Db → List ℕ × Db) → ℕ → ℕ → Db → Option ℕ × Db
unfolding joined_org
join_invited_org accept session_id user_id db =
    let (joined, after) = accept user_id db in
    elim (joined_org joined) [
      | none ↦ (none, after)
      | some org ↦ (
        some org,
        record after {
          sessions =
              update (λ s. s.id == session_id && is_none s.org_id)
                (λ s. record s { org_id = some org }) after.sessions;
        },
      )
    ]
