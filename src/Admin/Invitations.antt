-- ===== src/Admin/Invitations.antt =====
-- api/src/tabayyun/services/admin/invitations.py: opening, resending and revoking an invitation.
use mathlib.Core.Option
use Prim.Native.Nat.{◌+◌}
use tabayyun.Prelude.{
  ℕ, Bool, true, false, ◌&&◌, ◌||◌, not, Option, none, some, String, List, [], ◌∷◌, ◌++◌, ◌==◌,
  str_eq, is_some, is_none, if◌then◌else◌, leb, first, any, Outcome, ok, err, lift, gets, modify,
  ensure, ◌>>=◌, ◌>>◌,
}
use tabayyun.Rows.{placed, update_at}
use tabayyun.Authz.Roles.{OrgRole, WorkspaceRole, is_owner, org_role_value, workspace_role_value}
use tabayyun.Db.{Db, Host, Workspace, User, Invitation, not_configured, queued, Detail, text, null}
use tabayyun.Admin.Errors.{AdminError, not_found, conflict, invalid, Change}
use tabayyun.Admin.Audit.{Actor, record_event}
use tabayyun.Admin.Email.{normalise_email}
use tabayyun.Admin.Teams.{found}

pub data Status : Type 0 where
  pending accepted revoked expired : Status

-- What a request asks to give.
pub record GrantRequest : Type 0 where
  pub org_role : String
  pub workspace_id : Option ℕ
  pub workspace_role : Option String

-- What an invitation gives, its roles named.
pub record Grant : Type 0 where
  pub org_role : OrgRole
  pub workspace_id : Option ℕ
  pub workspace_role : Option WorkspaceRole

pub record InvitationView : Type 0 where
  pub invitation : Invitation
  pub inviter : Option User
  pub workspace : Option Workspace
  pub status : Status

unfoldable pub status_of : Invitation → ℕ → Status
status_of i now =
    if is_some i.accepted_at
    then accepted
    else if is_some i.revoked_at
    then revoked
    else if leb i.expires_at now
    then expired
    else pending

abbrev pub is_pending : Status → Bool
is_pending pending = true
is_pending _ = false

abbrev pub is_expired : Status → Bool
is_expired expired = true
is_expired _ = false

abbrev pub org_role_named : String → Option OrgRole
org_role_named name =
    first (λ r. str_eq (org_role_value r) name)
      (OrgRole.owner ∷ OrgRole.admin ∷ OrgRole.member ∷ [])

abbrev pub workspace_role_named : String → Option WorkspaceRole
workspace_role_named name =
    first (λ r. str_eq (workspace_role_value r) name)
      (WorkspaceRole.viewer ∷ WorkspaceRole.editor ∷ WorkspaceRole.admin ∷ [])

-- The workspace's part of a grant.
abbrev pub check_workspace : OrgRole → Option ℕ → Option String → Outcome AdminError Grant
check_workspace role none none =
    ok (record { org_role = role; workspace_id = none; workspace_role = none })
check_workspace role (some id) (some name) = elim (workspace_role_named name) [
  | none ↦ err (invalid "invalid_role")
  | some r ↦ ok (record { org_role = role; workspace_id = some id; workspace_role = some r })
]
check_workspace role _ _ = err (invalid "invalid_workspace_grant")

unfoldable pub check_grant : GrantRequest → Outcome AdminError Grant
check_grant grant = elim (org_role_named grant.org_role) [
  | none ↦ err (invalid "invalid_role")
  | some role ↦
      if is_owner role
      then err (invalid "invalid_role")
      else check_workspace role grant.workspace_id grant.workspace_role
]

unfoldable pub view : Invitation → Change InvitationView
unfolding status_of
view i db = ok (
  record {
    invitation = i;
    inviter = first (λ u. u.id == i.invited_by) db.users;
    workspace = elim i.workspace_id [
      | none ↦ none
      | some id ↦ first (λ w. w.id == id) db.workspaces
    ];
    status = status_of i db.clock;
  },
  db,
)

-- A row of the table, with its place.
abbrev pub Placed : Type 0
Placed = ℕ × Invitation

unfoldable pub get_invitation : ℕ → ℕ → Change Placed
get_invitation org_id invitation_id db =
    found (first (λ p. p.1.org_id == org_id && p.1.id == invitation_id) (placed db.invitations)) db

-- An assignment to a row's attributes, flushed.
unfoldable pub put_row : ℕ → Invitation → Change (Unit {0})
put_row at i = modify λ db. record db { invitations = update_at at i db.invitations }

abbrev pub email_queued : Bool → Invitation → Invitation
email_queued mail_on i = record i {
  email_status = if mail_on then queued else not_configured;
  email_error = none;
}

-- The job that `_queue_email` defers.
unfoldable pub defer_mail : Bool → ℕ → Change (Unit {0})
defer_mail wanted id =
    modify λ db. record db { mail_jobs = if wanted then db.mail_jobs ++ id ∷ [] else db.mail_jobs }

-- An invitation that is neither accepted nor revoked.
abbrev pub is_open : ℕ → String → Invitation → Bool
is_open org_id email i =
    i.org_id == org_id && str_eq i.email email && is_none i.accepted_at && is_none i.revoked_at

abbrev pub is_member : ℕ → String → Db → Bool
is_member org_id email db =
    any (λ m. m.org_id == org_id && any (λ u. u.id == m.user_id && str_eq u.email email) db.users)
      db.org_memberships

abbrev pub text_or_null : Option String → Detail
text_or_null none = null
text_or_null (some t) = text t

-- `_details`
abbrev pub details_of : String → Grant → Option Workspace → List (String × Detail)
details_of email grant workspace =
    ("email", text email)
    ∷ ("org_role", text (org_role_value grant.org_role))
    ∷ ("workspace", text_or_null (Option.map (λ w. w.name) workspace))
    ∷ ("workspace_role", text_or_null (Option.map workspace_role_value grant.workspace_role))
    ∷ []

-- The workspace of the grant, in the actor's org.
unfoldable pub workspace_of : ℕ → Option ℕ → Change (Option Workspace)
workspace_of org_id none db = ok (none, db)
workspace_of org_id (some id) db =
    elim (first (λ w. w.org_id == org_id && w.id == id) db.workspaces) [
      | none ↦ err not_found
      | some w ↦ ok (some w, db)
    ]

-- The open invitation of the email, if there is one, makes room: a pending one is a conflict, an
-- expired one is revoked.
unfoldable pub make_room : ℕ → String → Change (Unit {0})
unfolding status_of
make_room org_id email db = elim (first (λ p. is_open org_id email p.1) (placed db.invitations)) [
  | none ↦ ok (tt, db)
  | some (at, i) ↦
      if is_pending (status_of i db.clock)
      then err (conflict "invitation_pending")
      else ok (
        tt,
        record db {
          invitations = update_at at (record i { revoked_at = some db.now }) db.invitations;
        },
      )
]

module _ ⦃host : Host⦄ (actor : Actor) (ttl : ℕ) (mail_on defer : Bool) where
  unfoldable pub add_invitation : String → Grant → Change Invitation
  add_invitation email grant db =
      let i : Invitation = email_queued mail_on (record {
        id = host.uuid4 db.drawn;
        org_id = actor.org_id;
        email = email;
        org_role = grant.org_role;
        workspace_id = grant.workspace_id;
        workspace_role = grant.workspace_role;
        invited_by = actor.user_id;
        created_at = db.now;
        expires_at = db.clock + ttl;
        accepted_at = none;
        accepted_user_id = none;
        revoked_at = none;
        email_status = not_configured;
        email_error = none;
      }) in
      ok (i, record db { invitations = db.invitations ++ i ∷ []; drawn = db.drawn + 1 })

  -- The part behind the checks on the request.
  unfoldable pub open_invitation : String → Grant → Option Workspace → Change InvitationView
  open_invitation email grant workspace = do
    make_room actor.org_id email
    i ← add_invitation email grant
    defer_mail (mail_on && defer) i.id
    record_event actor "invitation.created" "invitation" i.id grant.workspace_id
        (details_of email grant workspace)
    view i

  unfoldable pub create_invitation :
      (lower : String → String) → String → GrantRequest → Change InvitationView
  create_invitation lower raw grant = do
    email ← lift (normalise_email lower raw)
    checked ← lift (check_grant grant)
    workspace ← workspace_of actor.org_id checked.workspace_id
    member ← gets (is_member actor.org_id email)
    ensure (not member) (conflict "already_member")
    open_invitation email checked workspace

  unfoldable pub resend_invitation : ℕ → Change InvitationView
  resend_invitation invitation_id = do
    (at, i) ← get_invitation actor.org_id invitation_id
    clock ← gets (λ db. db.clock)
    ensure (is_pending (status_of i clock) || is_expired (status_of i clock))
        (conflict "not_pending")
    put_row at (email_queued mail_on (record i { expires_at = clock + ttl }))
    defer_mail (mail_on && defer) i.id
    record_event actor "invitation.resent" "invitation" i.id i.workspace_id
        (("email", text i.email) ∷ [])
    view (email_queued mail_on (record i { expires_at = clock + ttl }))

module _ ⦃host : Host⦄ (actor : Actor) where
  unfoldable pub revoke_invitation : ℕ → Change (Unit {0})
  revoke_invitation invitation_id = do
    (at, i) ← get_invitation actor.org_id invitation_id
    clock ← gets (λ db. db.clock)
    now ← gets (λ db. db.now)
    ensure (is_pending (status_of i clock)) (conflict "not_pending")
    put_row at (record i { revoked_at = some now })
    record_event actor "invitation.revoked" "invitation" i.id i.workspace_id
        (("email", text i.email) ∷ [])
