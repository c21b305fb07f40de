-- ===== src/Db.antt =====
-- api/src/tabayyun/db/models.py: the tables of organisations, people, access and sign-in, each the
-- list of its rows. A uuid is the number that it stands for; an instant counts microseconds from
-- 0001-01-01T00:00:00Z, the least datetime of Python. The CHECK constraints on roles make the role
-- columns hold the enums.
use tabayyun.Prelude.{ℕ, String, Bool, Option, List}
use tabayyun.Authz.Roles.{OrgRole, WorkspaceRole}

abbrev pub default_org_id : ℕ
default_org_id = 1

abbrev pub default_workspace_id : ℕ
default_workspace_id = 2

abbrev pub bootstrap_user_id : ℕ
bootstrap_user_id = 3

pub record Workspace : Type 0 where
  pub id : ℕ
  pub org_id : ℕ
  pub name : String
  pub timezone : String
  pub created_at : ℕ

pub record User : Type 0 where
  pub id : ℕ
  pub email : String
  pub display_name : String
  pub created_at : ℕ
  pub disabled_at : Option ℕ

pub record OrgMembership : Type 0 where
  pub org_id : ℕ
  pub user_id : ℕ
  pub role : OrgRole
  pub created_at : ℕ

pub record WorkspaceMembership : Type 0 where
  pub org_id : ℕ
  pub workspace_id : ℕ
  pub user_id : ℕ
  pub role : WorkspaceRole

pub record Team : Type 0 where
  pub id : ℕ
  pub org_id : ℕ
  pub name : String

pub record TeamMember : Type 0 where
  pub org_id : ℕ
  pub team_id : ℕ
  pub user_id : ℕ

pub record WorkspaceTeamRole : Type 0 where
  pub org_id : ℕ
  pub workspace_id : ℕ
  pub team_id : ℕ
  pub role : WorkspaceRole

pub record UserIdentity : Type 0 where
  pub issuer : String
  pub subject : String
  pub user_id : ℕ

pub record AuthSession : Type 0 where
  pub id : ℕ
  pub id_hash : ℕ
  pub user_id : ℕ
  pub org_id : Option ℕ
  pub sign_in_method : String
  pub idp_sid : Option String
  pub id_token : Option String
  pub ip_address : Option String
  pub user_agent : Option String
  pub created_at : ℕ
  pub last_seen_at : ℕ
  pub expires_at : ℕ
  pub revoked_at : Option ℕ

pub record LoginFlow : Type 0 where
  pub id_hash : ℕ
  pub state : String
  pub nonce : String
  pub code_verifier : String
  pub method : String
  pub next_path : String
  pub created_at : ℕ

-- The email's progress, `EMAIL_STATUSES`.
pub data EmailStatus : Type 0 where
  not_configured queued sent failed : EmailStatus

pub record Invitation : Type 0 where
  pub id : ℕ
  pub org_id : ℕ
  pub email : String
  pub org_role : OrgRole
  pub workspace_id : Option ℕ
  pub workspace_role : Option WorkspaceRole
  pub invited_by : ℕ
  pub created_at : ℕ
  pub expires_at : ℕ
  pub accepted_at : Option ℕ
  pub accepted_user_id : Option ℕ
  pub revoked_at : Option ℕ
  pub email_status : EmailStatus
  pub email_error : Option String

-- A JSON value of an event's `details`: a text, null, or `{"before": .., "after": ..}`.
pub data Detail : Type 0 where
  text : String → Detail
  null : Detail
  changed : Detail → Detail → Detail

pub record AuditEvent : Type 0 where
  pub id : ℕ
  pub org_id : ℕ
  pub workspace_id : Option ℕ
  pub actor_user_id : Option ℕ
  pub action : String
  pub target_type : String
  pub target_id : ℕ
  pub details : List (String × Detail)
  pub ip_address : Option String
  pub user_agent : Option String
  pub created_at : ℕ

-- The tables whose rows belong to a workspace and keep it from being deleted.
pub data ContentTable : Type 0 where
  sources series datasets series_groups runs : ContentTable

pub record Content : Type 0 where
  pub table : ContentTable
  pub workspace_id : ℕ

-- The tables; `now` is the database's clock in the transaction at hand (`func.now()`), `clock`
-- Python's (`datetime.now(UTC)`), and `drawn` counts the calls of `uuid.uuid4()`.
pub record Db : Type 0 where
  pub workspaces : List Workspace
  pub users : List User
  pub org_memberships : List OrgMembership
  pub workspace_memberships : List WorkspaceMembership
  pub teams : List Team
  pub team_members : List TeamMember
  pub team_roles : List WorkspaceTeamRole
  pub identities : List UserIdentity
  pub sessions : List AuthSession
  pub login_flows : List LoginFlow
  pub invitations : List Invitation
  pub audit_events : List AuditEvent
  pub content : List Content
  pub mail_jobs : List ℕ
  pub now : ℕ
  pub clock : ℕ
  pub drawn : ℕ

-- What the code takes from the machine that it runs on: the values that `uuid.uuid4()` draws, and
-- the time zones that `zoneinfo` knows.
pub record Host : Type 0 where
  pub uuid4 : ℕ → ℕ
  pub known_zone : String → Bool
