-- ===== src/Tests/Samples.antt =====
-- A small organisation: an owner (10), an admin (11), a member (12) with a grant and a team, and a
-- disabled user (13).
use Prim.Native.Nat.{◌+◌}
use tabayyun.Prelude.{ℕ, Outcome, ok, err, true, Option, none, some, String, [], ◌∷◌}
use tabayyun.Authz.Roles.{OrgRole, WorkspaceRole, Principal}
use tabayyun.Db.{Db, Host, Workspace, User, OrgMembership, AuthSession}
use tabayyun.Admin.Audit.{Actor}

instance abbrev pub machine : Host
machine = record { uuid4 = λ n. n + 100; known_zone = λ z. true }

abbrev pub user : ℕ → String → Option ℕ → User
user id email disabled_at = record {
  id = id;
  email = email;
  display_name = email;
  created_at = 0;
  disabled_at = disabled_at;
}

abbrev pub membership : ℕ → OrgRole → OrgMembership
membership user_id role = record { org_id = 1; user_id = user_id; role = role; created_at = 0 }

abbrev pub workspace : ℕ → String → Workspace
workspace id name = record { id = id; org_id = 1; name = name; timezone = "UTC"; created_at = id }

-- Live at 1_000_000_000 with an idle time of 600_000_000.
abbrev pub session : ℕ → ℕ → ℕ → AuthSession
session id id_hash user_id = record {
  id = id;
  id_hash = id_hash;
  user_id = user_id;
  org_id = some 1;
  sign_in_method = "passkey";
  idp_sid = some "sid";
  id_token = none;
  ip_address = none;
  user_agent = none;
  created_at = 900000000;
  last_seen_at = 900000000;
  expires_at = 9000000000;
  revoked_at = none;
}

abbrev pub sample : Db
sample = record {
  workspaces = workspace 2 "Default" ∷ workspace 5 "Plant" ∷ workspace 6 "Lab" ∷ [];
  users =
      user 10 "owner" none
      ∷ user 11 "admin" none
      ∷ user 12 "member" none
      ∷ user 13 "gone" (some 5)
      ∷ [];
  org_memberships =
      membership 10 OrgRole.owner
      ∷ membership 11 OrgRole.admin
      ∷ membership 12 OrgRole.member
      ∷ membership 13 OrgRole.member
      ∷ [];
  workspace_memberships =
      record { org_id = 1; workspace_id = 5; user_id = 12; role = WorkspaceRole.viewer } ∷ [];
  teams = record { id = 20; org_id = 1; name = "Operators" } ∷ [];
  team_members = record { org_id = 1; team_id = 20; user_id = 12 } ∷ [];
  team_roles =
      record { org_id = 1; workspace_id = 6; team_id = 20; role = WorkspaceRole.editor } ∷ [];
  identities = [];
  sessions = session 30 300 12 ∷ session 31 310 13 ∷ session 32 320 12 ∷ [];
  login_flows = [];
  invitations = [];
  audit_events = [];
  content = [];
  mail_jobs = [];
  now = 1000000000;
  clock = 1000000000;
  drawn = 0;
}

abbrev pub acting : ℕ → Actor
acting user_id = record { user_id = user_id; org_id = 1; ip_address = none; user_agent = none }

abbrev pub principal : ℕ → Principal
principal user_id = record { user_id = user_id; org_id = 1 }

-- The tables after a change that returned.
abbrev pub after_of : {E A : Type 0} → Outcome E (A × Db) → Db
after_of (ok (a, db)) = db
after_of (err e) = sample
