-- ===== src/Admin/Routes.antt =====
-- The routes of api/src/tabayyun/routers/admin.py that change something, each behind its gate. The
-- session check, the passkey gate and the write limit in front of the router stand in Auth and Rates.

use tabayyun.Prelude.{ℕ, Option, none, some, String, if◌then◌else◌, Outcome, ok, err, ◌>>=◌, pure}
use tabayyun.Authz.Roles.{OrgRole, WorkspaceRole, manage, Principal, is_org_admin, is_owner}
use tabayyun.Authz.Policy.{AuthzError, not_visible, authorize}
use tabayyun.Db.{Host}
use tabayyun.Admin.Errors.{AdminError, not_found, forbidden, Change}
use tabayyun.Admin.Audit.{Actor}
use tabayyun.Admin.Members
use tabayyun.Admin.Members.{org_role}
use tabayyun.Admin.Teams
use tabayyun.Admin.Workspaces

pub data Request : Type 0 where
  change_member_role : (user_id : ℕ) (role : OrgRole) → Request
  remove_member : (user_id : ℕ) → Request
  create_team : (name : String) → Request
  rename_team : (team_id : ℕ) (name : String) → Request
  delete_team : (team_id : ℕ) → Request
  add_team_member remove_team_member : (team_id user_id : ℕ) → Request
  create_workspace : (name timezone : String) → Request
  update_workspace : (workspace_id : ℕ) (name timezone : Option String) → Request
  delete_workspace : (workspace_id : ℕ) → Request
  set_workspace_member : (workspace_id user_id : ℕ) (role : WorkspaceRole) → Request
  remove_workspace_member : (workspace_id user_id : ℕ) → Request
  set_workspace_team : (workspace_id team_id : ℕ) (role : WorkspaceRole) → Request
  remove_workspace_team : (workspace_id team_id : ℕ) → Request

abbrev pub principal_of : Actor → Principal
principal_of actor = record { user_id = actor.user_id; org_id = actor.org_id }

-- `admin`, then `org_admin`: the caller's org role, if it is owner or admin.
unfoldable pub org_admin : Actor → Change OrgRole
unfolding org_role
org_admin actor db = elim (org_role db (principal_of actor)) [
  | none ↦ err forbidden
  | some role ↦ if is_org_admin role then ok (role, db) else err forbidden
]

unfoldable pub org_owner : Actor → Change OrgRole
unfolding org_role
org_owner actor db = elim (org_role db (principal_of actor)) [
  | none ↦ err forbidden
  | some role ↦ if is_owner role then ok (role, db) else err forbidden
]

abbrev pub gate_of : Outcome AuthzError WorkspaceRole → Outcome AdminError WorkspaceRole
gate_of (ok role) = ok role
gate_of (err not_visible) = err not_found
gate_of (err AuthzError.forbidden) = err forbidden

unfoldable pub workspace_admin : Actor → ℕ → Change WorkspaceRole
unfolding authorize
workspace_admin actor workspace_id db =
    elim (gate_of (authorize db (principal_of actor) manage workspace_id)) [
      | ok role ↦ ok (role, db)
      | err e ↦ err e
    ]

abbrev pub done : {A : Type 0} → Change A → Change (Unit {0})
done m = m >>= λ _. pure tt

module _ ⦃host : Host⦄ where
  unfoldable pub handle : Actor → Request → Change (Unit {0})
  handle actor (change_member_role user_id role) = do
    caller ← org_admin actor
    done (Members.change_role actor caller user_id role)
  handle actor (remove_member user_id) = do
    caller ← org_admin actor
    Members.remove_member actor caller user_id
  handle actor (create_team name) = do caller ← org_admin actor; done (Teams.create_team actor name)
  handle actor (rename_team team_id name) = do
    caller ← org_admin actor
    done (Teams.rename_team actor team_id name)
  handle actor (delete_team team_id) = do caller ← org_admin actor; Teams.delete_team actor team_id
  handle actor (add_team_member team_id user_id) = do
    caller ← org_admin actor
    Teams.add_member actor team_id user_id
  handle actor (remove_team_member team_id user_id) = do
    caller ← org_admin actor
    Teams.remove_member actor team_id user_id
  handle actor (create_workspace name timezone) = do
    caller ← org_admin actor
    done (Workspaces.create_workspace actor name timezone)
  handle actor (update_workspace workspace_id name timezone) = do
    caller ← workspace_admin actor workspace_id
    done (Workspaces.update_workspace actor workspace_id name timezone)
  handle actor (delete_workspace workspace_id) = do
    caller ← org_owner actor
    Workspaces.delete_workspace actor workspace_id
  handle actor (set_workspace_member workspace_id user_id role) = do
    caller ← workspace_admin actor workspace_id
    Workspaces.set_member actor workspace_id user_id role
  handle actor (remove_workspace_member workspace_id user_id) = do
    caller ← workspace_admin actor workspace_id
    Workspaces.remove_member actor workspace_id user_id
  handle actor (set_workspace_team workspace_id team_id role) = do
    caller ← workspace_admin actor workspace_id
    Workspaces.set_team actor workspace_id team_id role
  handle actor (remove_workspace_team workspace_id team_id) = do
    caller ← workspace_admin actor workspace_id
    Workspaces.remove_team actor workspace_id team_id
