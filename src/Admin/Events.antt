-- ===== src/Admin/Events.antt =====
-- Each admin operation against the audit log (api/src/tabayyun/services/admin).
use tabayyun.Prelude.{Bool, true, false, if◌then◌else◌, pure, ℕ, String, Option, none, some, arith}
use tabayyun.Authz.Roles.{OrgRole, WorkspaceRole}
use tabayyun.Db.{Host, Workspace}
use tabayyun.Admin.Audit.{Actor}
use tabayyun.Admin.Log.{Reads, Quiet, Logs, AlwaysLogs, Logged, Quiet-Reads, Reads-pure, log_rules}
use tabayyun.Admin.Teams
use tabayyun.Admin.Teams.{
  get_team, name_free, org_user, drop_team, add_row, drop_row, rename_row, add_team, found,
}
use tabayyun.Admin.Members
use tabayyun.Admin.Members.{get_member, get_member-some, set_role, remove_rows}
use tabayyun.Admin.Workspaces
use tabayyun.Admin.Workspaces.{
  get_workspace, set_fields, drop_workspace, put_grant, put_team_grant, drop_grant, drop_team_grant,
  add_workspace, apply_update,
}

pub Reads-found : {A : Type 0} (o : Option A) → Reads (found o)
Reads-found none = record { keeps = λ db a after e. cc }
Reads-found (some x) = record { keeps = λ db a after e. cc }

pub Reads-get_team : (org_id team_id : ℕ) → Reads (get_team org_id team_id)
unfolding get_team
Reads-get_team org_id team_id = record { keeps = λ db a after e. ground arith }

pub Reads-org_user : (org_id user_id : ℕ) → Reads (org_user org_id user_id)
unfolding org_user
Reads-org_user org_id user_id = record { keeps = λ db a after e. ground arith }

pub Reads-name_free :
    (org_id : ℕ) (name : String) (besides : Option ℕ) → Reads (name_free org_id name besides)
unfolding name_free
Reads-name_free org_id name besides = record { keeps = λ db a after e. ground arith }

pub Reads-workspace_name_free :
    (org_id : ℕ) (name : String) (besides : Option ℕ)
    → Reads (Workspaces.name_free org_id name besides)
unfolding Workspaces.name_free
Reads-workspace_name_free org_id name besides = record { keeps = λ db a after e. ground arith }

pub Reads-get_workspace : (org_id workspace_id : ℕ) → Reads (get_workspace org_id workspace_id)
unfolding get_workspace
Reads-get_workspace org_id workspace_id = record { keeps = λ db a after e. ground arith }

pub Reads-get_member : (org_id user_id : ℕ) → Reads (get_member org_id user_id)
Reads-get_member org_id user_id = record {
  keeps = λ db a after e. (get_member-some org_id user_id db e).1;
}

pub ruleset read_rules = (
  Reads-found, Reads-get_team, Reads-org_user, Reads-name_free, Reads-workspace_name_free,
  Reads-get_workspace, Reads-get_member, Reads-pure,
)

module _ (id other : ℕ) where
  Quiet-set_role : (role : OrgRole) → Quiet (set_role id other role)
  unfolding set_role
  Quiet-set_role role = record { silent = λ db a after e. ground arith }

  Quiet-remove_rows : Quiet (remove_rows id other)
  unfolding remove_rows
  Quiet-remove_rows = record { silent = λ db a after e. ground arith }

  Quiet-drop_row : Quiet (drop_row id other)
  unfolding drop_row
  Quiet-drop_row = record { silent = λ db a after e. ground arith }

  Quiet-add_row : (user : ℕ) → Quiet (add_row id other user)
  unfolding add_row
  Quiet-add_row user = record { silent = λ db a after e. ground arith }

  Quiet-drop_grant : Quiet (drop_grant id other)
  unfolding drop_grant
  Quiet-drop_grant = record { silent = λ db a after e. ground arith }

  Quiet-drop_team_grant : Quiet (drop_team_grant id other)
  unfolding drop_team_grant
  Quiet-drop_team_grant = record { silent = λ db a after e. ground arith }

  Quiet-put_grant : (user : ℕ) (role : WorkspaceRole) → Quiet (put_grant id other user role)
  unfolding put_grant
  Quiet-put_grant user role = record { silent = λ db a after e. ground arith }

  Quiet-put_team_grant :
      (team : ℕ) (role : WorkspaceRole) → Quiet (put_team_grant id other team role)
  unfolding put_team_grant
  Quiet-put_team_grant team role = record { silent = λ db a after e. ground arith }

module _ (id : ℕ) where
  Quiet-drop_team : Quiet (drop_team id)
  unfolding drop_team
  Quiet-drop_team = record { silent = λ db a after e. ground arith }

  Quiet-drop_workspace : Quiet (drop_workspace id)
  unfolding drop_workspace
  Quiet-drop_workspace = record { silent = λ db a after e. ground arith }

  Quiet-rename_row : (name : String) → Quiet (rename_row id name)
  unfolding rename_row
  Quiet-rename_row name = record { silent = λ db a after e. ground arith }

  Quiet-set_fields : (name timezone : String) → Quiet (set_fields id name timezone)
  unfolding set_fields
  Quiet-set_fields name timezone = record { silent = λ db a after e. ground arith }

module _ ⦃host : Host⦄ (org_id : ℕ) (name : String) where
  Quiet-add_team : Quiet (add_team org_id name)
  unfolding add_team
  Quiet-add_team = record { silent = λ db a after e. ground arith }

  Quiet-add_workspace : (timezone : String) → Quiet (add_workspace org_id name timezone)
  unfolding add_workspace
  Quiet-add_workspace timezone = record { silent = λ db a after e. ground arith }

ruleset write_rules = (
  Quiet-set_role, Quiet-remove_rows, Quiet-drop_row, Quiet-add_row, Quiet-drop_grant,
  Quiet-drop_team_grant, Quiet-put_grant, Quiet-put_team_grant, Quiet-drop_team,
  Quiet-drop_workspace, Quiet-rename_row, Quiet-set_fields, Quiet-add_team, Quiet-add_workspace,
)

ruleset event_rules = (log_rules, read_rules, write_rules)

module _ ⦃host : Host⦄ (actor : Actor) where
  pub change_role-Logs :
      (actor_role : OrgRole) (user : ℕ) (new : OrgRole)
      → Logs actor (Members.change_role actor actor_role user new)
  unfolding Members.change_role
  change_role-Logs actor_role user new = search event_rules depth 9

  pub remove_member-Logs :
      (actor_role : OrgRole) (user : ℕ) → Logs actor (Members.remove_member actor actor_role user)
  unfolding Members.remove_member
  remove_member-Logs actor_role user = search event_rules depth 9

  pub create_team-Logs : (name : String) → Logs actor (Teams.create_team actor name)
  unfolding Teams.create_team
  create_team-Logs name = search event_rules depth 9

  pub rename_team-Logs : (team : ℕ) (name : String) → Logs actor (Teams.rename_team actor team name)
  unfolding Teams.rename_team
  rename_team-Logs team name = search event_rules depth 9

  pub delete_team-Logs : (team : ℕ) → Logs actor (Teams.delete_team actor team)
  unfolding Teams.delete_team
  delete_team-Logs team = search event_rules depth 9

  pub add_member-Logs : (team user : ℕ) → Logs actor (Teams.add_member actor team user)
  unfolding Teams.add_member
  add_member-Logs team user = search event_rules depth 9

  pub remove_team_member-Logs : (team user : ℕ) → Logs actor (Teams.remove_member actor team user)
  unfolding Teams.remove_member
  remove_team_member-Logs team user = search event_rules depth 9

  pub create_workspace-Logs :
      (name timezone : String) → Logs actor (Workspaces.create_workspace actor name timezone)
  unfolding Workspaces.create_workspace
  create_workspace-Logs name timezone = search event_rules depth 9

  pub delete_workspace-Logs : (id : ℕ) → Logs actor (Workspaces.delete_workspace actor id)
  unfolding Workspaces.delete_workspace
  delete_workspace-Logs id = search event_rules depth 9

  Reads-if_name :
      (same : Bool) (org_id : ℕ) (name : String) (besides : Option ℕ)
      → Reads (if same then pure tt else Workspaces.name_free org_id name besides)
  Reads-if_name true org_id name besides = search read_rules
  Reads-if_name false org_id name besides = search read_rules

  apply_update-AlwaysLogs :
      (w : Workspace) (name timezone : String)
      → AlwaysLogs actor (apply_update actor w name timezone)
  unfolding apply_update
  apply_update-AlwaysLogs w name timezone = search (event_rules, Quiet-Reads, Reads-if_name) depth 9

  pub update_workspace-Logs :
      (id : ℕ) (name timezone : Option String)
      → Logs actor (Workspaces.update_workspace actor id name timezone)
  unfolding Workspaces.update_workspace
  update_workspace-Logs id name timezone = search (event_rules, apply_update-AlwaysLogs) depth 9

  pub set_member-Logs :
      (id user : ℕ) (role : WorkspaceRole) → Logs actor (Workspaces.set_member actor id user role)
  unfolding Workspaces.set_member Workspaces.place_member
  set_member-Logs id user role = search event_rules depth 9

  pub remove_workspace_member-Logs :
      (id user : ℕ) → Logs actor (Workspaces.remove_member actor id user)
  unfolding Workspaces.remove_member
  remove_workspace_member-Logs id user = search event_rules depth 9

  pub set_team-Logs :
      (id team : ℕ) (role : WorkspaceRole) → Logs actor (Workspaces.set_team actor id team role)
  unfolding Workspaces.set_team
  set_team-Logs id team role = search event_rules depth 9

  pub remove_team-Logs : (id team : ℕ) → Logs actor (Workspaces.remove_team actor id team)
  unfolding Workspaces.remove_team
  remove_team-Logs id team = search event_rules depth 9

pub ruleset operations = (
  change_role-Logs, remove_member-Logs, create_team-Logs, rename_team-Logs, delete_team-Logs,
  add_member-Logs, remove_team_member-Logs, create_workspace-Logs, update_workspace-Logs,
  delete_workspace-Logs, set_member-Logs, remove_workspace_member-Logs, set_team-Logs,
  remove_team-Logs,
)
