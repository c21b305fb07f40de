-- ===== src/Admin/Frame.antt =====
-- What the admin operations on teams and workspaces leave alone: the people of the orgs
-- (api/src/tabayyun/services/admin/teams.py and workspaces.py).
use tabayyun.Prelude.{
  ℕ, ◌≡◌, ◌∙◌, Bool, true, false, Option, String, List, if◌then◌else◌, arith, ok, ◌>>=◌, >>=-eq-ok,
}
use tabayyun.Authz.Roles.{WorkspaceRole}
use tabayyun.Db.{Db, Host, Detail, Workspace}
use tabayyun.Admin.Errors.{Change}
use tabayyun.Admin.Audit.{Actor, record_event}
use tabayyun.Admin.Log.{Reads, Reads-gets, Reads-lift, Reads-ensure, Reads-pure, Reads-if}
use tabayyun.Admin.Events.{read_rules}
use tabayyun.Admin.Teams
use tabayyun.Admin.Teams.{drop_team, add_row, drop_row, rename_row, add_team}
use tabayyun.Admin.Workspaces
use tabayyun.Admin.Workspaces.{
  set_fields, drop_workspace, put_grant, put_team_grant, drop_grant, drop_team_grant, add_workspace,
  apply_update,
}

pub record SamePeople (db after : Db) : Type 0 where
  pub users : after.users ≡ db.users
  pub memberships : after.org_memberships ≡ db.org_memberships

pub record Frames {A : Type 0} (m : Change A) : Type 0 where
  pub keeps : (db : Db) (a : A) (after : Db) → m db ≡ ok (a, after) → SamePeople db after

pub Frames-Reads : {A : Type 0} (m : Change A) → Reads m → Frames m
Frames-Reads m r = record {
  keeps = λ db a after e. record {
    users = rw (r.keeps db a after e);
    memberships = rw (r.keeps db a after e);
  };
}

Frames-if :
    {A : Type 0} (b : Bool) (m n : Change A) → Frames m → Frames n → Frames (if b then m else n)
Frames-if true m n hm hn = hm
Frames-if false m n hm hn = hn

pub Frames-bind :
    {A B : Type 0} (m : Change A) (f : A → Change B)
    → Frames m
    → ((a : A) → Frames (f a))
    → Frames (m >>= f)
Frames-bind m f hm hf = record {
  keeps = λ db b after e.
      let (a, s, em, ef) = >>=-eq-ok m f db e in
      let first = hm.keeps db a s em in
      let second = (hf a).keeps s b after ef in
      record {
        users = second.users ∙ first.users;
        memberships = second.memberships ∙ first.memberships;
      };
}

module _ ⦃host : Host⦄ (actor : Actor) (action target_type : String) (target_id : ℕ)
    (workspace_id : Option ℕ) (details : List (String × Detail)) where
  Frames-record_event :
      Frames (record_event actor action target_type target_id workspace_id details)
  unfolding record_event
  Frames-record_event = record { keeps = λ db a after e. ground arith }

module _ (id other : ℕ) where
  Frames-drop_row : Frames (drop_row id other)
  unfolding drop_row
  Frames-drop_row = record { keeps = λ db a after e. ground arith }

  Frames-add_row : (user : ℕ) → Frames (add_row id other user)
  unfolding add_row
  Frames-add_row user = record { keeps = λ db a after e. ground arith }

  Frames-drop_grant : Frames (drop_grant id other)
  unfolding drop_grant
  Frames-drop_grant = record { keeps = λ db a after e. ground arith }

  Frames-drop_team_grant : Frames (drop_team_grant id other)
  unfolding drop_team_grant
  Frames-drop_team_grant = record { keeps = λ db a after e. ground arith }

  Frames-put_grant : (user : ℕ) (role : WorkspaceRole) → Frames (put_grant id other user role)
  unfolding put_grant
  Frames-put_grant user role = record { keeps = λ db a after e. ground arith }

  Frames-put_team_grant :
      (team : ℕ) (role : WorkspaceRole) → Frames (put_team_grant id other team role)
  unfolding put_team_grant
  Frames-put_team_grant team role = record { keeps = λ db a after e. ground arith }

module _ (id : ℕ) where
  Frames-drop_team : Frames (drop_team id)
  unfolding drop_team
  Frames-drop_team = record { keeps = λ db a after e. ground arith }

  Frames-drop_workspace : Frames (drop_workspace id)
  unfolding drop_workspace
  Frames-drop_workspace = record { keeps = λ db a after e. ground arith }

  Frames-rename_row : (name : String) → Frames (rename_row id name)
  unfolding rename_row
  Frames-rename_row name = record { keeps = λ db a after e. ground arith }

  Frames-set_fields : (name timezone : String) → Frames (set_fields id name timezone)
  unfolding set_fields
  Frames-set_fields name timezone = record { keeps = λ db a after e. ground arith }

module _ ⦃host : Host⦄ (org_id : ℕ) (name : String) where
  Frames-add_team : Frames (add_team org_id name)
  unfolding add_team
  Frames-add_team = record { keeps = λ db a after e. ground arith }

  Frames-add_workspace : (timezone : String) → Frames (add_workspace org_id name timezone)
  unfolding add_workspace
  Frames-add_workspace timezone = record { keeps = λ db a after e. ground arith }

ruleset frame_steps = (
  read_rules, Reads-gets, Reads-lift, Reads-ensure, Frames-Reads, Frames-if, Frames-bind,
  Frames-record_event, Frames-drop_row, Frames-add_row, Frames-drop_grant, Frames-drop_team_grant,
  Frames-put_grant, Frames-put_team_grant, Frames-drop_team, Frames-drop_workspace,
  Frames-rename_row, Frames-set_fields, Frames-add_team, Frames-add_workspace,
)

module _ ⦃host : Host⦄ (actor : Actor) where
  pub create_team-Frames : (name : String) → Frames (Teams.create_team actor name)
  unfolding Teams.create_team
  create_team-Frames name = search frame_steps depth 9

  pub rename_team-Frames : (team : ℕ) (name : String) → Frames (Teams.rename_team actor team name)
  unfolding Teams.rename_team
  rename_team-Frames team name = search frame_steps depth 9

  pub delete_team-Frames : (team : ℕ) → Frames (Teams.delete_team actor team)
  unfolding Teams.delete_team
  delete_team-Frames team = search frame_steps depth 9

  pub add_member-Frames : (team user : ℕ) → Frames (Teams.add_member actor team user)
  unfolding Teams.add_member
  add_member-Frames team user = search frame_steps depth 9

  pub remove_team_member-Frames : (team user : ℕ) → Frames (Teams.remove_member actor team user)
  unfolding Teams.remove_member
  remove_team_member-Frames team user = search frame_steps depth 11

  pub create_workspace-Frames :
      (name timezone : String) → Frames (Workspaces.create_workspace actor name timezone)
  unfolding Workspaces.create_workspace
  create_workspace-Frames name timezone = search frame_steps depth 9

  apply_update-Frames :
      (w : Workspace) (name timezone : String) → Frames (apply_update actor w name timezone)
  unfolding apply_update
  apply_update-Frames w name timezone = search frame_steps depth 9

  pub update_workspace-Frames :
      (id : ℕ) (name timezone : Option String)
      → Frames (Workspaces.update_workspace actor id name timezone)
  unfolding Workspaces.update_workspace
  update_workspace-Frames id name timezone = search (frame_steps, apply_update-Frames) depth 9

  pub delete_workspace-Frames : (id : ℕ) → Frames (Workspaces.delete_workspace actor id)
  unfolding Workspaces.delete_workspace
  delete_workspace-Frames id = search frame_steps depth 9

  pub set_member-Frames :
      (id user : ℕ) (role : WorkspaceRole) → Frames (Workspaces.set_member actor id user role)
  unfolding Workspaces.set_member Workspaces.place_member
  set_member-Frames id user role = search frame_steps depth 9

  pub remove_workspace_member-Frames :
      (id user : ℕ) → Frames (Workspaces.remove_member actor id user)
  unfolding Workspaces.remove_member
  remove_workspace_member-Frames id user = search frame_steps depth 9

  pub set_team-Frames :
      (id team : ℕ) (role : WorkspaceRole) → Frames (Workspaces.set_team actor id team role)
  unfolding Workspaces.set_team
  set_team-Frames id team role = search frame_steps depth 9

  pub remove_team-Frames : (id team : ℕ) → Frames (Workspaces.remove_team actor id team)
  unfolding Workspaces.remove_team
  remove_team-Frames id team = search frame_steps depth 9

pub ruleset frame_rules = (
  Frames-bind, Frames-Reads, Reads-pure, create_team-Frames, rename_team-Frames, delete_team-Frames,
  add_member-Frames, remove_team_member-Frames, create_workspace-Frames, update_workspace-Frames,
  delete_workspace-Frames, set_member-Frames, remove_workspace_member-Frames, set_team-Frames,
  remove_team-Frames,
)
