-- ===== src/Tests/People.antt =====
-- Who may do what, and the administration of people, at the sample.

use tabayyun.Prelude.{
  ℕ, ◌≡◌, refl, Bool, true, false, ◌&&◌, ◌||◌, none, some, [], ◌∷◌, ◌==◌, is_some, arith, select,
  first, any, count, map, sort_by, find_map, update, delete,
}
use tabayyun.Authz.Roles.{OrgRole, WorkspaceRole, Action, allows, effective_role}
use tabayyun.Authz.Grants.{allows-effective_role, any_org_admin}
use tabayyun.Authz.Policy.{
  is_active, is_active_member, active_member, workspace_role, visible_workspaces, workspace_roles,
}
use tabayyun.Authz.Batch.{HasKeys, one_by_one, workspace_roles-one_by_one}
use tabayyun.Authz.Visible.{visible_workspaces-workspace_role}
use tabayyun.Db.{Db, Workspace}
use tabayyun.Admin.Audit.{record_event, event, clipped_agent}
use tabayyun.Admin.Rules.{check_role_change}
use tabayyun.Admin.Members.{
  member_row, get_member, active_owners, remove_rows, change_role, remove_member, is_open_session,
  org_role,
}
use tabayyun.Admin.Removal.{remove_member-no_access}
use tabayyun.Admin.Workspaces.{get_workspace, put_grant, place_member, set_member}
use tabayyun.Admin.Teams.{org_user}
use tabayyun.Admin.Routes.{Request, org_admin, handle}
use tabayyun.Admin.Log.{Logged}
use tabayyun.Admin.Handled.{handle-Logged}
use tabayyun.Admin.Reach.{IsOwned, Reach, next, Reach-IsOwned}
use tabayyun.Admin.Access.{subject, set_member-allows}
use tabayyun.Tests.Samples.{machine, sample, acting, principal, after_of}

keys : HasKeys sample
unfolding count
keys = record {
  workspace = λ id. ground arith;
  grant = λ w u. ground arith;
  member = λ o u. ground arith;
}

by_id : Workspace → Workspace → Bool
by_id a b = true

visible_workspaces-workspace_role_example :
    visible_workspaces sample (principal 12)
    ≡ map
        (λ w. w.id)
        (select
          (λ w. w.org_id == 1 && is_some (workspace_role sample (principal 12) w.id))
          sample.workspaces)
visible_workspaces-workspace_role_example =
    visible_workspaces-workspace_role sample (principal 12) keys

workspace_roles-one_by_one_example :
    workspace_roles by_id sample (principal 12)
    ≡ one_by_one sample
        (principal 12)
        (sort_by by_id (select (λ w. w.org_id == 1) sample.workspaces))
workspace_roles-one_by_one_example = workspace_roles-one_by_one by_id sample (principal 12) keys

-- The member sees the workspace of their grant and that of their team.
visible_two : visible_workspaces sample (principal 12) ≡ 5 ∷ 6 ∷ []
unfolding visible_workspaces select any
visible_two = refl

allows-effective_role_example :
    allows
      (effective_role (some OrgRole.member) (some WorkspaceRole.viewer) (WorkspaceRole.editor ∷ []))
      Action.write
    ≡ (is_some (some OrgRole.member)
        && (allows (some WorkspaceRole.viewer) Action.write
            || any (λ r. allows (some r) Action.write) (WorkspaceRole.editor ∷ [])
            || any_org_admin (some OrgRole.member)))
allows-effective_role_example =
    allows-effective_role (some OrgRole.member) (some WorkspaceRole.viewer)
      (WorkspaceRole.editor ∷ []) Action.write

abbrev promoted : Db
promoted = after_of (change_role (acting 10) OrgRole.owner 11 OrgRole.member sample)

abbrev left : Db
left = after_of (remove_member (acting 10) OrgRole.owner 12 sample)

remove_member-no_access_example :
    (active_member left (principal 12) ≡ none)
    × ((workspace_id : ℕ) → workspace_role left (principal 12) workspace_id ≡ none)
    × (any (is_open_session 1 12) left.sessions ≡ false)
unfolding remove_member count active_owners is_active any get_member member_row find_map first
    remove_rows update delete record_event event clipped_agent check_role_change
remove_member-no_access_example = remove_member-no_access (acting 10) OrgRole.owner 12 sample refl

abbrev removal : Request
removal = Request.remove_member 12

abbrev handled : Db
handled = after_of (handle (acting 10) removal sample)

handle-Logged_example : Logged (acting 10) sample handled
unfolding handle org_admin org_role active_member is_active_member remove_member count active_owners
    is_active any get_member member_row find_map first remove_rows update delete record_event event
    clipped_agent check_role_change
handle-Logged_example = handle-Logged (acting 10) removal sample handled refl

sample-IsOwned : IsOwned 1 sample
unfolding count active_owners is_active any
sample-IsOwned = record { unique = λ o u. ground arith; owned = ground arith }

one_step : Reach sample handled
unfolding handle org_admin org_role active_member is_active_member remove_member count active_owners
    is_active any get_member member_row find_map first remove_rows update delete record_event event
    clipped_agent check_role_change
one_step = next (acting 10) removal Reach.here refl

Reach-IsOwned_example : IsOwned 1 handled
Reach-IsOwned_example = Reach-IsOwned 1 sample-IsOwned one_step

abbrev promoted_member : Db
promoted_member = after_of (set_member (acting 11) 5 12 WorkspaceRole.editor sample)

set_member-allows_example :
    allows (workspace_role promoted_member (subject (acting 11) 12) 5) Action.write ≡ true
unfolding set_member place_member get_workspace org_user put_grant record_event event clipped_agent
    first update active_member is_active_member is_active any allows
set_member-allows_example =
    set_member-allows (acting 11) 5 12 WorkspaceRole.editor sample promoted_member OrgRole.member
      Action.write refl refl refl
