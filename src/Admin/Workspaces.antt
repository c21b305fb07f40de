-- ===== src/Admin/Workspaces.antt =====
-- api/src/tabayyun/services/admin/workspaces.py
use mathlib.Core.Option
use Prim.Native.Nat.{◌+◌}
use tabayyun.Prelude.{
  ℕ, Bool, true, false, ◌&&◌, not, Option, none, some, String, List, [], ◌∷◌, ◌++◌, ◌==◌, str_eq,
  is_some, if◌then◌else◌, first, any, update, delete, Outcome, ok, err, pure, lift, gets, modify,
  ensure, ◌>>=◌, ◌>>◌,
}
use tabayyun.Authz.Roles.{WorkspaceRole, viewer, editor, admin, workspace_role_value}
use tabayyun.Db.{
  Host, Workspace, User, WorkspaceMembership, WorkspaceTeamRole, Detail, text, null, changed,
  default_workspace_id,
}
use tabayyun.Admin.Errors.{AdminError, conflict, Change}
use tabayyun.Admin.Audit.{Actor, change, record_event}
use tabayyun.Admin.Names.{clean_name, clean_timezone}
use tabayyun.Admin.Teams.{found, is_other, get_team, org_user}

unfoldable pub get_workspace : ℕ → ℕ → Change Workspace
get_workspace org_id workspace_id db =
    found (first (λ w. w.org_id == org_id && w.id == workspace_id) db.workspaces) db

abbrev pub workspace_named : ℕ → String → Workspace → Bool
workspace_named org_id name w = w.org_id == org_id && str_eq w.name name

abbrev pub workspace_id_of : Option Workspace → Option ℕ
workspace_id_of none = none
workspace_id_of (some w) = some w.id

unfoldable pub name_free : ℕ → String → Option ℕ → Change (Unit {0})
name_free org_id name besides db =
    if is_other (workspace_id_of (first (workspace_named org_id name) db.workspaces)) besides
    then err (conflict "name_taken")
    else ok (tt, db)

-- `clean(value)` where a value is given, else what there was.
abbrev pub cleaned_or :
    (String → Outcome AdminError String) → Option String → String → Outcome AdminError String
cleaned_or clean none before = ok before
cleaned_or clean (some value) before = clean value

-- `{k: change(before[k], after[k]) for k in before if before[k] != after[k]}`
abbrev pub changed_field : String → String → String → List (String × Detail)
changed_field key before after =
    if str_eq before after then [] else (key, changed (text before) (text after)) ∷ []

unfoldable pub set_fields : ℕ → String → String → Change (Unit {0})
set_fields id name timezone = modify λ db. record db {
  workspaces =
      update (λ w. w.id == id) (λ w. record w { name = name; timezone = timezone }) db.workspaces;
}

-- `session.delete(workspace)` and the cascades of its foreign keys (db/models.py).
unfoldable pub drop_workspace : ℕ → Change (Unit {0})
drop_workspace id = modify λ db. record db {
  workspaces = delete (λ w. w.id == id) db.workspaces;
  workspace_memberships = delete (λ m. m.workspace_id == id) db.workspace_memberships;
  team_roles = delete (λ r. r.workspace_id == id) db.team_roles;
  invitations =
      delete (λ i. elim i.workspace_id [ none ↦ false | some w ↦ w == id ]) db.invitations;
}

abbrev pub grants : ℕ → ℕ → WorkspaceMembership → Bool
grants workspace_id user_id m = m.workspace_id == workspace_id && m.user_id == user_id

abbrev pub grants_team : ℕ → ℕ → WorkspaceTeamRole → Bool
grants_team workspace_id team_id r = r.workspace_id == workspace_id && r.team_id == team_id

abbrev pub same_workspace_role : WorkspaceRole → WorkspaceRole → Bool
same_workspace_role viewer viewer = true
same_workspace_role editor editor = true
same_workspace_role admin admin = true
same_workspace_role _ _ = false

-- `grant is not None and grant.role == role.value`
abbrev pub already : Option WorkspaceRole → WorkspaceRole → Bool
already none role = false
already (some old) role = same_workspace_role old role

abbrev pub role_detail : Option WorkspaceRole → Detail
role_detail none = null
role_detail (some role) = text (workspace_role_value role)

-- A row added where there is none, else the row with the new role.
unfoldable pub put_grant : ℕ → ℕ → ℕ → WorkspaceRole → Change (Unit {0})
put_grant org_id workspace_id user_id role = modify λ db. record db {
  workspace_memberships =
      if is_some (first (grants workspace_id user_id) db.workspace_memberships)
      then update (grants workspace_id user_id) (λ m. record m { role = role })
          db.workspace_memberships
      else db.workspace_memberships
        ++ record { org_id = org_id; workspace_id = workspace_id; user_id = user_id; role = role }
          ∷ [];
}

unfoldable pub put_team_grant : ℕ → ℕ → ℕ → WorkspaceRole → Change (Unit {0})
put_team_grant org_id workspace_id team_id role = modify λ db. record db {
  team_roles =
      if is_some (first (grants_team workspace_id team_id) db.team_roles)
      then update (grants_team workspace_id team_id) (λ r. record r { role = role }) db.team_roles
      else db.team_roles
        ++ record { org_id = org_id; workspace_id = workspace_id; team_id = team_id; role = role }
          ∷ [];
}

unfoldable pub drop_grant : ℕ → ℕ → Change (Unit {0})
drop_grant workspace_id user_id = modify λ db. record db {
  workspace_memberships = delete (grants workspace_id user_id) db.workspace_memberships;
}

unfoldable pub drop_team_grant : ℕ → ℕ → Change (Unit {0})
drop_team_grant workspace_id team_id =
    modify λ db. record db { team_roles = delete (grants_team workspace_id team_id) db.team_roles }

module _ ⦃host : Host⦄ where
  unfoldable pub add_workspace : ℕ → String → String → Change Workspace
  add_workspace org_id name timezone db =
      let w : Workspace = record {
        id = host.uuid4 db.drawn;
        org_id = org_id;
        name = name;
        timezone = timezone;
        created_at = db.now;
      } in
      ok (w, record db { workspaces = db.workspaces ++ w ∷ []; drawn = db.drawn + 1 })

  unfoldable pub create_workspace : Actor → String → String → Change Workspace
  create_workspace actor name timezone = do
    cleaned ← lift (clean_name name)
    tz ← lift (clean_timezone host.known_zone timezone)
    name_free actor.org_id cleaned none
    w ← add_workspace actor.org_id cleaned tz
    record_event actor "workspace.created" "workspace" w.id (some w.id)
        (("name", text cleaned) ∷ ("timezone", text tz) ∷ [])
    pure w

  -- The part behind the test for a change.
  unfoldable pub apply_update : Actor → Workspace → String → String → Change Workspace
  apply_update actor w name timezone = do
    if str_eq name w.name then pure tt else name_free actor.org_id name (some w.id)
    set_fields w.id name timezone
    record_event actor "workspace.updated" "workspace" w.id (some w.id)
        (changed_field "name" w.name name ++ changed_field "timezone" w.timezone timezone)
    pure (record w { name = name; timezone = timezone })

  unfoldable pub update_workspace : Actor → ℕ → Option String → Option String → Change Workspace
  update_workspace actor workspace_id name timezone = do
    w ← get_workspace actor.org_id workspace_id
    name' ← lift (cleaned_or clean_name name w.name)
    timezone' ← lift (cleaned_or (clean_timezone host.known_zone) timezone w.timezone)
    if str_eq name' w.name && str_eq timezone' w.timezone
        then pure w
        else apply_update actor w name' timezone'

  unfoldable pub delete_workspace : Actor → ℕ → Change (Unit {0})
  delete_workspace actor workspace_id = do
    w ← get_workspace actor.org_id workspace_id
    ensure (not (w.id == default_workspace_id)) (conflict "default_workspace")
    filled ← gets (λ db. any (λ c. c.workspace_id == w.id) db.content)
    ensure (not filled) (conflict "workspace_not_empty")
    drop_workspace w.id
    record_event actor "workspace.deleted" "workspace" workspace_id (some workspace_id)
        (("name", text w.name) ∷ [])

  -- The part behind the two look-ups.
  unfoldable pub place_member : Actor → Workspace → User → ℕ → ℕ → WorkspaceRole → Change (Unit {0})
  place_member actor w user workspace_id user_id role = do
    before ← gets (λ db.
        Option.map (λ m. m.role) (first (grants workspace_id user_id) db.workspace_memberships))
    if already before role then pure tt else do
      put_grant actor.org_id workspace_id user_id role
      record_event actor "workspace.member_set" "user" user_id (some workspace_id) (
          ("workspace", text w.name)
          ∷ ("email", text user.email)
          ∷ change (role_detail before) (text (workspace_role_value role)))

  unfoldable pub set_member : Actor → ℕ → ℕ → WorkspaceRole → Change (Unit {0})
  set_member actor workspace_id user_id role = do
    w ← get_workspace actor.org_id workspace_id
    user ← org_user actor.org_id user_id
    place_member actor w user workspace_id user_id role

  unfoldable pub remove_member : Actor → ℕ → ℕ → Change (Unit {0})
  remove_member actor workspace_id user_id = do
    w ← get_workspace actor.org_id workspace_id
    row ← gets (λ db. first (grants workspace_id user_id) db.workspace_memberships)
    grant ← found row
    user ← gets (λ db. first (λ u. u.id == user_id) db.users)
    drop_grant workspace_id user_id
    record_event actor "workspace.member_removed" "user" user_id (some workspace_id) (
        ("workspace", text w.name)
        ∷ ("email", elim user [ none ↦ null | some u ↦ text u.email ])
        ∷ ("role", text (workspace_role_value grant.role))
        ∷ [])

  unfoldable pub set_team : Actor → ℕ → ℕ → WorkspaceRole → Change (Unit {0})
  set_team actor workspace_id team_id role = do
    w ← get_workspace actor.org_id workspace_id
    team ← get_team actor.org_id team_id
    before ←
        gets
          (λ db. Option.map (λ r. r.role) (first (grants_team workspace_id team_id) db.team_roles))
    if already before role then pure tt else do
      put_team_grant actor.org_id workspace_id team_id role
      record_event actor "workspace.team_set" "team" team_id (some workspace_id) (
          ("workspace", text w.name)
          ∷ ("team", text team.name)
          ∷ change (role_detail before) (text (workspace_role_value role)))

  unfoldable pub remove_team : Actor → ℕ → ℕ → Change (Unit {0})
  remove_team actor workspace_id team_id = do
    w ← get_workspace actor.org_id workspace_id
    team ← get_team actor.org_id team_id
    row ← gets (λ db. first (grants_team workspace_id team_id) db.team_roles)
    grant ← found row
    drop_team_grant workspace_id team_id
    record_event actor "workspace.team_removed" "team" team_id (some workspace_id) (
        ("workspace", text w.name)
        ∷ ("team", text team.name)
        ∷ ("role", text (workspace_role_value grant.role))
        ∷ [])
