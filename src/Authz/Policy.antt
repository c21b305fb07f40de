-- ===== src/Authz/Policy.antt =====
-- api/src/tabayyun/authz/policy.py. A query is the selection that its clauses describe, in the order
-- of the rows; a scalar query answers the first row.
use mathlib.Core.Option
use tabayyun.Prelude.{
  ℕ, Bool, ◌&&◌, ◌||◌, Option, none, some, List, [], ◌∷◌, ◌++◌, map, ◌==◌, is_none, if◌then◌else◌,
  select, first, any, sort_by, Outcome, ok, err,
}
use tabayyun.Authz.Roles.{
  OrgRole, WorkspaceRole, Action, Principal, is_org_admin, effective_role, allows,
}
use tabayyun.Db.{Db, Workspace, User, OrgMembership, TeamMember, WorkspaceTeamRole}

pub data AuthzError : Type 0 where
  not_visible forbidden : AuthzError

-- A user that exists and is not disabled.
unfoldable pub is_active : List User → ℕ → Bool
is_active users id = any (λ u. u.id == id && is_none u.disabled_at) users

-- The row of `_active_member`: the principal's membership, joined with their user.
unfoldable pub is_active_member : Db → Principal → OrgMembership → Bool
unfolding is_active
is_active_member db principal m =
    m.org_id == principal.org_id && m.user_id == principal.user_id && is_active db.users m.user_id

unfoldable pub active_member : Db → Principal → Option OrgRole
unfolding is_active_member
active_member db principal =
    Option.map (λ m. m.role) (first (is_active_member db principal) db.org_memberships)

unfoldable pub direct_role : Db → Principal → ℕ → Option WorkspaceRole
direct_role db principal workspace_id =
    Option.map (λ m. m.role)
      (first (λ m. m.workspace_id == workspace_id && m.user_id == principal.user_id)
        db.workspace_memberships)

-- The rows of team roles joined with the principal's team memberships, as (workspace, role).
unfoldable pub team_rows : List TeamMember → ℕ → List WorkspaceTeamRole → List (ℕ × WorkspaceRole)
team_rows members user_id [] = []
team_rows members user_id (r ∷ rest) =
    map (λ _. (r.workspace_id, r.role))
      (select (λ t. t.team_id == r.team_id && t.user_id == user_id) members)
    ++ team_rows members user_id rest

-- The values of the rows with a key, in order.
unfoldable pub values_of : ℕ → List (ℕ × WorkspaceRole) → List WorkspaceRole
values_of key [] = []
values_of key ((k, v) ∷ rest) =
    let others = values_of key rest in if k == key then v ∷ others else others

unfoldable pub workspace_role : Db → Principal → ℕ → Option WorkspaceRole
unfolding active_member direct_role team_rows values_of
workspace_role db principal workspace_id =
    let in_org = any (λ w. w.id == workspace_id && w.org_id == principal.org_id) db.workspaces in
    if in_org
    then effective_role (active_member db principal) (direct_role db principal workspace_id) (
        values_of workspace_id (
          team_rows db.team_members principal.user_id
            (select (λ r. r.workspace_id == workspace_id) db.team_roles)))
    else none

unfoldable pub authorize : Db → Principal → Action → ℕ → Outcome AuthzError WorkspaceRole
unfolding workspace_role allows
authorize db principal action workspace_id = elim (workspace_role db principal workspace_id) [
  | none ↦ err not_visible
  | some role ↦ if allows (some role) action then ok role else err forbidden
]

-- `dict(rows).get(key)`: of rows with one key the last one counts.
unfoldable pub dict_get : ℕ → List (ℕ × WorkspaceRole) → Option WorkspaceRole
dict_get key [] = none
dict_get key ((k, v) ∷ rest) = elim (dict_get key rest) [
  | some w ↦ some w
  | none ↦ if k == key then some v else none
]

-- The loop of `workspace_roles` over the workspaces of the org.
unfoldable pub with_roles :
    OrgRole
    → List (ℕ × WorkspaceRole)
    → List (ℕ × WorkspaceRole)
    → List Workspace
    → List (Workspace × WorkspaceRole)
with_roles org_role direct via_team [] = []
with_roles org_role direct via_team (w ∷ rest) =
    let others = with_roles org_role direct via_team rest in
    elim (effective_role (some org_role) (dict_get w.id direct) (values_of w.id via_team)) [
      | none ↦ others
      | some role ↦ (w, role) ∷ others
    ]

-- `by_name` is the database's order on (`name`, `id`).
unfoldable pub workspace_roles :
    (by_name : Workspace → Workspace → Bool) → Db → Principal → List (Workspace × WorkspaceRole)
unfolding with_roles active_member team_rows
workspace_roles by_name db principal = elim (active_member db principal) [
  | none ↦ []
  | some org_role ↦
      with_roles org_role
        (map (λ m. (m.workspace_id, m.role))
          (select (λ m. m.user_id == principal.user_id) db.workspace_memberships))
        (team_rows db.team_members principal.user_id db.team_roles)
        (sort_by by_name (select (λ w. w.org_id == principal.org_id) db.workspaces))
]

-- The WHERE clause of `visible_workspaces`.
unfoldable pub is_visible : Db → Principal → Workspace → Bool
unfolding is_active_member
is_visible db principal w =
    let member = any (is_active_member db principal) db.org_memberships in
    let org_admin =
      any (λ m. is_active_member db principal m && is_org_admin m.role) db.org_memberships in
    let direct =
      any (λ m. m.workspace_id == w.id && m.user_id == principal.user_id)
        db.workspace_memberships in
    let via_team =
      any
        (λ r.
          r.workspace_id == w.id
          && any (λ t. t.team_id == r.team_id && t.user_id == principal.user_id) db.team_members)
        db.team_roles in
    w.org_id == principal.org_id && member && (org_admin || direct || via_team)

unfoldable pub visible_workspaces : Db → Principal → List ℕ
unfolding is_visible
visible_workspaces db principal = map (λ w. w.id) (select (is_visible db principal) db.workspaces)
