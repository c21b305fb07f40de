-- ===== src/Authz/Roles.antt =====
-- api/src/tabayyun/authz/roles.py and scope.py
use tabayyun.Prelude.{
  ℕ, String, Bool, true, false, Option, none, some, List, [], ◌∷◌, ◌++◌, ltb, leb, if◌then◌else◌,
}

pub data OrgRole : Type 0 where
  owner admin member : OrgRole

pub data WorkspaceRole : Type 0 where
  viewer editor admin : WorkspaceRole

pub data Action : Type 0 where
  read write manage : Action

abbrev pub action_value : Action → String
action_value read = "read"
action_value write = "write"
action_value manage = "manage"

-- `RANK`
abbrev pub rank : WorkspaceRole → ℕ
rank WorkspaceRole.viewer = 1
rank WorkspaceRole.editor = 2
rank WorkspaceRole.admin = 3

-- `REQUIRED`
abbrev pub required : Action → WorkspaceRole
required read = WorkspaceRole.viewer
required write = WorkspaceRole.editor
required manage = WorkspaceRole.admin

-- `org_role in ORG_ADMINS`
abbrev pub is_org_admin : OrgRole → Bool
is_org_admin OrgRole.owner = true
is_org_admin OrgRole.admin = true
is_org_admin OrgRole.member = false

abbrev pub is_owner : OrgRole → Bool
is_owner OrgRole.owner = true
is_owner _ = false

-- The texts of the `StrEnum` values.
abbrev pub org_role_value : OrgRole → String
org_role_value OrgRole.owner = "owner"
org_role_value OrgRole.admin = "admin"
org_role_value OrgRole.member = "member"

abbrev pub workspace_role_value : WorkspaceRole → String
workspace_role_value WorkspaceRole.viewer = "viewer"
workspace_role_value WorkspaceRole.editor = "editor"
workspace_role_value WorkspaceRole.admin = "admin"

-- `[role for role in (direct, *team_roles) if role is not None]`, and `admin` for an org admin.
abbrev pub prepend : Option WorkspaceRole → List WorkspaceRole → List WorkspaceRole
prepend none roles = roles
prepend (some role) roles = role ∷ roles

unfoldable pub candidates : OrgRole → Option WorkspaceRole → List WorkspaceRole → List WorkspaceRole
candidates org_role direct team_roles =
    let granted = prepend direct team_roles in
    if is_org_admin org_role then granted ++ WorkspaceRole.admin ∷ [] else granted

-- `max(candidates, key=RANK.__getitem__, default=None)`: of equal ranks the first is kept.
unfoldable pub max_from : WorkspaceRole → List WorkspaceRole → WorkspaceRole
max_from best [] = best
max_from best (role ∷ rest) = max_from (if ltb (rank best) (rank role) then role else best) rest

unfoldable pub max_role : List WorkspaceRole → Option WorkspaceRole
max_role [] = none
max_role (role ∷ rest) = some (max_from role rest)

unfoldable pub effective_role :
    Option OrgRole → Option WorkspaceRole → List WorkspaceRole → Option WorkspaceRole
unfolding candidates max_role max_from
effective_role none direct team_roles = none
effective_role (some org_role) direct team_roles = max_role (candidates org_role direct team_roles)

unfoldable pub allows : Option WorkspaceRole → Action → Bool
allows none action = false
allows (some role) action = leb (rank (required action)) (rank role)

-- scope.py
pub record Principal : Type 0 where
  pub user_id : ℕ
  pub org_id : ℕ

pub record Scope : Type 0 where
  pub org_id : ℕ
  pub workspace_id : ℕ
