-- ===== src/Authz/Grants.antt =====
-- What the effective role allows, grant by grant (api/src/tabayyun/authz/roles.py).
use tabayyun.Prelude.{
  ℕ, ◌≡◌, refl, ◌∙◌, Bool, true, false, ◌&&◌, ◌||◌, Option, none, some, List, [], ◌∷◌, arith, leb,
  is_some, any, any-append,
}
use tabayyun.Authz.Roles.{
  OrgRole, WorkspaceRole, Action, rank, required, is_org_admin, candidates, max_from, max_role,
  effective_role, allows, prepend,
}

abbrev pub any_org_admin : Option OrgRole → Bool
any_org_admin none = false
any_org_admin (some org_role) = is_org_admin org_role

-- A level that the greatest role reaches is reached by some role, and the other way round.
reaches-max_from :
    (level : ℕ) (best : WorkspaceRole) (rest : List WorkspaceRole)
    → leb level (rank (max_from best rest))
      ≡ (leb level (rank best) || any (λ r. leb level (rank r)) rest)
unfolding max_from any
reaches-max_from level best [] = ground arith
reaches-max_from level best (role ∷ rest) =
    ground (arith, reaches-max_from level role rest, reaches-max_from level best rest)

allows-max_role :
    (roles : List WorkspaceRole) (action : Action)
    → allows (max_role roles) action ≡ any (λ r. allows (some r) action) roles
unfolding allows max_role any
allows-max_role [] action = refl
allows-max_role (role ∷ rest) action = reaches-max_from (rank (required action)) role rest

allows-admin : (action : Action) → allows (some WorkspaceRole.admin) action ≡ true
unfolding allows
allows-admin Action.read = refl
allows-admin Action.write = refl
allows-admin Action.manage = refl

any-candidates :
    (action : Action) (org_role : OrgRole) (direct : Option WorkspaceRole)
    (team_roles : List WorkspaceRole)
    → any (λ r. allows (some r) action) (candidates org_role direct team_roles) ≡ (
        allows direct action
        || any (λ r. allows (some r) action) team_roles
        || is_org_admin org_role)
unfolding candidates any allows
any-candidates action org_role direct team_roles = ground (
  arith,
  allows-admin action,
  any-append (λ r. allows (some r) action) (prepend direct team_roles) (WorkspaceRole.admin ∷ []),
)

-- An org member may do what their direct role, the role of one of their teams, or an org role of
-- owner or admin allows, and nothing else; who has no org role may do nothing.
pub allows-effective_role :
    (org_role : Option OrgRole) (direct : Option WorkspaceRole) (team_roles : List WorkspaceRole)
    (action : Action)
    → allows (effective_role org_role direct team_roles) action ≡ (
        is_some org_role
        && (allows direct action
            || any (λ r. allows (some r) action) team_roles
            || any_org_admin org_role))
unfolding effective_role
allows-effective_role none direct team_roles action = unfold allows in refl
allows-effective_role (some o) direct team_roles action =
    allows-max_role (candidates o direct team_roles) action
    ∙ any-candidates action o direct team_roles
