-- ===== src/Authz/Visible.antt =====
-- `visible_workspaces` against `workspace_role` (api/src/tabayyun/authz/policy.py): what a principal
-- may list is what they hold a role in.
use mathlib.Core.Option
use native.Mathlib.Nat.{le_trans}
use tabayyun.Prelude.{
  ℕ, ◌≡◌, refl, ap, ◌≤◌, Bool, true, ◌&&◌, ◌||◌, Option, none, some, List, [], ◌∷◌, ◌++◌, map,
  arith, ◌==◌, is_some, select, first, any, count, All, is_some-first, Option-cases, Bool-cases,
  inl, inr, ==_refl, any_and_first, select_ext, count_le_of_imp,
}
use tabayyun.Authz.Roles.{
  OrgRole, WorkspaceRole, Principal, is_org_admin, effective_role, max_role, candidates,
}
use tabayyun.Authz.Policy.{
  is_active_member, direct_role, team_rows, values_of, workspace_role, is_visible,
  visible_workspaces,
}
use tabayyun.Authz.Batch.{HasKeys, values_of-repeat, values_of-team_rows, workspace_role-none}
use tabayyun.Db.{Db, Workspace, TeamMember, WorkspaceTeamRole}

any-map-select {ℓ} :
    {A : Type ℓ} (p : A → Bool) (v : WorkspaceRole) (ts : List A) (rest : List WorkspaceRole)
    → any (λ r. true) (map (λ _. v) (select p ts) ++ rest) ≡ (any p ts || any (λ r. true) rest)
unfolding any select
any-map-select p v [] rest = refl
any-map-select p v (t ∷ ts) rest = ground (arith, any-map-select p v ts rest)

module _ (members : List TeamMember) (user id : ℕ) where
  abbrev via_team : WorkspaceTeamRole → Bool
  via_team r =
      r.workspace_id == id && any (λ t. t.team_id == r.team_id && t.user_id == user) members

  any-team_rows :
      (rs : List WorkspaceTeamRole)
      → any (λ r. true) (values_of id (team_rows members user rs)) ≡ any via_team rs
  unfolding any team_rows values_of
  any-team_rows [] = refl
  any-team_rows (r ∷ rs) =
      let ts = select (λ t. t.team_id == r.team_id && t.user_id == user) members in
      ground (
        arith,
        any-team_rows rs,
        values_of-repeat id r.workspace_id r.role ts (team_rows members user rs),
        any-map-select (λ t. t.team_id == r.team_id && t.user_id == user) r.role members
            (values_of id (team_rows members user rs)),
      )

is_some-effective_role :
    (o : OrgRole) (direct : Option WorkspaceRole) (team_roles : List WorkspaceRole)
    → is_some (effective_role (some o) direct team_roles)
      ≡ (is_org_admin o || is_some direct || any (λ r. true) team_roles)
unfolding effective_role candidates max_role any
is_some-effective_role o none [] = ground arith
is_some-effective_role o none (r ∷ rs) = ground arith
is_some-effective_role o (some r) rs = ground arith

module _ (db : Db) (principal : Principal) (keys : HasKeys db) where
  member_count : count (is_active_member db principal) db.org_memberships ≤ 1
  unfolding is_active_member
  member_count =
      le_trans
        (count_le_of_imp _ (λ m. m.org_id == principal.org_id && m.user_id == principal.user_id)
          (λ m h. ground arith) db.org_memberships)
        (keys.member principal.org_id principal.user_id)

  abbrev team_roles_in : ℕ → List WorkspaceRole
  team_roles_in id = values_of id (
      team_rows db.team_members principal.user_id
        (select (λ r. r.workspace_id == id) db.team_roles))

  holds_team_role :
      (id : ℕ)
      → any (λ r. true) (team_roles_in id)
        ≡ any (via_team db.team_members principal.user_id id) db.team_roles
  holds_team_role id =
      rw (values_of-team_rows id db.team_members principal.user_id db.team_roles)
        (any-team_rows db.team_members principal.user_id id db.team_roles)

  visible_at :
      (w : Workspace)
      → (w.org_id == principal.org_id) ≡ true
      → any (λ v. v.id == w.id && v.org_id == principal.org_id) db.workspaces ≡ true
      → is_visible db principal w ≡ is_some (workspace_role db principal w.id)
  unfolding is_visible workspace_role
  visible_at w here in_org =
      let p = is_active_member db principal in
      elim (Option-cases (first p db.org_memberships)) [
        | inl e ↦ ground (
          arith,
          is_some-first p db.org_memberships,
          workspace_role-none db principal (ap (Option.map (λ m. m.role)) e) w.id,
        )
        | inr (m, e) ↦ ground (
          arith,
          is_some-first p db.org_memberships,
          any_and_first p (λ m. is_org_admin m.role) db.org_memberships member_count,
          is_some-first (λ m. m.workspace_id == w.id && m.user_id == principal.user_id)
              db.workspace_memberships,
          holds_team_role w.id,
          is_some-effective_role m.role (direct_role db principal w.id) (team_roles_in w.id),
        )
      ]

  visible_at_row :
      (w : Workspace)
      → ((w.org_id == principal.org_id) ≡ true
          → any (λ v. v.id == w.id && v.org_id == principal.org_id) db.workspaces ≡ true)
      → is_visible db principal w
        ≡ (w.org_id == principal.org_id && is_some (workspace_role db principal w.id))
  visible_at_row w in_org = elim (Bool-cases (w.org_id == principal.org_id)) [
    | inl here ↦ rw here (visible_at w here (in_org here))
    | inr away ↦ unfold is_visible in rw away
  ]

  visible_rows :
      (ws : List Workspace)
      → ((id : ℕ)
          → any (λ v. v.id == id && v.org_id == principal.org_id) ws ≡ true
          → any (λ v. v.id == id && v.org_id == principal.org_id) db.workspaces ≡ true)
      → All
          (λ w.
            is_visible db principal w
            ≡ (w.org_id == principal.org_id && is_some (workspace_role db principal w.id)))
          ws
  unfolding any
  visible_rows [] h = tt
  visible_rows (w ∷ ws) h = (
    visible_at_row w (λ here. h w.id (ground (arith, ==_refl w.id))),
    visible_rows ws (λ id k. h id (ground arith)),
  )

-- With the tables' primary keys, the workspaces that a principal sees are those of their org in
-- which `workspace_role` gives them a role.
pub visible_workspaces-workspace_role :
    (db : Db) (principal : Principal)
    → HasKeys db
    → visible_workspaces db principal
      ≡ map
          (λ w. w.id)
          (select
            (λ w. w.org_id == principal.org_id && is_some (workspace_role db principal w.id))
            db.workspaces)
unfolding visible_workspaces
visible_workspaces-workspace_role db principal keys =
    ap (map (λ w. w.id))
      (select_ext _ _ db.workspaces (visible_rows db principal keys db.workspaces (λ id k. k)))
