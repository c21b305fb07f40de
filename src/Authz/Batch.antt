-- ===== src/Authz/Batch.antt =====
-- `workspace_roles` and `visible_workspaces` against `workspace_role` (authz/policy.py): the answers
-- for all workspaces at once are the answers one by one.
use mathlib.Core.Option
use tabayyun.Prelude.{
  ℕ, ◌≡◌, refl, sym, ◌≤◌, Bool, true, false, ◌&&◌, none, some, List, [], ◌∷◌, ◌++◌, map, arith,
  ◌==◌, if◌then◌else◌, select, first, any, count, sort_by, All, All-sort_by, Option-cases,
  Bool-cases, inl, inr, ==_refl,
}
use tabayyun.Authz.Roles.{OrgRole, WorkspaceRole, Principal, effective_role}
use tabayyun.Authz.Policy.{
  active_member, direct_role, team_rows, values_of, workspace_role, dict_get, with_roles,
  workspace_roles,
}
use tabayyun.Db.{Db, Workspace, WorkspaceMembership, TeamMember, WorkspaceTeamRole}

-- The primary keys of the tables that the policy reads: one row for each key.
pub record HasKeys (db : Db) : Type 0 where
  pub workspace : (id : ℕ) → count (λ w. w.id == id) db.workspaces ≤ 1
  pub grant :
      (workspace_id user_id : ℕ)
      → count (λ m. m.workspace_id == workspace_id && m.user_id == user_id) db.workspace_memberships
        ≤ 1
  pub member :
      (org_id user_id : ℕ)
      → count (λ m. m.org_id == org_id && m.user_id == user_id) db.org_memberships ≤ 1

abbrev keyed : ℕ → List WorkspaceMembership → List (ℕ × WorkspaceRole)
keyed user ms = map (λ m. (m.workspace_id, m.role)) (select (λ m. m.user_id == user) ms)

module _ (user workspace : ℕ) where
  abbrev is_grant : WorkspaceMembership → Bool
  is_grant m = m.workspace_id == workspace && m.user_id == user

  dict_get-absent :
      (ms : List WorkspaceMembership)
      → any is_grant ms ≡ false
      → dict_get workspace (keyed user ms) ≡ none
  unfolding dict_get select any
  dict_get-absent [] h = refl
  dict_get-absent (m ∷ ms) h = ground (arith, dict_get-absent ms)

  absent_of_count :
      (ms : List WorkspaceMembership) → count is_grant ms ≡ 0 → any is_grant ms ≡ false
  unfolding count any
  absent_of_count [] h = refl
  absent_of_count (m ∷ ms) h = ground (arith, absent_of_count ms)

  -- Where the key holds, the last row of a key is its first.
  dict_get-first :
      (ms : List WorkspaceMembership)
      → count is_grant ms ≤ 1
      → dict_get workspace (keyed user ms) ≡ Option.map (λ m. m.role) (first is_grant ms)
  unfolding dict_get select first count
  dict_get-first [] h = refl
  dict_get-first (m ∷ ms) h =
      ground (arith, dict_get-first ms, dict_get-absent ms, absent_of_count ms)

module _ (key : ℕ) where
  pub values_of-repeat :
      (k : ℕ) (v : WorkspaceRole) (ts : List TeamMember) (rest : List (ℕ × WorkspaceRole))
      → values_of key (map (λ _. (k, v)) ts ++ rest)
        ≡ (if k == key then map (λ _. v) ts ++ values_of key rest else values_of key rest)
  unfolding values_of
  values_of-repeat k v [] rest = ground arith
  values_of-repeat k v (t ∷ ts) rest = ground (arith, values_of-repeat k v ts rest)

  pub values_of-team_rows :
      (members : List TeamMember) (user : ℕ) (rs : List WorkspaceTeamRole)
      → values_of key (team_rows members user (select (λ r. r.workspace_id == key) rs))
        ≡ values_of key (team_rows members user rs)
  unfolding team_rows select
  values_of-team_rows members user [] = refl
  values_of-team_rows members user (r ∷ rs) =
      let ts = select (λ t. t.team_id == r.team_id && t.user_id == user) members in
      let here = team_rows members user (select (λ q. q.workspace_id == key) rs) in
      elim (Bool-cases (r.workspace_id == key)) [
        | inl e ↦ rw e (
            cc (
              values_of-team_rows members user rs,
              values_of-repeat r.workspace_id r.role ts here,
              values_of-repeat r.workspace_id r.role ts (team_rows members user rs),
            ))
        | inr e ↦ rw e (
            cc (
              values_of-team_rows members user rs,
              values_of-repeat r.workspace_id r.role ts (team_rows members user rs),
              e,
            ))
      ]

-- The reference: ask for each workspace in turn.
unfoldable pub one_by_one : Db → Principal → List Workspace → List (Workspace × WorkspaceRole)
one_by_one db principal [] = []
one_by_one db principal (w ∷ rest) =
    let others = one_by_one db principal rest in
    elim (workspace_role db principal w.id) [ none ↦ others | some role ↦ (w, role) ∷ others ]

-- Whoever is no active member of the org has no role in any of its workspaces.
pub workspace_role-none :
    (db : Db) (principal : Principal)
    → active_member db principal ≡ none
    → (id : ℕ) → workspace_role db principal id ≡ none
unfolding workspace_role effective_role
workspace_role-none db principal e id = ground arith

module _ (db : Db) (principal : Principal) where
  abbrev in_org : ℕ → Bool
  in_org id = any (λ w. w.id == id && w.org_id == principal.org_id) db.workspaces

  pub team_roles_in : (id : ℕ) → List WorkspaceRole
  team_roles_in id = values_of id (team_rows db.team_members principal.user_id db.team_roles)

  pub workspace_role_in_org :
      (id : ℕ)
      → in_org id ≡ true
      → workspace_role db principal id
        ≡ effective_role
            (active_member db principal)
            (direct_role db principal id)
            (team_roles_in id)
  unfolding workspace_role team_roles_in
  workspace_role_in_org id e =
      rw e (rw (values_of-team_rows id db.team_members principal.user_id db.team_roles))

  role_at :
      (org_role : OrgRole)
      → HasKeys db
      → active_member db principal ≡ some org_role
      → (id : ℕ) → in_org id ≡ true
      → effective_role
          (some org_role)
          (dict_get id (keyed principal.user_id db.workspace_memberships))
          (values_of id (team_rows db.team_members principal.user_id db.team_roles))
        ≡ workspace_role db principal id
  unfolding direct_role team_roles_in
  role_at org_role keys e id h = rw (
    workspace_role_in_org id h,
    e,
    dict_get-first principal.user_id id db.workspace_memberships (keys.grant id principal.user_id),
  )

  with_roles-one_by_one :
      (org_role : OrgRole)
      → HasKeys db
      → active_member db principal ≡ some org_role
      → (ws : List Workspace) → All (λ w. in_org w.id ≡ true) ws
      → with_roles org_role
          (keyed principal.user_id db.workspace_memberships)
          (team_rows db.team_members principal.user_id db.team_roles)
          ws
        ≡ one_by_one db principal ws
  unfolding with_roles one_by_one
  with_roles-one_by_one org_role keys e [] h = refl
  with_roles-one_by_one org_role keys e (w ∷ ws) h =
      ground (arith, role_at org_role keys e w.id h.0, with_roles-one_by_one org_role keys e ws h.1)

  mem_in_org :
      (ws : List Workspace)
      → ((id : ℕ)
          → any (λ w. w.id == id && w.org_id == principal.org_id) ws ≡ true
          → in_org id ≡ true)
      → All (λ w. in_org w.id ≡ true) (select (λ w. w.org_id == principal.org_id) ws)
  unfolding select any
  mem_in_org [] h = tt
  mem_in_org (w ∷ ws) h = elim (Bool-cases (w.org_id == principal.org_id)) [
    | inl e ↦
        rw e (h w.id (ground (arith, ==_refl w.id)), mem_in_org ws (λ id k. h id (ground arith)))
    | inr e ↦ rw e (mem_in_org ws (λ id k. h id (ground arith)))
  ]

one_by_one-none :
    (db : Db) (principal : Principal)
    → active_member db principal ≡ none
    → (ws : List Workspace) → one_by_one db principal ws ≡ []
unfolding one_by_one
one_by_one-none db principal e [] = refl
one_by_one-none db principal e (w ∷ ws) =
    ground (arith, one_by_one-none db principal e ws, workspace_role-none db principal e w.id)

-- With one grant for each workspace and user, the list of a principal's workspaces is their org's
-- workspaces in the order of the database, each with the role that `workspace_role` gives there,
-- without those where it gives none.
pub workspace_roles-one_by_one :
    (by_name : Workspace → Workspace → Bool) (db : Db) (principal : Principal)
    → HasKeys db
    → workspace_roles by_name db principal
      ≡ one_by_one db principal
          (sort_by by_name (select (λ w. w.org_id == principal.org_id) db.workspaces))
unfolding workspace_roles
workspace_roles-one_by_one by_name db principal keys =
    let ws = select (λ w. w.org_id == principal.org_id) db.workspaces in
    elim (Option-cases (active_member db principal)) [
      | inl e ↦ rw (e, workspace_roles) (sym (one_by_one-none db principal e (sort_by by_name ws)))
      | inr (org_role, e) ↦
          rw (e, workspace_roles)
            (with_roles-one_by_one db principal org_role keys e (sort_by by_name ws)
              (All-sort_by by_name _ ws (mem_in_org db principal db.workspaces (λ id k. k))))
    ]
