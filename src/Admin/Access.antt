-- ===== src/Admin/Access.antt =====
-- What granting a workspace role gives (api/src/tabayyun/services/admin/workspaces.py), read through the
-- policy that every route asks (api/src/tabayyun/authz/policy.py).

use tabayyun.Prelude.{
  ℕ, ◌≡◌, ap, ◌∙◌, Bool, true, ◌&&◌, some, arith, ◌==◌, is_some, first, any, ok, >>=-eq-ok,
  first-update_self, first-append_new, any_of_first, Option-cases, inl, inr, ==_refl,
}
use tabayyun.Authz.Roles.{OrgRole, WorkspaceRole, Action, Principal, allows}
use tabayyun.Authz.Grants.{allows-effective_role}
use tabayyun.Authz.Policy.{is_active_member, active_member, direct_role, workspace_role}
use tabayyun.Authz.Batch.{workspace_role_in_org, team_roles_in}
use tabayyun.Db.{Db, Host, Workspace, User}
use tabayyun.Admin.Audit.{Actor, record_event}
use tabayyun.Admin.Events.{Reads-get_workspace, Reads-org_user}
use tabayyun.Admin.Frame.{set_member-Frames}
use tabayyun.Admin.Teams.{org_user}
use tabayyun.Admin.Workspaces.{get_workspace, grants, already, put_grant, place_member, set_member}

abbrev pub subject : Actor → ℕ → Principal
subject actor user_id = record { user_id = user_id; org_id = actor.org_id }

module _ ⦃host : Host⦄ (actor : Actor) (workspace_id user_id : ℕ) (role : WorkspaceRole)
    (db : Db) where
  record Granted (after : Db) : Type 0 where
    workspaces : after.workspaces ≡ db.workspaces
    users : after.users ≡ db.users
    memberships : after.org_memberships ≡ db.org_memberships
    direct : direct_role after (subject actor user_id) workspace_id ≡ some role
    in_org : any (λ w. w.id == workspace_id && w.org_id == actor.org_id) db.workspaces ≡ true

  same_role_eq : (old : WorkspaceRole) → already (some old) role ≡ true → old ≡ role
  same_role_eq old e = ground arith

  in_org_of :
      (s t : Db) (w : Workspace)
      → get_workspace actor.org_id workspace_id s ≡ ok (w, t)
      → any (λ v. v.id == workspace_id && v.org_id == actor.org_id) s.workspaces ≡ true
  unfolding get_workspace
  in_org_of s t w e =
      let p : Workspace → Bool = λ v. v.org_id == actor.org_id && v.id == workspace_id in
      elim (Option-cases (first p s.workspaces)) [
        | inl absent ↦ absurd (ground arith)
        | inr (v, there) ↦ any_of_first p _ (λ x h. ground arith) s.workspaces v there
      ]

  place_member_lem :
      (w : Workspace) (u : User) (after : Db)
      → place_member actor w u workspace_id user_id role db ≡ ok (tt, after)
      → (after.workspaces ≡ db.workspaces)
        × (direct_role after (subject actor user_id) workspace_id ≡ some role)
  unfolding place_member record_event put_grant direct_role
  place_member_lem w u after e =
      let p = grants workspace_id user_id in
      let ms = db.workspace_memberships in
      elim (Option-cases (first p ms)) [
        | inl absent ↦ ground (
          arith,
          first-append_new p ms
              (record {
                org_id = actor.org_id;
                workspace_id = workspace_id;
                user_id = user_id;
                role = role;
              })
              absent (ground (arith, ==_refl workspace_id, ==_refl user_id)),
        )
        | inr (m, there) ↦ ground (
          arith,
          same_role_eq m.role,
          first-update_self p (λ m. record m { role = role }) (λ x h. h) ms m there,
        )
      ]

  granted :
      (after : Db) → set_member actor workspace_id user_id role db ≡ ok (tt, after) → Granted after
  unfolding set_member
  granted after e =
      let (w, s, ew, r) = >>=-eq-ok (get_workspace actor.org_id workspace_id) _ db e in
      let (u, t, eu, rest) = >>=-eq-ok (org_user actor.org_id user_id) _ s r in
      let same =
        (Reads-org_user actor.org_id user_id).keeps s u t eu
        ∙ (Reads-get_workspace actor.org_id workspace_id).keeps db w s ew in
      let people = (set_member-Frames actor workspace_id user_id role).keeps db tt after e in
      let placed = place_member_lem w u after (rw same at rest) in
      record {
        workspaces = placed.0;
        users = people.users;
        memberships = people.memberships;
        direct = placed.1;
        in_org = in_org_of db s w ew;
      }

  -- Setting a person's workspace role, where it succeeds, gives an active member of the org every
  -- action that the role allows in that workspace, through whichever of their roles is the highest.
  pub set_member-allows :
      (after : Db) (org_role : OrgRole) (action : Action)
      → set_member actor workspace_id user_id role db ≡ ok (tt, after)
      → active_member db (subject actor user_id) ≡ some org_role
      → allows (some role) action ≡ true
      → allows (workspace_role after (subject actor user_id) workspace_id) action ≡ true
  unfolding active_member is_active_member
  set_member-allows after org_role action e member allowed =
      let g = granted after e in
      let who = subject actor user_id in
      let still : active_member after who ≡ some org_role = rw (g.users, g.memberships) member in
      let here = workspace_role_in_org after who workspace_id (rw g.workspaces g.in_org) in
      ground (
        arith,
        ap (λ r. allows r action) here,
        allows-effective_role (active_member after who) (direct_role after who workspace_id)
            (team_roles_in after who workspace_id) action,
        ap (λ r. allows r action) g.direct,
        ap is_some still,
      )
