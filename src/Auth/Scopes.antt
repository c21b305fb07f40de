-- ===== src/Auth/Scopes.antt =====
-- Where a request acts (`get_workspace_id` and `require` of api/src/tabayyun/authz/deps.py).

use tabayyun.Prelude.{
  ℕ, ◌≡◌, refl, sym, ap, subst, strip, ◌∙◌, Bool, true, ◌&&◌, some, List, [], ◌∷◌, ◌==◌, ==_refl,
  arith, Outcome, ok, select, any, sort_by, insert_by, Bool-cases, Option-cases, inl, inr,
  any-sort_by,
}
use tabayyun.Authz.Roles.{Action, Principal, Scope, allows}
use tabayyun.Authz.Policy.{is_visible, workspace_role, authorize}
use tabayyun.Db.{Db, Workspace, default_workspace_id}
use tabayyun.Auth.Handlers.{World, HttpError, ◌>>=◌, >>=-eq-ok}
use tabayyun.Auth.Request.{
  Settings, Request, get_principal, preferred, first_id, fallback_workspace, get_workspace_id,
  authorized, require,
}

abbrev pub is_default : Workspace → Bool
is_default w = w.id == default_workspace_id

default_in_front :
    (w : Workspace) (ws : List Workspace)
    → is_default w ≡ true
    → first_id (insert_by preferred w ws) ≡ default_workspace_id
unfolding insert_by
default_in_front w [] h = ground arith
default_in_front w (v ∷ ws) h = ground arith

default_stays :
    (w : Workspace) (ws : List Workspace)
    → any is_default ws ≡ true
    → first_id ws ≡ default_workspace_id
    → first_id (insert_by preferred w ws) ≡ default_workspace_id
unfolding insert_by any
default_stays w [] h k = absurd (cc)
default_stays w (v ∷ ws) h k = ground arith

first_id-sort_by :
    (ws : List Workspace)
    → any is_default ws ≡ true
    → first_id (sort_by preferred ws) ≡ default_workspace_id
unfolding any sort_by
first_id-sort_by [] h = refl
first_id-sort_by (w ∷ ws) h = elim (Bool-cases (is_default w)) [
  | inl e ↦ default_in_front w (sort_by preferred ws) e
  | inr e ↦
      let rest : any is_default ws ≡ true = ground arith in
      default_stays w (sort_by preferred ws) (any-sort_by preferred is_default ws ∙ rest)
        (first_id-sort_by ws rest)
]

any-select :
    (p q : Workspace → Bool) (ws : List Workspace) → any q (select p ws) ≡ any (λ w. p w && q w) ws
unfolding any select
any-select p q [] = refl
any-select p q (w ∷ ws) = elim (Bool-cases (p w)) [
  | inl e ↦ rw e (ground (arith, any-select p q ws))
  | inr e ↦ rw e (ground (arith, any-select p q ws))
]

any-true : (p : Workspace → Bool) (ws : List Workspace) → any (λ w. p w && true) ws ≡ any p ws
unfolding any
any-true p [] = refl
any-true p (w ∷ ws) = ground (arith, any-true p ws)

first_id-any :
    (ws : List Workspace) → any (λ w. true) ws ≡ true → any (λ w. w.id == first_id ws) ws ≡ true
unfolding any
first_id-any [] h = h
first_id-any (w ∷ ws) h = ground (arith, ==_refl w.id)

module _ (principal : Principal) (db : Db) where
  -- Without a header a request acts in the default workspace where the principal sees it, and in some
  -- workspace that they see where they see any.
  pub fallback_workspace-visible :
      ((any (λ w. is_visible db principal w && is_default w) db.workspaces ≡ true)
        → fallback_workspace principal db ≡ default_workspace_id)
      × (any (is_visible db principal) db.workspaces ≡ true
          → any
              (λ w. is_visible db principal w && w.id == fallback_workspace principal db)
              db.workspaces
            ≡ true)
  unfolding fallback_workspace
  fallback_workspace-visible =
      let p = is_visible db principal in
      let mine = select p db.workspaces in
      (
        λ h. first_id-sort_by mine (any-select p is_default db.workspaces ∙ h),
        λ h.
            let here = first_id-any (sort_by preferred mine) (
              any-sort_by preferred (λ w. true) mine
              ∙ any-select p (λ w. true) db.workspaces
              ∙ any-true p db.workspaces
              ∙ h) in
            sym (any-select p _ db.workspaces) ∙ sym (any-sort_by preferred _ mine) ∙ here,
      )

ok_injective : (a b : Scope) (r : Outcome HttpError Scope) → r ≡ ok a → r ≡ ok b → b ≡ a
ok_injective a b r e h = cc

authorized-allows :
    (action : Action) (principal : Principal) (workspace_id : ℕ) (w : World) (scope : Scope)
    → (authorized action principal workspace_id w).0 ≡ ok scope
    → (scope ≡ record { org_id = principal.org_id; workspace_id = workspace_id })
      × (allows (workspace_role w.db principal workspace_id) action ≡ true)
unfolding authorized authorize
authorized-allows action principal workspace_id w scope e =
    elim (Option-cases (workspace_role w.db principal workspace_id)) [
      | inl absent ↦ absurd (cc (rw (absent, authorized, authorize) at e))
      | inr (r, there) ↦ elim (Bool-cases (allows (some r) action)) [
        | inl fine ↦ (
          ok_injective _ scope _ refl
              (rw (fine, authorized, authorize) at (rw (there, authorized, authorize) at e)),
          rw there fine,
        )
        | inr refused ↦
            absurd
              (cc (rw (refused, authorized, authorize) at (rw (there, authorized, authorize) at e)))
      ]
    ]

get_workspace_id-keeps :
    (settings : Settings) (request : Request) (principal : Principal) (w : World)
    → (get_workspace_id settings request principal w).1 ≡ w
unfolding get_workspace_id
get_workspace_id-keeps settings request principal w = elim (Option-cases request.workspace_header) [
  | inl absent ↦ rw (absent, get_workspace_id) refl
  | inr (named, there) ↦ elim (Option-cases (settings.parse_uuid (strip named))) [
    | inl bad ↦ rw (there, get_workspace_id) (rw (bad, get_workspace_id) refl)
    | inr (id, good) ↦ rw (there, get_workspace_id) (rw (good, get_workspace_id) refl)
  ]
]

module _ (settings : Settings) (request : Request) (action : Action) (w : World)
    (scope : Scope) where
  -- A request that gets a scope for an action acts for a principal in their org, and the role that the
  -- policy gives them in the workspace of the scope allows the action.
  pub require-allows :
      (require settings request action w).0 ≡ ok scope
      → (principal : Principal) × ((get_principal settings request w).0 ≡ ok principal)
        × (scope.org_id ≡ principal.org_id)
        × (allows
              (workspace_role (get_principal settings request w).1.db principal scope.workspace_id)
              action
            ≡ true)
  unfolding require
  require-allows e =
      let (principal, who, rest) =
        >>=-eq-ok (get_principal settings request)
          (λ p. get_workspace_id settings request p >>= authorized action p) w e in
      let w' = (get_principal settings request w).1 in
      let (id, there, last) =
        >>=-eq-ok (get_workspace_id settings request principal) (authorized action principal) w'
          rest in
      let (made, allowed) = authorized-allows action principal id w' scope (
        subst (λ v. (authorized action principal id v).0 ≡ ok scope)
          (get_workspace_id-keeps settings request principal w') last) in
      (
        principal,
        who,
        ap (λ s. s.org_id) made,
        subst (λ s. allows (workspace_role w'.db principal s.workspace_id) action ≡ true) (sym made)
            allowed,
      )
