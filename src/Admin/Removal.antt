-- ===== src/Admin/Removal.antt =====
-- What removing a member leaves behind (api/src/tabayyun/services/admin/members.py), read through the
-- policy that every route asks (api/src/tabayyun/authz/policy.py).
use mathlib.Core.Option
use tabayyun.Prelude.{
  ℕ, ◌≡◌, refl, ap, false, ◌&&◌, none, some, List, [], ◌∷◌, arith, ◌==◌, any, delete, update, ok,
  >>=-eq-ok, any-delete_self, any-false_of_imp, first-none, first-delete_other,
}
use tabayyun.Authz.Roles.{OrgRole, Principal}
use tabayyun.Authz.Policy.{is_active_member, active_member, workspace_role}
use tabayyun.Authz.Batch.{workspace_role-none}
use tabayyun.Db.{Db, Host, AuthSession}
use tabayyun.Admin.Audit.{Actor, record_event}
use tabayyun.Admin.Members.{
  is_membership, is_open_session, remove_rows, remove_member, get_member, get_member-some,
}

module _ (org_id user_id : ℕ) (now : ℕ) where
  any-revoked :
      (ss : List AuthSession)
      → any
          (is_open_session org_id user_id)
          (update (is_open_session org_id user_id) (λ s. record s { revoked_at = some now }) ss)
        ≡ false
  unfolding any update
  any-revoked [] = refl
  any-revoked (s ∷ ss) = ground (arith, any-revoked ss)

module _ ⦃host : Host⦄ (actor : Actor) (actor_role : OrgRole) (user_id : ℕ) (db : Db) where
  record Removed (after : Db) : Type 0 where
    users : after.users ≡ db.users
    memberships :
        after.org_memberships ≡ delete (is_membership actor.org_id user_id) db.org_memberships
    sessions :
        after.sessions
        ≡ update
            (is_open_session actor.org_id user_id)
            (λ s. record s { revoked_at = some db.now })
            db.sessions

  removed :
      (after : Db) → remove_member actor actor_role user_id db ≡ ok (tt, after) → Removed after
  unfolding remove_member remove_rows record_event
  removed after e =
      let (found, same, read, rest) = >>=-eq-ok (get_member actor.org_id user_id) _ db e in
      let (row, kept) = get_member-some actor.org_id user_id db read in
      record { users = ground arith; memberships = ground arith; sessions = ground arith }

  abbrev gone : Principal
  gone = record { user_id = user_id; org_id = actor.org_id }

  no_membership : {after : Db} → Removed after → active_member after gone ≡ none
  unfolding active_member
  no_membership {after} r =
      let left = is_membership actor.org_id user_id in
      ap (Option.map (λ m. m.role)) (
        first-none (is_active_member after gone) after.org_memberships (
          rw r.memberships (
            any-false_of_imp (is_active_member after gone) left (λ m h. ground arith) _
              (any-delete_self left db.org_memberships))))

  -- A removed member is no active member of the org, has no role in any workspace of it, whatever
  -- teams and grants named them, and holds no session in it that is not revoked.
  pub remove_member-no_access :
      {after : Db}
      → remove_member actor actor_role user_id db ≡ ok (tt, after)
      → (active_member after gone ≡ none)
        × ((workspace_id : ℕ) → workspace_role after gone workspace_id ≡ none)
        × (any (is_open_session actor.org_id user_id) after.sessions ≡ false)
  remove_member-no_access {after} e =
      let r = removed after e in
      let absent = no_membership r in
      (
        absent,
        workspace_role-none after gone absent,
        rw r.sessions (any-revoked actor.org_id user_id db.now db.sessions),
      )

  -- The removal leaves the org role of everybody else, in every org, as it was.
  pub remove_member-others :
      (other : Principal) {after : Db}
      → (other.user_id == user_id && other.org_id == actor.org_id) ≡ false
      → remove_member actor actor_role user_id db ≡ ok (tt, after)
      → active_member after other ≡ active_member db other
  unfolding active_member
  remove_member-others other {after} differs e =
      let r = removed after e in
      let left = is_membership actor.org_id user_id in
      rw (r.users, r.memberships)
        (ap (Option.map (λ m. m.role)) (
          first-delete_other (is_active_member db other) left (λ m h. ground arith)
            db.org_memberships))
