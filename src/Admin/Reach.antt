-- ===== src/Admin/Reach.antt =====
-- Any sequence of admin requests, of any callers (api/src/tabayyun/routers/admin.py).
use native.Mathlib.Nat.{le_trans}
use tabayyun.Prelude.{
  ℕ, ◌+◌, ◌≤◌, ◌≡◌, refl, sym, subst, ==_iff, inl, inr, false, ◌&&◌, ok, >>=-eq-ok, ◌==◌, arith,
  List, [], ◌∷◌, Option, count, count-update_same, count-update_le, count-delete, count-delete_le,
  Bool-cases,
}
use tabayyun.Authz.Roles.{OrgRole}
use tabayyun.Db.{Db, Host, OrgMembership, User}
use tabayyun.Admin.Audit.{Actor}
use tabayyun.Admin.Members.{
  Member, is_membership, is_active_owner, active_owners, with_role, change_role, remove_member,
}
use tabayyun.Admin.Owners.{
  Passed, change_role-Passed, remove_member-Passed, change_role-active_owners,
  remove_member-active_owners,
}
use tabayyun.Admin.Frame.{SamePeople, Frames, frame_rules}
use tabayyun.Admin.Handled.{Reads-org_admin, Reads-org_owner, Reads-workspace_admin}
use tabayyun.Admin.Routes.{Request, org_admin, handle}

-- Each user has one membership in an org, and the org has an active owner.
pub record IsOwned (org_id : ℕ) (db : Db) : Type 0 where
  pub unique : (o u : ℕ) → count (is_membership o u) db.org_memberships ≤ 1
  pub owned : 1 ≤ active_owners db org_id

-- Memberships of another org than the one asked for.
count_elsewhere :
    (users : List User) (org_id o u : ℕ)
    → (org_id == o) ≡ false
    → (ms : List OrgMembership)
    → count (λ m. is_active_owner users org_id m && is_membership o u m) ms ≡ 0
unfolding count
count_elsewhere users org_id o u e [] = refl
count_elsewhere users org_id o u e (m ∷ ms) = ground (arith, count_elsewhere users org_id o u e ms)

SamePeople-IsOwned :
    (org_id : ℕ) {db after : Db} → SamePeople db after → IsOwned org_id db → IsOwned org_id after
unfolding active_owners
SamePeople-IsOwned org_id same inv = record {
  unique = λ o u. rw same.memberships (inv.unique o u);
  owned = rw (same.users, same.memberships) inv.owned;
}

module _ ⦃host : Host⦄ (org_id : ℕ) (actor : Actor) (role : OrgRole) (user : ℕ) (db : Db)
    (inv : IsOwned org_id db) where
  here_owned : org_id ≡ actor.org_id → 1 ≤ active_owners db actor.org_id
  here_owned e = subst (λ o. 1 ≤ active_owners db o) e inv.owned

  here_after :
      (after : Db)
      → org_id ≡ actor.org_id
      → 1 ≤ active_owners after actor.org_id
      → 1 ≤ active_owners after org_id
  here_after after e h = subst (λ o. 1 ≤ active_owners after o) (sym e) h

  elsewhere :
      {rows : List OrgMembership} {new : Option OrgRole} {after : Db}
      → Passed actor role user db new rows after
      → count (is_active_owner db.users org_id) db.org_memberships
        ≤ count (is_active_owner db.users org_id) rows
          + count
              (λ m. is_active_owner db.users org_id m && is_membership actor.org_id user m)
              db.org_memberships
      → (org_id == actor.org_id) ≡ false
      → 1 ≤ active_owners after org_id
  unfolding active_owners
  elsewhere passed h away =
      rw (passed.users, passed.memberships)
        (omega (
          arith,
          h,
          inv.owned,
          count_elsewhere db.users org_id actor.org_id user away db.org_memberships,
        ))

  change_role-IsOwned :
      (new : OrgRole) {m : Member} {after : Db}
      → change_role actor role user new db ≡ ok (m, after)
      → IsOwned org_id after
  change_role-IsOwned new {m} {after} e =
      elim (change_role-Passed actor role user db new m after e) [
        | inl same ↦ rw same inv
        | inr passed ↦ record {
          unique = λ o u. rw passed.memberships (
              rw
                (count-update_same (is_membership o u) (is_membership actor.org_id user)
                  (with_role new) (λ x. refl) db.org_memberships)
                (inv.unique o u));
          owned = elim (Bool-cases (org_id == actor.org_id)) [
            | inl here ↦
                let same = (==_iff org_id actor.org_id).0 here in
                here_after after same (
                  change_role-active_owners actor role user db (inv.unique actor.org_id user)
                    (here_owned same) new e)
            | inr away ↦
                elsewhere passed
                  (count-update_le (is_active_owner db.users org_id)
                    (is_membership actor.org_id user) (with_role new) db.org_memberships)
                  away
          ];
        }
      ]

  remove_member-IsOwned :
      {after : Db} → remove_member actor role user db ≡ ok (tt, after) → IsOwned org_id after
  remove_member-IsOwned {after} e =
      let passed = remove_member-Passed actor role user db after e in
      let rows = is_membership actor.org_id user in
      record {
        unique = λ o u.
            rw passed.memberships
              (le_trans (count-delete_le (is_membership o u) rows _) (inv.unique o u));
        owned = elim (Bool-cases (org_id == actor.org_id)) [
          | inl here ↦
              let same = (==_iff org_id actor.org_id).0 here in
              here_after after same (
                remove_member-active_owners actor role user db (inv.unique actor.org_id user)
                  (here_owned same) e)
          | inr away ↦
              elsewhere passed
                (omega
                  (arith, count-delete (is_active_owner db.users org_id) rows db.org_memberships))
                away
        ];
      }

module _ ⦃host : Host⦄ (org_id : ℕ) where
  change_member_role-IsOwned :
      (actor : Actor) (user : ℕ) (role : OrgRole) (db after : Db)
      → IsOwned org_id db
      → handle actor (Request.change_member_role user role) db ≡ ok (tt, after)
      → IsOwned org_id after
  unfolding handle
  change_member_role-IsOwned actor user role db after inv e =
      let (caller, s, gate, rest) = >>=-eq-ok (org_admin actor) _ db e in
      let (m, t, changed, last) = >>=-eq-ok (change_role actor caller user role) _ s rest in
      let same : s ≡ db = (Reads-org_admin actor).keeps db caller s gate in
      let end : after ≡ t = cc in
      subst (IsOwned org_id) (sym end) (
        change_role-IsOwned org_id actor caller user db inv role
          (subst (λ x. change_role actor caller user role x ≡ ok (m, t)) same changed))

  remove_member_request-IsOwned :
      (actor : Actor) (user : ℕ) (db after : Db)
      → IsOwned org_id db
      → handle actor (Request.remove_member user) db ≡ ok (tt, after)
      → IsOwned org_id after
  unfolding handle
  remove_member_request-IsOwned actor user db after inv e =
      let (caller, s, gate, rest) = >>=-eq-ok (org_admin actor) _ db e in
      let same : s ≡ db = (Reads-org_admin actor).keeps db caller s gate in
      remove_member-IsOwned org_id actor caller user db inv (rw same at rest)

  handle-IsOwned :
      (actor : Actor) (request : Request) (db after : Db)
      → IsOwned org_id db
      → handle actor request db ≡ ok (tt, after)
      → IsOwned org_id after
  unfolding handle
  handle-IsOwned actor (Request.change_member_role user role) db after inv e =
      change_member_role-IsOwned actor user role db after inv e
  handle-IsOwned actor (Request.remove_member user) db after inv e =
      remove_member_request-IsOwned actor user db after inv e
  handle-IsOwned actor request db after inv e =
      SamePeople-IsOwned org_id
        (Frames.keeps {m = handle actor request}
          (search (frame_rules, Reads-org_admin, Reads-org_owner, Reads-workspace_admin) depth 7) db
          tt after e)
        inv

-- One request after another, by any callers; a refused request leaves no step.
pub data Reach ⦃host : Host⦄ (start : Db) : Db → Type 0 where
  here : Reach start start
  next :
      {db after : Db} (actor : Actor) (request : Request)
      → Reach start db
      → handle actor request db ≡ ok (tt, after)
      → Reach start after

-- From a state in which memberships have their primary key and an org has an active owner, no
-- sequence of admin requests, of any callers in any orgs, leads to a state in which it has none.
pub Reach-IsOwned :
    ⦃host : Host⦄ (org_id : ℕ) {start db : Db}
    → IsOwned org_id start
    → Reach start db
    → IsOwned org_id db
Reach-IsOwned org_id inv here = inv
Reach-IsOwned org_id inv (next {db = db} {after = after} actor request r e) =
    handle-IsOwned org_id actor request db after (Reach-IsOwned org_id inv r) e
