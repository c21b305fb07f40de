-- ===== src/Admin/Owners.antt =====
-- The last owner (api/src/tabayyun/services/admin/rules.py and members.py): no change of a role and
-- no removal leaves an org without an active owner.
use mathlib.Core.Option
use native.Mathlib.Nat.{le_trans}
use tabayyun.Prelude.{
  ℕ, ◌≤◌, ◌<◌, ◌≡◌, ◌↔◌, ◌⊎◌, refl, Bool, true, false, ◌&&◌, ◌||◌, Option, none, some, List, [],
  ◌∷◌, arith, ◌==◌, if◌then◌else◌, first, find_map, count, update, delete, ok, >>=-eq-ok, inl, inr,
  Bool-cases, count-update_le, count-update_ge, count-delete, count-and_zero, count_and_le,
}
use tabayyun.Authz.Roles.{OrgRole, is_owner, is_org_admin}
use tabayyun.Db.{Db, Host, User, OrgMembership}
use tabayyun.Admin.Audit.{Actor, record_event}
use tabayyun.Admin.Rules.{check_role_change, becomes_owner}
use tabayyun.Admin.Members.{
  Member, member_of, is_membership, member_row, is_active_owner, active_owners, with_role,
  same_role, change_role, remove_member, get_member, get_member-some, set_role, remove_rows,
}

module _ (users : List User) (org_id user_id : ℕ) where
  abbrev join_row : OrgMembership → Option Member
  join_row m =
      if is_membership org_id user_id m
      then Option.map (member_of m) (first (λ u. u.id == m.user_id) users)
      else none

  abbrev here : OrgMembership → Bool
  here = is_membership org_id user_id

  no_member : (ms : List OrgMembership) → count here ms ≡ 0 → find_map join_row ms ≡ none
  unfolding count find_map
  no_member [] h = refl
  no_member (m ∷ ms) h = ground (arith, no_member ms)

  -- If the membership at a key is no owner's, no active owner stands at that key.
  no_owner_here :
      (ms : List OrgMembership) (found : Member)
      → count here ms ≤ 1
      → find_map join_row ms ≡ some found
      → is_owner found.role ≡ false
      → count (λ m. is_active_owner users org_id m && here m) ms ≡ 0
  unfolding count find_map
  no_owner_here [] found u e h = refl
  no_owner_here (m ∷ ms) found u e h = ground (
    arith,
    no_owner_here ms found,
    no_member ms,
    count-and_zero (is_active_owner users org_id) here ms,
  )

  stays_owner :
      (new : OrgRole)
      → is_owner new ≡ true
      → (m : OrgMembership) → is_active_owner users org_id m ≡ true
      → is_active_owner users org_id (with_role new m) ≡ true
  stays_owner new e m h = ground arith

-- The rule lets a change through exactly if the actor is an admin or an owner, an owner where the
-- role `owner` is given or taken, and where an owner loses that role another active one is counted.
pub check_role_change_iff :
    (actor target : OrgRole) (new : Option OrgRole) (owners : ℕ)
    → (check_role_change actor target new owners ≡ ok tt) ↔ (
        (is_org_admin actor ≡ true)
        × ((is_owner target || becomes_owner new) ≡ true → is_owner actor ≡ true)
        × (is_owner target ≡ true → becomes_owner new ≡ false → 1 < owners))
unfolding check_role_change
check_role_change_iff actor target new owners = (λ h. ground arith, λ h. ground arith)

module _ ⦃host : Host⦄ (actor : Actor) (actor_role : OrgRole) (user_id : ℕ) (db : Db) where
  abbrev pub at_key : OrgMembership → Bool
  at_key = is_membership actor.org_id user_id

  -- What a change that returned has found, and the tables that decide who owns the org.
  pub record Passed (new : Option OrgRole) (rows : List OrgMembership) (after : Db) : Type 0 where
    pub found : Member
    pub row : member_row db actor.org_id user_id ≡ some found
    pub allowed :
        check_role_change actor_role found.role new (active_owners db actor.org_id) ≡ ok tt
    pub users : after.users ≡ db.users
    pub memberships : after.org_memberships ≡ rows

  pub change_role-Passed :
      (new : OrgRole) (m : Member) (after : Db)
      → change_role actor actor_role user_id new db ≡ ok (m, after)
      → (after ≡ db) ⊎ Passed (some new) (update at_key (with_role new) db.org_memberships) after
  unfolding change_role set_role record_event
  change_role-Passed new m after e =
      let (found, same, read, rest) = >>=-eq-ok (get_member actor.org_id user_id) _ db e in
      let (row, kept) = get_member-some actor.org_id user_id db read in
      elim (Bool-cases (same_role found.role new)) [
        | inl same ↦ inl (ground arith)
        | inr other ↦ inr (record {
          found = found;
          row = row;
          allowed = ground arith;
          users = ground arith;
          memberships = ground arith;
        })
      ]

  pub remove_member-Passed :
      (after : Db)
      → remove_member actor actor_role user_id db ≡ ok (tt, after)
      → Passed none (delete at_key db.org_memberships) after
  unfolding remove_member remove_rows record_event
  remove_member-Passed after e =
      let (found, same, read, rest) = >>=-eq-ok (get_member actor.org_id user_id) _ db e in
      let (row, kept) = get_member-some actor.org_id user_id db read in
      record {
        found = found;
        row = row;
        allowed = ground arith;
        users = ground arith;
        memberships = ground arith;
      }

  module _ (unique : count at_key db.org_memberships ≤ 1)
      (owned : 1 ≤ active_owners db actor.org_id) where
    abbrev counted : OrgMembership → Bool
    counted = is_active_owner db.users actor.org_id

    -- The owners that the change can take away are fewer than there are.
    spared :
        (new : Option OrgRole) (found : Member)
        → member_row db actor.org_id user_id ≡ some found
        → check_role_change actor_role found.role new (active_owners db actor.org_id) ≡ ok tt
        → becomes_owner new ≡ false
        → count (λ m. counted m && at_key m) db.org_memberships < count counted db.org_memberships
    unfolding active_owners check_role_change member_row
    spared new found row allowed e = ground (
      arith,
      no_owner_here db.users actor.org_id user_id db.org_memberships found,
      count_and_le counted at_key db.org_memberships,
    )

    -- Where memberships have their primary key, an org with an active owner has one after any
    -- change of a member's role that is let through.
    pub change_role-active_owners :
        (new : OrgRole) {m : Member} {after : Db}
        → change_role actor actor_role user_id new db ≡ ok (m, after)
        → 1 ≤ active_owners after actor.org_id
    change_role-active_owners new {m} {after} e = elim (change_role-Passed new m after e) [
      | inl same ↦ rw same owned
      | inr passed ↦
          unfold active_owners in
          rw (passed.users, passed.memberships)
            (elim (Bool-cases (is_owner new)) [
              | inl up ↦ le_trans owned (
                  count-update_ge counted at_key (with_role new)
                    (stays_owner db.users actor.org_id user_id new up) db.org_memberships)
              | inr down ↦ omega (
                arith,
                spared (some new) passed.found passed.row passed.allowed down,
                count-update_le counted at_key (with_role new) db.org_memberships,
              )
            ])
    ]

    -- Under the same conditions the org has an active owner after any removal of a member that is
    -- let through.
    pub remove_member-active_owners :
        {after : Db}
        → remove_member actor actor_role user_id db ≡ ok (tt, after)
        → 1 ≤ active_owners after actor.org_id
    remove_member-active_owners {after} e =
        let passed = remove_member-Passed after e in
        unfold active_owners in
        rw (passed.users, passed.memberships)
          (omega (
            arith,
            spared none passed.found passed.row passed.allowed refl,
            count-delete counted at_key db.org_memberships,
          ))
