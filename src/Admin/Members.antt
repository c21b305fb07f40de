-- ===== src/Admin/Members.antt =====
-- api/src/tabayyun/services/admin/members.py
use mathlib.Core.Option
use tabayyun.Prelude.{
  ℕ, ◌≡◌, Bool, true, false, ◌&&◌, not, Option, none, some, String, List, [], ◌∷◌, ◌==◌, is_none,
  is_some, if◌then◌else◌, first, find_map, count, update, delete, ok, err, pure, lift, gets, modify,
  ◌>>=◌, ◌>>◌, arith,
}
use tabayyun.Authz.Roles.{OrgRole, owner, admin, member, Principal, is_owner, org_role_value}
use tabayyun.Authz.Policy.{is_active, active_member}
use tabayyun.Db.{Db, Host, User, OrgMembership, AuthSession, text, bootstrap_user_id}
use tabayyun.Admin.Errors.{not_found, Change}
use tabayyun.Admin.Audit.{Actor, change, record_event}
use tabayyun.Admin.Rules.{check_role_change}

pub record Member : Type 0 where
  pub user_id : ℕ
  pub email : String
  pub display_name : String
  pub role : OrgRole
  pub joined_at : ℕ
  pub disabled : Bool

-- `_member`
abbrev pub member_of : OrgMembership → User → Member
member_of m u = record {
  user_id = u.id;
  email = u.email;
  display_name = u.display_name;
  role = m.role;
  joined_at = m.created_at;
  disabled = is_some u.disabled_at;
}

abbrev pub same_role : OrgRole → OrgRole → Bool
same_role owner owner = true
same_role admin admin = true
same_role member member = true
same_role _ _ = false

-- `org_role`
unfoldable pub org_role : Db → Principal → Option OrgRole
unfolding active_member
org_role db principal = active_member db principal

-- The condition on a membership of an org and a user.
abbrev pub is_membership : ℕ → ℕ → OrgMembership → Bool
is_membership org_id user_id m = m.org_id == org_id && m.user_id == user_id

-- The membership joined with its user, as a `Member`.
unfoldable pub member_row : Db → ℕ → ℕ → Option Member
member_row db org_id user_id =
    find_map
      (λ m.
        if is_membership org_id user_id m
        then Option.map (member_of m) (first (λ u. u.id == m.user_id) db.users)
        else none)
      db.org_memberships

unfoldable pub get_member : ℕ → ℕ → Change Member
get_member org_id user_id db =
    if user_id == bootstrap_user_id
    then err not_found
    else elim (member_row db org_id user_id) [ none ↦ err not_found | some m ↦ ok (m, db) ]

-- A row that `active_owners` counts.
abbrev pub is_active_owner : List User → ℕ → OrgMembership → Bool
is_active_owner users org_id m =
    m.org_id == org_id
    && is_owner m.role
    && not (m.user_id == bootstrap_user_id)
    && is_active users m.user_id

unfoldable pub active_owners : Db → ℕ → ℕ
active_owners db org_id = count (is_active_owner db.users org_id) db.org_memberships

abbrev pub with_role : OrgRole → OrgMembership → OrgMembership
with_role role m = record m { role = role }

-- Who is found is found in the table, and the table is left as it is.
pub get_member-some :
    (org_id user_id : ℕ) (db : Db) {m : Member} {after : Db}
    → get_member org_id user_id db ≡ ok (m, after)
    → (member_row db org_id user_id ≡ some m) × (after ≡ db)
unfolding get_member
get_member-some org_id user_id db e = ground arith

unfoldable pub set_role : ℕ → ℕ → OrgRole → Change (Unit {0})
set_role org_id user_id role = modify λ db. record db {
  org_memberships = update (is_membership org_id user_id) (with_role role) db.org_memberships;
}

-- A session of the user in the org that is not revoked.
abbrev pub is_open_session : ℕ → ℕ → AuthSession → Bool
is_open_session org_id user_id s =
    s.user_id == user_id
    && elim s.org_id [ none ↦ false | some o ↦ o == org_id ]
    && is_none s.revoked_at

-- The statements of `remove_member` between the check and the event.
unfoldable pub remove_rows : ℕ → ℕ → Change (Unit {0})
remove_rows org_id user_id = modify λ db. record db {
  workspace_memberships =
      delete (λ m. m.org_id == org_id && m.user_id == user_id) db.workspace_memberships;
  team_members = delete (λ t. t.org_id == org_id && t.user_id == user_id) db.team_members;
  org_memberships = delete (is_membership org_id user_id) db.org_memberships;
  sessions =
      update (is_open_session org_id user_id) (λ s. record s { revoked_at = some db.now })
        db.sessions;
}

module _ ⦃host : Host⦄ where
  unfoldable pub change_role : Actor → OrgRole → ℕ → OrgRole → Change Member
  change_role actor actor_role user_id new = do
    m ← get_member actor.org_id user_id
    if same_role m.role new then pure m else do
      owners ← gets (λ db. active_owners db actor.org_id)
      lift (check_role_change actor_role m.role (some new) owners)
      set_role actor.org_id user_id new
      record_event actor "member.role_changed" "user" user_id none (
          ("email", text m.email)
          ∷ change (text (org_role_value m.role)) (text (org_role_value new)))
      pure (record m { role = new })

  unfoldable pub remove_member : Actor → OrgRole → ℕ → Change (Unit {0})
  remove_member actor actor_role user_id = do
    m ← get_member actor.org_id user_id
    owners ← gets (λ db. active_owners db actor.org_id)
    lift (check_role_change actor_role m.role none owners)
    remove_rows actor.org_id user_id
    record_event actor "member.removed" "user" user_id none
        (("email", text m.email) ∷ ("role", text (org_role_value m.role)) ∷ [])
