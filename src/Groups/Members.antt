-- ===== src/Groups/Members.antt =====
-- The rules on the members of a group (api/src/tabayyun/services/groups.py).
use tabayyun.Prelude.{
  ℕ, Bool, true, false, ◌&&◌, ◌||◌, not, String, List, [], ◌∷◌, ◌==◌, if◌then◌else◌, leb, length,
  any, Outcome, ok, err,
}

-- `GROUP_KINDS`
pub data Kind : Type 0 where
  related redundant balance : Kind

-- `MEMBER_ROLES`
pub data Role : Type 0 where
  member input output : Role

-- `GroupError` with its field, and `GroupNameTakenError`.
pub data GroupError : Type 0 where
  invalid : (field : String) → GroupError
  name_taken : GroupError

pub record MemberIn : Type 0 where
  pub series_id : ℕ
  pub role : Role

abbrev pub min_members : ℕ
min_members = 2

abbrev pub max_members : ℕ
max_members = 32

abbrev pub is_role : Role → Role → Bool
is_role member member = true
is_role input input = true
is_role output output = true
is_role _ _ = false

-- Whether the loop over the members meets one that it has seen.
unfoldable pub listed_twice : (seen : List ℕ) → List MemberIn → Bool
listed_twice seen [] = false
listed_twice seen (m ∷ ms) =
    let later = listed_twice (m.series_id ∷ seen) ms in
    if any (λ s. s == m.series_id) seen then true else later

-- The tests on the roles.
unfoldable pub validate_roles : Kind → List MemberIn → Outcome GroupError (Unit {0})
validate_roles Kind.balance members =
    if any (λ m. is_role Role.member m.role) members
    then err (invalid "members")
    else if not (any (λ m. is_role Role.input m.role) members)
        || not (any (λ m. is_role Role.output m.role) members)
    then err (invalid "members")
    else ok tt
validate_roles _ members =
    if any (λ m. not (is_role Role.member m.role)) members then err (invalid "members") else ok tt

unfoldable pub validate_members : Kind → List MemberIn → Outcome GroupError (Unit {0})
unfolding listed_twice validate_roles
validate_members kind members =
    if not (leb min_members (length members) && leb (length members) max_members)
    then err (invalid "members")
    else if listed_twice [] members
    then err (invalid "members")
    else validate_roles kind members
