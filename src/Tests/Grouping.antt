-- ===== src/Tests/Grouping.antt =====
-- Groups of the workspace 5 with the series 1, 2 and 3.
use tabayyun.Prelude.{
  ℕ, ◌≡◌, refl, ◌↔◌, none, some, String, [], ◌∷◌, ◌++◌, any, delete, Outcome, ok, err, List,
}
use tabayyun.Authz.Roles.{Scope}
use tabayyun.Groups.Members.{Kind, Role, MemberIn, GroupError, invalid, validate_members}
use tabayyun.Groups.Fitting.{IsFitting, validate_members_iff}
use tabayyun.Groups.Store.{
  SeriesGroup, Store, Changes, check_series_exist, is_name_taken, member_rows, replace_members,
  create_group,
}
use tabayyun.Groups.Whole.{AllFit, members_in, create_group-AllFit}

abbrev plant : Scope
plant = record { org_id = 1; workspace_id = 5 }

abbrev bytes : String → ℕ
bytes params = 2

abbrev tank : List MemberIn
tank =
    record { series_id = 1; role = Role.input } ∷ record { series_id = 2; role = Role.output } ∷ []

abbrev tank_with_loss : List MemberIn
tank_with_loss = tank ++ record { series_id = 3; role = Role.output } ∷ []

abbrev empty_store : Store
empty_store = record {
  series =
      record { id = 1; workspace_id = 5 }
      ∷ record { id = 2; workspace_id = 5 }
      ∷ record { id = 3; workspace_id = 5 }
      ∷ [];
  groups = [];
  group_members = [];
}

abbrev made : SeriesGroup
made = record {
  id = 70;
  org_id = 1;
  workspace_id = 5;
  name = "Tank";
  kind = Kind.balance;
  params = "{}";
  created_at = 100;
  updated_at = 100;
}

abbrev store_of : {A : Type 0} → Outcome GroupError (A × Store) → Store
store_of (ok (a, s)) = s
store_of (err e) = empty_store

abbrev with_tank : Store
with_tank = store_of (create_group bytes plant 70 "Tank" Kind.balance tank "{}" 100 empty_store)

abbrev changes : Changes
changes = record { name = some "Tank 1"; members = some tank_with_loss; params = none }

validate_members_iff_example :
    ((validate_members Kind.balance tank ≡ ok tt) ↔ IsFitting Kind.balance tank)
    × ((e : GroupError) → validate_members Kind.balance tank ≡ err e → e ≡ invalid "members")
validate_members_iff_example = validate_members_iff Kind.balance tank

create_group-AllFit_example : AllFit with_tank × (members_in 70 with_tank.group_members ≡ tank)
unfolding create_group any validate_members check_series_exist is_name_taken replace_members
    member_rows delete
create_group-AllFit_example =
    create_group-AllFit bytes plant 70 "Tank" Kind.balance tank "{}" 100 empty_store with_tank made
      refl tt refl

-- A balance with one side only is refused.
one_sided :
    validate_members Kind.balance (
      record { series_id = 1; role = Role.input }
      ∷ record { series_id = 2; role = Role.input }
      ∷ [])
    ≡ err (invalid "members")
unfolding validate_members any
one_sided = refl
