-- ===== src/Groups/Store.antt =====
-- Groups and their rows (api/src/tabayyun/services/groups.py, tables of api/src/tabayyun/db/models.py).
-- `json_bytes` is how long params are as compact JSON in UTF-8.
use Prim.Native.Nat.{◌+◌}
use tabayyun.Prelude.{
  ℕ, Bool, true, false, ◌&&◌, not, Option, none, some, String, List, [], ◌∷◌, ◌++◌, ◌==◌, str_eq,
  if◌then◌else◌, leb, any, first, update, delete, Outcome, ok, err, Tx, pure, gets, modify, lift,
  ensure, ◌>>=◌, ◌>>◌,
}
use tabayyun.Authz.Roles.{Scope}
use tabayyun.Groups.Members.{
  Kind, Role, MemberIn, GroupError, invalid, name_taken, validate_members,
}

-- Of a series, what the groups read.
pub record Series : Type 0 where
  pub id : ℕ
  pub workspace_id : ℕ

pub record SeriesGroup : Type 0 where
  pub id : ℕ
  pub org_id : ℕ
  pub workspace_id : ℕ
  pub name : String
  pub kind : Kind
  pub params : String
  pub created_at : ℕ
  pub updated_at : ℕ

pub record SeriesGroupMember : Type 0 where
  pub group_id : ℕ
  pub org_id : ℕ
  pub series_id : ℕ
  pub role : Role
  pub position : ℕ

pub record Store : Type 0 where
  pub series : List Series
  pub groups : List SeriesGroup
  pub group_members : List SeriesGroupMember

abbrev pub Change : Type 0 → Type 0
Change A = Tx GroupError Store A

-- What a patch may set.
pub record Changes : Type 0 where
  pub name : Option String
  pub members : Option (List MemberIn)
  pub params : Option String

-- `MAX_PARAMS_BYTES`
abbrev pub max_params_bytes : ℕ
max_params_bytes = 8192

abbrev pub validate_params : (json_bytes : String → ℕ) → String → Outcome GroupError (Unit {0})
validate_params json_bytes params =
    if leb (json_bytes params) max_params_bytes then ok tt else err (invalid "params")

-- Whether a series of the workspace has the id.
abbrev pub in_workspace : ℕ → List Series → ℕ → Bool
in_workspace workspace_id series id = any (λ s. s.workspace_id == workspace_id && s.id == id) series

unfoldable pub check_series_exist : Scope → List MemberIn → Change (Unit {0})
check_series_exist scope members store =
    if any (λ m. not (in_workspace scope.workspace_id store.series m.series_id)) members
    then err (invalid "members")
    else ok (tt, store)

-- `_name_taken`, with the group that is left out.
unfoldable pub is_name_taken : Scope → String → Option ℕ → Store → Bool
is_name_taken scope name exclude store =
    any
      (λ g.
        g.workspace_id == scope.workspace_id
        && str_eq g.name name
        && elim exclude [ none ↦ true | some id ↦ not (g.id == id) ])
      store.groups

-- The rows of the members, numbered from a position on.
unfoldable pub member_rows : (org_id group_id position : ℕ) → List MemberIn → List SeriesGroupMember
member_rows org_id group_id position [] = []
member_rows org_id group_id position (m ∷ ms) =
    record {
      group_id = group_id;
      org_id = org_id;
      series_id = m.series_id;
      role = m.role;
      position = position;
    }
    ∷ member_rows org_id group_id (position + 1) ms

unfoldable pub replace_members : Scope → ℕ → List MemberIn → Change (Unit {0})
replace_members scope group_id members = modify λ store. record store {
  group_members =
      delete (λ r. r.group_id == group_id) store.group_members
      ++ member_rows scope.org_id group_id 0 members;
}

unfoldable pub get_group : Scope → ℕ → Store → Option SeriesGroup
get_group scope group_id store = elim (first (λ g. g.id == group_id) store.groups) [
  | none ↦ none
  | some g ↦ if g.workspace_id == scope.workspace_id then some g else none
]

module _ (json_bytes : String → ℕ) (scope : Scope) where
  -- `new_id` is the id that the database gives the row.
  unfoldable pub create_group :
      (new_id : ℕ)
      → String
      → Kind
      → List MemberIn
      → (params : String) → (now : ℕ) → Change SeriesGroup
  create_group new_id name kind members params now = do
    lift (validate_members kind members)
    lift (validate_params json_bytes params)
    check_series_exist scope members
    taken ← gets (is_name_taken scope name none)
    ensure (not taken) name_taken
    let group : SeriesGroup = record {
      id = new_id;
      org_id = scope.org_id;
      workspace_id = scope.workspace_id;
      name = name;
      kind = kind;
      params = params;
      created_at = now;
      updated_at = now;
    }
    modify λ store. record store { groups = store.groups ++ group ∷ [] }
    replace_members scope new_id members
    pure group

  -- The three parts of a patch, each on the group as it is loaded.
  unfoldable pub patch_name : Option String → SeriesGroup → Change SeriesGroup
  patch_name none group store = ok (group, store)
  patch_name (some name) group store =
      if str_eq name group.name
      then ok (group, store)
      else if is_name_taken scope name (some group.id) store
      then err name_taken
      else ok (record group { name = name }, store)

  unfoldable pub patch_params : Option String → SeriesGroup → Change SeriesGroup
  patch_params none group = pure group
  patch_params (some params) group = do
    lift (validate_params json_bytes params)
    pure (record group { params = params })

  unfoldable pub patch_members : Option (List MemberIn) → SeriesGroup → Change (Unit {0})
  patch_members none group = pure tt
  patch_members (some members) group = do
    lift (validate_members group.kind members)
    check_series_exist scope members
    replace_members scope group.id members

  -- The part behind the look-up.
  unfoldable pub patch_found : SeriesGroup → Changes → (now : ℕ) → Change (Option SeriesGroup)
  patch_found group changes now = do
    named ← patch_name changes.name group
    set ← patch_params changes.params named
    patch_members changes.members set
    let stamped : SeriesGroup = record set { updated_at = now }
    modify λ store. record store {
      groups = update (λ g. g.id == group.id) (λ g. stamped) store.groups;
    }
    pure (some stamped)

  unfoldable pub patch_group : ℕ → Changes → (now : ℕ) → Change (Option SeriesGroup)
  patch_group group_id changes now store = elim (get_group scope group_id store) [
    | none ↦ ok (none, store)
    | some group ↦ patch_found group changes now store
  ]

-- The members go with their group: `ondelete="CASCADE"`.
unfoldable pub delete_group : Scope → ℕ → Change Bool
delete_group scope group_id store = elim (get_group scope group_id store) [
  | none ↦ ok (false, store)
  | some group ↦ ok (
    true,
    record store {
      groups = delete (λ g. g.id == group_id) store.groups;
      group_members = delete (λ r. r.group_id == group_id) store.group_members;
    },
  )
]
