-- ===== src/Groups/Whole.antt =====
-- The rows of a group are always members that make a group (api/src/tabayyun/services/groups.py).
use Prim.Native.Nat.{◌+◌}
use tabayyun.Prelude.{
  ℕ, ◌≡◌, ap, sym, subst, ◌∙◌, refl, false, String, List, [], ◌∷◌, ◌++◌, ◌==◌, ==_refl,
  if◌then◌else◌, any, update, delete, All, All-append, arith, Outcome, ok, err, lift, >>=-eq-ok,
  Bool-cases, inl, inr,
}
use tabayyun.Authz.Roles.{Scope}
use tabayyun.Groups.Members.{Kind, MemberIn, GroupError, validate_members}
use tabayyun.Groups.Fitting.{IsFitting, validate_members_iff}
use tabayyun.Groups.Store.{
  SeriesGroup, SeriesGroupMember, Store, member_rows, replace_members, check_series_exist,
  validate_params, create_group,
}

-- The members that the rows give a group.
unfoldable pub members_in : ℕ → List SeriesGroupMember → List MemberIn
members_in id [] = []
members_in id (r ∷ rs) =
    let rest = members_in id rs in
    if r.group_id == id then record { series_id = r.series_id; role = r.role } ∷ rest else rest

abbrev pub Fits : List SeriesGroupMember → SeriesGroup → Type 0
Fits rows g = IsFitting g.kind (members_in g.id rows)

-- Every group has members that its kind accepts.
abbrev pub AllFit : Store → Type 0
AllFit store = All (Fits store.group_members) store.groups

module _ (org_id id : ℕ) where
  pub members_in-member_rows :
      (n : ℕ) (ms : List MemberIn) → members_in id (member_rows org_id id n ms) ≡ ms
  unfolding members_in member_rows
  members_in-member_rows n [] = refl
  members_in-member_rows n (m ∷ ms) = rw (==_refl id, members_in-member_rows (n + 1) ms) refl

  pub members_in-member_rows_other :
      (other n : ℕ) (ms : List MemberIn)
      → (id == other) ≡ false
      → members_in other (member_rows org_id id n ms) ≡ []
  unfolding members_in member_rows
  members_in-member_rows_other other n [] h = refl
  members_in-member_rows_other other n (m ∷ ms) h =
      rw (h, members_in-member_rows_other other (n + 1) ms h) refl

abbrev pub replaced : ℕ → List SeriesGroupMember → List SeriesGroupMember → List SeriesGroupMember
replaced id rows added = delete (λ r. r.group_id == id) rows ++ added

pub replaced_self :
    (id : ℕ) (rows added : List SeriesGroupMember)
    → members_in id (replaced id rows added) ≡ members_in id added
unfolding members_in delete
replaced_self id [] added = refl
replaced_self id (r ∷ rs) added = elim (Bool-cases (r.group_id == id)) [
  | inl e ↦ rw e (replaced_self id rs added)
  | inr e ↦ rw (e, e) (replaced_self id rs added)
]

pub replaced_other :
    (id other : ℕ) (rows added : List SeriesGroupMember)
    → (id == other) ≡ false
    → members_in other added ≡ []
    → members_in other (replaced id rows added) ≡ members_in other rows
unfolding members_in delete
replaced_other id other [] added h k = k
replaced_other id other (r ∷ rs) added h k =
    let rest = replaced_other id other rs added h k in
    elim (Bool-cases (r.group_id == id)) [
      | inl e ↦ let apart : (r.group_id == other) ≡ false = ground arith in rw (e, apart) rest
      | inr e ↦ elim (Bool-cases (r.group_id == other)) [
        | inl f ↦ rw (e, f) (ap (λ ms. record { series_id = r.series_id; role = r.role } ∷ ms) rest)
        | inr f ↦ rw (e, f) rest
      ]
    ]

-- The groups of other ids keep their members when a group's rows are replaced.
others_fit :
    (id : ℕ) (rows added : List SeriesGroupMember) (gs : List SeriesGroup)
    → ((other : ℕ) → (id == other) ≡ false → members_in other added ≡ [])
    → any (λ g. g.id == id) gs ≡ false
    → All (Fits rows) gs
    → All (Fits (replaced id rows added)) gs
unfolding any
others_fit id rows added [] own h fit = tt
others_fit id rows added (g ∷ gs) own h fit =
    let apart : (id == g.id) ≡ false = ground arith in
    (
      subst (IsFitting g.kind) (sym (replaced_other id g.id rows added apart (own g.id apart)))
          fit.0,
      others_fit id rows added gs own (ground arith) fit.1,
    )

-- One group's row becomes another of the same id that fits; the others stay.
pub update_fit :
    (id : ℕ) (rows after : List SeriesGroupMember) (new : SeriesGroup) (gs : List SeriesGroup)
    → Fits after new
    → ((g : SeriesGroup) → (id == g.id) ≡ false → members_in g.id after ≡ members_in g.id rows)
    → All (Fits rows) gs
    → All (Fits after) (update (λ g. g.id == id) (λ g. new) gs)
unfolding update
update_fit id rows after new [] this kept fit = tt
update_fit id rows after new (g ∷ gs) this kept fit =
    let rest = update_fit id rows after new gs this kept fit.1 in
    elim (Bool-cases (g.id == id)) [
      | inl e ↦ rw e (this, rest)
      | inr e ↦
          let apart : (id == g.id) ≡ false = ground arith in
          rw e (subst (IsFitting g.kind) (sym (kept g apart)) fit.0, rest)
    ]

pub delete_fit :
    (id : ℕ) (rows : List SeriesGroupMember) (gs : List SeriesGroup)
    → All (Fits rows) gs
    → All (Fits (replaced id rows [])) (delete (λ g. g.id == id) gs)
unfolding delete members_in
delete_fit id rows [] fit = tt
delete_fit id rows (g ∷ gs) fit = elim (Bool-cases (g.id == id)) [
  | inl e ↦ rw e (delete_fit id rows gs fit.1)
  | inr e ↦
      let apart : (id == g.id) ≡ false = ground arith in
      rw e (
        subst (IsFitting g.kind) (sym (replaced_other id g.id rows [] apart refl)) fit.0,
        delete_fit id rows gs fit.1,
      )
]

pub lifted :
    (r : Outcome GroupError (Unit {0})) (s t : Store) (u : Unit {0})
    → lift r s ≡ ok (u, t)
    → (r ≡ ok tt) × (t ≡ s)
lifted (ok v) s t u e = (refl, cc)
lifted (err x) s t u e = absurd (cc)

pub exist_kept :
    (scope : Scope) (ms : List MemberIn) (s t : Store) (u : Unit {0})
    → check_series_exist scope ms s ≡ ok (u, t)
    → t ≡ s
unfolding check_series_exist
exist_kept scope ms s t u e = ground arith

pub accepted :
    (kind : Kind) (ms : List MemberIn) (s t : Store) (u : Unit {0})
    → lift (validate_members kind ms) s ≡ ok (u, t)
    → IsFitting kind ms × (t ≡ s)
accepted kind ms s t u e =
    let (fine, same) = lifted (validate_members kind ms) s t u e in
    ((validate_members_iff kind ms).0.0 fine, same)

module _ (json_bytes : String → ℕ) (scope : Scope) where
  -- A group that is created has members that its kind accepts, and the other groups keep theirs; the id
  -- that the database gives the new group is of no other one.
  pub create_group-AllFit :
      (new_id : ℕ) (name : String) (kind : Kind) (members : List MemberIn) (params : String)
      (now : ℕ) (store after : Store) (group : SeriesGroup)
      → any (λ g. g.id == new_id) store.groups ≡ false
      → AllFit store
      → create_group json_bytes scope new_id name kind members params now store ≡ ok (group, after)
      → AllFit after × (members_in group.id after.group_members ≡ members)
  unfolding create_group replace_members
  create_group-AllFit new_id name kind members params now store after group fresh fit e =
      let (u1, s1, e1, r1) = >>=-eq-ok (lift (validate_members kind members)) _ store e in
      let (fits, same1) = accepted kind members store s1 u1 e1 in
      let (u2, s2, e2, r2) = >>=-eq-ok (lift (validate_params json_bytes params)) _ s1 r1 in
      let (u3, s3, e3, r3) = >>=-eq-ok (check_series_exist scope members) _ s2 r2 in
      let same : s3 ≡ store =
        exist_kept scope members s2 s3 u3 e3
        ∙ (lifted (validate_params json_bytes params) s1 s2 u2 e2).1
        ∙ same1 in
      let made : SeriesGroup = record {
        id = new_id;
        org_id = scope.org_id;
        workspace_id = scope.workspace_id;
        name = name;
        kind = kind;
        params = params;
        created_at = now;
        updated_at = now;
      } in
      let added = member_rows scope.org_id new_id 0 members in
      let is_made : group ≡ made = ground arith in
      let groups : after.groups ≡ store.groups ++ made ∷ [] =
        ground (arith, ap (λ s. s.groups) same) in
      let rows : after.group_members ≡ replaced new_id store.group_members added =
        ground (arith, ap (λ s. s.group_members) same) in
      let own : members_in new_id (replaced new_id store.group_members added) ≡ members =
        replaced_self new_id store.group_members added
        ∙ members_in-member_rows scope.org_id new_id 0 members in
      let others =
        others_fit new_id store.group_members added store.groups
          (λ o h. members_in-member_rows_other scope.org_id new_id o 0 members h) fresh fit in
      let all =
        All-append (Fits (replaced new_id store.group_members added)) store.groups (made ∷ [])
          others (subst (IsFitting kind) (sym own) fits, tt) in
      (rw (rows, groups) all, rw (rows, is_made) own)
