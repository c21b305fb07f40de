-- ===== src/Groups/Patched.antt =====
-- A patched or deleted group leaves groups of fitting members (api/src/tabayyun/services/groups.py).
use mathlib.Core.List.{append-nil}
use tabayyun.Prelude.{
  ℕ, ◌≡◌, ap, sym, subst, ◌∙◌, refl, Bool, true, false, Option, none, some, String, List, [], ◌==◌,
  any, first, first-All, first-none, any-delete_self, update, delete, arith, ok, lift, >>=-eq-ok,
  Option-cases, inl, inr,
}
use tabayyun.Authz.Roles.{Scope}
use tabayyun.Groups.Members.{MemberIn, validate_members}
use tabayyun.Groups.Fitting.{IsFitting}
use tabayyun.Groups.Store.{
  SeriesGroup, Store, Changes, member_rows, replace_members, check_series_exist, validate_params,
  get_group, patch_name, patch_params, patch_members, patch_found, patch_group, delete_group,
}
use tabayyun.Groups.Whole.{
  Fits, AllFit, members_in, replaced, replaced_self, replaced_other, members_in-member_rows,
  members_in-member_rows_other, update_fit, delete_fit, lifted, exist_kept, accepted,
}

-- `b` is `a` with another name or other params.
record SameGroup (a b : SeriesGroup) : Type 0 where
  id : b.id ≡ a.id
  kind : b.kind ≡ a.kind

-- What a step on the members of a group does to the tables.
record Moves (group : SeriesGroup) (s t : Store) : Type 0 where
  fits : Fits t.group_members group
  groups : t.groups ≡ s.groups
  others :
      (g : SeriesGroup)
      → (group.id == g.id) ≡ false
      → members_in g.id t.group_members ≡ members_in g.id s.group_members

module _ (json_bytes : String → ℕ) (scope : Scope) where
  patch_name_same :
      (name : Option String) (g h : SeriesGroup) (s t : Store)
      → patch_name json_bytes scope name g s ≡ ok (h, t)
      → SameGroup g h × (t ≡ s)
  unfolding patch_name
  patch_name_same none g h s t e = (record { id = ground arith; kind = ground arith }, ground arith)
  patch_name_same (some name) g h s t e =
      (record { id = ground arith; kind = ground arith }, ground arith)

  patch_params_same :
      (params : Option String) (g h : SeriesGroup) (s t : Store)
      → patch_params json_bytes scope params g s ≡ ok (h, t)
      → SameGroup g h × (t ≡ s)
  unfolding patch_params
  patch_params_same none g h s t e =
      (record { id = ground arith; kind = ground arith }, ground arith)
  patch_params_same (some params) g h s t e =
      let (u, s1, e1, r1) = >>=-eq-ok (lift (validate_params json_bytes params)) _ s e in
      let same = (lifted (validate_params json_bytes params) s s1 u e1).1 in
      (record { id = ground arith; kind = ground arith }, ground arith)

  patch_members-Moves :
      (members : Option (List MemberIn)) (g : SeriesGroup) (s t : Store) (u : Unit {0})
      → Fits s.group_members g
      → patch_members json_bytes scope members g s ≡ ok (u, t)
      → Moves g s t
  unfolding patch_members replace_members
  patch_members-Moves none g s t u fit e =
      let same : s ≡ t = ground arith in
      subst (Moves g s) same (record { fits = fit; groups = refl; others = λ o h. refl })
  patch_members-Moves (some members) g s t u fit e =
      let (u1, s1, e1, r1) = >>=-eq-ok (lift (validate_members g.kind members)) _ s e in
      let (fits, same1) = accepted g.kind members s s1 u1 e1 in
      let (u2, s2, e2, r2) = >>=-eq-ok (check_series_exist scope members) _ s1 r1 in
      let same : s2 ≡ s = exist_kept scope members s1 s2 u2 e2 ∙ same1 in
      let added = member_rows scope.org_id g.id 0 members in
      let rows : t.group_members ≡ replaced g.id s.group_members added =
        ground (arith, ap (λ s. s.group_members) same) in
      let own : members_in g.id (replaced g.id s.group_members added) ≡ members =
        replaced_self g.id s.group_members added
        ∙ members_in-member_rows scope.org_id g.id 0 members in
      record {
        fits = rw rows (subst (IsFitting g.kind) (sym own) fits);
        groups = ground (arith, ap (λ s. s.groups) same);
        others = λ o h. rw rows (
            replaced_other g.id o.id s.group_members added h
              (members_in-member_rows_other scope.org_id g.id o.id 0 members h));
      }

  patch_found-AllFit :
      (group : SeriesGroup) (changes : Changes) (now : ℕ) (store after : Store)
      (r : Option SeriesGroup)
      → Fits store.group_members group
      → AllFit store
      → patch_found json_bytes scope group changes now store ≡ ok (r, after)
      → AllFit after
  unfolding patch_found
  patch_found-AllFit group changes now store after r fit all e =
      let (named, s1, e1, r1) =
        >>=-eq-ok (patch_name json_bytes scope changes.name group) _ store e in
      let (like1, same1) = patch_name_same changes.name group named store s1 e1 in
      let (set, s2, e2, r2) =
        >>=-eq-ok (patch_params json_bytes scope changes.params named) _ s1 r1 in
      let (like2, same2) = patch_params_same changes.params named set s1 s2 e2 in
      let (u3, s3, e3, r3) =
        >>=-eq-ok (patch_members json_bytes scope changes.members set) _ s2 r2 in
      let same : s2 ≡ store = same2 ∙ same1 in
      let id : set.id ≡ group.id = like2.id ∙ like1.id in
      let kind : set.kind ≡ group.kind = like2.kind ∙ like1.kind in
      let set_fits : Fits s2.group_members set = rw (same, id, kind) fit in
      let moved = patch_members-Moves changes.members set s2 s3 u3 set_fits e3 in
      let stamped : SeriesGroup = record set { updated_at = now } in
      let groups : after.groups ≡ update (λ g. g.id == group.id) (λ g. stamped) store.groups =
        ground (arith, moved.groups, ap (λ s. s.groups) same) in
      let rows : after.group_members ≡ s3.group_members = ground arith in
      rw (rows, groups)
        (update_fit group.id store.group_members s3.group_members stamped store.groups moved.fits
          (λ g h. moved.others g (rw id h) ∙ ap (λ s. members_in g.id s.group_members) same) all)

get_group-Fits :
    (scope : Scope) (id : ℕ) (store : Store) (g : SeriesGroup)
    → AllFit store
    → get_group scope id store ≡ some g
    → Fits store.group_members g
unfolding get_group
get_group-Fits scope id store g all e = elim (Option-cases (first (λ g. g.id == id) store.groups)) [
  | inl absent ↦ absurd (cc (rw (absent, get_group) at e))
  | inr (h, there) ↦
      let same : h ≡ g = ground (arith, rw (there, get_group) at e) in
      subst (Fits store.group_members) same
        (first-All (Fits store.group_members) (λ g. g.id == id) store.groups h all there)
]

get_group-none :
    (scope : Scope) (id : ℕ) (store : Store)
    → any (λ g. g.id == id) store.groups ≡ false
    → get_group scope id store ≡ none
unfolding get_group
get_group-none scope id store h = rw (first-none (λ g. g.id == id) store.groups h, get_group) refl

module _ (scope : Scope) (group_id : ℕ) (store after : Store) where
  -- A patch that returns, found or not, leaves every group with members that its kind accepts.
  pub patch_group-AllFit :
      (json_bytes : String → ℕ) (changes : Changes) (now : ℕ) (r : Option SeriesGroup)
      → AllFit store
      → patch_group json_bytes scope group_id changes now store ≡ ok (r, after)
      → AllFit after
  unfolding patch_group
  patch_group-AllFit json_bytes changes now r all e =
      elim (Option-cases (get_group scope group_id store)) [
        | inl absent ↦
            let same : store ≡ after = ground (arith, rw (absent, patch_group) at e) in
            subst AllFit same all
        | inr (g, there) ↦
            patch_found-AllFit json_bytes scope g changes now store after r
              (get_group-Fits scope group_id store g all there) all (rw (there, patch_group) at e)
      ]

  -- Deleting a group leaves every other one with members that its kind accepts; if the group was there,
  -- neither it nor a row of its members is left.
  pub delete_group-AllFit :
      (deleted : Bool)
      → AllFit store
      → delete_group scope group_id store ≡ ok (deleted, after)
      → AllFit after
        × (deleted ≡ true
            → (get_group scope group_id after ≡ none)
              × (members_in group_id after.group_members ≡ []))
  unfolding delete_group members_in
  delete_group-AllFit deleted all e = elim (Option-cases (get_group scope group_id store)) [
    | inl absent ↦
        let gone = rw (absent, delete_group) at e in
        let same : store ≡ after = ground (arith, gone) in
        (subst AllFit same all, λ h. absurd (ground (arith, gone)))
    | inr (g, there) ↦
        let done = rw (there, delete_group) at e in
        let groups : after.groups ≡ delete (λ g. g.id == group_id) store.groups =
          ground (arith, done) in
        let rows : after.group_members ≡ replaced group_id store.group_members [] =
          ground (arith, done)
          ∙ sym (append-nil (delete (λ r. r.group_id == group_id) store.group_members)) in
        (
          rw (rows, groups) (delete_fit group_id store.group_members store.groups all),
          λ h. (
            get_group-none scope group_id after (
                subst (λ gs. any (λ g. g.id == group_id) gs ≡ false) (sym groups)
                  (any-delete_self (λ g. g.id == group_id) store.groups)),
            rw rows (replaced_self group_id store.group_members []),
          ),
        )
  ]
