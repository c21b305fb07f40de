-- ===== src/Groups/Fitting.antt =====
-- What `validate_members` accepts (api/src/tabayyun/services/groups.py).
use tabayyun.Prelude.{
  ℕ, ◌≡◌, ◌≤◌, ◌↔◌, refl, Bool, true, false, ◌&&◌, not, List, [], ◌∷◌, ◌==◌, ==_refl, length, any,
  count, arith, ok, err, Bool-cases, inl, inr,
}
use tabayyun.Groups.Members.{
  Kind, Role, MemberIn, GroupError, invalid, is_role, listed_twice, validate_roles,
  validate_members,
}

-- The roles that a kind of group takes.
abbrev pub takes : Kind → Role → Bool
takes Kind.balance Role.member = false
takes Kind.balance _ = true
takes _ Role.member = true
takes _ _ = false

abbrev pub closes : Kind → List MemberIn → Bool
closes Kind.balance members =
    any (λ m. is_role Role.input m.role) members && any (λ m. is_role Role.output m.role) members
closes _ members = true

-- Members that make a group: as many as a group may have, no series twice, only roles that the kind
-- takes, and both sides of a balance.
pub record IsFitting (kind : Kind) (members : List MemberIn) : Type 0 where
  least : 2 ≤ length members
  most : length members ≤ 32
  distinct : (s : ℕ) → count (λ m. m.series_id == s) members ≤ 1
  taken : any (λ m. not (takes kind m.role)) members ≡ false
  closed : closes kind members ≡ true

-- A series that was seen stands in no later member, and no later series twice.
listed_twice-distinct :
    (seen : List ℕ) (ms : List MemberIn)
    → listed_twice seen ms ≡ false
    → (s : ℕ)
    → (count (λ m. m.series_id == s) ms ≤ 1)
      × (any (λ t. t == s) seen ≡ true → count (λ m. m.series_id == s) ms ≡ 0)
unfolding listed_twice count any
listed_twice-distinct seen [] h s = (omega arith, λ k. refl)
listed_twice-distinct seen (m ∷ ms) h s =
    let new : any (λ t. t == m.series_id) seen ≡ false = ground arith in
    let (fewer, none_left) = listed_twice-distinct (m.series_id ∷ seen) ms (ground arith) s in
    elim (Bool-cases (m.series_id == s)) [
      | inl e ↦
          let same : m.series_id ≡ s = ground arith in
          let fresh : any (λ t. t == s) seen ≡ false = rw same at new in
          (ground (arith, none_left), λ k. absurd (cc))
      | inr e ↦ (ground (arith, fewer), λ k. ground (arith, none_left))
    ]

distinct-listed_twice :
    (seen : List ℕ) (ms : List MemberIn)
    → ((s : ℕ)
        → (count (λ m. m.series_id == s) ms ≤ 1)
          × (any (λ t. t == s) seen ≡ true → count (λ m. m.series_id == s) ms ≡ 0))
    → listed_twice seen ms ≡ false
unfolding listed_twice count any
distinct-listed_twice seen [] h = refl
distinct-listed_twice seen (m ∷ ms) h =
    let (one, unseen) = h m.series_id in
    let here = ==_refl m.series_id in
    let new : any (λ t. t == m.series_id) seen ≡ false = ground (arith, unseen, here) in
    let later = distinct-listed_twice (m.series_id ∷ seen) ms λ s.
      let (fewer, absent) = h s in (ground (arith, fewer), λ k. ground (arith, fewer, absent)) in
    ground (arith, new, later)

not_taken : Kind → List MemberIn → Bool
not_taken Kind.balance ms = any (λ m. is_role Role.member m.role) ms
not_taken _ ms = any (λ m. not (is_role Role.member m.role)) ms

balance_role : (r : Role) → not (takes Kind.balance r) ≡ is_role Role.member r
balance_role Role.member = refl
balance_role Role.input = refl
balance_role Role.output = refl

related_role : (r : Role) → takes Kind.related r ≡ is_role Role.member r
related_role Role.member = refl
related_role Role.input = refl
related_role Role.output = refl

redundant_role : (r : Role) → takes Kind.redundant r ≡ is_role Role.member r
redundant_role Role.member = refl
redundant_role Role.input = refl
redundant_role Role.output = refl

not_taken-takes :
    (kind : Kind) (ms : List MemberIn) → any (λ m. not (takes kind m.role)) ms ≡ not_taken kind ms
unfolding not_taken any
not_taken-takes Kind.balance [] = refl
not_taken-takes Kind.related [] = refl
not_taken-takes Kind.redundant [] = refl
not_taken-takes Kind.balance (m ∷ ms) =
    rw (balance_role m.role, not_taken-takes Kind.balance ms) refl
not_taken-takes Kind.related (m ∷ ms) =
    rw (related_role m.role, not_taken-takes Kind.related ms) refl
not_taken-takes Kind.redundant (m ∷ ms) =
    rw (redundant_role m.role, not_taken-takes Kind.redundant ms) refl

validate_roles_iff :
    (kind : Kind) (members : List MemberIn)
    → (validate_roles kind members ≡ ok tt)
      ↔ ((any (λ m. not (takes kind m.role)) members ≡ false) × (closes kind members ≡ true))
unfolding validate_roles not_taken
validate_roles_iff Kind.balance ms =
    let e = not_taken-takes Kind.balance ms in
    (λ h. (ground arith, ground arith), λ (h, k). ground arith)
validate_roles_iff Kind.related ms =
    let e = not_taken-takes Kind.related ms in (λ h. (ground arith, refl), λ (h, k). ground arith)
validate_roles_iff Kind.redundant ms =
    let e = not_taken-takes Kind.redundant ms in (λ h. (ground arith, refl), λ (h, k). ground arith)

refused_for :
    (kind : Kind) (ms : List MemberIn) (e : GroupError)
    → validate_roles kind ms ≡ err e
    → e ≡ invalid "members"
unfolding validate_roles
refused_for Kind.balance ms e h = ground arith
refused_for Kind.related ms e h = ground arith
refused_for Kind.redundant ms e h = ground arith

module _ (kind : Kind) (members : List MemberIn) where
  -- The members are accepted exactly if they make a group of the kind; what is refused is refused for
  -- its members.
  pub validate_members_iff :
      ((validate_members kind members ≡ ok tt) ↔ IsFitting kind members)
      × ((e : GroupError) → validate_members kind members ≡ err e → e ≡ invalid "members")
  unfolding validate_members any
  validate_members_iff =
      let (to, from) = validate_roles_iff kind members in
      (
        (
          λ h.
              let distinct = listed_twice-distinct [] members (ground arith) in
              let (taken, closed) = to (ground arith) in
              record {
                least = ground arith;
                most = ground arith;
                distinct = λ s. (distinct s).0;
                taken = taken;
                closed = closed;
              },
          λ h.
              let once = distinct-listed_twice [] members λ s. (h.distinct s, λ k. absurd (cc)) in
              let fit = from (h.taken, h.closed) in ground (arith, h.least, h.most),
        ),
        λ e h. ground (arith, refused_for kind members e),
      )
