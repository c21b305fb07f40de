-- ===== src/Findings/Evidence.antt =====
-- The evidence of a finding, and what of it decides a merge (api/src/tabayyun/services/findings.py).
-- Evidence is a JSON object; its values are compared at `group_id` and `partner` only, which are texts.

use tabayyun.Prelude.{
  ◌≡◌, refl, sym, subst, ◌∙◌, Bool, true, false, ◌&&◌, Option, none, some, String, List, [], ◌∷◌,
  str_eq, str_eq_iff, if◌then◌else◌, any, all, arith, Bool-cases, inl, inr,
}

abbrev pub Evidence : Type 0
Evidence = List (String × String)

unfoldable pub has_key : String → Evidence → Bool
has_key key evidence = any (λ e. str_eq e.0 key) evidence

-- `evidence.get(key)`
unfoldable pub value_at : String → Evidence → Option String
value_at key [] = none
value_at key ((k, v) ∷ rest) =
    let later = value_at key rest in if str_eq k key then some v else later

abbrev pub same_value : Option String → Option String → Bool
same_value none none = true
same_value (some a) (some b) = str_eq a b
same_value _ _ = false

unfoldable pub keys_in : Evidence → Evidence → Bool
unfolding has_key
keys_in a b = all (λ e. has_key e.0 b) a

-- `_shape(a) == _shape(b)`, the sets of the keys.
unfoldable pub same_shape : Evidence → Evidence → Bool
unfolding keys_in
same_shape a b = keys_in a b && keys_in b a

-- `f.evidence.get(k) == v` for the `v` of the incoming evidence, where it has one.
unfoldable pub agrees_at : String → Evidence → Evidence → Bool
unfolding has_key value_at
agrees_at key existing incoming =
    if has_key key incoming
    then same_value (value_at key existing) (value_at key incoming)
    else true

unfoldable pub same_kind : Evidence → Evidence → Bool
unfolding same_shape agrees_at
same_kind existing incoming =
    same_shape existing incoming
    && agrees_at "group_id" existing incoming
    && agrees_at "partner" existing incoming

has_key-of_keys_in :
    (key : String) (a b : Evidence)
    → keys_in a b ≡ true
    → has_key key a ≡ true
    → has_key key b ≡ true
unfolding has_key keys_in any all
has_key-of_keys_in key [] b h k = absurd (cc)
has_key-of_keys_in key ((l, v) ∷ a) b h k = elim (Bool-cases (str_eq l key)) [
  | inl e ↦
      let held : has_key l b ≡ true = ground (arith, h) in
      subst (λ x. has_key x b ≡ true) ((str_eq_iff l key).0 e) held
  | inr e ↦ has_key-of_keys_in key a b (ground (arith, h)) (ground (arith, k))
]

same_value_refl : (a : Option String) → same_value a a ≡ true
same_value_refl none = refl
same_value_refl (some a) = (str_eq_iff a a).1 refl

-- The same value as a third is the same value as the other.
same_value-euclid :
    (a b c : Option String) → same_value a b ≡ true → same_value a c ≡ true → same_value b c ≡ true
same_value-euclid none none none h k = refl
same_value-euclid (some a) (some b) (some c) h k =
    (str_eq_iff b c).1 (sym ((str_eq_iff a b).0 h) ∙ (str_eq_iff a c).0 k)
same_value-euclid none none (some c) h k = k
same_value-euclid none (some b) c h k = absurd (cc)
same_value-euclid (some a) none c h k = absurd (cc)
same_value-euclid (some a) (some b) none h k = k

keys_in_trans : (a b c : Evidence) → keys_in a b ≡ true → keys_in b c ≡ true → keys_in a c ≡ true
unfolding keys_in all
keys_in_trans [] b c h k = refl
keys_in_trans (e ∷ a) b c h k =
    ground (arith, has_key-of_keys_in e.0 b c k, keys_in_trans a b c (ground (arith, h)) k, h)

keys_in-cons :
    (e : String × String) (a b : Evidence) → keys_in a b ≡ true → keys_in a (e ∷ b) ≡ true
unfolding keys_in all has_key any
keys_in-cons e [] b h = refl
keys_in-cons e (d ∷ a) b h = ground (arith, keys_in-cons e a b)

keys_in_refl : (a : Evidence) → keys_in a a ≡ true
unfolding keys_in all has_key any
keys_in_refl [] = refl
keys_in_refl (e ∷ a) =
    let rest = keys_in-cons e a a (keys_in_refl a) in
    ground (arith, rest, (str_eq_iff e.0 e.0).1 refl)

pub same_kind_refl : (a : Evidence) → same_kind a a ≡ true
unfolding same_kind same_shape agrees_at
same_kind_refl a = ground (
  arith,
  keys_in_refl a,
  same_value_refl (value_at "group_id" a),
  same_value_refl (value_at "partner" a),
)

agrees_at-euclid :
    (key : String) (e i j : Evidence)
    → same_shape e i ≡ true
    → same_shape e j ≡ true
    → agrees_at key e i ≡ true
    → agrees_at key e j ≡ true
    → agrees_at key i j ≡ true
unfolding same_shape agrees_at
agrees_at-euclid key e i j si sj h k = ground (
  arith,
  has_key-of_keys_in key j e,
  has_key-of_keys_in key e i,
  same_value-euclid (value_at key e) (value_at key i) (value_at key j),
)

same_shape-euclid :
    (e i j : Evidence) → same_shape e i ≡ true → same_shape e j ≡ true → same_shape i j ≡ true
unfolding same_shape
same_shape-euclid e i j h k = ground (arith, keys_in_trans i e j, keys_in_trans j e i)

parts : (a b c : Bool) → (a && b && c) ≡ true → (a ≡ true) × (b ≡ true) × (c ≡ true)
parts a b c h = ground arith

whole : (a b c : Bool) → a ≡ true → b ≡ true → c ≡ true → (a && b && c) ≡ true
whole a b c h k m = ground arith

-- Evidence of one kind with each of two others makes those two of one kind.
pub same_kind-euclid :
    (e i j : Evidence) → same_kind e i ≡ true → same_kind e j ≡ true → same_kind i j ≡ true
unfolding same_kind
same_kind-euclid e i j h k =
    let (si, gi, pi) =
      parts (same_shape e i) (agrees_at "group_id" e i) (agrees_at "partner" e i) h in
    let (sj, gj, pj) =
      parts (same_shape e j) (agrees_at "group_id" e j) (agrees_at "partner" e j) k in
    whole (same_shape i j) (agrees_at "group_id" i j) (agrees_at "partner" i j)
      (same_shape-euclid e i j si sj) (agrees_at-euclid "group_id" e i j si sj gi gj)
      (agrees_at-euclid "partner" e i j si sj pi pj)
