-- ===== src/Series/Bands.antt =====
-- What `validate_limits` accepts (api/src/tabayyun/services/series.py).
use tabayyun.Prelude.{
  All, ℕ, ◌≡◌, ◌≤◌, ◌<◌, ◌↔◌, refl, Bool, true, false, Option, none, some, String, List,
  if◌then◌else◌, leb, ltb, arith, Outcome, ok, err,
}
use tabayyun.Series.Tables.{Double, real, nan, Series, Store, MetadataError}
use tabayyun.Series.Limits.{Limits, limits_of, both, blame, validate_limits}

-- Each band is in order where both its ends are numbers, and every end of the operational band that is a
-- number lies within the ends of the physical one that are. An end that is missing or NaN bounds nothing.
pub record IsNested (v : Limits) : Type 0 where
  pub physical : (a b : ℕ) → v.physical_min ≡ some (real a) → v.physical_max ≡ some (real b) → a < b
  pub operational :
      (a b : ℕ) → v.operational_min ≡ some (real a) → v.operational_max ≡ some (real b) → a < b
  pub min_above :
      (o p : ℕ) → v.operational_min ≡ some (real o) → v.physical_min ≡ some (real p) → p ≤ o
  pub max_below :
      (o p : ℕ) → v.operational_max ≡ some (real o) → v.physical_max ≡ some (real p) → o ≤ p
  pub min_below :
      (o p : ℕ) → v.operational_min ≡ some (real o) → v.physical_max ≡ some (real p) → o ≤ p
  pub max_above :
      (o p : ℕ) → v.operational_max ≡ some (real o) → v.physical_min ≡ some (real p) → p ≤ o

abbrev pub HasBands : Series → Type 0
HasBands s = IsNested (limits_of s)

abbrev pub AllNested : Store → Type 0
AllNested store = All HasBands store.series

both-false :
    (test : ℕ → ℕ → Bool) (x y : Option Double)
    → (both test x y ≡ false)
      ↔ ((a b : ℕ) → x ≡ some (real a) → y ≡ some (real b) → test a b ≡ false)
both-false test none y = (λ h a b e f. absurd (cc), λ h. refl)
both-false test (some nan) y = (λ h a b e f. absurd (cc), λ h. refl)
both-false test (some (real x)) none = (λ h a b e f. absurd (cc), λ h. refl)
both-false test (some (real x)) (some nan) = (λ h a b e f. absurd (cc), λ h. refl)
both-false test (some (real x)) (some (real y)) = (λ h a b e f. cc, λ h. h x y refl refl)

-- A chain of six tests, each with its error.
abbrev chain :
    (a b c d e f : Bool) (m1 m2 m3 m4 m5 m6 : MetadataError) → Outcome MetadataError (Unit {0})
chain a b c d e f m1 m2 m3 m4 m5 m6 =
    if a
    then err m1
    else if b
    then err m2
    else if c
    then err m3
    else if d
    then err m4
    else if e
    then err m5
    else if f
    then err m6
    else ok tt

chain-ok :
    (a b c d e f : Bool) (m1 m2 m3 m4 m5 m6 : MetadataError)
    → chain a b c d e f m1 m2 m3 m4 m5 m6 ≡ ok tt
    → (a ≡ false) × (b ≡ false) × (c ≡ false) × (d ≡ false) × (e ≡ false) × (f ≡ false)
chain-ok true b c d e f m1 m2 m3 m4 m5 m6 h = absurd (cc)
chain-ok false true c d e f m1 m2 m3 m4 m5 m6 h = absurd (cc)
chain-ok false false true d e f m1 m2 m3 m4 m5 m6 h = absurd (cc)
chain-ok false false false true e f m1 m2 m3 m4 m5 m6 h = absurd (cc)
chain-ok false false false false true f m1 m2 m3 m4 m5 m6 h = absurd (cc)
chain-ok false false false false false true m1 m2 m3 m4 m5 m6 h = absurd (cc)
chain-ok false false false false false false m1 m2 m3 m4 m5 m6 h =
    (refl, refl, refl, refl, refl, refl)

module _ (v : Limits) where
  both-IsNested :
      both (λ min max. leb max min) v.physical_min v.physical_max ≡ false
      → both (λ min max. leb max min) v.operational_min v.operational_max ≡ false
      → both ltb v.operational_min v.physical_min ≡ false
      → both (λ o p. ltb p o) v.operational_max v.physical_max ≡ false
      → both (λ o p. ltb p o) v.operational_min v.physical_max ≡ false
      → both ltb v.operational_max v.physical_min ≡ false
      → IsNested v
  both-IsNested a b c d e f =
      let down = λ (min max : ℕ). leb max min in
      let over = λ (o p : ℕ). ltb p o in
      record {
        physical =
            λ x y g h. ground (arith, (both-false down v.physical_min v.physical_max).0 a x y g h);
        operational = λ x y g h.
            ground (arith, (both-false down v.operational_min v.operational_max).0 b x y g h);
        min_above = λ x y g h.
            ground (arith, (both-false ltb v.operational_min v.physical_min).0 c x y g h);
        max_below = λ x y g h.
            ground (arith, (both-false over v.operational_max v.physical_max).0 d x y g h);
        min_below = λ x y g h.
            ground (arith, (both-false over v.operational_min v.physical_max).0 e x y g h);
        max_above = λ x y g h.
            ground (arith, (both-false ltb v.operational_max v.physical_min).0 f x y g h);
      }

  -- The limits pass exactly if those that are numbers are nested, whichever fields were changed: each band in
  -- order and the operational one within the physical one. A limit that is missing or NaN is not held
  -- against any other.
  pub validate_limits_iff :
      (changed : List String) → (validate_limits v changed ≡ ok tt) ↔ IsNested v
  unfolding validate_limits
  validate_limits_iff changed =
      let down = λ (min max : ℕ). leb max min in
      let over = λ (o p : ℕ). ltb p o in
      (
        λ h.
            let (a, b, c, d, e, f) =
              chain-ok (both down v.physical_min v.physical_max)
                (both down v.operational_min v.operational_max)
                (both ltb v.operational_min v.physical_min)
                (both over v.operational_max v.physical_max)
                (both over v.operational_min v.physical_max)
                (both ltb v.operational_max v.physical_min)
                (blame changed "physical_max" "physical_min"
                  "physical_min must be below physical_max")
                (blame changed "operational_max" "operational_min"
                  "operational_min must be below operational_max")
                (blame changed "operational_min" "physical_min"
                  "operational band below physical_min")
                (blame changed "operational_max" "physical_max"
                  "operational band above physical_max")
                (blame changed "operational_min" "physical_max"
                  "operational band above physical_max")
                (blame changed "operational_max" "physical_min"
                  "operational band below physical_min")
                h in
            both-IsNested a b c d e f,
        λ n.
            rw
              (
                (both-false down v.physical_min v.physical_max).1
                    (λ a b e f. ground (arith, n.physical a b e f)),
                (both-false down v.operational_min v.operational_max).1
                    (λ a b e f. ground (arith, n.operational a b e f)),
                (both-false ltb v.operational_min v.physical_min).1
                    (λ a b e f. ground (arith, n.min_above a b e f)),
                (both-false over v.operational_max v.physical_max).1
                    (λ a b e f. ground (arith, n.max_below a b e f)),
                (both-false over v.operational_min v.physical_max).1
                    (λ a b e f. ground (arith, n.min_below a b e f)),
                (both-false ltb v.operational_max v.physical_min).1
                    (λ a b e f. ground (arith, n.max_above a b e f)),
              )
              refl,
      )
