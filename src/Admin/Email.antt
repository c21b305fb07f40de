-- ===== src/Admin/Email.antt =====
-- Email addresses of api/src/tabayyun/services/admin/invitations.py.
use Prim.Native.Nat.{◌+◌}
use Prim.Native.Char.{code}
use Prim.Native.String.{[], ◌∷◌}
use tabayyun.Prelude.{
  ℕ, Bool, false, ◌&&◌, ◌||◌, not, Option, none, some, String, ◌==◌, if◌then◌else◌, ltb, chars,
  is_space, strip, Outcome, ok, err,
}
use tabayyun.Admin.Errors.{AdminError, invalid}

-- `MAX_EMAIL`
abbrev pub max_email : ℕ
max_email = 254

-- The rest of a domain from some place on: how far it is, and where its last dot stands.
unfoldable pub is_domain : ℕ → Option ℕ → String → Bool
is_domain at dot [] = elim dot [ none ↦ false | some d ↦ ltb 0 d && ltb (d + 1) at ]
is_domain at dot (c ∷ rest) =
    let here = if code c == 46 then some at else dot in
    let later = is_domain (at + 1) here rest in
    if code c == 64 || is_space (code c) then false else later

-- `EMAIL_PATTERN.fullmatch`, from the place in the part before the `@` on.
unfoldable pub is_address : ℕ → String → Bool
unfolding is_domain
is_address at [] = false
is_address at (c ∷ rest) =
    let domain = is_domain 0 none rest in
    let later = is_address (at + 1) rest in
    if code c == 64 then ltb 0 at && domain else if is_space (code c) then false else later

-- `normalise_email`; `lower` is `str.lower`.
unfoldable pub normalise_email : (lower : String → String) → String → Outcome AdminError String
unfolding is_address chars
normalise_email lower raw =
    let email = lower (strip raw) in
    if ltb max_email (chars email) || not (is_address 0 email)
    then err (invalid "invalid_email")
    else ok email
