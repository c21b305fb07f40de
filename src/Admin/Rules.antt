-- ===== src/Admin/Rules.antt =====
-- api/src/tabayyun/services/admin/rules.py: who may change whose org role.
use tabayyun.Prelude.{
  ℕ, Bool, false, ◌&&◌, ◌||◌, not, Option, none, some, leb, if◌then◌else◌, Outcome, ok, err,
}
use tabayyun.Authz.Roles.{OrgRole, is_org_admin, is_owner}
use tabayyun.Admin.Errors.{AdminError, forbidden, conflict}

-- `new is OrgRole.OWNER`; no role stands for the removal.
abbrev pub becomes_owner : Option OrgRole → Bool
becomes_owner none = false
becomes_owner (some role) = is_owner role

unfoldable pub check_role_change :
    OrgRole → OrgRole → Option OrgRole → ℕ → Outcome AdminError (Unit {0})
check_role_change actor target new owners =
    if not (is_org_admin actor)
    then err forbidden
    else if (is_owner target || becomes_owner new) && not (is_owner actor)
    then err forbidden
    else if is_owner target && not (becomes_owner new) && leb owners 1
    then err (conflict "last_owner")
    else ok tt
