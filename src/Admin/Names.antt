-- ===== src/Admin/Names.antt =====
-- api/src/tabayyun/services/admin/names.py. The zone database of `zoneinfo` is the parameter
-- `known_zone`.
use text.Mathlib.Text.{find?, starts_with}
use tabayyun.Prelude.{
  ℕ, String, Bool, ◌&&◌, ◌||◌, leb, is_some, if◌then◌else◌, Outcome, ok, err, split, join, strip,
  chars, is_empty,
}
use tabayyun.Admin.Errors.{AdminError, invalid}

abbrev pub max_name : ℕ
max_name = 100

unfoldable pub clean_name : String → Outcome AdminError String
unfolding split join chars
clean_name name =
    let cleaned = join (split name) in
    if leb 1 (chars cleaned) && leb (chars cleaned) max_name
    then ok cleaned
    else err (invalid "invalid_name")

unfoldable pub clean_timezone : (String → Bool) → String → Outcome AdminError String
unfolding strip is_empty
clean_timezone known_zone zone =
    let tz = strip zone in
    if is_empty tz || starts_with tz "/" || is_some (find? tz "..")
    then err (invalid "invalid_timezone")
    else if known_zone tz
    then ok tz
    else err (invalid "invalid_timezone")
