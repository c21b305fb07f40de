-- ===== src/Admin/Teams.antt =====
-- api/src/tabayyun/services/admin/teams.py. `session.flush()` raises IntegrityError only for a row
-- that a concurrent transaction has inserted, and is left out.
use Prim.Native.Nat.{◌+◌}
use tabayyun.Prelude.{
  ℕ, Bool, true, false, ◌&&◌, not, Option, none, some, String, [], ◌∷◌, ◌++◌, ◌==◌, str_eq, is_some,
  if◌then◌else◌, first, any, update, delete, ok, err, pure, lift, gets, modify, ensure, ◌>>=◌, ◌>>◌,
}
use tabayyun.Db.{Host, User, Team, TeamMember, text, bootstrap_user_id}
use tabayyun.Admin.Errors.{not_found, conflict, Change}
use tabayyun.Admin.Audit.{Actor, change, record_event}
use tabayyun.Admin.Names.{clean_name}

-- `if row is None: raise NotFoundError`
abbrev pub found : {A : Type 0} → Option A → Change A
found none db = err not_found
found (some a) db = ok (a, db)

unfoldable pub get_team : ℕ → ℕ → Change Team
get_team org_id team_id db = found (first (λ t. t.org_id == org_id && t.id == team_id) db.teams) db

-- `taken is not None and taken != besides`
abbrev pub is_other : Option ℕ → Option ℕ → Bool
is_other none besides = false
is_other (some taken) none = true
is_other (some taken) (some besides) = not (taken == besides)

abbrev pub named : ℕ → String → Team → Bool
named org_id name t = t.org_id == org_id && str_eq t.name name

abbrev pub team_id_of : Option Team → Option ℕ
team_id_of none = none
team_id_of (some t) = some t.id

unfoldable pub name_free : ℕ → String → Option ℕ → Change (Unit {0})
name_free org_id name besides db =
    if is_other (team_id_of (first (named org_id name) db.teams)) besides
    then err (conflict "name_taken")
    else ok (tt, db)

unfoldable pub org_user : ℕ → ℕ → Change User
org_user org_id user_id db =
    if user_id == bootstrap_user_id
    then err not_found
    else found
        (first
          (λ u.
            u.id == user_id
            && any (λ m. m.user_id == u.id && m.org_id == org_id) db.org_memberships)
          db.users)
        db

abbrev pub in_team : ℕ → ℕ → TeamMember → Bool
in_team team_id user_id t = t.team_id == team_id && t.user_id == user_id

-- `session.delete(team)` and the cascades of its foreign keys (db/models.py).
unfoldable pub drop_team : ℕ → Change (Unit {0})
drop_team team_id = modify λ db. record db {
  teams = delete (λ t. t.id == team_id) db.teams;
  team_members = delete (λ t. t.team_id == team_id) db.team_members;
  team_roles = delete (λ r. r.team_id == team_id) db.team_roles;
}

unfoldable pub add_row : ℕ → ℕ → ℕ → Change (Unit {0})
add_row org_id team_id user_id = modify λ db. record db {
  team_members =
      db.team_members ++ record { org_id = org_id; team_id = team_id; user_id = user_id } ∷ [];
}

unfoldable pub drop_row : ℕ → ℕ → Change (Unit {0})
drop_row team_id user_id =
    modify λ db. record db { team_members = delete (in_team team_id user_id) db.team_members }

unfoldable pub rename_row : ℕ → String → Change (Unit {0})
rename_row team_id name = modify λ db. record db {
  teams = update (λ t. t.id == team_id) (λ t. record t { name = name }) db.teams;
}

module _ ⦃host : Host⦄ where
  unfoldable pub add_team : ℕ → String → Change Team
  add_team org_id name db =
      let team : Team = record { id = host.uuid4 db.drawn; org_id = org_id; name = name } in
      ok (team, record db { teams = db.teams ++ team ∷ []; drawn = db.drawn + 1 })

  unfoldable pub create_team : Actor → String → Change Team
  create_team actor name = do
    cleaned ← lift (clean_name name)
    name_free actor.org_id cleaned none
    team ← add_team actor.org_id cleaned
    record_event actor "team.created" "team" team.id none (("name", text cleaned) ∷ [])
    pure team

  unfoldable pub rename_team : Actor → ℕ → String → Change Team
  rename_team actor team_id name = do
    team ← get_team actor.org_id team_id
    cleaned ← lift (clean_name name)
    if str_eq cleaned team.name then pure team else do
      name_free actor.org_id cleaned (some team.id)
      rename_row team.id cleaned
      record_event actor "team.renamed" "team" team.id none (change (text team.name) (text cleaned))
      pure (record team { name = cleaned })

  unfoldable pub delete_team : Actor → ℕ → Change (Unit {0})
  delete_team actor team_id = do
    team ← get_team actor.org_id team_id
    drop_team team.id
    record_event actor "team.deleted" "team" team_id none (("name", text team.name) ∷ [])

  unfoldable pub add_member : Actor → ℕ → ℕ → Change (Unit {0})
  add_member actor team_id user_id = do
    team ← get_team actor.org_id team_id
    user ← org_user actor.org_id user_id
    present ← gets (λ db. is_some (first (in_team team_id user_id) db.team_members))
    if present then pure tt else do
      add_row actor.org_id team_id user_id
      record_event actor "team.member_added" "team" team_id none
          (("team", text team.name) ∷ ("email", text user.email) ∷ [])

  unfoldable pub remove_member : Actor → ℕ → ℕ → Change (Unit {0})
  remove_member actor team_id user_id = do
    team ← get_team actor.org_id team_id
    present ← gets (λ db. is_some (first (in_team team_id user_id) db.team_members))
    row ← gets (λ db. first (λ u. u.id == user_id) db.users)
    ensure present not_found
    user ← found row
    drop_row team_id user_id
    record_event actor "team.member_removed" "team" team_id none
        (("team", text team.name) ∷ ("email", text user.email) ∷ [])
