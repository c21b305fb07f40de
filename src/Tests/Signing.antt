-- ===== src/Tests/Signing.antt =====
-- Login flows, sessions and requests, at the sample.

use tabayyun.Prelude.{
  ℕ, ◌≡◌, refl, true, false, ◌&&◌, not, none, some, String, ◌==◌, is_some, arith, if◌then◌else◌,
  first, any, update, ok, is_empty, select, str_eq, Mem,
}
use tabayyun.Authz.Roles.{Action, Principal, Scope, allows, effective_role, candidates, max_role}
use tabayyun.Authz.Policy.{
  is_active, is_active_member, active_member, direct_role, team_rows, values_of, workspace_role,
  authorize,
}
use tabayyun.Db.{AuthSession}
use tabayyun.Auth.Flows.{Flow, create_flow, take_flow, take_flow-create_flow}
use tabayyun.Auth.Sessions.{
  CurrentSession, current_of, touch, find_session, revoke_where, revoke_user_sessions, is_kept,
  given,
}
use tabayyun.Auth.Revoked.{revoke_user_sessions-ends}
use tabayyun.Auth.Touch.{find_session-stays, afterwards}
use tabayyun.Auth.Request.{
  Settings, Request, oidc, look_up, fresh_session, current_session, require_session, get_principal,
  get_workspace_id, authorized, require,
}
use tabayyun.Auth.Current.{look_up-disabled, get_principal-session, start, IsNamed}
use tabayyun.Auth.Scopes.{require-allows}
use tabayyun.Tests.Samples.{sample, session, principal}

abbrev flow : Flow
flow = record {
  state = "state";
  nonce = "nonce";
  code_verifier = "verifier";
  method = "passkey";
  next_path = "/";
}

take_flow-create_flow_example :
    (take_flow 7 (record (create_flow 7 flow sample) { now = 1000000001 })).0 ≡ some (flow, true)
unfolding any
take_flow-create_flow_example = take_flow-create_flow 7 flow sample 1000000001 refl

abbrev idle : ℕ
idle = 600000000

abbrev kept : CurrentSession
kept = current_of sample.users (session 30 300 12)

revoke_user_sessions-ends_example : (kept.user_id == 12 && not (is_kept (some 30) kept.id)) ≡ false
unfolding revoke_user_sessions revoke_where update find_session first any
revoke_user_sessions-ends_example =
    revoke_user_sessions-ends 12 (some 30) sample 300 idle 1000000001 kept refl

find_session-stays_example :
    is_some (find_session 300 idle (afterwards 300 idle sample 1500000000)).0 ≡ true
unfolding find_session first any
find_session-stays_example =
    find_session-stays 300 idle sample 1500000000 kept refl (ground arith) (ground arith) refl

abbrev settings : Settings
settings = record {
  auth_mode = oidc;
  session_idle = idle;
  passkey_fresh = 600000000;
  token_hash = λ token. if str_eq token "token" then 300 else 310;
  parse_uuid = λ text. some 5;
}

abbrev request : Request
request = record { session_cookie = some "token"; workspace_header = some "5" }

abbrev gone : CurrentSession
gone = current_of sample.users (session 31 310 13)

look_up-disabled_example :
    ((look_up settings request "other" sample).0 ≡ none)
    × ((id_hash idle later : ℕ) (other : CurrentSession)
        → (find_session id_hash idle
            (record (look_up settings request "other" sample).1 { now = later })).0
          ≡ some other
        → (other.user_id == gone.user_id) ≡ false)
unfolding find_session first any
look_up-disabled_example = look_up-disabled settings request "other" sample gone refl refl

get_principal-session_example :
    (token : String) × (row : AuthSession) × (given request.session_cookie ≡ some token)
    × Mem row sample.sessions
    × IsNamed (settings.token_hash token) settings.session_idle (principal 12) sample row
unfolding get_principal require_session current_session fresh_session look_up find_session first any
    is_empty
get_principal-session_example =
    get_principal-session settings request sample (principal 12) refl refl

abbrev plant : Scope
plant = record { org_id = 1; workspace_id = 5 }

require-allows_example :
    (p : Principal) × ((get_principal settings request (start settings request sample)).0 ≡ ok p)
    × (plant.org_id ≡ p.org_id)
    × (allows
          (workspace_role
            (get_principal settings request (start settings request sample)).1.db
            p
            plant.workspace_id)
          Action.read
        ≡ true)
unfolding require get_principal require_session current_session fresh_session look_up find_session
    first any is_empty get_workspace_id authorized authorize workspace_role active_member
    is_active_member is_active direct_role team_rows values_of select effective_role candidates
    max_role allows touch update
require-allows_example =
    require-allows settings request Action.read (start settings request sample) plant refl
