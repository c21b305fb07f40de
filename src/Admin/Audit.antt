-- ===== src/Admin/Audit.antt =====
-- api/src/tabayyun/services/admin/audit.py: one event per change, in its transaction.
use tabayyun.Prelude.{
  ℕ, ◌+◌, String, Option, none, some, List, [], ◌∷◌, ◌++◌, if◌then◌else◌, modify, is_empty, clip,
}
use tabayyun.Db.{Db, Host, AuditEvent, Detail}
use tabayyun.Admin.Errors.{Change}

pub record Actor : Type 0 where
  pub user_id : ℕ
  pub org_id : ℕ
  pub ip_address : Option String
  pub user_agent : Option String

-- `(user_agent or None) and user_agent[:500]`
unfoldable pub clipped_agent : Option String → Option String
unfolding is_empty clip
clipped_agent none = none
clipped_agent (some agent) = if is_empty agent then none else some (clip 500 agent)

-- `change(before, after)`, spread into the details of an event.
abbrev pub change : Detail → Detail → List (String × Detail)
change before after = ("before", before) ∷ ("after", after) ∷ []

-- `record`
module _ ⦃host : Host⦄ (actor : Actor) (action target_type : String) (target_id : ℕ)
    (workspace_id : Option ℕ) (details : List (String × Detail)) where
  unfoldable pub event : Db → AuditEvent
  unfolding clipped_agent
  event db = record {
    id = host.uuid4 db.drawn;
    org_id = actor.org_id;
    workspace_id = workspace_id;
    actor_user_id = some actor.user_id;
    action = action;
    target_type = target_type;
    target_id = target_id;
    details = details;
    ip_address = actor.ip_address;
    user_agent = clipped_agent actor.user_agent;
    created_at = db.now;
  }

  unfoldable pub record_event : Change (Unit {0})
  record_event =
      modify
        (λ db. record db { audit_events = db.audit_events ++ event db ∷ []; drawn = db.drawn + 1 })
