-- ===== src/Admin/Log.antt =====
-- The audit log of the admin services (api/src/tabayyun/services/admin/audit.py and its callers):
-- rules for what a transaction adds to it, one for each way to build one.
use tabayyun.Prelude.{
  ℕ, ◌≡◌, refl, subst, Bool, true, false, Option, some, String, List, [], ◌∷◌, ◌++◌, if◌then◌else◌,
  arith, Outcome, ok, err, pure, gets, lift, ensure, ◌>>=◌, ◌>>◌, >>=-eq-ok,
}
use tabayyun.Db.{Db, Host, AuditEvent, Detail}
use tabayyun.Admin.Errors.{AdminError, Change}
use tabayyun.Admin.Audit.{Actor, event, record_event}

-- One event of the actor, in their org, behind the events there were.
pub record Adds (actor : Actor) (db after : Db) : Type 0 where
  pub added : AuditEvent
  pub log : after.audit_events ≡ db.audit_events ++ added ∷ []
  pub org : added.org_id ≡ actor.org_id
  pub by : added.actor_user_id ≡ some actor.user_id

-- A change that did nothing logs nothing, and any other adds one event.
pub data Logged (actor : Actor) (db after : Db) : Type 0 where
  idle : after ≡ db → Logged actor db after
  logged : Adds actor db after → Logged actor db after

-- An action that only reads.
pub record Reads {A : Type 0} (m : Change A) : Type 0 where
  pub keeps : (db : Db) (a : A) (after : Db) → m db ≡ ok (a, after) → after ≡ db

-- An action that leaves the log alone.
pub record Quiet {A : Type 0} (m : Change A) : Type 0 where
  pub silent :
      (db : Db) (a : A) (after : Db) → m db ≡ ok (a, after) → after.audit_events ≡ db.audit_events

pub record Logs {A : Type 0} (actor : Actor) (m : Change A) : Type 0 where
  pub does : (db : Db) (a : A) (after : Db) → m db ≡ ok (a, after) → Logged actor db after

pub record AlwaysLogs {A : Type 0} (actor : Actor) (m : Change A) : Type 0 where
  pub adds : (db : Db) (a : A) (after : Db) → m db ≡ ok (a, after) → Adds actor db after

pub Reads-gets : {A : Type 0} (f : Db → A) → Reads (gets f)
Reads-gets f = record { keeps = λ db a after e. cc }

pub Reads-lift : {A : Type 0} (r : Outcome AdminError A) → Reads (lift r)
Reads-lift (ok a) = record { keeps = λ db a after e. cc }
Reads-lift (err x) = record { keeps = λ db a after e. cc }

pub Reads-ensure : (b : Bool) (x : AdminError) → Reads (ensure b x)
Reads-ensure true x = record { keeps = λ db a after e. cc }
Reads-ensure false x = record { keeps = λ db a after e. cc }

pub Reads-pure : {A : Type 0} (a : A) → Reads (pure a)
Reads-pure a = record { keeps = λ db b after e. cc }

pub Reads-if :
    {A : Type 0} (b : Bool) (m n : Change A) → Reads m → Reads n → Reads (if b then m else n)
Reads-if true m n hm hn = hm
Reads-if false m n hm hn = hn

pub Logs-pure : {A : Type 0} (actor : Actor) (a : A) → Logs actor (pure a)
Logs-pure actor a = record { does = λ db b after e. idle (cc) }

pub Logs-if :
    {A : Type 0} (actor : Actor) (b : Bool) (m n : Change A)
    → Logs actor m
    → Logs actor n
    → Logs actor (if b then m else n)
Logs-if actor true m n hm hn = hm
Logs-if actor false m n hm hn = hn

pub Logs-AlwaysLogs :
    {A : Type 0} (actor : Actor) (m : Change A) → AlwaysLogs actor m → Logs actor m
Logs-AlwaysLogs actor m h = record { does = λ db a after e. logged (h.adds db a after e) }

pub Logs-bind :
    {A B : Type 0} (actor : Actor) (m : Change A) (f : A → Change B)
    → Reads m
    → ((a : A) → Logs actor (f a))
    → Logs actor (m >>= f)
Logs-bind actor m f r h = record {
  does = λ db b after e.
      let (a, s, em, ef) = >>=-eq-ok m f db e in
      subst (λ t. Logged actor t after) (r.keeps db a s em) ((h a).does s b after ef);
}

Adds-from :
    (actor : Actor) (db s after : Db)
    → s.audit_events ≡ db.audit_events
    → Adds actor s after
    → Adds actor db after
Adds-from actor db s after q a = record {
  added = a.added;
  log = rw q at a.log;
  org = a.org;
  by = a.by;
}

pub AlwaysLogs-bind :
    {A B : Type 0} (actor : Actor) (m : Change A) (f : A → Change B)
    → Quiet m
    → ((a : A) → AlwaysLogs actor (f a))
    → AlwaysLogs actor (m >>= f)
AlwaysLogs-bind actor m f r h = record {
  adds = λ db b after e.
      let (a, s, em, ef) = >>=-eq-ok m f db e in
      Adds-from actor db s after (r.silent db a s em) ((h a).adds s b after ef);
}

pub Quiet-Reads : {A : Type 0} (m : Change A) → Reads m → Quiet m
Quiet-Reads m r = record { silent = λ db a after e. rw (r.keeps db a after e) }

module _ ⦃host : Host⦄ (actor : Actor) (action target_type : String) (target_id : ℕ)
    (workspace_id : Option ℕ) (details : List (String × Detail)) where
  pub AlwaysLogs-record_event :
      AlwaysLogs actor (record_event actor action target_type target_id workspace_id details)
  unfolding record_event event
  AlwaysLogs-record_event = record {
    adds = λ db a after e. record {
      added = event actor action target_type target_id workspace_id details db;
      log = ground arith;
      org = refl;
      by = refl;
    };
  }

  pub AlwaysLogs-event_then :
      {A : Type 0} (a : A)
      → AlwaysLogs actor
          (record_event actor action target_type target_id workspace_id details >> pure a)
  unfolding record_event event
  AlwaysLogs-event_then a = record {
    adds = λ db b after e. record {
      added = event actor action target_type target_id workspace_id details db;
      log = ground arith;
      org = refl;
      by = refl;
    };
  }

pub ruleset log_rules = (
  Reads-gets, Reads-lift, Reads-ensure, Reads-pure, Reads-if, Logs-pure, Logs-if, Logs-AlwaysLogs,
  Logs-bind, AlwaysLogs-bind, AlwaysLogs-record_event, AlwaysLogs-event_then,
)
