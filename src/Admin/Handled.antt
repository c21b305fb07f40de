-- ===== src/Admin/Handled.antt =====
-- Every admin request against the audit log (api/src/tabayyun/routers/admin.py).
use tabayyun.Prelude.{ℕ, ◌≡◌, ok, pure, >>=-eq-ok, arith, subst}
use tabayyun.Db.{Db, Host}
use tabayyun.Admin.Errors.{Change}
use tabayyun.Admin.Audit.{Actor}
use tabayyun.Admin.Log.{Reads, Logs, Logged, Logs-bind}
use tabayyun.Admin.Routes.{
  Request, change_member_role, org_admin, org_owner, workspace_admin, done, handle,
}
use tabayyun.Admin.Events.{operations}

pub Reads-org_admin : (actor : Actor) → Reads (org_admin actor)
unfolding org_admin
Reads-org_admin actor = record { keeps = λ db a after e. ground arith }

pub Reads-org_owner : (actor : Actor) → Reads (org_owner actor)
unfolding org_owner
Reads-org_owner actor = record { keeps = λ db a after e. ground arith }

pub Reads-workspace_admin : (actor : Actor) (id : ℕ) → Reads (workspace_admin actor id)
unfolding workspace_admin
Reads-workspace_admin actor id = record { keeps = λ db a after e. ground arith }

Logs-done : {A : Type 0} (actor : Actor) (m : Change A) → Logs actor m → Logs actor (done m)
Logs-done actor m h = record {
  does = λ db b after e.
      let (a, s, em, ef) = >>=-eq-ok m (λ _. pure tt) db e in
      let same : after ≡ s = cc in subst (λ t. Logged actor db t) (cc) (h.does db a s em);
}

ruleset request_rules =
    (operations, Logs-bind, Logs-done, Reads-org_admin, Reads-org_owner, Reads-workspace_admin)

module _ ⦃host : Host⦄ (actor : Actor) where
  handle-Logs : (request : Request) → Logs actor (handle actor request)
  unfolding handle
  handle-Logs (change_member_role user_id role) = search request_rules depth 7
  handle-Logs _ = search request_rules depth 7

  -- A request that the admin API answers has either changed nothing and logged nothing, or has added
  -- one event to the log, of its actor and in the actor's org, behind the events there were.
  pub handle-Logged :
      (request : Request) (db after : Db)
      → handle actor request db ≡ ok (tt, after)
      → Logged actor db after
  handle-Logged request db after e = (handle-Logs request).does db tt after e
