-- ===== src/Engine/Calls.antt =====
-- What the loop over the calls leaves in the cache's coverage
-- (api/src/tabayyun/services/fetches.py).
use Prim.Native.Nat.{◌+◌, ◌-◌}
use tabayyun.Prelude.{
  ℕ, ◌≡◌, refl, ap, sym, subst, ◌<◌, Bool, true, ◌&&◌, ◌||◌, not, Option, none, List, [], ◌∷◌, ◌==◌,
  ltb, any, arith, Bool-cases, Option-cases, Outcome-cases, clip, ◌⊎◌, inl, inr,
}
use tabayyun.Fetch.Instants.{datetime_to_ns}
use tabayyun.Fetch.Coverage.{holds}
use tabayyun.Fetch.Plan.{PointRef, Call, settled_end}
use tabayyun.Engine.Tables.{Store}
use tabayyun.Engine.Prepare.{Stop, JobPlan}
use tabayyun.Engine.Call.{
  FetchOutcome, Turn, Batch, failure, fetched, Collected, CallEnd, done, stopped, AfterCall,
  checked_rows, collect, put, add_to, is_asked, ended, or_else, record_call, write_tables,
  finish_call, run_call, is_none_list, with_errors,
}
use tabayyun.Engine.Execute.{counted, run_calls}
use tabayyun.Engine.Covers.{is_cached, record_points_kept, record_points_new}

-- Every point that failed has its error.
abbrev Noted : Collected → Type 0
Noted c = c.errors ≡ [] → c.failed ≡ []

put-ne-none : {V : Type 0} (k : ℕ) (v : V) (d : List (ℕ × V)) → put k v d ≡ [] → ⊥
unfolding put
put-ne-none k v [] e = cc
put-ne-none k v ((j, w) ∷ d) e = elim (Bool-cases (j == k)) [
  | inl h ↦ cc (rw h at e)
  | inr h ↦ cc (rw h at e)
]

-- Errors are only added, and each failed point gets one.
collect-Noted :
    (points : List PointRef) (bs : List Batch) (c : Collected)
    → Noted c
    → Noted (collect points bs c).0 × ((collect points bs c).0.errors ≡ [] → c.errors ≡ [])
unfolding collect
collect-Noted points [] c h = (h, λ e. e)
collect-Noted points (failure id message ∷ bs) c h = elim (Bool-cases (is_asked id points)) [
  | inl e ↦
      let errors = put id (clip 500 message) c.errors in
      let never = λ (k : errors ≡ []). put-ne-none id (clip 500 message) c.errors k in
      let (noted, grown) =
        collect-Noted points bs (record c { failed = id ∷ c.failed; errors = errors })
          (λ k. absurd (never k)) in
      rw e (noted, λ k. absurd (never (grown k)))
  | inr e ↦ rw e (h, λ k. k)
]
collect-Noted points (fetched id table ∷ bs) c h = elim (Bool-cases (is_asked id points)) [
  | inr e ↦ rw e (h, λ k. k)
  | inl e ↦ elim (Outcome-cases (checked_rows table)) [
    | inl (n, k) ↦
        rw (e, k) (collect-Noted points bs (record c { tables = add_to id n c.tables }) h)
    | inr (x, k) ↦ rw (e, k) (h, λ k. k)
  ]
]

pub CallEnd-cases : (r : CallEnd) → ((rows : ℕ) × (r ≡ done rows)) ⊎ ((e : Stop) × (r ≡ stopped e))
CallEnd-cases (done rows) = inl (rows, refl)
CallEnd-cases (stopped e) = inr (e, refl)

-- Where the engine has recorded a call.
pub record Recorded (plan : JobPlan) (fetch_id : ℕ) (call : Call) (turn : Turn) (o : FetchOutcome)
    (s : Store) (rows : ℕ) (failed : List ℕ) (a : AfterCall) : Type 0 where
  pub series_rows : List (ℕ × ℕ)
  pub store : a.store ≡ record_call plan fetch_id call turn failed series_rows rows s
  pub quiet : a.outcome.point_errors ≡ [] → (failed ≡ []) × (o.point_errors ≡ [])

-- What a call collects.
abbrev pub collected : Call → Turn → FetchOutcome → Collected × Option Stop
collected call turn o =
    collect call.points turn.batches (record { tables = []; failed = []; errors = o.point_errors })

module _ (has_cache : Bool) (plan : JobPlan) (fetch_id : ℕ) (call : Call) (turn : Turn) where
  finish_call-Recorded :
      (c : Collected) (o : FetchOutcome) (s : Store) (rows : ℕ)
      → Noted c
      → (finish_call has_cache plan fetch_id call turn c (with_errors c.errors o) s).result
        ≡ done rows
      → (c.errors ≡ [] → o.point_errors ≡ [])
      → Recorded plan fetch_id call turn o s rows c.failed
          (finish_call has_cache plan fetch_id call turn c (with_errors c.errors o) s)
  unfolding finish_call with_errors
  finish_call-Recorded c o s rows noted e grown =
      elim (Bool-cases (not has_cache && not (is_none_list c.tables))) [
        | inl k ↦ absurd (cc (rw k at e))
        | inr k ↦ elim (Option-cases (write_tables turn c.failed c.tables 0 o.series_rows).2) [
          | inr (why, w) ↦ absurd (cc (rw (k, w) at e))
          | inl w ↦
              let (written, series_rows, why) =
                write_tables turn c.failed c.tables 0 o.series_rows in
              let same : written ≡ rows = cc (rw (k, w) at e) in
              rw (k, w)
                (record {
                  series_rows = series_rows;
                  store =
                      ap (λ n. record_call plan fetch_id call turn c.failed series_rows n s) same;
                  quiet = λ q. (noted q, grown q);
                })
        ]
      ]

  pub run_call-Recorded :
      (o : FetchOutcome) (s : Store) (rows : ℕ)
      → (run_call has_cache plan fetch_id call turn o s).result ≡ done rows
      → Recorded plan fetch_id call turn o s rows
          (collected call turn o).0.failed
          (run_call has_cache plan fetch_id call turn o s)
  unfolding run_call
  run_call-Recorded o s rows e =
      let start : Collected = record { tables = []; failed = []; errors = o.point_errors } in
      let (c, why) = collect call.points turn.batches start in
      let (noted, grown) = collect-Noted call.points turn.batches start (λ q. refl) in
      elim (Option-cases (or_else why (ended turn.ending))) [
        | inr (x, k) ↦ absurd (cc (rw (k, run_call) at e))
        | inl k ↦
            rw (k, run_call) (finish_call-Recorded c o s rows noted (rw (k, run_call) at e) grown)
      ]

-- A call asks for the series at the instant.
abbrev pub asks_for : (t series_id : ℕ) → Call → Bool
asks_for t series_id call = holds t (call.start_ns, call.end_ns) && is_asked series_id call.points

module _ (t series_id : ℕ) (plan : JobPlan) (fetch_id : ℕ) where
  -- A recorded call keeps what is cached, and what it asked for is cached once it has settled.
  record_call_cached :
      (call : Call) (turn : Turn) (failed : List ℕ) (series_rows : List (ℕ × ℕ)) (rows : ℕ)
      (s : Store)
      → failed ≡ []
      → t < datetime_to_ns turn.now - plan.settle_ns
      → (is_cached t series_id s.coverage || asks_for t series_id call) ≡ true
      → is_cached t series_id
          (record_call plan fetch_id call turn failed series_rows rows s).coverage
        ≡ true
  unfolding record_call settled_end
  record_call_cached call turn failed series_rows rows s quiet settled h =
      let end = settled_end call.end_ns (datetime_to_ns turn.now) plan.settle_ns in
      let table = s.coverage in
      elim (Bool-cases (ltb call.start_ns end)) [
        | inl e ↦ rw e (elim (Bool-cases (is_cached t series_id table)) [
          | inl k ↦
              record_points_kept t series_id plan.org_id call.start_ns end turn.now failed
                series_rows call.points table k
          | inr k ↦
              record_points_new t series_id plan.org_id call.start_ns end turn.now failed
                series_rows call.points table (ground (arith, h)) (rw quiet refl)
                (ground (arith, h, settled))
        ])
        | inr e ↦ rw e (ground (arith, h, settled))
      ]

  module _ (has_cache : Bool) (turns : ℕ → Turn)
      (settled : (n : ℕ) → t < datetime_to_ns (turns n).now - plan.settle_ns) where
    -- The loop that ran to its end, without a failed point, has cached what its calls asked for.
    pub run_calls_cached :
        (n : ℕ) (calls : List Call) (o : FetchOutcome) (s : Store)
        → (run_calls has_cache turns plan fetch_id n calls o s).why ≡ none
        → (run_calls has_cache turns plan fetch_id n calls o s).outcome.point_errors ≡ []
        → ((is_cached t series_id s.coverage || any (asks_for t series_id) calls) ≡ true
            → is_cached t series_id
                (run_calls has_cache turns plan fetch_id n calls o s).store.coverage
              ≡ true)
          × (o.point_errors ≡ [])
    unfolding run_calls any run_call
    run_calls_cached n [] o s e q = (λ h. ground (arith, h), q)
    run_calls_cached n (call ∷ calls) o s e q = elim (Bool-cases (turns n).spent) [
      | inl k ↦ absurd (cc (rw k at e))
      | inr k ↦
          let a = run_call has_cache plan fetch_id call (turns n) o s in
          elim (CallEnd-cases a.result) [
            | inr (x, j) ↦ absurd (cc (rw (k, j) at e))
            | inl (rows, j) ↦
                let (later, quiet) =
                  run_calls_cached (n + 1) calls (counted rows a.outcome) a.store (rw (k, j) at e)
                    (rw (k, j) at q) in
                let r = run_call-Recorded has_cache plan fetch_id call (turns n) o s rows j in
                let (none_failed, before) = r.quiet quiet in
                let here =
                  λ (h : (is_cached t series_id s.coverage || asks_for t series_id call) ≡ true).
                    subst (λ d. is_cached t series_id d.coverage ≡ true) (sym r.store)
                      (record_call_cached call (turns n) (collected call (turns n) o).0.failed
                        r.series_rows rows s none_failed (settled n) h) in
                rw (k, j)
                  (
                    λ h. later (elim (Bool-cases (any (asks_for t series_id) calls)) [
                      | inl y ↦ ground (arith, y)
                      | inr y ↦ ground (arith, here (ground (arith, h, y)))
                    ]),
                    before,
                  )
          ]
    ]
