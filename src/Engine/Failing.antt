-- ===== src/Engine/Failing.antt =====
-- A call that fails, or a point that fails in it, leaves no coverage behind (`_run_call` of
-- api/src/tabayyun/services/fetches.py).
use tabayyun.Prelude.{
  ℕ, ◌≡◌, refl, ap, sym, subst, Bool, true, false, ◌&&◌, ◌||◌, not, Option, none, some, List, [],
  ◌∷◌, ◌==◌, ltb, any, arith, Bool-cases, Option-cases, Outcome-cases, inl, inr, clip,
}
use tabayyun.Fetch.Instants.{datetime_to_ns}
use tabayyun.Fetch.Plan.{PointRef, Call, settled_end}
use tabayyun.Engine.Tables.{Store}
use tabayyun.Engine.Prepare.{Stop, JobPlan}
use tabayyun.Engine.Call.{
  FetchOutcome, Turn, Batch, failure, fetched, Collected, CallEnd, done, stopped, checked_rows,
  collect, put, add_to, is_asked, is_failed, ended, or_else, record_call, write_tables, finish_call,
  run_call, is_none_list, with_errors,
}
use tabayyun.Engine.Covers.{is_cached, record_points_other}
use tabayyun.Engine.Calls.{run_call-Recorded, collected, CallEnd-cases}

-- The connector says that it cannot read the series.
abbrev pub is_failure : ℕ → Batch → Bool
is_failure series_id (failure id message) = id == series_id
is_failure series_id (fetched id table) = false

module _ (series_id : ℕ) (points : List PointRef) where
  collect-is_failed :
      (bs : List Batch) (c : Collected)
      → (collect points bs c).1 ≡ none
      → (is_failed c.failed series_id || any (is_failure series_id) bs) ≡ true
      → is_failed (collect points bs c).0.failed series_id ≡ true
  unfolding collect any
  collect-is_failed [] c e h = ground (arith, h)
  collect-is_failed (failure id message ∷ bs) c e h = elim (Bool-cases (is_asked id points)) [
    | inr k ↦ absurd (cc (rw k at e))
    | inl k ↦
        let noted : Collected = record c {
          failed = id ∷ c.failed;
          errors = put id (clip 500 message) c.errors;
        } in
        rw k (collect-is_failed bs noted (rw k at e) (ground (arith, h)))
  ]
  collect-is_failed (fetched id table ∷ bs) c e h = elim (Bool-cases (is_asked id points)) [
    | inr k ↦ absurd (cc (rw k at e))
    | inl k ↦ elim (Outcome-cases (checked_rows table)) [
      | inr (x, j) ↦ absurd (cc (rw (k, j) at e))
      | inl (n, j) ↦
          rw (k, j)
            (collect-is_failed bs (record c { tables = add_to id n c.tables }) (rw (k, j) at e)
              (ground (arith, h)))
    ]
  ]

module _ (has_cache : Bool) (plan : JobPlan) (fetch_id : ℕ) (call : Call) (turn : Turn)
    (o : FetchOutcome) (s : Store) where
  finish_call_stopped :
      (c : Collected) (o' : FetchOutcome) (x : Stop)
      → (finish_call has_cache plan fetch_id call turn c o' s).result ≡ stopped x
      → (finish_call has_cache plan fetch_id call turn c o' s).store ≡ s
  unfolding finish_call
  finish_call_stopped c o' x e = elim (Bool-cases (not has_cache && not (is_none_list c.tables))) [
    | inl k ↦ rw k refl
    | inr k ↦ elim (Option-cases (write_tables turn c.failed c.tables 0 o'.series_rows).2) [
      | inr (y, w) ↦ rw (k, w) refl
      | inl w ↦ absurd (cc (rw (k, w) at e))
    ]
  ]

  run_call_stopped :
      (x : Stop)
      → (run_call has_cache plan fetch_id call turn o s).result ≡ stopped x
      → (run_call has_cache plan fetch_id call turn o s).store ≡ s
  unfolding run_call
  run_call_stopped x e =
      let (c, why) = collected call turn o in
      elim (Option-cases (or_else why (ended turn.ending))) [
        | inr (y, k) ↦ rw (k, run_call) refl
        | inl k ↦
            rw (k, run_call)
              (finish_call_stopped c (with_errors c.errors o) x (rw (k, run_call) at e))
      ]

  or_else-none : (a b : Option Stop) → or_else a b ≡ none → a ≡ none
  or_else-none none b h = refl
  or_else-none (some x) b h = h

  done_collects :
      (rows : ℕ)
      → (run_call has_cache plan fetch_id call turn o s).result ≡ done rows
      → (collected call turn o).1 ≡ none
  unfolding run_call
  done_collects rows e =
      let (c, why) = collected call turn o in
      elim (Option-cases (or_else why (ended turn.ending))) [
        | inr (y, k) ↦ absurd (cc (rw (k, run_call) at e))
        | inl k ↦ or_else-none why (ended turn.ending) k
      ]

  recorded_other :
      (t series_id rows : ℕ) (failed : List ℕ) (series_rows : List (ℕ × ℕ))
      → (is_asked series_id call.points && not (is_failed failed series_id)) ≡ false
      → is_cached t series_id
          (record_call plan fetch_id call turn failed series_rows rows s).coverage
        ≡ is_cached t series_id s.coverage
  unfolding record_call
  recorded_other t series_id rows failed series_rows out =
      let end = settled_end call.end_ns (datetime_to_ns turn.now) plan.settle_ns in
      elim (Bool-cases (ltb call.start_ns end)) [
        | inl k ↦ rw k (
            record_points_other t series_id plan.org_id call.start_ns end turn.now failed
              series_rows call.points s.coverage out)
        | inr k ↦ rw k refl
      ]

  done_uncovered :
      (rows t series_id : ℕ)
      → (run_call has_cache plan fetch_id call turn o s).result ≡ done rows
      → (not (is_asked series_id call.points) || any (is_failure series_id) turn.batches) ≡ true
      → is_cached t series_id (run_call has_cache plan fetch_id call turn o s).store.coverage
        ≡ is_cached t series_id s.coverage
  done_uncovered rows t series_id e h =
      let r = run_call-Recorded has_cache plan fetch_id call turn o s rows e in
      let c = (collected call turn o).0 in
      let start : Collected = record { tables = []; failed = []; errors = o.point_errors } in
      let out : (is_asked series_id call.points && not (is_failed c.failed series_id)) ≡ false =
        elim (Bool-cases (any (is_failure series_id) turn.batches)) [
          | inl k ↦
              let fails =
                collect-is_failed series_id call.points turn.batches start (done_collects rows e)
                  (ground (arith, k)) in
              ground (arith, fails)
          | inr k ↦ ground (arith, h, k)
        ] in
      subst (λ d. is_cached t series_id d.coverage ≡ is_cached t series_id s.coverage) (sym r.store)
        (recorded_other t series_id rows c.failed r.series_rows out)

  abbrev pub is_done : CallEnd → Bool
  is_done (done rows) = true
  is_done (stopped e) = false

  -- What is cached of a series stays what it was in a call that stops, in one that did not ask for the
  -- series, and in one in which the connector said that it cannot read the series.
  pub run_call-uncovered :
      (t series_id : ℕ)
      → (not (is_done (run_call has_cache plan fetch_id call turn o s).result)
          || not (is_asked series_id call.points)
          || any (is_failure series_id) turn.batches)
        ≡ true
      → is_cached t series_id (run_call has_cache plan fetch_id call turn o s).store.coverage
        ≡ is_cached t series_id s.coverage
  run_call-uncovered t series_id h =
      elim (CallEnd-cases (run_call has_cache plan fetch_id call turn o s).result) [
        | inr (x, e) ↦ ap (λ d. is_cached t series_id d.coverage) (run_call_stopped x e)
        | inl (rows, e) ↦ done_uncovered rows t series_id e (rw e at h)
      ]
