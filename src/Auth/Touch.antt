-- ===== src/Auth/Touch.antt =====
-- How `find_session` (api/src/tabayyun/auth/store.py) keeps a session alive that is used.

use Prim.Native.Nat.{◌+◌}
use tabayyun.Prelude.{
  ℕ, ◌≡◌, refl, ◌∙◌, ap, ◌≤◌, ◌<◌, Bool, true, false, ◌&&◌, some, ◌==◌, is_some, ltb, arith, first,
  any, is_some-first, any-update-first, any-false_of_imp, first-and_false, not, first_holds,
  Option-cases, inl, inr,
}
use tabayyun.Db.{Db, AuthSession}
use tabayyun.Auth.Sessions.{CurrentSession, touch_interval, is_found, touch, find_session}

is_some-find_session :
    (id_hash idle : ℕ) (db : Db)
    → is_some (find_session id_hash idle db).0 ≡ any (is_found id_hash idle db) db.sessions
unfolding find_session
is_some-find_session id_hash idle db =
    elim (Option-cases (first (is_found id_hash idle db) db.sessions)) [
      | inl absent ↦ ground (arith, is_some-first (is_found id_hash idle db) db.sessions)
      | inr (row, there) ↦ ground (arith, is_some-first (is_found id_hash idle db) db.sessions)
    ]

module _ (id_hash idle : ℕ) (db : Db) (later : ℕ) where
  abbrev pub afterwards : Db
  afterwards = record (find_session id_hash idle db).1 { now = later }

  -- A session that was found is found again before its end by whoever asks less than the idle time,
  -- less the interval of a touch, after: with uses that frequent a session does not go idle.
  pub find_session-stays :
      (s : CurrentSession)
      → (find_session id_hash idle db).0 ≡ some s
      → db.now ≤ later
      → later + touch_interval < db.now + idle
      → any (λ r. r.id_hash == id_hash && not (ltb later r.expires_at)) db.sessions ≡ false
      → is_some (find_session id_hash idle afterwards).0 ≡ true
  unfolding find_session touch
  find_session-stays s e on_time soon lasting =
      elim (Option-cases (first (is_found id_hash idle db) db.sessions)) [
        | inl absent ↦ absurd (ground arith)
        | inr (row, there) ↦
            let held = first_holds (is_found id_hash idle db) db.sessions row there in
            let p = is_found id_hash idle db in
            let late : AuthSession → Bool = λ r. not (ltb later r.expires_at) in
            let ends =
              first-and_false p late db.sessions row
                (any-false_of_imp (λ r. p r && late r) (λ r. r.id_hash == id_hash && late r)
                  (λ r h. ground arith) db.sessions lasting)
                there in
            let q : AuthSession → Bool =
              λ s. s.id == row.id && ltb (s.last_seen_at + touch_interval) db.now in
            let f : AuthSession → AuthSession = λ s. record s { last_seen_at = db.now } in
            let touched : (find_session id_hash idle db).1 ≡ touch row.id db =
              rw (there, find_session) refl in
            is_some-find_session id_hash idle afterwards
            ∙ ap (λ d. any (is_found id_hash idle (record d { now = later })) d.sessions) touched
            ∙ (any-update-first p q (is_found id_hash idle (record db { now = later })) f
                db.sessions row there (ground (arith, held, ends)))
      ]
