-- ===== src/Auth/Revoked.antt =====
-- What a revocation of api/src/tabayyun/auth/store.py ends.

use tabayyun.Prelude.{
  ℕ, ◌≡◌, refl, Bool, false, ◌&&◌, not, Option, some, String, List, ◌==◌, is_none, arith, first,
  any, any-update-false, first-and_false, some-injective, ap, sym, ◌∙◌, Option-cases, inl, inr,
}
use tabayyun.Db.{Db, User, AuthSession}
use tabayyun.Auth.Sessions.{
  CurrentSession, current_of, is_live, is_found, find_session, revoked_now, revoke_where, is_kept,
  revoke_user_sessions, given, same_text, revoke_by_idp,
}

module _ (chosen : AuthSession → Bool) (idle : ℕ) (db : Db) (later : ℕ) where
  -- No session that was to be revoked is live afterwards, at whatever time.
  revoke_where-none :
      any
        (λ s. is_live idle later s && chosen s)
        (revoke_where (λ s. is_none s.revoked_at && chosen s) db).1.sessions
      ≡ false
  unfolding revoke_where
  revoke_where-none = any-update-false _ _ (revoked_now db.now) (λ s. ground arith) db.sessions

-- The session that `find_session` finds is a row that it selects.
find_session-and_false :
    (q : AuthSession → Bool) (r : CurrentSession → Bool) (id_hash idle : ℕ) (db : Db)
    (s : CurrentSession)
    → ((users : List User) (row : AuthSession) → r (current_of users row) ≡ q row)
    → any (λ row. is_found id_hash idle db row && q row) db.sessions ≡ false
    → (find_session id_hash idle db).0 ≡ some s
    → r s ≡ false
unfolding find_session
find_session-and_false q r id_hash idle db s same h e =
    elim (Option-cases (first (is_found id_hash idle db) db.sessions)) [
      | inl absent ↦ absurd (ground arith)
      | inr (row, there) ↦
          let known = first-and_false (is_found id_hash idle db) q db.sessions row h there in
          let found = some-injective (current_of db.users row) s (rw (there, find_session) at e) in
          ap r (sym found) ∙ same db.users row ∙ known
    ]

-- After every session of a user but `keep` was revoked, no session that is found, at whatever time,
-- is one of that user's but the one kept.
pub revoke_user_sessions-ends :
    (user_id : ℕ) (keep : Option ℕ) (db : Db) (id_hash idle later : ℕ) (s : CurrentSession)
    → (find_session id_hash idle
        (record (revoke_user_sessions user_id keep db).1 { now = later })).0
      ≡ some s
    → (s.user_id == user_id && not (is_kept keep s.id)) ≡ false
unfolding revoke_user_sessions revoke_where
revoke_user_sessions-ends user_id keep db id_hash idle later s e =
    find_session-and_false (λ row. row.user_id == user_id && not (is_kept keep row.id))
      (λ c. c.user_id == user_id && not (is_kept keep c.id)) id_hash idle _ s (λ users row. refl)
      (any-update-false _ _ (revoked_now db.now) (λ row. ground arith) db.sessions) e

-- After a back-channel logout that names a session of the identity provider, no session of it is
-- live, at whatever time.
pub revoke_by_idp-ends :
    (issuer sid : String) (subject : Option String) (db : Db) (idle later : ℕ)
    → given (some sid) ≡ some sid
    → any
        (λ s. is_live idle later s && same_text s.idp_sid sid)
        (revoke_by_idp issuer (some sid) subject db).1.sessions
      ≡ false
unfolding revoke_by_idp
revoke_by_idp-ends issuer sid subject db idle later filled =
    rw (filled, revoke_by_idp) (revoke_where-none (λ s. same_text s.idp_sid sid) idle db later)
