-- ===== src/Admin/Revoking.antt =====
-- Revoking an invitation is final (api/src/tabayyun/services/admin/invitations.py).

use tabayyun.Prelude.{
  ℕ, ◌≡◌, refl, ap, ◌∙◌, Bool, true, false, ◌&&◌, ◌||◌, Option, none, some, String, List, [], ◌∷◌,
  ◌==◌, is_some, arith, first, ok, err, ensure, ◌>>◌, >>=-eq-ok, >>=-ok,
}
use tabayyun.Rows.{placed, update_at, first-placed, first-placed_update}
use tabayyun.Db.{Db, Host, Invitation, Detail, text}
use tabayyun.Admin.Errors.{conflict}
use tabayyun.Admin.Audit.{Actor, record_event}
use tabayyun.Admin.Teams.{found}
use tabayyun.Admin.Invitations.{
  Placed, status_of, is_pending, is_expired, get_invitation, put_row, revoke_invitation,
  resend_invitation,
}

abbrev asked : ℕ → ℕ → Invitation → Bool
asked org_id id i = i.org_id == org_id && i.id == id

get_invitation-found :
    (org_id id : ℕ) (db s : Db) (p : Placed)
    → get_invitation org_id id db ≡ ok (p, s)
    → (first (λ r. asked org_id id r.1) (placed db.invitations) ≡ some p) × (s ≡ db)
unfolding get_invitation
get_invitation-found org_id id db s p e =
    found_some (first (λ r. asked org_id id r.1) (placed db.invitations)) e
  where
    found_some : (o : Option Placed) → found o db ≡ ok (p, s) → (o ≡ some p) × (s ≡ db)
    found_some none h = absurd (cc)
    found_some (some r) h = (cc, cc)

-- An invitation that is revoked, where the look-up of its id finds it.
record IsRevoked (org_id id : ℕ) (db : Db) : Type 0 where
  place : ℕ
  row : Invitation
  stands : first (λ r. asked org_id id r.1) (placed db.invitations) ≡ some (place, row)
  over : is_some row.revoked_at ≡ true

never_pending :
    (i : Invitation) (clock : ℕ)
    → is_some i.revoked_at ≡ true
    → (is_pending (status_of i clock) || is_expired (status_of i clock)) ≡ false
unfolding status_of
never_pending i clock h = ground arith

module _ ⦃host : Host⦄ (actor : Actor) (id : ℕ) (db : Db) where
  behind_gate :
      (b : Bool) (gone : Invitation) (n target : ℕ) (w : Option ℕ)
      (details : List (String × Detail)) (s after : Db)
      → (ensure b (conflict "not_pending")
            >> (put_row n gone
                >> record_event actor "invitation.revoked" "invitation" target w details))
          s
        ≡ ok (tt, after)
      → after.invitations ≡ update_at n gone s.invitations
  unfolding put_row record_event
  behind_gate true gone n target w details s after e = ground arith
  behind_gate false gone n target w details s after e = absurd (cc)

  revoke_invitation-IsRevoked :
      (after : Db)
      → revoke_invitation actor id db ≡ ok (tt, after)
      → IsRevoked actor.org_id id after
  unfolding revoke_invitation put_row record_event
  revoke_invitation-IsRevoked after e =
      let q = asked actor.org_id id in
      let ((n, i), s, found, rest) = >>=-eq-ok (get_invitation actor.org_id id) _ db e in
      let (there, same) = get_invitation-found actor.org_id id db s (n, i) found in
      let gone : Invitation = record i { revoked_at = some s.now } in
      let (here, mine) = first-placed q db.invitations n i there in
      let kept = first-placed_update q gone db.invitations n i mine there in
      let rows : after.invitations ≡ update_at n gone db.invitations =
        behind_gate (is_pending (status_of i s.clock)) gone n i.id i.workspace_id
          (("email", text i.email) ∷ []) s after rest
        ∙ ap (λ d. update_at n gone d.invitations) same in
      record {
        place = n;
        row = gone;
        stands = ap (λ is. first (λ r. q r.1) (placed is)) rows ∙ kept;
        over = refl;
      }

get_invitation_at :
    (org_id id : ℕ) (db : Db) (p : Placed)
    → first (λ r. asked org_id id r.1) (placed db.invitations) ≡ some p
    → get_invitation org_id id db ≡ ok (p, db)
unfolding get_invitation
get_invitation_at org_id id db p e = ap (λ o. found o db) e

module _ ⦃host : Host⦄ (actor : Actor) (id : ℕ) (db : Db) (n : ℕ) (i : Invitation) where
  revoke_refused :
      get_invitation actor.org_id id db ≡ ok ((n, i), db)
      → is_pending (status_of i db.clock) ≡ false
      → revoke_invitation actor id db ≡ err (conflict "not_pending")
  unfolding revoke_invitation
  revoke_refused there shut = >>=-ok (get_invitation actor.org_id id) _ db there ∙ rw shut refl

  resend_refused :
      (ttl : ℕ) (mail_on defer : Bool)
      → get_invitation actor.org_id id db ≡ ok ((n, i), db)
      → (is_pending (status_of i db.clock) || is_expired (status_of i db.clock)) ≡ false
      → resend_invitation actor ttl mail_on defer id db ≡ err (conflict "not_pending")
  unfolding resend_invitation
  resend_refused ttl mail_on defer there shut =
      >>=-ok (get_invitation actor.org_id id) _ db there ∙ rw shut refl

module _ ⦃host : Host⦄ (actor other : Actor) (id : ℕ) (db : Db) where
  -- An invitation that was revoked can be neither revoked nor resent, by any admin of the org and at
  -- whatever time: both are refused as `not_pending`.
  pub revoke_invitation-final :
      (after : Db) (later ttl : ℕ) (mail_on defer : Bool)
      → other.org_id ≡ actor.org_id
      → revoke_invitation actor id db ≡ ok (tt, after)
      → (revoke_invitation other id (record after { clock = later }) ≡ err (conflict "not_pending"))
        × (resend_invitation other ttl mail_on defer id (record after { clock = later })
            ≡ err (conflict "not_pending"))
  revoke_invitation-final after later ttl mail_on defer same e =
      let r = revoke_invitation-IsRevoked actor id db after e in
      let stands : first (λ p. asked other.org_id id p.1) (placed after.invitations)
          ≡ some (r.place, r.row) =
        rw same r.stands in
      let here =
        get_invitation_at other.org_id id (record after { clock = later }) (r.place, r.row)
          stands in
      let shut = never_pending r.row later r.over in
      (
        revoke_refused other id (record after { clock = later }) r.place r.row here (ground arith),
        resend_refused other id (record after { clock = later }) r.place r.row ttl mail_on defer
            here shut,
      )
