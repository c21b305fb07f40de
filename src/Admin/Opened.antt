-- ===== src/Admin/Opened.antt =====
-- One open invitation for each org and email (api/src/tabayyun/services/admin/invitations.py), as the
-- index `uq_invitations_open_email` of db/models.py wants it.

use Prim.Native.Nat.{◌+◌}
use tabayyun.Prelude.{
  ℕ, ◌≡◌, refl, ap, sym, subst, ◌∙◌, ◌≤◌, Bool, true, not, Option, none, some, String, List, [],
  ◌∷◌, ◌++◌, ==_refl, str_eq_iff, if◌then◌else◌, arith, first, count, Outcome, ok, err, lift,
  ensure, >>=-eq-ok, Option-cases, Bool-cases, inl, inr,
}
use tabayyun.Rows.{placed, update_at, count-update_at, first-placed, first-placed-none}
use tabayyun.Db.{Db, Host, Workspace, Invitation}
use tabayyun.Admin.Errors.{AdminError, conflict}
use tabayyun.Admin.Audit.{Actor, record_event}
use tabayyun.Admin.Log.{Reads, Reads-lift, Reads-ensure}
use tabayyun.Admin.Email.{normalise_email}
use tabayyun.Admin.Invitations.{
  Grant, GrantRequest, InvitationView, status_of, is_pending, is_open, view, defer_mail,
  workspace_of, make_room, add_invitation, open_invitation, create_invitation, check_grant,
  is_member,
}

count-append_one :
    (q : Invitation → Bool) (xs : List Invitation) (x : Invitation)
    → count q (xs ++ x ∷ []) ≡ count q xs + (if q x then 1 else 0)
unfolding count
count-append_one q [] x = ground arith
count-append_one q (y ∷ xs) x = ground (arith, count-append_one q xs x)

-- At most one open invitation for each org and email.
abbrev pub OneOpen : List Invitation → Type 0
OneOpen is = (org_id : ℕ) (email : String) → count (is_open org_id email) is ≤ 1

same_db :
    (a b : Db) (r : Outcome AdminError (Unit {0} × Db)) → r ≡ ok (tt, a) → r ≡ ok (tt, b) → a ≡ b
same_db a b r h k = cc

module _ (org_id : ℕ) (email : String) (db : Db) where
  -- Once there is room, no invitation of the email is open, and no other one was opened.
  make_room-none :
      (s : Db)
      → OneOpen db.invitations
      → make_room org_id email db ≡ ok (tt, s)
      → (count (is_open org_id email) s.invitations ≡ 0)
        × ((o : ℕ) (m : String)
            → count (is_open o m) s.invitations ≤ count (is_open o m) db.invitations)
  unfolding make_room
  make_room-none s one e =
      let q = is_open org_id email in
      elim (Option-cases (first (λ p. q p.1) (placed db.invitations))) [
        | inl absent ↦
            let same = same_db db s (make_room org_id email db) (rw (absent, make_room) refl) e in
            subst
              (λ d.
                (count q d.invitations ≡ 0)
                × ((o : ℕ) (m : String)
                    → count (is_open o m) d.invitations ≤ count (is_open o m) db.invitations))
              same (first-placed-none q db.invitations absent, λ o m. omega arith)
        | inr ((n, i), there) ↦ elim (Bool-cases (is_pending (status_of i db.clock))) [
          | inl busy ↦ absurd (cc (rw (busy, make_room) at (rw (there, make_room) at e)))
          | inr over ↦
              let gone : Invitation = record i { revoked_at = some db.now } in
              let after : Db = record db { invitations = update_at n gone db.invitations } in
              let made : make_room org_id email db ≡ ok (tt, after) =
                rw (there, make_room) (rw (over, make_room) refl) in
              let (here, mine) = first-placed q db.invitations n i there in
              let less =
                λ (r : Invitation → Bool). count-update_at r gone n db.invitations i here in
              subst
                (λ d.
                  (count q d.invitations ≡ 0)
                  × ((o : ℕ) (m : String)
                      → count (is_open o m) d.invitations ≤ count (is_open o m) db.invitations))
                (same_db after s (make_room org_id email db) made e)
                (
                  ground (arith, less q, mine, one org_id email),
                  λ o m. ground (arith, less (is_open o m)),
                )
        ]
      ]

Reads-workspace_of : (org_id : ℕ) (id : Option ℕ) → Reads (workspace_of org_id id)
unfolding workspace_of
Reads-workspace_of org_id none = record { keeps = λ db a after e. cc }
Reads-workspace_of org_id (some id) = record { keeps = λ db a after e. ground arith }

make_room-drawn :
    (org_id : ℕ) (email : String) (db s : Db)
    → make_room org_id email db ≡ ok (tt, s)
    → s.drawn ≡ db.drawn
unfolding make_room
make_room-drawn org_id email db s e =
    elim (Option-cases (first (λ p. is_open org_id email p.1) (placed db.invitations))) [
      | inl absent ↦ cc (rw (absent, make_room) at e)
      | inr ((n, i), there) ↦ elim (Bool-cases (is_pending (status_of i db.clock))) [
        | inl busy ↦ absurd (cc (rw (there, busy, make_room) at e))
        | inr over ↦ cc (rw (there, over, make_room) at e)
      ]
    ]

lift-ok :
    {A : Type 0} (o : Outcome AdminError A) (db s : Db) (a : A) → lift o db ≡ ok (a, s) → o ≡ ok a
lift-ok (ok b) db s a e = cc
lift-ok (err x) db s a e = absurd (cc)

-- The invitation has the roles and the workspace of the grant.
pub record IsGranted (grant : Grant) (i : Invitation) : Type 0 where
  pub org_role : i.org_role ≡ grant.org_role
  pub workspace_id : i.workspace_id ≡ grant.workspace_id
  pub workspace_role : i.workspace_role ≡ grant.workspace_role

-- The invitation is the row that was added, with a new uuid, for the address and the grant that were asked
-- for, and is the one open row of its org and email.
pub record IsOpened (lower : String → String) (org_id new_id : ℕ) (raw : String)
    (grant : GrantRequest) (i : Invitation) (is : List Invitation) : Type 0 where
  pub before : List Invitation
  pub checked : Grant
  pub added : is ≡ before ++ i ∷ []
  pub id : i.id ≡ new_id
  pub email : normalise_email lower raw ≡ ok i.email
  pub is_checked : check_grant grant ≡ ok checked
  pub granted : IsGranted checked i
  pub is_one : is_open org_id i.email i ≡ true
  pub only : count (is_open org_id i.email) before ≡ 0

module _ ⦃host : Host⦄ (actor : Actor) (ttl : ℕ) (mail_on defer : Bool) where
  -- What opening an invitation leaves: the row, and the table before it.
  open_invitation-row :
      (email : String) (grant : Grant) (workspace : Option Workspace) (db after : Db)
      (v : InvitationView)
      → open_invitation actor ttl mail_on defer email grant workspace db ≡ ok (v, after)
      → (s : Db) × (make_room actor.org_id email db ≡ ok (tt, s))
        × (after.invitations ≡ s.invitations ++ v.invitation ∷ [])
        × (v.invitation.org_id ≡ actor.org_id)
        × (v.invitation.email ≡ email)
        × (is_open actor.org_id email v.invitation ≡ true)
        × (v.invitation.id ≡ host.uuid4 s.drawn)
        × IsGranted grant v.invitation
  unfolding open_invitation add_invitation defer_mail record_event view
  open_invitation-row email grant workspace db after v e =
      let (u, s, room, rest) = >>=-eq-ok (make_room actor.org_id email) _ db e in
      (
        s,
        room,
        ground arith,
        ground arith,
        ground arith,
        ground (arith, ==_refl actor.org_id, (str_eq_iff email email).1 refl),
        ground arith,
        record {
          org_role = ground arith;
          workspace_id = ground arith;
          workspace_role = ground arith;
        },
      )

  -- The checks in front of it read only.
  create_invitation-open :
      (lower : String → String) (raw : String) (grant : GrantRequest) (db after : Db)
      (v : InvitationView)
      → create_invitation actor ttl mail_on defer lower raw grant db ≡ ok (v, after)
      → (email : String) × (checked : Grant) × (workspace : Option Workspace) × (normalise_email
            lower raw
          ≡ ok email)
        × (check_grant grant ≡ ok checked)
        × (open_invitation actor ttl mail_on defer email checked workspace db ≡ ok (v, after))
  unfolding create_invitation
  create_invitation-open lower raw grant db after v e =
      let (email, s1, e1, r1) = >>=-eq-ok (lift (normalise_email lower raw)) _ db e in
      let (checked, s2, e2, r2) = >>=-eq-ok (lift (check_grant grant)) _ s1 r1 in
      let (workspace, s3, e3, r3) =
        >>=-eq-ok (workspace_of actor.org_id checked.workspace_id) _ s2 r2 in
      let free = not (is_member actor.org_id email s3) in
      let (u, s5, e5, r5) =
        >>=-eq-ok (ensure free (conflict "already_member"))
          (λ z. open_invitation actor ttl mail_on defer email checked workspace) s3 r3 in
      let same : s5 ≡ db =
        (Reads-ensure free (conflict "already_member")).keeps s3 u s5 e5
        ∙ (Reads-workspace_of actor.org_id checked.workspace_id).keeps s2 workspace s3 e3
        ∙ (Reads-lift (check_grant grant)).keeps s1 checked s2 e2
        ∙ (Reads-lift (normalise_email lower raw)).keeps db email s1 e1 in
      (
        email,
        checked,
        workspace,
        lift-ok (normalise_email lower raw) db s1 email e1,
        lift-ok (check_grant grant) s1 s2 checked e2,
        subst
            (λ d. open_invitation actor ttl mail_on defer email checked workspace d ≡ ok (v, after))
            same r5,
      )

  -- Where each org and email has one open invitation at most, it has after an invitation was opened. The one
  -- opened is the row that was added, under a new uuid, for the cleaned address and with the roles and the
  -- workspace that were asked for, and no other row of its org and email is open.
  pub create_invitation-OneOpen :
      (lower : String → String) (raw : String) (grant : GrantRequest) (db after : Db)
      (v : InvitationView)
      → OneOpen db.invitations
      → create_invitation actor ttl mail_on defer lower raw grant db ≡ ok (v, after)
      → OneOpen after.invitations
        × IsOpened lower actor.org_id (host.uuid4 db.drawn) raw grant v.invitation after.invitations
  create_invitation-OneOpen lower raw grant db after v one e =
      let (email, checked, workspace, cleaned, fits, opened) =
        create_invitation-open lower raw grant db after v e in
      let (s, room, rows, org, mail, own, id, granted) =
        open_invitation-row email checked workspace db after v opened in
      let (none_left, fewer) = make_room-none actor.org_id email db s one room in
      let counted = λ (q : Invitation → Bool).
        ap (count q) rows ∙ count-append_one q s.invitations v.invitation in
      (
        λ o m. elim (Bool-cases (is_open o m v.invitation)) [
          | inr other ↦ ground (arith, counted (is_open o m), fewer o m, one o m)
          | inl this ↦
              let same_org : o ≡ actor.org_id = ground arith in
              let same_mail : m ≡ email =
                sym ((str_eq_iff v.invitation.email m).0 (ground arith)) ∙ mail in
              let empty : count (is_open o m) s.invitations ≡ 0 =
                rw (same_org, same_mail) none_left in
              ground (arith, counted (is_open o m), empty)
        ],
        record {
          before = s.invitations;
          checked = checked;
          added = rows;
          id = id ∙ ap host.uuid4 (make_room-drawn actor.org_id email db s room);
          email = cleaned ∙ ap ok (sym mail);
          is_checked = fits;
          granted = granted;
          is_one = subst (λ m. is_open actor.org_id m v.invitation ≡ true) (sym mail) own;
          only = subst (λ m. count (is_open actor.org_id m) s.invitations ≡ 0) (sym mail) none_left;
        },
      )
