-- ===== src/Tests/Inviting.antt =====
-- Invitations, at the sample: an admin (11) invites an email to a workspace.
use tabayyun.Prelude.{
  true, ◌≡◌, refl, none, some, [], Outcome, ok, err, arith, first, any, count, strip,
}
use tabayyun.Rows.{placed}
use tabayyun.Authz.Roles.{OrgRole}
use tabayyun.Db.{Db, not_configured}
use tabayyun.Admin.Errors.{AdminError, conflict, invalid}
use tabayyun.Admin.Audit.{record_event}
use tabayyun.Admin.Email.{normalise_email}
use tabayyun.Admin.Invitations.{
  GrantRequest, InvitationView, check_grant, workspace_of, make_room, add_invitation, defer_mail,
  open_invitation, get_invitation, put_row, view, pending, create_invitation, resend_invitation,
  revoke_invitation,
}
use tabayyun.Admin.Opened.{OneOpen, IsOpened, create_invitation-OneOpen}
use tabayyun.Admin.Revoking.{revoke_invitation-final}
use tabayyun.Tests.Samples.{machine, sample, acting, after_of}

abbrev as_viewer : GrantRequest
as_viewer = record { org_role = "member"; workspace_id = some 5; workspace_role = some "viewer" }

abbrev as_owner : GrantRequest
as_owner = record { org_role = "owner"; workspace_id = none; workspace_role = none }

abbrev opened : Outcome AdminError (InvitationView × Db)
opened = create_invitation (acting 11) 3600 true true (λ s. s) " new@plant.org " as_viewer sample

abbrev shown_of : Outcome AdminError (InvitationView × Db) → InvitationView
shown_of (ok (v, db)) = v
shown_of (err e) = record {
  invitation = record {
    id = 0;
    org_id = 0;
    email = "";
    org_role = OrgRole.member;
    workspace_id = none;
    workspace_role = none;
    invited_by = 0;
    created_at = 0;
    expires_at = 0;
    accepted_at = none;
    accepted_user_id = none;
    revoked_at = none;
    email_status = not_configured;
    email_error = none;
  };
  inviter = none;
  workspace = none;
  status = pending;
}

abbrev revoked_db : Db
revoked_db = after_of (revoke_invitation (acting 10) 100 (after_of opened))

none_open : OneOpen []
unfolding count
none_open org_id email = ground arith

create_invitation-OneOpen_example :
    OneOpen (after_of opened).invitations
    × IsOpened
        (λ s. s)
        1
        (machine.uuid4 sample.drawn)
        " new@plant.org "
        as_viewer
        (shown_of opened).invitation
        (after_of opened).invitations
unfolding create_invitation normalise_email strip check_grant first workspace_of any open_invitation
    make_room placed add_invitation defer_mail record_event view
create_invitation-OneOpen_example =
    create_invitation-OneOpen (acting 11) 3600 true true (λ s. s) " new@plant.org " as_viewer sample
      (after_of opened) (shown_of opened) none_open refl

revoke_invitation-final_example :
    (revoke_invitation (acting 11) 100 (record revoked_db { clock = 7 })
      ≡ err (conflict "not_pending"))
    × (resend_invitation (acting 11) 3600 true true 100 (record revoked_db { clock = 7 })
        ≡ err (conflict "not_pending"))
unfolding create_invitation revoke_invitation get_invitation put_row normalise_email strip
    check_grant first workspace_of any open_invitation make_room placed add_invitation defer_mail
    record_event view
revoke_invitation-final_example =
    revoke_invitation-final (acting 10) (acting 11) 100 (after_of opened) revoked_db 7 3600 true
      true refl refl

-- An owner cannot be invited, and an email has a dot in its domain.
owner_refused :
    create_invitation (acting 11) 3600 true true (λ s. s) "a@b.c" as_owner sample
    ≡ err (invalid "invalid_role")
unfolding create_invitation normalise_email strip check_grant first workspace_of any open_invitation
    make_room placed add_invitation defer_mail record_event view
owner_refused = refl

dotless_refused :
    create_invitation (acting 11) 3600 true true (λ s. s) "a@b" as_viewer sample
    ≡ err (invalid "invalid_email")
unfolding create_invitation normalise_email strip check_grant first workspace_of any open_invitation
    make_room placed add_invitation defer_mail record_event view
dotless_refused = refl

-- While an invitation is pending, its email gets no other.
pending_refused :
    create_invitation
      (acting 11)
      3600
      true
      true
      (λ s. s)
      "new@plant.org"
      as_viewer
      (after_of opened)
    ≡ err (conflict "invitation_pending")
unfolding create_invitation normalise_email strip check_grant first workspace_of any open_invitation
    make_room placed add_invitation defer_mail record_event view
pending_refused = refl
