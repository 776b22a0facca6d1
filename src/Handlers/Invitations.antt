-- ===== src/Handlers/Invitations.antt =====
-- internal/http/handler/invitation.go
use krane_event_management_p.Common.{Error, Result, ok, err, conflict, forbidden}
use krane_event_management_p.Domain.{Invitation, BulkResult}
use krane_event_management_p.Store.{Db}
use krane_event_management_p.Utils.Text.{trim_space}
use krane_event_management_p.Services.{
  create_invitation_service, list_invitations_service, bulk_invite_service,
}
use krane_event_management_p.Requests.Members.{
  validate_create_invitation, to_grant_input, BulkIssues, no_issues, no_invitations, per_item,
  validate_bulk_invite, to_create_inputs,
}
use krane_event_management_p.Responses.Rows.{
  invitation_response, invitation_list_response, bulk_invite_response,
}
use krane_event_management_p.Responses.Envelope.{
  Response, of_invitation, of_invitations, of_bulk, no_details, invitation_issues, write_error,
  write_json, write_validation_error, write_internal_error, Early, stop, next, ◌>>=◌, ◌>>◌, stop_if,
  or_stop, finish,
}
use krane_event_management_p.Handlers.Context.{
  Env, Request, actor_of, require_event, is_empty, one_issue, decoded, reject, limit_of, cursor_of,
  run, page_response,
}

unfoldable pub create_invitation_error : Error → Response
create_invitation_error forbidden =
    write_error 403 "cannot_invite_at_role" "you cannot invite someone at that role" no_details
create_invitation_error conflict =
    write_error 409 "already_invited" "this event already has an invitation for that email"
      no_details
create_invitation_error _ = write_internal_error

unfoldable pub bulk_invite_error : Error → Response
bulk_invite_error conflict =
    write_error 422 "idempotency_key_conflict"
      "this Idempotency-Key was already used with a different request body" no_details
bulk_invite_error _ = write_internal_error

abbrev pub reject_bulk : BulkIssues → Early (Unit {0})
reject_bulk no_issues = next tt
reject_bulk no_invitations =
    stop (write_validation_error (one_issue "invitations" "must contain at least one invitation"))
reject_bulk (per_item found) = stop (write_validation_error (invitation_issues found))

module _ (env : Env) where
  abbrev created_response : Result Invitation → Response
  created_response (ok row) = write_json 201 (of_invitation (invitation_response row))
  created_response (err e) = create_invitation_error e

  unfoldable pub create_invitation_handler : Request → Db → Response × Db
  unfolding create_invitation_error
  create_invitation_handler r db = run db (do
    actor ← actor_of r
    require_event r
    body ← decoded env.json.grant_body r
    reject (validate_create_invitation body)
    let made =
        create_invitation_service env.codec.uuid_in env.pg actor.id r.event_id (to_grant_input body)
          db
    next (created_response made.0, made.1))

  abbrev bulk_response : Result BulkResult → Response
  bulk_response (ok result) = write_json 207 (of_bulk (bulk_invite_response result))
  bulk_response (err e) = bulk_invite_error e

  -- The hash is that of the body as it was read.
  unfoldable pub bulk_create_invitations_handler : Request → Db → Response × Db
  unfolding bulk_invite_error
  bulk_create_invitations_handler r db = run db (do
    actor ← actor_of r
    require_event r
    let key = trim_space r.idempotency_key
    stop_if (is_empty key) (
        write_validation_error
          (one_issue "idempotency_key" "the Idempotency-Key header is required"))
    raw ← or_stop r.body (write_validation_error (one_issue "body" "could not be read"))
    body ←
        or_stop (env.json.bulk_invite_body raw)
          (write_validation_error (one_issue "body" "must be valid JSON"))
    reject_bulk (validate_bulk_invite body)
    let made =
        bulk_invite_service env.codec.uuid_in env.pg env.later_pg env.last_pg env.meanwhile actor.id
          r.event_id key (env.sha256_hex raw) (to_create_inputs body) db
    next (bulk_response made.0, made.1))

  unfoldable pub list_invitations_handler : Request → Db → Response
  list_invitations_handler r db = finish (do
    require_event r
    limit ← limit_of r
    after ← cursor_of env.codec r
    next (elim (list_invitations_service env.codec.uuid_in env.pg r.event_id limit after db) [
      | err e ↦ write_internal_error
      | ok page ↦ page_response page (λ p. invitation_list_response env.codec p) of_invitations
    ]))
