-- ===== src/Handlers/Members.antt =====
-- internal/http/handler/member.go
use krane_event_management_p.Common.{
  Option, none, some, Error, Result, ok, err, conflict, version_mismatch, forbidden, not_found,
}
use krane_event_management_p.Domain.{Role, Member}
use krane_event_management_p.Store.{Db}
use krane_event_management_p.Utils.Integers.{to_ℕ}
use krane_event_management_p.Services.{
  create_member_service, get_member_service, list_members_service, assign_role_service,
  remove_member_service,
}
use krane_event_management_p.Requests.Members.{
  validate_add_member, validate_assign_role, to_grant_input,
}
use krane_event_management_p.Responses.Rows.{member_response, member_list_response}
use krane_event_management_p.Responses.Envelope.{
  Response, Payload, no_content, of_member, of_members, no_details, current, write_error,
  write_json, write_internal_error, next, ◌>>=◌, ◌>>◌, finish,
}
use krane_event_management_p.Handlers.Context.{
  Env, Request, actor_of, caller_role_of, require_event, require_item, decoded, reject, version_of,
  limit_of, cursor_of, run, page_response,
}

unfoldable pub create_member_error : Error → Response
create_member_error not_found =
    write_error 404 "user_not_found" "no user has signed in with that email" no_details
create_member_error forbidden =
    write_error 403 "cannot_assign_role" "you cannot grant that role" no_details
create_member_error conflict =
    write_error 409 "already_member" "that user is already a member of this event" no_details
create_member_error _ = write_internal_error

abbrev pub current_member : Role → Result Member → Option Payload
current_member caller (ok row) = some (of_member (member_response caller row))
current_member caller (err e) = none

-- writeAssignOrRemoveError. `read` is GetMember after the failed write.
unfoldable pub member_write_error : Role → Result Member → Error → Response
member_write_error caller read not_found = write_error 404 "not_found" "no such member" no_details
member_write_error caller read version_mismatch =
    write_error 409 "version_conflict" "the member was modified by someone else; reload and retry"
      (current (current_member caller read))
member_write_error caller read conflict =
    write_error 409 "last_admin" "this event must always have at least one admin" no_details
member_write_error caller read _ = write_internal_error

module _ (env : Env) where
  abbrev created_response : Role → Result Member → Response
  created_response caller (ok row) = write_json 201 (of_member (member_response caller row))
  created_response caller (err e) = create_member_error e

  unfoldable pub create_member_handler : Request → Db → Response × Db
  unfolding create_member_error
  create_member_handler r db = run db (do
    actor ← actor_of r
    require_event r
    body ← decoded env.json.grant_body r
    reject (validate_add_member body)
    caller ← caller_role_of r
    let made =
        create_member_service env.codec.uuid_in env.pg actor.id r.event_id (to_grant_input body) db
    next (created_response caller made.0, made.1))

  unfoldable pub list_members_handler : Request → Db → Response
  list_members_handler r db = finish (do
    require_event r
    caller ← caller_role_of r
    limit ← limit_of r
    after ← cursor_of env.codec r
    next (elim (list_members_service env.codec.uuid_in env.pg r.event_id limit after db) [
      | err e ↦ write_internal_error
      | ok page ↦ page_response page (λ p. member_list_response env.codec caller p) of_members
    ]))

  abbrev current_of : Request → Db → Result Member
  current_of r db = get_member_service env.codec.uuid_in env.current_pg r.event_id r.item_id db

  abbrev assigned_response : Request → Role → Result Member × Db → Response × Db
  assigned_response r caller (ok row, db) =
      (write_json 200 (of_member (member_response caller row)), db)
  assigned_response r caller (err e, db) = (member_write_error caller (current_of r db) e, db)

  unfoldable pub assign_role_handler : Request → Db → Response × Db
  assign_role_handler r db = run db (do
    actor ← actor_of r
    require_item r
    caller ← caller_role_of r
    body ← decoded env.json.assign_role_body r
    reject (validate_assign_role body)
    next (
        assigned_response r caller (
          assign_role_service env.codec.uuid_in env.pg actor.id r.event_id r.item_id
            (to_ℕ body.version) body.role db)))

  abbrev removed_response : Request → Role → Result (Unit {0}) × Db → Response × Db
  removed_response r caller (ok _, db) = (write_json 204 no_content, db)
  removed_response r caller (err e, db) = (member_write_error caller (current_of r db) e, db)

  unfoldable pub remove_member_handler : Request → Db → Response × Db
  remove_member_handler r db = run db (do
    actor ← actor_of r
    require_item r
    caller ← caller_role_of r
    version ← version_of r
    next (
        removed_response r caller (
          remove_member_service env.codec.uuid_in env.pg actor.id r.event_id r.item_id version db)))
