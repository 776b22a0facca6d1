-- ===== src/Handlers/Events.antt =====
-- internal/http/handler/event.go
use krane_event_management_p.Common.{
  Option, none, some, Error, Result, ok, err, version_mismatch, not_found,
}
use krane_event_management_p.Domain.{Event}
use krane_event_management_p.Store.{Db}
use krane_event_management_p.Utils.Integers.{to_ℕ}
use krane_event_management_p.Services.{
  create_event_service, get_event_service, list_events_service, update_event_service,
  delete_event_service,
}
use krane_event_management_p.Requests.Events.{
  validate_create_event, validate_patch_event, to_create_input, to_patch,
}
use krane_event_management_p.Responses.Rows.{event_response, event_list_response}
use krane_event_management_p.Responses.Envelope.{
  Response, Payload, no_content, of_event, of_events, no_details, current, write_error, write_json,
  write_internal_error, next, ◌>>=◌, ◌>>◌, finish,
}
use krane_event_management_p.Handlers.Context.{
  Env, Request, actor_of, require_event, decoded, reject, version_of, limit_of, cursor_of, run,
  page_response,
}

abbrev pub current_event : Result Event → Option Payload
current_event (ok row) = some (of_event (event_response row))
current_event (err e) = none

-- writeDomainError. `read` is GetEvent after the failed call.
unfoldable pub event_error : Result Event → Error → Response
event_error read not_found = write_error 404 "not_found" "no such event" no_details
event_error read version_mismatch =
    write_error 409 "version_conflict" "the event was modified by someone else; reload and retry"
      (current (current_event read))
event_error read _ = write_internal_error

module _ (env : Env) where
  abbrev created_response : Result Event → Response
  created_response (ok row) = write_json 201 (of_event (event_response row))
  created_response (err e) = write_internal_error

  unfoldable pub create_event_handler : Request → Db → Response × Db
  create_event_handler r db = run db (do
    actor ← actor_of r
    body ← decoded env.json.create_event_body r
    reject (validate_create_event env.load_location body)
    let made = create_event_service env.codec.uuid_in env.pg actor.id (to_create_input body) db
    next (created_response made.0, made.1))

  abbrev current_of : Request → Db → Result Event
  current_of r db = get_event_service env.codec.uuid_in env.current_pg r.event_id db

  abbrev found_response : Request → Db → Result Event → Response
  found_response r db (ok row) = write_json 200 (of_event (event_response row))
  found_response r db (err e) = event_error (current_of r db) e

  unfoldable pub get_event_handler : Request → Db → Response
  get_event_handler r db = finish (do
    require_event r
    next (found_response r db (get_event_service env.codec.uuid_in env.pg r.event_id db)))

  unfoldable pub list_events_handler : Request → Db → Response
  list_events_handler r db = finish (do
    actor ← actor_of r
    limit ← limit_of r
    after ← cursor_of env.codec r
    next (elim (list_events_service env.codec.uuid_in env.pg actor.id limit after db) [
      | err e ↦ write_internal_error
      | ok page ↦ page_response page (λ p. event_list_response env.codec p) of_events
    ]))

  abbrev updated_response : Request → Result Event × Db → Response × Db
  updated_response r (ok row, db) = (write_json 200 (of_event (event_response row)), db)
  updated_response r (err e, db) = (event_error (current_of r db) e, db)

  unfoldable pub patch_event_handler : Request → Db → Response × Db
  patch_event_handler r db = run db (do
    actor ← actor_of r
    require_event r
    body ← decoded env.json.patch_event_body r
    reject (validate_patch_event env.load_location body)
    next (
        updated_response r (
          update_event_service env.codec.uuid_in env.pg actor.id r.event_id (to_ℕ body.version)
            (to_patch body) db)))

  abbrev deleted_response : Request → Result Event × Db → Response × Db
  deleted_response r (ok _, db) = (write_json 204 no_content, db)
  deleted_response r (err e, db) = (event_error (current_of r db) e, db)

  unfoldable pub delete_event_handler : Request → Db → Response × Db
  delete_event_handler r db = run db (do
    actor ← actor_of r
    require_event r
    version ← version_of r
    next (
        deleted_response r
          (delete_event_service env.codec.uuid_in env.pg actor.id r.event_id version db)))
