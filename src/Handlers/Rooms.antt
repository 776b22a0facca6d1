-- ===== src/Handlers/Rooms.antt =====
-- internal/http/handler/room.go
pub mod Answers
use krane_event_management_p.Common.{
  ℕ, String, Option, none, some, Error, Result, ok, err, conflict, version_mismatch, not_found,
}
use krane_event_management_p.Domain.{Room}
use krane_event_management_p.Store.{Db}
use krane_event_management_p.Utils.Integers.{to_ℕ}
use krane_event_management_p.Services.{
  create_room_service, get_room_service, list_rooms_service, update_room_service,
  delete_room_service,
}
use krane_event_management_p.Requests.Rooms.{
  validate_create_room, validate_patch_room, to_create_input, to_patch,
}
use krane_event_management_p.Responses.Rows.{room_response, room_list_response}
use krane_event_management_p.Responses.Envelope.{
  Response, Payload, no_content, of_room, of_rooms, no_details, current, write_error, write_json,
  write_internal_error, Early, next, ◌>>=◌, ◌>>◌, finish,
}
use krane_event_management_p.Handlers.Context.{
  Env, Request, actor_of, require_event, require_item, decoded, reject, version_of, limit_of,
  cursor_of, run, page_response,
}

-- writeCreateOrUpdateError
abbrev pub create_room_error : Error → Response
create_room_error conflict =
    write_error 409 "room_name_taken" "another room in this event already has that name" no_details
create_room_error _ = write_internal_error

-- writeNotFoundOrInternal
abbrev pub get_room_error : Error → Response
get_room_error not_found = write_error 404 "not_found" "no such room" no_details
get_room_error _ = write_internal_error

-- details["current"]: nothing where the room is gone, or cannot be read.
abbrev pub current_room : Result Room → Option Payload
current_room (ok row) = some (of_room (room_response row))
current_room (err e) = none

-- writeUpdateOrDeleteError. `read` is GetRoom after the failed write.
unfoldable pub room_write_error : String → String → Result Room → Error → Response
room_write_error code message read not_found = write_error 404 "not_found" "no such room" no_details
room_write_error code message read version_mismatch =
    write_error 409 "version_conflict" "the room was modified by someone else; reload and retry"
      (current (current_room read))
room_write_error code message read conflict = write_error 409 code message no_details
room_write_error code message read _ = write_internal_error

module _ (env : Env) where
  abbrev created_response : Result Room → Response
  created_response (ok row) = write_json 201 (of_room (room_response row))
  created_response (err e) = create_room_error e

  unfoldable pub create_room_handler : Request → Db → Response × Db
  create_room_handler r db = run db (do
    actor ← actor_of r
    require_event r
    body ← decoded env.json.create_room_body r
    reject (validate_create_room body)
    let made =
        create_room_service env.codec.uuid_in env.pg actor.id r.event_id (to_create_input body) db
    next (created_response made.0, made.1))

  abbrev found_response : Result Room → Response
  found_response (ok row) = write_json 200 (of_room (room_response row))
  found_response (err e) = get_room_error e

  unfoldable pub get_room_handler : Request → Db → Response
  get_room_handler r db = finish (do
    require_item r
    next (found_response (get_room_service env.codec.uuid_in env.pg r.event_id r.item_id db)))

  unfoldable pub list_rooms_handler : Request → Db → Response
  list_rooms_handler r db = finish (do
    require_event r
    limit ← limit_of r
    after ← cursor_of env.codec r
    next (elim (list_rooms_service env.codec.uuid_in env.pg r.event_id limit after db) [
      | err e ↦ write_internal_error
      | ok page ↦ page_response page (λ p. room_list_response env.codec p) of_rooms
    ]))

  abbrev current_of : Request → Db → Result Room
  current_of r db = get_room_service env.codec.uuid_in env.current_pg r.event_id r.item_id db

  abbrev updated_response : Request → Result Room × Db → Response × Db
  updated_response r (ok row, db) = (write_json 200 (of_room (room_response row)), db)
  updated_response r (err e, db) = (
    room_write_error "room_name_taken" "another room in this event already has that name"
        (current_of r db) e,
    db,
  )

  unfoldable pub patch_room_handler : Request → Db → Response × Db
  patch_room_handler r db = run db (do
    actor ← actor_of r
    require_item r
    body ← decoded env.json.patch_room_body r
    reject (validate_patch_room body)
    next (
        updated_response r (
          update_room_service env.codec.uuid_in env.pg actor.id r.event_id r.item_id
            (to_ℕ body.version) (to_patch body) db)))

  abbrev deleted_response : Request → Result (Unit {0}) × Db → Response × Db
  deleted_response r (ok _, db) = (write_json 204 no_content, db)
  deleted_response r (err e, db) = (
    room_write_error "room_in_use" "this room has sessions; remove them before deleting the room"
        (current_of r db) e,
    db,
  )

  unfoldable pub delete_room_handler : Request → Db → Response × Db
  delete_room_handler r db = run db (do
    actor ← actor_of r
    require_item r
    version ← version_of r
    next (
        deleted_response r
          (delete_room_service env.codec.uuid_in env.pg actor.id r.event_id r.item_id version db)))
