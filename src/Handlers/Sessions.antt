-- ===== src/Handlers/Sessions.antt =====
-- internal/http/handler/session.go
pub mod Zones
use krane_event_management_p.Common.{
  ℕ, String, Option, none, some, List, Error, Result, ok, err, conflict, version_mismatch,
  not_found, internal, invalid_room, invalid_speaker,
}
use krane_event_management_p.Domain.{Event, Session, Series, OccurrenceResult}
use krane_event_management_p.Store.{Db}
use krane_event_management_p.Utils.Integers.{to_ℕ}
use krane_event_management_p.Utils.LocalTime.{Location}
use krane_event_management_p.Services.{
  get_event_service, create_session_service, create_series_service, get_session_service,
  list_sessions_service, update_session_service, delete_session_service,
}
use krane_event_management_p.Requests.Sessions.{
  validate_create_session, validate_create_series, validate_patch_session, to_create_input,
  to_series_create_input, to_patch,
}
use krane_event_management_p.Responses.Sessions.{
  session_response, session_list_response, series_response,
}
use krane_event_management_p.Responses.Envelope.{
  Response, Payload, no_content, of_session, of_sessions, of_series, no_details, current,
  write_error, write_json, write_internal_error, Early, stop, next, ◌>>=◌, ◌>>◌, finish,
}
use krane_event_management_p.Handlers.Context.{
  Env, Request, actor_of, require_event, require_item, decoded, reject, version_of, limit_of,
  cursor_of, run, page_response,
}

-- eventTimezone. A zone that Go cannot load is an error that wraps no sentinel.
abbrev pub zone_of : (String → Option Location) → Result Event → Result Location
zone_of load (err e) = err e
zone_of load (ok ev) = elim (load ev.timezone) [ none ↦ err internal | some loc ↦ ok loc ]

-- writeEventLookupError
abbrev pub event_lookup_error : Error → Response
event_lookup_error not_found = write_error 404 "not_found" "no such event" no_details
event_lookup_error _ = write_internal_error

-- writeCreateOrUpdateError
unfoldable pub create_session_error : Error → Response
create_session_error invalid_room =
    write_error 404 "room_not_found" "room_id must reference an existing room within this event"
      no_details
create_session_error invalid_speaker =
    write_error 404 "speaker_not_found" "speaker_id must reference an existing user" no_details
create_session_error conflict =
    write_error 409 "session_conflict"
      "that room or speaker is already booked for an overlapping time" no_details
create_session_error _ = write_internal_error

-- writeNotFoundOrInternal
abbrev pub get_session_error : Error → Response
get_session_error not_found = write_error 404 "not_found" "no such session" no_details
get_session_error _ = write_internal_error

abbrev pub current_session : Location → Result Session → Option Payload
current_session loc (ok row) = some (of_session (session_response loc row))
current_session loc (err e) = none

-- writeUpdateOrDeleteError. `read` is GetSession after the failed write.
unfoldable pub session_write_error : Location → Result Session → Error → Response
session_write_error loc read not_found = write_error 404 "not_found" "no such session" no_details
session_write_error loc read version_mismatch =
    write_error 409 "version_conflict" "the session was modified by someone else; reload and retry"
      (current (current_session loc read))
session_write_error loc read _ = write_internal_error

module _ (env : Env) where
  abbrev pub or_zone : Result Location → Early Location
  or_zone (ok loc) = next loc
  or_zone (err e) = stop (event_lookup_error e)

  unfoldable pub event_timezone : Request → Db → Early Location
  event_timezone r db =
      or_zone
        (zone_of env.load_location (get_event_service env.codec.uuid_in env.zone_pg r.event_id db))

  abbrev created_response : Location → Result Session → Response
  created_response loc (ok row) = write_json 201 (of_session (session_response loc row))
  created_response loc (err e) = create_session_error e

  unfoldable pub create_session_handler : Request → Db → Response × Db
  unfolding event_timezone create_session_error
  create_session_handler r db = run db (do
    actor ← actor_of r
    require_event r
    loc ← event_timezone r db
    body ← decoded env.json.create_session_body r
    reject (validate_create_session loc body)
    let made =
        create_session_service env.codec.uuid_in env.pg actor.id r.event_id body.room_id
          body.speaker_id (λ room speaker. to_create_input loc room speaker body) db
    next (created_response loc made.0, made.1))

  abbrev series_created_response : Location → Result (Series × List OccurrenceResult) → Response
  series_created_response loc (ok (s, results)) =
      write_json 201 (of_series (series_response loc s results))
  series_created_response loc (err e) = create_session_error e

  unfoldable pub create_series_handler : Request → Db → Response × Db
  unfolding event_timezone create_session_error
  create_series_handler r db = run db (do
    actor ← actor_of r
    require_event r
    loc ← event_timezone r db
    body ← decoded env.json.create_series_body r
    reject (validate_create_series loc body)
    let made =
        create_series_service env.codec.uuid_in env.pg env.later_pg actor.id r.event_id body.room_id
          body.speaker_id (λ room speaker. to_series_create_input loc room speaker body) db
    next (series_created_response loc made.0, made.1))

  abbrev found_response : Location → Result Session → Response
  found_response loc (ok row) = write_json 200 (of_session (session_response loc row))
  found_response loc (err e) = get_session_error e

  unfoldable pub get_session_handler : Request → Db → Response
  unfolding event_timezone
  get_session_handler r db = finish (do
    require_item r
    loc ← event_timezone r db
    next
        (found_response loc (get_session_service env.codec.uuid_in env.pg r.event_id r.item_id db)))

  unfoldable pub list_sessions_handler : Request → Db → Response
  unfolding event_timezone
  list_sessions_handler r db = finish (do
    require_event r
    loc ← event_timezone r db
    limit ← limit_of r
    after ← cursor_of env.codec r
    next (elim (list_sessions_service env.codec.uuid_in env.pg r.event_id limit after db) [
      | err e ↦ write_internal_error
      | ok page ↦ page_response page (λ p. session_list_response env.codec loc p) of_sessions
    ]))

  abbrev current_of : Request → Db → Result Session
  current_of r db = get_session_service env.codec.uuid_in env.current_pg r.event_id r.item_id db

  abbrev pub updated_response : Request → Location → Result Session × Db → Response × Db
  updated_response r loc (ok row, db) = (write_json 200 (of_session (session_response loc row)), db)
  updated_response r loc (err e, db) = (session_write_error loc (current_of r db) e, db)

  unfoldable pub patch_session_handler : Request → Db → Response × Db
  unfolding event_timezone
  patch_session_handler r db = run db (do
    actor ← actor_of r
    require_item r
    loc ← event_timezone r db
    body ← decoded env.json.patch_session_body r
    reject (validate_patch_session loc body)
    next (
        updated_response r loc (
          update_session_service env.codec.uuid_in env.pg actor.id r.event_id r.item_id
            (to_ℕ body.version) (to_patch loc body) db)))

  abbrev deleted_response : Request → Location → Result Session × Db → Response × Db
  deleted_response r loc (ok _, db) = (write_json 204 no_content, db)
  deleted_response r loc (err e, db) = (session_write_error loc (current_of r db) e, db)

  unfoldable pub delete_session_handler : Request → Db → Response × Db
  unfolding event_timezone
  delete_session_handler r db = run db (do
    actor ← actor_of r
    require_item r
    loc ← event_timezone r db
    version ← version_of r
    next (
        deleted_response r loc (
          delete_session_service env.codec.uuid_in env.pg actor.id r.event_id r.item_id version
            db)))
