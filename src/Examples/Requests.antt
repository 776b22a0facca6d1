-- ===== src/Examples/Requests.antt =====
-- Requests to a conference, from the token to the answer.
use krane_event_management_p.Common.{ℕ, ◌≡◌, refl, true, false, none, some, [], ◌∷◌, ◌<◌, arith}
use krane_event_management_p.Domain.{User, admin, attendee, contributor, of_value}
use krane_event_management_p.Store.{Db, insert_audit, fits_int4}
use krane_event_management_p.Responses.Envelope.{
  status_of, write_error, write_json, current, of_room, of_rooms,
}
use krane_event_management_p.Responses.Rows.{room_response, room_list_response, next_token}
use krane_event_management_p.Responses.Emails.{shows_email}
use krane_event_management_p.Handlers.Context.{Request}
use krane_event_management_p.Middleware.{
  Gate, write_unauthorized, write_forbidden, resolve_user, bearer_token, verify,
}
use krane_event_management_p.Middleware.Refusals.{SignedIn, LooksUp}
use krane_event_management_p.Users.{get_or_create_by_subject}
use krane_event_management_p.Rooms.{update_room, get_room}
use krane_event_management_p.Events.{get_event as read_event, to_event}
use krane_event_management_p.Sessions.{create_session}
use krane_event_management_p.Series.{series_refused}
use krane_event_management_p.Pages.Lists.{list_rooms as rooms_page}
use krane_event_management_p.Utils.Text.{is_blank, trim_space}
use krane_event_management_p.Utils.LocalTime.{resolve_local_time}
use krane_event_management_p.Utils.Cursors.{encode_cursor, year_10000}
use krane_event_management_p.Requests.Events.{PatchEventRequest, validate_patch_event}
use krane_event_management_p.Requests.Rooms.{validate_patch_room}
use krane_event_management_p.Requests.Sessions.{
  validate_create_session, validate_create_series, to_create_input, to_series_create_input,
}
use krane_event_management_p.Requests.Bounds.{
  validate_create_series-refused, validate_patch_event-null_start,
}
use krane_event_management_p.Responses.Sessions.{SessionResponse, session_response}
use krane_event_management_p.Handlers.Context.{limit_of}
use krane_event_management_p.Handlers.Rooms.{
  patch_room_handler, list_rooms_handler, room_write_error,
}
use krane_event_management_p.Handlers.Rooms.Answers.{
  NamesRoom, patch_room_handler-stale, list_rooms_handler-next_page,
}
use krane_event_management_p.Handlers.Sessions.{
  create_session_handler, event_timezone, create_session_error,
}
use krane_event_management_p.Handlers.Sessions.Zones.{create_session_handler-format}
use krane_event_management_p.Router.{
  guard_of, serve, handler_of, delete_room, get_event, patch_room, list_members, list_rooms,
}
use krane_event_management_p.Router.Access.{serve-unauthenticated, serve-outsider, serve-attendee}
use krane_event_management_p.Router.Answers.{serve-shows_email}
use krane_event_management_p.Pages.Ends.{IsDated}
use krane_event_management_p.Router.Replies.{answers, handler_of-answers}
use krane_event_management_p.Router.Refusals.{handler_of-refused}
use krane_event_management_p.Examples.Data.{
  server, all-Up, conference, user, member_row, room_row, event_row,
}
use krane_event_management_p.Examples.Web.{
  env, gate, request_of, claims, codec-IsCodec, zone, panel, course, room_patch, event_patch,
}

cat_signed : SignedIn gate (request_of "cat") conference (user 3 "cat") conference
unfolding resolve_user bearer_token verify get_or_create_by_subject
cat_signed = record {
  token = "cat";
  claims = claims "cat";
  has_token = refl;
  verified = refl;
  known = refl;
}

cat_attends :
    LooksUp gate
      (request_of "cat").event_id
      (user 3 "cat")
      conference
      (some (member_row 23 3 attendee))
cat_attends = record { event = 10; named = refl; read = refl; up = all-Up 5; found = refl }

ben_signed : SignedIn gate (request_of "ben") conference (user 2 "ben") conference
unfolding resolve_user bearer_token verify get_or_create_by_subject
ben_signed = record {
  token = "ben";
  claims = claims "ben";
  has_token = refl;
  verified = refl;
  known = refl;
}

ben_contributes :
    LooksUp gate
      (request_of "ben").event_id
      (user 2 "ben")
      conference
      (some (member_row 22 2 contributor))
ben_contributes = record { event = 10; named = refl; read = refl; up = all-Up 5; found = refl }

-- The first sign-in of a user.
abbrev dan : User
dan = record {
  id = 104;
  subject = "dan";
  email = "dan";
  name = "dan";
  created_at = 54;
  updated_at = 54;
}

abbrev with_dan : Db
with_dan = record conference { users = dan ∷ conference.users }

dan_signed : SignedIn gate (request_of "dan") conference dan with_dan
unfolding resolve_user bearer_token verify get_or_create_by_subject
dan_signed = record {
  token = "dan";
  claims = claims "dan";
  has_token = refl;
  verified = refl;
  known = refl;
}

dan_missing : LooksUp gate (request_of "dan").event_id dan with_dan none
dan_missing = record { event = 10; named = refl; read = refl; up = all-Up 5; found = refl }

-- A verifier that refuses every token.
abbrev closed_gate : Gate
closed_gate = record gate { id_token = λ s. none }

serve-unauthenticated_example :
    serve env true closed_gate delete_room (request_of "ann") conference
    ≡ (write_unauthorized, conference)
unfolding guard_of bearer_token verify
serve-unauthenticated_example =
    serve-unauthenticated env true closed_gate delete_room (request_of "ann") conference
      (λ e. ground arith) (λ token c there h. ground arith)

serve-outsider_example :
    serve env true gate get_event (request_of "dan") conference ≡ (write_forbidden, with_dan)
unfolding guard_of
serve-outsider_example =
    serve-outsider env true gate get_event (request_of "dan") conference dan_signed refl dan_missing

serve-attendee_example :
    serve env true gate delete_room (request_of "cat") conference ≡ (write_forbidden, conference)
unfolding guard_of
serve-attendee_example =
    serve-attendee env true gate delete_room (request_of "cat") conference cat_signed refl
      cat_attends refl refl refl

serve-shows_email_example :
    shows_email (serve env true gate list_members (request_of "ben") conference).0 ≡ false
unfolding guard_of
serve-shows_email_example =
    serve-shows_email env true gate list_members (request_of "ben") conference ben_signed refl refl
      ben_contributes refl

conference-IsDated : IsDated conference
unfolding year_10000
conference-IsDated = record {
  events = omega arith;
  members = omega arith;
  rooms = omega arith;
  sessions = omega arith;
  invitations = omega arith;
}

handler_of-answers_example :
    answers (handler_of env true list_rooms (request_of "ben") conference).0 ≡ true
handler_of-answers_example =
    handler_of-answers env true (request_of "ben") conference codec-IsCodec conference-IsDated
      list_rooms

-- A request of the admin, past the middleware.
abbrev from_ann : Request
from_ann = record (request_of "ann") { user = some (user 1 "ann"); caller_role = some admin }

handler_of-refused_example : (handler_of env true patch_room from_ann conference).1 ≡ conference
unfolding handler_of patch_room_handler update_room is_blank validate_patch_room status_of
    room_write_error get_room trim_space fits_int4
handler_of-refused_example = handler_of-refused env true from_ann conference patch_room refl refl

named_room : NamesRoom env from_ann 10 30
named_room = record { has_event = refl; has_item = refl; event_read = refl; item_read = refl }

patch_room_handler-stale_example : patch_room_handler env from_ann conference ≡ (
  write_error 409 "version_conflict" "the room was modified by someone else; reload and retry"
      (current (some (of_room (room_response (room_row 30 10 "Hall"))))),
  conference,
)
unfolding validate_patch_room is_blank fits_int4
patch_room_handler-stale_example =
    patch_room_handler-stale env from_ann conference room_patch (all-Up 1) (all-Up 3) named_room
      refl refl refl refl refl

list_rooms_handler-next_page_example :
    list_rooms_handler env (record from_ann { cursor = "x.xxxxxxx." }) conference
    ≡ write_json 200 (
        of_rooms
          (record { data_rows = room_response (room_row 30 10 "Hall") ∷ []; next_cursor = none }))
unfolding limit_of rooms_page encode_cursor room_list_response next_token year_10000
list_rooms_handler-next_page_example =
    list_rooms_handler-next_page env from_ann conference (record { created_at = 1; id = 7 })
      codec-IsCodec refl refl refl refl refl refl refl refl

abbrev answered_panel : SessionResponse
answered_panel = session_response zone (record {
  id = 101;
  event_id = 10;
  room_id = 30;
  speaker_id = 2;
  title = "Panel";
  description = none;
  starts_at = 1300;
  ends_at = 1360;
  version = 1;
  created_at = 51;
  updated_at = 51;
  room_name = "";
  speaker_name = "";
  series_id = none;
})

create_session_handler-format_example :
    (zone.format_in 1300 ≡ "9am") × (zone.format_in 1360 ≡ "10am")
unfolding session_response create_session_handler event_timezone read_event to_event
    validate_create_session resolve_local_time is_blank to_create_input create_session
    create_session_error insert_audit
create_session_handler-format_example =
    create_session_handler-format env from_ann conference panel zone {s = answered_panel} refl refl
      refl

validate_create_series-refused_example :
    (series_refused (server 1) 10 (to_series_create_input zone 30 2 course) conference ≡ false)
    × (1300 < 1360)
unfolding validate_create_series is_blank resolve_local_time to_series_create_input
validate_create_series-refused_example =
    validate_create_series-refused (server 1) zone course 10 30 2 conference refl

abbrev null_start : PatchEventRequest
null_start = record event_patch { starts_at = of_value 0; ends_at = of_value 5 }

validate_patch_event-null_start_example :
    (validate_patch_event env.load_location null_start
      ≡ validate_patch_event env.load_location event_patch)
    × (◌≡◌ {A = ℕ} 0 0)
validate_patch_event-null_start_example =
    validate_patch_event-null_start (server 1) env.load_location event_patch (event_row 10) 5
      (omega arith)
