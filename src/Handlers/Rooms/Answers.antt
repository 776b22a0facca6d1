-- ===== src/Handlers/Rooms/Answers.antt =====
-- What the room handlers answer.
use krane_event_management_p.Common.{
  String, ℕ, ◌≡◌, false, ◌==◌, ◌&&◌, if◌then◌else◌, some, none, [], ok, find_row, arith,
}
use krane_event_management_p.Domain.{User, Room, Cursor}
use krane_event_management_p.Store.{Db, Up, exec, fits_int4}
use krane_event_management_p.Rooms.{is_row, gated, get_room, patch_encodes}
use krane_event_management_p.Rooms.Writes.{update_room-stale}
use krane_event_management_p.Pages.{Page}
use krane_event_management_p.Pages.Lists.{list_rooms}
use krane_event_management_p.Utils.Cursors.{IsCodec, encode_cursor, decode_cursor-encode_cursor}
use krane_event_management_p.Utils.Integers.{to_ℕ}
use krane_event_management_p.Requests.Rooms.{PatchRoomRequest, validate_patch_room, to_patch}
use krane_event_management_p.Responses.Rows.{
  ListResponse, RoomResponse, room_response, room_list_response,
}
use krane_event_management_p.Responses.Envelope.{
  of_room, of_rooms, write_json, write_error, write_internal_error, current, next,
}
use krane_event_management_p.Handlers.Context.{Env, Request, decoded, is_empty, limit_of, cursor_of}
use krane_event_management_p.Handlers.Rooms.{
  room_write_error, patch_room_handler, list_rooms_handler,
}

-- The path of a room: both values are uuids, of the event and of the room.
pub record NamesRoom (env : Env) (r : Request) (event id : ℕ) : Type 0 where
  pub has_event : is_empty r.event_id ≡ false
  pub has_item : is_empty r.item_id ≡ false
  pub event_read : env.codec.uuid_in r.event_id ≡ some event
  pub item_read : env.codec.uuid_in r.item_id ≡ some id

module _ (env : Env) (r : Request) (db : Db) {u : User} {event id : ℕ} {row : Room}
    (body : PatchRoomRequest) where
  -- While the server answers: a valid PATCH of a room that exists, by a signed-in user and with a
  -- version that is not the room's, changes nothing. Where the version, and the capacity if it is
  -- set, fit the 32 bits of their columns, it is answered 409 version_conflict with the room as it
  -- is now in the details; where one does not, although the validation accepts it, 500 internal.
  pub patch_room_handler-stale :
      Up env.pg
      → Up env.current_pg
      → NamesRoom env r event id
      → r.user ≡ some u
      → decoded env.json.patch_room_body r ≡ next body
      → validate_patch_room body ≡ []
      → find_row (is_row event id) db.rooms ≡ some row
      → find_row (gated event id (to_ℕ body.version)) db.rooms ≡ none
      → patch_room_handler env r db ≡ (
        if fits_int4 (to_ℕ body.version) && patch_encodes (to_patch body)
            then write_error 409 "version_conflict"
                "the room was modified by someone else; reload and retry"
                (current (some (of_room (room_response row))))
            else write_internal_error,
        db,
      )
  unfolding patch_room_handler get_room room_write_error
  patch_room_handler-stale up up' n signed d v found stale = ground (
    arith,
    n.has_event,
    n.has_item,
    n.event_read,
    n.item_read,
    up' exec,
    update_room-stale env.pg u.id event id (to_ℕ body.version) (to_patch body) db up found stale,
  )

module _ (env : Env) (r : Request) (db : Db) where
  -- Where the codec reads back what it wrote: GET rooms with the token of a position as its cursor
  -- is answered 200 with the page that the repository lists after that very position. The position
  -- is later than the zero time and has a token, which is not empty; and the repository has a page
  -- for the limit of the request, whose end is none or has a token.
  pub list_rooms_handler-next_page :
      {event : ℕ} (after : Cursor) {token : String}
      → IsCodec env.codec
      → (after.created_at == 0) ≡ false
      → is_empty r.event_id ≡ false
      → env.codec.uuid_in r.event_id ≡ some event
      → encode_cursor env.codec after ≡ some token
      → is_empty token ≡ false
      → {limit : ℕ} → limit_of r ≡ next limit
      → {page : Page Room} → list_rooms env.pg event limit (some after) db ≡ ok (some page)
      → {list : ListResponse RoomResponse} → room_list_response env.codec page ≡ some list
      → list_rooms_handler env (record r { cursor = token }) db ≡ write_json 200 (of_rooms list)
  unfolding list_rooms_handler cursor_of limit_of
  list_rooms_handler-next_page after lawful later named read written there known found listed =
      ground (
        arith,
        decode_cursor-encode_cursor env.codec after lawful later written,
        lawful.uuid_in-out after.id,
      )
