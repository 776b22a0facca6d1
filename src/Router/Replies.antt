-- ===== src/Router/Replies.antt =====
-- No handler panics while the rows of the tables were created before the year 10000.
use krane_event_management_p.Common.{◌≡◌, Bool, true, false, arith}
use krane_event_management_p.Store.{Db}
use krane_event_management_p.Pages.Ends.{IsDated}
use krane_event_management_p.Utils.Cursors.{IsCodec}
use krane_event_management_p.Responses.Tokens.{
  list_events-presents, list_members-presents, list_rooms-presents, list_sessions-presents,
  list_invitations-presents,
}
use krane_event_management_p.Responses.Rows.{
  event_list_response, member_list_response, room_list_response, invitation_list_response,
}
use krane_event_management_p.Responses.Sessions.{session_list_response}
use krane_event_management_p.Responses.Envelope.{Response, answered, panicked}
use krane_event_management_p.Handlers.Context.{Env, Request, limit_of, cursor_of, version_of}
use krane_event_management_p.Handlers.Events.{
  create_event_handler, get_event_handler, list_events_handler, patch_event_handler,
  delete_event_handler, event_error,
}
use krane_event_management_p.Handlers.Members.{
  create_member_handler, list_members_handler, assign_role_handler, remove_member_handler,
  create_member_error, member_write_error,
}
use krane_event_management_p.Handlers.Rooms.{
  create_room_handler, get_room_handler, list_rooms_handler, patch_room_handler,
  delete_room_handler, room_write_error,
}
use krane_event_management_p.Handlers.Sessions.{
  create_session_handler, create_series_handler, get_session_handler, list_sessions_handler,
  patch_session_handler, delete_session_handler, event_timezone, create_session_error,
  session_write_error,
}
use krane_event_management_p.Handlers.Invitations.{
  create_invitation_handler, bulk_create_invitations_handler, list_invitations_handler,
  create_invitation_error, bulk_invite_error,
}
use krane_event_management_p.Router.{
  Route, handler_of, health, post_event, list_events, get_event, patch_event, delete_event,
  post_member, list_members, patch_member, delete_member, post_room, list_rooms, get_room,
  patch_room, delete_room, post_session, post_series, list_sessions, get_session, patch_session,
  delete_session, post_invitation, list_invitations, post_bulk,
}

abbrev pub answers : Response → Bool
answers (answered status body) = true
answers panicked = false

module _ (env : Env) (pings : Bool) (r : Request) (db : Db) where
  -- Where json.Marshal writes every time before the year 10000, and the rows of the tables were created
  -- before it: every handler answers every request. The limit that a list passes on is never 0, at
  -- which the repositories' items[limit-1] would panic; and EncodeCursor, which panics where Marshal
  -- fails, gets the position of a row.
  pub handler_of-answers :
      IsCodec env.codec
      → IsDated db
      → (route : Route) → answers (handler_of env pings route r db).0 ≡ true
  unfolding handler_of limit_of cursor_of version_of create_event_handler get_event_handler
      list_events_handler patch_event_handler delete_event_handler event_error create_member_handler
      list_members_handler assign_role_handler remove_member_handler create_member_error
      member_write_error create_room_handler get_room_handler list_rooms_handler patch_room_handler
      delete_room_handler room_write_error create_session_handler create_series_handler
      get_session_handler list_sessions_handler patch_session_handler delete_session_handler
      event_timezone create_session_error session_write_error create_invitation_handler
      bulk_create_invitations_handler list_invitations_handler create_invitation_error
      bulk_invite_error event_list_response member_list_response room_list_response
      session_list_response invitation_list_response
  handler_of-answers lawful dated health = ground arith
  handler_of-answers lawful dated post_event = ground arith
  handler_of-answers lawful dated list_events =
      grind (arith, list_events-presents env.codec lawful env.pg db dated)
  handler_of-answers lawful dated get_event = ground arith
  handler_of-answers lawful dated patch_event = ground arith
  handler_of-answers lawful dated delete_event = ground arith
  handler_of-answers lawful dated post_member = ground arith
  handler_of-answers lawful dated list_members =
      grind (arith, list_members-presents env.codec lawful env.pg db dated)
  handler_of-answers lawful dated patch_member = ground arith
  handler_of-answers lawful dated delete_member = ground arith
  handler_of-answers lawful dated post_room = ground arith
  handler_of-answers lawful dated list_rooms =
      grind (arith, list_rooms-presents env.codec lawful env.pg db dated)
  handler_of-answers lawful dated get_room = ground arith
  handler_of-answers lawful dated patch_room = ground arith
  handler_of-answers lawful dated delete_room = ground arith
  handler_of-answers lawful dated post_session = ground arith
  handler_of-answers lawful dated post_series = ground arith
  handler_of-answers lawful dated list_sessions =
      grind (arith, list_sessions-presents env.codec lawful env.pg db dated)
  handler_of-answers lawful dated get_session = ground arith
  handler_of-answers lawful dated patch_session = ground arith
  handler_of-answers lawful dated delete_session = ground arith
  handler_of-answers lawful dated post_invitation = ground arith
  handler_of-answers lawful dated list_invitations =
      grind (arith, list_invitations-presents env.codec lawful env.pg db dated)
  handler_of-answers lawful dated post_bulk = ground arith
