-- ===== src/Router/Refusals.antt =====
-- A request that is refused has no effect.
use krane_event_management_p.Common.{◌≡◌, refl, Bool, true, false, leb, arith}
use krane_event_management_p.Store.{Db}
use krane_event_management_p.Events.{
  create_event, update_event, delete_event as drop_event, versioned_write as versioned_event,
}
use krane_event_management_p.Members.{create_member, assign_role, delete_member as remove_member}
use krane_event_management_p.Rooms.{create_room, update_room, delete_room as remove_room}
use krane_event_management_p.Sessions.{
  create_session, update_session, delete_session as cancel_session, versioned_write,
}
use krane_event_management_p.Invitations.{create_invitation}
use krane_event_management_p.Responses.Envelope.{status_of}
use krane_event_management_p.Handlers.Context.{Env, Request, limit_of, cursor_of, version_of}
use krane_event_management_p.Handlers.Events.{
  create_event_handler, get_event_handler, list_events_handler, patch_event_handler,
  delete_event_handler, event_error,
}
use krane_event_management_p.Handlers.Members.{
  create_member_handler, list_members_handler, assign_role_handler, remove_member_handler,
  create_member_error, member_write_error,
}
use krane_event_management_p.Handlers.Rooms.{
  create_room_handler, get_room_handler, list_rooms_handler, patch_room_handler,
  delete_room_handler, room_write_error,
}
use krane_event_management_p.Handlers.Sessions.{
  create_session_handler, create_series_handler, get_session_handler, list_sessions_handler,
  patch_session_handler, delete_session_handler, event_timezone, create_session_error,
  session_write_error,
}
use krane_event_management_p.Handlers.Invitations.{
  create_invitation_handler, bulk_create_invitations_handler, list_invitations_handler,
  create_invitation_error, bulk_invite_error,
}
use krane_event_management_p.Router.{
  Route, handler_of, health, post_event, list_events, get_event, patch_event, delete_event,
  post_member, list_members, patch_member, delete_member, post_room, list_rooms, get_room,
  patch_room, delete_room, post_session, post_series, list_sessions, get_session, patch_session,
  delete_session, post_invitation, list_invitations, post_bulk,
}

-- Every write of the route is in one transaction.
abbrev pub one_transaction : Route → Bool
one_transaction post_series = false
one_transaction post_bulk = false
one_transaction _ = true

module _ (env : Env) (pings : Bool) (r : Request) (db : Db) where
  -- A handler of any route but POST series and POST bulk that answers with a status of 400 or more
  -- leaves the tables as they were.
  pub handler_of-refused :
      (route : Route)
      → one_transaction route ≡ true
      → leb 400 (status_of (handler_of env pings route r db).0) ≡ true
      → (handler_of env pings route r db).1 ≡ db
  unfolding handler_of limit_of cursor_of version_of create_event_handler get_event_handler
      list_events_handler patch_event_handler delete_event_handler event_error create_member_handler
      list_members_handler assign_role_handler remove_member_handler create_member_error
      member_write_error create_room_handler get_room_handler list_rooms_handler patch_room_handler
      delete_room_handler room_write_error create_session_handler create_series_handler
      get_session_handler list_sessions_handler patch_session_handler delete_session_handler
      event_timezone create_session_error session_write_error create_invitation_handler
      bulk_create_invitations_handler list_invitations_handler create_invitation_error
      bulk_invite_error status_of create_event update_event drop_event versioned_event create_member
      assign_role remove_member create_room update_room remove_room create_session update_session
      cancel_session versioned_write create_invitation
  handler_of-refused health single h = refl
  handler_of-refused post_event single h = ground arith
  handler_of-refused list_events single h = refl
  handler_of-refused get_event single h = refl
  handler_of-refused patch_event single h = ground arith
  handler_of-refused delete_event single h = ground arith
  handler_of-refused post_member single h = ground arith
  handler_of-refused list_members single h = refl
  handler_of-refused patch_member single h = ground arith
  handler_of-refused delete_member single h = ground arith
  handler_of-refused post_room single h = ground arith
  handler_of-refused list_rooms single h = refl
  handler_of-refused get_room single h = refl
  handler_of-refused patch_room single h = ground arith
  handler_of-refused delete_room single h = ground arith
  handler_of-refused post_session single h = ground arith
  handler_of-refused post_series single h = absurd (ground arith)
  handler_of-refused list_sessions single h = refl
  handler_of-refused get_session single h = refl
  handler_of-refused patch_session single h = ground arith
  handler_of-refused delete_session single h = ground arith
  handler_of-refused post_invitation single h = ground arith
  handler_of-refused list_invitations single h = refl
  handler_of-refused post_bulk single h = absurd (ground arith)
