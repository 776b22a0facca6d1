-- ===== src/Router/Answers.antt =====
-- What a handler answers to a caller who is not an admin: no address, but on the routes of invitations.
use krane_event_management_p.Common.{
  Bool-cases, inl, inr, refl, Option, none, ◌≡◌, Bool, true, false, some, arith,
}
use krane_event_management_p.Domain.{Role, User, is_admin}
use krane_event_management_p.Store.{Db, MemberRow}
use krane_event_management_p.Policy.{permits}
use krane_event_management_p.Middleware.{Gate}
use krane_event_management_p.Middleware.Refusals.{SignedIn, LooksUp, authz-member}
use krane_event_management_p.Router.Access.{
  below_event, guard-below, serve-outsider, serve-permitted,
}
use krane_event_management_p.Responses.Emails.{shows_email, member_list_response-has_email}
use krane_event_management_p.Responses.Rows.{member_response}
use krane_event_management_p.Handlers.Context.{Env, Request, limit_of, cursor_of, version_of}
use krane_event_management_p.Handlers.Events.{
  create_event_handler, get_event_handler, list_events_handler, patch_event_handler,
  delete_event_handler, event_error,
}
use krane_event_management_p.Handlers.Members.{
  create_member_handler, list_members_handler, assign_role_handler, remove_member_handler,
  create_member_error, member_write_error,
}
use krane_event_management_p.Handlers.Rooms.{
  create_room_handler, get_room_handler, list_rooms_handler, patch_room_handler,
  delete_room_handler, room_write_error,
}
use krane_event_management_p.Handlers.Sessions.{
  create_session_handler, create_series_handler, get_session_handler, list_sessions_handler,
  patch_session_handler, delete_session_handler, event_timezone, create_session_error,
  session_write_error,
}
use krane_event_management_p.Handlers.Invitations.{
  create_invitation_handler, bulk_create_invitations_handler, list_invitations_handler,
  create_invitation_error, bulk_invite_error,
}
use krane_event_management_p.Router.{
  Route, serve, handler_of, health, post_event, list_events, get_event, patch_event, delete_event,
  post_member, list_members, patch_member, delete_member, post_room, list_rooms, get_room,
  patch_room, delete_room, post_session, post_series, list_sessions, get_session, patch_session,
  delete_session, post_invitation, list_invitations, post_bulk,
}

-- POST and GET invitations, and POST bulk, whose answers show the addresses of invitations to every
-- role that may call them.
abbrev pub is_invitation_route : Route → Bool
is_invitation_route post_invitation = true
is_invitation_route list_invitations = true
is_invitation_route post_bulk = true
is_invitation_route _ = false

module _ (env : Env) (pings : Bool) (r : Request) (db : Db) {caller : Role}
    (known : r.caller_role ≡ some caller) where
  -- Whatever the other route, an answer to a caller who is not an admin carries no address.
  pub handler_of-shows_email :
      (route : Route)
      → is_admin caller ≡ false
      → is_invitation_route route ≡ false
      → shows_email (handler_of env pings route r db).0 ≡ false
  unfolding shows_email handler_of limit_of cursor_of version_of member_response
      create_event_handler get_event_handler list_events_handler patch_event_handler
      delete_event_handler event_error create_member_handler list_members_handler
      assign_role_handler remove_member_handler create_member_error member_write_error
      create_room_handler get_room_handler list_rooms_handler patch_room_handler delete_room_handler
      room_write_error create_session_handler create_series_handler get_session_handler
      list_sessions_handler patch_session_handler delete_session_handler event_timezone
      create_session_error session_write_error create_invitation_handler
      bulk_create_invitations_handler list_invitations_handler create_invitation_error
      bulk_invite_error
  handler_of-shows_email health no_admin other = ground arith
  handler_of-shows_email post_event no_admin other = ground arith
  handler_of-shows_email list_events no_admin other = ground arith
  handler_of-shows_email get_event no_admin other = ground arith
  handler_of-shows_email patch_event no_admin other = ground arith
  handler_of-shows_email delete_event no_admin other = ground arith
  handler_of-shows_email post_member no_admin other = ground arith
  handler_of-shows_email list_members no_admin other =
      grind (arith, member_list_response-has_email env.codec caller)
  handler_of-shows_email patch_member no_admin other = ground arith
  handler_of-shows_email delete_member no_admin other = ground arith
  handler_of-shows_email post_room no_admin other = ground arith
  handler_of-shows_email list_rooms no_admin other = ground arith
  handler_of-shows_email get_room no_admin other = ground arith
  handler_of-shows_email patch_room no_admin other = ground arith
  handler_of-shows_email delete_room no_admin other = ground arith
  handler_of-shows_email post_session no_admin other = ground arith
  handler_of-shows_email post_series no_admin other = ground arith
  handler_of-shows_email list_sessions no_admin other = ground arith
  handler_of-shows_email get_session no_admin other = ground arith
  handler_of-shows_email patch_session no_admin other = ground arith
  handler_of-shows_email delete_session no_admin other = ground arith
  handler_of-shows_email post_invitation no_admin other = absurd (ground (arith, other))
  handler_of-shows_email list_invitations no_admin other = absurd (ground (arith, other))
  handler_of-shows_email post_bulk no_admin other = absurd (ground (arith, other))

-- The membership of the caller, where there is one, is an admin's.
abbrev pub is_admin_row : Option MemberRow → Bool
is_admin_row none = false
is_admin_row (some m) = is_admin m.role

module _ (env : Env) (pings : Bool) (gate : Gate) (route : Route) (r : Request) (db : Db) where
  -- On every route below an event but the three of invitations, and while the policy's lookup
  -- answers: the answer to a signed-in caller who is no admin of the event carries no address at all,
  -- neither as its body nor as the current state in the details of a version conflict.
  pub serve-shows_email :
      {u : User} {db' : Db} {row : Option MemberRow}
      → SignedIn gate r db u db'
      → below_event route ≡ true
      → is_invitation_route route ≡ false
      → LooksUp gate r.event_id u db' row
      → is_admin_row row ≡ false
      → shows_email (serve env pings gate route r db).0 ≡ false
  unfolding shows_email
  serve-shows_email {row = none} s below other l n =
      rw (serve-outsider env pings gate route r db s below l)
  serve-shows_email {u} {db'} {row = some m} s below other l n =
      let (resource, action, g) = guard-below route below in
      let h = handler_of env pings route in
      let r' = record r { user = some u } in
      rw (serve-permitted env pings gate route r db s g) (
        rw (authz-member gate h r' db' resource action refl l)
          (elim (Bool-cases (permits gate.permissions m.role resource action)) [
            | inl e ↦ rw e (
                handler_of-shows_email env pings (record r' { caller_role = some m.role }) db' refl
                  route n other)
            | inr e ↦ rw e
          ]))
