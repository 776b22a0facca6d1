-- ===== src/Router.antt =====
-- internal/http/router.go: the routes, what guards each, and its handler.
pub mod Access
pub mod Replies
pub mod Refusals
pub mod Answers
use text.Mathlib.Text.{◌==◌ as str_eq}
use krane_event_management_p.Common.{
  ℕ, String, Bool, true, false, ◌&&◌, Option, none, some, List, [], ◌∷◌, if◌then◌else◌,
}
use krane_event_management_p.Store.{Db}
use krane_event_management_p.Policy.{
  Resource, event, member, room, session, invitation, Action, create, read, update, assign_role,
}
use krane_event_management_p.Responses.Envelope.{
  Response, healthy, no_details, write_error, write_json,
}
use krane_event_management_p.Handlers.Context.{Env, Request}
use krane_event_management_p.Handlers.Events.{
  create_event_handler, get_event_handler, list_events_handler, patch_event_handler,
  delete_event_handler,
}
use krane_event_management_p.Handlers.Members.{
  create_member_handler, list_members_handler, assign_role_handler, remove_member_handler,
}
use krane_event_management_p.Handlers.Rooms.{
  create_room_handler, get_room_handler, list_rooms_handler, patch_room_handler,
  delete_room_handler,
}
use krane_event_management_p.Handlers.Sessions.{
  create_session_handler, create_series_handler, get_session_handler, list_sessions_handler,
  patch_session_handler, delete_session_handler,
}
use krane_event_management_p.Handlers.Invitations.{
  create_invitation_handler, bulk_create_invitations_handler, list_invitations_handler,
}
use krane_event_management_p.Middleware.{Gate, Handler, auth, authz}

pub data Route : Type 0 where
  health : Route
  post_event list_events get_event patch_event delete_event : Route
  post_member list_members patch_member delete_member : Route
  post_room list_rooms get_room patch_room delete_room : Route
  post_session post_series list_sessions get_session patch_session delete_session : Route
  post_invitation list_invitations post_bulk : Route

pub data Guard : Type 0 where
  unguarded signed_in : Guard
  permitted : Resource → Action → Guard

unfoldable pub guard_of : Route → Guard
guard_of health = unguarded
guard_of post_event = signed_in
guard_of list_events = signed_in
guard_of get_event = permitted event read
guard_of patch_event = permitted event update
guard_of delete_event = permitted event Action.delete
guard_of post_member = permitted member create
guard_of list_members = permitted member read
guard_of patch_member = permitted member assign_role
guard_of delete_member = permitted member Action.delete
guard_of post_room = permitted room create
guard_of list_rooms = permitted room read
guard_of get_room = permitted room read
guard_of patch_room = permitted room update
guard_of delete_room = permitted room Action.delete
guard_of post_session = permitted session create
guard_of post_series = permitted session create
guard_of list_sessions = permitted session read
guard_of get_session = permitted session read
guard_of patch_session = permitted session update
guard_of delete_session = permitted session Action.delete
guard_of post_invitation = permitted invitation create
guard_of list_invitations = permitted invitation read
guard_of post_bulk = permitted invitation create

-- HealthHandler.ServeHTTP, of whether the database answered the ping.
abbrev pub health_response : Bool → Response
health_response true = write_json 200 healthy
health_response false = write_error 503 "service_unavailable" "database unreachable" no_details

-- A handler that only reads.
abbrev pub reading : (Request → Db → Response) → Handler
reading h r db = (h r db, db)

module _ (env : Env) (pings : Bool) where
  unfoldable pub handler_of : Route → Handler
  handler_of health = reading (λ r db. health_response pings)
  handler_of post_event = create_event_handler env
  handler_of list_events = reading (list_events_handler env)
  handler_of get_event = reading (get_event_handler env)
  handler_of patch_event = patch_event_handler env
  handler_of delete_event = delete_event_handler env
  handler_of post_member = create_member_handler env
  handler_of list_members = reading (list_members_handler env)
  handler_of patch_member = assign_role_handler env
  handler_of delete_member = remove_member_handler env
  handler_of post_room = create_room_handler env
  handler_of list_rooms = reading (list_rooms_handler env)
  handler_of get_room = reading (get_room_handler env)
  handler_of patch_room = patch_room_handler env
  handler_of delete_room = delete_room_handler env
  handler_of post_session = create_session_handler env
  handler_of post_series = create_series_handler env
  handler_of list_sessions = reading (list_sessions_handler env)
  handler_of get_session = reading (get_session_handler env)
  handler_of patch_session = patch_session_handler env
  handler_of delete_session = delete_session_handler env
  handler_of post_invitation = create_invitation_handler env
  handler_of list_invitations = reading (list_invitations_handler env)
  handler_of post_bulk = bulk_create_invitations_handler env

  module _ (gate : Gate) where
    abbrev pub guarded : Guard → Handler → Handler
    guarded unguarded h = h
    guarded signed_in h = auth gate h
    guarded (permitted resource action) h = auth gate (authz gate resource action h)

    -- A request that the mux has matched to a route.
    unfoldable pub serve : Route → Handler
    unfolding guard_of handler_of
    serve route = guarded (guard_of route) (handler_of route)

-- A pattern with GET also matches HEAD.
pub data Method : Type 0 where
  get head post patch delete other : Method

abbrev pub by_method :
    Option Route → Option Route → Option Route → Option Route → Method → Option Route
by_method on_get on_post on_patch on_delete get = on_get
by_method on_get on_post on_patch on_delete head = on_get
by_method on_get on_post on_patch on_delete post = on_post
by_method on_get on_post on_patch on_delete patch = on_patch
by_method on_get on_post on_patch on_delete delete = on_delete
by_method on_get on_post on_patch on_delete other = none

abbrev pub collection_route : String → Method → Option Route
collection_route name method =
    if str_eq name "members"
    then by_method (some list_members) (some post_member) none none method
    else if str_eq name "rooms"
    then by_method (some list_rooms) (some post_room) none none method
    else if str_eq name "sessions"
    then by_method (some list_sessions) (some post_session) none none method
    else if str_eq name "invitations"
    then by_method (some list_invitations) (some post_invitation) none none method
    else none

abbrev pub item_route : String → String → Method → Option Route
item_route name item method =
    if str_eq name "members"
    then by_method none none (some patch_member) (some delete_member) method
    else if str_eq name "rooms"
    then by_method (some get_room) none (some patch_room) (some delete_room) method
    else if str_eq name "sessions"
    then by_method (some get_session) (if str_eq item "series" then some post_series else none)
        (some patch_session) (some delete_session) method
    else if str_eq name "invitations" && str_eq item "bulk"
    then by_method none (some post_bulk) none none method
    else none

abbrev pub is_events : String → String → Bool
is_events version name = str_eq version "v1" && str_eq name "events"

-- NewRouter's patterns, on the segments of a path.
unfoldable pub route_of : Method → List String → Option Route
route_of method (name ∷ []) =
    if str_eq name "health" then by_method (some health) none none none method else none
route_of method (v ∷ name ∷ []) =
    if is_events v name
    then by_method (some list_events) (some post_event) none none method
    else none
route_of method (v ∷ name ∷ id ∷ []) =
    if is_events v name
    then by_method (some get_event) none (some patch_event) (some delete_event) method
    else none
route_of method (v ∷ name ∷ id ∷ collection ∷ []) =
    if is_events v name then collection_route collection method else none
route_of method (v ∷ name ∷ id ∷ collection ∷ item ∷ []) =
    if is_events v name then item_route collection item method else none
route_of method _ = none
