-- ===== src/Router/Access.antt =====
-- Who gets through to a handler, and what an answer shows to whom.
use krane_event_management_p.Common.{
  String, refl, ◌≡◌, ◌≢◌, ◌⊎◌, inl, inr, Bool, true, false, none, some, arith,
}
use krane_event_management_p.Domain.{User, attendee}
use krane_event_management_p.Store.{Db, MemberRow}
use krane_event_management_p.Policy.{
  Resource, event, member, room, session, invitation, Action, create, read, update, assign_role,
  permits,
}
use krane_event_management_p.Policy.Seed.{seed}
use krane_event_management_p.Handlers.Context.{Env, Request}
use krane_event_management_p.Middleware.{
  Gate, verify, bearer_token, TokenClaims, claims_of, write_unauthorized, write_forbidden, authz,
}
use krane_event_management_p.Middleware.Refusals.{
  SignedIn, LooksUp, auth-SignedIn, auth-refused, authz-outsider, authz-member,
}
use krane_event_management_p.Router.{
  Route, Guard, unguarded, signed_in, permitted, guard_of, handler_of, serve, health, post_event,
  list_events, get_event, patch_event, delete_event, post_member, list_members, patch_member,
  delete_member, post_room, list_rooms, get_room, patch_room, delete_room, post_session,
  post_series, list_sessions, get_session, patch_session, delete_session, post_invitation,
  list_invitations, post_bulk,
}

-- The routes whose path names an event.
abbrev pub below_event : Route → Bool
below_event health = false
below_event post_event = false
below_event list_events = false
below_event _ = true

-- What an attendee may use, of these.
abbrev pub for_attendee : Route → Bool
for_attendee get_event = true
for_attendee list_sessions = true
for_attendee get_session = true
for_attendee _ = false

pub guard-below :
    (route : Route)
    → below_event route ≡ true
    → (resource : Resource) × (action : Action) × (guard_of route ≡ permitted resource action)
unfolding guard_of
guard-below health h = absurd (ground arith)
guard-below post_event h = absurd (ground arith)
guard-below list_events h = absurd (ground arith)
guard-below get_event h = (event, read, refl)
guard-below patch_event h = (event, update, refl)
guard-below delete_event h = (event, Action.delete, refl)
guard-below post_member h = (member, create, refl)
guard-below list_members h = (member, read, refl)
guard-below patch_member h = (member, assign_role, refl)
guard-below delete_member h = (member, Action.delete, refl)
guard-below post_room h = (room, create, refl)
guard-below list_rooms h = (room, read, refl)
guard-below get_room h = (room, read, refl)
guard-below patch_room h = (room, update, refl)
guard-below delete_room h = (room, Action.delete, refl)
guard-below post_session h = (session, create, refl)
guard-below post_series h = (session, create, refl)
guard-below list_sessions h = (session, read, refl)
guard-below get_session h = (session, read, refl)
guard-below patch_session h = (session, update, refl)
guard-below delete_session h = (session, Action.delete, refl)
guard-below post_invitation h = (invitation, create, refl)
guard-below list_invitations h = (invitation, read, refl)
guard-below post_bulk h = (invitation, create, refl)

Guard-cases :
    (g : Guard)
    → ((g ≡ unguarded) ⊎ (g ≡ signed_in))
      ⊎ ((resource : Resource) × (action : Action) × (g ≡ permitted resource action))
Guard-cases unguarded = inl (inl refl)
Guard-cases signed_in = inl (inr refl)
Guard-cases (permitted resource action) = inr (resource, action, refl)

attendee_refused :
    (route : Route) {resource : Resource} {action : Action}
    → for_attendee route ≡ false
    → guard_of route ≡ permitted resource action
    → permits seed attendee resource action ≡ false
unfolding permits guard_of
attendee_refused route closed g = ground arith

guard-not_health :
    (route : Route)
    → route ≢ health
    → (guard_of route ≡ signed_in)
      ⊎ ((resource : Resource) × (action : Action) × (guard_of route ≡ permitted resource action))
unfolding guard_of
guard-not_health route h = elim (Guard-cases (guard_of route)) [
  | inl (inl e) ↦ absurd (h (ground arith))
  | inl (inr e) ↦ inl e
  | inr e ↦ inr e
]

module _ (env : Env) (pings : Bool) (gate : Gate) (route : Route) (r : Request) (db : Db) where
  -- Every route but GET /health answers 401 to a request that carries no bearer token that verifies
  -- with all its claims, and leaves the tables as they were.
  pub serve-unauthenticated :
      route ≢ health
      → ((token : String) (c : TokenClaims)
          → bearer_token r.authorization ≡ some token
          → verify gate.id_token token ≢ claims_of c)
      → serve env pings gate route r db ≡ (write_unauthorized, db)
  unfolding serve
  serve-unauthenticated g refused = elim (guard-not_health route g) [
    | inl e ↦ rw (serve, e) (auth-refused gate (handler_of env pings route) r db refused)
    | inr (resource, action, e) ↦
        rw (serve, e)
          (auth-refused gate (authz gate resource action (handler_of env pings route)) r db refused)
  ]

  module _ {u : User} {db' : Db} (s : SignedIn gate r db u db') where
    pub serve-permitted :
        {resource : Resource} {action : Action}
        → guard_of route ≡ permitted resource action
        → serve env pings gate route r db
          ≡ authz gate resource action (handler_of env pings route) (record r { user = some u }) db'
    unfolding serve
    serve-permitted {resource} {action} g =
        rw (serve, g)
          (auth-SignedIn gate (authz gate resource action (handler_of env pings route)) r db s)

    -- While the policy's lookup answers: a signed-in user without a membership on the event of the
    -- path is answered the same 403 by every route below an event, whether or not the event exists
    -- and whatever the body, and the tables are those that the sign-in left.
    pub serve-outsider :
        below_event route ≡ true
        → LooksUp gate r.event_id u db' none
        → serve env pings gate route r db ≡ (write_forbidden, db')
    serve-outsider below l =
        let (resource, action, g) = guard-below route below in
        rw (serve-permitted g) (
          authz-outsider gate (handler_of env pings route) (record r { user = some u }) db' resource
            action refl l)

    -- With the seeded permissions, and while the policy's lookup answers: a signed-in attendee of
    -- the event is answered 403 by every route below the event but those that read the event and its
    -- sessions, and the tables are those that the sign-in left.
    pub serve-attendee :
        {m : MemberRow}
        → gate.permissions ≡ seed
        → LooksUp gate r.event_id u db' (some m)
        → m.role ≡ attendee
        → below_event route ≡ true
        → for_attendee route ≡ false
        → serve env pings gate route r db ≡ (write_forbidden, db')
    serve-attendee {m} seeded l role below closed =
        let (resource, action, g) = guard-below route below in
        rw (serve-permitted g) (
          rw (
            authz-member gate (handler_of env pings route) (record r { user = some u }) db' resource
                action refl l,
            seeded,
            role,
            attendee_refused route closed g,
          ))
