-- ===== src/Services.antt =====
-- internal/domain/*/service.go: each method passes its arguments to the repository. Ids come as texts,
-- which PostgreSQL reads: a text that is no uuid fails the statement that it is an argument of, with
-- an error that wraps no sentinel and with the transaction rolled back.
use krane_event_management_p.Common.{ℕ, String, Option, none, some, List, Result, err, internal}
use krane_event_management_p.Domain.{
  Role, User, Event, EventInput, EventPatch, Member, GrantInput, Room, RoomInput, RoomPatch,
  Session, SessionInput, SessionPatch, Series, SeriesInput, OccurrenceResult, Invitation,
  BulkResult, Cursor,
}
use krane_event_management_p.Store.{Db, Server}
use krane_event_management_p.Events.{create_event, get_event, update_event, delete_event}
use krane_event_management_p.Members.{create_member, get_member, assign_role, delete_member}
use krane_event_management_p.Rooms.{create_room, get_room, update_room, delete_room}
use krane_event_management_p.Sessions.{create_session, get_session, update_session, delete_session}
use krane_event_management_p.Series.{create_series}
use krane_event_management_p.Invitations.{create_invitation, bulk_create}
use krane_event_management_p.Pages.{Page}
use krane_event_management_p.Pages.Lists.{
  list_rooms, list_invitations, list_members, list_sessions, list_events,
}
use krane_event_management_p.Users.{get_or_create_by_subject}

abbrev pub get_or_create_service : Server → String → String → String → Db → Result User × Db
get_or_create_service pg subject email name = get_or_create_by_subject pg subject email name

-- A cursor as the handlers decode it.
pub record CursorText : Type 0 where
  pub created_at : ℕ
  pub id : String

module _ (uuid_in : String → Option ℕ) where
  abbrev by_id : {A : Type 0} → String → Db → (ℕ → Result A × Db) → Result A × Db
  by_id id db k = elim (uuid_in id) [ none ↦ (err internal, db) | some n ↦ k n ]

  abbrev read_by_id : {A : Type 0} → String → (ℕ → Result A) → Result A
  read_by_id id k = elim (uuid_in id) [ none ↦ err internal | some n ↦ k n ]

  abbrev read_from : {A : Type 0} → Option CursorText → (Option Cursor → Result A) → Result A
  read_from none k = k none
  read_from (some c) k =
      read_by_id c.id (λ n. k (some (record { created_at = c.created_at; id = n })))

  module _ (pg : Server) where
    abbrev pub create_event_service : ℕ → EventInput → Db → Result Event × Db
    create_event_service actor input db = create_event pg actor input db

    abbrev pub get_event_service : String → Db → Result Event
    get_event_service id db = read_by_id id (λ e. get_event pg e db)

    abbrev pub list_events_service : ℕ → ℕ → Option CursorText → Db → Result (Option (Page Event))
    list_events_service user limit after db = read_from after (λ c. list_events pg user limit c db)

    abbrev pub update_event_service : ℕ → String → ℕ → EventPatch → Db → Result Event × Db
    update_event_service actor id version patch db =
        by_id id db (λ e. update_event pg actor e version patch db)

    abbrev pub delete_event_service : ℕ → String → ℕ → Db → Result Event × Db
    delete_event_service actor id version db = by_id id db (λ e. delete_event pg actor e version db)

    abbrev pub create_member_service : ℕ → String → GrantInput → Db → Result Member × Db
    create_member_service actor event input db =
        by_id event db (λ e. create_member pg actor e input db)

    abbrev pub get_member_service : String → String → Db → Result Member
    get_member_service event id db =
        read_by_id event (λ e. read_by_id id (λ m. get_member pg e m db))

    abbrev pub list_members_service :
        String → ℕ → Option CursorText → Db → Result (Option (Page Member))
    list_members_service event limit after db =
        read_by_id event (λ e. read_from after (λ c. list_members pg e limit c db))

    abbrev pub assign_role_service : ℕ → String → String → ℕ → Role → Db → Result Member × Db
    assign_role_service actor event id version role db =
        by_id event db (λ e. by_id id db (λ m. assign_role pg actor e m version role db))

    abbrev pub remove_member_service : ℕ → String → String → ℕ → Db → Result (Unit {0}) × Db
    remove_member_service actor event id version db =
        by_id event db (λ e. by_id id db (λ m. delete_member pg actor e m version db))

    abbrev pub create_room_service : ℕ → String → RoomInput → Db → Result Room × Db
    create_room_service actor event input db = by_id event db (λ e. create_room pg actor e input db)

    abbrev pub get_room_service : String → String → Db → Result Room
    get_room_service event id db = read_by_id event (λ e. read_by_id id (λ r. get_room pg e r db))

    abbrev pub list_rooms_service :
        String → ℕ → Option CursorText → Db → Result (Option (Page Room))
    list_rooms_service event limit after db =
        read_by_id event (λ e. read_from after (λ c. list_rooms pg e limit c db))

    abbrev pub update_room_service : ℕ → String → String → ℕ → RoomPatch → Db → Result Room × Db
    update_room_service actor event id version patch db =
        by_id event db (λ e. by_id id db (λ r. update_room pg actor e r version patch db))

    abbrev pub delete_room_service : ℕ → String → String → ℕ → Db → Result (Unit {0}) × Db
    delete_room_service actor event id version db =
        by_id event db (λ e. by_id id db (λ r. delete_room pg actor e r version db))

    -- The input of a session, once its two ids are read.
    abbrev pub create_session_service :
        ℕ → String → String → String → (ℕ → ℕ → SessionInput) → Db → Result Session × Db
    create_session_service actor event room speaker input db =
        by_id event db (λ e.
          by_id room db (λ r. by_id speaker db (λ s. create_session pg actor e (input r s) db)))

    abbrev pub get_session_service : String → String → Db → Result Session
    get_session_service event id db =
        read_by_id event (λ e. read_by_id id (λ s. get_session pg e s db))

    abbrev pub list_sessions_service :
        String → ℕ → Option CursorText → Db → Result (Option (Page Session))
    list_sessions_service event limit after db =
        read_by_id event (λ e. read_from after (λ c. list_sessions pg e limit c db))

    abbrev pub update_session_service :
        ℕ → String → String → ℕ → SessionPatch → Db → Result Session × Db
    update_session_service actor event id version patch db =
        by_id event db (λ e. by_id id db (λ s. update_session pg actor e s version patch db))

    abbrev pub delete_session_service : ℕ → String → String → ℕ → Db → Result Session × Db
    delete_session_service actor event id version db =
        by_id event db (λ e. by_id id db (λ s. delete_session pg actor e s version db))

    abbrev pub create_series_service :
        (ℕ → Server)
        → ℕ
        → String
        → String
        → String
        → (ℕ → ℕ → SeriesInput)
        → Db
        → Result (Series × List OccurrenceResult) × Db
    create_series_service servers actor event room speaker input db = by_id event db (λ e.
        by_id room db
          (λ r. by_id speaker db (λ s. create_series pg servers actor e (input r s) db)))

    abbrev pub create_invitation_service : ℕ → String → GrantInput → Db → Result Invitation × Db
    create_invitation_service actor event input db =
        by_id event db (λ e. create_invitation pg actor e input db)

    abbrev pub list_invitations_service :
        String → ℕ → Option CursorText → Db → Result (Option (Page Invitation))
    list_invitations_service event limit after db =
        read_by_id event (λ e. read_from after (λ c. list_invitations pg e limit c db))

    abbrev pub bulk_invite_service :
        (ℕ → Server)
        → Server
        → (Db → Db)
        → ℕ
        → String
        → String
        → String
        → List GrantInput
        → Db
        → Result BulkResult × Db
    bulk_invite_service servers last others actor event key hash inputs db =
        by_id event db (λ e. bulk_create pg servers last others actor e key hash inputs db)
