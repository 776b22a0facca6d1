-- ===== src/System.antt =====
-- The writes that the API makes (cmd/api over internal/adapter/postgres), as calls that change the
-- tables one after the other.
pub mod Invariants
pub mod Admins
pub mod History
pub mod Audit
use krane_event_management_p.Common.{ℕ, String, List, [], ◌∷◌}
use krane_event_management_p.Domain.{
  Role, EventInput, EventPatch, GrantInput, RoomInput, RoomPatch, SessionInput, SessionPatch,
  SeriesInput,
}
use krane_event_management_p.Store.{Db, Server}
use krane_event_management_p.Members.{create_member, assign_role, delete_member}
use krane_event_management_p.Sessions.{create_session, update_session, delete_session}
use krane_event_management_p.Series.{create_series}
use krane_event_management_p.Rooms.{create_room, update_room, delete_room}
use krane_event_management_p.Invitations.{create_invitation, bulk_create}
use krane_event_management_p.Events.{create_event, update_event, delete_event}
use krane_event_management_p.Users.{get_or_create_by_subject}

-- A call by the user `actor`, with what the server contributes to it.
pub data Call : Type 0 where
  sign_in : Server → (subject email name : String) → Call
  add_event : Server → (actor : ℕ) → EventInput → Call
  patch_event : Server → (actor id version : ℕ) → EventPatch → Call
  drop_event : Server → (actor id version : ℕ) → Call
  add_member : Server → (actor event : ℕ) → GrantInput → Call
  patch_member : Server → (actor event id version : ℕ) → Role → Call
  drop_member : Server → (actor event id version : ℕ) → Call
  add_room : Server → (actor event : ℕ) → RoomInput → Call
  patch_room : Server → (actor event id version : ℕ) → RoomPatch → Call
  drop_room : Server → (actor event id version : ℕ) → Call
  add_session : Server → (actor event : ℕ) → SessionInput → Call
  patch_session : Server → (actor event id version : ℕ) → SessionPatch → Call
  drop_session : Server → (actor event id version : ℕ) → Call
  add_series : Server → (ℕ → Server) → (actor event : ℕ) → SeriesInput → Call
  invite : Server → (actor event : ℕ) → GrantInput → Call
  invite_all :
      Server
      → (ℕ → Server)
      → Server
      → (actor event : ℕ) → (key hash : String) → List GrantInput
      → Call

-- A call runs alone: nothing comes between the transactions of a series or a bulk invitation.
unfoldable pub perform : Call → Db → Db
perform (sign_in pg subject email name) db = (get_or_create_by_subject pg subject email name db).1
perform (add_event pg actor input) db = (create_event pg actor input db).1
perform (patch_event pg actor id version patch) db = (update_event pg actor id version patch db).1
perform (drop_event pg actor id version) db = (delete_event pg actor id version db).1
perform (add_member pg actor event input) db = (create_member pg actor event input db).1
perform (patch_member pg actor event id version role) db =
    (assign_role pg actor event id version role db).1
perform (drop_member pg actor event id version) db = (delete_member pg actor event id version db).1
perform (add_room pg actor event input) db = (create_room pg actor event input db).1
perform (patch_room pg actor event id version patch) db =
    (update_room pg actor event id version patch db).1
perform (drop_room pg actor event id version) db = (delete_room pg actor event id version db).1
perform (add_session pg actor event input) db = (create_session pg actor event input db).1
perform (patch_session pg actor event id version patch) db =
    (update_session pg actor event id version patch db).1
perform (drop_session pg actor event id version) db =
    (delete_session pg actor event id version db).1
perform (add_series pg servers actor event input) db =
    (create_series pg servers actor event input db).1
perform (invite pg actor event input) db = (create_invitation pg actor event input db).1
perform (invite_all pg servers last actor event key hash inputs) db =
    (bulk_create pg servers last (λ d. d) actor event key hash inputs db).1

unfoldable pub run : List Call → Db → Db
run [] db = db
run (call ∷ calls) db = run calls (perform call db)
