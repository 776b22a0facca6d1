-- ===== src/Examples/Calls.antt =====
-- Events, pages and sequences of calls at the conference.
use mathlib.Core.List.{Permᴰ}
use krane_event_management_p.Common.{
  ◌≡◌, refl, true, none, some, List, [], ◌∷◌, ok, err, not_found, arith,
}
use krane_event_management_p.Domain.{Event, Room, Cursor, admin, attendee}
use krane_event_management_p.Store.{Db, insert_audit, fits_int4}
use krane_event_management_p.Members.LastAdmin.{has_admin}
use krane_event_management_p.Policy.{Resource, Action, permits, can}
use krane_event_management_p.Policy.Seed.{seed}
use krane_event_management_p.Events.{
  create_event, get_event, update_event, delete_event, to_event, new_row,
}
use krane_event_management_p.Events.Creator.{create_event-creator}
use krane_event_management_p.Events.Versions.{missing, delete_event-gone}
use krane_event_management_p.Pages.{Page}
use krane_event_management_p.Pages.Order.{Ascending}
use krane_event_management_p.Pages.Walk.{walk, walk_all}
use krane_event_management_p.System.{
  Call, drop_member, patch_member, add_session, drop_room, invite_all, add_event, perform, run,
}
use krane_event_management_p.System.Invariants.{WellFormed, run-WellFormed}
use krane_event_management_p.System.Admins.{run-has_admin}
use krane_event_management_p.System.Audit.{IsAudited, perform-audits}
use krane_event_management_p.System.History.{Extends, run-Extends}
use krane_event_management_p.Examples.Data.{
  server, all-Up, conference, conference-WellFormed, conference-IsCalendar, event_input, renamed,
  session_input, grant, room_row,
}

-- Attempts on the last admin, a double booking, a room in use, and calls that succeed.
abbrev busy_day : List Call
busy_day =
    drop_member (server 0) 1 10 21 1
    ∷ patch_member (server 1) 1 10 21 1 attendee
    ∷ add_session (server 2) 1 10 (session_input 30 1150 1250)
    ∷ add_session (server 3) 1 10 (session_input 30 1300 1400)
    ∷ drop_room (server 4) 1 10 30 1
    ∷ add_event (server 5) 3 event_input
    ∷ invite_all (server 6) server (server 7) 2 10 "k" "h" (grant "dan" attendee ∷ [])
    ∷ []

run-WellFormed_example : WellFormed (run busy_day conference)
run-WellFormed_example = run-WellFormed busy_day conference conference-WellFormed

run-has_admin_example : has_admin 10 (run busy_day conference).members ≡ true
run-has_admin_example = run-has_admin 10 busy_day conference refl

run-Extends_example : Extends [] (run busy_day conference)
run-Extends_example = run-Extends busy_day conference

perform-audits_example :
    IsAudited conference (perform (drop_member (server 0) 1 10 23 1) conference)
perform-audits_example = perform-audits (drop_member (server 0) 1 10 23 1) conference

abbrev made : Db
made = (create_event (server 0) 3 event_input conference).1

create_event-creator_example :
    (can (server 1) seed 3 100 Action.delete Resource.event made
      ≡ ok (permits seed admin Resource.event Action.delete, some admin))
    × (has_admin 100 made.members ≡ true)
    × (get_event (server 1) 100 made ≡ ok (to_event (new_row (server 0) event_input)))
unfolding create_event insert_audit to_event
create_event-creator_example =
    create_event-creator (server 0) 3 event_input conference (server 1) seed Action.delete
      Resource.event (all-Up 1) refl

abbrev dropped : Db
dropped = (delete_event (server 0) 1 10 1 conference).1

delete_event-gone_example :
    (get_event (server 1) 10 dropped ≡ err not_found)
    × (update_event (server 1) 1 10 2 renamed dropped ≡ (err (missing 2), dropped))
    × (delete_event (server 1) 1 10 2 dropped ≡ (err (missing 2), dropped))
unfolding delete_event insert_audit fits_int4
delete_event-gone_example =
    delete_event-gone (server 0) (server 1) 1 1 10 1 2 renamed conference (all-Up 1)
      conference-IsCalendar refl

-- Three rooms, the newest first, read by twos.
abbrev three_rooms : List Room
three_rooms = room_row 34 10 "C" ∷ room_row 32 10 "A" ∷ room_row 33 10 "B" ∷ []

abbrev room_key : Room → Cursor
room_key r = record { created_at = r.created_at; id = r.id }

walk_all_example :
    Ascending room_key (walk room_key 4 2 none three_rooms)
    × Permᴰ (walk room_key 4 2 none three_rooms) three_rooms
walk_all_example =
    walk_all room_key 2 three_rooms (omega arith)
      (((λ e. omega arith), ((λ e. omega arith), tt)), (((λ e. omega arith), tt), (tt, tt)))

abbrev first_page : Page Event
first_page = record {
  items =
      (record {
        id = 10;
        name = "Conference";
        description = none;
        timezone = "Asia/Colombo";
        starts_at = 1000;
        ends_at = 2000;
        version = 1;
        created_at = 2;
        updated_at = 2;
      })
      ∷ [];
  next_cursor = none;
}
