-- ===== src/System/Invariants.antt =====
-- What every write of the API preserves, whichever way it ends: the constraints between rows.
use krane_event_management_p.Common.{ℕ, List, [], ◌∷◌, ok}
use krane_event_management_p.Domain.{SessionInput, GrantInput}
use krane_event_management_p.Store.{Db, Server, update, delete}
use krane_event_management_p.Members.Writes.{
  create_member-keeps, assign_role-keeps, delete_member-keeps,
}
use krane_event_management_p.Members.Roster.{
  IsRoster, create_member-IsRoster, assign_role-IsRoster, delete_member-IsRoster,
}
use krane_event_management_p.Events.{
  update_event, delete_event, patched_row as patched_event, deleted_row,
}
use krane_event_management_p.Events.Writes.{
  create_event-keeps, versioned_write-keeps as event_write-keeps,
}
use krane_event_management_p.Events.Creator.{create_event-IsRoster}
use krane_event_management_p.Events.Versions.{
  IsCalendar, create_event-IsCalendar, update_event-IsCalendar, delete_event-IsCalendar,
}
use krane_event_management_p.Rooms.Writes.{create_room-keeps, update_room-keeps, delete_room-keeps}
use krane_event_management_p.Rooms.Names.{
  IsNamed, create_room-IsNamed, update_room-IsNamed, delete_room-IsNamed,
}
use krane_event_management_p.Rooms.References.{
  IsHoused, create_room-IsHoused, update_room-IsHoused, delete_room-IsHoused,
}
use krane_event_management_p.Sessions.{
  create_session, update_session, delete_session, update_change, cancelled_row,
}
use krane_event_management_p.Sessions.Writes.{
  create_session-keeps, versioned_write-keeps as session_write-keeps,
}
use krane_event_management_p.Sessions.Schedule.{
  IsSchedule, create_session-IsSchedule, update_session-IsSchedule, delete_session-IsSchedule,
}
use krane_event_management_p.Sessions.Housed.{
  create_session-IsHoused, update_session-IsHoused, delete_session-IsHoused,
}
use krane_event_management_p.Series.Outcomes.{create_series-keeps}
use krane_event_management_p.Invitations.Writes.{create_invitation-keeps}
use krane_event_management_p.Invitations.Keeps.{bulk_create-keeps}
use krane_event_management_p.Invitations.{create_invitation}
use krane_event_management_p.Users.{get_or_create_by_subject-keeps}
use krane_event_management_p.System.{
  Call, sign_in, add_event, patch_event, drop_event, add_member, patch_member, drop_member,
  add_room, patch_room, drop_room, add_session, patch_session, drop_session, add_series, invite,
  invite_all, perform, run,
}

-- The rosters, the calendar, the rooms and the schedule are each in order, and sessions are in rooms of
-- their own event.
pub record WellFormed (db : Db) : Type 0 where
  pub roster : IsRoster db.members
  pub calendar : IsCalendar db.events
  pub rooms : IsNamed db.rooms
  pub schedule : IsSchedule db.sessions
  pub housed : IsHoused db

create_session-WellFormed :
    (pg : Server) (actor event : ℕ) (input : SessionInput) (db : Db)
    → WellFormed db
    → WellFormed (create_session pg actor event input db).1
create_session-WellFormed pg actor event input db w =
    let keeps = create_session-keeps pg actor event input db in
    record {
      roster = keeps (λ d. IsRoster d.members) w.roster (λ c. w.roster);
      calendar = keeps (λ d. IsCalendar d.events) w.calendar (λ c. w.calendar);
      rooms = keeps (λ d. IsNamed d.rooms) w.rooms (λ c. w.rooms);
      schedule = create_session-IsSchedule pg actor event input db w.schedule;
      housed = create_session-IsHoused pg actor event db w.housed input;
    }

create_invitation-WellFormed :
    (pg : Server) (actor event : ℕ) (input : GrantInput) (db : Db)
    → WellFormed db
    → WellFormed (create_invitation pg actor event input db).1
create_invitation-WellFormed pg actor event input db w =
    create_invitation-keeps pg actor event input db WellFormed w (λ c. record {
      roster = w.roster;
      calendar = w.calendar;
      rooms = w.rooms;
      schedule = w.schedule;
      housed = w.housed;
    })

perform-WellFormed : (call : Call) (db : Db) → WellFormed db → WellFormed (perform call db)
unfolding perform update_event delete_event update_session delete_session
perform-WellFormed (sign_in pg subject email name) db w =
    get_or_create_by_subject-keeps WellFormed pg subject email name db w (record {
      roster = w.roster;
      calendar = w.calendar;
      rooms = w.rooms;
      schedule = w.schedule;
      housed = w.housed;
    })
perform-WellFormed (add_event pg actor input) db w =
    let keeps = create_event-keeps pg actor input db in
    record {
      roster = create_event-IsRoster pg actor input db w.roster;
      calendar = create_event-IsCalendar pg actor db w.calendar input;
      rooms = keeps (λ d. IsNamed d.rooms) w.rooms (λ c. w.rooms);
      schedule = keeps (λ d. IsSchedule d.sessions) w.schedule (λ c. w.schedule);
      housed = keeps IsHoused w.housed (λ c. w.housed);
    }
perform-WellFormed (patch_event pg actor id version patch) db w =
    let keeps = event_write-keeps pg actor id version update (patched_event pg patch) db in
    record {
      roster = keeps (λ d. IsRoster d.members) w.roster (λ c. w.roster);
      calendar = update_event-IsCalendar pg actor db w.calendar id version patch;
      rooms = keeps (λ d. IsNamed d.rooms) w.rooms (λ c. w.rooms);
      schedule = keeps (λ d. IsSchedule d.sessions) w.schedule (λ c. w.schedule);
      housed = keeps IsHoused w.housed (λ c. w.housed);
    }
perform-WellFormed (drop_event pg actor id version) db w =
    let keeps = event_write-keeps pg actor id version delete (deleted_row pg) db in
    record {
      roster = keeps (λ d. IsRoster d.members) w.roster (λ c. w.roster);
      calendar = delete_event-IsCalendar pg actor db w.calendar id version;
      rooms = keeps (λ d. IsNamed d.rooms) w.rooms (λ c. w.rooms);
      schedule = keeps (λ d. IsSchedule d.sessions) w.schedule (λ c. w.schedule);
      housed = keeps IsHoused w.housed (λ c. w.housed);
    }
perform-WellFormed (add_member pg actor event input) db w =
    let keeps = create_member-keeps pg actor event input db in
    record {
      roster = create_member-IsRoster pg actor event db w.roster input;
      calendar = keeps (λ d. IsCalendar d.events) w.calendar (λ u g k f. w.calendar);
      rooms = keeps (λ d. IsNamed d.rooms) w.rooms (λ u g k f. w.rooms);
      schedule = keeps (λ d. IsSchedule d.sessions) w.schedule (λ u g k f. w.schedule);
      housed = keeps IsHoused w.housed (λ u g k f. w.housed);
    }
perform-WellFormed (patch_member pg actor event id version role) db w =
    let keeps = assign_role-keeps pg actor event id version role db in
    record {
      roster = assign_role-IsRoster pg actor event db w.roster id version role;
      calendar = keeps (λ d. IsCalendar d.events) w.calendar (λ o f k. w.calendar);
      rooms = keeps (λ d. IsNamed d.rooms) w.rooms (λ o f k. w.rooms);
      schedule = keeps (λ d. IsSchedule d.sessions) w.schedule (λ o f k. w.schedule);
      housed = keeps IsHoused w.housed (λ o f k. w.housed);
    }
perform-WellFormed (drop_member pg actor event id version) db w =
    let keeps = delete_member-keeps pg actor event id version db in
    record {
      roster = delete_member-IsRoster pg actor event db w.roster id version;
      calendar = keeps (λ d. IsCalendar d.events) w.calendar (λ o f. w.calendar);
      rooms = keeps (λ d. IsNamed d.rooms) w.rooms (λ o f. w.rooms);
      schedule = keeps (λ d. IsSchedule d.sessions) w.schedule (λ o f. w.schedule);
      housed = keeps IsHoused w.housed (λ o f. w.housed);
    }
perform-WellFormed (add_room pg actor event input) db w =
    let keeps = create_room-keeps pg actor event input db in
    record {
      roster = keeps (λ d. IsRoster d.members) w.roster (λ c. w.roster);
      calendar = keeps (λ d. IsCalendar d.events) w.calendar (λ c. w.calendar);
      rooms = create_room-IsNamed pg actor event db w.rooms input;
      schedule = keeps (λ d. IsSchedule d.sessions) w.schedule (λ c. w.schedule);
      housed = create_room-IsHoused pg actor event db w.housed input;
    }
perform-WellFormed (patch_room pg actor event id version patch) db w =
    let keeps = update_room-keeps pg actor event id version patch db in
    record {
      roster = keeps (λ d. IsRoster d.members) w.roster (λ c. w.roster);
      calendar = keeps (λ d. IsCalendar d.events) w.calendar (λ c. w.calendar);
      rooms = update_room-IsNamed pg actor event db w.rooms id version patch;
      schedule = keeps (λ d. IsSchedule d.sessions) w.schedule (λ c. w.schedule);
      housed = update_room-IsHoused pg actor event db w.housed id version patch;
    }
perform-WellFormed (drop_room pg actor event id version) db w =
    let keeps = delete_room-keeps pg actor event id version db in
    record {
      roster = keeps (λ d. IsRoster d.members) w.roster (λ c. w.roster);
      calendar = keeps (λ d. IsCalendar d.events) w.calendar (λ c. w.calendar);
      rooms = delete_room-IsNamed pg actor event db w.rooms id version;
      schedule = keeps (λ d. IsSchedule d.sessions) w.schedule (λ c. w.schedule);
      housed = delete_room-IsHoused pg actor event db w.housed id version;
    }
perform-WellFormed (add_session pg actor event input) db w =
    create_session-WellFormed pg actor event input db w
perform-WellFormed (patch_session pg actor event id version patch) db w =
    let keeps =
      session_write-keeps pg actor event id version update (update_change pg patch db) db in
    record {
      roster = keeps (λ d. IsRoster d.members) w.roster (λ n c. w.roster);
      calendar = keeps (λ d. IsCalendar d.events) w.calendar (λ n c. w.calendar);
      rooms = keeps (λ d. IsNamed d.rooms) w.rooms (λ n c. w.rooms);
      schedule = update_session-IsSchedule pg actor event id version db w.schedule patch;
      housed = update_session-IsHoused pg actor event db w.housed id version patch;
    }
perform-WellFormed (drop_session pg actor event id version) db w =
    let keeps =
      session_write-keeps pg actor event id version delete (λ s. ok (cancelled_row pg s)) db in
    record {
      roster = keeps (λ d. IsRoster d.members) w.roster (λ n c. w.roster);
      calendar = keeps (λ d. IsCalendar d.events) w.calendar (λ n c. w.calendar);
      rooms = keeps (λ d. IsNamed d.rooms) w.rooms (λ n c. w.rooms);
      schedule = delete_session-IsSchedule pg actor event id version db w.schedule;
      housed = delete_session-IsHoused pg actor event db w.housed id version;
    }
perform-WellFormed (add_series pg servers actor event input) db w =
    create_series-keeps WellFormed pg servers actor event input db
      (λ pg' in' d v. create_session-WellFormed pg' actor event in' d v)
      (λ s. record {
        roster = w.roster;
        calendar = w.calendar;
        rooms = w.rooms;
        schedule = w.schedule;
        housed = w.housed;
      })
      w
perform-WellFormed (invite pg actor event input) db w =
    create_invitation-WellFormed pg actor event input db w
perform-WellFormed (invite_all pg servers last actor event key hash inputs) db w =
    bulk_create-keeps WellFormed pg servers last (λ d. d) actor event key hash inputs db
      (λ i in' d v. create_invitation-WellFormed (servers i) actor event in' d v)
      (λ items d v. record {
        roster = v.roster;
        calendar = v.calendar;
        rooms = v.rooms;
        schedule = v.schedule;
        housed = v.housed;
      })
      (λ d v. v) w

-- Any sequence of the API's writes, each ending in success or in any error, keeps the constraints
-- between rows: one membership per event and user with a known role, events and sessions that end
-- after they start, room names unique in an event and positive capacities, no two live sessions of a
-- room or a speaker overlapping, and every session in a room of its own event.
pub run-WellFormed : (calls : List Call) (db : Db) → WellFormed db → WellFormed (run calls db)
unfolding run
run-WellFormed [] db w = w
run-WellFormed (call ∷ calls) db w =
    run-WellFormed calls (perform call db) (perform-WellFormed call db w)
