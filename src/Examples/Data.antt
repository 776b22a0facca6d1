-- ===== src/Examples/Data.antt =====
-- A small conference: its users, roster, rooms and schedule, and a server on which nothing fails.
use text.Mathlib.Text.{◌==◌ as str_eq}
use krane_event_management_p.Common.{ℕ, String, ◌+◌, refl, false, none, some, [], ◌∷◌, arith}
use krane_event_management_p.Domain.{
  Role, admin, contributor, attendee, User, Room, GrantInput, SessionInput, SessionPatch, of_value,
  SeriesInput, weekly, EventInput, EventPatch,
}
use krane_event_management_p.Store.{EventRow, MemberRow, SessionRow, Db, Server, Up}
use krane_event_management_p.Members.Roster.{IsRoster}
use krane_event_management_p.Sessions.Schedule.{IsSchedule}
use krane_event_management_p.Events.Versions.{IsCalendar}
use krane_event_management_p.Rooms.Names.{IsNamed}
use krane_event_management_p.System.Invariants.{WellFormed}

abbrev pub server : ℕ → Server
server n = record {
  fails = λ p. false;
  uuid = 100 + n;
  member_uuid = 200 + n;
  now = 50 + n;
  citext_eq = str_eq;
}

pub all-Up : (n : ℕ) → Up (server n)
all-Up n p = refl

abbrev pub user : ℕ → String → User
user id name = record {
  id = id;
  subject = name;
  email = name;
  name = name;
  created_at = 1;
  updated_at = 1;
}

abbrev pub event_row : ℕ → EventRow
event_row id = record {
  id = id;
  name = "Conference";
  description = none;
  timezone = "Asia/Colombo";
  starts_at = 1000;
  ends_at = 2000;
  version = 1;
  deleted_at = none;
  created_at = 2;
  updated_at = 2;
}

abbrev pub member_row : ℕ → ℕ → Role → MemberRow
member_row id user role = record {
  id = id;
  event_id = 10;
  user_id = user;
  role = role;
  version = 1;
  created_at = 3;
  updated_at = 3;
}

abbrev pub room_row : ℕ → ℕ → String → Room
room_row id event name = record {
  id = id;
  event_id = event;
  name = name;
  capacity = some 50;
  version = 1;
  created_at = 4;
  updated_at = 4;
}

abbrev pub talk : SessionRow
talk = record {
  id = 40;
  event_id = 10;
  room_id = 30;
  speaker_id = 2;
  title = "Talk";
  description = none;
  starts_at = 1100;
  ends_at = 1200;
  version = 1;
  deleted_at = none;
  created_at = 5;
  updated_at = 5;
  series_id = none;
}

-- Event 10 with the admin 1, the contributor 2 and the attendee 3; room 31 is of event 11.
abbrev pub conference : Db
conference = record {
  users = user 1 "ann" ∷ user 2 "ben" ∷ user 3 "cat" ∷ [];
  events = event_row 10 ∷ event_row 11 ∷ [];
  members = member_row 21 1 admin ∷ member_row 22 2 contributor ∷ member_row 23 3 attendee ∷ [];
  rooms = room_row 30 10 "Hall" ∷ room_row 31 11 "Hall" ∷ [];
  sessions = talk ∷ [];
  series = [];
  exceptions = [];
  invitations = [];
  idempotency_keys = [];
  audit_log = [];
}

abbrev pub session_input : ℕ → ℕ → ℕ → SessionInput
session_input room starts ends = record {
  room_id = room;
  speaker_id = 2;
  title = "Panel";
  description = none;
  starts_at = starts;
  ends_at = ends;
  series_id = none;
}

abbrev pub moved : ℕ → ℕ → SessionPatch
moved starts ends = record {
  title = record { value = ""; set = false };
  description = record { value = none; set = false };
  starts_at = of_value starts;
  ends_at = of_value ends;
}

abbrev pub grant : String → Role → GrantInput
grant email role = record { email = email; role = role }

abbrev pub weekly_input : ℕ → SeriesInput
weekly_input room = record {
  room_id = room;
  speaker_id = 2;
  title = "Standup";
  description = none;
  first_starts_at = 1150;
  first_ends_at = 1300;
  freq = weekly;
  interval_count = 1;
  occurrences = 3;
}

abbrev pub event_input : EventInput
event_input = record {
  name = "Meetup";
  description = none;
  timezone = "Europe/Paris";
  starts_at = 3000;
  ends_at = 4000;
}

abbrev pub renamed : EventPatch
renamed = record {
  name = of_value "New name";
  description = record { value = none; set = false };
  timezone = record { value = ""; set = false };
  starts_at = record { value = 0; set = false };
  ends_at = record { value = 0; set = false };
}

pub conference-IsRoster : IsRoster conference.members
conference-IsRoster = record {
  distinct = (
    ((λ e. omega arith, λ e f. omega arith), ((λ e. omega arith, λ e f. omega arith), tt)),
    (((λ e. omega arith, λ e f. omega arith), tt), (tt, tt)),
  );
  known = (refl, (refl, (refl, tt)));
}

pub conference-IsSchedule : IsSchedule conference.sessions
conference-IsSchedule = record { separate = (tt, tt); bounded = (omega arith, tt) }

pub conference-IsCalendar : IsCalendar conference.events
conference-IsCalendar = record {
  distinct = ((λ e. omega arith, tt), (tt, tt));
  bounded = (omega arith, (omega arith, tt));
}

conference-IsNamed : IsNamed conference.rooms
conference-IsNamed = record {
  distinct = (((λ e. omega arith, λ e. omega (arith, e.0)), tt), (tt, tt));
  capacity = (refl, (refl, tt));
}

pub conference-WellFormed : WellFormed conference
conference-WellFormed = record {
  roster = conference-IsRoster;
  calendar = conference-IsCalendar;
  rooms = conference-IsNamed;
  schedule = conference-IsSchedule;
  housed = (refl, tt);
}
