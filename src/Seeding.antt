-- ===== src/Seeding.antt =====
-- cmd/seed/generate.go: the speaker schedule, and the sessions that the generator places in the rooms
-- of an event. The draws of math/rand are parameters; nothing is a panic.
pub mod Slots
pub mod Kept
pub mod Truncation
pub mod Loading
pub mod Generator
pub mod Overlaps
pub mod Roster
use krane_event_management_p.Common.{
  ℕ, zero, suc, ◌+◌, ◌*◌, ◌/◌, ◌%◌, Bool, true, false, ◌==◌, ◌&&◌, ltb, Option, none, some, List,
  [], ◌∷◌, ◌++◌, any, length, if◌then◌else◌,
}

-- A booked interval of a speaker; the map of the schedule as one list.
pub record Booking : Type 0 where
  pub speaker : ℕ
  pub starts_at : ℕ
  pub ends_at : ℕ

abbrev pub busy_at : ℕ → ℕ → ℕ → Booking → Bool
busy_at speaker starts ends b =
    b.speaker == speaker && (ltb starts b.ends_at && ltb b.starts_at ends)

-- speakerSchedule.overlaps
abbrev pub is_busy : ℕ → ℕ → ℕ → List Booking → Bool
is_busy speaker starts ends bookings = any (busy_at speaker starts ends) bookings

-- pickSpeaker: the first candidate who is free.
unfoldable pub pick_speaker : List ℕ → List Booking → ℕ → ℕ → Option ℕ
pick_speaker [] bookings starts ends = none
pick_speaker (c ∷ candidates) bookings starts ends =
    if is_busy c starts ends bookings then pick_speaker candidates bookings starts ends else some c

-- A session that was placed, without its title and the fixed columns.
pub record Placed : Type 0 where
  pub room : ℕ
  pub booking : Booking

abbrev pub minute : ℕ
minute = 60000000000

-- What the generator has placed, and the schedule, each the latest first.
pub record Placement : Type 0 where
  pub sessions : List Placed
  pub bookings : List Booking

abbrev pub place : ℕ → Booking → Placement → Placement
place room b p = record {
  sessions = (record { room = room; booking = b }) ∷ p.sessions;
  bookings = b ∷ p.bookings;
}

abbrev pub and_then : Option Placement → (Placement → Option Placement) → Option Placement
and_then none k = none
and_then (some p) k = k p

abbrev pub count_of : ℕ → ℕ → ℕ → ℕ
count_of base rem k = if ltb k rem then suc base else base

-- `lengths` are the draws of Intn(3), `candidates` what pickCandidatesFor returns, both by the room and
-- the number of the session.
module _ (lengths : ℕ → ℕ → ℕ) (candidates : ℕ → ℕ → List ℕ) where
  abbrev pub ends_of : ℕ → ℕ → ℕ → ℕ
  ends_of room j starts = starts + (30 + 30 * (lengths room j % 3)) * minute

  abbrev pub placed_at : ℕ → ℕ → ℕ → Option ℕ → Placement → Option Placement
  placed_at room starts ends none p = none
  placed_at room starts ends (some speaker) p =
      some (place room (record { speaker = speaker; starts_at = starts; ends_at = ends }) p)

  -- addGenericSessions, from session `j` on with `count` left.
  unfoldable pub add_generic_sessions : ℕ → ℕ → ℕ → ℕ → Placement → Option Placement
  unfolding pick_speaker
  add_generic_sessions room j zero cursor p = some p
  add_generic_sessions room j (suc count) cursor p =
      let ends = ends_of room j cursor in
      and_then
        (placed_at room cursor ends (pick_speaker (candidates room j) p.bookings cursor ends) p)
        (add_generic_sessions room (suc j) count (ends + 30 * minute))

  -- The loop of distributeSessions, from the room of index `k` on.
  unfoldable pub distribute_rooms : ℕ → ℕ → ℕ → ℕ → List ℕ → Placement → Option Placement
  unfolding add_generic_sessions
  distribute_rooms cursor base rem k [] p = some p
  distribute_rooms cursor base rem k (room ∷ rooms) p =
      and_then (add_generic_sessions room 0 (count_of base rem k) cursor p)
        (distribute_rooms cursor base rem (suc k) rooms)

  -- distributeSessions, which panics without a room.
  unfoldable pub distribute_sessions : ℕ → ℕ → List ℕ → Placement → Option Placement
  unfolding distribute_rooms
  distribute_sessions cursor total [] p = none
  distribute_sessions cursor total (room ∷ rooms) p =
      let n = length (room ∷ rooms) in
      distribute_rooms cursor (total / n) (total % n) 0 (room ∷ rooms) p
