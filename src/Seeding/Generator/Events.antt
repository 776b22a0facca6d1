-- ===== src/Seeding/Generator/Events.antt =====
-- cmd/seed/generate.go: the events that the generator adds, and the whole dataset.
use krane_event_management_p.Common.{
  ℕ, zero, suc, String, ◌+◌, ◌*◌, Option, none, some, List, [], ◌∷◌, map,
}
use krane_event_management_p.Domain.{Role, admin, contributor, attendee}
use krane_event_management_p.Utils.LocalTime.{
  Location, Resolved, at_instant, unresolved, resolve_local_time,
}
use krane_event_management_p.Seeding.{
  Placement, pick_speaker, place, distribute_sessions, add_generic_sessions,
}
use krane_event_management_p.Seeding.Roster.{add_standard_members}
use krane_event_management_p.Seeding.Generator.{
  ◌>>=◌, Config, SeedUser, Generator, Ids, Draws, rooms_of, sessions_of, hour, generate_users,
  new_event, add_rooms, candidates_of, add_invitations,
}

-- roomIDs[0] and roomIDs[1]
abbrev pub two_of : List ℕ → Option (ℕ × ℕ)
two_of [] = none
two_of (a ∷ []) = none
two_of (a ∷ b ∷ rest) = some (a, b)

abbrev pub instant : Resolved → Option ℕ
instant (at_instant t) = some t
instant (unresolved e) = none

-- The texts and the zone of a fixture.
pub record Fixture : Type 0 where
  pub loc : Location
  pub local_start : String
  pub local_end : String

-- The demo identities, the first three users, with their roles.
abbrev pub demo_members : List ℕ → List (ℕ × Role)
demo_members (a ∷ c ∷ t ∷ rest) = (a, admin) ∷ (c, contributor) ∷ (t, attendee) ∷ []
demo_members us = []

module _ (ids : Ids) (base : ℕ) (real_count : ℕ → ℕ) (cfg : Config) where
  module _ (users external_pool : List ℕ) where
    -- What addBulkEvent, addLargeEvent and addDemoEvent do with the event that they made.
    unfoldable pub populate : Draws → List (ℕ × Role) → ℕ → ℕ → Generator → Option Generator
    unfolding add_standard_members add_rooms distribute_sessions add_invitations
    populate d demo room_count session_count g = do
      let event = ids.event g.event_seq
      let made = new_event ids d g
      staffed ←
          add_standard_members ids.member base event users demo d.admins d.contributors d.attendees
            g.members d.picks
      let housed = add_rooms ids event 0 room_count g.rooms
      placed ←
          distribute_sessions d.lengths (candidates_of external_pool d staffed.0.member_ids)
            (d.starts_at + 9 * hour) session_count housed.1 g.placement
      invited ← add_invitations real_count cfg d event made.event_seq g.invitations
      some (record made {
        rooms = housed.0;
        placement = placed;
        members = staffed.0.members;
        invitations = invited;
      })

    abbrev pub add_bulk_event : Draws → Generator → Option Generator
    add_bulk_event d g = populate d [] (rooms_of cfg d) (sessions_of cfg d) g

    abbrev pub add_large_event : Draws → Generator → Option Generator
    add_large_event d g = populate d [] cfg.large_event_room_count cfg.large_event_session_count g

    abbrev pub add_demo_event : Draws → List (ℕ × Role) → Generator → Option Generator
    add_demo_event d demo g = populate d demo (rooms_of cfg d) (sessions_of cfg d) g

    -- The session of a fixture, in the first of its two rooms.
    abbrev pub add_fixture : Draws → Fixture → List ℕ → ℕ × ℕ → Placement → Option Placement
    add_fixture d f member_ids rooms p = do
      starts ← instant (resolve_local_time f.loc f.local_start)
      ends ← instant (resolve_local_time f.loc f.local_end)
      speaker ←
          pick_speaker (candidates_of external_pool d member_ids rooms.0 0) p.bookings starts ends
      some (place rooms.0 (record { speaker = speaker; starts_at = starts; ends_at = ends }) p)

    unfoldable pub add_dst_fixture_event : Draws → Fixture → Generator → Option Generator
    unfolding add_standard_members add_rooms add_generic_sessions add_invitations resolve_local_time
        pick_speaker
    add_dst_fixture_event d f g = do
      let event = ids.event g.event_seq
      let made = new_event ids d g
      staffed ←
          add_standard_members ids.member base event users [] d.admins d.contributors d.attendees
            g.members d.picks
      let housed = add_rooms ids event 0 2 g.rooms
      rooms ← two_of housed.1
      fixed ← add_fixture d f staffed.0.member_ids rooms g.placement
      placed ←
          add_generic_sessions d.lengths (candidates_of external_pool d staffed.0.member_ids)
            rooms.1 0 2 (d.starts_at + 9 * hour) fixed
      invited ← add_invitations real_count cfg d event made.event_seq g.invitations
      some (record made {
        rooms = housed.0;
        placement = placed;
        members = staffed.0.members;
        invitations = invited;
      })

    -- The loop over bulk events, from number `i` on.
    unfoldable pub add_bulk_events : (ℕ → Draws) → ℕ → ℕ → Generator → Option Generator
    unfolding populate
    add_bulk_events draws i zero g = some g
    add_bulk_events draws i (suc left) g =
        add_bulk_event (draws i) g >>= add_bulk_events draws (suc i) left

    -- The events of GenerateDataset; the four special ones have draws of their own.
    unfoldable pub add_events :
        (ℕ → Draws)
        → Draws
        → Draws
        → Draws
        → Draws
        → Fixture
        → Fixture
        → Generator
        → Option Generator
    unfolding add_bulk_events add_dst_fixture_event populate
    add_events draws ds df dl dd spring_forward fall_back g = do
      bulk ← add_bulk_events draws 0 cfg.bulk_event_count g
      spring ← add_dst_fixture_event ds spring_forward bulk
      fall ← add_dst_fixture_event df fall_back spring
      large ← add_large_event dl fall
      add_demo_event dd (demo_members users) large

  abbrev pub new_generator : Generator
  new_generator = record {
    event_seq = 0;
    events = [];
    rooms = [];
    placement = record { sessions = []; bookings = [] };
    members = [];
    invitations = [];
  }

  -- GenerateDataset: the users and what the generator has built.
  unfoldable pub generate_dataset :
      (List ℕ → List ℕ)
      → (ℕ → Draws)
      → Draws
      → Draws
      → Draws
      → Draws
      → Fixture
      → Fixture
      → Option (List SeedUser × Generator)
  unfolding generate_users add_events
  generate_dataset shuffle draws ds df dl dd spring_forward fall_back = do
    let accounts = generate_users ids cfg.user_count
    let users = map (λ u. u.id) accounts
    built ←
        add_events users (shuffle users) draws ds df dl dd spring_forward fall_back new_generator
    some (accounts, built)
