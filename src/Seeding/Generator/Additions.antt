-- ===== src/Seeding/Generator/Additions.antt =====
-- Each way to add an event keeps the constraints between the rows.
use krane_event_management_p.Common.{
  ℕ, suc, ◌+◌, ◌*◌, ◌≤◌, ◌<◌, ◌≡◌, refl, Option, some, List, [], length, map, arith, subst,
}
use krane_event_management_p.Domain.{Role}
use krane_event_management_p.Seeding.{distribute_sessions, add_generic_sessions}
use krane_event_management_p.Seeding.Roster.{Staff, add_standard_members}
use krane_event_management_p.Seeding.Roster.Draws.{AllDistinct}
use krane_event_management_p.Seeding.Generator.{
  >>=-eq-some, Config, SeedInvitation, Generator, Ids, Draws, hour, add_rooms, candidates_of,
  add_invitations,
}
use krane_event_management_p.Seeding.Generator.Rooms.{IsFresh, Houses, add_rooms-Houses, free_names}
use krane_event_management_p.Seeding.Generator.Guests.{Invites, add_invitations-Invites}
use krane_event_management_p.Seeding.Generator.Events.{
  Fixture, add_fixture, populate, add_dst_fixture_event,
}
use krane_event_management_p.Seeding.Generator.Keeps.{
  IsConsistent, Staffs, add_standard_members-Staffs, assemble,
}
use krane_event_management_p.Seeding.Generator.Bookings.{
  HasInstants, distribute-Books, fixture-Books,
}

module _ (ids : Ids) (base : ℕ) (real_count : ℕ → ℕ) (cfg : Config)
    (fresh_event : IsFresh ids.event) (fresh_room : IsFresh ids.room)
    (part : real_count cfg.invitations_per_event ≤ cfg.invitations_per_event)
    (users pool : List ℕ) where
  house_of :
      (n : ℕ) (g : Generator)
      → IsConsistent ids cfg g
      → Houses ids
          (ids.event g.event_seq)
          n
          g.rooms
          (add_rooms ids (ids.event g.event_seq) 0 n g.rooms).0
          (add_rooms ids (ids.event g.event_seq) 0 n g.rooms).1
  house_of n g v =
      add_rooms-Houses ids (ids.event g.event_seq) 0 n g.rooms fresh_room v.named (λ m le.
        free_names (ids.event g.event_seq) m g.rooms (v.new_rooms g.event_seq (omega arith)))

  Staffs-of :
      (demo : List (ℕ × Role)) (d : Draws) (g : Generator) {s : Staff} {rest : List ℕ}
      → AllDistinct (map (λ u. u.0) demo)
      → length demo < length users
      → IsConsistent ids cfg g
      → add_standard_members ids.member base
          (ids.event g.event_seq)
          users
          demo
          d.admins
          d.contributors
          d.attendees
          g.members
          d.picks
        ≡ some (s, rest)
      → Staffs (ids.event g.event_seq) g.members s.members
  Staffs-of demo d g distinct few v e =
      add_standard_members-Staffs ids.member base (ids.event g.event_seq) users demo d.admins
        d.contributors d.attendees g.members d.picks v.unique
        (v.new_members g.event_seq (omega arith)) distinct few e

  guests_of :
      (d : Draws) (g : Generator) {ys : List SeedInvitation}
      → AllDistinct d.order
      → IsConsistent ids cfg g
      → add_invitations real_count cfg d (ids.event g.event_seq) (suc g.event_seq) g.invitations
        ≡ some ys
      → Invites (ids.event g.event_seq) cfg.invitations_per_event g.invitations ys
  guests_of d g order v e =
      add_invitations-Invites real_count cfg d (ids.event g.event_seq) (suc g.event_seq)
        g.invitations v.once (v.new_guests g.event_seq (omega arith)) order part e

  made_of :
      (g made : Generator) {g' : Generator}
      → IsConsistent ids cfg made × (made.event_seq ≡ suc g.event_seq)
      → ◌≡◌ {A = Option Generator} (some made) (some g')
      → IsConsistent ids cfg g' × (g'.event_seq ≡ suc g.event_seq)
  made_of g made h e =
      subst (λ x. IsConsistent ids cfg x × (x.event_seq ≡ suc g.event_seq)) (ground (arith, e)) h

  pub populate-IsConsistent :
      (d : Draws) (demo : List (ℕ × Role)) (room_count session_count : ℕ) (g : Generator)
      {g' : Generator}
      → AllDistinct d.order
      → AllDistinct (map (λ u. u.0) demo)
      → length demo < length users
      → IsConsistent ids cfg g
      → populate ids base real_count cfg users pool d demo room_count session_count g ≡ some g'
      → IsConsistent ids cfg g' × (g'.event_seq ≡ suc g.event_seq)
  unfolding populate
  populate-IsConsistent d demo room_count session_count g {g'} order distinct few v h =
      let event = ids.event g.event_seq in
      let house = house_of room_count g v in
      let housed = add_rooms ids event 0 room_count g.rooms in
      let (staff, e1, h1) =
        >>=-eq-some
          (add_standard_members ids.member base event users demo d.admins d.contributors d.attendees
            g.members d.picks)
          _ h in
      let candidates = candidates_of pool d staff.0.member_ids in
      let (placed, e2, h2) =
        >>=-eq-some
          (distribute_sessions d.lengths candidates (d.starts_at + 9 * hour) session_count housed.1
            g.placement)
          _ h1 in
      let (invited, e3, e4) =
        >>=-eq-some (add_invitations real_count cfg d event (suc g.event_seq) g.invitations) _ h2 in
      let book =
        distribute-Books ids fresh_room event room_count g.rooms housed.0 housed.1 house d.lengths
          candidates (d.starts_at + 9 * hour) session_count g.placement v.sound v.lasts v.unused
          e2 in
      let whole =
        assemble ids cfg fresh_event d g v staff.0.members room_count housed.0 housed.1 placed
          invited (Staffs-of demo d g distinct few v e1) house book (guests_of d g order v e3) in
      made_of g _ (whole, refl) e4

  pub add_dst_fixture_event-IsConsistent :
      (d : Draws) (f : Fixture) (g : Generator) {g' : Generator}
      → AllDistinct d.order
      → HasInstants f
      → 0 < length users
      → IsConsistent ids cfg g
      → add_dst_fixture_event ids base real_count cfg users pool d f g ≡ some g'
      → IsConsistent ids cfg g' × (g'.event_seq ≡ suc g.event_seq)
  unfolding add_dst_fixture_event add_rooms
  add_dst_fixture_event-IsConsistent d f g {g'} order t few v h =
      let event = ids.event g.event_seq in
      let house = house_of 2 g v in
      let housed = add_rooms ids event 0 2 g.rooms in
      let a = ids.room (length g.rooms) in
      let b = ids.room (suc (length g.rooms)) in
      let (staff, e1, h1) =
        >>=-eq-some
          (add_standard_members ids.member base event users [] d.admins d.contributors d.attendees
            g.members d.picks)
          _ h in
      let candidates = candidates_of pool d staff.0.member_ids in
      let (fixed, e2, h2) =
        >>=-eq-some
          (add_fixture ids base real_count cfg users pool d f staff.0.member_ids (a, b) g.placement)
          _ h1 in
      let (placed, e3, h3) =
        >>=-eq-some (add_generic_sessions d.lengths candidates b 0 2 (d.starts_at + 9 * hour) fixed)
          _ h2 in
      let (invited, e4, e5) =
        >>=-eq-some (add_invitations real_count cfg d event (suc g.event_seq) g.invitations) _ h3 in
      let book =
        fixture-Books ids fresh_room event 2 g.rooms housed.0 a b house base real_count cfg users
          pool d f staff.0.member_ids candidates 2 (d.starts_at + 9 * hour) g.placement fixed t
          v.sound v.lasts v.unused e2 e3 in
      let whole =
        assemble ids cfg fresh_event d g v staff.0.members 2 housed.0 housed.1 placed invited
          (Staffs-of [] d g tt few v e1) house book (guests_of d g order v e4) in
      made_of g _ (whole, refl) e5
