-- ===== src/Seeding/Generator/Bookings.antt =====
-- The sessions of one event, in its own rooms, are in order and leave the rooms of later events unused.
use krane_event_management_p.Common.{
  ℕ, ◌≤◌, ◌<◌, ◌≡◌, refl, some, List, [], ◌∷◌, length, All, All-of, All_mono, arith, sym,
  Option-cases, inl, inr, subst,
}
use krane_event_management_p.Utils.LocalTime.{at_instant, resolve_local_time}
use krane_event_management_p.Seeding.{
  Booking, Placed, Placement, distribute_sessions, add_generic_sessions, place, pick_speaker,
}
use krane_event_management_p.Seeding.Slots.{
  IsSound, IsUnused, pick_speaker-free, place-IsSound, unused-IsOver, add_generic_sessions-Adds,
  distribute_sessions-IsSound,
}
use krane_event_management_p.Seeding.Kept.{distribute_sessions-keeps, add_generic_sessions-keeps}
use krane_event_management_p.Seeding.Overlaps.Apart.{Lasts}
use krane_event_management_p.Seeding.Generator.{Config, SeedRoom, Ids, Draws, candidates_of}
use krane_event_management_p.Seeding.Generator.Rooms.{IsFresh, Houses}
use krane_event_management_p.Seeding.Generator.Events.{Fixture, add_fixture}
use krane_event_management_p.Seeding.Generator.Keeps.{Books}

-- What a new session of the room keeps.
abbrev Allows : (List Placed → Type 0) → ℕ → Type 0
Allows Q room =
    (s : Placed) (xs : List Placed)
    → s.room ≡ room
    → s.booking.starts_at < s.booking.ends_at
    → Q xs
    → Q (s ∷ xs)

module _ (ids : Ids) (fresh : IsFresh ids.room) (event left : ℕ) (xs ys : List SeedRoom)
    (rooms : List ℕ) (house : Houses ids event left xs ys rooms) where
  rooms-IsUnused :
      (p : Placement)
      → ((j : ℕ) → length xs ≤ j → IsUnused (ids.room j) p.sessions)
      → All (λ r. IsUnused r p.sessions) rooms
  rooms-IsUnused p u =
      All_mono _ _ rooms house.new (λ r q. subst (λ z. IsUnused z p.sessions) (sym q.3) (u q.0 q.1))

  Allows-others : (j : ℕ) → length ys ≤ j → All (Allows (IsUnused (ids.room j))) rooms
  Allows-others j le =
      All_mono _ _ rooms house.new
        (λ r q s zs same lt k. (ground (arith, q.2, q.3, same, le, fresh q.0 j), k))

  pub distribute-Books :
      (lengths : ℕ → ℕ → ℕ) (candidates : ℕ → ℕ → List ℕ) (cursor total : ℕ) (p : Placement)
      {p' : Placement}
      → IsSound p
      → All Lasts p.sessions
      → ((j : ℕ) → length xs ≤ j → IsUnused (ids.room j) p.sessions)
      → distribute_sessions lengths candidates cursor total rooms p ≡ some p'
      → Books ids (length ys) p p'
  distribute-Books lengths candidates cursor total p v w u h = record {
    sound =
        (distribute_sessions-IsSound lengths candidates cursor total rooms p v house.distinct
          (rooms-IsUnused p u) h).0;
    lasts =
        distribute_sessions-keeps lengths candidates (All Lasts) cursor total rooms p
          (All-of _ rooms (λ r m s zs same lt q. (lt, q))) w h;
    others = λ j le k.
        distribute_sessions-keeps lengths candidates (IsUnused (ids.room j)) cursor total rooms p
          (Allows-others j le) k h;
  }

-- The two instants of a fixture.
pub record HasInstants (f : Fixture) : Type 0 where
  pub starts : ℕ
  pub ends : ℕ
  pub at_start : resolve_local_time f.loc f.local_start ≡ at_instant starts
  pub at_end : resolve_local_time f.loc f.local_end ≡ at_instant ends
  pub forward : starts < ends

abbrev pub fixture_session : ℕ → ℕ → ℕ → Booking
fixture_session speaker starts ends = record {
  speaker = speaker;
  starts_at = starts;
  ends_at = ends;
}

add_fixture-ok :
    (ids : Ids) (base : ℕ) (real_count : ℕ → ℕ) (cfg : Config) (users pool : List ℕ) (d : Draws)
    (f : Fixture) (member_ids : List ℕ) (a b : ℕ) (p : Placement) {p' : Placement}
    (t : HasInstants f)
    → add_fixture ids base real_count cfg users pool d f member_ids (a, b) p ≡ some p'
    → (speaker : ℕ) × (pick_speaker (candidates_of pool d member_ids a 0) p.bookings t.starts t.ends
        ≡ some speaker)
      × (p' ≡ place a (record { speaker = speaker; starts_at = t.starts; ends_at = t.ends }) p)
add_fixture-ok ids base real_count cfg users pool d f member_ids a b p {p'} t h =
    elim (Option-cases
      (pick_speaker (candidates_of pool d member_ids a 0) p.bookings t.starts t.ends)) [
        | inl e ↦ absurd (ground (arith, e, t.at_start, t.at_end, h))
        | inr (speaker, e) ↦ (speaker, e, ground (arith, e, t.at_start, t.at_end, h))
      ]

module _ (ids : Ids) (fresh : IsFresh ids.room) (event left : ℕ) (xs ys : List SeedRoom) (a b : ℕ)
    (house : Houses ids event left xs ys (a ∷ b ∷ [])) where
  -- The fixture in room `a`, then `count` sessions in room `b`.
  pub fixture-Books :
      (base : ℕ) (real_count : ℕ → ℕ) (cfg : Config) (users pool : List ℕ) (d : Draws) (f : Fixture)
      (member_ids : List ℕ) (candidates : ℕ → ℕ → List ℕ) (count cursor : ℕ) (p q : Placement)
      {p' : Placement}
      → HasInstants f
      → IsSound p
      → All Lasts p.sessions
      → ((j : ℕ) → length xs ≤ j → IsUnused (ids.room j) p.sessions)
      → add_fixture ids base real_count cfg users pool d f member_ids (a, b) p ≡ some q
      → add_generic_sessions d.lengths candidates b 0 count cursor q ≡ some p'
      → Books ids (length ys) p p'
  fixture-Books base real_count cfg users pool d f member_ids candidates count cursor p q {p'} t v w
        u e h =
      let (speaker, picked, same) =
        add_fixture-ok ids base real_count cfg users pool d f member_ids a b p t e in
      let booking = fixture_session speaker t.starts t.ends in
      let unused = rooms-IsUnused ids fresh event left xs ys (a ∷ b ∷ []) house p u in
      let free =
        pick_speaker-free (candidates_of pool d member_ids a 0) p.bookings t.starts t.ends picked in
      let sound : IsSound q =
        subst IsSound (sym same)
          (place-IsSound a booking p v free (unused-IsOver a t.starts p.sessions unused.0)) in
      let empty : IsUnused b q.sessions =
        subst (λ z. IsUnused b z.sessions) (sym same) (house.distinct.0.0, unused.1.0) in
      let first : All Lasts q.sessions =
        subst (λ z. All Lasts z.sessions) (sym same) (t.forward, w) in
      record {
        sound =
            (add_generic_sessions-Adds d.lengths candidates b 0 count cursor q sound
              (unused-IsOver b cursor q.sessions empty) h).sound;
        lasts =
            add_generic_sessions-keeps d.lengths candidates (All Lasts) b 0 count cursor q
              (λ s zs same lt k. (lt, k)) first h;
        others = λ j le k.
            let allow = Allows-others ids fresh event left xs ys (a ∷ b ∷ []) house j le in
            add_generic_sessions-keeps d.lengths candidates (IsUnused (ids.room j)) b 0 count cursor
              q allow.1.0
              (subst (λ z. IsUnused (ids.room j) z.sessions) (sym same)
                (allow.0 (record { room = a; booking = booking }) p.sessions refl t.forward k))
              h;
      }
