-- ===== src/Seeding/Generator/Dataset.antt =====
-- GenerateDataset: its rows meet the constraints of the tables, and it passes its own check.
use krane_event_management_p.Common.{
  ℕ, zero, suc, ◌+◌, ◌-◌, ◌≤◌, ◌<◌, ◌≡◌, refl, true, false, ◌==◌, none, some, List, [], ◌∷◌, length,
  map, All, arith, Option-cases, inl, inr, subst,
}
use krane_event_management_p.Seeding.{Placed}
use krane_event_management_p.Seeding.Roster.Draws.{AllDistinct}
use krane_event_management_p.Seeding.Generator.{
  >>=-eq-some, Config, Generator, Ids, Draws, rooms_of, sessions_of, SeedUser, generate_users,
  seeded_users,
}
use krane_event_management_p.Seeding.Generator.Rooms.{IsFresh}
use krane_event_management_p.Seeding.Generator.Events.{
  Fixture, add_bulk_event, add_large_event, add_dst_fixture_event, add_bulk_events, demo_members,
  add_events, new_generator, generate_dataset,
}
use krane_event_management_p.Seeding.Generator.Keeps.{IsConsistent}
use krane_event_management_p.Seeding.Generator.Bookings.{HasInstants}
use krane_event_management_p.Seeding.Overlaps.Apart.{IsSliceSort}
use krane_event_management_p.Seeding.Overlaps.Groups.{no_speaker_or_room_overlap_iff}
use krane_event_management_p.Seeding.Overlaps.{no_speaker_or_room_overlap}
use krane_event_management_p.Seeding.Roster.{contains}
use krane_event_management_p.Seeding.Generator.Additions.{
  populate-IsConsistent, add_dst_fixture_event-IsConsistent,
}

-- The permutations of rand.Perm name no user twice, in any event.
pub record ArePermuted (draws : ℕ → Draws) (ds df dl dd : Draws) : Type 0 where
  pub bulk : (n : ℕ) → AllDistinct (draws n).order
  pub spring_forward : AllDistinct ds.order
  pub fall_back : AllDistinct df.order
  pub large : AllDistinct dl.order
  pub demo : AllDistinct dd.order

demo_members-distinct :
    (users : List ℕ)
    → AllDistinct users
    → AllDistinct (map (λ u. u.0) (demo_members users)) × (length (demo_members users) ≤ 3)
demo_members-distinct [] d = (tt, omega arith)
demo_members-distinct (a ∷ []) d = (tt, omega arith)
demo_members-distinct (a ∷ c ∷ []) d = (tt, omega arith)
demo_members-distinct (a ∷ c ∷ t ∷ rest) d =
    (((d.0.0, (d.0.1.0, tt)), ((d.1.0.0, tt), (tt, tt))), omega arith)

module _ (ids : Ids) (base : ℕ) (real_count : ℕ → ℕ) (cfg : Config)
    (fresh_event : IsFresh ids.event) (fresh_room : IsFresh ids.room)
    (part : real_count cfg.invitations_per_event ≤ cfg.invitations_per_event)
    (users pool : List ℕ) where
  add_bulk_events-IsConsistent :
      (draws : ℕ → Draws) (i left : ℕ) (g : Generator) {g' : Generator}
      → ((n : ℕ) → AllDistinct (draws n).order)
      → 0 < length users
      → IsConsistent ids cfg g
      → add_bulk_events ids base real_count cfg users pool draws i left g ≡ some g'
      → IsConsistent ids cfg g' × (g'.event_seq ≡ g.event_seq + left)
  unfolding add_bulk_events
  add_bulk_events-IsConsistent draws i zero g {g'} order few v h =
      let same : g ≡ g' = ground (arith, h) in
      subst (λ x. IsConsistent ids cfg x × (x.event_seq ≡ g.event_seq + 0)) same (v, omega arith)
  add_bulk_events-IsConsistent draws i (suc left) g {g'} order few v h =
      elim (Option-cases (add_bulk_event ids base real_count cfg users pool (draws i) g)) [
        | inl e ↦ absurd (ground (arith, e, h))
        | inr (g1, e) ↦
            let (w, next) =
              populate-IsConsistent ids base real_count cfg fresh_event fresh_room part users pool
                (draws i) [] (rooms_of cfg (draws i)) (sessions_of cfg (draws i)) g {g' = g1}
                (order i) tt few v e in
            let (whole, count) =
              add_bulk_events-IsConsistent draws (suc i) left g1 {g' = g'} order few w
                (ground (arith, e, h)) in
            (whole, omega (arith, next, count))
      ]

  add_events-IsConsistent :
      (draws : ℕ → Draws) (ds df dl dd : Draws) (f1 f2 : Fixture) (g : Generator) {g' : Generator}
      → ArePermuted draws ds df dl dd
      → HasInstants f1
      → HasInstants f2
      → AllDistinct users
      → 3 < length users
      → IsConsistent ids cfg g
      → add_events ids base real_count cfg users pool draws ds df dl dd f1 f2 g ≡ some g'
      → IsConsistent ids cfg g' × (g'.event_seq ≡ g.event_seq + (cfg.bulk_event_count + 4))
  unfolding add_events
  add_events-IsConsistent draws ds df dl dd f1 f2 g {g'} perm t1 t2 distinct few v h =
      let (g1, e1, h1) =
        >>=-eq-some
          (add_bulk_events ids base real_count cfg users pool draws 0 cfg.bulk_event_count g) _ h in
      let (g2, e2, h2) =
        >>=-eq-some (add_dst_fixture_event ids base real_count cfg users pool ds f1 g1) _ h1 in
      let (g3, e3, h3) =
        >>=-eq-some (add_dst_fixture_event ids base real_count cfg users pool df f2 g2) _ h2 in
      let (g4, e4, e5) =
        >>=-eq-some (add_large_event ids base real_count cfg users pool dl g3) _ h3 in
      let (v1, n1) =
        add_bulk_events-IsConsistent draws 0 cfg.bulk_event_count g perm.bulk (omega arith) v e1 in
      let (v2, n2) =
        add_dst_fixture_event-IsConsistent ids base real_count cfg fresh_event fresh_room part users
          pool ds f1 g1 perm.spring_forward t1 (omega arith) v1 e2 in
      let (v3, n3) =
        add_dst_fixture_event-IsConsistent ids base real_count cfg fresh_event fresh_room part users
          pool df f2 g2 perm.fall_back t2 (omega arith) v2 e3 in
      let (v4, n4) =
        populate-IsConsistent ids base real_count cfg fresh_event fresh_room part users pool dl []
          cfg.large_event_room_count cfg.large_event_session_count g3 perm.large tt (omega arith) v3
          e4 in
      let (apart, three) = demo_members-distinct users distinct in
      let (v5, n5) =
        populate-IsConsistent ids base real_count cfg fresh_event fresh_room part users pool dd
          (demo_members users) (rooms_of cfg dd) (sessions_of cfg dd) g4 perm.demo apart
          (omega (arith, three)) v4 e5 in
      (v5, omega (arith, n1, n2, n3, n4, n5))

-- No rows, and all ids are new.
new_generator-IsConsistent :
    (ids : Ids) (base : ℕ) (real_count : ℕ → ℕ) (cfg : Config)
    → IsConsistent ids cfg (new_generator ids base real_count cfg)
new_generator-IsConsistent ids base real_count cfg = record {
  unique = tt;
  staffed = tt;
  named = tt;
  once = tt;
  sound = record { apart = tt; reserved = refl };
  lasts = tt;
  events = refl;
  number = omega arith;
  new_members = λ k le. tt;
  new_rooms = λ k le. tt;
  new_guests = λ k le. tt;
  unused = λ j le. tt;
}

seeded_users-later :
    (ids : Ids) (j n left : ℕ)
    → IsFresh ids.user
    → j < n + 2
    → All (λ u. (ids.user j == u) ≡ false) (map (λ u. u.id) (seeded_users ids n left))
unfolding seeded_users
seeded_users-later ids j n zero fresh lt = tt
seeded_users-later ids j n (suc left) fresh lt = (
  ground (arith, lt, fresh j (n + 2)),
  seeded_users-later ids j (suc n) left fresh (omega (arith, lt)),
)

seeded_users-distinct :
    (ids : Ids) (n left : ℕ)
    → IsFresh ids.user
    → AllDistinct (map (λ u. u.id) (seeded_users ids n left))
      × (length (map (λ u. u.id) (seeded_users ids n left)) ≡ left)
unfolding seeded_users
seeded_users-distinct ids n zero fresh = (tt, refl)
seeded_users-distinct ids n (suc left) fresh =
    let (apart, number) = seeded_users-distinct ids (suc n) left fresh in
    (
      (seeded_users-later ids (n + 2) (suc n) left fresh (omega arith), apart),
      omega (arith, number),
    )

generate_users-distinct :
    (ids : Ids) (count : ℕ)
    → IsFresh ids.user
    → AllDistinct (map (λ u. u.id) (generate_users ids count))
      × (length (map (λ u. u.id) (generate_users ids count)) ≡ 3 + (count - 3))
unfolding generate_users
generate_users-distinct ids count fresh =
    let (apart, number) = seeded_users-distinct ids 1 (count - 3) fresh in
    let later = λ (j : ℕ) (lt : j < 3). seeded_users-later ids j 1 (count - 3) fresh lt in
    (
      (
        (ground (arith, fresh 0 1), (ground (arith, fresh 0 2), later 0 (omega arith))),
        ((ground (arith, fresh 1 2), later 1 (omega arith)), (later 2 (omega arith), apart)),
      ),
      omega (arith, number),
    )

module _ (ids : Ids) (base : ℕ) (real_count : ℕ → ℕ) (cfg : Config) (fresh_user : IsFresh ids.user)
    (fresh_event : IsFresh ids.event) (fresh_room : IsFresh ids.room)
    (part : real_count cfg.invitations_per_event ≤ cfg.invitations_per_event)
    (enough : 3 < cfg.user_count) (shuffle : List ℕ → List ℕ) (draws : ℕ → Draws)
    (ds df dl dd : Draws) (f1 f2 : Fixture) (perm : ArePermuted draws ds df dl dd)
    (t1 : HasInstants f1) (t2 : HasInstants f2) {users : List SeedUser} {g : Generator}
    (made : generate_dataset ids base real_count cfg shuffle draws ds df dl dd f1 f2
      ≡ some (users, g)) where
  -- Where newUUIDv7 gives no id twice, Perm names no user twice, each fixture starts before it ends,
  -- and there are more than three users: a dataset that is generated, whatever the draws, has four
  -- events more than the bulk ones, an admin on each, no user twice on a roster, no room name twice
  -- and no address twice in an event, as many invitations for each event as configured, and no two
  -- sessions that overlap in a room or for a speaker.
  pub generate_dataset-IsConsistent :
      IsConsistent ids cfg g × (length g.events ≡ cfg.bulk_event_count + 4)
  unfolding generate_dataset
  generate_dataset-IsConsistent =
      let us = map (λ u. u.id) (generate_users ids cfg.user_count) in
      let (apart, number) = generate_users-distinct ids cfg.user_count fresh_user in
      let (built, e, h) =
        >>=-eq-some
          (add_events ids base real_count cfg us (shuffle us) draws ds df dl dd f1 f2
            (new_generator ids base real_count cfg))
          _ made in
      let same : built ≡ g = ground (arith, h) in
      let (v, n) =
        add_events-IsConsistent ids base real_count cfg fresh_event fresh_room part us (shuffle us)
          draws ds df dl dd f1 f2 (new_generator ids base real_count cfg) {g' = built} perm t1 t2
          apart (omega (arith, number)) (new_generator-IsConsistent ids base real_count cfg) e in
      subst (λ x. IsConsistent ids cfg x × (length x.events ≡ cfg.bulk_event_count + 4)) same
        (v, omega (arith, v.events, n))

  pub generate_dataset-no_overlap :
      (sort : List Placed → List Placed) (rooms speakers : List ℕ)
      → IsSliceSort sort
      → All (λ s. contains s.room rooms ≡ true) g.placement.sessions
      → All (λ s. contains s.booking.speaker speakers ≡ true) g.placement.sessions
      → no_speaker_or_room_overlap sort rooms speakers g.placement.sessions ≡ none
  generate_dataset-no_overlap sort rooms speakers sorts in_rooms of_speakers =
      let (v, n) = generate_dataset-IsConsistent in
      (no_speaker_or_room_overlap_iff sort sorts rooms speakers g.placement.sessions v.lasts
          in_rooms of_speakers).1
        v.sound.apart
