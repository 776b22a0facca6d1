-- ===== src/Seeding/Generator/Keeps.antt =====
-- Each event that the generator adds keeps the constraints between the rows of the dataset.
use krane_event_management_p.Common.{
  ℕ, suc, ◌*◌, ◌≤◌, ◌<◌, ◌≡◌, true, false, ◌==◌, some, List, length, map, All, All_mono, arith,
}
use krane_event_management_p.Domain.{Role}
use krane_event_management_p.Store.{MemberRow}
use krane_event_management_p.Members.LastAdmin.{has_admin}
use krane_event_management_p.Seeding.{Placement}
use krane_event_management_p.Seeding.Slots.{IsSound, IsUnused}
use krane_event_management_p.Seeding.Overlaps.Apart.{Lasts}
use krane_event_management_p.Seeding.Roster.{Staff, add_standard_members}
use krane_event_management_p.Seeding.Roster.Draws.{AllDistinct}
use krane_event_management_p.Seeding.Roster.Staffing.{AreUnique, add_standard_members-has_admin}
use krane_event_management_p.Seeding.Roster.Kept.{add_standard_members-keeps}
use krane_event_management_p.Seeding.Generator.{
  Config, SeedRoom, SeedInvitation, Generator, Ids, Draws, new_event,
}
use krane_event_management_p.Seeding.Generator.Rooms.{IsFresh, AreNamed, Houses}
use krane_event_management_p.Seeding.Generator.Guests.{AreInvitedOnce, Invites}

-- What the tables ask of the rows that the generator has built, and what keeps the next rows new.
pub record IsConsistent (ids : Ids) (cfg : Config) (g : Generator) : Type 0 where
  pub unique : AreUnique g.members
  pub staffed : All (λ e. has_admin e.id g.members ≡ true) g.events
  pub named : AreNamed g.rooms
  pub once : AreInvitedOnce g.invitations
  pub sound : IsSound g.placement
  pub lasts : All Lasts g.placement.sessions
  pub events : length g.events ≡ g.event_seq
  pub number : length g.invitations ≡ g.event_seq * cfg.invitations_per_event
  pub new_members :
      (k : ℕ) → g.event_seq ≤ k → All (λ m. (m.event_id == ids.event k) ≡ false) g.members
  pub new_rooms : (k : ℕ) → g.event_seq ≤ k → All (λ r. (r.event_id == ids.event k) ≡ false) g.rooms
  pub new_guests :
      (k : ℕ) → g.event_seq ≤ k → All (λ i. (i.event_id == ids.event k) ≡ false) g.invitations
  pub unused : (j : ℕ) → length g.rooms ≤ j → IsUnused (ids.room j) g.placement.sessions

later_event : (uuid : ℕ → ℕ) (n k : ℕ) → IsFresh uuid → suc n ≤ k → (uuid n == uuid k) ≡ false
later_event uuid n k fresh le = ground (arith, fresh n k, le)

-- The roster that an event was given.
pub record Staffs (event : ℕ) (xs ys : List MemberRow) : Type 0 where
  pub unique : AreUnique ys
  pub admin : has_admin event ys ≡ true
  pub kept : (e : ℕ) → has_admin e xs ≡ true → has_admin e ys ≡ true
  pub others :
      (e : ℕ)
      → (event == e) ≡ false
      → All (λ m. (m.event_id == e) ≡ false) xs
      → All (λ m. (m.event_id == e) ≡ false) ys

pub add_standard_members-Staffs :
    (uuid : ℕ → ℕ) (base event : ℕ) (users : List ℕ) (demo : List (ℕ × Role)) (a c t : ℕ)
    (members : List MemberRow) (draws : List ℕ) {s : Staff} {rest : List ℕ}
    → AreUnique members
    → All (λ m. (m.event_id == event) ≡ false) members
    → AllDistinct (map (λ d. d.0) demo)
    → length demo < length users
    → add_standard_members uuid base event users demo a c t members draws ≡ some (s, rest)
    → Staffs event members s.members
add_standard_members-Staffs uuid base event users demo a c t members draws unique new d few h =
    let (apart, admin) =
      add_standard_members-has_admin uuid base event users demo a c t members draws unique new d few
        h in
    record {
      unique = apart;
      admin = admin;
      kept = λ e k.
          add_standard_members-keeps uuid base event (λ xs. has_admin e xs ≡ true)
            (λ m xs same q. ground (arith, q)) users demo a c t members draws k h;
      others = λ e o k.
          add_standard_members-keeps uuid base event (All (λ m. (m.event_id == e) ≡ false))
            (λ m xs same q. (ground (arith, same, o), q)) users demo a c t members draws k h;
    }

-- The sessions that were placed in rooms of the event.
pub record Books (ids : Ids) (top : ℕ) (p p' : Placement) : Type 0 where
  pub sound : IsSound p'
  pub lasts : All Lasts p'.sessions
  pub others :
      (j : ℕ) → top ≤ j → IsUnused (ids.room j) p.sessions → IsUnused (ids.room j) p'.sessions

module _ (ids : Ids) (cfg : Config) (fresh : IsFresh ids.event) (d : Draws) (g : Generator)
    (v : IsConsistent ids cfg g) where
  pub assemble :
      (members : List MemberRow) (n : ℕ) (rooms : List SeedRoom) (room_ids : List ℕ) (p : Placement)
      (invitations : List SeedInvitation)
      → Staffs (ids.event g.event_seq) g.members members
      → Houses ids (ids.event g.event_seq) n g.rooms rooms room_ids
      → Books ids (length rooms) g.placement p
      → Invites (ids.event g.event_seq) cfg.invitations_per_event g.invitations invitations
      → IsConsistent ids cfg (record (new_event ids d g) {
        rooms = rooms;
        placement = p;
        members = members;
        invitations = invitations;
      })
  assemble members n rooms room_ids p invitations staff house book guests =
      let later =
        λ (k : ℕ) (le : suc g.event_seq ≤ k). later_event ids.event g.event_seq k fresh le in
      record {
        unique = staff.unique;
        staffed = (staff.admin, All_mono _ _ g.events v.staffed (λ e q. staff.kept e.id q));
        named = house.named;
        once = guests.once;
        sound = book.sound;
        lasts = book.lasts;
        events = omega (arith, v.events);
        number = grind (arith, guests.number, v.number);
        new_members =
            λ k le. staff.others (ids.event k) (later k le) (v.new_members k (omega (arith, le)));
        new_rooms =
            λ k le. house.others (ids.event k) (later k le) (v.new_rooms k (omega (arith, le)));
        new_guests =
            λ k le. guests.others (ids.event k) (later k le) (v.new_guests k (omega (arith, le)));
        unused = λ j le. book.others j le (v.unused j (omega (arith, le, house.number)));
      }
