-- ===== src/Seeding/Generator.antt =====
-- cmd/seed/generate.go: GenerateDataset with the events that it adds, their rooms, members, sessions and
-- invitations. math/rand, the time package, the float64 product of addInvitations and newUUIDv7 are
-- parameters; nothing is a panic, or a loop that its draws do not end.
pub mod Events
pub mod Rooms
pub mod Guests
pub mod Keeps
pub mod Bookings
pub mod Additions
pub mod Dataset
use krane_event_management_p.Common.{
  ℕ, zero, suc, String, ◌+◌, ◌-◌, ◌*◌, ◌%◌, Bool, true, false, ◌==◌, ltb, leb, Option, none, some,
  List, [], ◌∷◌, length, if◌then◌else◌, ◌≡◌, refl, arith,
}
use krane_event_management_p.Domain.{Role, admin, contributor, attendee}
use krane_event_management_p.Store.{MemberRow}
use krane_event_management_p.Utils.LocalTime.{Location, Resolved, at_instant, resolve_local_time}
use krane_event_management_p.Seeding.{
  Booking, Placement, minute, pick_speaker, place, distribute_sessions, add_generic_sessions,
}
use krane_event_management_p.Seeding.Roster.{add_standard_members}

infixl 5 ◌>>=◌
abbrev pub ◌>>=◌ {ℓ κ} : {A : Type ℓ} {B : Type κ} → Option A → (A → Option B) → Option B
none >>= f = none
some a >>= f = f a

pub >>=-eq-some {ℓ κ} :
    {A : Type ℓ} {B : Type κ} (m : Option A) (f : A → Option B) {b : B}
    → (m >>= f) ≡ some b
    → (a : A) × (m ≡ some a) × (f a ≡ some b)
>>=-eq-some none f h = absurd (ground (arith, h))
>>=-eq-some (some a) f h = (a, refl, h)

pub record Config : Type 0 where
  pub user_count : ℕ
  pub bulk_event_count : ℕ
  pub invitations_per_event : ℕ
  pub min_rooms_per_event : ℕ
  pub max_rooms_per_event : ℕ
  pub min_sessions_per_event : ℕ
  pub max_sessions_per_event : ℕ
  pub large_event_room_count : ℕ
  pub large_event_session_count : ℕ

-- DefaultConfig
abbrev pub default_config : Config
default_config = record {
  user_count = 5000;
  bulk_event_count = 46;
  invitations_per_event = 1000;
  min_rooms_per_event = 2;
  max_rooms_per_event = 6;
  min_sessions_per_event = 5;
  max_sessions_per_event = 20;
  large_event_room_count = 10;
  large_event_session_count = 500;
}

-- An event's name, its description and its zone are fixed texts, and are left out.
pub record SeedEvent : Type 0 where
  pub id : ℕ
  pub starts_at : ℕ
  pub ends_at : ℕ

-- The texts "Room A" to "Room Z", and "Room 27" and on.
pub data RoomName : Type 0 where
  lettered : ℕ → RoomName
  numbered : ℕ → RoomName

-- The subject and the address of a user: a demo identity's, or by the number of the loop.
pub data Subject : Type 0 where
  demo : ℕ → Subject
  seeded : ℕ → Subject

pub record SeedUser : Type 0 where
  pub id : ℕ
  pub subject : Subject

pub record SeedRoom : Type 0 where
  pub id : ℕ
  pub event_id : ℕ
  pub name : RoomName

-- The address of an account stands for the account. An external one has the number of its event.
pub data Address : Type 0 where
  account : ℕ → Address
  external : ℕ → ℕ → Address

pub record SeedInvitation : Type 0 where
  pub event_id : ℕ
  pub user_id : Option ℕ
  pub email : Address
  pub role : Role

-- generator, its lists the latest first.
pub record Generator : Type 0 where
  pub event_seq : ℕ
  pub events : List SeedEvent
  pub rooms : List SeedRoom
  pub placement : Placement
  pub members : List MemberRow
  pub invitations : List SeedInvitation

-- newUUIDv7, by the table and the number of the row.
pub record Ids : Type 0 where
  pub user : ℕ → ℕ
  pub event : ℕ → ℕ
  pub room : ℕ → ℕ
  pub member : ℕ → ℕ

-- What one event takes from math/rand and from the time package.
pub record Draws : Type 0 where
  pub starts_at : ℕ
  pub ends_at : ℕ
  pub rooms : ℕ
  pub sessions : ℕ
  pub admins : ℕ
  pub contributors : ℕ
  pub attendees : ℕ
  pub picks : List ℕ
  pub lengths : ℕ → ℕ → ℕ
  pub percent : ℕ → ℕ → ℕ
  pub shuffle : ℕ → ℕ → List ℕ → List ℕ
  pub order : List ℕ
  pub account_roles : ℕ → ℕ
  pub external_roles : ℕ → ℕ

-- Intn(max-min+1) from the smallest on, where min is at most max.
abbrev pub between : ℕ → ℕ → ℕ → ℕ
between least most draw = least + draw % (most - least + 1)

-- The number of rooms, and of sessions, of an ordinary event.
abbrev pub rooms_of : Config → Draws → ℕ
rooms_of cfg d = between cfg.min_rooms_per_event cfg.max_rooms_per_event d.rooms

abbrev pub sessions_of : Config → Draws → ℕ
sessions_of cfg d = between cfg.min_sessions_per_event cfg.max_sessions_per_event d.sessions

-- roomName
abbrev pub room_name : ℕ → RoomName
room_name k = if ltb k 26 then lettered (65 + k) else numbered (k + 1)

abbrev pub is_nil : List ℕ → Bool
is_nil [] = true
is_nil (u ∷ us) = false

abbrev pub append : List ℕ → List ℕ → List ℕ
append [] vs = vs
append (u ∷ us) vs = u ∷ append us vs

-- pickCandidatesFor
abbrev pub pick_candidates_for : List ℕ → ℕ → (List ℕ → List ℕ) → List ℕ → List ℕ
pick_candidates_for external_pool percent shuffle member_ids =
    if is_nil member_ids
    then external_pool
    else if ltb percent 40
    then external_pool
    else append (shuffle member_ids) external_pool

-- The closure pickRole.
abbrev pub pick_role : ℕ → Role
pick_role x = if ltb x 80 then attendee else if ltb x 95 then contributor else admin

-- The loop of generateUsers from its number `n` on, with `left` users missing.
unfoldable pub seeded_users : Ids → ℕ → ℕ → List SeedUser
seeded_users ids n zero = []
seeded_users ids n (suc left) =
    (record { id = ids.user (n + 2); subject = seeded n }) ∷ seeded_users ids (suc n) left

-- generateUsers, with the three demo identities first.
unfoldable pub generate_users : Ids → ℕ → List SeedUser
unfolding seeded_users
generate_users ids count =
    (record { id = ids.user 0; subject = demo 0 })
    ∷ (record { id = ids.user 1; subject = demo 1 })
    ∷ (record { id = ids.user 2; subject = demo 2 })
    ∷ seeded_users ids 1 (count - 3)

abbrev pub hour : ℕ
hour = 60 * minute

abbrev pub new_event : Ids → Draws → Generator → Generator
new_event ids d g = record g {
  event_seq = suc g.event_seq;
  events =
      (record { id = ids.event g.event_seq; starts_at = d.starts_at; ends_at = d.ends_at })
      ∷ g.events;
}

abbrev pub add_room : Ids → ℕ → ℕ → List SeedRoom → List SeedRoom
add_room ids event k rooms =
    (record { id = ids.room (length rooms); event_id = event; name = room_name k }) ∷ rooms

-- addRooms, from room `k` on: the rooms, and the ids in their order.
unfoldable pub add_rooms : Ids → ℕ → ℕ → ℕ → List SeedRoom → List SeedRoom × List ℕ
add_rooms ids event k zero rooms = (rooms, [])
add_rooms ids event k (suc left) rooms =
    let rest = add_rooms ids event (suc k) left (add_room ids event k rooms) in
    (rest.0, ids.room (length rooms) ∷ rest.1)

abbrev pub candidates_of : List ℕ → Draws → List ℕ → ℕ → ℕ → List ℕ
candidates_of external_pool d member_ids room j =
    pick_candidates_for external_pool (d.percent room j) (d.shuffle room j) member_ids

-- The loop over users[idx] for the first `n` indices of the permutation, and the draws of roles.
unfoldable pub invite_accounts :
    ℕ → (ℕ → ℕ) → ℕ → List ℕ → List SeedInvitation → Option (List SeedInvitation)
invite_accounts event roles zero order invitations = some invitations
invite_accounts event roles (suc n) [] invitations = none
invite_accounts event roles (suc n) (u ∷ order) invitations = invite_accounts event roles n order (
    (record { event_id = event; user_id = some u; email = account u; role = pick_role (roles n) })
    ∷ invitations)

unfoldable pub invite_externals :
    ℕ → (ℕ → ℕ) → ℕ → ℕ → ℕ → List SeedInvitation → List SeedInvitation
invite_externals event roles seq n zero invitations = invitations
invite_externals event roles seq n (suc left) invitations =
    invite_externals event roles seq (suc n) left (
      (record {
        event_id = event;
        user_id = none;
        email = external seq n;
        role = pick_role (roles n);
      })
      ∷ invitations)

-- addInvitations: `order` are the users in the order of Perm.
unfoldable pub add_invitations :
    (ℕ → ℕ) → Config → Draws → ℕ → ℕ → List SeedInvitation → Option (List SeedInvitation)
unfolding invite_accounts invite_externals
add_invitations real_count cfg d event seq invitations = do
  let real = real_count cfg.invitations_per_event
  accounts ← invite_accounts event d.account_roles real d.order invitations
  some (invite_externals event d.external_roles seq 1 (cfg.invitations_per_event - real) accounts)
