-- ===== src/Seeding/Loading.antt =====
-- cmd/seed/load.go: Load and loadSessions. Each COPY, and each INSERT of a chunk of sessions, is a
-- statement of its own, which PostgreSQL takes whole or refuses.
pub mod Chunks
use krane_event_management_p.Common.{
  ℕ, zero, suc, ◌+◌, Bool, true, false, Option, none, some, List, [], ◌∷◌, ◌++◌, length,
  if◌then◌else◌,
}
use krane_event_management_p.Store.{MemberRow}
use krane_event_management_p.Pages.{take}
use krane_event_management_p.Seeding.{Placed}
use krane_event_management_p.Seeding.Generator.{SeedUser, SeedEvent, SeedRoom, SeedInvitation}

abbrev pub drop {ℓ} : {A : Type ℓ} → ℕ → List A → List A
drop zero xs = xs
drop (suc n) [] = []
drop (suc n) (x ∷ xs) = drop n xs

abbrev pub session_chunk_size : ℕ
session_chunk_size = 1000

-- The parameters of the statement for a chunk, eleven for each session.
abbrev pub parameters_of : List Placed → ℕ
parameters_of [] = 0
parameters_of (s ∷ chunk) = parameters_of chunk + 11

-- How a load ends: well, or at a table, or at the chunk of sessions that starts at an index.
pub data Ending : Type 0 where
  loaded : Ending
  at_users at_events at_members at_rooms at_invitations : Ending
  at_sessions : ℕ → Ending

-- A dataset, or what the tables hold of one.
pub record Rows : Type 0 where
  pub users : List SeedUser
  pub events : List SeedEvent
  pub members : List MemberRow
  pub rooms : List SeedRoom
  pub sessions : List Placed
  pub invitations : List SeedInvitation

-- Which statements PostgreSQL refuses; a chunk by its start and its number of parameters.
pub record Refusals : Type 0 where
  pub users : Bool
  pub events : Bool
  pub members : Bool
  pub rooms : Bool
  pub chunk : ℕ → ℕ → Bool
  pub invitations : Bool

-- The loop of loadSessions from `start` on, in chunks of `size`, with the sessions that are left and
-- those that are loaded. It has as much fuel as there are sessions left.
unfoldable pub load_chunks :
    (ℕ → ℕ → Bool) → ℕ → ℕ → ℕ → List Placed → List Placed → Ending × List Placed
load_chunks refuses size fuel start [] done = (loaded, done)
load_chunks refuses size zero start (s ∷ left) done = (at_sessions start, done)
load_chunks refuses size (suc fuel) start (s ∷ left) done =
    let chunk = take size (s ∷ left) in
    let rest =
      load_chunks refuses size fuel (start + size) (drop size (s ∷ left)) (done ++ chunk) in
    if refuses start (parameters_of chunk) then (at_sessions start, done) else rest

unfoldable pub load_sessions : (ℕ → ℕ → Bool) → List Placed → Ending × List Placed
unfolding load_chunks
load_sessions refuses sessions =
    load_chunks refuses session_chunk_size (length sessions) 0 sessions []

abbrev pub nothing : Rows
nothing = record {
  users = [];
  events = [];
  members = [];
  rooms = [];
  sessions = [];
  invitations = [];
}

abbrev pub then_invitations : Refusals → Rows → Rows → Ending → Ending × Rows
then_invitations r ds rows loaded =
    if r.invitations
    then (at_invitations, rows)
    else (loaded, record rows { invitations = ds.invitations })
then_invitations r ds rows ending = (ending, rows)

-- Load, into tables that were truncated.
unfoldable pub load : Refusals → Rows → Ending × Rows
unfolding load_sessions
load r ds =
    if r.users
    then (at_users, nothing)
    else if r.events
    then (at_events, record nothing { users = ds.users })
    else if r.members
    then (at_members, record nothing { users = ds.users; events = ds.events })
    else if r.rooms
    then (at_rooms, record nothing { users = ds.users; events = ds.events; members = ds.members })
    else let (ending, sessions) = load_sessions r.chunk ds.sessions in
      then_invitations r ds (record ds { sessions = sessions; invitations = [] }) ending
