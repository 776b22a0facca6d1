-- ===== src/Seeding/Roster.antt =====
-- cmd/seed/generate.go: addStandardMembers and pickDistinctUsers. The users that Intn draws are a list
-- of ids, the latest last; `none` means that the loop has not ended with these draws.
pub mod Draws
pub mod Staffing
pub mod Kept
use krane_event_management_p.Common.{
  ℕ, zero, suc, ◌+◌, ◌-◌, ◌%◌, min, Bool, true, false, ◌==◌, ◌||◌, Option, none, some, List, [],
  ◌∷◌, any, length, if◌then◌else◌,
}
use krane_event_management_p.Domain.{Role, admin, contributor, attendee}
use krane_event_management_p.Store.{MemberRow}

abbrev pub contains : ℕ → List ℕ → Bool
contains u us = any (λ v. v == u) us

abbrev pub prepend : ℕ → Option (List ℕ × List ℕ) → Option (List ℕ × List ℕ)
prepend u none = none
prepend u (some (us, draws)) = some (u ∷ us, draws)

-- The loop with `n` users left to pick, and what it picked so far in `seen`.
pub pick_loop : List ℕ → List ℕ → ℕ → List ℕ → Option (List ℕ × List ℕ)
pick_loop exclude seen zero draws = some ([], draws)
pick_loop exclude seen (suc n) [] = none
pick_loop exclude seen (suc n) (u ∷ draws) = elim (contains u seen || contains u exclude) [
  | true ↦ pick_loop exclude seen (suc n) draws
  | false ↦ prepend u (pick_loop exclude (u ∷ seen) n draws)
]

-- pickDistinctUsers, with the draws that are left.
unfoldable pub pick_distinct_users : List ℕ → ℕ → List ℕ → List ℕ → Option (List ℕ × List ℕ)
unfolding pick_loop
pick_distinct_users users n exclude draws =
    pick_loop exclude [] (min n (length users - length exclude)) draws

-- What addStandardMembers has built, the latest first; `exclude` is its map as a list.
pub record Staff : Type 0 where
  pub members : List MemberRow
  pub exclude : List ℕ
  pub member_ids : List ℕ

abbrev pub include : ℕ → List ℕ → List ℕ
include u exclude = if contains u exclude then exclude else u ∷ exclude

-- `uuid` numbers the fresh ids; `base` is seedBaseTime.
module _ (uuid : ℕ → ℕ) (base event : ℕ) where
  abbrev pub add_member : Role → ℕ → Staff → Staff
  add_member role u s = record {
    members =
        (record {
          id = uuid (length s.members);
          event_id = event;
          user_id = u;
          role = role;
          version = 1;
          created_at = base;
          updated_at = base;
        })
        ∷ s.members;
    exclude = include u s.exclude;
    member_ids = u ∷ s.member_ids;
  }

  abbrev pub add_members : Role → List ℕ → Staff → Staff
  add_members role [] s = s
  add_members role (u ∷ us) s = add_members role us (add_member role u s)

  abbrev pub add_picked : Role → Staff → Option (List ℕ × List ℕ) → Option (Staff × List ℕ)
  add_picked role s none = none
  add_picked role s (some (us, draws)) = some (add_members role us s, draws)

  -- The closure addRole.
  unfoldable pub add_role : List ℕ → ℕ → Role → Staff → List ℕ → Option (Staff × List ℕ)
  unfolding pick_distinct_users
  add_role users count role s draws =
      add_picked role s (pick_distinct_users users count s.exclude draws)

  abbrev pub add_demo : List (ℕ × Role) → Staff → Staff
  add_demo [] s = s
  add_demo ((u, role) ∷ demo) s = add_demo demo (add_member role u s)

  abbrev pub then_role : List ℕ → ℕ → Role → Option (Staff × List ℕ) → Option (Staff × List ℕ)
  then_role users count role none = none
  then_role users count role (some (s, draws)) = add_role users count role s draws

  -- addStandardMembers: `a`, `c` and `t` are the draws of Intn for the three counts.
  unfoldable pub add_standard_members :
      List ℕ → List (ℕ × Role) → ℕ → ℕ → ℕ → List MemberRow → List ℕ → Option (Staff × List ℕ)
  unfolding add_role
  add_standard_members users demo a c t members draws =
      let s = add_demo demo (record { members = members; exclude = []; member_ids = [] }) in
      then_role users (10 + t % 31) attendee
        (then_role users (2 + c % 4) contributor (add_role users (1 + a % 2) admin s draws))
