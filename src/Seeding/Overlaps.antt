-- ===== src/Seeding/Overlaps.antt =====
-- cmd/seed/generate.go: noSpeakerOrRoomOverlap, the check of the sessions against the exclusion
-- constraints. sort.Slice and the order in which a map's keys come are parameters.
pub mod Apart
pub mod Groups
use krane_event_management_p.Common.{
  ℕ, Bool, true, false, ◌==◌, ltb, Option, none, some, List, [], ◌∷◌, if◌then◌else◌,
}
use krane_event_management_p.Seeding.{Placed}

-- The sessions of one key, in the order in which they were appended.
abbrev pub group_of : (Placed → ℕ) → ℕ → List Placed → List Placed
group_of key k [] = []
group_of key k (s ∷ sessions) =
    if key s == k then s ∷ group_of key k sessions else group_of key k sessions

-- The loop over neighbours: the first two that overlap. Touching ends do not.
abbrev pub check_from : Placed → List Placed → Option (Placed × Placed)
check_from prev [] = none
check_from prev (cur ∷ rest) =
    if ltb cur.booking.starts_at prev.booking.ends_at then some (prev, cur) else check_from cur rest

abbrev pub check_group : List Placed → Option (Placed × Placed)
check_group [] = none
check_group (s ∷ sessions) = check_from s sessions

pub data Label : Type 0 where
  room speaker : Label

-- What the error names.
pub record Overlap : Type 0 where
  pub label : Label
  pub key : ℕ
  pub prev : Placed
  pub cur : Placed

abbrev pub or_else : Label → ℕ → Option (Placed × Placed) → Option Overlap → Option Overlap
or_else label k none rest = rest
or_else label k (some (prev, cur)) rest =
    some (record { label = label; key = k; prev = prev; cur = cur })

module _ (sort : List Placed → List Placed) where
  -- noOverlapByKey, with the keys in the order of the map.
  unfoldable pub no_overlap_by_key : Label → (Placed → ℕ) → List ℕ → List Placed → Option Overlap
  no_overlap_by_key label key [] sessions = none
  no_overlap_by_key label key (k ∷ keys) sessions =
      or_else label k (check_group (sort (group_of key k sessions)))
        (no_overlap_by_key label key keys sessions)

  abbrev pub first_error : Option Overlap → Option Overlap → Option Overlap
  first_error (some e) rest = some e
  first_error none rest = rest

  unfoldable pub no_speaker_or_room_overlap : List ℕ → List ℕ → List Placed → Option Overlap
  unfolding no_overlap_by_key
  no_speaker_or_room_overlap rooms speakers sessions =
      first_error (no_overlap_by_key Label.room (λ s. s.room) rooms sessions)
        (no_overlap_by_key Label.speaker (λ s. s.booking.speaker) speakers sessions)
