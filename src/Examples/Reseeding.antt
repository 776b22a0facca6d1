-- ===== src/Examples/Reseeding.antt =====
-- A database with a series of talks, which the seeder is to clear, and a programme that it checks.
use mathlib.Core.List.{Permᴰ}
use mathlib.Core.List.Permᴰ.{refl as perm_refl}
use krane_event_management_p.Common.{
  ℕ, ◌≡◌, ◌↔◌, refl, false, none, List, [], ◌∷◌, ok, err, internal, ltb, All, All_mono, Pairwise,
  arith, Bool-cases, inl, inr, if◌then◌else◌,
}
use krane_event_management_p.Domain.{Series, weekly}
use krane_event_management_p.Store.{Db}
use krane_event_management_p.Seeding.{Placed}
use krane_event_management_p.Seeding.Slots.{clashes}
use krane_event_management_p.Seeding.Truncation.{truncate}
use krane_event_management_p.Seeding.Truncation.Recurring.{
  HasReferences, empty_db, truncate-ok_iff, truncate-some_series,
}
use krane_event_management_p.Seeding.Overlaps.{no_speaker_or_room_overlap}
use krane_event_management_p.Seeding.Overlaps.Apart.{IsSliceSort, Sorted}
use krane_event_management_p.Seeding.Overlaps.Groups.{no_speaker_or_room_overlap_iff}
use krane_event_management_p.Examples.Data.{conference}

abbrev talks : Series
talks = record {
  id = 60;
  event_id = 10;
  room_id = 30;
  speaker_id = 2;
  title = "Talks";
  description = none;
  freq = weekly;
  interval_count = 1;
  occurrences = 3;
  created_at = 5;
}

abbrev recurring : Db
recurring = record conference { series = talks ∷ [] }

conference-HasReferences : HasReferences conference
conference-HasReferences = record { sessions = tt; series = tt; rooms = tt; actors = tt }

recurring-HasReferences : HasReferences recurring
recurring-HasReferences = record { sessions = tt; series = tt; rooms = (refl, tt); actors = tt }

truncate-ok_iff_example :
    (truncate (λ s. false) conference ≡ (ok tt, empty_db)) ↔ (conference.series ≡ [])
truncate-ok_iff_example =
    truncate-ok_iff (λ s. false) (λ s. refl) conference conference-HasReferences

truncate-some_series_example :
    ((truncate (λ s. false) recurring).0 ≡ err internal)
    × ((truncate (λ s. false) recurring).1.users ≡ recurring.users)
    × ((truncate (λ s. false) recurring).1.events ≡ recurring.events)
    × ((truncate (λ s. false) recurring).1.rooms ≡ recurring.rooms)
    × ((truncate (λ s. false) recurring).1.series ≡ recurring.series)
    × ((truncate (λ s. false) recurring).1.invitations ≡ [])
    × ((truncate (λ s. false) recurring).1.audit_log ≡ [])
truncate-some_series_example =
    truncate-some_series (λ s. false) (λ s. refl) recurring recurring-HasReferences (λ e. cc)

-- An insertion sort by the start.
abbrev insert_by_start : Placed → List Placed → List Placed
insert_by_start x [] = x ∷ []
insert_by_start x (y ∷ ys) =
    if ltb y.booking.starts_at x.booking.starts_at then y ∷ insert_by_start x ys else x ∷ y ∷ ys

abbrev sort_by_start : List Placed → List Placed
sort_by_start [] = []
sort_by_start (x ∷ xs) = insert_by_start x (sort_by_start xs)

insert-Perm : (x : Placed) (xs : List Placed) → Permᴰ (insert_by_start x xs) (x ∷ xs)
insert-Perm x [] = Permᴰ.cons refl Permᴰ.nil
insert-Perm x (y ∷ ys) = elim (Bool-cases (ltb y.booking.starts_at x.booking.starts_at)) [
  | inl e ↦ rw e (Permᴰ.trans (Permᴰ.cons refl (insert-Perm x ys)) (Permᴰ.swap {l = ys} refl refl))
  | inr e ↦ rw e (perm_refl (x ∷ y ∷ ys))
]

sort-Perm : (xs : List Placed) → Permᴰ (sort_by_start xs) xs
sort-Perm [] = Permᴰ.nil
sort-Perm (x ∷ xs) = Permᴰ.trans (insert-Perm x (sort_by_start xs)) (Permᴰ.cons refl (sort-Perm xs))

All-insert :
    (P : Placed → Type 0) (x : Placed) (xs : List Placed)
    → P x
    → All P xs
    → All P (insert_by_start x xs)
All-insert P x [] p h = (p, tt)
All-insert P x (y ∷ ys) p h = elim (Bool-cases (ltb y.booking.starts_at x.booking.starts_at)) [
  | inl e ↦ rw e (h.0, All-insert P x ys p h.1)
  | inr e ↦ rw e (p, h)
]

insert-Sorted : (x : Placed) (xs : List Placed) → Sorted xs → Sorted (insert_by_start x xs)
insert-Sorted x [] s = (tt, tt)
insert-Sorted x (y ∷ ys) s = elim (Bool-cases (ltb y.booking.starts_at x.booking.starts_at)) [
  | inl e ↦ rw e (All-insert _ x ys (ground (arith, e)) s.0, insert-Sorted x ys s.1)
  | inr e ↦ rw e ((e, All_mono _ _ ys s.0 (λ z k. ground (arith, k, e))), s)
]

sort-Sorted : (xs : List Placed) → Sorted (sort_by_start xs)
sort-Sorted [] = tt
sort-Sorted (x ∷ xs) = insert-Sorted x (sort_by_start xs) (sort-Sorted xs)

sort-IsSliceSort : IsSliceSort sort_by_start
sort-IsSliceSort = record { perm = sort-Perm; sorted = sort-Sorted }

abbrev slot : ℕ → ℕ → ℕ → ℕ → Placed
slot room speaker starts ends = record {
  room = room;
  booking = record { speaker = speaker; starts_at = starts; ends_at = ends };
}

-- The speaker 1 is in two rooms at once.
abbrev programme : List Placed
programme = slot 5 1 30 60 ∷ slot 5 2 0 30 ∷ slot 6 1 45 90 ∷ []

no_speaker_or_room_overlap_iff_example :
    (no_speaker_or_room_overlap sort_by_start (5 ∷ 6 ∷ []) (1 ∷ 2 ∷ []) programme ≡ none)
    ↔ Pairwise (λ a b. clashes a b ≡ false) programme
no_speaker_or_room_overlap_iff_example =
    no_speaker_or_room_overlap_iff sort_by_start sort-IsSliceSort (5 ∷ 6 ∷ []) (1 ∷ 2 ∷ [])
      programme (omega arith, (omega arith, (omega arith, tt))) (refl, (refl, (refl, tt)))
      (refl, (refl, (refl, tt)))
