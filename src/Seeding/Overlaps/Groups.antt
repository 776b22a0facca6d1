-- ===== src/Seeding/Overlaps/Groups.antt =====
-- noOverlapByKey reports nothing exactly where no two sessions of a key overlap.
use mathlib.Core.List.Permᴰ.{symm}
use krane_event_management_p.Common.{
  ℕ, ◌≡◌, ◌↔◌, refl, true, false, ◌==◌, none, List, [], ◌∷◌, any-true, All, All-of, All-get,
  All_mono, Pairwise, arith, Bool-cases, Option-cases, inl, inr, subst,
}
use krane_event_management_p.Seeding.{Placed}
use krane_event_management_p.Seeding.Slots.{clashes}
use krane_event_management_p.Seeding.Roster.{contains}
use krane_event_management_p.Seeding.Overlaps.{
  group_of, check_group, no_overlap_by_key, no_speaker_or_room_overlap, Label,
}
use krane_event_management_p.Seeding.Overlaps.Apart.{
  IsSliceSort, Apart, Lasts, All-Perm, Pairwise-Perm, check_group_iff, Apart-sym,
}

module _ (key : Placed → ℕ) where
  abbrev ApartIn : Placed → Placed → Type 0
  ApartIn a b = (key a == key b) ≡ true → Apart a b

  All-group_of {κ} :
      (P : Placed → Type κ) (k : ℕ) (xs : List Placed) → All P xs → All P (group_of key k xs)
  All-group_of P k [] h = tt
  All-group_of P k (x ∷ xs) h = elim (Bool-cases (key x == k)) [
    | inl e ↦ rw e (h.0, All-group_of P k xs h.1)
    | inr e ↦ rw e (All-group_of P k xs h.1)
  ]

  ApartIn-group :
      (x : Placed) (k : ℕ) (xs : List Placed)
      → (key x == k) ≡ true
      → All (ApartIn x) xs
      → All (Apart x) (group_of key k xs)
  ApartIn-group x k [] e h = tt
  ApartIn-group x k (y ∷ ys) e h = elim (Bool-cases (key y == k)) [
    | inl e' ↦ rw e' (h.0 (ground (arith, e, e')), ApartIn-group x k ys e h.1)
    | inr e' ↦ rw e' (ApartIn-group x k ys e h.1)
  ]

  Pairwise-group_of :
      (k : ℕ) (xs : List Placed) → Pairwise ApartIn xs → Pairwise Apart (group_of key k xs)
  Pairwise-group_of k [] h = tt
  Pairwise-group_of k (x ∷ xs) h = elim (Bool-cases (key x == k)) [
    | inl e ↦ rw e (ApartIn-group x k xs e h.0, Pairwise-group_of k xs h.1)
    | inr e ↦ rw e (Pairwise-group_of k xs h.1)
  ]

  Apart-of_group :
      (x : Placed) (xs : List Placed) → All (Apart x) (group_of key (key x) xs) → All (ApartIn x) xs
  Apart-of_group x [] h = tt
  Apart-of_group x (y ∷ ys) h = elim (Bool-cases (key y == key x)) [
    | inl e ↦ let (now, later) = rw e at h in (λ q. now, Apart-of_group x ys later)
    | inr e ↦ (λ q. absurd (ground (arith, e, q)), Apart-of_group x ys (rw e at h))
  ]

  group_tail :
      (k : ℕ) (x : Placed) (xs : List Placed)
      → Pairwise Apart (group_of key k (x ∷ xs))
      → Pairwise Apart (group_of key k xs)
  group_tail k x xs h = elim (Bool-cases (key x == k)) [
    | inl e ↦ let (now, later) = rw e at h in later
    | inr e ↦ rw e at h
  ]

  Pairwise-of_groups :
      (keys : List ℕ) (xs : List Placed)
      → All (λ x. contains (key x) keys ≡ true) xs
      → All (λ k. Pairwise Apart (group_of key k xs)) keys
      → Pairwise ApartIn xs
  Pairwise-of_groups keys [] c h = tt
  Pairwise-of_groups keys (x ∷ xs) c h =
      let (k, m, e) = any-true (λ v. v == key x) keys c.0 in
      let same : k ≡ key x = ground (arith, e) in
      let own =
        subst (λ z. Pairwise Apart (group_of key z (x ∷ xs))) same
          (All-get (λ z. Pairwise Apart (group_of key z (x ∷ xs))) keys h m) in
      let self : (key x == key x) ≡ true = ground arith in
      let (now, later) = rw self at own in
      (
        Apart-of_group x xs now,
        Pairwise-of_groups keys xs c.1 (All_mono _ _ keys h (λ z q. group_tail z x xs q)),
      )

  module _ (sort : List Placed → List Placed) (v : IsSliceSort sort) (label : Label)
      (xs : List Placed) (w : All Lasts xs) where
    sorted_group_iff :
        (k : ℕ)
        → (check_group (sort (group_of key k xs)) ≡ none) ↔ Pairwise Apart (group_of key k xs)
    sorted_group_iff k =
        let g = group_of key k xs in
        let back = symm (v.perm g) in
        let same =
          check_group_iff (sort g) (v.sorted g) (All-Perm Lasts back (All-group_of Lasts k xs w)) in
        (
          λ h. Pairwise-Perm Apart Apart-sym (v.perm g) (same.0 h),
          λ h. same.1 (Pairwise-Perm Apart Apart-sym back h),
        )

    no_overlap_by_key-groups :
        (keys : List ℕ)
        → (no_overlap_by_key sort label key keys xs ≡ none)
          ↔ All (λ k. Pairwise Apart (group_of key k xs)) keys
    unfolding no_overlap_by_key
    no_overlap_by_key-groups [] = (λ h. tt, λ h. refl)
    no_overlap_by_key-groups (k ∷ keys) =
        let own = sorted_group_iff k in
        let rest = no_overlap_by_key-groups keys in
        elim (Option-cases (check_group (sort (group_of key k xs)))) [
          | inl e ↦ (λ h. (own.0 e, rest.0 (rw e at h)), λ h. rw e (rest.1 h.1))
          | inr (pair, e) ↦
              (λ h. absurd (ground (arith, e, h)), λ h. absurd (ground (arith, e, own.1 h.0)))
        ]

    no_overlap_by_key_iff :
        (keys : List ℕ)
        → All (λ x. contains (key x) keys ≡ true) xs
        → (no_overlap_by_key sort label key keys xs ≡ none) ↔ Pairwise ApartIn xs
    no_overlap_by_key_iff keys c = (
      λ h. Pairwise-of_groups keys xs c ((no_overlap_by_key-groups keys).0 h),
      λ h. (no_overlap_by_key-groups keys).1 (All-of _ keys (λ k m. Pairwise-group_of k xs h)),
    )

all_clashes :
    (x : Placed) (xs : List Placed)
    → All (ApartIn (λ s. s.room) x) xs
    → All (ApartIn (λ s. s.booking.speaker) x) xs
    → All (λ y. clashes x y ≡ false) xs
all_clashes x [] h k = tt
all_clashes x (y ∷ ys) h k = (ground (arith, h.0, k.0), all_clashes x ys h.1 k.1)

Pairwise-clashes :
    (xs : List Placed)
    → (Pairwise (ApartIn (λ s. s.room)) xs × Pairwise (ApartIn (λ s. s.booking.speaker)) xs)
      ↔ Pairwise (λ a b. clashes a b ≡ false) xs
Pairwise-clashes [] = (λ h. tt, λ h. (tt, tt))
Pairwise-clashes (x ∷ xs) =
    let rest = Pairwise-clashes xs in
    (
      λ h. (all_clashes x xs h.0.0 h.1.0, rest.0 (h.0.1, h.1.1)),
      λ h.
          let (rooms, speakers) = rest.1 h.1 in
          (
            (All_mono _ _ xs h.0 (λ y k e. ground (arith, k, e)), rooms),
            (All_mono _ _ xs h.0 (λ y k e. ground (arith, k, e)), speakers),
          ),
    )

module _ (sort : List Placed → List Placed) (v : IsSliceSort sort) (rooms speakers : List ℕ)
    (sessions : List Placed) (lasts : All Lasts sessions)
    (in_rooms : All (λ s. contains s.room rooms ≡ true) sessions)
    (of_speakers : All (λ s. contains s.booking.speaker speakers ≡ true) sessions) where
  -- Where sort.Slice sorts, the keys of the maps are those of the sessions, and each session starts
  -- before it ends: the check of neighbours reports nothing exactly when no two sessions of a room
  -- or of a speaker overlap.
  pub no_speaker_or_room_overlap_iff :
      (no_speaker_or_room_overlap sort rooms speakers sessions ≡ none)
      ↔ Pairwise (λ a b. clashes a b ≡ false) sessions
  unfolding no_speaker_or_room_overlap
  no_speaker_or_room_overlap_iff =
      let room =
        no_overlap_by_key_iff (λ s. s.room) sort v Label.room sessions lasts rooms in_rooms in
      let speaker =
        no_overlap_by_key_iff (λ s. s.booking.speaker) sort v Label.speaker sessions lasts speakers
          of_speakers in
      let both = Pairwise-clashes sessions in
      elim (Option-cases (no_overlap_by_key sort Label.room (λ s. s.room) rooms sessions)) [
        | inl e ↦ (
          λ h. both.0 (room.0 e, speaker.0 (rw e at h)),
          λ h. let (r, s) = both.1 h in rw e (speaker.1 s),
        )
        | inr (o, e) ↦ (
          λ h. absurd (ground (arith, e, h)),
          λ h. absurd (ground (arith, e, room.1 (both.1 h).0)),
        )
      ]
