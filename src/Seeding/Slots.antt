-- ===== src/Seeding/Slots.antt =====
-- The sessions that the generator places do not overlap in a room or for a speaker.
use native.Mathlib.Nat.{mod-lt, div-add-mod}
use krane_event_management_p.Common.{
  ℕ, zero, suc, ◌+◌, ◌-◌, ◌*◌, ◌/◌, ◌%◌, ◌≤◌, ◌≡◌, Bool, true, false, ◌==◌, ◌&&◌, ◌||◌, ltb, some,
  List, [], ◌∷◌, any, length, map, All, Pairwise, arith, Option-cases, Bool-cases, subst, ap, inl,
  inr,
}
use krane_event_management_p.Seeding.{
  Booking, busy_at, is_busy, pick_speaker, Placed, minute, Placement, place, ends_of,
  add_generic_sessions, count_of, distribute_rooms, distribute_sessions,
}

-- What the EXCLUDE constraints refuse: a room or a speaker in common, at an overlapping time.
abbrev pub clashes : Placed → Placed → Bool
clashes a b =
    (a.room == b.room || a.booking.speaker == b.booking.speaker)
    && (ltb a.booking.starts_at b.booking.ends_at && ltb b.booking.starts_at a.booking.ends_at)

-- No two sessions clash, and the schedule holds the interval of each.
pub record IsSound (p : Placement) : Type 0 where
  pub apart : Pairwise (λ a b. clashes a b ≡ false) p.sessions
  pub reserved : p.bookings ≡ map (λ s. s.booking) p.sessions

-- The sessions in `room` are over by `time`; there is none.
abbrev pub IsOver : ℕ → ℕ → List Placed → Type 0
IsOver room time = All (λ s. ((s.room == room) ≡ true) → s.booking.ends_at ≤ time)

abbrev pub IsUnused : ℕ → List Placed → Type 0
IsUnused room = All (λ s. (s.room == room) ≡ false)

pub pick_speaker-free :
    (candidates : List ℕ) (bookings : List Booking) (starts ends : ℕ) {c : ℕ}
    → pick_speaker candidates bookings starts ends ≡ some c
    → is_busy c starts ends bookings ≡ false
unfolding pick_speaker
pick_speaker-free [] bookings starts ends h = ground arith
pick_speaker-free (d ∷ candidates) bookings starts ends {c} h =
    elim (Bool-cases (is_busy d starts ends bookings)) [
      | inl e ↦ pick_speaker-free candidates bookings starts ends (rw e at h)
      | inr e ↦ subst (λ x. is_busy x starts ends bookings ≡ false) (ground (arith, e)) e
    ]

place_apart :
    (room : ℕ) (b : Booking) (xs : List Placed)
    → any (busy_at b.speaker b.starts_at b.ends_at) (map (λ s. s.booking) xs) ≡ false
    → IsOver room b.starts_at xs
    → All (λ x. clashes (record { room = room; booking = b }) x ≡ false) xs
place_apart room b [] h over = tt
place_apart room b (x ∷ xs) h over =
    (ground (arith, over.0), place_apart room b xs (ground arith) over.1)

pub place-IsSound :
    (room : ℕ) (b : Booking) (p : Placement)
    → IsSound p
    → is_busy b.speaker b.starts_at b.ends_at p.bookings ≡ false
    → IsOver room b.starts_at p.sessions
    → IsSound (place room b p)
place-IsSound room b p v free over = record {
  apart = (place_apart room b p.sessions (rw⁻¹ v.reserved free) over, v.apart);
  reserved = ap (λ bs. b ∷ bs) v.reserved;
}

pub later-IsOver :
    (room time time' : ℕ) (xs : List Placed)
    → time ≤ time'
    → IsOver room time xs
    → IsOver room time' xs
later-IsOver room time time' [] h over = tt
later-IsOver room time time' (x ∷ xs) h over =
    (λ e. omega (arith, over.0 e), later-IsOver room time time' xs h over.1)

pub unused-IsOver : (room time : ℕ) (xs : List Placed) → IsUnused room xs → IsOver room time xs
unused-IsOver room time [] h = tt
unused-IsOver room time (x ∷ xs) h = (λ e. ground (arith, h.0), unused-IsOver room time xs h.1)

-- What a step that places `count` sessions in `room` keeps.
pub record Adds (room count : ℕ) (p p' : Placement) : Type 0 where
  pub sound : IsSound p'
  pub unused : (r : ℕ) → (room == r) ≡ false → IsUnused r p.sessions → IsUnused r p'.sessions
  pub grown : length p'.sessions ≡ length p.sessions + count

still-IsUnused :
    (room : ℕ) (p q : Placement)
    → ((r : ℕ) → (room == r) ≡ false → IsUnused r p.sessions → IsUnused r q.sessions)
    → (rooms : List ℕ) → All (λ r. (room == r) ≡ false) rooms
    → All (λ r. IsUnused r p.sessions) rooms
    → All (λ r. IsUnused r q.sessions) rooms
still-IsUnused room p q k [] d u = tt
still-IsUnused room p q k (r ∷ rooms) d u = (k r d.0 u.0, still-IsUnused room p q k rooms d.1 u.1)

module _ (lengths : ℕ → ℕ → ℕ) (candidates : ℕ → ℕ → List ℕ) where
  pub add_generic_sessions-Adds :
      (room j count cursor : ℕ) (p : Placement) {p' : Placement}
      → IsSound p
      → IsOver room cursor p.sessions
      → add_generic_sessions lengths candidates room j count cursor p ≡ some p'
      → Adds room count p p'
  unfolding add_generic_sessions
  add_generic_sessions-Adds room j zero cursor p {p'} v over h =
      let same : p ≡ p' = ground (arith, h) in
      subst (Adds room 0 p) same (record { sound = v; unused = λ r n u. u; grown = omega arith })
  add_generic_sessions-Adds room j (suc count) cursor p {p'} v over h =
      let ends = ends_of lengths candidates room j cursor in
      elim (Option-cases (pick_speaker (candidates room j) p.bookings cursor ends)) [
        | inl e ↦ absurd (ground (arith, e, h))
        | inr (speaker, e) ↦
            let b : Booking = record { speaker = speaker; starts_at = cursor; ends_at = ends } in
            let q = place room b p in
            let free = pick_speaker-free (candidates room j) p.bookings cursor ends e in
            let rest =
              add_generic_sessions-Adds room (suc j) count (ends + 30 * minute) q {p' = p'}
                (place-IsSound room b p v free over)
                (λ _. omega arith, later-IsOver room cursor _ p.sessions (omega arith) over)
                (rw e at h) in
            record {
              sound = rest.sound;
              unused = λ r n u. rest.unused r n (n, u);
              grown = omega (arith, rest.grown);
            }
      ]

  distribute_rooms-Adds :
      (cursor base rem k : ℕ) (rooms : List ℕ) (p : Placement) {p' : Placement}
      → IsSound p
      → Pairwise (λ a b. (a == b) ≡ false) rooms
      → All (λ r. IsUnused r p.sessions) rooms
      → rem ≤ k + length rooms
      → distribute_rooms lengths candidates cursor base rem k rooms p ≡ some p'
      → IsSound p' × (length p'.sessions ≡ length p.sessions + (length rooms * base + (rem - k)))
  unfolding distribute_rooms
  distribute_rooms-Adds cursor base rem k [] p {p'} v d u few h =
      let same : p ≡ p' = ground (arith, h) in
      subst (λ q. IsSound q × (length q.sessions ≡ length p.sessions + (0 * base + (rem - k)))) same
        (v, omega (arith, few))
  distribute_rooms-Adds cursor base rem k (room ∷ rooms) p {p'} v d u few h =
      let count = count_of base rem k in
      elim (Option-cases (add_generic_sessions lengths candidates room 0 count cursor p)) [
        | inl e ↦ absurd (ground (arith, e, h))
        | inr (q, e) ↦
            let step =
              add_generic_sessions-Adds room 0 count cursor p v
                (unused-IsOver room cursor p.sessions u.0) e in
            let (sound, rest) =
              distribute_rooms-Adds cursor base rem (suc k) rooms q step.sound d.1
                (still-IsUnused room p q step.unused rooms d.0 u.1) (omega (arith, few))
                (rw e at h) in
            (sound, ground (arith, rest, step.grown, few))
      ]

  -- Where no two of the sessions placed so far overlap in a room or for a speaker, and the schedule
  -- holds just their intervals: a distribution over rooms that are unused and different, and that
  -- does not run out of speakers, keeps this and adds exactly the number of sessions that was asked
  -- for, whatever the draws.
  pub distribute_sessions-IsSound :
      (cursor total : ℕ) (rooms : List ℕ) (p : Placement) {p' : Placement}
      → IsSound p
      → Pairwise (λ a b. (a == b) ≡ false) rooms
      → All (λ r. IsUnused r p.sessions) rooms
      → distribute_sessions lengths candidates cursor total rooms p ≡ some p'
      → IsSound p' × (length p'.sessions ≡ length p.sessions + total)
  unfolding distribute_sessions
  distribute_sessions-IsSound cursor total [] p v d u h = absurd (ground arith)
  distribute_sessions-IsSound cursor total (room ∷ rooms) p v d u h =
      let n = length (room ∷ rooms) in
      let (sound, grown) =
        distribute_rooms-Adds cursor (total / n) (total % n) 0 (room ∷ rooms) p v d u
          (omega (arith, mod-lt total {m = n} (omega arith))) h in
      (sound, omega (arith, grown, div-add-mod total n))
