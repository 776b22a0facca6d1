-- ===== src/Seeding/Kept.antt =====
-- What holds of the placed sessions and is kept by each further one holds after a distribution.
use krane_event_management_p.Common.{
  ℕ, zero, suc, ◌+◌, ◌*◌, ◌/◌, ◌%◌, ◌<◌, ◌≡◌, refl, some, List, [], ◌∷◌, length, All, Option-cases,
  inl, inr, arith, subst,
}
use krane_event_management_p.Seeding.{
  Booking, pick_speaker, Placed, minute, Placement, place, ends_of, add_generic_sessions, count_of,
  distribute_rooms, distribute_sessions,
}

module _ {κ} (lengths : ℕ → ℕ → ℕ) (candidates : ℕ → ℕ → List ℕ) (Q : List Placed → Type κ) where
  pub add_generic_sessions-keeps :
      (room j count cursor : ℕ) (p : Placement) {p' : Placement}
      → ((s : Placed) (xs : List Placed)
          → s.room ≡ room
          → s.booking.starts_at < s.booking.ends_at
          → Q xs
          → Q (s ∷ xs))
      → Q p.sessions
      → add_generic_sessions lengths candidates room j count cursor p ≡ some p'
      → Q p'.sessions
  unfolding add_generic_sessions
  add_generic_sessions-keeps room j zero cursor p {p'} k q h =
      let same : p ≡ p' = ground (arith, h) in subst (λ x. Q x.sessions) same q
  add_generic_sessions-keeps room j (suc count) cursor p {p'} k q h =
      let ends = ends_of lengths candidates room j cursor in
      elim (Option-cases (pick_speaker (candidates room j) p.bookings cursor ends)) [
        | inl e ↦ absurd (ground (arith, e, h))
        | inr (speaker, e) ↦
            let b : Booking = record { speaker = speaker; starts_at = cursor; ends_at = ends } in
            add_generic_sessions-keeps room (suc j) count (ends + 30 * minute) (place room b p)
              {p' = p'} k (k (record { room = room; booking = b }) p.sessions refl (omega arith) q)
              (rw e at h)
      ]

  distribute_rooms-keeps :
      (cursor base rem n : ℕ) (rooms : List ℕ) (p : Placement) {p' : Placement}
      → All
          (λ room.
            (s : Placed) (xs : List Placed)
            → s.room ≡ room
            → s.booking.starts_at < s.booking.ends_at
            → Q xs
            → Q (s ∷ xs))
          rooms
      → Q p.sessions
      → distribute_rooms lengths candidates cursor base rem n rooms p ≡ some p'
      → Q p'.sessions
  unfolding distribute_rooms
  distribute_rooms-keeps cursor base rem n [] p {p'} k q h =
      let same : p ≡ p' = ground (arith, h) in subst (λ x. Q x.sessions) same q
  distribute_rooms-keeps cursor base rem n (room ∷ rooms) p {p'} k q h =
      let count = count_of base rem n in
      elim (Option-cases (add_generic_sessions lengths candidates room 0 count cursor p)) [
        | inl e ↦ absurd (ground (arith, e, h))
        | inr (p1, e) ↦
            distribute_rooms-keeps cursor base rem (suc n) rooms p1 k.1
              (add_generic_sessions-keeps room 0 count cursor p k.0 q e) (rw e at h)
      ]

  pub distribute_sessions-keeps :
      (cursor total : ℕ) (rooms : List ℕ) (p : Placement) {p' : Placement}
      → All
          (λ room.
            (s : Placed) (xs : List Placed)
            → s.room ≡ room
            → s.booking.starts_at < s.booking.ends_at
            → Q xs
            → Q (s ∷ xs))
          rooms
      → Q p.sessions
      → distribute_sessions lengths candidates cursor total rooms p ≡ some p'
      → Q p'.sessions
  unfolding distribute_sessions
  distribute_sessions-keeps cursor total [] p k q h = absurd (ground arith)
  distribute_sessions-keeps cursor total (room ∷ rooms) p k q h =
      let n = length (room ∷ rooms) in
      distribute_rooms-keeps cursor (total / n) (total % n) 0 (room ∷ rooms) p k q h
