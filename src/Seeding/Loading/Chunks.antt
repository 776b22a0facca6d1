-- ===== src/Seeding/Loading/Chunks.antt =====
-- The chunks of loadSessions are within PostgreSQL's limit and leave no session out.
use krane_event_management_p.Common.{
  ℕ, zero, suc, ◌+◌, ◌*◌, ◌≤◌, ◌≡◌, refl, sym, ap, ◌∙◌, Bool, false, List, [], ◌∷◌, ◌++◌, length,
  arith,
}
use mathlib.Core.List.{append-nil, append_assoc}
use krane_event_management_p.Pages.{take}
use krane_event_management_p.Seeding.{Placed}
use krane_event_management_p.Seeding.Loading.{
  drop, parameters_of, loaded, load_chunks, load_sessions,
}

take-append-drop : (n : ℕ) (xs : List Placed) → take n xs ++ drop n xs ≡ xs
take-append-drop zero xs = refl
take-append-drop (suc n) [] = refl
take-append-drop (suc n) (x ∷ xs) = ap (λ ys. x ∷ ys) (take-append-drop n xs)

length-drop : (n : ℕ) (x : Placed) (xs : List Placed) → length (drop (suc n) (x ∷ xs)) ≤ length xs
length-drop zero x xs = omega arith
length-drop (suc n) x [] = omega arith
length-drop (suc n) x (y ∷ ys) = omega (arith, length-drop n y ys)

parameters-take : (n : ℕ) (xs : List Placed) → parameters_of (take n xs) ≤ 11 * n
parameters-take zero xs = omega arith
parameters-take (suc n) [] = omega arith
parameters-take (suc n) (x ∷ xs) = omega (arith, parameters-take n xs)

module _ (refuses : ℕ → ℕ → Bool) (k : ℕ) (fits : 11 * suc k ≤ 65535)
    (accepts : (start n : ℕ) → n ≤ 65535 → refuses start n ≡ false) where
  load_chunks-all :
      (fuel start : ℕ) (left done : List Placed)
      → length left ≤ fuel
      → load_chunks refuses (suc k) fuel start left done ≡ (loaded, done ++ left)
  unfolding load_chunks
  load_chunks-all zero start [] done h = ap (λ xs. (loaded, xs)) (sym (append-nil done))
  load_chunks-all zero start (s ∷ left) done h = absurd (omega (arith, h))
  load_chunks-all (suc fuel) start [] done h = ap (λ xs. (loaded, xs)) (sym (append-nil done))
  load_chunks-all (suc fuel) start (s ∷ left) done h =
      let chunk = take (suc k) (s ∷ left) in
      let taken =
        accepts start (parameters_of chunk)
          (omega (arith, fits, parameters-take (suc k) (s ∷ left))) in
      let ih =
        load_chunks-all fuel (start + suc k) (drop (suc k) (s ∷ left)) (done ++ chunk)
          (omega (arith, h, length-drop k s left)) in
      rw taken (
        ih
        ∙ ap (λ xs. (loaded, xs))
            (append_assoc done chunk (drop (suc k) (s ∷ left))
              ∙ ap (λ xs. done ++ xs) (take-append-drop (suc k) (s ∷ left))))

pub load_sessions-all :
    (refuses : ℕ → ℕ → Bool) (sessions : List Placed)
    → ((start n : ℕ) → n ≤ 65535 → refuses start n ≡ false)
    → load_sessions refuses sessions ≡ (loaded, sessions)
unfolding load_sessions
load_sessions-all refuses sessions accepts =
    load_chunks-all refuses 999 (omega arith) accepts (length sessions) 0 sessions [] (omega arith)
