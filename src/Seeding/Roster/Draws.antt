-- ===== src/Seeding/Roster/Draws.antt =====
-- The loop of pickDistinctUsers: what it picks, and that it ends once every user was drawn.
use krane_event_management_p.Common.{
  ℕ, zero, suc, ◌-◌, min, ◌≤◌, ◌≡◌, refl, true, false, ◌==◌, ◌||◌, none, some, List, [], ◌∷◌, ◌++◌,
  length, remove_row, any-remove_row, any-true, any-append, length-append, All, All_mono, All-get,
  Pairwise, arith, Bool-cases, Option-cases, inl, inr, subst, ◌≢◌, ◌∙◌,
}
use krane_event_management_p.Seeding.Roster.{contains, pick_loop, pick_distinct_users}

abbrev pub AllDistinct : List ℕ → Type 0
AllDistinct = Pairwise (λ u v. (u == v) ≡ false)

-- The picks are as many as asked for, distinct, and neither seen before nor excluded.
pub record IsPick (exclude seen : List ℕ) (n : ℕ) (us : List ℕ) : Type 0 where
  pub number : length us ≡ n
  pub distinct : AllDistinct us
  pub fresh : All (λ u. (contains u seen || contains u exclude) ≡ false) us

apart_of_seen :
    (exclude seen : List ℕ) (u : ℕ) (us : List ℕ)
    → All (λ v. (contains v (u ∷ seen) || contains v exclude) ≡ false) us
    → All (λ v. (u == v) ≡ false) us × All (λ v. (contains v seen || contains v exclude) ≡ false) us
apart_of_seen exclude seen u [] h = (tt, tt)
apart_of_seen exclude seen u (v ∷ us) h =
    let (apart, fresh) = apart_of_seen exclude seen u us h.1 in
    ((ground (arith, h.0), apart), (ground (arith, h.0), fresh))

pub pick_loop-IsPick :
    (exclude seen : List ℕ) (n : ℕ) (draws : List ℕ) {us rest : List ℕ}
    → pick_loop exclude seen n draws ≡ some (us, rest)
    → IsPick exclude seen n us
unfolding pick_loop
pick_loop-IsPick exclude seen zero draws {us} h =
    let none_picked : [] ≡ us = ground (arith, h) in
    subst (IsPick exclude seen 0) none_picked (record { number = refl; distinct = tt; fresh = tt })
pick_loop-IsPick exclude seen (suc n) [] h = absurd (ground (arith, h))
pick_loop-IsPick exclude seen (suc n) (u ∷ draws) {us} {rest} h =
    elim (Bool-cases (contains u seen || contains u exclude)) [
      | inl old ↦ pick_loop-IsPick exclude seen (suc n) draws (rw (old, pick_loop) at h)
      | inr new ↦ elim (Option-cases (pick_loop exclude (u ∷ seen) n draws)) [
        | inl e ↦ absurd (ground (arith, e, new, h))
        | inr ((vs, left), e) ↦
            let ih = pick_loop-IsPick exclude (u ∷ seen) n draws e in
            let (apart, fresh) = apart_of_seen exclude seen u vs ih.fresh in
            let same : u ∷ vs ≡ us = ground (arith, e, new, h) in
            subst (IsPick exclude seen (suc n)) same (record {
              number = ground (arith, ih.number);
              distinct = (apart, ih.distinct);
              fresh = (new, fresh);
            })
      ]
    ]

abbrev Within : List ℕ → List ℕ → List ℕ → List ℕ → Type 0
Within more seen exclude =
    All (λ u. (contains u more || (contains u seen || contains u exclude)) ≡ true)

-- Where the loop has not ended, all draws are among those seen, those excluded and fewer than `n` more.
pick_loop-none :
    (exclude seen : List ℕ) (n : ℕ) (draws : List ℕ)
    → pick_loop exclude seen (suc n) draws ≡ none
    → (more : List ℕ) × (length more ≤ n) × Within more seen exclude draws
unfolding pick_loop
pick_loop-none exclude seen n [] h = ([], omega arith, tt)
pick_loop-none exclude seen zero (u ∷ draws) h =
    elim (Bool-cases (contains u seen || contains u exclude)) [
      | inl old ↦
          let (more, few, inside) =
            pick_loop-none exclude seen zero draws (rw (old, pick_loop) at h) in
          (more, few, (ground (arith, old), inside))
      | inr new ↦ absurd (ground (arith, new, h))
    ]
pick_loop-none exclude seen (suc n) (u ∷ draws) h =
    elim (Bool-cases (contains u seen || contains u exclude)) [
      | inl old ↦
          let (more, few, inside) =
            pick_loop-none exclude seen (suc n) draws (rw (old, pick_loop) at h) in
          (more, few, (ground (arith, old), inside))
      | inr new ↦
          let (more, few, inside) =
            pick_loop-none exclude (u ∷ seen) n draws (ground (arith, new, h)) in
          (
            u ∷ more,
            omega (arith, few),
            (ground arith, All_mono _ _ draws inside (λ v k. ground (arith, k))),
          )
    ]

length-remove_row :
    (u : ℕ) (us : List ℕ)
    → contains u us ≡ true
    → suc (length (remove_row (λ v. v == u) us)) ≡ length us
length-remove_row u [] h = absurd (ground (arith, h))
length-remove_row u (v ∷ us) h = ground (arith, h, length-remove_row u us)

contains-remove_row :
    (u : ℕ) (us vs : List ℕ)
    → All (λ w. (u == w) ≡ false) us
    → All (λ w. contains w vs ≡ true) us
    → All (λ w. contains w (remove_row (λ v. v == u) vs) ≡ true) us
contains-remove_row u [] vs d h = tt
contains-remove_row u (w ∷ us) vs d h = (
  any-remove_row (λ v. v == u) (λ v. v == w) vs h.0 (λ x p q. ground (arith, d.0)),
  contains-remove_row u us vs d.1 h.1,
)

-- Distinct users that all stand in a list are no more than its entries.
length-within :
    (us vs : List ℕ) → AllDistinct us → All (λ u. contains u vs ≡ true) us → length us ≤ length vs
length-within [] vs d h = omega arith
length-within (u ∷ us) vs d h = omega (
  arith,
  length-within us (remove_row (λ v. v == u) vs) d.1 (contains-remove_row u us vs d.0 h.1),
  length-remove_row u vs h.0,
)

-- A user that was drawn is among the ones picked and the ones excluded.
All-drawn :
    (more exclude draws us : List ℕ)
    → Within more [] exclude draws
    → All (λ u. contains u draws ≡ true) us
    → All (λ u. contains u (more ++ exclude) ≡ true) us
All-drawn more exclude draws [] w h = tt
All-drawn more exclude draws (u ∷ us) w h =
    let (x, m, q) = any-true (λ v. v == u) draws h.0 in
    let same : x ≡ u = ground (arith, q) in
    let inside =
      subst (λ z. (contains z more || contains z exclude) ≡ true) same (All-get _ draws w m) in
    (any-append (λ v. v == u) more exclude ∙ inside, All-drawn more exclude draws us w h.1)

module _ (users exclude draws : List ℕ) (apart : AllDistinct users)
    (all : All (λ u. contains u draws ≡ true) users) where
  pick_loop-ends : (n : ℕ) → n ≤ length users - length exclude → pick_loop exclude [] n draws ≢ none
  unfolding pick_loop
  pick_loop-ends zero few h = absurd (ground (arith, h))
  pick_loop-ends (suc n) few h =
      let (more, short, inside) = pick_loop-none exclude [] n draws h in
      absurd (
        omega (
          arith,
          few,
          short,
          length-append more exclude,
          length-within users (more ++ exclude) apart
              (All-drawn more exclude draws users inside all),
        ))

  -- Among distinct users: once every user was drawn the loop of pickDistinctUsers has ended, with as
  -- many users as were asked for, or as many as are left beside the excluded ones; they are distinct
  -- and none of them is excluded.
  pub pick_distinct_users-ends :
      (n : ℕ)
      → (us rest : List ℕ) × (pick_distinct_users users n exclude draws ≡ some (us, rest))
        × IsPick exclude [] (min n (length users - length exclude)) us
  unfolding pick_distinct_users
  pick_distinct_users-ends n =
      let k = min n (length users - length exclude) in
      elim (Option-cases (pick_loop exclude [] k draws)) [
        | inl e ↦ absurd (pick_loop-ends k (omega arith) e)
        | inr ((us, rest), e) ↦ (us, rest, e, pick_loop-IsPick exclude [] k draws e)
      ]
