-- ===== src/Seeding/Generator/Guests.antt =====
-- addInvitations: as many as configured, and no address twice in an event.
use krane_event_management_p.Common.{
  ℕ, zero, suc, ◌+◌, ◌-◌, ◌≤◌, ◌≡◌, Bool, false, ◌==◌, ◌&&◌, none, some, List, [], ◌∷◌, length, All,
  All_mono, Pairwise, arith, Option-cases, inl, inr, subst,
}
use krane_event_management_p.Seeding.Generator.{
  Config, Draws, Address, account, external, SeedInvitation, pick_role, invite_accounts,
  invite_externals, add_invitations,
}
use krane_event_management_p.Seeding.Roster.Draws.{AllDistinct}

abbrev pub same_email : Address → Address → Bool
same_email (account u) (account v) = u == v
same_email (external s n) (external t m) = s == t && n == m
same_email (account u) (external t m) = false
same_email (external s n) (account v) = false

-- UNIQUE (event_id, email)
abbrev pub AreInvitedOnce : List SeedInvitation → Type 0
AreInvitedOnce = Pairwise (λ a b. (a.event_id == b.event_id && same_email a.email b.email) ≡ false)

-- The address is not yet invited to the event.
abbrev IsFree : ℕ → Address → List SeedInvitation → Type 0
IsFree event email = All (λ i. (event == i.event_id && same_email email i.email) ≡ false)

-- The invitations that were added, before the earlier ones.
pub record Invites (event n : ℕ) (xs ys : List SeedInvitation) : Type 0 where
  pub once : AreInvitedOnce ys
  pub number : length ys ≡ length xs + n
  pub others :
      (e : ℕ)
      → (event == e) ≡ false
      → All (λ i. (i.event_id == e) ≡ false) xs
      → All (λ i. (i.event_id == e) ≡ false) ys

module _ (event seq : ℕ) (roles : ℕ → ℕ) where
  abbrev guest : ℕ → ℕ → SeedInvitation
  guest n u = record {
    event_id = event;
    user_id = some u;
    email = account u;
    role = pick_role (roles n);
  }

  abbrev stranger : ℕ → SeedInvitation
  stranger n = record {
    event_id = event;
    user_id = none;
    email = external seq n;
    role = pick_role (roles n);
  }

  all-IsFree :
      (n u : ℕ) (us : List ℕ) (xs : List SeedInvitation)
      → All (λ v. (u == v) ≡ false) us
      → All (λ v. IsFree event (account v) xs) us
      → All (λ v. IsFree event (account v) (guest n u ∷ xs)) us
  all-IsFree n u [] xs d h = tt
  all-IsFree n u (v ∷ us) xs d h = ((ground (arith, d.0), h.0), all-IsFree n u us xs d.1 h.1)

  invite_accounts-Invites :
      (n : ℕ) (order : List ℕ) (xs : List SeedInvitation) {ys : List SeedInvitation}
      → AreInvitedOnce xs
      → AllDistinct order
      → All (λ v. IsFree event (account v) xs) order
      → ((m : ℕ) → IsFree event (external seq m) xs)
      → invite_accounts event roles n order xs ≡ some ys
      → Invites event n xs ys × ((m : ℕ) → IsFree event (external seq m) ys)
  unfolding invite_accounts
  invite_accounts-Invites zero order xs {ys} once d free ext h =
      let same : xs ≡ ys = ground (arith, h) in
      subst (λ zs. Invites event 0 xs zs × ((m : ℕ) → IsFree event (external seq m) zs)) same
        (record { once = once; number = omega arith; others = λ e o k. k }, ext)
  invite_accounts-Invites (suc n) [] xs once d free ext h = absurd (ground (arith, h))
  invite_accounts-Invites (suc n) (u ∷ order) xs {ys} once d free ext h =
      let (rest, ext') =
        invite_accounts-Invites n order (guest n u ∷ xs) {ys = ys} (free.0, once) d.1
          (all-IsFree n u order xs d.0 free.1) (λ m. (ground arith, ext m)) h in
      (
        record {
          once = rest.once;
          number = omega (arith, rest.number);
          others = λ e o k. rest.others e o (o, k);
        },
        ext',
      )

  invite_externals-Invites :
      (n left : ℕ) (xs : List SeedInvitation)
      → AreInvitedOnce xs
      → ((m : ℕ) → n ≤ m → IsFree event (external seq m) xs)
      → Invites event left xs (invite_externals event roles seq n left xs)
  unfolding invite_externals
  invite_externals-Invites n zero xs once free = record {
    once = once;
    number = omega arith;
    others = λ e o k. k;
  }
  invite_externals-Invites n (suc left) xs once free =
      let rest =
        invite_externals-Invites (suc n) left (stranger n ∷ xs) (free n (omega arith), once)
          (λ m le. (ground (arith, le), free m (omega (arith, le)))) in
      record {
        once = rest.once;
        number = omega (arith, rest.number);
        others = λ e o k. rest.others e o (o, k);
      }

IsFree-of_event :
    (event : ℕ) (email : Address) (xs : List SeedInvitation)
    → All (λ i. (i.event_id == event) ≡ false) xs
    → IsFree event email xs
IsFree-of_event event email xs h = All_mono _ _ xs h (λ i k. ground (arith, k))

IsFree-all :
    (event : ℕ) (us : List ℕ) (xs : List SeedInvitation)
    → All (λ i. (i.event_id == event) ≡ false) xs
    → All (λ v. IsFree event (account v) xs) us
IsFree-all event [] xs h = tt
IsFree-all event (u ∷ us) xs h = (IsFree-of_event event (account u) xs h, IsFree-all event us xs h)

pub add_invitations-Invites :
    (real_count : ℕ → ℕ) (cfg : Config) (d : Draws) (event seq : ℕ) (xs : List SeedInvitation)
    {ys : List SeedInvitation}
    → AreInvitedOnce xs
    → All (λ i. (i.event_id == event) ≡ false) xs
    → AllDistinct d.order
    → real_count cfg.invitations_per_event ≤ cfg.invitations_per_event
    → add_invitations real_count cfg d event seq xs ≡ some ys
    → Invites event cfg.invitations_per_event xs ys
unfolding add_invitations
add_invitations-Invites real_count cfg d event seq xs {ys} once fresh distinct le h =
    let real = real_count cfg.invitations_per_event in
    elim (Option-cases (invite_accounts event d.account_roles real d.order xs)) [
      | inl e ↦ absurd (ground (arith, e, h))
      | inr (zs, e) ↦
          let (first, ext) =
            invite_accounts-Invites event seq d.account_roles real d.order xs once distinct
              (IsFree-all event d.order xs fresh)
              (λ m. IsFree-of_event event (external seq m) xs fresh) e in
          let second =
            invite_externals-Invites event seq d.external_roles 1 (cfg.invitations_per_event - real)
              zs first.once (λ m l. ext m) in
          let same : invite_externals event d.external_roles seq 1
                (cfg.invitations_per_event - real) zs
              ≡ ys =
            ground (arith, e, h) in
          subst (Invites event cfg.invitations_per_event xs) same (record {
            once = second.once;
            number = omega (arith, first.number, second.number, le);
            others = λ x o k. second.others x o (first.others x o k);
          })
    ]
