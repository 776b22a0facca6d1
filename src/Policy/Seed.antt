-- ===== src/Policy/Seed.antt =====
-- The seeded permission matrix.
use krane_event_management_p.Common.{
  not, ◌||◌, ◌&&◌, ◌≡◌, Bool, true, false, List, [], ◌∷◌, arith, ◌≢◌, ◌⊎◌,
}
use krane_event_management_p.Domain.{Role, admin, contributor, attendee}
use krane_event_management_p.Policy.{
  create, Resource, Action, PermKey, event, member, room, session, invitation, create, read, update,
  delete, assign_role, permits,
}

abbrev key : Role → Resource → Action → PermKey
key role resource action = record { role = role; resource = resource; action = action }

-- The 31 rows of the INSERT.
abbrev pub seed : List PermKey
seed =
    key admin event read
    ∷ key admin event update
    ∷ key admin event delete
    ∷ key admin member read
    ∷ key admin member create
    ∷ key admin member delete
    ∷ key admin member assign_role
    ∷ key admin room create
    ∷ key admin room read
    ∷ key admin room update
    ∷ key admin room delete
    ∷ key admin session read
    ∷ key admin session create
    ∷ key admin session update
    ∷ key admin session delete
    ∷ key admin invitation create
    ∷ key admin invitation read
    ∷ key contributor event read
    ∷ key contributor member read
    ∷ key contributor room create
    ∷ key contributor room read
    ∷ key contributor room update
    ∷ key contributor room delete
    ∷ key contributor session read
    ∷ key contributor session create
    ∷ key contributor session update
    ∷ key contributor session delete
    ∷ key contributor invitation create
    ∷ key contributor invitation read
    ∷ key attendee event read
    ∷ key attendee session read
    ∷ []

abbrev pub implies : Bool → Bool → Bool
implies a b = not a || b

-- In the seeded permissions, what an attendee may do a contributor may, and what a contributor may
-- do an admin may.
pub seed_ordered :
    (r : Resource) (a : Action)
    → (implies (permits seed attendee r a) (permits seed contributor r a)
        && implies (permits seed contributor r a) (permits seed admin r a))
      ≡ true
unfolding permits
seed_ordered r a = ground arith

-- In the seeded permissions, a role that may do something other than read to the roster or to an
-- event is admin, and not even admin may create an event through the policy.
pub seed_admin_only :
    (role : Role) (r : Resource) (a : Action)
    → permits seed role r a ≡ true
    → a ≢ read
    → (r ≡ member) ⊎ (r ≡ event)
    → (role ≡ admin) × (permits seed role event create ≡ false)
unfolding permits
seed_admin_only role r a h k c = (ground arith, ground arith)

-- No role, known or not, may create an event through the policy, and an unknown role may do nothing.
pub seed_closed :
    (role : Role) (r : Resource) (a : Action)
    → permits seed role r a ≡ true
    → (role ≡ admin) ⊎ (role ≡ contributor) ⊎ (role ≡ attendee)
unfolding permits
seed_closed role r a h = ground arith
