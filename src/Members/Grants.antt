-- ===== src/Members/Grants.antt =====
-- The escalation rule (roles.go): who may grant what.
use krane_event_management_p.Common.{
  ℕ, ◌≡◌, ◌⊎◌, true, false, List, any, ok, err, arith, Option-cases, inl, inr, find_row-mem,
  find_row-test, any-find_row, forbidden,
}
use mathlib.Core.List.{Memᴰ}
use krane_event_management_p.Domain.{Role, attendee, admin, is_admin, Member, GrantInput}
use krane_event_management_p.Store.{MemberRow, Db, Server, insert_audit}
use krane_event_management_p.Members.{
  to_member, can_grant, actor_row, is_member_of, create_member, insert_member, diagnose_create,
}
use krane_event_management_p.Members.Writes.{create_member-ok}

-- The actor has a row on the event, and either the role is attendee or that row is an admin's.
abbrev pub MayGrant : ℕ → ℕ → Role → List MemberRow → Type 0
MayGrant event actor role members =
    (m : MemberRow) × Memᴰ m members
    × (m.event_id ≡ event)
    × (m.user_id ≡ actor)
    × ((role ≡ attendee) ⊎ (m.role ≡ admin))

pub is_admin-eq : (r : Role) → is_admin r ≡ true → r ≡ admin
is_admin-eq r h = ground arith

module _ (event actor : ℕ) (role : Role) (members : List MemberRow) where
  pub can_grant-MayGrant :
      can_grant (actor_row event actor members) role ≡ true → MayGrant event actor role members
  can_grant-MayGrant h = elim (Option-cases (actor_row event actor members)) [
    | inl e ↦ ground arith
    | inr (m, e) ↦
        let t = find_row-test (is_member_of event actor) members e in
        (
          m,
          find_row-mem (is_member_of event actor) members e,
          ground arith,
          ground arith,
          ground arith,
        )
  ]

-- A successful creation of a member means that the actor has a row on the event and that the role is
-- attendee or that row is an admin's; the new member has the role and the event asked for.
pub create_member-MayGrant :
    (pg : Server) (actor event : ℕ) (input : GrantInput) (db : Db) {a : Member}
    → (create_member pg actor event input db).0 ≡ ok a
    → MayGrant event actor input.role db.members × (a.role ≡ input.role) × (a.event_id ≡ event)
unfolding to_member
create_member-MayGrant pg actor event input db h =
    let (user, _, granted, _, _, same, _) = create_member-ok pg actor event input db h in
    (can_grant-MayGrant event actor input.role db.members granted, ground arith, ground arith)

-- Where the creation of a member fails as forbidden, a user with the address exists and the actor
-- may not grant the role.
pub create_member-forbidden :
    (pg : Server) (actor event : ℕ) (input : GrantInput) (db : Db)
    → (create_member pg actor event input db).0 ≡ err forbidden
    → (any (λ u. pg.citext_eq u.email input.email) db.users ≡ true)
      × (can_grant (actor_row event actor db.members) input.role ≡ false)
unfolding create_member insert_member diagnose_create insert_audit
create_member-forbidden pg actor event input db h =
    ground (arith, any-find_row (λ u. pg.citext_eq u.email input.email) db.users)
