-- ===== src/Invitations/Addresses.antt =====
-- Who may invite, and that an event invites an address once.
use krane_event_management_p.Common.{
  ℕ, String, ◌≡◌, ◌≢◌, ◌↔◌, Bool, false, ◌==◌, ◌||◌, List, ok, err, forbidden, arith, All-of,
  Pairwise, any-false,
}
use krane_event_management_p.Domain.{GrantInput, Invitation}
use krane_event_management_p.Store.{Db, Server, Up, begin, exec, insert_audit}
use krane_event_management_p.Members.{actor_row, can_grant}
use krane_event_management_p.Members.Grants.{MayGrant, can_grant-MayGrant}
use krane_event_management_p.Invitations.{
  new_row, same_address, insert_invitation, create_body, create_invitation, invite_each,
}
use krane_event_management_p.Invitations.Writes.{
  create_invitation-ok, create_invitation-keeps, invite_each-keeps,
}

module _ (pg : Server) (actor event : ℕ) (input : GrantInput) (db : Db) where
  -- A successful invitation means that the actor has a row on the event and that the role is
  -- attendee or that row is an admin's; it has the role, the event and the address asked for.
  pub create_invitation-MayGrant :
      {a : Invitation}
      → (create_invitation pg actor event input db).0 ≡ ok a
      → MayGrant event actor input.role db.members
        × ((a.role ≡ input.role) × (a.event_id ≡ event) × (a.email ≡ input.email))
  create_invitation-MayGrant h =
      let (c, same, _) = create_invitation-ok pg actor event input db h in
      (
        can_grant-MayGrant event actor input.role db.members c.granted,
        (ground arith, ground arith, ground arith),
      )

  -- While the server answers, an invitation is refused as forbidden exactly when the actor may not
  -- grant the role, whether or not the address is invited already.
  pub create_invitation-forbidden_iff :
      Up pg
      → ((create_invitation pg actor event input db).0 ≡ err forbidden)
        ↔ (can_grant (actor_row event actor db.members) input.role ≡ false)
  unfolding create_invitation create_body insert_invitation insert_audit
  create_invitation-forbidden_iff up = ((λ h. ground arith), λ h. ground (arith, up begin, up exec))

module _ (same_email : String → String → Bool) where
  -- PRIMARY KEY (id) and invitations_event_id_email_key, of an invitation and an older one.
  abbrev pub Distinct : Invitation → Invitation → Type 0
  Distinct a b = (a.id ≢ b.id) × (a.event_id ≡ b.event_id → same_email a.email b.email ≡ false)

  abbrev pub IsInvited : Db → Type 0
  IsInvited db = Pairwise Distinct db.invitations

  same_address-Distinct :
      (pg : Server) (a b : Invitation)
      → pg.citext_eq ≡ same_email
      → (b.id == a.id || same_address pg a b) ≡ false
      → Distinct a b
  same_address-Distinct pg a b e h = let k = rw e at h in (ground arith, λ p. ground (arith, p))

  pub create_invitation-IsInvited :
      (pg : Server) (actor event : ℕ) (input : GrantInput) (db : Db)
      → pg.citext_eq ≡ same_email
      → IsInvited db
      → IsInvited (create_invitation pg actor event input db).1
  create_invitation-IsInvited pg actor event input db e v =
      create_invitation-keeps pg actor event input db IsInvited v (λ c. (
        All-of _ db.invitations (λ r m.
            same_address-Distinct pg (new_row pg event input db) r e
              (any-false _ db.invitations c.fresh m)),
        v,
      ))

  -- Where every server compares addresses alike, the loop of a bulk call keeps ids distinct and the
  -- addresses of an event's invitations pairwise unequal, with repeated addresses among the items
  -- too.
  pub invite_each-IsInvited :
      (servers : ℕ → Server) (actor event i : ℕ) (inputs : List GrantInput) (db : Db)
      → ((j : ℕ) → (servers j).citext_eq ≡ same_email)
      → IsInvited db
      → IsInvited (invite_each servers actor event i inputs db).1
  invite_each-IsInvited servers actor event i inputs db e v =
      invite_each-keeps IsInvited servers actor event
        (λ j in' d. create_invitation-IsInvited (servers j) actor event in' d (e j)) i inputs db v
