-- ===== src/Invitations/Writes.antt =====
-- What a single invitation leaves when it succeeds, and what holds through a bulk call.
use krane_event_management_p.Common.{
  ℕ, suc, ◌≡◌, sym, subst, true, false, ◌==◌, ◌||◌, none, some, List, [], ◌∷◌, any, Result, ok, err,
  arith,
}
use krane_event_management_p.Domain.{GrantInput, Invitation, BulkItemResult, is_known}
use krane_event_management_p.Store.{Db, Server, invitation, create, of_invitation, insert_audit}
use krane_event_management_p.Store.Laws.{in_tx-ok, in_tx-keeps}
use krane_event_management_p.Members.{actor_row, can_grant}
use krane_event_management_p.Invitations.{
  new_row, same_address, insert_invitation, create_body, create_invitation, outcome_of, after_round,
  invite_each,
}

abbrev pub created : ℕ → Invitation → Db → Db
created actor row db = record db {
  invitations = row ∷ db.invitations;
  audit_log =
      (record {
        actor_id = actor;
        entity_type = invitation;
        entity_id = row.id;
        action = create;
        before = none;
        after = some (of_invitation row);
      })
      ∷ db.audit_log;
}

module _ (pg : Server) (actor event : ℕ) (input : GrantInput) (db : Db) where
  pub record Accepted : Type 0 where
    pub granted : can_grant (actor_row event actor db.members) input.role ≡ true
    pub known : is_known input.role ≡ true
    pub fresh :
        any (λ r. r.id == pg.uuid || same_address pg (new_row pg event input db) r) db.invitations
        ≡ false

  create_body-ok :
      {a : Invitation} {db' : Db}
      → create_body pg actor event input db ≡ ok (a, db')
      → Accepted
        × (a ≡ new_row pg event input db)
        × (db' ≡ created actor (new_row pg event input db) db)
  unfolding create_body insert_invitation insert_audit
  create_body-ok h = (
    record { granted = ground arith; known = ground arith; fresh = ground arith },
    ground arith,
    ground arith,
  )

  pub create_invitation-ok :
      {a : Invitation}
      → (create_invitation pg actor event input db).0 ≡ ok a
      → Accepted
        × (a ≡ new_row pg event input db)
        × ((create_invitation pg actor event input db).1
            ≡ created actor (new_row pg event input db) db)
  unfolding create_invitation
  create_invitation-ok h = create_body-ok (in_tx-ok pg (create_body pg actor event input) db h)

  pub create_invitation-keeps {κ} :
      (P : Db → Type κ)
      → P db
      → (Accepted → P (created actor (new_row pg event input db) db))
      → P (create_invitation pg actor event input db).1
  unfolding create_invitation
  create_invitation-keeps P h k =
      in_tx-keeps pg (create_body pg actor event input) db P h
        (λ a db' q. let (v, _, same) = create_body-ok q in subst P (sym same) (k v))

module _ {κ} (P : Db → Type κ) where
  after_round-keeps :
      (o : Result BulkItemResult) (db : Db) (rest : Result (List BulkItemResult) × Db)
      → P db
      → P rest.1
      → P (after_round o db rest).1
  after_round-keeps (ok r) db (ok rs, db') h k = k
  after_round-keeps (ok r) db (err e, db') h k = k
  after_round-keeps (err e) db rest h k = h

  -- An invariant of Create on each server of the loop is one of the loop.
  pub invite_each-keeps :
      (servers : ℕ → Server) (actor event : ℕ)
      → ((i : ℕ) (in' : GrantInput) (d : Db)
          → P d
          → P (create_invitation (servers i) actor event in' d).1)
      → (i : ℕ) (inputs : List GrantInput) (db : Db) → P db
      → P (invite_each servers actor event i inputs db).1
  unfolding invite_each
  invite_each-keeps servers actor event kept i [] db h = h
  invite_each-keeps servers actor event kept i (input ∷ inputs) db h =
      let made = create_invitation (servers i) actor event input db in
      let here = kept i input db h in
      after_round-keeps (outcome_of input.email made.0) made.1 _ here
        (invite_each-keeps servers actor event kept (suc i) inputs made.1 here)
