-- ===== src/Events/Writes.antt =====
-- What the writes of events leave when they succeed.
use krane_event_management_p.Common.{
  ℕ, ◌≡◌, ◌<◌, sym, subst, false, ◌==◌, ◌||◌, none, some, ◌∷◌, any, find_row, update_row, ok, arith,
  Option-cases, inl, inr,
}
use krane_event_management_p.Domain.{Event, EventInput}
use krane_event_management_p.Store.{
  EventRow, Db, Server, event, event_member, AuditAction, create, of_event, of_member, insert_audit,
}
use krane_event_management_p.Store.Laws.{in_tx-ok, in_tx-keeps}
use krane_event_management_p.Members.{is_member_of}
use krane_event_management_p.Events.{
  to_event, new_row, creator_row, create_body, create_event, gated, write_body, versioned_write,
}

-- The event and the membership, each with its audit row.
abbrev pub created : Server → ℕ → EventInput → Db → Db
created pg actor input db = record db {
  events = new_row pg input ∷ db.events;
  members = creator_row pg actor ∷ db.members;
  audit_log =
      (record {
        actor_id = actor;
        entity_type = event_member;
        entity_id = pg.member_uuid;
        action = create;
        before = none;
        after = some (of_member (creator_row pg actor));
      })
      ∷ (record {
        actor_id = actor;
        entity_type = event;
        entity_id = pg.uuid;
        action = create;
        before = none;
        after = some (of_event (new_row pg input));
      })
      ∷ db.audit_log;
}

module _ (pg : Server) (actor : ℕ) (input : EventInput) (db : Db) where
  pub record Accepted : Type 0 where
    pub bounded : input.starts_at < input.ends_at
    pub fresh : any (λ e. e.id == pg.uuid) db.events ≡ false
    pub fresh_member :
        any (λ m. m.id == pg.member_uuid || is_member_of pg.uuid actor m) db.members ≡ false

  create_body-ok :
      {a : Event} {db' : Db}
      → create_body pg actor input db ≡ ok (a, db')
      → Accepted × (a ≡ to_event (new_row pg input)) × (db' ≡ created pg actor input db)
  unfolding create_body insert_audit
  create_body-ok h = (
    record { bounded = ground arith; fresh = ground arith; fresh_member = ground arith },
    ground arith,
    ground arith,
  )

  pub create_event-ok :
      {a : Event}
      → (create_event pg actor input db).0 ≡ ok a
      → Accepted
        × (a ≡ to_event (new_row pg input))
        × ((create_event pg actor input db).1 ≡ created pg actor input db)
  unfolding create_event
  create_event-ok h = create_body-ok (in_tx-ok pg (create_body pg actor input) db h)

  pub create_event-keeps {κ} :
      (P : Db → Type κ)
      → P db
      → (Accepted → P (created pg actor input db))
      → P (create_event pg actor input db).1
  unfolding create_event
  create_event-keeps P h k =
      in_tx-keeps pg (create_body pg actor input) db P h
        (λ a db' q. let (v, _, same) = create_body-ok q in subst P (sym same) (k v))

abbrev pub written : ℕ → ℕ → ℕ → AuditAction → (EventRow → EventRow) → EventRow → Db → Db
written actor id version action change old db = record db {
  events = update_row (gated id version) change db.events;
  audit_log =
      (record {
        actor_id = actor;
        entity_type = event;
        entity_id = id;
        action = action;
        before = some (of_event old);
        after = some (of_event (change old));
      })
      ∷ db.audit_log;
}

module _ (pg : Server) (actor id version : ℕ) (action : AuditAction) (change : EventRow → EventRow)
    (db : Db) where
  pub record Changed : Type 0 where
    pub old : EventRow
    pub found : find_row (gated id version) db.events ≡ some old
    pub bounded : (change old).starts_at < (change old).ends_at

  write_body-ok :
      {a : Event} {db' : Db}
      → write_body pg actor id version action change db ≡ ok (a, db')
      → (c : Changed) × (a ≡ to_event (change c.old))
        × (db' ≡ written actor id version action change c.old db)
  unfolding write_body insert_audit
  write_body-ok h = elim (Option-cases (find_row (gated id version) db.events)) [
    | inl e ↦ ground arith
    | inr (old, e) ↦
        (record { old = old; found = e; bounded = ground arith }, ground arith, ground arith)
  ]

  pub versioned_write-ok :
      {a : Event}
      → (versioned_write pg actor id version action change db).0 ≡ ok a
      → (c : Changed) × (a ≡ to_event (change c.old))
        × ((versioned_write pg actor id version action change db).1
            ≡ written actor id version action change c.old db)
  unfolding versioned_write
  versioned_write-ok h =
      write_body-ok (in_tx-ok pg (write_body pg actor id version action change) db h)

  pub versioned_write-keeps {κ} :
      (P : Db → Type κ)
      → P db
      → ((c : Changed) → P (written actor id version action change c.old db))
      → P (versioned_write pg actor id version action change db).1
  unfolding versioned_write
  versioned_write-keeps P h k =
      in_tx-keeps pg (write_body pg actor id version action change) db P h
        (λ a db' q. let (c, _, same) = write_body-ok q in subst P (sym same) (k c))
