-- ===== src/Sessions/Writes.antt =====
-- What the writes of sessions leave when they succeed.
use krane_event_management_p.Common.{
  ℕ, ◌≡◌, refl, sym, subst, true, false, ◌==◌, ◌&&◌, ltb, Option, none, some, List, ◌∷◌, any,
  find_row, update_row, Result, Error, ok, err, arith, Option-cases, inl, inr,
}
use krane_event_management_p.Domain.{Room, Session, SessionInput}
use krane_event_management_p.Store.{
  SessionRow, SessionException, Db, Server, session, AuditAction, AuditEntry, create, of_session,
  insert_audit, fits_int4, has_user,
}
use krane_event_management_p.Store.Laws.{in_tx-ok, in_tx-keeps, in_tx-err}
use krane_event_management_p.Sessions.{
  excludes, to_session, new_row, create_body, create_session, gated, exception_of, write_body,
  versioned_write,
}

abbrev pub entry_of : ℕ → ℕ → AuditAction → Option SessionRow → SessionRow → AuditEntry
entry_of actor id action before after = record {
  actor_id = actor;
  entity_type = session;
  entity_id = id;
  action = action;
  before = elim before [ none ↦ none | some old ↦ some (of_session old) ];
  after = some (of_session after);
}

abbrev pub created : ℕ → SessionRow → Db → Db
created actor row db = record db {
  sessions = row ∷ db.sessions;
  audit_log = entry_of actor row.id create none row ∷ db.audit_log;
}

module _ (pg : Server) (actor event : ℕ) (input : SessionInput) (db : Db) where
  -- What the INSERT has checked of the room and of the new row.
  pub record Accepted : Type 0 where
    pub room :
        (r : Room) × (find_row (λ r. r.id == input.room_id && r.event_id == event) db.rooms
          ≡ some r)
    pub bounded : ltb input.starts_at input.ends_at ≡ true
    pub fresh : any (λ r. r.id == pg.uuid) db.sessions ≡ false
    pub free : any (excludes (new_row pg event input)) db.sessions ≡ false
    pub speaker : has_user input.speaker_id db ≡ true

  create_body-ok :
      {a : Session} {db' : Db}
      → create_body pg actor event input db ≡ ok (a, db')
      → Accepted
        × (a ≡ to_session (new_row pg event input))
        × (db' ≡ created actor (new_row pg event input) db)
  unfolding create_body insert_audit
  create_body-ok h =
      elim (Option-cases (find_row (λ r. r.id == input.room_id && r.event_id == event) db.rooms)) [
        | inl e ↦ ground arith
        | inr (r, e) ↦ (
          record {
            room = (r, e);
            bounded = ground arith;
            fresh = ground arith;
            free = ground arith;
            speaker = ground arith;
          },
          ground arith,
          ground arith,
        )
      ]

  pub create_session-ok :
      {a : Session}
      → (create_session pg actor event input db).0 ≡ ok a
      → Accepted
        × (a ≡ to_session (new_row pg event input))
        × ((create_session pg actor event input db).1 ≡ created actor (new_row pg event input) db)
  unfolding create_session
  create_session-ok h = create_body-ok (in_tx-ok pg (create_body pg actor event input) db h)

  pub create_session-times :
      {a : Session}
      → (create_session pg actor event input db).0 ≡ ok a
      → (a.starts_at ≡ input.starts_at) × (a.ends_at ≡ input.ends_at)
  unfolding to_session
  create_session-times h =
      let (_, same, _) = create_session-ok h in (ground (arith, same), ground (arith, same))

  pub create_session-keeps {κ} :
      (P : Db → Type κ)
      → P db
      → (Accepted → P (created actor (new_row pg event input) db))
      → P (create_session pg actor event input db).1
  unfolding create_session
  create_session-keeps P h k =
      in_tx-keeps pg (create_body pg actor event input) db P h
        (λ a db' q. let (v, _, same) = create_body-ok q in subst P (sym same) (k v))

  pub create_session-err :
      {e : Error}
      → (create_session pg actor event input db).0 ≡ err e
      → (create_session pg actor event input db).1 ≡ db
  unfolding create_session
  create_session-err h = in_tx-err pg (create_body pg actor event input) db h

-- The exceptions after a write that turned `old` into `new`.
abbrev pub noted :
    AuditAction → SessionRow → SessionRow → List SessionException → List SessionException
noted action old new exceptions = elim new.series_id [
  | none ↦ exceptions
  | some series ↦ exception_of action series new.id old.starts_at ∷ exceptions
]

abbrev pub written : ℕ → ℕ → ℕ → ℕ → AuditAction → SessionRow → SessionRow → Db → Db
written actor event id version action old new db = record db {
  sessions = update_row (gated event id version) (λ _. new) db.sessions;
  exceptions = noted action old new db.exceptions;
  audit_log = entry_of actor id action (some old) new ∷ db.audit_log;
}

module _ (pg : Server) (actor event id version : ℕ) (action : AuditAction)
    (change : SessionRow → Result SessionRow) (db : Db) where
  -- The row that a write changed, and what it became.
  pub record Changed (new : SessionRow) : Type 0 where
    pub old : SessionRow
    pub found : find_row (gated event id version) db.sessions ≡ some old
    pub sent : fits_int4 version ≡ true
    pub changed : change old ≡ ok new

  write_old :
      {a : Session} {db' : Db} (old : SessionRow) (r : Result SessionRow)
      → find_row (gated event id version) db.sessions ≡ some old
      → change old ≡ r
      → write_body pg actor event id version action change db ≡ ok (a, db')
      → (new : SessionRow) × (r ≡ ok new)
        × (fits_int4 version ≡ true)
        × (a ≡ to_session new)
        × (db' ≡ written actor event id version action old new db)
  unfolding write_body insert_audit
  write_old old (err e) f c h = ground arith
  write_old old (ok new) f c h = (new, refl, ground arith, ground arith, ground arith)

  write_body-ok :
      {a : Session} {db' : Db}
      → write_body pg actor event id version action change db ≡ ok (a, db')
      → (new : SessionRow) × (c : Changed new) × (a ≡ to_session new)
        × (db' ≡ written actor event id version action c.old new db)
  unfolding write_body
  write_body-ok h = elim (Option-cases (find_row (gated event id version) db.sessions)) [
    | inl e ↦ ground arith
    | inr (old, e) ↦
        let (new, c, sent, same, after) = write_old old (change old) e refl h in
        (new, record { old = old; found = e; sent = sent; changed = c }, same, after)
  ]

  pub versioned_write-ok :
      {a : Session}
      → (versioned_write pg actor event id version action change db).0 ≡ ok a
      → (new : SessionRow) × (c : Changed new) × (a ≡ to_session new)
        × ((versioned_write pg actor event id version action change db).1
            ≡ written actor event id version action c.old new db)
  unfolding versioned_write
  versioned_write-ok h =
      write_body-ok (in_tx-ok pg (write_body pg actor event id version action change) db h)

  pub versioned_write-keeps {κ} :
      (P : Db → Type κ)
      → P db
      → ((new : SessionRow) (c : Changed new)
          → P (written actor event id version action c.old new db))
      → P (versioned_write pg actor event id version action change db).1
  unfolding versioned_write
  versioned_write-keeps P h k =
      in_tx-keeps pg (write_body pg actor event id version action change) db P h
        (λ a db' q. let (new, c, _, same) = write_body-ok q in subst P (sym same) (k new c))
