-- ===== src/Rooms/Writes.antt =====
-- What the writes of rooms leave when they succeed.
use krane_event_management_p.Common.{
  ℕ, ◌≡◌, sym, subst, true, false, not, ◌==◌, ◌&&◌, ◌||◌, Option, none, some, ◌∷◌, any, find_row,
  update_row, remove_row, ok, err, internal, if◌then◌else◌, version_mismatch, any-of_find_row,
  arith, Option-cases, inl, inr,
}
use krane_event_management_p.Domain.{Room, RoomInput, RoomPatch}
use krane_event_management_p.Store.{
  Db, Server, Up, begin, exec, diagnose, Snapshot, room, AuditAction, AuditEntry, create, update,
  delete, of_room, insert_audit, fits_int4,
}
use krane_event_management_p.Store.Laws.{in_tx-ok, in_tx-keeps}
use krane_event_management_p.Rooms.{
  is_row, diagnose_write, same_name, has_capacity, new_row, insert_room, create_body, create_room,
  gated, patched_row, patch_encodes, update_body, update_room, is_referenced, delete_body,
  delete_room,
}

abbrev pub snapshot : Option Room → Option Snapshot
snapshot none = none
snapshot (some r) = some (of_room r)

abbrev pub entry_of : ℕ → ℕ → AuditAction → Option Room → Option Room → AuditEntry
entry_of actor id action before after = record {
  actor_id = actor;
  entity_type = room;
  entity_id = id;
  action = action;
  before = snapshot before;
  after = snapshot after;
}

abbrev pub created : ℕ → Room → Db → Db
created actor row db = record db {
  rooms = row ∷ db.rooms;
  audit_log = entry_of actor row.id create none (some row) ∷ db.audit_log;
}

module _ (pg : Server) (actor event : ℕ) (input : RoomInput) (db : Db) where
  -- What the INSERT has checked.
  pub record Accepted : Type 0 where
    pub fresh : any (λ r. r.id == pg.uuid || same_name (new_row pg event input) r) db.rooms ≡ false
    pub capacity : has_capacity input.capacity ≡ true
    pub known : any (λ e. e.id == event) db.events ≡ true

  create_body-ok :
      {a : Room} {db' : Db}
      → create_body pg actor event input db ≡ ok (a, db')
      → Accepted × (a ≡ new_row pg event input) × (db' ≡ created actor (new_row pg event input) db)
  unfolding create_body insert_room insert_audit
  create_body-ok h = (
    record { fresh = ground arith; capacity = ground arith; known = ground arith },
    ground arith,
    ground arith,
  )

  pub create_room-ok :
      {a : Room}
      → (create_room pg actor event input db).0 ≡ ok a
      → Accepted
        × (a ≡ new_row pg event input)
        × ((create_room pg actor event input db).1 ≡ created actor (new_row pg event input) db)
  unfolding create_room
  create_room-ok h = create_body-ok (in_tx-ok pg (create_body pg actor event input) db h)

  pub create_room-keeps {κ} :
      (P : Db → Type κ)
      → P db
      → (Accepted → P (created actor (new_row pg event input) db))
      → P (create_room pg actor event input db).1
  unfolding create_room
  create_room-keeps P h k =
      in_tx-keeps pg (create_body pg actor event input) db P h
        (λ a db' q. let (v, _, same) = create_body-ok q in subst P (sym same) (k v))

abbrev pub updated : Server → ℕ → ℕ → ℕ → ℕ → RoomPatch → Room → Db → Db
updated pg actor event id version patch old db = record db {
  rooms = update_row (gated event id version) (patched_row pg patch) db.rooms;
  audit_log = entry_of actor id update (some old) (some (patched_row pg patch old)) ∷ db.audit_log;
}

module _ (pg : Server) (actor event id version : ℕ) (patch : RoomPatch) (db : Db) where
  -- The row that an UPDATE changed, and what it has checked of the new version.
  pub record Renamed : Type 0 where
    pub old : Room
    pub found : find_row (gated event id version) db.rooms ≡ some old
    pub free :
        any (λ r. not (r.id == old.id) && same_name (patched_row pg patch old) r) db.rooms ≡ false
    pub capacity : has_capacity (patched_row pg patch old).capacity ≡ true

  update_body-ok :
      {a : Room} {db' : Db}
      → update_body pg actor event id version patch db ≡ ok (a, db')
      → (c : Renamed) × (a ≡ patched_row pg patch c.old)
        × (db' ≡ updated pg actor event id version patch c.old db)
  unfolding update_body insert_audit
  update_body-ok h = elim (Option-cases (find_row (gated event id version) db.rooms)) [
    | inl e ↦ ground arith
    | inr (old, e) ↦ (
      record { old = old; found = e; free = ground arith; capacity = ground arith },
      ground arith,
      ground arith,
    )
  ]

  pub update_room-ok :
      {a : Room}
      → (update_room pg actor event id version patch db).0 ≡ ok a
      → (c : Renamed) × (a ≡ patched_row pg patch c.old)
        × ((update_room pg actor event id version patch db).1
            ≡ updated pg actor event id version patch c.old db)
  unfolding update_room
  update_room-ok h = update_body-ok (in_tx-ok pg (update_body pg actor event id version patch) db h)

  -- The room is there, at another version: the diagnosis, where the statement could be sent.
  pub update_room-stale :
      {row : Room}
      → Up pg
      → find_row (is_row event id) db.rooms ≡ some row
      → find_row (gated event id version) db.rooms ≡ none
      → update_room pg actor event id version patch db ≡ (
        err (if fits_int4 version && patch_encodes patch then version_mismatch else internal),
        db,
      )
  unfolding update_room update_body diagnose_write
  update_room-stale up found stale =
      ground
        (arith, up begin, up exec, up diagnose, any-of_find_row (is_row event id) db.rooms found)

  pub update_room-keeps {κ} :
      (P : Db → Type κ)
      → P db
      → ((c : Renamed) → P (updated pg actor event id version patch c.old db))
      → P (update_room pg actor event id version patch db).1
  unfolding update_room
  update_room-keeps P h k =
      in_tx-keeps pg (update_body pg actor event id version patch) db P h
        (λ a db' q. let (c, _, same) = update_body-ok q in subst P (sym same) (k c))

abbrev pub deleted : ℕ → ℕ → ℕ → ℕ → Room → Db → Db
deleted actor event id version old db = record db {
  rooms = remove_row (gated event id version) db.rooms;
  audit_log = entry_of actor id delete (some old) none ∷ db.audit_log;
}

module _ (pg : Server) (actor event id version : ℕ) (db : Db) where
  pub record Removed : Type 0 where
    pub old : Room
    pub found : find_row (gated event id version) db.rooms ≡ some old
    pub free : is_referenced old.id db ≡ false

  delete_body-ok :
      {db' : Db}
      → delete_body pg actor event id version db ≡ ok (tt, db')
      → (c : Removed) × (db' ≡ deleted actor event id version c.old db)
  unfolding delete_body insert_audit
  delete_body-ok h = elim (Option-cases (find_row (gated event id version) db.rooms)) [
    | inl e ↦ ground arith
    | inr (old, e) ↦ (record { old = old; found = e; free = ground arith }, ground arith)
  ]

  pub delete_room-ok :
      (delete_room pg actor event id version db).0 ≡ ok tt
      → (c : Removed) × ((delete_room pg actor event id version db).1
          ≡ deleted actor event id version c.old db)
  unfolding delete_room
  delete_room-ok h = delete_body-ok (in_tx-ok pg (delete_body pg actor event id version) db h)

  pub delete_room-keeps {κ} :
      (P : Db → Type κ)
      → P db
      → ((c : Removed) → P (deleted actor event id version c.old db))
      → P (delete_room pg actor event id version db).1
  unfolding delete_room
  delete_room-keeps P h k =
      in_tx-keeps pg (delete_body pg actor event id version) db P h
        (λ a db' q. let (c, same) = delete_body-ok q in subst P (sym same) (k c))
