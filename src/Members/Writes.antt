-- ===== src/Members/Writes.antt =====
-- What the writes of the roster do when they succeed, and what their errors mean.
use krane_event_management_p.Common.{
  ℕ, ◌≡◌, sym, subst, true, false, ◌==◌, ◌||◌, none, some, ◌∷◌, any, find_row, update_row,
  remove_row, ok, arith, Option-cases, inl, inr,
}
use krane_event_management_p.Domain.{Role, User, is_known, Member, GrantInput}
use krane_event_management_p.Store.{
  MemberRow, Db, Server, event_member, create, update, delete, of_member, insert_audit, AuditEntry,
}
use krane_event_management_p.Store.Laws.{in_tx-ok, in_tx-keeps}
use krane_event_management_p.Members.{
  to_member, can_grant, actor_row, is_member_of, create_body, create_member, assign_role,
  delete_member, assign_body, delete_body, may_assign, may_delete, with_role,
}

abbrev pub assign_entry : ℕ → ℕ → MemberRow → MemberRow → AuditEntry
assign_entry actor member old new = record {
  actor_id = actor;
  entity_type = event_member;
  entity_id = member;
  action = update;
  before = some (of_member old);
  after = some (of_member new);
}

-- The tables that a successful assign_body leaves.
abbrev pub assigned : Server → ℕ → ℕ → ℕ → ℕ → Role → MemberRow → Db → Db
assigned pg actor event member version role old db = record db {
  members =
      update_row (may_assign event member version role db.members) (with_role role pg.now)
        db.members;
  audit_log = assign_entry actor member old (with_role role pg.now old) ∷ db.audit_log;
}

module _ (pg : Server) (actor event member version : ℕ) (role : Role) (db : Db) where
  pub assign_body-ok :
      {a : Member} {db' : Db}
      → assign_body pg actor event member version role db ≡ ok (a, db')
      → (old : MemberRow) × (find_row (may_assign event member version role db.members) db.members
          ≡ some old)
        × (is_known role ≡ true)
        × (a ≡ to_member "" "" (with_role role pg.now old))
        × (db' ≡ assigned pg actor event member version role old db)
  unfolding assign_body insert_audit
  assign_body-ok h =
      elim (Option-cases (find_row (may_assign event member version role db.members) db.members)) [
        | inl e ↦ ground arith
        | inr (old, e) ↦ (old, e, ground arith, ground arith, ground arith)
      ]

  -- What holds before, and of the tables after a success, holds after any call.
  pub assign_role-keeps {κ} :
      (P : Db → Type κ)
      → P db
      → ((old : MemberRow)
          → find_row (may_assign event member version role db.members) db.members ≡ some old
          → is_known role ≡ true
          → P (assigned pg actor event member version role old db))
      → P (assign_role pg actor event member version role db).1
  unfolding assign_role
  assign_role-keeps P h k =
      in_tx-keeps pg (assign_body pg actor event member version role) db P h (λ a db' q.
        let (old, found, known, _, same) = assign_body-ok q in
        subst P (sym same) (k old found known))

  pub assign_role-ok :
      {a : Member}
      → (assign_role pg actor event member version role db).0 ≡ ok a
      → (old : MemberRow) × (find_row (may_assign event member version role db.members) db.members
          ≡ some old)
        × (is_known role ≡ true)
        × (a ≡ to_member "" "" (with_role role pg.now old))
        × ((assign_role pg actor event member version role db).1
            ≡ assigned pg actor event member version role old db)
  unfolding assign_role
  assign_role-ok h =
      assign_body-ok (in_tx-ok pg (assign_body pg actor event member version role) db h)

abbrev pub delete_entry : ℕ → ℕ → MemberRow → AuditEntry
delete_entry actor member old = record {
  actor_id = actor;
  entity_type = event_member;
  entity_id = member;
  action = delete;
  before = some (of_member old);
  after = none;
}

abbrev pub deleted : ℕ → ℕ → ℕ → ℕ → MemberRow → Db → Db
deleted actor event member version old db = record db {
  members = remove_row (may_delete event member version db.members) db.members;
  audit_log = delete_entry actor member old ∷ db.audit_log;
}

module _ (pg : Server) (actor event member version : ℕ) (db : Db) where
  pub delete_body-ok :
      {a : Unit {0}} {db' : Db}
      → delete_body pg actor event member version db ≡ ok (a, db')
      → (old : MemberRow) × (find_row (may_delete event member version db.members) db.members
          ≡ some old)
        × (db' ≡ deleted actor event member version old db)
  unfolding delete_body insert_audit
  delete_body-ok h =
      elim (Option-cases (find_row (may_delete event member version db.members) db.members)) [
        | inl e ↦ ground arith
        | inr (old, e) ↦ (old, e, ground arith)
      ]

  pub delete_member-keeps {κ} :
      (P : Db → Type κ)
      → P db
      → ((old : MemberRow)
          → find_row (may_delete event member version db.members) db.members ≡ some old
          → P (deleted actor event member version old db))
      → P (delete_member pg actor event member version db).1
  unfolding delete_member
  delete_member-keeps P h k =
      in_tx-keeps pg (delete_body pg actor event member version) db P h
        (λ a db' q. let (old, found, same) = delete_body-ok q in subst P (sym same) (k old found))

  pub delete_member-ok :
      {a : Unit {0}}
      → (delete_member pg actor event member version db).0 ≡ ok a
      → (old : MemberRow) × (find_row (may_delete event member version db.members) db.members
          ≡ some old)
        × ((delete_member pg actor event member version db).1
            ≡ deleted actor event member version old db)
  unfolding delete_member
  delete_member-ok h = delete_body-ok (in_tx-ok pg (delete_body pg actor event member version) db h)

abbrev pub new_row : Server → ℕ → ℕ → Role → MemberRow
new_row pg event user role = record {
  id = pg.uuid;
  event_id = event;
  user_id = user;
  role = role;
  version = 1;
  created_at = pg.now;
  updated_at = pg.now;
}

abbrev pub create_entry : ℕ → MemberRow → AuditEntry
create_entry actor row = record {
  actor_id = actor;
  entity_type = event_member;
  entity_id = row.id;
  action = create;
  before = none;
  after = some (of_member row);
}

abbrev pub created : Server → ℕ → ℕ → ℕ → Role → Db → Db
created pg actor event user role db = record db {
  members = new_row pg event user role ∷ db.members;
  audit_log = create_entry actor (new_row pg event user role) ∷ db.audit_log;
}

module _ (pg : Server) (actor event : ℕ) (input : GrantInput) (db : Db) where
  pub create_body-ok :
      {a : Member} {db' : Db}
      → create_body pg actor event input db ≡ ok (a, db')
      → (user : User) × (find_row (λ u. pg.citext_eq u.email input.email) db.users ≡ some user)
        × (can_grant (actor_row event actor db.members) input.role ≡ true)
        × (is_known input.role ≡ true)
        × (any (λ m. m.id == pg.uuid || is_member_of event user.id m) db.members ≡ false)
        × (a ≡ to_member user.email "" (new_row pg event user.id input.role))
        × (db' ≡ created pg actor event user.id input.role db)
  unfolding create_body insert_audit
  create_body-ok h =
      elim (Option-cases (find_row (λ u. pg.citext_eq u.email input.email) db.users)) [
        | inl e ↦ ground arith
        | inr (user, e) ↦
            (user, e, ground arith, ground arith, ground arith, ground arith, ground arith)
      ]

  pub create_member-keeps {κ} :
      (P : Db → Type κ)
      → P db
      → ((user : User)
          → can_grant (actor_row event actor db.members) input.role ≡ true
          → is_known input.role ≡ true
          → any (λ m. m.id == pg.uuid || is_member_of event user.id m) db.members ≡ false
          → P (created pg actor event user.id input.role db))
      → P (create_member pg actor event input db).1
  unfolding create_member
  create_member-keeps P h k = in_tx-keeps pg (create_body pg actor event input) db P h (λ a db' q.
      let (user, _, granted, known, fresh, _, same) = create_body-ok q in
      subst P (sym same) (k user granted known fresh))

  pub create_member-ok :
      {a : Member}
      → (create_member pg actor event input db).0 ≡ ok a
      → (user : User) × (find_row (λ u. pg.citext_eq u.email input.email) db.users ≡ some user)
        × (can_grant (actor_row event actor db.members) input.role ≡ true)
        × (is_known input.role ≡ true)
        × (any (λ m. m.id == pg.uuid || is_member_of event user.id m) db.members ≡ false)
        × (a ≡ to_member user.email "" (new_row pg event user.id input.role))
        × ((create_member pg actor event input db).1 ≡ created pg actor event user.id input.role db)
  unfolding create_member
  create_member-ok h = create_body-ok (in_tx-ok pg (create_body pg actor event input) db h)
