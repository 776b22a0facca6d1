-- ===== src/Events.antt =====
-- internal/adapter/postgres/event_repo.go: events, and the membership that makes the creator an admin.
-- The list of events is in Pages.
pub mod Writes
pub mod Creator
pub mod Versions
use krane_event_management_p.Common.{
  ℕ, suc, String, Bool, true, false, not, ◌==◌, ◌&&◌, ◌||◌, ltb, is_some, Option, none, some, List,
  ◌∷◌, any, find_row, update_row, if◌then◌else◌, Error, Result, ok, err, version_mismatch,
  not_found, internal, ◌>>=◌, ◌>>◌, fail_if, or_fail,
}
use krane_event_management_p.Domain.{Role, admin, Event, EventInput, EventPatch, Optional, patched}
use krane_event_management_p.Store.{
  EventRow, MemberRow, Db, Server, exec, diagnose, in_tx, event, event_member, AuditAction, create,
  update, delete, of_event, of_member, insert_audit, has_user, fits_int4,
}
use krane_event_management_p.Members.{is_member_of}

abbrev pub is_live : EventRow → Bool
is_live e = not (is_some e.deleted_at)

unfoldable pub to_event : EventRow → Event
to_event r = record {
  id = r.id;
  name = r.name;
  description = r.description;
  timezone = r.timezone;
  starts_at = r.starts_at;
  ends_at = r.ends_at;
  version = r.version;
  created_at = r.created_at;
  updated_at = r.updated_at;
}

abbrev pub new_row : Server → EventInput → EventRow
new_row pg input = record {
  id = pg.uuid;
  name = input.name;
  description = input.description;
  timezone = input.timezone;
  starts_at = input.starts_at;
  ends_at = input.ends_at;
  version = 1;
  deleted_at = none;
  created_at = pg.now;
  updated_at = pg.now;
}

-- new_member: the creator's row.
abbrev pub creator_row : Server → ℕ → MemberRow
creator_row pg actor = record {
  id = pg.member_uuid;
  event_id = pg.uuid;
  user_id = actor;
  role = admin;
  version = 1;
  created_at = pg.now;
  updated_at = pg.now;
}

pub create_body : Server → ℕ → EventInput → Db → Result (Event × Db)
unfolding to_event
create_body pg actor input db = do
  fail_if (pg.fails exec) internal
  fail_if (not (ltb input.starts_at input.ends_at)) internal
  fail_if (any (λ e. e.id == pg.uuid) db.events) internal
  fail_if (any (λ m. m.id == pg.member_uuid || is_member_of pg.uuid actor m) db.members) internal
  fail_if (not (has_user actor db)) internal
  let row = new_row pg input
  let member = creator_row pg actor
  logged ←
      insert_audit pg
        (record {
          actor_id = actor;
          entity_type = event;
          entity_id = row.id;
          action = create;
          before = none;
          after = some (of_event row);
        })
        (record db { events = row ∷ db.events; members = member ∷ db.members })
  both ←
      insert_audit pg
        (record {
          actor_id = actor;
          entity_type = event_member;
          entity_id = member.id;
          action = create;
          before = none;
          after = some (of_member member);
        })
        logged
  ok (to_event row, both)

-- EventRepository.Create
unfoldable pub create_event : Server → ℕ → EventInput → Db → Result Event × Db
unfolding create_body
create_event pg actor input = in_tx pg (create_body pg actor input)

abbrev pub is_row : ℕ → EventRow → Bool
is_row id e = e.id == id && is_live e

-- EventRepository.Get
unfoldable pub get_event : Server → ℕ → Db → Result Event
unfolding to_event
get_event pg id db = do
  fail_if (pg.fails exec) internal
  row ← or_fail (find_row (is_row id) db.events) not_found
  ok (to_event row)

-- The WHERE clause of Update and Delete.
abbrev pub gated : ℕ → ℕ → EventRow → Bool
gated id version e = is_row id e && e.version == version

-- The read after an UPDATE that found no row.
pub diagnose_write : Server → ℕ → Db → Error
diagnose_write pg id db =
    if pg.fails diagnose
    then internal
    else if any (is_row id) db.events
    then version_mismatch
    else not_found

pub write_body : Server → ℕ → ℕ → ℕ → AuditAction → (EventRow → EventRow) → Db → Result (Event × Db)
unfolding diagnose_write to_event
write_body pg actor id version action change db = do
  fail_if (pg.fails exec || not (fits_int4 version)) internal
  old ← or_fail (find_row (gated id version) db.events) (diagnose_write pg id db)
  let new = change old
  fail_if (not (fits_int4 new.version)) internal
  fail_if (not (ltb new.starts_at new.ends_at)) internal
  logged ←
      insert_audit pg
        (record {
          actor_id = actor;
          entity_type = event;
          entity_id = id;
          action = action;
          before = some (of_event old);
          after = some (of_event new);
        })
        (record db { events = update_row (gated id version) change db.events })
  ok (to_event new, logged)

-- versionedWrite
unfoldable pub versioned_write :
    Server → ℕ → ℕ → ℕ → AuditAction → (EventRow → EventRow) → Db → Result Event × Db
unfolding write_body
versioned_write pg actor id version action change =
    in_tx pg (write_body pg actor id version action change)

-- The SET list of Update.
abbrev pub patched_row : Server → EventPatch → EventRow → EventRow
patched_row pg patch e = record e {
  name = patched patch.name e.name;
  description = patched patch.description e.description;
  timezone = patched patch.timezone e.timezone;
  starts_at = patched patch.starts_at e.starts_at;
  ends_at = patched patch.ends_at e.ends_at;
  version = suc e.version;
  updated_at = pg.now;
}

abbrev pub deleted_row : Server → EventRow → EventRow
deleted_row pg e = record e {
  version = suc e.version;
  deleted_at = some pg.now;
  updated_at = pg.now;
}

-- EventRepository.Update
unfoldable pub update_event : Server → ℕ → ℕ → ℕ → EventPatch → Db → Result Event × Db
unfolding versioned_write
update_event pg actor id version patch =
    versioned_write pg actor id version update (patched_row pg patch)

-- EventRepository.Delete
unfoldable pub delete_event : Server → ℕ → ℕ → ℕ → Db → Result Event × Db
unfolding versioned_write
delete_event pg actor id version = versioned_write pg actor id version delete (deleted_row pg)
