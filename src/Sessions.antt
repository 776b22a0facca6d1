-- ===== src/Sessions.antt =====
-- internal/adapter/postgres/session_repo.go: scheduled items in rooms. time_range is half-open, and the
-- two EXCLUDE constraints (migrations/20260824190000_sessions_no_overlap_excl) hold between live rows.
pub mod Writes
pub mod Schedule
pub mod Versions
pub mod Slots
pub mod Housed
pub mod Exceptions
use krane_event_management_p.Common.{
  ℕ, suc, Bool, true, false, not, ◌==◌, ◌&&◌, ◌||◌, ltb, is_some, Option, none, some, List, ◌∷◌,
  any, find_row, update_row, if◌then◌else◌, Error, Result, ok, err, conflict, version_mismatch,
  not_found, internal, invalid_room, invalid_speaker, ◌>>=◌, ◌>>◌, fail_if, or_fail,
}
use krane_event_management_p.Domain.{Session, SessionInput, SessionPatch, Optional, patched}
use krane_event_management_p.Store.{
  SessionRow, SessionException, modified, cancelled, Db, Server, exec, diagnose, exception, in_tx,
  session, AuditAction, create, update, delete, of_session, insert_audit, has_user, fits_int4,
}

abbrev pub is_live : SessionRow → Bool
is_live s = not (is_some s.deleted_at)

-- time_range && time_range, of ranges that are not empty.
abbrev pub overlaps : SessionRow → SessionRow → Bool
overlaps a b = ltb a.starts_at b.ends_at && ltb b.starts_at a.ends_at

-- sessions_room_no_overlap_excl or sessions_speaker_no_overlap_excl refuses the live row `a` beside `b`.
abbrev pub excludes : SessionRow → SessionRow → Bool
excludes a b =
    is_live b && ((a.room_id == b.room_id || a.speaker_id == b.speaker_id) && overlaps a b)

pub to_session : SessionRow → Session
to_session r = record {
  id = r.id;
  event_id = r.event_id;
  room_id = r.room_id;
  speaker_id = r.speaker_id;
  title = r.title;
  description = r.description;
  starts_at = r.starts_at;
  ends_at = r.ends_at;
  version = r.version;
  created_at = r.created_at;
  updated_at = r.updated_at;
  room_name = "";
  speaker_name = "";
  series_id = r.series_id;
}

abbrev pub new_row : Server → ℕ → SessionInput → SessionRow
new_row pg event input = record {
  id = pg.uuid;
  event_id = event;
  room_id = input.room_id;
  speaker_id = input.speaker_id;
  title = input.title;
  description = input.description;
  starts_at = input.starts_at;
  ends_at = input.ends_at;
  version = 1;
  deleted_at = none;
  created_at = pg.now;
  updated_at = pg.now;
  series_id = input.series_id;
}

-- series_id references session_series.
abbrev pub known_series : Option ℕ → Db → Bool
known_series none db = true
known_series (some s) db = any (λ r. r.id == s) db.series

-- The INSERT of one source row: tstzrange and its CHECK, the primary key, the EXCLUDE constraints,
-- then the foreign keys, which are checked after the statement.
pub insert_session : SessionRow → Db → Result SessionRow
insert_session row db = do
  fail_if (not (ltb row.starts_at row.ends_at)) internal
  fail_if (any (λ r. r.id == row.id) db.sessions) internal
  fail_if (any (excludes row) db.sessions) conflict
  fail_if (not (has_user row.speaker_id db)) invalid_speaker
  fail_if (not (known_series row.series_id db)) internal
  ok row

pub create_body : Server → ℕ → ℕ → SessionInput → Db → Result (Session × Db)
unfolding insert_session to_session
create_body pg actor event input db = do
  fail_if (pg.fails exec) internal
  room ←
      or_fail (find_row (λ r. r.id == input.room_id && r.event_id == event) db.rooms) invalid_room
  row ← insert_session (new_row pg event input) db
  logged ←
      insert_audit pg
        (record {
          actor_id = actor;
          entity_type = session;
          entity_id = row.id;
          action = create;
          before = none;
          after = some (of_session row);
        })
        (record db { sessions = row ∷ db.sessions })
  ok (to_session row, logged)

-- SessionRepository.Create
unfoldable pub create_session : Server → ℕ → ℕ → SessionInput → Db → Result Session × Db
unfolding create_body
create_session pg actor event input = in_tx pg (create_body pg actor event input)

abbrev pub is_row : ℕ → ℕ → SessionRow → Bool
is_row event id s = s.id == id && (s.event_id == event && is_live s)

-- SessionRepository.Get
unfoldable pub get_session : Server → ℕ → ℕ → Db → Result Session
unfolding to_session
get_session pg event id db = do
  fail_if (pg.fails exec) internal
  row ← or_fail (find_row (is_row event id) db.sessions) not_found
  ok (to_session row)

-- The WHERE clause of Update and Delete.
abbrev pub gated : ℕ → ℕ → ℕ → SessionRow → Bool
gated event id version s = is_row event id s && s.version == version

-- The read after an UPDATE that found no row.
pub diagnose_write : Server → ℕ → ℕ → Db → Error
diagnose_write pg event id db =
    if pg.fails diagnose
    then internal
    else if any (is_row event id) db.sessions
    then version_mismatch
    else not_found

abbrev pub exception_of : AuditAction → ℕ → ℕ → ℕ → SessionException
exception_of delete series id starts = record {
  series_id = series;
  session_id = id;
  status = cancelled;
  original_starts_at = starts;
}
exception_of _ series id starts = record {
  series_id = series;
  session_id = id;
  status = modified;
  original_starts_at = starts;
}

-- The session_exceptions row of a write to an occurrence of a series.
pub record_exception : Server → AuditAction → SessionRow → SessionRow → Db → Result Db
record_exception pg action old new db = elim new.series_id [
  | none ↦ ok db
  | some series ↦
      if pg.fails exception
      then err internal
      else ok (record db {
        exceptions = exception_of action series new.id old.starts_at ∷ db.exceptions;
      })
]

pub write_body :
    Server
    → ℕ
    → ℕ
    → ℕ
    → ℕ
    → AuditAction
    → (SessionRow → Result SessionRow)
    → Db
    → Result (Session × Db)
unfolding diagnose_write record_exception to_session
write_body pg actor event id version action change db = do
  fail_if (pg.fails exec || not (fits_int4 version)) internal
  old ← or_fail (find_row (gated event id version) db.sessions) (diagnose_write pg event id db)
  new ← change old
  fail_if (not (fits_int4 new.version)) internal
  logged ←
      insert_audit pg
        (record {
          actor_id = actor;
          entity_type = session;
          entity_id = id;
          action = action;
          before = some (of_session old);
          after = some (of_session new);
        })
        (record db { sessions = update_row (gated event id version) (λ _. new) db.sessions })
  noted ← record_exception pg action old new logged
  ok (to_session new, noted)

-- versionedWrite
unfoldable pub versioned_write :
    Server
    → ℕ
    → ℕ
    → ℕ
    → ℕ
    → AuditAction
    → (SessionRow → Result SessionRow)
    → Db
    → Result Session × Db
unfolding write_body
versioned_write pg actor event id version action change =
    in_tx pg (write_body pg actor event id version action change)

-- The SET list of Update: both bounds of time_range or neither.
abbrev pub patched_row : Server → SessionPatch → SessionRow → SessionRow
patched_row pg patch s = record s {
  title = patched patch.title s.title;
  description = patched patch.description s.description;
  starts_at =
      if patch.starts_at.set && patch.ends_at.set then patch.starts_at.value else s.starts_at;
  ends_at = if patch.starts_at.set && patch.ends_at.set then patch.ends_at.value else s.ends_at;
  version = suc s.version;
  updated_at = pg.now;
}

-- The constraints on the new version. An exclusion violation is not told apart on this path.
pub update_change : Server → SessionPatch → Db → SessionRow → Result SessionRow
update_change pg patch db old = do
  let new = patched_row pg patch old
  fail_if (not (ltb new.starts_at new.ends_at)) internal
  fail_if (any (λ r. not (r.id == new.id) && excludes new r) db.sessions) internal
  ok new

abbrev pub cancelled_row : Server → SessionRow → SessionRow
cancelled_row pg s = record s {
  version = suc s.version;
  deleted_at = some pg.now;
  updated_at = pg.now;
}

-- SessionRepository.Update
unfoldable pub update_session : Server → ℕ → ℕ → ℕ → ℕ → SessionPatch → Db → Result Session × Db
unfolding versioned_write update_change
update_session pg actor event id version patch db =
    versioned_write pg actor event id version update (update_change pg patch db) db

-- SessionRepository.Delete
unfoldable pub delete_session : Server → ℕ → ℕ → ℕ → ℕ → Db → Result Session × Db
unfolding versioned_write
delete_session pg actor event id version db =
    versioned_write pg actor event id version delete (λ s. ok (cancelled_row pg s)) db
