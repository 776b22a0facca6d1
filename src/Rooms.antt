-- ===== src/Rooms.antt =====
-- internal/adapter/postgres/room_repo.go: the rooms of an event. Names are unique within an event, and
-- a room that a session or a series refers to cannot be deleted.
pub mod Writes
pub mod Names
pub mod References
use krane_event_management_p.Common.{
  ℕ, zero, suc, String, Bool, true, false, not, ◌==◌, ◌&&◌, ◌||◌, Option, none, some, List, ◌∷◌,
  any, find_row, update_row, remove_row, if◌then◌else◌, Error, Result, ok, err, conflict,
  version_mismatch, not_found, internal, ◌>>=◌, ◌>>◌, fail_if, or_fail,
}
use text.Mathlib.Text.{◌==◌ as str_eq}
use krane_event_management_p.Domain.{Room, RoomInput, RoomPatch, Optional, patched}
use krane_event_management_p.Store.{
  Db, Server, exec, diagnose, in_tx, room, create, update, delete, of_room, insert_audit, fits_int4,
}

abbrev pub is_row : ℕ → ℕ → Room → Bool
is_row event id r = r.id == id && r.event_id == event

-- rooms_event_id_name_key
abbrev pub same_name : Room → Room → Bool
same_name a b = a.event_id == b.event_id && str_eq a.name b.name

-- CHECK (capacity IS NULL OR capacity > 0)
abbrev pub has_capacity : Option ℕ → Bool
has_capacity none = true
has_capacity (some zero) = false
has_capacity (some (suc _)) = true

-- The capacity, where there is one, is an integer of PostgreSQL.
abbrev pub encodes : Option ℕ → Bool
encodes none = true
encodes (some n) = fits_int4 n

abbrev pub new_row : Server → ℕ → RoomInput → Room
new_row pg event input = record {
  id = pg.uuid;
  event_id = event;
  name = input.name;
  capacity = input.capacity;
  version = 1;
  created_at = pg.now;
  updated_at = pg.now;
}

-- The CHECK, the unique indexes, then the foreign key.
pub insert_room : Room → Db → Result Room
insert_room row db = do
  fail_if (not (has_capacity row.capacity)) internal
  fail_if (any (λ r. r.id == row.id || same_name row r) db.rooms) conflict
  fail_if (not (any (λ e. e.id == row.event_id) db.events)) internal
  ok row

pub create_body : Server → ℕ → ℕ → RoomInput → Db → Result (Room × Db)
unfolding insert_room
create_body pg actor event input db = do
  fail_if (pg.fails exec || not (encodes input.capacity)) internal
  row ← insert_room (new_row pg event input) db
  logged ←
      insert_audit pg
        (record {
          actor_id = actor;
          entity_type = room;
          entity_id = row.id;
          action = create;
          before = none;
          after = some (of_room row);
        })
        (record db { rooms = row ∷ db.rooms })
  ok (row, logged)

-- RoomRepository.Create
unfoldable pub create_room : Server → ℕ → ℕ → RoomInput → Db → Result Room × Db
unfolding create_body
create_room pg actor event input = in_tx pg (create_body pg actor event input)

-- RoomRepository.Get
unfoldable pub get_room : Server → ℕ → ℕ → Db → Result Room
get_room pg event id db = do
  fail_if (pg.fails exec) internal
  or_fail (find_row (is_row event id) db.rooms) not_found

-- The WHERE clause of Update and Delete.
abbrev pub gated : ℕ → ℕ → ℕ → Room → Bool
gated event id version r = is_row event id r && r.version == version

-- The read after a write that found no row.
pub diagnose_write : Server → ℕ → ℕ → Db → Error
diagnose_write pg event id db =
    if pg.fails diagnose
    then internal
    else if any (is_row event id) db.rooms
    then version_mismatch
    else not_found

abbrev pub patched_row : Server → RoomPatch → Room → Room
patched_row pg patch r = record r {
  name = patched patch.name r.name;
  capacity = patched patch.capacity r.capacity;
  version = suc r.version;
  updated_at = pg.now;
}

-- The arguments of the UPDATE: the capacity is one where the patch sets it.
abbrev pub patch_encodes : RoomPatch → Bool
patch_encodes patch = encodes (patched patch.capacity none)

pub update_body : Server → ℕ → ℕ → ℕ → ℕ → RoomPatch → Db → Result (Room × Db)
unfolding diagnose_write
update_body pg actor event id version patch db = do
  fail_if (pg.fails exec || not (fits_int4 version && patch_encodes patch)) internal
  old ← or_fail (find_row (gated event id version) db.rooms) (diagnose_write pg event id db)
  let new = patched_row pg patch old
  fail_if (not (fits_int4 new.version)) internal
  fail_if (not (has_capacity new.capacity)) internal
  fail_if (any (λ r. not (r.id == new.id) && same_name new r) db.rooms) conflict
  logged ←
      insert_audit pg
        (record {
          actor_id = actor;
          entity_type = room;
          entity_id = id;
          action = update;
          before = some (of_room old);
          after = some (of_room new);
        })
        (record db { rooms = update_row (gated event id version) (patched_row pg patch) db.rooms })
  ok (new, logged)

-- RoomRepository.Update
unfoldable pub update_room : Server → ℕ → ℕ → ℕ → ℕ → RoomPatch → Db → Result Room × Db
unfolding update_body
update_room pg actor event id version patch = in_tx pg (update_body pg actor event id version patch)

-- sessions.room_id and session_series.room_id have no ON DELETE action; a cancelled session's row stays.
abbrev pub is_referenced : ℕ → Db → Bool
is_referenced id db = any (λ s. s.room_id == id) db.sessions || any (λ s. s.room_id == id) db.series

pub delete_body : Server → ℕ → ℕ → ℕ → ℕ → Db → Result (Unit {0} × Db)
unfolding diagnose_write
delete_body pg actor event id version db = do
  fail_if (pg.fails exec || not (fits_int4 version)) internal
  old ← or_fail (find_row (gated event id version) db.rooms) (diagnose_write pg event id db)
  fail_if (is_referenced old.id db) conflict
  logged ←
      insert_audit pg
        (record {
          actor_id = actor;
          entity_type = room;
          entity_id = id;
          action = delete;
          before = some (of_room old);
          after = none;
        })
        (record db { rooms = remove_row (gated event id version) db.rooms })
  ok (tt, logged)

-- RoomRepository.Delete
unfoldable pub delete_room : Server → ℕ → ℕ → ℕ → ℕ → Db → Result (Unit {0}) × Db
unfolding delete_body
delete_room pg actor event id version = in_tx pg (delete_body pg actor event id version)
