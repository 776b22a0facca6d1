-- ===== src/Sessions/Slots.antt =====
-- The slot of a session: cancelling frees it, and a booked one is refused to POST and to PATCH.
use mathlib.Core.List.{Memᴰ}
use krane_event_management_p.Common.{
  ℕ, ◌≡◌, ◌≢◌, ◌<◌, ◌⊎◌, true, false, not, ◌==◌, ◌&&◌, none, some, any, ok, err, internal, conflict,
  arith, any-update_row_related, any-mem, find_row,
}
use krane_event_management_p.Domain.{Room, Session, SessionInput, SessionPatch}
use krane_event_management_p.Store.{SessionRow, Db, Server, Up, begin, exec, delete, insert_audit}
use krane_event_management_p.Sessions.{
  excludes, new_row, insert_session, create_session, gated, update_change, update_session,
  delete_session, cancelled_row, patched_row, to_session,
}
use krane_event_management_p.Sessions.Writes.{versioned_write-ok}
use krane_event_management_p.Sessions.Schedule.{IsSchedule, Separate, Separate-sym}
use krane_event_management_p.Sessions.Versions.{is_old}

-- Nothing else is booked in the slot of a live session of the schedule.
slot_free :
    (old s : SessionRow) (row : SessionRow)
    → old.deleted_at ≡ none
    → row.room_id ≡ old.room_id
    → row.speaker_id ≡ old.speaker_id
    → row.starts_at ≡ old.starts_at
    → row.ends_at ≡ old.ends_at
    → Separate old s
    → excludes row s ≡ false
slot_free old s row live r p b e h = ground (arith, h.1 live)

refuses_conflict :
    (pg : Server) (actor event : ℕ) (input : SessionInput) (db : Db)
    → any (excludes (new_row pg event input)) db.sessions ≡ false
    → (create_session pg actor event input db).0 ≢ err conflict
unfolding create_session insert_session insert_audit
refuses_conflict pg actor event input db f h = ground arith

module _ (pg pg' : Server) (actor actor' event id version : ℕ) (db : Db) where
  -- In a schedule that is in order, a successful cancellation frees the slot: a POST in the same
  -- room, with the same speaker and at the same time is not refused as a conflict afterwards.
  pub delete_session-frees :
      (v : IsSchedule db.sessions) {a : Session} (input : SessionInput)
      → (delete_session pg actor event id version db).0 ≡ ok a
      → input.room_id ≡ a.room_id
      → input.speaker_id ≡ a.speaker_id
      → input.starts_at ≡ a.starts_at
      → input.ends_at ≡ a.ends_at
      → (create_session pg' actor' event input (delete_session pg actor event id version db).1).0
        ≢ err conflict
  unfolding delete_session to_session
  delete_session-frees v input h r p b e =
      let (new, c, same, after) =
        versioned_write-ok pg actor event id version delete (λ s. ok (cancelled_row pg s)) db h in
      let new_is : new ≡ cancelled_row pg c.old = ground (arith, c.changed) in
      let live = (is_old event id version db v c.old new c.found).3 in
      let row = new_row pg' event input in
      refuses_conflict pg' actor' event input _ (
        rw after (
          any-update_row_related Separate (gated event id version) (excludes row)
            (λ s d.
              slot_free c.old s row live (ground (arith, new_is, same))
                (ground (arith, new_is, same)) (ground (arith, new_is, same))
                (ground (arith, new_is, same)) d)
            (λ _. new) db.sessions Separate-sym v.separate c.found (ground (arith, new_is))))

-- `s` is a live session other than `id` in the room or with the speaker, at an overlapping time.
pub record IsBooked (db : Db) (id room speaker starts ends : ℕ) : Type 0 where
  pub other : SessionRow
  pub listed : Memᴰ other db.sessions
  pub differs : other.id ≢ id
  pub live : other.deleted_at ≡ none
  pub shares : (room ≡ other.room_id) ⊎ (speaker ≡ other.speaker_id)
  pub starts_before : starts < other.ends_at
  pub ends_after : other.starts_at < ends

excludes_booked :
    (db : Db) (row : SessionRow)
    → (b : IsBooked db row.id row.room_id row.speaker_id row.starts_at row.ends_at)
    → (not (b.other.id == row.id) && excludes row b.other) ≡ true
excludes_booked db row b =
    ground (arith, b.differs, b.live, b.shares, b.starts_before, b.ends_after)

module _ (pg : Server) (actor event : ℕ) (db : Db) where
  -- While the server answers, a POST into a room of the event, with a start before its end and a
  -- fresh id, at a time when a live session has the room or the speaker, is a conflict and changes
  -- nothing.
  pub create_session-booked :
      (input : SessionInput) (room : Room)
      → Up pg
      → find_row (λ r. r.id == input.room_id && r.event_id == event) db.rooms ≡ some room
      → input.starts_at < input.ends_at
      → any (λ r. r.id == pg.uuid) db.sessions ≡ false
      → IsBooked db pg.uuid input.room_id input.speaker_id input.starts_at input.ends_at
      → create_session pg actor event input db ≡ (err conflict, db)
  unfolding create_session insert_session
  create_session-booked input room up there bounded fresh b =
      let row = new_row pg event input in
      let taken : any (excludes row) db.sessions ≡ true =
        any-mem (excludes row) db.sessions b.listed (ground (arith, excludes_booked db row b)) in
      ground (arith, up begin, up exec)

  -- A PATCH of both bounds that moves a session of the right version onto a time when another live
  -- session has its room or speaker fails as an internal error and changes nothing; it is not
  -- reported as a conflict.
  pub update_session-booked :
      (id version : ℕ) (patch : SessionPatch) (old : SessionRow)
      → find_row (gated event id version) db.sessions ≡ some old
      → patch.starts_at.set ≡ true
      → patch.ends_at.set ≡ true
      → IsBooked db old.id old.room_id old.speaker_id patch.starts_at.value patch.ends_at.value
      → update_session pg actor event id version patch db ≡ (err internal, db)
  unfolding update_session update_change
  update_session-booked id version patch old found s e b =
      let new = patched_row pg patch old in
      let taken : any (λ r. not (r.id == new.id) && excludes new r) db.sessions ≡ true =
        any-mem _ db.sessions b.listed (ground arith) in
      ground arith
