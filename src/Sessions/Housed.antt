-- ===== src/Sessions/Housed.antt =====
-- Sessions stay in rooms of their own event.
use krane_event_management_p.Common.{
  ℕ, ◌≡◌, true, ◌==◌, ◌&&◌, some, any, ok, arith, All-get, All-update_row, any-of_find_row,
  find_row, find_row-mem,
}
use krane_event_management_p.Domain.{SessionInput, SessionPatch}
use krane_event_management_p.Store.{SessionRow, Db, Server, update, delete}
use krane_event_management_p.Sessions.{
  create_session, gated, update_change, update_session, delete_session, cancelled_row,
}
use krane_event_management_p.Sessions.Writes.{create_session-keeps, versioned_write-keeps}
use krane_event_management_p.Rooms.References.{IsHoused}

module _ (event id version : ℕ) (db : Db) (v : IsHoused db) (old new : SessionRow) where
  -- A write that leaves the room and the event of a session alone.
  stays :
      find_row (gated event id version) db.sessions ≡ some old
      → new.room_id ≡ old.room_id
      → new.event_id ≡ old.event_id
      → any (λ r. r.id == new.room_id && r.event_id == new.event_id) db.rooms ≡ true
  stays found r e =
      rw (r, e) (All-get _ db.sessions v (find_row-mem (gated event id version) db.sessions found))

module _ (pg : Server) (actor event : ℕ) (db : Db) (v : IsHoused db) where
  pub create_session-IsHoused :
      (input : SessionInput) → IsHoused (create_session pg actor event input db).1
  create_session-IsHoused input =
      create_session-keeps pg actor event input db IsHoused v
        (λ c. (any-of_find_row _ db.rooms c.room.1, v))

  pub update_session-IsHoused :
      (id version : ℕ) (patch : SessionPatch)
      → IsHoused (update_session pg actor event id version patch db).1
  unfolding update_session update_change
  update_session-IsHoused id version patch =
      versioned_write-keeps pg actor event id version update (update_change pg patch db) db IsHoused
        v
        (λ new c.
          All-update_row _ (gated event id version) (λ _. new) db.sessions v
            (λ x q.
              stays event id version db v c.old new c.found (ground (arith, c.changed))
                (ground (arith, c.changed))))

  pub delete_session-IsHoused :
      (id version : ℕ) → IsHoused (delete_session pg actor event id version db).1
  unfolding delete_session
  delete_session-IsHoused id version =
      versioned_write-keeps pg actor event id version delete (λ s. ok (cancelled_row pg s)) db
        IsHoused v
        (λ new c.
          All-update_row _ (gated event id version) (λ _. new) db.sessions v
            (λ x q.
              stays event id version db v c.old new c.found (ground (arith, c.changed))
                (ground (arith, c.changed))))
