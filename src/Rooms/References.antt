-- ===== src/Rooms/References.antt =====
-- The rooms of sessions: every session's room is a room of its event, which no write of rooms or of
-- sessions breaks, and a room in use is not deleted.
use krane_event_management_p.Common.{
  ℕ, ◌≡◌, ◌⊎◌, true, false, ◌==◌, ◌&&◌, some, any, find_row, err, conflict, arith, All-of, All,
  All-get, any-false, any-update_row, any-remove_row, find_row-test,
}
use krane_event_management_p.Domain.{Room, RoomInput, RoomPatch}
use krane_event_management_p.Store.{Db, Server, Up, begin, exec, fits_int4}
use krane_event_management_p.Rooms.{
  create_room, gated, patched_row, update_room, delete_room, delete_body,
}
use krane_event_management_p.Rooms.Writes.{create_room-keeps, update_room-keeps, delete_room-keeps}

-- A room of the session's event has the session's room_id.
abbrev pub IsHoused : Db → Type 0
IsHoused db =
    All (λ s. any (λ r. r.id == s.room_id && r.event_id == s.event_id) db.rooms ≡ true) db.sessions

module _ (pg : Server) (actor event : ℕ) (db : Db) (v : IsHoused db) where
  pub create_room-IsHoused : (input : RoomInput) → IsHoused (create_room pg actor event input db).1
  create_room-IsHoused input =
      create_room-keeps pg actor event input db IsHoused v
        (λ c. All-of _ db.sessions (λ s m. let h = All-get _ db.sessions v m in ground (arith, h)))

  pub update_room-IsHoused :
      (id version : ℕ) (patch : RoomPatch)
      → IsHoused (update_room pg actor event id version patch db).1
  update_room-IsHoused id version patch =
      update_room-keeps pg actor event id version patch db IsHoused v (λ c.
        All-of _ db.sessions (λ s m.
          any-update_row (gated event id version) _ (patched_row pg patch) db.rooms
            (All-get _ db.sessions v m) (λ x p q. q)))

  pub delete_room-IsHoused :
      (id version : ℕ) → IsHoused (delete_room pg actor event id version db).1
  delete_room-IsHoused id version = delete_room-keeps pg actor event id version db IsHoused v (λ c.
      let here = find_row-test (gated event id version) db.rooms c.found in
      let unused : any (λ s. s.room_id == c.old.id) db.sessions ≡ false = ground (arith, c.free) in
      All-of _ db.sessions (λ s m.
        let other = any-false _ db.sessions unused m in
        any-remove_row (gated event id version) _ db.rooms (All-get _ db.sessions v m)
          (λ x p q. ground (arith, other, here))))

-- While the server answers, a DELETE of a room at the right version, one of 32 bits, that a session row, cancelled or
-- not, or a series refers to is a conflict and changes nothing.
pub delete_room-referenced :
    (pg : Server) (actor event id version : ℕ) (room : Room) (db : Db)
    → Up pg
    → fits_int4 version ≡ true
    → find_row (gated event id version) db.rooms ≡ some room
    → (any (λ s. s.room_id == room.id) db.sessions ≡ true)
      ⊎ (any (λ s. s.room_id == room.id) db.series ≡ true)
    → delete_room pg actor event id version db ≡ (err conflict, db)
unfolding delete_room delete_body
delete_room-referenced pg actor event id version room db up fits found used =
    ground (arith, up begin, up exec, used)
