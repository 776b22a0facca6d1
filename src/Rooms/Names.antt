-- ===== src/Rooms/Names.antt =====
-- The keys of rooms: a name is taken once in an event.
use text.Mathlib.TextEquality.{eq_iff}
use krane_event_management_p.Common.{
  ℕ, ◌≡◌, ◌≢◌, sym, true, false, List, arith, All-of, All, Pairwise, any-false, All-update_row,
  All-remove_row, Pairwise-update_row, Pairwise-remove_row,
}
use krane_event_management_p.Domain.{Room, RoomInput, RoomPatch}
use krane_event_management_p.Store.{Db, Server}
use krane_event_management_p.Rooms.{
  same_name, has_capacity, new_row, create_room, gated, patched_row, update_room, delete_room,
}
use krane_event_management_p.Rooms.Writes.{create_room-keeps, update_room-keeps, delete_room-keeps}

-- PRIMARY KEY (id) and rooms_event_id_name_key.
abbrev pub Distinct : Room → Room → Type 0
Distinct a b = (a.id ≢ b.id) × ¬ ((a.event_id ≡ b.event_id) × (a.name ≡ b.name))

pub record IsNamed (rooms : List Room) : Type 0 where
  pub distinct : Pairwise Distinct rooms
  pub capacity : All (λ r. has_capacity r.capacity ≡ true) rooms

Distinct-sym : (a b : Room) → Distinct a b → Distinct b a
Distinct-sym a b h = (λ e. h.0 (sym e), λ p. h.1 (sym p.0, sym p.1))

same_name-Distinct : (a b : Room) → a.id ≢ b.id → same_name a b ≡ false → Distinct a b
same_name-Distinct a b d h = (d, λ p. ground (arith, eq_iff a.name b.name, p.0, p.1))

module _ (pg : Server) (actor event : ℕ) (db : Db) (v : IsNamed db.rooms) where
  pub create_room-IsNamed :
      (input : RoomInput) → IsNamed (create_room pg actor event input db).1.rooms
  create_room-IsNamed input =
      create_room-keeps pg actor event input db (λ d. IsNamed d.rooms) v
        (λ c. record {
          distinct = (
            All-of _ db.rooms (λ r m.
                let f = any-false _ db.rooms c.fresh m in
                same_name-Distinct (new_row pg event input) r (ground (arith, f))
                  (ground (arith, f))),
            v.distinct,
          );
          capacity = (c.capacity, v.capacity);
        })

  pub update_room-IsNamed :
      (id version : ℕ) (patch : RoomPatch)
      → IsNamed (update_room pg actor event id version patch db).1.rooms
  update_room-IsNamed id version patch =
      update_room-keeps pg actor event id version patch db (λ d. IsNamed d.rooms) v
        (λ c. record {
          distinct =
              Pairwise-update_row Distinct (gated event id version) (patched_row pg patch) db.rooms
                Distinct-sym v.distinct
                (λ x y q m h.
                  let same : x ≡ c.old = ground (arith, q, c.found) in
                  let f = any-false _ db.rooms c.free m in
                  same_name-Distinct (patched_row pg patch x) y h.0
                    (rw same (ground (arith, f, h.0, same))));
          capacity =
              All-update_row _ (gated event id version) (patched_row pg patch) db.rooms v.capacity
                (λ x q. let same : x ≡ c.old = ground (arith, q, c.found) in rw same c.capacity);
        })

  pub delete_room-IsNamed :
      (id version : ℕ) → IsNamed (delete_room pg actor event id version db).1.rooms
  delete_room-IsNamed id version =
      delete_room-keeps pg actor event id version db (λ d. IsNamed d.rooms) v
        (λ c. record {
          distinct = Pairwise-remove_row Distinct _ db.rooms v.distinct;
          capacity = All-remove_row _ _ db.rooms v.capacity;
        })
