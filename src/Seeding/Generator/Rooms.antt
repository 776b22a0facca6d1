-- ===== src/Seeding/Generator/Rooms.antt =====
-- addRooms: the rooms of an event have different names, and their ids are new.
use krane_event_management_p.Common.{
  ℕ, zero, suc, ◌+◌, ◌≤◌, ◌<◌, ◌≡◌, refl, Bool, false, ◌==◌, ◌&&◌, List, [], ◌∷◌, length, All,
  All_mono, Pairwise, arith,
}
use krane_event_management_p.Seeding.Generator.{
  RoomName, lettered, numbered, SeedRoom, Ids, room_name, add_room, add_rooms,
}
use krane_event_management_p.Seeding.Roster.Draws.{AllDistinct}

abbrev pub named_alike : RoomName → RoomName → Bool
named_alike (lettered a) (lettered b) = a == b
named_alike (numbered a) (numbered b) = a == b
named_alike (lettered a) (numbered b) = false
named_alike (numbered a) (lettered b) = false

-- UNIQUE (event_id, name)
abbrev pub AreNamed : List SeedRoom → Type 0
AreNamed = Pairwise (λ a b. (a.event_id == b.event_id && named_alike a.name b.name) ≡ false)

-- newUUIDv7 gives no id twice.
abbrev pub IsFresh : (ℕ → ℕ) → Type 0
IsFresh uuid = (j k : ℕ) → uuid j ≡ uuid k → j ≡ k

abbrev pub IsNameFree : ℕ → ℕ → List SeedRoom → Type 0
IsNameFree event k = All (λ r. (event == r.event_id && named_alike (room_name k) r.name) ≡ false)

pub room_name_injective : (j k : ℕ) → j < k → named_alike (room_name k) (room_name j) ≡ false
room_name_injective j k h = ground (arith, h)

pub record Houses (ids : Ids) (event left : ℕ) (xs ys : List SeedRoom) (rooms : List ℕ)
    : Type 0 where
  pub named : AreNamed ys
  pub number : length ys ≡ length xs + left
  pub others :
      (e : ℕ)
      → (event == e) ≡ false
      → All (λ r. (r.event_id == e) ≡ false) xs
      → All (λ r. (r.event_id == e) ≡ false) ys
  pub new : All (λ r. (j : ℕ) × (length xs ≤ j) × (j < length ys) × (r ≡ ids.room j)) rooms
  pub distinct : AllDistinct rooms

-- A new id is none of the later ones.
apart_of_later :
    (ids : Ids) (n top : ℕ) (rooms : List ℕ)
    → IsFresh ids.room
    → All (λ r. (j : ℕ) × (suc n ≤ j) × (j < top) × (r ≡ ids.room j)) rooms
    → All (λ r. (ids.room n == r) ≡ false) rooms
apart_of_later ids n top [] fresh h = tt
apart_of_later ids n top (r ∷ rooms) fresh h =
    let (j, lo, hi, e) = h.0 in
    (ground (arith, lo, e, fresh n j), apart_of_later ids n top rooms fresh h.1)

pub add_rooms-Houses :
    (ids : Ids) (event k left : ℕ) (xs : List SeedRoom)
    → IsFresh ids.room
    → AreNamed xs
    → ((m : ℕ) → k ≤ m → IsNameFree event m xs)
    → Houses ids event left xs (add_rooms ids event k left xs).0 (add_rooms ids event k left xs).1
unfolding add_rooms
add_rooms-Houses ids event k zero xs fresh named free = record {
  named = named;
  number = omega arith;
  others = λ e o h. h;
  new = tt;
  distinct = tt;
}
add_rooms-Houses ids event k (suc left) xs fresh named free =
    let rest =
      add_rooms-Houses ids event (suc k) left (add_room ids event k xs) fresh
        (free k (omega arith), named)
        (λ m le. (ground (arith, room_name_injective k m), free m (omega (arith, le)))) in
    record {
      named = rest.named;
      number = omega (arith, rest.number);
      others = λ e o h. rest.others e o (o, h);
      new = (
        (length xs, omega arith, omega (arith, rest.number), refl),
        All_mono _ _ _ rest.new (λ r q. (q.0, omega (arith, q.1), q.2, q.3)),
      );
      distinct = (apart_of_later ids (length xs) _ _ fresh rest.new, rest.distinct);
    }

pub free_names :
    (event m : ℕ) (xs : List SeedRoom)
    → All (λ r. (r.event_id == event) ≡ false) xs
    → IsNameFree event m xs
free_names event m xs h = All_mono _ _ xs h (λ r k. ground (arith, k))
