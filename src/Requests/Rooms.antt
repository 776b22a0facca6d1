-- ===== src/Requests/Rooms.antt =====
-- internal/http/request/room.go
use krane_event_management_p.Common.{String, Bool, false, not, ◌&&◌, Option, none, some, List, ◌++◌}
use krane_event_management_p.Domain.{Optional, RoomInput, RoomPatch}
use krane_event_management_p.Utils.Text.{is_blank}
use krane_event_management_p.Utils.Integers.{ℤ, is_positive, to_ℕ}
use krane_event_management_p.Requests.Issues.{Issue, issue_if}
use krane_event_management_p.Common.{ℕ}

pub record CreateRoomRequest : Type 0 where
  pub name : String
  pub capacity : Option ℤ

pub record PatchRoomRequest : Type 0 where
  pub version : ℤ
  pub name : Optional String
  pub capacity : Optional (Option ℤ)

-- c != nil && *c <= 0
abbrev pub bad_capacity : Option ℤ → Bool
bad_capacity none = false
bad_capacity (some c) = not (is_positive c)

unfoldable pub validate_create_room : CreateRoomRequest → List Issue
validate_create_room r =
    issue_if (is_blank r.name) "name" "is required"
    ++ issue_if (bad_capacity r.capacity) "capacity" "must be greater than zero"

unfoldable pub validate_patch_room : PatchRoomRequest → List Issue
validate_patch_room r =
    issue_if (not (is_positive r.version)) "version" "is required"
    ++ (issue_if (r.name.set && is_blank r.name.value) "name" "must not be blank"
        ++ issue_if (r.capacity.set && bad_capacity r.capacity.value) "capacity"
            "must be greater than zero")

-- A capacity that passed the validation is positive.
abbrev pub capacity_of : Option ℤ → Option ℕ
capacity_of none = none
capacity_of (some c) = some (to_ℕ c)

abbrev pub to_create_input : CreateRoomRequest → RoomInput
to_create_input r = record { name = r.name; capacity = capacity_of r.capacity }

abbrev pub to_patch : PatchRoomRequest → RoomPatch
to_patch r = record {
  name = r.name;
  capacity = record { value = capacity_of r.capacity.value; set = r.capacity.set };
}
