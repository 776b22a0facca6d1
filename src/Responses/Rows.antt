-- ===== src/Responses/Rows.antt =====
-- internal/http/response/event.go, member.go, room.go and invitation.go
use krane_event_management_p.Common.{ℕ, String, Bool, Option, none, some, List, map, if◌then◌else◌}
use krane_event_management_p.Domain.{
  Role, is_admin, Event, Member, Room, Invitation, BulkStatus, BulkItemResult, BulkResult, Cursor,
}
use krane_event_management_p.Pages.{Page}
use krane_event_management_p.Utils.Cursors.{Codec, encode_cursor}

-- The envelope of every list.
pub record ListResponse (A : Type 0) : Type 0 where
  pub data_rows : List A
  pub next_cursor : Option String

-- The token of the next page, or the panic of EncodeCursor.
unfoldable pub next_token : Codec → Option Cursor → Option (Option String)
next_token codec none = some none
next_token codec (some cursor) = elim (encode_cursor codec cursor) [
  | none ↦ none
  | some token ↦ some (some token)
]

-- What a New...ListResponse returns, where it does not panic.
abbrev pub list_response : {A B : Type 0} → Codec → (A → B) → Page A → Option (ListResponse B)
list_response codec present page = elim (next_token codec page.next_cursor) [
  | none ↦ none
  | some token ↦ some (record { data_rows = map present page.items; next_cursor = token })
]

pub record EventResponse : Type 0 where
  pub id : ℕ
  pub name : String
  pub description : Option String
  pub timezone : String
  pub starts_at : ℕ
  pub ends_at : ℕ
  pub version : ℕ
  pub created_at : ℕ
  pub updated_at : ℕ

abbrev pub event_response : Event → EventResponse
event_response e = record {
  id = e.id;
  name = e.name;
  description = e.description;
  timezone = e.timezone;
  starts_at = e.starts_at;
  ends_at = e.ends_at;
  version = e.version;
  created_at = e.created_at;
  updated_at = e.updated_at;
}

unfoldable pub event_list_response : Codec → Page Event → Option (ListResponse EventResponse)
event_list_response codec page = list_response codec event_response page

pub record MemberResponse : Type 0 where
  pub id : ℕ
  pub event_id : ℕ
  pub user_id : ℕ
  pub user_email : Option String
  pub user_name : String
  pub role : Role
  pub version : ℕ
  pub created_at : ℕ
  pub updated_at : ℕ

abbrev pub can_see_member_email : Role → Bool
can_see_member_email caller = is_admin caller

unfoldable pub member_response : Role → Member → MemberResponse
member_response caller m = record {
  id = m.id;
  event_id = m.event_id;
  user_id = m.user_id;
  user_email = if can_see_member_email caller then some m.user_email else none;
  user_name = m.user_name;
  role = m.role;
  version = m.version;
  created_at = m.created_at;
  updated_at = m.updated_at;
}

unfoldable pub member_list_response :
    Codec → Role → Page Member → Option (ListResponse MemberResponse)
unfolding member_response
member_list_response codec caller page = list_response codec (member_response caller) page

pub record RoomResponse : Type 0 where
  pub id : ℕ
  pub event_id : ℕ
  pub name : String
  pub capacity : Option ℕ
  pub version : ℕ
  pub created_at : ℕ
  pub updated_at : ℕ

abbrev pub room_response : Room → RoomResponse
room_response r = record {
  id = r.id;
  event_id = r.event_id;
  name = r.name;
  capacity = r.capacity;
  version = r.version;
  created_at = r.created_at;
  updated_at = r.updated_at;
}

unfoldable pub room_list_response : Codec → Page Room → Option (ListResponse RoomResponse)
room_list_response codec page = list_response codec room_response page

pub record InvitationResponse : Type 0 where
  pub id : ℕ
  pub event_id : ℕ
  pub user_id : Option ℕ
  pub email : String
  pub role : Role
  pub created_at : ℕ
  pub updated_at : ℕ

abbrev pub invitation_response : Invitation → InvitationResponse
invitation_response i = record {
  id = i.id;
  event_id = i.event_id;
  user_id = i.user_id;
  email = i.email;
  role = i.role;
  created_at = i.created_at;
  updated_at = i.updated_at;
}

unfoldable pub invitation_list_response :
    Codec → Page Invitation → Option (ListResponse InvitationResponse)
invitation_list_response codec page = list_response codec invitation_response page

pub record BulkInviteItemResponse : Type 0 where
  pub email : String
  pub status : BulkStatus
  pub invitation_id : Option ℕ

abbrev pub bulk_item_response : BulkItemResult → BulkInviteItemResponse
bulk_item_response r = record {
  email = r.email;
  status = r.status;
  invitation_id = r.invitation_id;
}

abbrev pub bulk_invite_response : BulkResult → List BulkInviteItemResponse
bulk_invite_response result = map bulk_item_response result.items
