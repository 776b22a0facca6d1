-- ===== src/Domain.antt =====
-- The types of internal/domain: roles, the entities that the repositories return, and the inputs and
-- patches that they take. Ids (uuid), instants and versions are natural numbers; instants count
-- nanoseconds from the zero time.Time, the start of the year 1.
use krane_event_management_p.Common.{ℕ, String, Bool, true, false, Option, List, if◌then◌else◌}

-- The text of event_members.role and invitations.role; `other` is any text but the three known ones.
pub data Role : Type 0 where
  admin contributor attendee : Role
  other : String → Role

abbrev pub is_admin : Role → Bool
is_admin admin = true
is_admin _ = false

abbrev pub is_attendee : Role → Bool
is_attendee attendee = true
is_attendee _ = false

-- The CHECK constraint on both role columns.
abbrev pub is_known : Role → Bool
is_known (other _) = false
is_known _ = true

-- opt.Optional: `set` is false when the key was absent from the request.
pub record Optional (A : Type 0) : Type 0 where
  pub value : A
  pub set : Bool

abbrev pub of_value : {A : Type 0} → A → Optional A
of_value v = record { value = v; set = true }

-- The column of an UPDATE that is in the SET list only when the patch carries the field.
abbrev pub patched : {A : Type 0} → Optional A → A → A
patched o old = if o.set then o.value else old

pub record User : Type 0 where
  pub id : ℕ
  pub subject : String
  pub email : String
  pub name : String
  pub created_at : ℕ
  pub updated_at : ℕ

pub record Event : Type 0 where
  pub id : ℕ
  pub name : String
  pub description : Option String
  pub timezone : String
  pub starts_at : ℕ
  pub ends_at : ℕ
  pub version : ℕ
  pub created_at : ℕ
  pub updated_at : ℕ

pub record EventInput : Type 0 where
  pub name : String
  pub description : Option String
  pub timezone : String
  pub starts_at : ℕ
  pub ends_at : ℕ

pub record EventPatch : Type 0 where
  pub name : Optional String
  pub description : Optional (Option String)
  pub timezone : Optional String
  pub starts_at : Optional ℕ
  pub ends_at : Optional ℕ

pub record Member : Type 0 where
  pub id : ℕ
  pub event_id : ℕ
  pub user_id : ℕ
  pub user_email : String
  pub user_name : String
  pub role : Role
  pub version : ℕ
  pub created_at : ℕ
  pub updated_at : ℕ

-- member.CreateInput, and invitation.CreateInput, which has the same fields.
pub record GrantInput : Type 0 where
  pub email : String
  pub role : Role

pub record Room : Type 0 where
  pub id : ℕ
  pub event_id : ℕ
  pub name : String
  pub capacity : Option ℕ
  pub version : ℕ
  pub created_at : ℕ
  pub updated_at : ℕ

pub record RoomInput : Type 0 where
  pub name : String
  pub capacity : Option ℕ

pub record RoomPatch : Type 0 where
  pub name : Optional String
  pub capacity : Optional (Option ℕ)

pub record Session : Type 0 where
  pub id : ℕ
  pub event_id : ℕ
  pub room_id : ℕ
  pub speaker_id : ℕ
  pub title : String
  pub description : Option String
  pub starts_at : ℕ
  pub ends_at : ℕ
  pub version : ℕ
  pub created_at : ℕ
  pub updated_at : ℕ
  pub room_name : String
  pub speaker_name : String
  pub series_id : Option ℕ

pub record SessionInput : Type 0 where
  pub room_id : ℕ
  pub speaker_id : ℕ
  pub title : String
  pub description : Option String
  pub starts_at : ℕ
  pub ends_at : ℕ
  pub series_id : Option ℕ

pub record SessionPatch : Type 0 where
  pub title : Optional String
  pub description : Optional (Option String)
  pub starts_at : Optional ℕ
  pub ends_at : Optional ℕ

-- `freq` is "daily" or "weekly", or another text, which a CHECK constraint refuses.
pub data Freq : Type 0 where
  daily weekly : Freq
  other : String → Freq

pub record Series : Type 0 where
  pub id : ℕ
  pub event_id : ℕ
  pub room_id : ℕ
  pub speaker_id : ℕ
  pub title : String
  pub description : Option String
  pub freq : Freq
  pub interval_count : ℕ
  pub occurrences : ℕ
  pub created_at : ℕ

pub record SeriesInput : Type 0 where
  pub room_id : ℕ
  pub speaker_id : ℕ
  pub title : String
  pub description : Option String
  pub first_starts_at : ℕ
  pub first_ends_at : ℕ
  pub freq : Freq
  pub interval_count : ℕ
  pub occurrences : ℕ

pub data OccurrenceStatus : Type 0 where
  created conflict : OccurrenceStatus

pub record OccurrenceResult : Type 0 where
  pub starts_at : ℕ
  pub status : OccurrenceStatus
  pub session_id : Option ℕ

pub record Invitation : Type 0 where
  pub id : ℕ
  pub event_id : ℕ
  pub user_id : Option ℕ
  pub email : String
  pub role : Role
  pub created_at : ℕ
  pub updated_at : ℕ

pub data BulkStatus : Type 0 where
  created conflict forbidden : BulkStatus

pub record BulkItemResult : Type 0 where
  pub email : String
  pub status : BulkStatus
  pub invitation_id : Option ℕ

pub record BulkResult : Type 0 where
  pub items : List BulkItemResult
  pub replayed : Bool

-- The keyset position that a page was cut at.
pub record Cursor : Type 0 where
  pub created_at : ℕ
  pub id : ℕ
