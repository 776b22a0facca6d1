-- ===== src/Handlers/Context.antt =====
-- What a handler reads of a request, and the prologue that the handlers share: the user and the role
-- that the middleware attached, path values, query parameters and the body.
use text.Mathlib.Text.{◌==◌ as str_eq}
use krane_event_management_p.Common.{
  ℕ, String, Bool, ◌||◌, ltb, Option, none, some, List, [], ◌∷◌, if◌then◌else◌,
}
use krane_event_management_p.Domain.{User, Role}
use krane_event_management_p.Store.{Db, Server}
use krane_event_management_p.Utils.Integers.{ℤ, is_positive, to_ℕ, atoi}
use krane_event_management_p.Utils.LocalTime.{Location}
use krane_event_management_p.Utils.Cursors.{Codec, CursorPayload, decode_cursor}
use krane_event_management_p.Services.{CursorText}
use krane_event_management_p.Requests.Issues.{Issue, has_issues}
use krane_event_management_p.Requests.Events.{CreateEventRequest, PatchEventRequest}
use krane_event_management_p.Requests.Members.{GrantRequest, AssignRoleRequest, BulkInviteRequest}
use krane_event_management_p.Requests.Rooms.{CreateRoomRequest, PatchRoomRequest}
use krane_event_management_p.Requests.Sessions.{
  CreateSessionRequest, SeriesCreateRequest, PatchSessionRequest,
}
use krane_event_management_p.Responses.Envelope.{
  Response, panicked, Payload, write_json, Details, no_details, issues, write_error,
  write_validation_error, write_internal_error, Early, stop, next, stop_if, or_stop,
}

-- encoding/json into each type of body: none is an error.
pub record Json : Type 0 where
  pub create_event_body : String → Option CreateEventRequest
  pub patch_event_body : String → Option PatchEventRequest
  pub grant_body : String → Option GrantRequest
  pub assign_role_body : String → Option AssignRoleRequest
  pub bulk_invite_body : String → Option BulkInviteRequest
  pub create_room_body : String → Option CreateRoomRequest
  pub patch_room_body : String → Option PatchRoomRequest
  pub create_session_body : String → Option CreateSessionRequest
  pub create_series_body : String → Option SeriesCreateRequest
  pub patch_session_body : String → Option PatchSessionRequest

-- What is not of this repository: the packages, and PostgreSQL as each call of a request finds it:
-- the time zone lookup, the service's call, its later transactions, and the read after a conflict.
pub record Env : Type 0 where
  pub codec : Codec
  pub json : Json
  pub load_location : String → Option Location
  pub sha256_hex : String → String
  pub zone_pg : Server
  pub pg : Server
  pub later_pg : ℕ → Server
  pub last_pg : Server
  pub meanwhile : Db → Db
  pub current_pg : Server

-- `item_id` is the second path value, `authorization` and `idempotency_key` are headers. A missing path value, query parameter or header is "", and a
-- body that cannot be read is none.
pub record Request : Type 0 where
  pub user : Option User
  pub caller_role : Option Role
  pub authorization : String
  pub event_id : String
  pub item_id : String
  pub limit : String
  pub cursor : String
  pub version : String
  pub idempotency_key : String
  pub body : Option String

-- UserFromContext and RoleFromContext, with the 500 that the handlers answer without them.
abbrev pub actor_of : Request → Early User
actor_of r = or_stop r.user write_internal_error

abbrev pub caller_role_of : Request → Early Role
caller_role_of r = or_stop r.caller_role write_internal_error

abbrev pub is_empty : String → Bool
is_empty s = str_eq s ""

abbrev pub require_event : Request → Early (Unit {0})
require_event r = stop_if (is_empty r.event_id) write_internal_error

abbrev pub require_item : Request → Early (Unit {0})
require_item r = stop_if (is_empty r.event_id || is_empty r.item_id) write_internal_error

abbrev pub one_issue : String → String → Details
one_issue field message = issues (record { field = field; message = message } ∷ [])

-- A body that cannot be read or decoded, and a body with issues.
abbrev pub decoded : {A : Type 0} → (String → Option A) → Request → Early A
decoded decode r = elim r.body [
  | none ↦ stop (write_validation_error (one_issue "body" "must be valid JSON"))
  | some raw ↦ or_stop (decode raw) (write_validation_error (one_issue "body" "must be valid JSON"))
]

abbrev pub reject : List Issue → Early (Unit {0})
reject found = stop_if (has_issues found) (write_validation_error (issues found))

-- The integer of a text, where it is one and positive.
abbrev pub positive_of : Option ℤ → Option ℕ
positive_of none = none
positive_of (some n) = if is_positive n then some (to_ℕ n) else none

unfoldable pub version_of : Request → Early ℕ
version_of r =
    or_stop (if is_empty r.version then none else positive_of (atoi r.version))
      (write_validation_error (one_issue "version" "is required and must be a positive integer"))

abbrev pub default_list_limit : ℕ
default_list_limit = 25

abbrev pub max_list_limit : ℕ
max_list_limit = 100

abbrev pub up_to_max : Option ℕ → Option ℕ
up_to_max none = none
up_to_max (some n) = if ltb max_list_limit n then none else some n

unfoldable pub limit_of : Request → Early ℕ
limit_of r =
    if is_empty r.limit
    then next default_list_limit
    else or_stop (up_to_max (positive_of (atoi r.limit))) (
        write_validation_error (one_issue "limit" "must be a positive integer no greater than 100"))

abbrev pub cursor_text : CursorPayload → CursorText
cursor_text p = record { created_at = p.created_at; id = p.id }

unfoldable pub cursor_of : Codec → Request → Early (Option CursorText)
cursor_of codec r = if is_empty r.cursor then next none else elim (decode_cursor codec r.cursor) [
  | none ↦
      stop (write_error 400 "invalid_cursor" "the cursor query parameter is malformed" no_details)
  | some p ↦ next (some (cursor_text p))
]

-- A handler: its prologue ends early, with the tables as they were, or comes to its response.
abbrev pub run : Db → Early (Response × Db) → Response × Db
run db (stop r) = (r, db)
run db (next out) = out

-- A list has no write: a page, or a panic, of the presenter or of the repository.
abbrev pub listed : {A : Type 0} → (A → Payload) → Option A → Response
listed payload none = panicked
listed payload (some list) = write_json 200 (payload list)

abbrev pub page_response : {A B : Type 0} → Option A → (A → Option B) → (B → Payload) → Response
page_response none present payload = panicked
page_response (some page) present payload = listed payload (present page)
