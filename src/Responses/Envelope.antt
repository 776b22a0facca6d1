-- ===== src/Responses/Envelope.antt =====
-- internal/http/response/error.go: the envelope of an error, and a whole response, which is a status
-- with a body.
use krane_event_management_p.Common.{ℕ, String, Bool, true, false, Option, none, some, List}
use krane_event_management_p.Requests.Issues.{Issue}
use krane_event_management_p.Responses.Rows.{
  ListResponse, EventResponse, MemberResponse, RoomResponse, InvitationResponse,
  BulkInviteItemResponse,
}
use krane_event_management_p.Responses.Sessions.{SessionResponse, SeriesResponse}

pub data Payload : Type 0 where
  no_content healthy : Payload
  of_event : EventResponse → Payload
  of_events : ListResponse EventResponse → Payload
  of_member : MemberResponse → Payload
  of_members : ListResponse MemberResponse → Payload
  of_room : RoomResponse → Payload
  of_rooms : ListResponse RoomResponse → Payload
  of_session : SessionResponse → Payload
  of_sessions : ListResponse SessionResponse → Payload
  of_series : SeriesResponse → Payload
  of_invitation : InvitationResponse → Payload
  of_invitations : ListResponse InvitationResponse → Payload
  of_bulk : List BulkInviteItemResponse → Payload

-- The details: {}, the issues of a validation, those of a list of invitations, or {"current": ...},
-- where none is null.
pub data Details : Type 0 where
  no_details : Details
  issues : List Issue → Details
  invitation_issues : List (List Issue) → Details
  current : Option Payload → Details

pub record ErrorBody : Type 0 where
  pub code : String
  pub message : String
  pub details : Details

pub data Body : Type 0 where
  success : Payload → Body
  failure : ErrorBody → Body

-- `panicked` is a handler that does not return.
pub data Response : Type 0 where
  answered : ℕ → Body → Response
  panicked : Response

abbrev pub write_error : ℕ → String → String → Details → Response
write_error status code message details =
    answered status (failure (record { code = code; message = message; details = details }))

abbrev pub write_json : ℕ → Payload → Response
write_json status payload = answered status (success payload)

abbrev pub write_validation_error : Details → Response
write_validation_error details =
    write_error 422 "validation_failed" "the request failed validation" details

abbrev pub write_internal_error : Response
write_internal_error = write_error 500 "internal" "an unexpected error occurred" no_details

-- The status, where 0 stands for none.
unfoldable pub status_of : Response → ℕ
status_of (answered status body) = status
status_of panicked = 0

-- What a handler's prologue comes to: an early return with a response, or a value.
pub data Early {ℓ} (A : Type ℓ) : Type ℓ where
  stop : Response → Early A
  next : A → Early A

infixl 5 ◌>>=◌ ◌>>◌
abbrev pub ◌>>=◌ {ℓ κ} : {A : Type ℓ} {B : Type κ} → Early A → (A → Early B) → Early B
stop r >>= k = stop r
next a >>= k = k a

abbrev pub ◌>>◌ {ℓ} : {B : Type ℓ} → Early (Unit {0}) → Early B → Early B
m >> k = m >>= λ _. k

abbrev pub stop_if : Bool → Response → Early (Unit {0})
stop_if true r = stop r
stop_if false r = next tt

abbrev pub or_stop {ℓ} : {A : Type ℓ} → Option A → Response → Early A
or_stop none r = stop r
or_stop (some a) r = next a

abbrev pub finish : Early Response → Response
finish (stop r) = r
finish (next r) = r
