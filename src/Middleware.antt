-- ===== src/Middleware.antt =====
-- internal/http/middleware, and internal/adapter/auth/verifier.go: a request is authenticated, then
-- authorized for the event of its path, before its handler runs.
pub mod Refusals
use text.Mathlib.Text.{◌==◌ as str_eq, starts_with}
use Prim.Native.String.{len, slice}
use krane_event_management_p.Common.{
  ℕ, String, Bool, true, false, ◌||◌, Option, none, some, List, if◌then◌else◌, Result, ok, err,
}
use krane_event_management_p.Domain.{User, Role}
use krane_event_management_p.Store.{Db, Server}
use krane_event_management_p.Policy.{PermKey, Resource, Action, can}
use krane_event_management_p.Services.{get_or_create_service}
use krane_event_management_p.Responses.Envelope.{
  Response, no_details, write_error, write_internal_error,
}
use krane_event_management_p.Handlers.Context.{Request, is_empty}

-- The claims of a token, as go-oidc decodes them.
pub record TokenClaims : Type 0 where
  pub subject : String
  pub email : String
  pub name : String

-- go-oidc, which verifies a token and decodes its claims, the permissions that the policy has loaded,
-- how PostgreSQL reads a uuid, and PostgreSQL as the sign-in and the policy's lookup find it.
pub record Gate : Type 0 where
  pub id_token : String → Option TokenClaims
  pub permissions : List PermKey
  pub uuid_in : String → Option ℕ
  pub user_pg : Server
  pub policy_pg : Server

pub data Verified : Type 0 where
  token_invalid missing_claims : Verified
  claims_of : TokenClaims → Verified

-- Verifier.Verify
unfoldable pub verify : (String → Option TokenClaims) → String → Verified
verify id_token raw = elim (id_token raw) [
  | none ↦ token_invalid
  | some c ↦
      if is_empty c.subject || (is_empty c.email || is_empty c.name)
      then missing_claims
      else claims_of c
]

abbrev pub bearer_prefix : String
bearer_prefix = "Bearer "

abbrev pub token_text : String → Option String
token_text token = if is_empty token then none else some token

unfoldable pub bearer_token : String → Option String
bearer_token h =
    if starts_with h bearer_prefix then token_text (slice h (len bearer_prefix) (len h)) else none

abbrev pub write_unauthorized : Response
write_unauthorized = write_error 401 "unauthorized" "missing or invalid access token" no_details

abbrev pub write_forbidden : Response
write_forbidden =
    write_error 403 "forbidden" "you do not have permission to perform this action" no_details

abbrev pub Handler : Type 0
Handler = Request → Db → Response × Db

abbrev pub with_user : Handler → Request → Result User × Db → Response × Db
with_user handler r (ok u, db) = handler (record r { user = some u }) db
with_user handler r (err e, db) = (write_unauthorized, db)

module _ (gate : Gate) where
  -- The sign-in of a token that was verified.
  unfoldable pub resolve_user : TokenClaims → Db → Result User × Db
  resolve_user c db = get_or_create_service gate.user_pg c.subject c.email c.name db

  unfoldable pub auth : Handler → Handler
  unfolding resolve_user
  auth handler r db = elim (bearer_token r.authorization) [
    | none ↦ (write_unauthorized, db)
    | some token ↦ elim (verify gate.id_token token) [
      | token_invalid ↦ (write_unauthorized, db)
      | missing_claims ↦ (write_unauthorized, db)
      | claims_of c ↦ with_user handler r (resolve_user c db)
    ]
  ]

  -- What follows policy.Can.
  abbrev pub with_caller_role : Handler → Request → Db → Result (Bool × Option Role) → Response × Db
  with_caller_role handler r db (err e) = (write_internal_error, db)
  with_caller_role handler r db (ok (false, role)) = (write_forbidden, db)
  with_caller_role handler r db (ok (true, role)) = handler (record r { caller_role = role }) db

  abbrev pub checked_for : Resource → Action → Handler → Request → Db → User → Response × Db
  checked_for resource action handler r db u =
      if is_empty r.event_id then (write_internal_error, db) else elim (gate.uuid_in r.event_id) [
        | none ↦ (write_internal_error, db)
        | some e ↦
            with_caller_role handler r db
              (can gate.policy_pg gate.permissions u.id e action resource db)
      ]

  unfoldable pub authz : Resource → Action → Handler → Handler
  authz resource action handler r db = elim r.user [
    | none ↦ (write_internal_error, db)
    | some u ↦ checked_for resource action handler r db u
  ]
