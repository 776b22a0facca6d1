-- ===== src/Handlers/Sessions/Zones.antt =====
-- The local times of a session.
use krane_event_management_p.Common.{◌≡◌, String, [], arith}
use krane_event_management_p.Store.{Db}
use krane_event_management_p.Sessions.Writes.{create_session-times}
use krane_event_management_p.Utils.LocalTime.{
  Location, resolve_local_time, instant_of, resolve_local_time-format,
}
use krane_event_management_p.Requests.Sessions.{
  CreateSessionRequest, range_issues, validate_create_session, to_create_input,
}
use krane_event_management_p.Responses.Sessions.{SessionResponse, session_response}
use krane_event_management_p.Responses.Envelope.{of_session, write_json, next}
use krane_event_management_p.Handlers.Context.{Env, Request, decoded}
use krane_event_management_p.Handlers.Sessions.{
  event_timezone, create_session_error, create_session_handler,
}

-- The texts of a range without issues are those that the zone writes for their instants.
range_formats :
    (loc : Location) (f g message starts ends : String)
    → range_issues f g message (resolve_local_time loc starts) (resolve_local_time loc ends) ≡ []
    → (loc.format_in (instant_of (resolve_local_time loc starts)) ≡ starts)
      × (loc.format_in (instant_of (resolve_local_time loc ends)) ≡ ends)
unfolding range_issues
range_formats loc f g message starts ends h = (
  grind (arith, resolve_local_time-format loc starts),
  grind (arith, resolve_local_time-format loc ends),
)

validated_formats :
    (loc : Location) (body : CreateSessionRequest)
    → validate_create_session loc body ≡ []
    → (loc.format_in (instant_of (resolve_local_time loc body.starts_at)) ≡ body.starts_at)
      × (loc.format_in (instant_of (resolve_local_time loc body.ends_at)) ≡ body.ends_at)
unfolding validate_create_session
validated_formats loc body h =
    range_formats loc "starts_at" "ends_at" "must be after starts_at" body.starts_at body.ends_at
      (ground arith)

module _ (env : Env) (r : Request) (db : Db) (body : CreateSessionRequest) (loc : Location)
    {s : SessionResponse} where
  -- A POST of a session that is answered 201 with a session: where the event's zone is `loc` and the
  -- body is decoded, the zone of the answer writes the answer's start and end as the very texts of
  -- the request, so that no local time that a change of the clocks skips is accepted.
  pub create_session_handler-format :
      event_timezone env r db ≡ next loc
      → decoded env.json.create_session_body r ≡ next body
      → (create_session_handler env r db).0 ≡ write_json 201 (of_session s)
      → (s.starts_at.zone.format_in s.starts_at.instant ≡ body.starts_at)
        × (s.ends_at.zone.format_in s.ends_at.instant ≡ body.ends_at)
  unfolding create_session_handler create_session_error to_create_input session_response
  create_session_handler-format z d h = (
    grind (arith, create_session-times env.pg, validated_formats loc body),
    grind (arith, create_session-times env.pg, validated_formats loc body),
  )
