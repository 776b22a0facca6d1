-- ===== src/Requests/Bounds.antt =====
-- What a validated body promises to the CHECK constraints of the tables.
use krane_event_management_p.Common.{
  ℕ, String, ◌^◌, ◌≡◌, ◌<◌, Option, true, false, not, ◌==◌, ◌||◌, ltb, [], any, refl, arith,
}
use krane_event_management_p.Domain.{of_value}
use krane_event_management_p.Store.{Db, Server, SessionRow, EventRow, has_user}
use krane_event_management_p.Series.{series_refused}
use krane_event_management_p.Sessions.{patched_row}
use krane_event_management_p.Events.{patched_row as patched_event}
use krane_event_management_p.Utils.LocalTime.{Location, Resolved, instant_of}
use krane_event_management_p.Requests.Events.{
  PatchEventRequest, validate_patch_event, validate_event_times, to_patch as to_event_patch,
}
use krane_event_management_p.Requests.Sessions.{
  SeriesCreateRequest, PatchSessionRequest, range_issues, validate_create_series,
  validate_patch_session, to_series_create_input, to_patch,
}

range_issues-nil :
    (starts_field ends_field message : String) (starts ends : Resolved)
    → range_issues starts_field ends_field message starts ends ≡ []
    → ltb (instant_of starts) (instant_of ends) ≡ true
unfolding range_issues
range_issues-nil f g m starts ends h = ground arith

-- The table of series refuses what a validated POST series asks for only where its interval does not
-- fit 32 bits, the id is taken, or the event, the room or the speaker does not exist; and its first
-- occurrence ends after it starts.
pub validate_create_series-refused :
    (pg : Server) (loc : Location) (body : SeriesCreateRequest) (event room speaker : ℕ) (db : Db)
    → validate_create_series loc body ≡ []
    → let input = to_series_create_input loc room speaker body in
      (series_refused pg event input db ≡ (
        not (ltb input.interval_count (2 ^ 31))
        || (any (λ r. r.id == pg.uuid) db.series
            || (not (any (λ e. e.id == event) db.events)
                || (not (any (λ r. r.id == room) db.rooms) || not (has_user speaker db))))))
      × (input.first_starts_at < input.first_ends_at)
unfolding validate_create_series to_series_create_input series_refused range_issues
validate_create_series-refused pg loc body event room speaker db h = (ground arith, ground arith)

-- A validated patch of a session leaves a row whose range was in order with a range in order.
pub validate_patch_session-range :
    (pg : Server) (loc : Location) (body : PatchSessionRequest) (old : SessionRow)
    → validate_patch_session loc body ≡ []
    → old.starts_at < old.ends_at
    → let new = patched_row pg (to_patch loc body) old in new.starts_at < new.ends_at
unfolding validate_patch_session to_patch range_issues
validate_patch_session-range pg loc body old h ordered = ground arith

-- A validated patch of an event leaves a row whose range was in order with a range in order.
pub validate_patch_event-range :
    (pg : Server) (load : String → Option Location) (body : PatchEventRequest) (old : EventRow)
    → validate_patch_event load body ≡ []
    → old.starts_at < old.ends_at
    → let new = patched_event pg (to_event_patch body) old in new.starts_at < new.ends_at
unfolding validate_patch_event validate_event_times
validate_patch_event-range pg load body old h ordered = ground arith

-- In a PATCH of an event, a null for starts_at, which is decoded as the zero time, adds no issue
-- beside an end, and the row then starts at the zero time.
pub validate_patch_event-null_start :
    (pg : Server) (load : String → Option Location) (body : PatchEventRequest) (old : EventRow)
    (ends : ℕ)
    → 0 < ends
    → let null_start = record body { starts_at = of_value 0; ends_at = of_value ends } in
      let no_times = record body {
        starts_at = record { value = 0; set = false };
        ends_at = record { value = 0; set = false };
      } in
      (validate_patch_event load null_start ≡ validate_patch_event load no_times)
      × ((patched_event pg (to_event_patch null_start) old).starts_at ≡ 0)
unfolding validate_patch_event validate_event_times
validate_patch_event-null_start pg load body old ends later = (ground arith, refl)
