-- ===== src/Requests/Events.antt =====
-- internal/http/request/event.go
use krane_event_management_p.Common.{
  ℕ, String, Bool, true, not, ◌==◌, ◌&&◌, ltb, Option, is_some, List, [], ◌++◌, if◌then◌else◌,
}
use krane_event_management_p.Domain.{Optional, EventInput, EventPatch}
use krane_event_management_p.Utils.Text.{is_blank}
use krane_event_management_p.Utils.Integers.{ℤ, is_positive}
use krane_event_management_p.Utils.LocalTime.{Location}
use krane_event_management_p.Requests.Issues.{Issue, issue_if}

pub record CreateEventRequest : Type 0 where
  pub name : String
  pub description : Option String
  pub timezone : String
  pub starts_at : ℕ
  pub ends_at : ℕ

pub record PatchEventRequest : Type 0 where
  pub version : ℤ
  pub name : Optional String
  pub description : Optional (Option String)
  pub timezone : Optional String
  pub starts_at : Optional ℕ
  pub ends_at : Optional ℕ

-- time.Time.IsZero
abbrev pub is_zero : ℕ → Bool
is_zero t = t == 0

-- `load` is time.LoadLocation; none is its error.
module _ (load : String → Option Location) where
  unfoldable pub validate_timezone : String → List Issue
  validate_timezone tz =
      if is_blank tz
      then issue_if true "timezone" "is required"
      else issue_if (not (is_some (load tz))) "timezone" "must be a valid IANA timezone name"

  unfoldable pub validate_create_event : CreateEventRequest → List Issue
  unfolding validate_timezone
  validate_create_event r =
      issue_if (is_blank r.name) "name" "is required"
      ++ (validate_timezone r.timezone
          ++ (issue_if (is_zero r.starts_at) "starts_at" "is required"
              ++ (issue_if (is_zero r.ends_at) "ends_at" "is required"
                  ++ issue_if
                      (not (is_zero r.starts_at)
                        && (not (is_zero r.ends_at) && not (ltb r.starts_at r.ends_at)))
                      "ends_at" "must be after starts_at")))

  unfoldable pub validate_event_times : Optional ℕ → Optional ℕ → List Issue
  validate_event_times starts ends =
      if starts.set
      then if ends.set
        then issue_if (not (ltb starts.value ends.value)) "ends_at" "must be after starts_at"
        else issue_if true "starts_at/ends_at" "must both be provided together"
      else issue_if ends.set "starts_at/ends_at" "must both be provided together"

  unfoldable pub validate_patch_event : PatchEventRequest → List Issue
  unfolding validate_timezone validate_event_times
  validate_patch_event r =
      issue_if (not (is_positive r.version)) "version" "is required"
      ++ (issue_if (r.name.set && is_blank r.name.value) "name" "must not be blank"
          ++ ((if r.timezone.set then validate_timezone r.timezone.value else [])
              ++ validate_event_times r.starts_at r.ends_at))

abbrev pub to_create_input : CreateEventRequest → EventInput
to_create_input r = record {
  name = r.name;
  description = r.description;
  timezone = r.timezone;
  starts_at = r.starts_at;
  ends_at = r.ends_at;
}

abbrev pub to_patch : PatchEventRequest → EventPatch
to_patch r = record {
  name = r.name;
  description = r.description;
  timezone = r.timezone;
  starts_at = r.starts_at;
  ends_at = r.ends_at;
}
