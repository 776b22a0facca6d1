-- ===== src/Requests/Sessions.antt =====
-- internal/http/request/session.go. The two ids of a body are texts; `room` and `speaker` stand for
-- what PostgreSQL reads them as.
use krane_event_management_p.Common.{
  ℕ, String, Bool, true, false, not, ◌&&◌, ◌||◌, ltb, Option, none, List, [], ◌++◌, if◌then◌else◌,
}
use krane_event_management_p.Domain.{
  Optional, of_value, SessionInput, SessionPatch, SeriesInput, Freq,
}
use krane_event_management_p.Utils.Text.{is_blank}
use krane_event_management_p.Utils.Integers.{ℤ, is_positive, to_ℕ}
use krane_event_management_p.Utils.LocalTime.{
  Location, TimeError, nonexistent, malformed, Resolved, at_instant, unresolved, resolve_local_time,
  instant_of,
}
use krane_event_management_p.Requests.Issues.{Issue, issue_if}

pub record CreateSessionRequest : Type 0 where
  pub room_id : String
  pub speaker_id : String
  pub title : String
  pub description : Option String
  pub starts_at : String
  pub ends_at : String

pub record SeriesCreateRequest : Type 0 where
  pub room_id : String
  pub speaker_id : String
  pub title : String
  pub description : Option String
  pub first_starts_at : String
  pub first_ends_at : String
  pub freq : Freq
  pub interval_count : ℤ
  pub occurrences : ℤ

pub record PatchSessionRequest : Type 0 where
  pub version : ℤ
  pub title : Optional String
  pub description : Optional (Option String)
  pub starts_at : Optional String
  pub ends_at : Optional String

abbrev pub resolve_time_issue : TimeError → String
resolve_time_issue nonexistent = "does not exist in this event's timezone due to a DST transition"
resolve_time_issue malformed =
    "must be a valid local date-time (2006-01-02T15:04:05), with no timezone offset"

abbrev pub time_issue : String → Resolved → List Issue
time_issue field (at_instant t) = []
time_issue field (unresolved e) = issue_if true field (resolve_time_issue e)

-- The last test, which is made only where both texts were resolved.
abbrev pub order_issue : String → String → Resolved → Resolved → List Issue
order_issue field message (at_instant starts) (at_instant ends) =
    issue_if (not (ltb starts ends)) field message
order_issue field message _ _ = []

-- The issues of the two texts of a range.
unfoldable pub range_issues : String → String → String → Resolved → Resolved → List Issue
range_issues starts_field ends_field message starts ends =
    time_issue starts_field starts
    ++ (time_issue ends_field ends ++ order_issue ends_field message starts ends)

-- knownFreqs
abbrev pub is_known_freq : Freq → Bool
is_known_freq (Freq.other _) = false
is_known_freq _ = true

-- occurrences <= 0 || occurrences > 52
abbrev pub bad_occurrences : ℤ → Bool
bad_occurrences n = not (is_positive n) || ltb 52 (to_ℕ n)

module _ (loc : Location) where
  unfoldable pub validate_create_session : CreateSessionRequest → List Issue
  unfolding range_issues
  validate_create_session r =
      issue_if (is_blank r.title) "title" "is required"
      ++ (issue_if (is_blank r.room_id) "room_id" "is required"
          ++ (issue_if (is_blank r.speaker_id) "speaker_id" "is required"
              ++ range_issues "starts_at" "ends_at" "must be after starts_at"
                  (resolve_local_time loc r.starts_at) (resolve_local_time loc r.ends_at)))

  unfoldable pub validate_create_series : SeriesCreateRequest → List Issue
  unfolding range_issues
  validate_create_series r =
      issue_if (is_blank r.title) "title" "is required"
      ++ (issue_if (is_blank r.room_id) "room_id" "is required"
          ++ (issue_if (is_blank r.speaker_id) "speaker_id" "is required"
              ++ (issue_if (not (is_known_freq r.freq)) "freq" "must be one of daily, weekly"
                  ++ (issue_if (not (is_positive r.interval_count)) "interval_count"
                        "must be a positive integer"
                      ++ (issue_if (bad_occurrences r.occurrences) "occurrences"
                            "must be between 1 and 52"
                          ++ range_issues "first_starts_at" "first_ends_at"
                              "must be after first_starts_at"
                              (resolve_local_time loc r.first_starts_at)
                              (resolve_local_time loc r.first_ends_at))))))

  unfoldable pub validate_patch_session : PatchSessionRequest → List Issue
  unfolding range_issues
  validate_patch_session r =
      issue_if (not (is_positive r.version)) "version" "is required"
      ++ (issue_if (r.title.set && is_blank r.title.value) "title" "must not be blank"
          ++ (if r.starts_at.set
              then if r.ends_at.set
                then range_issues "starts_at" "ends_at" "must be after starts_at"
                    (resolve_local_time loc r.starts_at.value)
                    (resolve_local_time loc r.ends_at.value)
                else issue_if true "starts_at/ends_at" "must both be provided together"
              else issue_if r.ends_at.set "starts_at/ends_at" "must both be provided together"))

  unfoldable pub to_create_input : ℕ → ℕ → CreateSessionRequest → SessionInput
  to_create_input room speaker r = record {
    room_id = room;
    speaker_id = speaker;
    title = r.title;
    description = r.description;
    starts_at = instant_of (resolve_local_time loc r.starts_at);
    ends_at = instant_of (resolve_local_time loc r.ends_at);
    series_id = none;
  }

  unfoldable pub to_series_create_input : ℕ → ℕ → SeriesCreateRequest → SeriesInput
  to_series_create_input room speaker r = record {
    room_id = room;
    speaker_id = speaker;
    title = r.title;
    description = r.description;
    first_starts_at = instant_of (resolve_local_time loc r.first_starts_at);
    first_ends_at = instant_of (resolve_local_time loc r.first_ends_at);
    freq = r.freq;
    interval_count = to_ℕ r.interval_count;
    occurrences = to_ℕ r.occurrences;
  }

  -- A bound of the patch, set where the request sets both.
  abbrev pub patched_time : Bool → String → Optional ℕ
  patched_time both local =
      if both
      then of_value (instant_of (resolve_local_time loc local))
      else record { value = 0; set = false }

  unfoldable pub to_patch : PatchSessionRequest → SessionPatch
  to_patch r = record {
    title = r.title;
    description = r.description;
    starts_at = patched_time (r.starts_at.set && r.ends_at.set) r.starts_at.value;
    ends_at = patched_time (r.starts_at.set && r.ends_at.set) r.ends_at.value;
  }
