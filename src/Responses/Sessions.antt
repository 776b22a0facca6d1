-- ===== src/Responses/Sessions.antt =====
-- internal/http/response/session.go. t.In(loc) is the instant with the zone that it is written in.
use text.Mathlib.Text.{◌==◌ as str_eq}
use krane_event_management_p.Common.{ℕ, ◌/◌, String, Option, none, some, List, map, if◌then◌else◌}
use krane_event_management_p.Domain.{Session, Series, Freq, OccurrenceStatus, OccurrenceResult}
use krane_event_management_p.Pages.{Page}
use krane_event_management_p.Series.{sub_instants}
use krane_event_management_p.Utils.Cursors.{Codec}
use krane_event_management_p.Utils.LocalTime.{Location}
use krane_event_management_p.Responses.Rows.{ListResponse, list_response}

pub record Zoned : Type 0 where
  pub instant : ℕ
  pub zone : Location

abbrev pub in_zone : Location → ℕ → Zoned
in_zone loc t = record { instant = t; zone = loc }

pub record SessionResponse : Type 0 where
  pub id : ℕ
  pub event_id : ℕ
  pub room_id : ℕ
  pub speaker_id : ℕ
  pub title : String
  pub description : Option String
  pub starts_at : Zoned
  pub ends_at : Zoned
  pub duration_minutes : ℕ
  pub version : ℕ
  pub created_at : ℕ
  pub updated_at : ℕ
  pub room_name : Option String
  pub speaker_name : Option String

-- A name that is not empty.
abbrev pub shown_name : String → Option String
shown_name name = if str_eq name "" then none else some name

-- int(d.Minutes()) of a duration that is not negative.
abbrev pub whole_minutes : ℕ → ℕ
whole_minutes d = d / 60000000000

unfoldable pub session_response : Location → Session → SessionResponse
session_response loc s = record {
  id = s.id;
  event_id = s.event_id;
  room_id = s.room_id;
  speaker_id = s.speaker_id;
  title = s.title;
  description = s.description;
  starts_at = in_zone loc s.starts_at;
  ends_at = in_zone loc s.ends_at;
  duration_minutes = whole_minutes (sub_instants s.ends_at s.starts_at);
  version = s.version;
  created_at = s.created_at;
  updated_at = s.updated_at;
  room_name = shown_name s.room_name;
  speaker_name = shown_name s.speaker_name;
}

unfoldable pub session_list_response :
    Codec → Location → Page Session → Option (ListResponse SessionResponse)
unfolding session_response
session_list_response codec loc page = list_response codec (session_response loc) page

pub record SeriesOccurrenceResponse : Type 0 where
  pub starts_at : Zoned
  pub status : OccurrenceStatus
  pub session_id : Option ℕ

pub record SeriesResponse : Type 0 where
  pub id : ℕ
  pub event_id : ℕ
  pub room_id : ℕ
  pub speaker_id : ℕ
  pub title : String
  pub description : Option String
  pub freq : Freq
  pub interval_count : ℕ
  pub occurrences : List SeriesOccurrenceResponse
  pub created_at : ℕ

abbrev pub occurrence_response : Location → OccurrenceResult → SeriesOccurrenceResponse
occurrence_response loc r = record {
  starts_at = in_zone loc r.starts_at;
  status = r.status;
  session_id = r.session_id;
}

unfoldable pub series_response : Location → Series → List OccurrenceResult → SeriesResponse
series_response loc s results = record {
  id = s.id;
  event_id = s.event_id;
  room_id = s.room_id;
  speaker_id = s.speaker_id;
  title = s.title;
  description = s.description;
  freq = s.freq;
  interval_count = s.interval_count;
  occurrences = map (occurrence_response loc) results;
  created_at = s.created_at;
}
