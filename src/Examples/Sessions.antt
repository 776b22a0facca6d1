-- ===== src/Examples/Sessions.antt =====
-- Sessions, series and rooms at the conference.
use mathlib.Core.List.{Memᴰ}
use krane_event_management_p.Common.{
  find_row, ℕ, ◌≡◌, ◌≢◌, ◌<◌, ◌+◌, ◌*◌, refl, none, some, List, [], ◌∷◌, length, ok, err, conflict,
  internal, version_mismatch, invalid_room, arith, inl,
}
use krane_event_management_p.Domain.{
  Session, SeriesInput, daily, OccurrenceResult, OccurrenceStatus,
}
use krane_event_management_p.Store.{SessionRow, modified, Db, insert_audit, fits_int4}
use krane_event_management_p.Sessions.{
  gated, create_session, get_session, update_session, delete_session,
}
use krane_event_management_p.Sessions.Versions.{update_session-stale, get-update_session}
use krane_event_management_p.Sessions.Exceptions.{update_session-exception}
use krane_event_management_p.Sessions.Slots.{IsBooked, delete_session-frees, update_session-booked}
use krane_event_management_p.Series.{
  create_series, series_row, materialize, series_refused, occurrence_input, starts_of,
}
use krane_event_management_p.Series.Times.{plain_step, occurrence_times, starts_of-wraps}
use krane_event_management_p.Series.Outcomes.{InOrder, Grown, count_created, create_series-accounts}
use krane_event_management_p.Series.Failures.{create_series-wrong_room}
use krane_event_management_p.Examples.Data.{
  server, all-Up, conference, conference-IsSchedule, talk, session_input, moved, weekly_input,
}

abbrev patched_db : Db
patched_db = (update_session (server 0) 2 10 40 1 (moved 1500 1600) conference).1

update_session-stale_example :
    (update_session (server 1) 1 10 40 1 (moved 1700 1800) patched_db
      ≡ (err version_mismatch, patched_db))
    × (delete_session (server 1) 1 10 40 1 patched_db ≡ (err version_mismatch, patched_db))
unfolding update_session insert_audit fits_int4
update_session-stale_example =
    update_session-stale (server 0) (server 1) 2 1 10 40 1 (moved 1500 1600) conference
      conference-IsSchedule (moved 1700 1800) (all-Up 1) refl

abbrev moved_talk : Session
moved_talk = record {
  id = 40;
  event_id = 10;
  room_id = 30;
  speaker_id = 2;
  title = "Talk";
  description = none;
  starts_at = 1500;
  ends_at = 1600;
  version = 2;
  created_at = 5;
  updated_at = 50;
  room_name = "";
  speaker_name = "";
  series_id = none;
}

get-update_session_example :
    (moved_talk.version ≡ 2) × (get_session (server 1) 10 40 patched_db ≡ ok moved_talk)
unfolding update_session insert_audit fits_int4
get-update_session_example =
    get-update_session (server 0) (server 1) 2 1 10 40 1 (moved 1500 1600) conference
      conference-IsSchedule (all-Up 1) refl

delete_session-frees_example :
    (create_session
      (server 1)
      1
      10
      (session_input 30 1100 1200)
      (delete_session (server 0) 2 10 40 1 conference).1).0
    ≢ err conflict
unfolding delete_session insert_audit fits_int4
delete_session-frees_example =
    delete_session-frees (server 0) (server 1) 2 1 10 40 1 conference conference-IsSchedule
      (session_input 30 1100 1200) refl refl refl refl refl

talk-IsBooked : (id : ℕ) → talk.id ≢ id → IsBooked conference id 30 2 1150 1250
talk-IsBooked id d = record {
  other = talk;
  listed = Memᴰ.head refl;
  differs = d;
  live = refl;
  shares = inl refl;
  starts_before = omega arith;
  ends_after = omega arith;
}

abbrev two_talks : Db
two_talks = record conference {
  sessions = talk ∷ (record talk { id = 41; starts_at = 1500; ends_at = 1600 }) ∷ [];
}

update_session-booked_example :
    update_session (server 0) 1 10 41 1 (moved 1150 1250) two_talks ≡ (err internal, two_talks)
update_session-booked_example =
    update_session-booked (server 0) 1 10 two_talks 41 1 (moved 1150 1250)
      (record talk { id = 41; starts_at = 1500; ends_at = 1600 }) refl refl refl
      (record {
        other = talk;
        listed = Memᴰ.head refl;
        differs = λ e. omega arith;
        live = refl;
        shares = inl refl;
        starts_before = omega arith;
        ends_after = omega arith;
      })

abbrev week : ℕ
week = 604800000000000

-- The first occurrence meets the talk, the others are free.
abbrev reported : List OccurrenceResult
reported =
    record { starts_at = 1150; status = OccurrenceStatus.conflict; session_id = none }
    ∷ record { starts_at = 1150 + week; status = OccurrenceStatus.created; session_id = some 101 }
    ∷ record {
      starts_at = 1150 + 2 * week;
      status = OccurrenceStatus.created;
      session_id = some 102;
    }
    ∷ []

create_series-accounts_example :
    (length reported ≡ 3)
    × InOrder (weekly_input 30) 0 reported
    × Grown conference
        (create_series (server 0) server 1 10 (weekly_input 30) conference).1
        (count_created reported)
unfolding create_series materialize create_session insert_audit
create_series-accounts_example =
    create_series-accounts (server 0) server 1 10 (weekly_input 30) conference
      {s = series_row (server 0) 10 (weekly_input 30)} {rs = reported} refl

create_series-wrong_room_example :
    create_series (server 0) server 1 10 (weekly_input 31) conference ≡ (
      err invalid_room,
      record conference { series = series_row (server 0) 10 (weekly_input 31) ∷ [] },
    )
unfolding series_refused
create_series-wrong_room_example =
    create_series-wrong_room (server 0) server 1 10 (weekly_input 31) conference (all-Up 0)
      (all-Up 0) refl refl

occurrence_times_example :
    ((occurrence_input 7 (weekly_input 30) 2).starts_at ≡ 1150 + 2 * plain_step (weekly_input 30))
    × ((occurrence_input 7 (weekly_input 30) 2).ends_at ≡ 1300 + 2 * plain_step (weekly_input 30))
occurrence_times_example =
    occurrence_times 7 (weekly_input 30) 2 (omega arith) (omega arith) (omega arith)

abbrev far_apart : SeriesInput
far_apart = record (weekly_input 30) {
  freq = daily;
  interval_count = 200000;
  first_starts_at = 63900000000000000000;
  first_ends_at = 63900000003600000000;
}

starts_of-wraps_example : starts_of far_apart 1 < far_apart.first_starts_at
starts_of-wraps_example = starts_of-wraps far_apart refl (omega arith) (omega arith) (omega arith)

-- The talk as an occurrence of series 7.
abbrev series_db : Db
series_db = record conference { sessions = record talk { series_id = some 7 } ∷ [] }

update_session-exception_example :
    (old : SessionRow) × (find_row (gated 10 40 1) series_db.sessions ≡ some old)
    × ((update_session (server 0) 2 10 40 1 (moved 1500 1600) series_db).1.exceptions
        ≡ (record {
          series_id = 7;
          session_id = 40;
          status = modified;
          original_starts_at = old.starts_at;
        })
          ∷ [])
unfolding update_session insert_audit fits_int4
update_session-exception_example =
    update_session-exception (server 0) 2 10 40 1 (moved 1500 1600) series_db
      (record { separate = (tt, tt); bounded = (omega arith, tt) }) 7 refl refl
