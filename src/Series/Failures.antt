-- ===== src/Series/Failures.antt =====
-- The calls of CreateSeries that fail only after the session_series row is written, or for another
-- reason than the one that the port names.
use krane_event_management_p.Common.{
  ℕ, zero, suc, ◌≡◌, ◌≢◌, ◌<◌, refl, true, false, ◌==◌, ◌&&◌, ◌||◌, List, ◌∷◌, any, find_row-none,
  Error, Result, ok, err, internal, invalid_room, invalid_speaker, arith, Bool-cases, inl, inr,
}
use krane_event_management_p.Domain.{SeriesInput, SessionInput, Series, OccurrenceResult, Session}
use krane_event_management_p.Store.{Db, Server, Up, begin, exec, has_user, insert_audit}
use krane_event_management_p.Sessions.{create_session}
use krane_event_management_p.Sessions.Writes.{create_session-keeps}
use krane_event_management_p.Series.{
  starts_of, occurrence_input, outcome_of, after_round, materialize, series_refused, series_row,
  with_series, create_series,
}

only_error :
    (s : Series) (m : Result (List OccurrenceResult) × Db) {e : Error}
    → (with_series s m).0 ≡ err e
    → m.0 ≡ err e
only_error s (ok rs, db) h = ground arith
only_error s (err e, db) h = ground arith

no_room :
    (pg : Server) (actor event : ℕ) (in' : SessionInput) (db : Db)
    → Up pg
    → any (λ r. r.id == in'.room_id && r.event_id == event) db.rooms ≡ false
    → create_session pg actor event in' db ≡ (err invalid_room, db)
unfolding create_session
no_room pg actor event in' db up none_there = ground (
  arith,
  up begin,
  up exec,
  find_row-none (λ r. r.id == in'.room_id && r.event_id == event) db.rooms none_there,
)

loop_stops :
    (servers : ℕ → Server) (actor event series : ℕ) (input : SeriesInput) (n : ℕ) (db : Db)
    → 0 < n
    → create_session (servers 0) actor event (occurrence_input series input 0) db
      ≡ (err invalid_room, db)
    → materialize servers actor event series input 0 n db ≡ (err invalid_room, db)
unfolding materialize
loop_stops servers actor event series input zero db p h = absurd (omega arith)
loop_stops servers actor event series input (suc n) db p h = rw (h, outcome_of, after_round)

-- While the server answers, and where the constraints of session_series accept the row, a series in
-- a room that is not of the event fails with invalid_room and leaves its session_series row behind,
-- without a session.
pub create_series-wrong_room :
    (pg : Server) (servers : ℕ → Server) (actor event : ℕ) (input : SeriesInput) (db : Db)
    → Up pg
    → Up (servers 0)
    → series_refused pg event input db ≡ false
    → any (λ r. r.id == input.room_id && r.event_id == event) db.rooms ≡ false
    → create_series pg servers actor event input db
      ≡ (err invalid_room, record db { series = series_row pg event input ∷ db.series })
unfolding create_series series_refused
create_series-wrong_room pg servers actor event input db up up0 accepted none_there =
    let row = series_row pg event input in
    let db' = record db { series = row ∷ db.series } in
    let first =
      no_room (servers 0) actor event (occurrence_input row.id input 0) db' up0 none_there in
    let passed : (pg.fails exec || series_refused pg event input db) ≡ false =
      ground (arith, up exec) in
    rw passed (
      rw (loop_stops servers actor event row.id input input.occurrences db' (ground arith) first)
        refl)

speaker_refused :
    (pg : Server) (actor event : ℕ) (in' : SessionInput) (db : Db)
    → has_user in'.speaker_id db ≡ true
    → (create_session pg actor event in' db).0 ≢ err invalid_speaker
unfolding create_session insert_audit
speaker_refused pg actor event in' db known h = ground arith

speaker_stays :
    (pg : Server) (actor event user : ℕ) (in' : SessionInput) (db : Db)
    → has_user user db ≡ true
    → has_user user (create_session pg actor event in' db).1 ≡ true
speaker_stays pg actor event user in' db known =
    create_session-keeps pg actor event in' db (λ d. has_user user d ≡ true) known (λ c. known)

outcome_error :
    (starts : ℕ) (made : Result Session) (db : Db) (rest : Result (List OccurrenceResult) × Db)
    → made ≢ err invalid_speaker
    → rest.0 ≢ err invalid_speaker
    → (after_round (outcome_of starts made) db rest).0 ≢ err invalid_speaker
outcome_error starts (ok s) db (ok rs, d) h k e = ground arith
outcome_error starts (ok s) db (err x, d) h k e = k e
outcome_error starts (err Error.conflict) db (ok rs, d) h k e = ground arith
outcome_error starts (err Error.conflict) db (err x, d) h k e = k e
outcome_error starts (err _) db rest h k e = ground (arith, h)

loop_error :
    (servers : ℕ → Server) (actor event series : ℕ) (input : SeriesInput) (i n : ℕ) (db : Db)
    → has_user input.speaker_id db ≡ true
    → (materialize servers actor event series input i n db).0 ≢ err invalid_speaker
unfolding materialize
loop_error servers actor event series input i zero db known = λ e. ground arith
loop_error servers actor event series input i (suc n) db known =
    let in' = occurrence_input series input i in
    let made = create_session (servers i) actor event in' db in
    outcome_error (starts_of input i) made.0 made.1 _
      (speaker_refused (servers i) actor event in' db known)
      (loop_error servers actor event series input (suc i) n made.1
        (speaker_stays (servers i) actor event input.speaker_id in' db known))

-- CreateSeries never fails with invalid_speaker, whatever the tables and the server.
pub create_series-known_speaker :
    (pg : Server) (servers : ℕ → Server) (actor event : ℕ) (input : SeriesInput) (db : Db)
    → (create_series pg servers actor event input db).0 ≢ err invalid_speaker
unfolding create_series series_refused
create_series-known_speaker pg servers actor event input db h =
    elim (Bool-cases (pg.fails exec || series_refused pg event input db)) [
      | inl e ↦ cc (rw e at h)
      | inr e ↦
          let row = series_row pg event input in
          loop_error servers actor event row.id input 0 input.occurrences _ (ground arith)
            (only_error row _ (rw e at h))
    ]

-- A series with a speaker that is no user is refused by the foreign key of session_series as an
-- internal error, and not by the first occurrence. Nothing changes.
pub create_series-unknown_speaker :
    (pg : Server) (servers : ℕ → Server) (actor event : ℕ) (input : SeriesInput) (db : Db)
    → has_user input.speaker_id db ≡ false
    → create_series pg servers actor event input db ≡ (err internal, db)
unfolding create_series series_refused
create_series-unknown_speaker pg servers actor event input db unknown = ground arith
