-- ===== src/Series.antt =====
-- SessionRepository.CreateSeries (internal/adapter/postgres/session_repo.go): a series is a row of
-- session_series and one ordinary session for each occurrence, created one after another. A
-- time.Duration is an int64 count of nanoseconds, here its bit pattern below 2 ^ 64.
pub mod Times
pub mod Outcomes
pub mod Failures
use krane_event_management_p.Common.{
  ℕ, zero, suc, ◌+◌, ◌-◌, ◌*◌, ◌%◌, ◌^◌, min, Bool, true, false, not, ◌==◌, ◌||◌, ◌&&◌, ltb, leb,
  none, some, List, [], ◌∷◌, any, if◌then◌else◌, Error, Result, ok, err, internal, ◌>>=◌, ◌>>◌,
  fail_if,
}
use krane_event_management_p.Common
use krane_event_management_p.Domain.{
  Freq, daily, weekly, Series, SeriesInput, SessionInput, Session, OccurrenceResult, created,
  OccurrenceStatus,
}
use krane_event_management_p.Store.{Db, Server, exec, has_user}
use krane_event_management_p.Sessions.{create_session}

abbrev pub int64_mod : ℕ
int64_mod = 2 ^ 64

abbrev pub int64_max : ℕ
int64_max = 2 ^ 63 - 1

-- a * b of two durations
abbrev pub mul64 : ℕ → ℕ → ℕ
mul64 a b = (a * b) % int64_mod

-- 24 * time.Hour
abbrev pub day : ℕ
day = 86400000000000

-- t.Add(d): the upper half of the bit patterns is negative.
abbrev pub add_duration : ℕ → ℕ → ℕ
add_duration t d = if leb d int64_max then t + d else t - (int64_mod - d)

-- t.Sub(u), which saturates.
abbrev pub sub_instants : ℕ → ℕ → ℕ
sub_instants t u =
    if leb u t then min (t - u) int64_max else int64_mod - min (u - t) (int64_max + 1)

abbrev pub is_weekly : Freq → Bool
is_weekly weekly = true
is_weekly _ = false

-- step, offset and the instants of occurrence `i`
abbrev pub step_of : SeriesInput → ℕ
step_of input =
    if is_weekly input.freq
    then mul64 (mul64 input.interval_count day) 7
    else mul64 input.interval_count day

abbrev pub starts_of : SeriesInput → ℕ → ℕ
starts_of input i = add_duration input.first_starts_at (mul64 i (step_of input))

abbrev pub occurrence_input : ℕ → SeriesInput → ℕ → SessionInput
occurrence_input series input i = record {
  room_id = input.room_id;
  speaker_id = input.speaker_id;
  title = input.title;
  description = input.description;
  starts_at = starts_of input i;
  ends_at =
      add_duration (starts_of input i) (sub_instants input.first_ends_at input.first_starts_at);
  series_id = some series;
}

-- The switch on the result of Create: a conflict is a result, any other error ends the loop.
abbrev pub outcome_of : ℕ → Result Session → Result OccurrenceResult
outcome_of starts (ok s) =
    ok (record { starts_at = starts; status = created; session_id = some s.id })
outcome_of starts (err Common.conflict) =
    ok (record { starts_at = starts; status = OccurrenceStatus.conflict; session_id = none })
outcome_of starts (err e) = err e

abbrev pub prepend :
    OccurrenceResult → Result (List OccurrenceResult) × Db → Result (List OccurrenceResult) × Db
prepend r (ok rs, db) = (ok (r ∷ rs), db)
prepend r (err e, db) = (err e, db)

-- A round whose error ends the loop leaves what its own call left.
abbrev pub after_round :
    Result OccurrenceResult
    → Db
    → Result (List OccurrenceResult) × Db
    → Result (List OccurrenceResult) × Db
after_round (ok r) db rest = prepend r rest
after_round (err e) db rest = (err e, db)

module _ (servers : ℕ → Server) (actor event series : ℕ) (input : SeriesInput) where
  -- The loop from occurrence `i` on, with `n` rounds left. Round `i` talks to the server as `servers i`.
  unfoldable pub materialize : ℕ → ℕ → Db → Result (List OccurrenceResult) × Db
  materialize i zero db = (ok [], db)
  materialize i (suc n) db =
      let made = create_session (servers i) actor event (occurrence_input series input i) db in
      let rest = materialize (suc i) n made.1 in
      after_round (outcome_of (starts_of input i) made.0) made.1 rest

abbrev pub is_freq : Freq → Bool
is_freq (Freq.other _) = false
is_freq _ = true

-- The constraints of session_series: its CHECKs (interval_count is a 32-bit integer), the primary key
-- and the foreign keys. room_id may be a room of any event.
unfoldable pub series_refused : Server → ℕ → SeriesInput → Db → Bool
series_refused pg event input db =
    not (is_freq input.freq)
    || (not (ltb 0 input.interval_count && ltb input.interval_count (2 ^ 31))
        || (not (ltb 0 input.occurrences && leb input.occurrences 52)
            || (any (λ r. r.id == pg.uuid) db.series
                || (not (any (λ e. e.id == event) db.events)
                    || (not (any (λ r. r.id == input.room_id) db.rooms)
                        || not (has_user input.speaker_id db))))))

abbrev pub series_row : Server → ℕ → SeriesInput → Series
series_row pg event input = record {
  id = pg.uuid;
  event_id = event;
  room_id = input.room_id;
  speaker_id = input.speaker_id;
  title = input.title;
  description = input.description;
  freq = input.freq;
  interval_count = input.interval_count;
  occurrences = input.occurrences;
  created_at = pg.now;
}

abbrev pub with_series :
    Series → Result (List OccurrenceResult) × Db → Result (Series × List OccurrenceResult) × Db
with_series s (ok rs, db) = (ok (s, rs), db)
with_series s (err e, db) = (err e, db)

-- CreateSeries. The INSERT of the series commits by itself.
unfoldable pub create_series :
    Server → (ℕ → Server) → ℕ → ℕ → SeriesInput → Db → Result (Series × List OccurrenceResult) × Db
unfolding series_refused
create_series pg servers actor event input db =
    let s = series_row pg event input in
    let db' = record db { series = s ∷ db.series } in
    if pg.fails exec || series_refused pg event input db
    then (err internal, db)
    else with_series s (materialize servers actor event s.id input 0 input.occurrences db')
