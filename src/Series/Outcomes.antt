-- ===== src/Series/Outcomes.antt =====
-- What CreateSeries reports and leaves behind, on success and on its errors.
use krane_event_management_p.Common.{
  ℕ, zero, suc, ◌≡◌, refl, ap, ◌+◌, Bool, true, false, ◌||◌, List, [], ◌∷◌, length, if◌then◌else◌,
  Error, Result, ok, err, arith, Bool-cases, inl, inr,
}
use krane_event_management_p.Domain.{
  SeriesInput, SessionInput, Series, OccurrenceResult, OccurrenceStatus, Session,
}
use krane_event_management_p.Store.{Db, Server, exec}
use krane_event_management_p.Sessions.{create_session}
use krane_event_management_p.Sessions.Writes.{create_session-ok, create_session-err}
use krane_event_management_p.Sessions.Schedule.{IsSchedule, create_session-IsSchedule}
use krane_event_management_p.Series.{
  starts_of, occurrence_input, outcome_of, after_round, materialize, series_refused, series_row,
  with_series, create_series,
}

module _ {κ} (P : Db → Type κ) where
  after_round-keeps :
      (o : Result OccurrenceResult) (db : Db) (rest : Result (List OccurrenceResult) × Db)
      → P db
      → P rest.1
      → P (after_round o db rest).1
  after_round-keeps (ok r) db (ok rs, db') h k = k
  after_round-keeps (ok r) db (err e, db') h k = k
  after_round-keeps (err e) db rest h k = h

  -- An invariant of Create is one of the loop, and of CreateSeries.
  module _ (servers : ℕ → Server) (actor event : ℕ) (input : SeriesInput)
      (kept : (pg : Server) (in' : SessionInput) (d : Db)
        → P d
        → P (create_session pg actor event in' d).1) where
    pub materialize-keeps :
        (series i n : ℕ) (db : Db)
        → P db
        → P (materialize servers actor event series input i n db).1
    unfolding materialize
    materialize-keeps series i zero db h = h
    materialize-keeps series i (suc n) db h =
        let made = create_session (servers i) actor event (occurrence_input series input i) db in
        let here = kept (servers i) (occurrence_input series input i) db h in
        after_round-keeps (outcome_of (starts_of input i) made.0) made.1 _ here
          (materialize-keeps series (suc i) n made.1 here)

with_series-db : (s : Series) (m : Result (List OccurrenceResult) × Db) → (with_series s m).1 ≡ m.1
with_series-db s (ok rs, db) = refl
with_series-db s (err e, db) = refl

pub create_series-keeps {κ} :
    (P : Db → Type κ) (pg : Server) (servers : ℕ → Server) (actor event : ℕ) (input : SeriesInput)
    (db : Db)
    → ((pg : Server) (in' : SessionInput) (d : Db)
        → P d
        → P (create_session pg actor event in' d).1)
    → ((s : Series) → P (record db { series = s ∷ db.series }))
    → P db
    → P (create_series pg servers actor event input db).1
unfolding create_series
create_series-keeps P pg servers actor event input db kept added h =
    elim (Bool-cases (pg.fails exec || series_refused pg event input db)) [
      | inl e ↦ rw e h
      | inr e ↦
          rw (e, with_series-db)
            (materialize-keeps P servers actor event input kept pg.uuid 0 input.occurrences _
              (added (series_row pg event input)))
    ]

-- A series, however it ends, leaves no two live sessions of a room or a speaker overlapping.
pub create_series-IsSchedule :
    (pg : Server) (servers : ℕ → Server) (actor event : ℕ) (input : SeriesInput) (db : Db)
    → IsSchedule db.sessions
    → IsSchedule (create_series pg servers actor event input db).1.sessions
create_series-IsSchedule pg servers actor event input db v =
    create_series-keeps (λ d. IsSchedule d.sessions) pg servers actor event input db
      (λ pg' in' d w. create_session-IsSchedule pg' actor event in' d w) (λ s. v) v

abbrev pub is_created : OccurrenceStatus → Bool
is_created OccurrenceStatus.created = true
is_created OccurrenceStatus.conflict = false

abbrev pub count_created : List OccurrenceResult → ℕ
count_created [] = 0
count_created (r ∷ rs) = (if is_created r.status then 1 else 0) + count_created rs

-- The results are those of the occurrences from `i` on, in order.
abbrev pub InOrder : SeriesInput → ℕ → List OccurrenceResult → Type 0
InOrder input i [] = Unit
InOrder input i (r ∷ rs) = (r.starts_at ≡ starts_of input i) × InOrder input (suc i) rs

-- The tables have grown by so many sessions, and the audit log by as many entries.
pub record Grown (db db' : Db) (n : ℕ) : Type 0 where
  pub sessions : length db'.sessions ≡ length db.sessions + n
  pub audited : length db'.audit_log ≡ length db.audit_log + n

module _ (actor event : ℕ) where
  round_grows :
      (pg : Server) (in' : SessionInput) (db : Db) (starts : ℕ) {r : OccurrenceResult}
      (made : Result Session)
      → (create_session pg actor event in' db).0 ≡ made
      → outcome_of starts made ≡ ok r
      → (r.starts_at ≡ starts)
        × Grown db (create_session pg actor event in' db).1 (if is_created r.status then 1 else 0)
  round_grows pg in' db starts (ok s) e h =
      let (_, _, after) = create_session-ok pg actor event in' db e in
      (ground arith, rw after (record { sessions = ground arith; audited = ground arith }))
  round_grows pg in' db starts (err Error.conflict) e h = (
    ground arith,
    rw (create_session-err pg actor event in' db e)
        (record { sessions = ground arith; audited = ground arith }),
  )
  round_grows pg in' db starts (err _) e h = ground arith

  after_round-ok :
      (o : Result OccurrenceResult) (db : Db) (rest : Result (List OccurrenceResult) × Db)
      {rs : List OccurrenceResult}
      → (after_round o db rest).0 ≡ ok rs
      → (r : OccurrenceResult) × (rs' : List OccurrenceResult) × (o ≡ ok r)
        × (rest.0 ≡ ok rs')
        × (rs ≡ r ∷ rs')
        × ((after_round o db rest).1 ≡ rest.1)
  after_round-ok (ok r) db (ok rs', db') h = (r, rs', refl, refl, ground arith, refl)
  after_round-ok (ok r) db (err e, db') h = ground arith
  after_round-ok (err e) db rest h = ground arith

  materialize-ok :
      (servers : ℕ → Server) (series : ℕ) (input : SeriesInput) (i n : ℕ) (db : Db)
      {rs : List OccurrenceResult}
      → (materialize servers actor event series input i n db).0 ≡ ok rs
      → (length rs ≡ n)
        × InOrder input i rs
        × Grown db (materialize servers actor event series input i n db).1 (count_created rs)
  unfolding materialize
  materialize-ok servers series input i zero db {rs} h =
      let e : rs ≡ [] = ground arith in
      rw e (refl, tt, record { sessions = omega arith; audited = omega arith })
  materialize-ok servers series input i (suc n) db h =
      let in' = occurrence_input series input i in
      let made = create_session (servers i) actor event in' db in
      let rest = materialize servers actor event series input (suc i) n made.1 in
      let (r, rs', o, e, same, after) =
        after_round-ok (outcome_of (starts_of input i) made.0) made.1 rest h in
      let (at, grown) = round_grows (servers i) in' db (starts_of input i) made.0 refl o in
      let (len, ordered, more) = materialize-ok servers series input (suc i) n made.1 e in
      rw (same, after)
        (
          ap suc len,
          (at, ordered),
          record {
            sessions = omega (arith, grown.sessions, more.sessions);
            audited = omega (arith, grown.audited, more.audited);
          },
        )

with_series-ok :
    (s : Series) (m : Result (List OccurrenceResult) × Db) {t : Series} {rs : List OccurrenceResult}
    → (with_series s m).0 ≡ ok (t, rs)
    → (t ≡ s) × (m.0 ≡ ok rs)
with_series-ok s (ok rs', db) h = (ground arith, ground arith)
with_series-ok s (err e, db) h = ground arith

-- A successful CreateSeries reports one result per occurrence, in order and at the instant computed
-- for it, and has added exactly as many sessions, and as many audit entries, as it reports created.
pub create_series-accounts :
    (pg : Server) (servers : ℕ → Server) (actor event : ℕ) (input : SeriesInput) (db : Db)
    {s : Series} {rs : List OccurrenceResult}
    → (create_series pg servers actor event input db).0 ≡ ok (s, rs)
    → (length rs ≡ input.occurrences)
      × InOrder input 0 rs
      × Grown db (create_series pg servers actor event input db).1 (count_created rs)
unfolding create_series
create_series-accounts pg servers actor event input db h =
    elim (Bool-cases (pg.fails exec || series_refused pg event input db)) [
      | inl e ↦ cc (rw e at h)
      | inr e ↦
          let row = series_row pg event input in
          let (_, run) =
            with_series-ok row
              (materialize servers actor event row.id input 0 input.occurrences
                (record db { series = row ∷ db.series }))
              (rw e at h) in
          let (len, ordered, grown) =
            materialize-ok actor event servers row.id input 0 input.occurrences _ run in
          rw (e, with_series-db)
            (len, ordered, record { sessions = grown.sessions; audited = grown.audited })
    ]
