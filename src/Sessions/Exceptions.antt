-- ===== src/Sessions/Exceptions.antt =====
-- The history of a series: what a write to one of its occurrences leaves in session_exceptions.
use krane_event_management_p.Common.{ℕ, ◌≡◌, refl, none, some, ◌∷◌, find_row, ok, arith}
use krane_event_management_p.Domain.{Session, SessionPatch}
use krane_event_management_p.Store.{SessionRow, modified, Db, Server}
use krane_event_management_p.Sessions.{gated, update_session, to_session}
use krane_event_management_p.Sessions.Schedule.{IsSchedule}
use krane_event_management_p.Sessions.Versions.{update_found, is_old}

module _ (pg : Server) (actor event id version : ℕ) (patch : SessionPatch) (db : Db)
    (v : IsSchedule db.sessions) where
  -- In a schedule that is in order, a successful PATCH of an occurrence of a series adds one row to
  -- session_exceptions, as modified, with the start that the session had before this PATCH.
  pub update_session-exception :
      {a : Session} (series : ℕ)
      → (update_session pg actor event id version patch db).0 ≡ ok a
      → a.series_id ≡ some series
      → (old : SessionRow) × (find_row (gated event id version) db.sessions ≡ some old)
        × ((update_session pg actor event id version patch db).1.exceptions
            ≡ (record {
              series_id = series;
              session_id = id;
              status = modified;
              original_starts_at = old.starts_at;
            })
              ∷ db.exceptions)
  unfolding to_session
  update_session-exception series h s =
      let (old, found, sent, same, after) =
        update_found pg pg actor actor event id version patch db v h in
      let o = is_old event id version db v old old found in
      let of_series : old.series_id ≡ some series = ground (arith, same, s) in
      (old, found, rw (after, of_series, o.0) refl)

  pub update_session-standalone :
      {a : Session}
      → (update_session pg actor event id version patch db).0 ≡ ok a
      → a.series_id ≡ none
      → (update_session pg actor event id version patch db).1.exceptions ≡ db.exceptions
  unfolding to_session
  update_session-standalone h s =
      let (old, found, sent, same, after) =
        update_found pg pg actor actor event id version patch db v h in
      let alone : old.series_id ≡ none = ground (arith, same, s) in rw (after, alone) refl
