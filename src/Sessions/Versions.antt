-- ===== src/Sessions/Versions.antt =====
-- Optimistic locking: of two writes that were prepared on the same version one fails; and what
-- cancelling a session does to its slot.
use krane_event_management_p.Common.{
  ℕ, suc, ◌≡◌, ◌≢◌, ◌⊎◌, refl, true, false, none, some, any, Result, ok, err, version_mismatch,
  not_found, arith, any-update_row_related, find_row-update_row_related, find_row-none,
  find_row-test, update_row, find_row, inl, inr, any-of_find_row, Bool-cases, if◌then◌else◌, ap,
  sym, ◌∙◌,
}
use krane_event_management_p.Domain.{Session, SessionPatch}
use krane_event_management_p.Store.{
  SessionRow, Db, Server, Up, begin, exec, diagnose, update, delete, AuditAction, fits_int4,
}
use krane_event_management_p.Sessions.{
  is_row, get_session, gated, diagnose_write, update_change, update_session, delete_session,
  cancelled_row, patched_row, versioned_write, to_session,
}
use krane_event_management_p.Sessions.Writes.{written, versioned_write-ok}
use krane_event_management_p.Sessions.Schedule.{IsSchedule, Separate, Separate-sym}

-- A write that finds no row of its version changes nothing, and says why.
missed_write :
    (pg : Server) (actor event id version : ℕ) (action : AuditAction)
    (change : SessionRow → Result SessionRow) (db : Db)
    → Up pg
    → fits_int4 version ≡ true
    → find_row (gated event id version) db.sessions ≡ none
    → versioned_write pg actor event id version action change db
      ≡ (err (if any (is_row event id) db.sessions then version_mismatch else not_found), db)
unfolding versioned_write diagnose_write
missed_write pg actor event id version action change db up fits f =
    ground (arith, up begin, up exec, up diagnose)

module _ (event id version : ℕ) (db : Db) (v : IsSchedule db.sessions) (old new : SessionRow)
    (found : find_row (gated event id version) db.sessions ≡ some old) where
  pub is_old :
      (old.id ≡ id) × (old.event_id ≡ event) × (old.version ≡ version) × (old.deleted_at ≡ none)
  is_old =
      let t = find_row-test (gated event id version) db.sessions found in
      (ground arith, ground arith, ground arith, ground arith)

  -- No other row has the id.
  other_id : (s : SessionRow) → Separate old s → is_row event id s ≡ false
  other_id s h = ground (arith, h.0, is_old)

  stale :
      new.version ≢ version
      → find_row
          (gated event id version)
          (update_row (gated event id version) (λ _. new) db.sessions)
        ≡ none
  stale d = find_row-none (gated event id version) _ (
      any-update_row_related Separate (gated event id version) (gated event id version)
        (λ s h. ground (arith, other_id s h)) (λ _. new) db.sessions Separate-sym v.separate found
        (ground arith))

  there_still :
      is_row event id new ≡ true
      → find_row (is_row event id) (update_row (gated event id version) (λ _. new) db.sessions)
        ≡ some new
  there_still t =
      find_row-update_row_related Separate (gated event id version) (is_row event id) other_id
        (λ _. new) db.sessions Separate-sym v.separate found t

  gone :
      is_row event id new ≡ false
      → any (is_row event id) (update_row (gated event id version) (λ _. new) db.sessions) ≡ false
  gone t =
      any-update_row_related Separate (gated event id version) (is_row event id) other_id (λ _. new)
        db.sessions Separate-sym v.separate found t

  -- A second write prepared on the version that was just replaced.
  second_write :
      (pg : Server) (actor : ℕ) (action : AuditAction) (change : SessionRow → Result SessionRow)
      (after : Db)
      → Up pg
      → fits_int4 version ≡ true
      → new.version ≢ version
      → after.sessions ≡ update_row (gated event id version) (λ _. new) db.sessions
      → versioned_write pg actor event id version action change after
        ≡ (err (if is_row event id new then version_mismatch else not_found), after)
  second_write pg actor action change after up fits d e =
      missed_write pg actor event id version action change after up fits (rw e (stale d))
      ∙ ap (λ b. (err (if b then version_mismatch else not_found), after))
          (rw e (still (Bool-cases (is_row event id new))))
    where
      still :
          (is_row event id new ≡ true) ⊎ (is_row event id new ≡ false)
          → any (is_row event id) (update_row (gated event id version) (λ _. new) db.sessions)
            ≡ is_row event id new
      still (inl t) = any-of_find_row (is_row event id) _ (there_still t) ∙ sym t
      still (inr t) = gone t ∙ sym t

module _ (pg pg' : Server) (actor actor' event id version : ℕ) (patch : SessionPatch) (db : Db)
    (v : IsSchedule db.sessions) where
  pub update_found :
      {a : Session}
      → (update_session pg actor event id version patch db).0 ≡ ok a
      → (old : SessionRow) × (find_row (gated event id version) db.sessions ≡ some old)
        × (fits_int4 version ≡ true)
        × (a ≡ to_session (patched_row pg patch old))
        × ((update_session pg actor event id version patch db).1
            ≡ written actor event id version update old (patched_row pg patch old) db)
  unfolding update_session update_change
  update_found h =
      let (new, c, same, after) =
        versioned_write-ok pg actor event id version update (update_change pg patch db) db h in
      let e : new ≡ patched_row pg patch c.old = ground (arith, c.changed) in
      (c.old, c.found, c.sent, rw e at same, rw e at after)

  -- In a schedule that is in order, and while the server answers: a successful PATCH raises the
  -- version by one, and a read returns what the PATCH returned.
  pub get-update_session :
      {a : Session}
      → Up pg'
      → (update_session pg actor event id version patch db).0 ≡ ok a
      → (a.version ≡ suc version)
        × (get_session pg' event id (update_session pg actor event id version patch db).1 ≡ ok a)
  unfolding get_session to_session
  get-update_session up h =
      let (old, found, sent, same, after) = update_found h in
      let o = is_old event id version db v old old found in
      let there =
        there_still event id version db v old (patched_row pg patch old) found
          (ground (arith, o)) in
      (ground (arith, o), rw (after, up exec, there, same) refl)

  -- In a schedule that is in order, and while the server answers: once a PATCH of a session has
  -- succeeded, a second PATCH or DELETE prepared on the same version fails with version_mismatch and
  -- changes nothing.
  pub update_session-stale :
      {a : Session} (patch' : SessionPatch)
      → Up pg'
      → (update_session pg actor event id version patch db).0 ≡ ok a
      → let db' = (update_session pg actor event id version patch db).1 in
        (update_session pg' actor' event id version patch' db' ≡ (err version_mismatch, db'))
        × (delete_session pg' actor' event id version db' ≡ (err version_mismatch, db'))
  update_session-stale patch' up h =
      let (old, found, sent, same, after) = update_found h in
      let new = patched_row pg patch old in
      let db' = (update_session pg actor event id version patch db).1 in
      let o = is_old event id version db v old old found in
      let live : is_row event id new ≡ true = ground (arith, o) in
      let second = λ (action : AuditAction) (change : SessionRow → Result SessionRow).
        second_write event id version db v old new found pg' actor' action change db' up sent
          (ground (arith, o)) (ap (λ (d : Db). d.sessions) after) in
      (
        unfold update_session in rw live at (second update (update_change pg' patch' db')),
        unfold delete_session in rw live at (second delete (λ s. ok (cancelled_row pg' s))),
      )
