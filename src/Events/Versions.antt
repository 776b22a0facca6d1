-- ===== src/Events/Versions.antt =====
-- Events carry a version and are deleted softly: what a write leaves for the reads and the writes after.
use krane_event_management_p.Common.{
  ℕ, ◌≡◌, ◌≢◌, ◌<◌, refl, sym, false, List, any, ok, err, arith, All, Pairwise, All-of, any-false,
  All-update_row, Pairwise-update_row, not_found, internal, Error, if◌then◌else◌,
  any-update_row_related, find_row-none, any-none, find_row-test,
}
use krane_event_management_p.Domain.{Event, EventInput, EventPatch}
use krane_event_management_p.Store.{
  EventRow, Db, Server, Up, begin, exec, diagnose, AuditAction, update, delete, fits_int4,
}
use krane_event_management_p.Events.{
  is_row, gated, create_event, get_event, diagnose_write, write_body, versioned_write, patched_row,
  deleted_row, update_event, delete_event,
}
use krane_event_management_p.Events.Writes.{
  create_event-keeps, versioned_write-ok, versioned_write-keeps,
}

-- The primary key, and events_ends_after_starts_check.
abbrev pub Distinct : EventRow → EventRow → Type 0
Distinct a b = a.id ≢ b.id

pub record IsCalendar (events : List EventRow) : Type 0 where
  pub distinct : Pairwise Distinct events
  pub bounded : All (λ e. e.starts_at < e.ends_at) events

Distinct-sym : (a b : EventRow) → Distinct a b → Distinct b a
Distinct-sym a b h e = h (sym e)

module _ (pg : Server) (actor : ℕ) (db : Db) (v : IsCalendar db.events) where
  pub create_event-IsCalendar :
      (input : EventInput) → IsCalendar (create_event pg actor input db).1.events
  create_event-IsCalendar input =
      create_event-keeps pg actor input db (λ d. IsCalendar d.events) v
        (λ c. record {
          distinct = (
            All-of _ db.events (λ e m. let f = any-false _ db.events c.fresh m in ground arith),
            v.distinct,
          );
          bounded = (c.bounded, v.bounded);
        })

  written-IsCalendar :
      (id version : ℕ) (action : AuditAction) (change : EventRow → EventRow)
      → ((e : EventRow) → (change e).id ≡ e.id)
      → IsCalendar (versioned_write pg actor id version action change db).1.events
  written-IsCalendar id version action change same_id =
      versioned_write-keeps pg actor id version action change db (λ d. IsCalendar d.events) v
        (λ c. record {
          distinct =
              Pairwise-update_row Distinct (gated id version) change db.events Distinct-sym
                v.distinct (λ x y q m h. rw (same_id x) h);
          bounded =
              All-update_row _ (gated id version) change db.events v.bounded
                (λ x q. let same : x ≡ c.old = ground (arith, q, c.found) in rw same c.bounded);
        })

  pub update_event-IsCalendar :
      (id version : ℕ) (patch : EventPatch)
      → IsCalendar (update_event pg actor id version patch db).1.events
  unfolding update_event
  update_event-IsCalendar id version patch =
      written-IsCalendar id version update (patched_row pg patch) (λ e. refl)

  pub delete_event-IsCalendar :
      (id version : ℕ) → IsCalendar (delete_event pg actor id version db).1.events
  unfolding delete_event
  delete_event-IsCalendar id version =
      written-IsCalendar id version delete (deleted_row pg) (λ e. refl)

-- How a write of an event that is not there fails: a version that is no 32-bit integer cannot be sent.
abbrev pub missing : ℕ → Error
missing version = if fits_int4 version then not_found else internal

module _ (pg : Server) (actor id version : ℕ) (db : Db)
    (gone : any (is_row id) db.events ≡ false) where
  unread : Up pg → get_event pg id db ≡ err not_found
  unfolding get_event
  unread up = ground (arith, up exec, find_row-none (is_row id) db.events gone)

  missed :
      (action : AuditAction) (change : EventRow → EventRow)
      → Up pg
      → versioned_write pg actor id version action change db ≡ (err (missing version), db)
  unfolding versioned_write write_body diagnose_write
  missed action change up =
      let none_there : any (gated id version) db.events ≡ false =
        any-none (gated id version) (is_row id) db.events gone (λ x p. ground arith) in
      ground (
        arith,
        up begin,
        up exec,
        up diagnose,
        find_row-none (gated id version) db.events none_there,
      )

-- Among events with distinct ids, and while the server answers: an event that was deleted is not
-- found by a later read, PATCH or DELETE, whatever version they name, and these change nothing;
-- where the version does not fit the 32 bits of its column, that write is an internal error instead.
pub delete_event-gone :
    (pg pg' : Server) (actor actor' id version version' : ℕ) (patch : EventPatch) (db : Db)
    {a : Event}
    → Up pg'
    → IsCalendar db.events
    → (delete_event pg actor id version db).0 ≡ ok a
    → let db' = (delete_event pg actor id version db).1 in
      (get_event pg' id db' ≡ err not_found)
      × (update_event pg' actor' id version' patch db' ≡ (err (missing version'), db'))
      × (delete_event pg' actor' id version' db' ≡ (err (missing version'), db'))
unfolding delete_event
delete_event-gone pg pg' actor actor' id version version' patch db up v h =
    let (c, same, after) = versioned_write-ok pg actor id version delete (deleted_row pg) db h in
    let old_id : c.old.id ≡ id =
      let t = find_row-test (gated id version) db.events c.found in ground arith in
    let gone =
      any-update_row_related Distinct (gated id version) (is_row id)
        (λ s d. ground (arith, d, old_id)) (deleted_row pg) db.events Distinct-sym v.distinct
        c.found (ground arith) in
    rw after (
      unread pg' actor' id version' _ gone up,
      unfold update_event in missed pg' actor' id version' _ gone update (patched_row pg' patch) up,
      missed pg' actor' id version' _ gone delete (deleted_row pg') up,
    )
