-- ===== src/System/History.antt =====
-- The audit log is append-only: no call takes an entry away or changes one.
use krane_event_management_p.Common.{◌≡◌, refl, ap, List, [], ◌∷◌, ◌++◌, ok}
use krane_event_management_p.Store.{AuditEntry, Db, update, delete}
use krane_event_management_p.Members.Writes.{
  create_member-keeps, assign_role-keeps, delete_member-keeps,
}
use krane_event_management_p.Events.{
  update_event, delete_event, patched_row as patched_event, deleted_row,
}
use krane_event_management_p.Events.Writes.{
  create_event-keeps, versioned_write-keeps as event_write-keeps,
}
use krane_event_management_p.Rooms.Writes.{create_room-keeps, update_room-keeps, delete_room-keeps}
use krane_event_management_p.Sessions.{update_session, delete_session, update_change, cancelled_row}
use krane_event_management_p.Sessions.Writes.{
  create_session-keeps, versioned_write-keeps as session_write-keeps,
}
use krane_event_management_p.Series.Outcomes.{create_series-keeps}
use krane_event_management_p.Invitations.Writes.{create_invitation-keeps}
use krane_event_management_p.Invitations.Keeps.{bulk_create-keeps}
use krane_event_management_p.Users.{get_or_create_by_subject-keeps}
use krane_event_management_p.System.{
  Call, sign_in, add_event, patch_event, drop_event, add_member, patch_member, drop_member,
  add_room, patch_room, drop_room, add_session, patch_session, drop_session, add_series, invite,
  invite_all, perform, run,
}

-- The log is so many new entries in front of an older log.
abbrev pub Extends : List AuditEntry → Db → Type 0
Extends old db = (new : List AuditEntry) × (db.audit_log ≡ new ++ old)

module _ (old : List AuditEntry) where
  -- One more entry.
  extended :
      (entry : AuditEntry) (db : Db)
      → Extends old db
      → (new : List AuditEntry) × (entry ∷ db.audit_log ≡ new ++ old)
  extended entry db (new, e) = (entry ∷ new, ap (λ log. entry ∷ log) e)

  extended_twice :
      (second first : AuditEntry) (db : Db)
      → Extends old db
      → (new : List AuditEntry) × (second ∷ first ∷ db.audit_log ≡ new ++ old)
  extended_twice second first db (new, e) =
      (second ∷ first ∷ new, ap (λ log. second ∷ first ∷ log) e)

  perform-Extends : (call : Call) (db : Db) → Extends old db → Extends old (perform call db)
  unfolding perform update_event delete_event update_session delete_session
  perform-Extends (add_event pg actor input) db h =
      create_event-keeps pg actor input db (Extends old) h (λ c. extended_twice _ _ db h)
  perform-Extends (patch_event pg actor id version patch) db h =
      event_write-keeps pg actor id version update (patched_event pg patch) db (Extends old) h
        (λ c. extended _ db h)
  perform-Extends (drop_event pg actor id version) db h =
      event_write-keeps pg actor id version delete (deleted_row pg) db (Extends old) h
        (λ c. extended _ db h)
  perform-Extends (add_member pg actor event input) db h =
      create_member-keeps pg actor event input db (Extends old) h (λ u g k f. extended _ db h)
  perform-Extends (patch_member pg actor event id version role) db h =
      assign_role-keeps pg actor event id version role db (Extends old) h (λ o f k. extended _ db h)
  perform-Extends (drop_member pg actor event id version) db h =
      delete_member-keeps pg actor event id version db (Extends old) h (λ o f. extended _ db h)
  perform-Extends (add_room pg actor event input) db h =
      create_room-keeps pg actor event input db (Extends old) h (λ c. extended _ db h)
  perform-Extends (patch_room pg actor event id version patch) db h =
      update_room-keeps pg actor event id version patch db (Extends old) h (λ c. extended _ db h)
  perform-Extends (drop_room pg actor event id version) db h =
      delete_room-keeps pg actor event id version db (Extends old) h (λ c. extended _ db h)
  perform-Extends (add_session pg actor event input) db h =
      create_session-keeps pg actor event input db (Extends old) h (λ c. extended _ db h)
  perform-Extends (patch_session pg actor event id version patch) db h =
      session_write-keeps pg actor event id version update (update_change pg patch db) db
        (Extends old) h (λ n c. extended _ db h)
  perform-Extends (drop_session pg actor event id version) db h =
      session_write-keeps pg actor event id version delete (λ s. ok (cancelled_row pg s)) db
        (Extends old) h (λ n c. extended _ db h)
  perform-Extends (invite pg actor event input) db h =
      create_invitation-keeps pg actor event input db (Extends old) h (λ c. extended _ db h)
  perform-Extends (sign_in pg subject email name) db h =
      get_or_create_by_subject-keeps (Extends old) pg subject email name db h h
  perform-Extends (add_series pg servers actor event input) db h =
      create_series-keeps (Extends old) pg servers actor event input db
        (λ pg' in' d k.
          create_session-keeps pg' actor event in' d (Extends old) k (λ c. extended _ d k))
        (λ s. h) h
  perform-Extends (invite_all pg servers last actor event key hash inputs) db h =
      bulk_create-keeps (Extends old) pg servers last (λ d. d) actor event key hash inputs db
        (λ i in' d k.
          create_invitation-keeps (servers i) actor event in' d (Extends old) k
            (λ c. extended _ d k))
        (λ items d k. k) (λ d k. k) h

-- After any sequence of the API's writes the audit log is the old one with new entries in front: no
-- entry is changed or taken away.
pub run-Extends : (calls : List Call) (db : Db) → Extends db.audit_log (run calls db)
unfolding run
run-Extends calls db = later calls db ([], refl)
  where
    later :
        (calls : List Call) (d : Db) → Extends db.audit_log d → Extends db.audit_log (run calls d)
    later [] d h = h
    later (call ∷ calls) d h = later calls (perform call d) (perform-Extends db.audit_log call d h)
