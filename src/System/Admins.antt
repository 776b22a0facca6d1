-- ===== src/System/Admins.antt =====
-- Last-admin protection across the API: whatever calls are made, an event with an admin keeps one.
use krane_event_management_p.Common.{ℕ, ◌≡◌, true, List, [], ◌∷◌, ok}
use krane_event_management_p.Store.{Db, update, delete}
use krane_event_management_p.Members.LastAdmin.{
  has_admin, create_member-has_admin, assign_role-has_admin, delete_member-has_admin,
}
use krane_event_management_p.Events.Creator.{create_event-has_admin}
use krane_event_management_p.Events.{
  update_event, delete_event, patched_row as patched_event, deleted_row,
}
use krane_event_management_p.Events.Writes.{versioned_write-keeps as event_write-keeps}
use krane_event_management_p.Rooms.Writes.{create_room-keeps, update_room-keeps, delete_room-keeps}
use krane_event_management_p.Sessions.{update_session, delete_session, update_change, cancelled_row}
use krane_event_management_p.Sessions.Writes.{
  create_session-keeps, versioned_write-keeps as session_write-keeps,
}
use krane_event_management_p.Series.Outcomes.{create_series-keeps}
use krane_event_management_p.Invitations.Writes.{create_invitation-keeps}
use krane_event_management_p.Invitations.Keeps.{bulk_create-keeps}
use krane_event_management_p.Users.{get_or_create_by_subject-keeps}
use krane_event_management_p.System.{
  Call, sign_in, add_event, patch_event, drop_event, add_member, patch_member, drop_member,
  add_room, patch_room, drop_room, add_session, patch_session, drop_session, add_series, invite,
  invite_all, perform, run,
}

module _ (e : ℕ) where
  perform-has_admin :
      (call : Call) (db : Db)
      → has_admin e db.members ≡ true
      → has_admin e (perform call db).members ≡ true
  unfolding perform update_event delete_event update_session delete_session
  perform-has_admin (add_event pg actor input) db h = create_event-has_admin pg actor input db e h
  perform-has_admin (patch_event pg actor id version patch) db h =
      event_write-keeps pg actor id version update (patched_event pg patch) db
        (λ d. has_admin e d.members ≡ true) h (λ c. h)
  perform-has_admin (drop_event pg actor id version) db h =
      event_write-keeps pg actor id version delete (deleted_row pg) db
        (λ d. has_admin e d.members ≡ true) h (λ c. h)
  perform-has_admin (add_member pg actor event input) db h =
      create_member-has_admin pg actor event e db h input
  perform-has_admin (patch_member pg actor event id version role) db h =
      assign_role-has_admin pg actor event e db h id version role
  perform-has_admin (drop_member pg actor event id version) db h =
      delete_member-has_admin pg actor event e db h id version
  perform-has_admin (add_room pg actor event input) db h =
      create_room-keeps pg actor event input db (λ d. has_admin e d.members ≡ true) h (λ c. h)
  perform-has_admin (patch_room pg actor event id version patch) db h =
      update_room-keeps pg actor event id version patch db (λ d. has_admin e d.members ≡ true) h
        (λ c. h)
  perform-has_admin (drop_room pg actor event id version) db h =
      delete_room-keeps pg actor event id version db (λ d. has_admin e d.members ≡ true) h (λ c. h)
  perform-has_admin (add_session pg actor event input) db h =
      create_session-keeps pg actor event input db (λ d. has_admin e d.members ≡ true) h (λ c. h)
  perform-has_admin (patch_session pg actor event id version patch) db h =
      session_write-keeps pg actor event id version update (update_change pg patch db) db
        (λ d. has_admin e d.members ≡ true) h (λ n c. h)
  perform-has_admin (drop_session pg actor event id version) db h =
      session_write-keeps pg actor event id version delete (λ s. ok (cancelled_row pg s)) db
        (λ d. has_admin e d.members ≡ true) h (λ n c. h)
  perform-has_admin (invite pg actor event input) db h =
      create_invitation-keeps pg actor event input db (λ d. has_admin e d.members ≡ true) h (λ c. h)
  perform-has_admin (sign_in pg subject email name) db h =
      get_or_create_by_subject-keeps (λ d. has_admin e d.members ≡ true) pg subject email name db h
        h
  perform-has_admin (add_series pg servers actor event input) db h =
      create_series-keeps (λ d. has_admin e d.members ≡ true) pg servers actor event input db
        (λ pg' in' d k.
          create_session-keeps pg' actor event in' d (λ d. has_admin e d.members ≡ true) k (λ c. k))
        (λ s. h) h
  perform-has_admin (invite_all pg servers last actor event key hash inputs) db h =
      bulk_create-keeps (λ d. has_admin e d.members ≡ true) pg servers last (λ d. d) actor event key
        hash inputs db
        (λ i in' d k.
          create_invitation-keeps (servers i) actor event in' d (λ d. has_admin e d.members ≡ true)
            k (λ c. k))
        (λ items d k. k) (λ d k. k) h

  -- An event that has an admin has one after any sequence of the API's writes, whatever they are and
  -- however they end.
  pub run-has_admin :
      (calls : List Call) (db : Db)
      → has_admin e db.members ≡ true
      → has_admin e (run calls db).members ≡ true
  unfolding run
  run-has_admin [] db h = h
  run-has_admin (call ∷ calls) db h =
      run-has_admin calls (perform call db) (perform-has_admin call db h)
