-- ===== src/System/Audit.antt =====
-- No unaudited mutation: a call that changes the roster, the events, the rooms, the sessions or the
-- invitations adds to the audit log.
use krane_event_management_p.Common.{
  suc, ◌≡◌, ◌<◌, ◌⊎◌, inl, inr, refl, ◌∙◌, List, ok, length, arith,
}
use krane_event_management_p.Domain.{User, Series}
use krane_event_management_p.Store.{IdempotencyRow, Db, update, delete}
use krane_event_management_p.Members.Writes.{
  create_member-keeps, assign_role-keeps, delete_member-keeps,
}
use krane_event_management_p.Events.{
  update_event, delete_event, patched_row as patched_event, deleted_row,
}
use krane_event_management_p.Events.Writes.{
  create_event-keeps, versioned_write-keeps as event_write-keeps,
}
use krane_event_management_p.Rooms.Writes.{create_room-keeps, update_room-keeps, delete_room-keeps}
use krane_event_management_p.Sessions.{update_session, delete_session, update_change, cancelled_row}
use krane_event_management_p.Sessions.Writes.{
  create_session-keeps, versioned_write-keeps as session_write-keeps,
}
use krane_event_management_p.Series.Outcomes.{create_series-keeps}
use krane_event_management_p.Invitations.Writes.{create_invitation-keeps}
use krane_event_management_p.Invitations.Keeps.{bulk_create-keeps}
use krane_event_management_p.Users.{get_or_create_by_subject-keeps}
use krane_event_management_p.System.{
  Call, sign_in, add_event, patch_event, drop_event, add_member, patch_member, drop_member,
  add_room, patch_room, drop_room, add_session, patch_session, drop_session, add_series, invite,
  invite_all, perform,
}

-- The audited tables, and the log, are what they were.
pub record Untouched (db db' : Db) : Type 0 where
  pub events : db'.events ≡ db.events
  pub members : db'.members ≡ db.members
  pub rooms : db'.rooms ≡ db.rooms
  pub sessions : db'.sessions ≡ db.sessions
  pub invitations : db'.invitations ≡ db.invitations
  pub audit_log : db'.audit_log ≡ db.audit_log

abbrev pub IsAudited : Db → Db → Type 0
IsAudited db db' = Untouched db db' ⊎ (length db.audit_log < length db'.audit_log)

-- The users, the series and the keys are not audited.
untouched :
    (db : Db) (users : List User) (series : List Series) (keys : List IdempotencyRow)
    → Untouched db (record db { users = users; series = series; idempotency_keys = keys })
untouched db users series keys = record {
  events = refl;
  members = refl;
  rooms = refl;
  sessions = refl;
  invitations = refl;
  audit_log = refl;
}

module _ (old : Db) where
  -- One more entry.
  logged : (db : Db) → IsAudited old db → length old.audit_log < suc (length db.audit_log)
  logged db (inl u) = rw u.audit_log (omega arith)
  logged db (inr h) = omega arith

  logged_twice :
      (db : Db) → IsAudited old db → length old.audit_log < suc (suc (length db.audit_log))
  logged_twice db h = omega (arith, logged db h)

  -- A change of the users, the series or the keys.
  elsewhere : (db db' : Db) → Untouched db db' → IsAudited old db → IsAudited old db'
  elsewhere db db' w (inl u) = inl (record {
    events = w.events ∙ u.events;
    members = w.members ∙ u.members;
    rooms = w.rooms ∙ u.rooms;
    sessions = w.sessions ∙ u.sessions;
    invitations = w.invitations ∙ u.invitations;
    audit_log = w.audit_log ∙ u.audit_log;
  })
  elsewhere db db' w (inr h) = inr (rw w.audit_log h)

  perform-IsAudited : (call : Call) (db : Db) → IsAudited old db → IsAudited old (perform call db)
  unfolding perform update_event delete_event update_session delete_session
  perform-IsAudited (add_event pg actor input) db h =
      create_event-keeps pg actor input db (IsAudited old) h (λ c. inr (logged_twice db h))
  perform-IsAudited (patch_event pg actor id version patch) db h =
      event_write-keeps pg actor id version update (patched_event pg patch) db (IsAudited old) h
        (λ c. inr (logged db h))
  perform-IsAudited (drop_event pg actor id version) db h =
      event_write-keeps pg actor id version delete (deleted_row pg) db (IsAudited old) h
        (λ c. inr (logged db h))
  perform-IsAudited (add_member pg actor event input) db h =
      create_member-keeps pg actor event input db (IsAudited old) h (λ u g k f. inr (logged db h))
  perform-IsAudited (patch_member pg actor event id version role) db h =
      assign_role-keeps pg actor event id version role db (IsAudited old) h
        (λ o f k. inr (logged db h))
  perform-IsAudited (drop_member pg actor event id version) db h =
      delete_member-keeps pg actor event id version db (IsAudited old) h (λ o f. inr (logged db h))
  perform-IsAudited (add_room pg actor event input) db h =
      create_room-keeps pg actor event input db (IsAudited old) h (λ c. inr (logged db h))
  perform-IsAudited (patch_room pg actor event id version patch) db h =
      update_room-keeps pg actor event id version patch db (IsAudited old) h
        (λ c. inr (logged db h))
  perform-IsAudited (drop_room pg actor event id version) db h =
      delete_room-keeps pg actor event id version db (IsAudited old) h (λ c. inr (logged db h))
  perform-IsAudited (add_session pg actor event input) db h =
      create_session-keeps pg actor event input db (IsAudited old) h (λ c. inr (logged db h))
  perform-IsAudited (patch_session pg actor event id version patch) db h =
      session_write-keeps pg actor event id version update (update_change pg patch db) db
        (IsAudited old) h (λ n c. inr (logged db h))
  perform-IsAudited (drop_session pg actor event id version) db h =
      session_write-keeps pg actor event id version delete (λ s. ok (cancelled_row pg s)) db
        (IsAudited old) h (λ n c. inr (logged db h))
  perform-IsAudited (invite pg actor event input) db h =
      create_invitation-keeps pg actor event input db (IsAudited old) h (λ c. inr (logged db h))
  perform-IsAudited (sign_in pg subject email name) db h =
      get_or_create_by_subject-keeps (IsAudited old) pg subject email name db h
        (elsewhere db _ (untouched db _ _ _) h)
  perform-IsAudited (add_series pg servers actor event input) db h =
      create_series-keeps (IsAudited old) pg servers actor event input db
        (λ pg' in' d k.
          create_session-keeps pg' actor event in' d (IsAudited old) k (λ c. inr (logged d k)))
        (λ s. elsewhere db _ (untouched db _ _ _) h) h
  perform-IsAudited (invite_all pg servers last actor event key hash inputs) db h =
      bulk_create-keeps (IsAudited old) pg servers last (λ d. d) actor event key hash inputs db
        (λ i in' d k.
          create_invitation-keeps (servers i) actor event in' d (IsAudited old) k
            (λ c. inr (logged d k)))
        (λ items d k. elsewhere d _ (untouched d _ _ _) k) (λ d k. k) h

-- Whichever call is made and however it ends, either the events, the roster, the rooms, the
-- sessions, the invitations and the audit log are as before, or the log has grown.
pub perform-audits : (call : Call) (db : Db) → IsAudited db (perform call db)
perform-audits call db =
    perform-IsAudited db call db (inl (untouched db db.users db.series db.idempotency_keys))
