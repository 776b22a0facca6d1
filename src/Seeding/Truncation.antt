-- ===== src/Seeding/Truncation.antt =====
-- cmd/seed/load.go, Truncate: the eight DELETE statements, each a transaction of its own, with the
-- foreign keys of migrations/*.up.sql that refer to the deleted rows.
pub mod Recurring
use krane_event_management_p.Common.{
  ℕ, Bool, true, false, not, ◌==◌, ◌&&◌, ◌||◌, Option, none, some, List, [], ◌∷◌, any,
  if◌then◌else◌, Result, ok, err, internal,
}
use krane_event_management_p.Domain.{Room, Series}
use krane_event_management_p.Store.{SessionRow, Db, has_user}

pub data Statement : Type 0 where
  delete_idempotency_keys delete_audit_log delete_invitations delete_sessions : Statement
  delete_event_members delete_rooms delete_events delete_users : Statement

abbrev pub without {ℓ} : {A : Type ℓ} → (A → Bool) → List A → List A
without p [] = []
without p (x ∷ xs) = if p x then without p xs else x ∷ without p xs

abbrev pub has_session : List SessionRow → ℕ → Bool
has_session sessions id = any (λ s. s.id == id) sessions

abbrev pub has_room : List Room → ℕ → Bool
has_room rooms id = any (λ r. r.id == id) rooms

abbrev pub has_series : List Series → ℕ → Bool
has_series series id = any (λ r. r.id == id) series

abbrev pub of_user : Db → Option ℕ → Bool
of_user db none = false
of_user db (some id) = has_user id db

-- A DELETE fails where a row that stays refers to one that goes (NO ACTION).
abbrev pub unless : Bool → Db → Result Db
unless true db = err internal
unless false db = ok db

abbrev pub sessions_referred : Db → Bool
sessions_referred db = any (λ x. has_session db.sessions x.session_id) db.exceptions

abbrev pub rooms_referred : Db → Bool
rooms_referred db =
    any (λ s. has_room db.rooms s.room_id) db.sessions
    || any (λ r. has_room db.rooms r.room_id) db.series

abbrev pub users_referred : Db → Bool
users_referred db =
    any (λ m. has_user m.user_id db) db.members
    || (any (λ s. has_user s.speaker_id db) db.sessions
        || (any (λ i. of_user db i.user_id) db.invitations
            || (any (λ a. has_user a.actor_id db) db.audit_log
                || (any (λ k. has_user k.actor_id db) db.idempotency_keys
                    || any (λ r. has_user r.speaker_id db) db.series))))

abbrev pub has_event : Db → ℕ → Bool
has_event db id = any (λ e. e.id == id) db.events

abbrev pub of_series : List Series → Option ℕ → Bool
of_series series none = false
of_series series (some id) = has_series series id

-- ON DELETE CASCADE takes the rows of the deleted events along, and the exceptions of their series.
abbrev pub cascaded : Db → Db
cascaded db = record db {
  events = [];
  members = without (λ m. has_event db m.event_id) db.members;
  rooms = without (λ r. has_event db r.event_id) db.rooms;
  sessions = without (λ s. has_event db s.event_id) db.sessions;
  series = without (λ r. has_event db r.event_id) db.series;
  exceptions =
      without (λ x. any (λ r. r.id == x.series_id && has_event db r.event_id) db.series)
        db.exceptions;
  invitations = without (λ i. has_event db i.event_id) db.invitations;
}

-- A row that stays refers to a room, a session or a series that the cascade took.
abbrev pub dangling : Db → Db → Bool
dangling db after =
    any (λ s. has_room db.rooms s.room_id && not (has_room after.rooms s.room_id)) after.sessions
    || (any (λ r. has_room db.rooms r.room_id && not (has_room after.rooms r.room_id)) after.series
        || (any (λ s. of_series db.series s.series_id && not (of_series after.series s.series_id))
              after.sessions
            || any
                (λ x.
                  has_session db.sessions x.session_id
                  && not (has_session after.sessions x.session_id))
                after.exceptions))

pub execute : Statement → Db → Result Db
execute delete_idempotency_keys db = ok (record db { idempotency_keys = [] })
execute delete_audit_log db =
    ok (record db { audit_log = without (λ a. has_user a.actor_id db) db.audit_log })
execute delete_invitations db = ok (record db { invitations = [] })
execute delete_sessions db = unless (sessions_referred db) (record db { sessions = [] })
execute delete_event_members db = ok (record db { members = [] })
execute delete_rooms db = unless (rooms_referred db) (record db { rooms = [] })
execute delete_events db = unless (dangling db (cascaded db)) (cascaded db)
execute delete_users db = unless (users_referred db) (record db { users = [] })

abbrev pub stmts : List Statement
stmts =
    delete_idempotency_keys ∷ delete_audit_log ∷ delete_invitations ∷ delete_sessions
    ∷ delete_event_members ∷ delete_rooms ∷ delete_events ∷ delete_users ∷ []

abbrev pub after : Result Db → Db → (Db → Result (Unit {0}) × Db) → Result (Unit {0}) × Db
after (err e) db rest = (err e, db)
after (ok db') db rest = rest db'

-- `fails` are the statements at which the connection or the server fails.
pub run_stmts : (Statement → Bool) → List Statement → Db → Result (Unit {0}) × Db
unfolding execute
run_stmts fails [] db = (ok tt, db)
run_stmts fails (s ∷ rest) db =
    after (if fails s then err internal else execute s db) db (run_stmts fails rest)

-- Truncate
unfoldable pub truncate : (Statement → Bool) → Db → Result (Unit {0}) × Db
unfolding run_stmts
truncate fails = run_stmts fails stmts
