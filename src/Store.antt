-- ===== src/Store.antt =====
-- The database: the tables of migrations/*.up.sql as lists of rows, what the server and the
-- connection contribute to a call, and the transaction that every write of internal/adapter/postgres
-- runs in (Begin, the statements, the audit row, Commit, with Rollback deferred).
pub mod Laws
use krane_event_management_p.Common.{
  ℕ, String, Bool, true, false, not, ◌≡◌, ◌==◌, ◌||◌, Option, none, some, List, [], ◌∷◌, any,
  if◌then◌else◌, ltb, Error, Result, ok, err,
}
use krane_event_management_p.Domain.{Role, User, Room, Series, Freq, Invitation, BulkItemResult}
use krane_event_management_p.Common.{internal}

pub record EventRow : Type 0 where
  pub id : ℕ
  pub name : String
  pub description : Option String
  pub timezone : String
  pub starts_at : ℕ
  pub ends_at : ℕ
  pub version : ℕ
  pub deleted_at : Option ℕ
  pub created_at : ℕ
  pub updated_at : ℕ

pub record MemberRow : Type 0 where
  pub id : ℕ
  pub event_id : ℕ
  pub user_id : ℕ
  pub role : Role
  pub version : ℕ
  pub created_at : ℕ
  pub updated_at : ℕ

-- time_range is [starts_at, ends_at).
pub record SessionRow : Type 0 where
  pub id : ℕ
  pub event_id : ℕ
  pub room_id : ℕ
  pub speaker_id : ℕ
  pub title : String
  pub description : Option String
  pub starts_at : ℕ
  pub ends_at : ℕ
  pub version : ℕ
  pub deleted_at : Option ℕ
  pub created_at : ℕ
  pub updated_at : ℕ
  pub series_id : Option ℕ

pub data ExceptionStatus : Type 0 where
  modified cancelled : ExceptionStatus

pub record SessionException : Type 0 where
  pub series_id : ℕ
  pub session_id : ℕ
  pub status : ExceptionStatus
  pub original_starts_at : ℕ

-- The endpoint and the status are the same in every row, and are left out.
pub record IdempotencyRow : Type 0 where
  pub actor_id : ℕ
  pub key : String
  pub request_hash : String
  pub response_body : List BulkItemResult

pub data EntityType : Type 0 where
  event room session event_member invitation : EntityType

pub data AuditAction : Type 0 where
  create update delete : AuditAction

-- The jsonb of a row. That of a creator's membership leaves the version out in the source.
pub data Snapshot : Type 0 where
  of_event : EventRow → Snapshot
  of_member : MemberRow → Snapshot
  of_room : Room → Snapshot
  of_session : SessionRow → Snapshot
  of_invitation : Invitation → Snapshot

pub record AuditEntry : Type 0 where
  pub actor_id : ℕ
  pub entity_type : EntityType
  pub entity_id : ℕ
  pub action : AuditAction
  pub before : Option Snapshot
  pub after : Option Snapshot

pub record Db : Type 0 where
  pub users : List User
  pub events : List EventRow
  pub members : List MemberRow
  pub rooms : List Room
  pub sessions : List SessionRow
  pub series : List Series
  pub exceptions : List SessionException
  pub invitations : List Invitation
  pub idempotency_keys : List IdempotencyRow
  pub audit_log : List AuditEntry

-- The round trips of a call that can fail with an error of the connection or the server.
pub data Point : Type 0 where
  begin lock exec diagnose audit exception commit : Point

-- What PostgreSQL contributes to one call: which round trips fail, the values of uuidv7() for the row
-- that the call inserts (and the membership beside a new event), now(), which is the same throughout
-- a transaction, and the equality of citext.
pub record Server : Type 0 where
  pub fails : Point → Bool
  pub uuid : ℕ
  pub member_uuid : ℕ
  pub now : ℕ
  pub citext_eq : String → String → Bool

-- An argument of type integer, which PostgreSQL keeps in 32 bits with a sign. pgx refuses to encode
-- another, and `version + 1` fails where it does not fit.
unfoldable pub fits_int4 : ℕ → Bool
fits_int4 n = ltb n 2147483648

-- No round trip fails.
abbrev pub Up : Server → Type 0
Up pg = (p : Point) → pg.fails p ≡ false

-- `defer tx.Rollback`: on an error, of the body or of Commit, the tables are those of before.
abbrev pub settle {ℓ} : {A : Type ℓ} → Server → Db → Result (A × Db) → Result A × Db
settle pg db (err e) = (err e, db)
settle pg db (ok (a, db')) = if pg.fails commit then (err internal, db) else (ok a, db')

abbrev pub in_tx {ℓ} : {A : Type ℓ} → Server → (Db → Result (A × Db)) → Db → Result A × Db
in_tx pg body db = if pg.fails begin then (err internal, db) else settle pg db (body db)

abbrev pub has_user : ℕ → Db → Bool
has_user user db = any (λ u. u.id == user) db.users

-- INSERT INTO audit_log; actor_id references users.
unfoldable pub insert_audit : Server → AuditEntry → Db → Result Db
insert_audit pg entry db =
    if pg.fails audit || not (has_user entry.actor_id db)
    then err internal
    else ok (record db { audit_log = entry ∷ db.audit_log })
