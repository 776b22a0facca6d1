-- ===== src/Invitations.antt =====
-- internal/adapter/postgres/invitation_repo.go: invitations to an event, one per address, and the bulk
-- call with its idempotency keys.
pub mod Writes
pub mod Addresses
pub mod Bulk
pub mod Items
pub mod Keeps
use text.Mathlib.Text.{◌==◌ as str_eq}
use krane_event_management_p.Common.{
  ℕ, zero, suc, String, Bool, true, false, not, ◌==◌, ◌&&◌, ◌||◌, Option, none, some, List, [], ◌∷◌,
  any, find_row, if◌then◌else◌, Error, Result, ok, err, conflict, forbidden, internal, ◌>>=◌, ◌>>◌,
  fail_if, or_fail,
}
use krane_event_management_p.Domain.{
  is_known, User, GrantInput, Invitation, BulkStatus, BulkItemResult, BulkResult,
}
use krane_event_management_p.Store.{
  IdempotencyRow, Db, Server, exec, diagnose, begin, in_tx, invitation, create, of_invitation,
  insert_audit, has_user,
}
use krane_event_management_p.Members.{actor_row, can_grant}

-- SELECT id FROM users WHERE email = $2
abbrev pub user_of : Server → String → List User → Option ℕ
user_of pg email users = elim (find_row (λ u. pg.citext_eq u.email email) users) [
  | none ↦ none
  | some u ↦ some u.id
]

abbrev pub new_row : Server → ℕ → GrantInput → Db → Invitation
new_row pg event input db = record {
  id = pg.uuid;
  event_id = event;
  user_id = user_of pg input.email db.users;
  email = input.email;
  role = input.role;
  created_at = pg.now;
  updated_at = pg.now;
}

-- invitations_event_id_email_key
abbrev pub same_address : Server → Invitation → Invitation → Bool
same_address pg a b = a.event_id == b.event_id && pg.citext_eq a.email b.email

-- The CHECK on role and the unique indexes.
pub insert_invitation : Server → Invitation → List Invitation → Result Invitation
insert_invitation pg row rows = do
  fail_if (not (is_known row.role)) internal
  fail_if (any (λ r. r.id == row.id || same_address pg row r) rows) conflict
  ok row

pub create_body : Server → ℕ → ℕ → GrantInput → Db → Result (Invitation × Db)
unfolding insert_invitation
create_body pg actor event input db = do
  fail_if (pg.fails exec) internal
  fail_if (not (can_grant (actor_row event actor db.members) input.role)) forbidden
  row ← insert_invitation pg (new_row pg event input db) db.invitations
  logged ←
      insert_audit pg
        (record {
          actor_id = actor;
          entity_type = invitation;
          entity_id = row.id;
          action = create;
          before = none;
          after = some (of_invitation row);
        })
        (record db { invitations = row ∷ db.invitations })
  ok (row, logged)

-- InvitationRepository.Create
unfoldable pub create_invitation : Server → ℕ → ℕ → GrantInput → Db → Result Invitation × Db
unfolding create_body
create_invitation pg actor event input = in_tx pg (create_body pg actor event input)

-- The row of idempotency_keys for (actor_id, key).
abbrev pub is_key : ℕ → String → IdempotencyRow → Bool
is_key actor key r = r.actor_id == actor && str_eq r.key key

-- loadIdempotencyResult: the stored items, nothing where there is no row, or a conflict of hashes.
pub load_idempotency_result :
    Server → ℕ → String → String → Db → Result (Option (List BulkItemResult))
load_idempotency_result pg actor key hash db =
    if pg.fails diagnose
    then err internal
    else elim (find_row (is_key actor key) db.idempotency_keys) [
      | none ↦ ok none
      | some r ↦ if str_eq r.request_hash hash then ok (some r.response_body) else err conflict
    ]

abbrev pub item_of : String → BulkStatus → Option ℕ → BulkItemResult
item_of email status id = record { email = email; status = status; invitation_id = id }

-- The switch on the result of Create.
abbrev pub outcome_of : String → Result Invitation → Result BulkItemResult
outcome_of email (ok row) = ok (item_of email BulkStatus.created (some row.id))
outcome_of email (err Error.conflict) = ok (item_of email BulkStatus.conflict none)
outcome_of email (err Error.forbidden) = ok (item_of email BulkStatus.forbidden none)
outcome_of email (err _) = err internal

abbrev pub prepend :
    BulkItemResult → Result (List BulkItemResult) × Db → Result (List BulkItemResult) × Db
prepend r (ok rs, db) = (ok (r ∷ rs), db)
prepend r (err e, db) = (err e, db)

abbrev pub after_round :
    Result BulkItemResult
    → Db
    → Result (List BulkItemResult) × Db
    → Result (List BulkItemResult) × Db
after_round (ok r) db rest = prepend r rest
after_round (err e) db rest = (err e, db)

-- The loop over items, each through Create in a transaction of its own: `servers i` serves the i-th.
unfoldable pub invite_each :
    (ℕ → Server) → ℕ → ℕ → ℕ → List GrantInput → Db → Result (List BulkItemResult) × Db
invite_each servers actor event i [] db = (ok [], db)
invite_each servers actor event i (input ∷ inputs) db =
    let made = create_invitation (servers i) actor event input db in
    after_round (outcome_of input.email made.0) made.1
      (invite_each servers actor event (suc i) inputs made.1)

abbrev pub fresh_result : List BulkItemResult → BulkResult
fresh_result items = record { items = items; replayed = false }

abbrev pub stored_result : List BulkItemResult → BulkResult
stored_result items = record { items = items; replayed = true }

abbrev pub stored_key : ℕ → String → String → List BulkItemResult → Db → Db
stored_key actor key hash items db = record db {
  idempotency_keys =
      (record { actor_id = actor; key = key; request_hash = hash; response_body = items })
      ∷ db.idempotency_keys;
}

-- What the winner of a race has stored is the result; it is an error that it has vanished.
abbrev pub read_back : Result (Option (List BulkItemResult)) → Db → Result BulkResult × Db
read_back (err e) db = (err e, db)
read_back (ok none) db = (err internal, db)
read_back (ok (some stored)) db = (ok (stored_result stored), db)

-- INSERT INTO idempotency_keys ... ON CONFLICT (actor_id, key) DO NOTHING, then, where another call
-- has stored its result meanwhile, that call's result.
pub record_result : Server → ℕ → String → String → List BulkItemResult → Db → Result BulkResult × Db
unfolding load_idempotency_result
record_result pg actor key hash items db =
    if pg.fails exec
    then (err internal, db)
    else if any (is_key actor key) db.idempotency_keys
    then read_back (load_idempotency_result pg actor key hash db) db
    else if not (has_user actor db)
    then (err internal, db)
    else (ok (fresh_result items), stored_key actor key hash items db)

abbrev pub after_items :
    (List BulkItemResult → Db → Result BulkResult × Db)
    → Result (List BulkItemResult) × Db
    → Result BulkResult × Db
after_items k (ok items, db) = k items db
after_items k (err e, db) = (err e, db)

-- The first lookup: its error or the stored items are the result, or the call goes on.
abbrev pub unless_stored :
    Result (Option (List BulkItemResult)) → Db → Result BulkResult × Db → Result BulkResult × Db
unless_stored (err e) db rest = (err e, db)
unless_stored (ok (some stored)) db rest = (ok (stored_result stored), db)
unless_stored (ok none) db rest = rest

-- InvitationRepository.BulkCreate. `pg` serves the first lookup, `last` the statements after the loop,
-- which `others` (what other calls commit meanwhile) precedes.
unfoldable pub bulk_create :
    Server
    → (ℕ → Server)
    → Server
    → (Db → Db)
    → ℕ
    → ℕ
    → String
    → String
    → List GrantInput
    → Db
    → Result BulkResult × Db
unfolding load_idempotency_result invite_each record_result
bulk_create pg servers last others actor event key hash inputs db =
    unless_stored (load_idempotency_result pg actor key hash db) db (
      after_items (λ items d. record_result last actor key hash items (others d))
        (invite_each servers actor event 0 inputs db))
