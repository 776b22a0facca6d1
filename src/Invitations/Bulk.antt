-- ===== src/Invitations/Bulk.antt =====
-- The bulk call: each item goes through Create, and a retry of the key replays the stored items.
use text.Mathlib.Text.{◌==◌ as str_eq}
use text.Mathlib.TextEquality.{eq_iff}
use text.Mathlib.TextPositions.{eq_refl}
use krane_event_management_p.Common.{
  ℕ, String, ◌≡◌, ◌≢◌, refl, ap, true, Option, none, some, List, any, find_row, Result, ok, err,
  conflict, arith, Option-cases, Bool-cases, eq_self, inl, inr,
}
use krane_event_management_p.Domain.{GrantInput, BulkItemResult, BulkResult}
use krane_event_management_p.Store.{IdempotencyRow, Db, Server, Up, exec, diagnose, has_user}
use krane_event_management_p.Invitations.{
  invite_each, is_key, read_back, unless_stored, load_idempotency_result, stored_result,
  after_items, record_result, bulk_create,
}

-- The key is stored for a request of this hash, with these items.
pub record IsStored (db : Db) (actor : ℕ) (key hash : String) (items : List BulkItemResult)
    : Type 0 where
  pub row : IdempotencyRow
  pub found : find_row (is_key actor key) db.idempotency_keys ≡ some row
  pub same_hash : str_eq row.request_hash hash ≡ true
  pub body : row.response_body ≡ items

module _ (pg : Server) (actor : ℕ) (key hash : String) (db : Db) where
  load-ok :
      {items : List BulkItemResult}
      → load_idempotency_result pg actor key hash db ≡ ok (some items)
      → IsStored db actor key hash items
  unfolding load_idempotency_result
  load-ok h = elim (Option-cases (find_row (is_key actor key) db.idempotency_keys)) [
    | inl e ↦ ground arith
    | inr (r, e) ↦ record { row = r; found = e; same_hash = ground arith; body = ground arith }
  ]

  load-stored :
      {items : List BulkItemResult}
      → Up pg
      → IsStored db actor key hash items
      → load_idempotency_result pg actor key hash db ≡ ok (some items)
  unfolding load_idempotency_result
  load-stored up s = ground (arith, up diagnose, s.found, s.same_hash, s.body)

  read_back-ok :
      (l : Result (Option (List BulkItemResult))) {r : BulkResult}
      → (read_back l db).0 ≡ ok r
      → (l ≡ ok (some r.items)) × ((read_back l db).1 ≡ db)
  read_back-ok (err e) h = ground arith
  read_back-ok (ok none) h = ground arith
  read_back-ok (ok (some stored)) h = (ground arith, refl)

  record_result-IsStored :
      (items : List BulkItemResult) {r : BulkResult}
      → (record_result pg actor key hash items db).0 ≡ ok r
      → IsStored (record_result pg actor key hash items db).1 actor key hash r.items
  unfolding record_result
  record_result-IsStored items h = elim (Bool-cases (pg.fails exec)) [
    | inl e ↦ cc (rw e at h)
    | inr up ↦ elim (Bool-cases (any (is_key actor key) db.idempotency_keys)) [
      | inl taken ↦
          let (l, same) =
            read_back-ok (load_idempotency_result pg actor key hash db) (rw (up, taken) at h) in
          rw (up, taken, same) (load-ok l)
      | inr free ↦ elim (Bool-cases (has_user actor db)) [
        | inr e ↦ cc (rw (up, free, e) at h)
        | inl known ↦
            rw (up, free, known)
              (record {
                row = record {
                  actor_id = actor;
                  key = key;
                  request_hash = hash;
                  response_body = items;
                };
                found = rw (eq_self actor, eq_refl key) refl;
                same_hash = eq_refl hash;
                body = ground (arith, h, up, free, known);
              })
      ]
    ]
  ]

-- Whatever the event and the items of the call: where the key is stored with the hash of the request,
-- the stored items are the result, and nothing changes.
pub bulk_create-stored :
    (pg last : Server) (servers : ℕ → Server) (others : Db → Db) (actor event : ℕ)
    (key hash : String) (inputs : List GrantInput) (db : Db) {items : List BulkItemResult}
    → Up pg
    → IsStored db actor key hash items
    → bulk_create pg servers last others actor event key hash inputs db
      ≡ (ok (stored_result items), db)
unfolding bulk_create
bulk_create-stored pg last servers others actor event key hash inputs db up s =
    ap
      (λ l. unless_stored l db (
        after_items (λ items' d. record_result last actor key hash items' (others d))
          (invite_each servers actor event 0 inputs db)))
      (load-stored pg actor key hash db up s)

-- Where the key is stored with another hash, and while the server answers, a bulk call is a conflict
-- and changes nothing.
pub bulk_create-other_request :
    (pg last : Server) (servers : ℕ → Server) (others : Db → Db) (actor event : ℕ)
    (key hash : String) (inputs : List GrantInput) (db : Db) (row : IdempotencyRow)
    → Up pg
    → find_row (is_key actor key) db.idempotency_keys ≡ some row
    → row.request_hash ≢ hash
    → bulk_create pg servers last others actor event key hash inputs db ≡ (err conflict, db)
unfolding bulk_create load_idempotency_result
bulk_create-other_request pg last servers others actor event key hash inputs db row up found other =
    ground (arith, up diagnose, found, other, eq_iff row.request_hash hash)

after_items-ok :
    (k : List BulkItemResult → Db → Result BulkResult × Db) (m : Result (List BulkItemResult) × Db)
    {r : BulkResult}
    → (after_items k m).0 ≡ ok r
    → (items : List BulkItemResult) × (m.0 ≡ ok items) × (after_items k m ≡ k items m.1)
after_items-ok k (ok items, db) h = (items, refl, refl)
after_items-ok k (err e, db) h = ground arith

module _ (pg last : Server) (servers : ℕ → Server) (others : Db → Db) (actor event : ℕ)
    (key hash : String) (inputs : List GrantInput) (db : Db) where
  -- The items of a call that succeeded are stored, whether it was the first, a retry, or the loser of
  -- a race.
  bulk_create-IsStored :
      {r : BulkResult}
      → (bulk_create pg servers last others actor event key hash inputs db).0 ≡ ok r
      → IsStored
          (bulk_create pg servers last others actor event key hash inputs db).1
          actor
          key
          hash
          r.items
  unfolding bulk_create
  bulk_create-IsStored {r} h = by_lookup (load_idempotency_result pg actor key hash db) refl h
    where
      rest : Result BulkResult × Db
      rest =
          after_items (λ items d. record_result last actor key hash items (others d))
            (invite_each servers actor event 0 inputs db)

      by_lookup :
          (l : Result (Option (List BulkItemResult)))
          → load_idempotency_result pg actor key hash db ≡ l
          → (unless_stored l db rest).0 ≡ ok r
          → IsStored (unless_stored l db rest).1 actor key hash r.items
      by_lookup (err e) q k = ground arith
      by_lookup (ok (some stored)) q k =
          let same : stored ≡ r.items = ground arith in load-ok pg actor key hash db (rw same at q)
      by_lookup (ok none) q k =
          let (items, _, after) =
            after_items-ok (λ items d. record_result last actor key hash items (others d)) _ k in
          rw after (record_result-IsStored last actor key hash _ items (rw after at k))

  -- After a bulk call that succeeded, as the first, as a retry or as the loser of a race, the
  -- actor's next call with the same key and hash returns the same items as a replay and changes
  -- nothing, while the server answers. The event and the items of that next call play no part.
  pub bulk_create-replay :
      {r : BulkResult} (pg' last' : Server) (servers' : ℕ → Server) (others' : Db → Db) (event' : ℕ)
      (inputs' : List GrantInput)
      → Up pg'
      → (bulk_create pg servers last others actor event key hash inputs db).0 ≡ ok r
      → let db' = (bulk_create pg servers last others actor event key hash inputs db).1 in
        bulk_create pg' servers' last' others' actor event' key hash inputs' db'
        ≡ (ok (stored_result r.items), db')
  bulk_create-replay pg' last' servers' others' event' inputs' up h =
      bulk_create-stored pg' last' servers' others' actor event' key hash inputs' _ up
        (bulk_create-IsStored h)
