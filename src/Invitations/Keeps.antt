-- ===== src/Invitations/Keeps.antt =====
-- What holds of the tables through a bulk call.
use krane_event_management_p.Common.{
  ℕ, String, none, some, List, any, Option, Result, ok, err, Bool-cases, inl, inr,
}
use krane_event_management_p.Domain.{GrantInput, BulkItemResult, BulkResult}
use krane_event_management_p.Store.{Db, Server, exec, has_user}
use krane_event_management_p.Invitations.{
  create_invitation, is_key, load_idempotency_result, read_back, stored_key, record_result,
  after_items, unless_stored, bulk_create,
}
use krane_event_management_p.Invitations.Writes.{invite_each-keeps}

module _ {κ} (P : Db → Type κ) where
  read_back-keeps :
      (l : Result (Option (List BulkItemResult))) (db : Db) → P db → P (read_back l db).1
  read_back-keeps (err e) db h = h
  read_back-keeps (ok none) db h = h
  read_back-keeps (ok (some stored)) db h = h

  record_result-keeps :
      (pg : Server) (actor : ℕ) (key hash : String) (items : List BulkItemResult) (db : Db)
      → P db
      → P (stored_key actor key hash items db)
      → P (record_result pg actor key hash items db).1
  unfolding record_result
  record_result-keeps pg actor key hash items db h k = elim (Bool-cases (pg.fails exec)) [
    | inl e ↦ rw e h
    | inr up ↦ elim (Bool-cases (any (is_key actor key) db.idempotency_keys)) [
      | inl taken ↦
          rw (up, taken) (read_back-keeps (load_idempotency_result pg actor key hash db) db h)
      | inr free ↦ elim (Bool-cases (has_user actor db)) [
        | inr e ↦ rw (up, free, e) h
        | inl known ↦ rw (up, free, known) k
      ]
    ]
  ]

  after_items-keeps :
      (k : List BulkItemResult → Db → Result BulkResult × Db)
      (m : Result (List BulkItemResult) × Db)
      → ((items : List BulkItemResult) → P m.1 → P (k items m.1).1)
      → P m.1
      → P (after_items k m).1
  after_items-keeps k (ok items, db) f h = f items h
  after_items-keeps k (err e, db) f h = h

  unless_stored-keeps :
      (l : Result (Option (List BulkItemResult))) (db : Db) (rest : Result BulkResult × Db)
      → P db
      → P rest.1
      → P (unless_stored l db rest).1
  unless_stored-keeps (err e) db rest h k = h
  unless_stored-keeps (ok (some stored)) db rest h k = h
  unless_stored-keeps (ok none) db rest h k = k

  -- An invariant of Create, of a new key and of the other calls is one of the bulk call.
  pub bulk_create-keeps :
      (pg : Server) (servers : ℕ → Server) (last : Server) (others : Db → Db) (actor event : ℕ)
      (key hash : String) (inputs : List GrantInput) (db : Db)
      → ((i : ℕ) (in' : GrantInput) (d : Db)
          → P d
          → P (create_invitation (servers i) actor event in' d).1)
      → ((items : List BulkItemResult) (d : Db) → P d → P (stored_key actor key hash items d))
      → ((d : Db) → P d → P (others d))
      → P db
      → P (bulk_create pg servers last others actor event key hash inputs db).1
  unfolding bulk_create
  bulk_create-keeps pg servers last others actor event key hash inputs db kept new between h =
      unless_stored-keeps (load_idempotency_result pg actor key hash db) db _ h (
        after_items-keeps (λ items d. record_result last actor key hash items (others d)) _
          (λ items w.
            record_result-keeps last actor key hash items _ (between _ w)
              (new items _ (between _ w)))
          (invite_each-keeps P servers actor event kept 0 inputs db h))
