-- ===== src/Store/Laws.antt =====
-- What a transaction guarantees whatever its body does: an error leaves the tables alone, and a
-- success is a success of the body.
use krane_event_management_p.Common.{◌≡◌, refl, arith, Error, Result, ok, err, Bool-cases, inl, inr}
use krane_event_management_p.Store.{Db, Server, begin, commit, settle, in_tx}

module _ {ℓ} {A : Type ℓ} (pg : Server) (db : Db) where
  settle-ok :
      {a : A} (r : Result (A × Db)) → (settle pg db r).0 ≡ ok a → r ≡ ok (a, (settle pg db r).1)
  settle-ok (err e) h = cc
  settle-ok (ok (a, db')) h = ground arith

  settle-err :
      {e : Error} (r : Result (A × Db)) → (settle pg db r).0 ≡ err e → (settle pg db r).1 ≡ db
  settle-err (err e) h = refl
  settle-err (ok (a, db')) h = ground arith

  settle-keeps {κ} :
      (P : Db → Type κ) (r : Result (A × Db))
      → P db
      → ((a : A) (db' : Db) → r ≡ ok (a, db') → P db')
      → P (settle pg db r).1
  settle-keeps P (err e) h k = h
  settle-keeps P (ok (a, db')) h k = elim (Bool-cases (pg.fails commit)) [
    | inl e ↦ rw e h
    | inr e ↦ rw e (k a db' refl)
  ]

module _ {ℓ} {A : Type ℓ} (pg : Server) (body : Db → Result (A × Db)) (db : Db) where
  pub in_tx-ok : {a : A} → (in_tx pg body db).0 ≡ ok a → body db ≡ ok (a, (in_tx pg body db).1)
  in_tx-ok {a} h = elim (Bool-cases (pg.fails begin)) [
    | inl e ↦ cc (rw e at h)
    | inr e ↦ rw e (settle-ok pg db (body db) (rw e at h))
  ]

  pub in_tx-err : {e : Error} → (in_tx pg body db).0 ≡ err e → (in_tx pg body db).1 ≡ db
  in_tx-err h = elim (Bool-cases (pg.fails begin)) [
    | inl e ↦ rw e
    | inr e ↦ rw e (settle-err pg db (body db) (rw e at h))
  ]

  -- What holds of the tables before, and of those that a successful body leaves, holds after.
  pub in_tx-keeps {κ} :
      (P : Db → Type κ)
      → P db
      → ((a : A) (db' : Db) → body db ≡ ok (a, db') → P db')
      → P (in_tx pg body db).1
  in_tx-keeps P h k = elim (Bool-cases (pg.fails begin)) [
    | inl e ↦ rw e h
    | inr e ↦ rw e (settle-keeps pg db P (body db) h k)
  ]
