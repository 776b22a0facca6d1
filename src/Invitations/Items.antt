-- ===== src/Invitations/Items.antt =====
-- What the items of a bulk call report.
use krane_event_management_p.Common.{
  ℕ, suc, ◌≡◌, ◌+◌, refl, List, [], ◌∷◌, length, Result, ok, err, Error, arith, if◌then◌else◌, Bool,
  true, false,
}
use krane_event_management_p.Domain.{GrantInput, Invitation, BulkItemResult, BulkStatus}
use krane_event_management_p.Store.{Db, Server}
use krane_event_management_p.Store.Laws.{in_tx-err}
use krane_event_management_p.Invitations.{
  create_invitation, create_body, outcome_of, after_round, invite_each,
}
use krane_event_management_p.Invitations.Writes.{create_invitation-ok}

abbrev pub is_created : BulkStatus → Bool
is_created BulkStatus.created = true
is_created _ = false

abbrev pub count_created : List BulkItemResult → ℕ
count_created [] = 0
count_created (r ∷ rs) = (if is_created r.status then 1 else 0) + count_created rs

-- The results are those of the inputs, in order.
abbrev pub Answers : List GrantInput → List BulkItemResult → Type 0
Answers [] [] = Unit
Answers (i ∷ is) (r ∷ rs) = (r.email ≡ i.email) × Answers is rs
Answers [] (r ∷ rs) = ⊥
Answers (i ∷ is) [] = ⊥

-- The invitations and the audit log have grown by so many rows.
pub record Grown (db db' : Db) (n : ℕ) : Type 0 where
  pub invitations : length db'.invitations ≡ length db.invitations + n
  pub audited : length db'.audit_log ≡ length db.audit_log + n

module _ (actor event : ℕ) where
  refused :
      (pg : Server) (input : GrantInput) (db : Db) {e : Error}
      → (create_invitation pg actor event input db).0 ≡ err e
      → (create_invitation pg actor event input db).1 ≡ db
  unfolding create_invitation
  refused pg input db h = in_tx-err pg (create_body pg actor event input) db h

  round_grows :
      (pg : Server) (input : GrantInput) (db : Db) {r : BulkItemResult} (made : Result Invitation)
      → (create_invitation pg actor event input db).0 ≡ made
      → outcome_of input.email made ≡ ok r
      → (r.email ≡ input.email)
        × Grown db
            (create_invitation pg actor event input db).1
            (if is_created r.status then 1 else 0)
  round_grows pg input db (ok s) e h =
      let (_, _, after) = create_invitation-ok pg actor event input db e in
      (ground arith, rw after (record { invitations = ground arith; audited = ground arith }))
  round_grows pg input db (err Error.conflict) e h = (
    ground arith,
    rw (refused pg input db e) (record { invitations = ground arith; audited = ground arith }),
  )
  round_grows pg input db (err Error.forbidden) e h = (
    ground arith,
    rw (refused pg input db e) (record { invitations = ground arith; audited = ground arith }),
  )
  round_grows pg input db (err _) e h = ground arith

  after_round-ok :
      (o : Result BulkItemResult) (db : Db) (rest : Result (List BulkItemResult) × Db)
      {rs : List BulkItemResult}
      → (after_round o db rest).0 ≡ ok rs
      → (r : BulkItemResult) × (rs' : List BulkItemResult) × (o ≡ ok r)
        × (rest.0 ≡ ok rs')
        × (rs ≡ r ∷ rs')
        × ((after_round o db rest).1 ≡ rest.1)
  after_round-ok (ok r) db (ok rs', db') h = (r, rs', refl, refl, ground arith, refl)
  after_round-ok (ok r) db (err e, db') h = ground arith
  after_round-ok (err e) db rest h = ground arith

  -- A loop of a bulk call that succeeds answers each item in order under its address, and has added
  -- exactly as many invitations, and as many audit entries, as it reports created.
  pub invite_each-accounts :
      (servers : ℕ → Server) (i : ℕ) (inputs : List GrantInput) (db : Db) {rs : List BulkItemResult}
      → (invite_each servers actor event i inputs db).0 ≡ ok rs
      → Answers inputs rs
        × Grown db (invite_each servers actor event i inputs db).1 (count_created rs)
  unfolding invite_each
  invite_each-accounts servers i [] db {rs} h =
      let e : rs ≡ [] = ground arith in
      rw e (tt, record { invitations = omega arith; audited = omega arith })
  invite_each-accounts servers i (input ∷ inputs) db h =
      let made = create_invitation (servers i) actor event input db in
      let rest = invite_each servers actor event (suc i) inputs made.1 in
      let (r, rs', o, e, same, after) =
        after_round-ok (outcome_of input.email made.0) made.1 rest h in
      let (at, grown) = round_grows (servers i) input db made.0 refl o in
      let (answers, more) = invite_each-accounts servers (suc i) inputs made.1 e in
      rw (same, after)
        (
          (at, answers),
          record {
            invitations = omega (arith, grown.invitations, more.invitations);
            audited = omega (arith, grown.audited, more.audited);
          },
        )
