-- ===== src/Seeding/Truncation/Recurring.antt =====
-- Truncate and the tables of recurring sessions, which it does not clear.
use krane_event_management_p.Common.{
  ◌≡◌, ◌≢◌, refl, Bool, true, false, List, [], ◌∷◌, any, All, arith, ok, err, internal, inl, inr,
  subst, ap, ◌↔◌, ◌⊎◌,
}
use krane_event_management_p.Store.{Db, has_user}
use krane_event_management_p.Seeding.Truncation.{
  Statement, without, has_session, has_room, has_series, truncate,
}

-- Foreign keys: the rows that exceptions, series and audit entries refer to exist.
pub record HasReferences (db : Db) : Type 0 where
  pub sessions : All (λ x. has_session db.sessions x.session_id ≡ true) db.exceptions
  pub series : All (λ x. has_series db.series x.series_id ≡ true) db.exceptions
  pub rooms : All (λ r. has_room db.rooms r.room_id ≡ true) db.series
  pub actors : All (λ a. has_user a.actor_id db ≡ true) db.audit_log

abbrev pub empty_db : Db
empty_db = record {
  users = [];
  events = [];
  members = [];
  rooms = [];
  sessions = [];
  series = [];
  exceptions = [];
  invitations = [];
  idempotency_keys = [];
  audit_log = [];
}

without-all {ℓ} :
    {A : Type ℓ} (p : A → Bool) (xs : List A) → All (λ x. p x ≡ true) xs → without p xs ≡ []
without-all p [] h = refl
without-all p (x ∷ xs) h = ground (arith, h.0, without-all p xs h.1)

any-all {ℓ} :
    {A : Type ℓ} (p : A → Bool) (xs : List A)
    → All (λ x. p x ≡ true) xs
    → (xs ≡ []) ⊎ (any p xs ≡ true)
any-all p [] h = inl refl
any-all p (x ∷ xs) h = inr (ground (arith, h.0))

none-all {ℓ} : {A : Type ℓ} (xs : List A) → All (λ x. ◌≡◌ {A = Bool} false true) xs → xs ≡ []
none-all [] h = refl
none-all (x ∷ xs) h = absurd (cc (h.0))

module _ (fails : Statement → Bool) (up : (s : Statement) → fails s ≡ false) (db : Db)
    (h : HasReferences db) where
  cleared_log : without (λ a. has_user a.actor_id db) db.audit_log ≡ []
  cleared_log = without-all (λ a. has_user a.actor_id db) db.audit_log h.actors

  truncate-no_series : db.series ≡ [] → truncate fails db ≡ (ok tt, empty_db)
  unfolding truncate
  truncate-no_series e =
      let none_left : db.exceptions ≡ [] =
        none-all db.exceptions
          (subst (λ rs. All (λ x. has_series rs x.series_id ≡ true) db.exceptions) e h.series) in
      simp (up, cleared_log, none_left, e)

  room_referred : db.series ≢ [] → any (λ r. has_room db.rooms r.room_id) db.series ≡ true
  room_referred n = elim (any-all (λ r. has_room db.rooms r.room_id) db.series h.rooms) [
    | inl e ↦ absurd (n e)
    | inr e ↦ e
  ]

  -- While the server answers, and where the foreign keys hold: with a row in session_series,
  -- Truncate fails, as that row refers to a room; users, events, rooms and series are then as they
  -- were, while all invitations and the whole audit log are gone.
  pub truncate-some_series :
      db.series ≢ []
      → ((truncate fails db).0 ≡ err internal)
        × ((truncate fails db).1.users ≡ db.users)
        × ((truncate fails db).1.events ≡ db.events)
        × ((truncate fails db).1.rooms ≡ db.rooms)
        × ((truncate fails db).1.series ≡ db.series)
        × ((truncate fails db).1.invitations ≡ [])
        × ((truncate fails db).1.audit_log ≡ [])
  unfolding truncate
  truncate-some_series n =
      elim (any-all (λ x. has_session db.sessions x.session_id) db.exceptions h.sessions) [
        | inl e ↦
            simp (up, cleared_log, e, room_referred n) (refl, refl, refl, refl, refl, refl, refl)
        | inr e ↦ simp (up, cleared_log, e) (refl, refl, refl, refl, refl, refl, refl)
      ]

  -- While the server answers, and where the foreign keys hold: Truncate succeeds and leaves every
  -- table empty exactly when there is no row in session_series.
  pub truncate-ok_iff : (truncate fails db ≡ (ok tt, empty_db)) ↔ (db.series ≡ [])
  truncate-ok_iff = (
    λ q. elim (any-all (λ r. has_room db.rooms r.room_id) db.series h.rooms) [
      | inl e ↦ e
      | inr e ↦
          let failed =
            truncate-some_series (λ none_left.
              ground (arith, ap (any (λ r. has_room db.rooms r.room_id)) none_left)) in
          absurd (ground (arith, failed.0, ap (λ r. r.0) q))
    ],
    truncate-no_series,
  )
