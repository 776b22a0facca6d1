-- ===== src/Users.antt =====
-- internal/adapter/postgres/user_repo.go: the user of an OIDC subject, made at the first sign-in.
use text.Mathlib.Text.{◌==◌ as str_eq}
use text.Mathlib.TextPositions.{eq_refl}
use krane_event_management_p.Common.{
  String, ◌≡◌, Bool, ◌==◌, ◌||◌, none, some, ◌∷◌, any, find_row, if◌then◌else◌, Result, ok, err,
  internal, arith, Bool-cases, Option-cases, inl, inr,
}
use krane_event_management_p.Domain.{User}
use krane_event_management_p.Store.{Db, Server, Up, exec, diagnose}

abbrev pub has_subject : String → User → Bool
has_subject subject u = str_eq u.subject subject

abbrev pub new_user : Server → String → String → String → User
new_user pg subject email name = record {
  id = pg.uuid;
  subject = subject;
  email = email;
  name = name;
  created_at = pg.now;
  updated_at = pg.now;
}

-- UserRepository.GetOrCreateBySubject: ON CONFLICT (subject) DO NOTHING, so a clash of another key (the
-- id, or the address) is an error; then the row that was there.
unfoldable pub get_or_create_by_subject : Server → String → String → String → Db → Result User × Db
get_or_create_by_subject pg subject email name db =
    if pg.fails exec then (err internal, db) else elim (find_row (has_subject subject) db.users) [
      | some u ↦ (if pg.fails diagnose then err internal else ok u, db)
      | none ↦
          if any (λ u. u.id == pg.uuid || pg.citext_eq u.email email) db.users
          then (err internal, db)
          else (
            ok (new_user pg subject email name),
            record db { users = new_user pg subject email name ∷ db.users },
          )
    ]

-- While the server answers: after a sign-in that succeeded, a later one of the same subject returns
-- the same user, whatever address and name it brings, and changes nothing.
pub get_or_create_by_subject-again :
    (pg pg' : Server) (subject email name email' name' : String) (db : Db) {u : User}
    → Up pg'
    → (get_or_create_by_subject pg subject email name db).0 ≡ ok u
    → let db' = (get_or_create_by_subject pg subject email name db).1 in
      get_or_create_by_subject pg' subject email' name' db' ≡ (ok u, db')
unfolding get_or_create_by_subject
get_or_create_by_subject-again pg pg' subject email name email' name' db up h =
    ground (arith, up exec, up diagnose, eq_refl subject)

-- A sign-in changes the users only.
pub get_or_create_by_subject-keeps {κ} :
    (P : Db → Type κ) (pg : Server) (subject email name : String) (db : Db)
    → P db
    → (P (record db { users = new_user pg subject email name ∷ db.users }))
    → P (get_or_create_by_subject pg subject email name db).1
unfolding get_or_create_by_subject
get_or_create_by_subject-keeps P pg subject email name db h k = elim (Bool-cases (pg.fails exec)) [
  | inl e ↦ rw e h
  | inr up ↦ elim (Option-cases (find_row (has_subject subject) db.users)) [
    | inr (u, e) ↦ rw (up, e) h
    | inl none_there ↦
        elim (Bool-cases (any (λ u. u.id == pg.uuid || pg.citext_eq u.email email) db.users)) [
          | inl e ↦ rw (up, none_there, e) h
          | inr e ↦ rw (up, none_there, e) k
        ]
  ]
]
