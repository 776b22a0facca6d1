-- ===== src/Members/Roster.antt =====
-- The keys of event_members, and what the errors of the version-gated writes mean.
use krane_event_management_p.Common.{
  ℕ, ◌≡◌, ◌≢◌, sym, true, false, not, ◌==◌, ◌&&◌, ◌||◌, none, some, List, [], ◌∷◌, Error, not_found,
  version_mismatch, conflict, internal, ◌⊎◌, find_row, err, arith, Option-cases, inl, inr, All,
  Pairwise, All-of, All-get, any-false, All-update_row, All-remove_row, Pairwise-update_row,
  Pairwise-remove_row, find_row-and,
}
use krane_event_management_p.Domain.{Role, admin, is_admin, is_known, GrantInput}
use krane_event_management_p.Store.{MemberRow, Db, Server, insert_audit}
use krane_event_management_p.Members.{
  is_row, diagnose_guarded, other_admin, create_member, assign_role, delete_member, may_assign,
}
use krane_event_management_p.Members.Writes.{
  create_member-keeps, assign_role-keeps, delete_member-keeps,
}

-- PRIMARY KEY (id) and UNIQUE (event_id, user_id).
abbrev pub Distinct : MemberRow → MemberRow → Type 0
Distinct a b = (a.id ≢ b.id) × (a.event_id ≡ b.event_id → a.user_id ≢ b.user_id)

pub record IsRoster (members : List MemberRow) : Type 0 where
  pub distinct : Pairwise Distinct members
  pub known : All (λ m. is_known m.role ≡ true) members

pub Distinct-sym : (a b : MemberRow) → Distinct a b → Distinct b a
Distinct-sym a b h = (λ e. h.0 (sym e), λ e f. h.1 (sym e) (sym f))

module _ (pg : Server) (actor event : ℕ) (db : Db) (v : IsRoster db.members) where
  pub create_member-IsRoster :
      (input : GrantInput) → IsRoster (create_member pg actor event input db).1.members
  create_member-IsRoster input =
      create_member-keeps pg actor event input db (λ d. IsRoster d.members) v
        (λ user granted known fresh. record {
          distinct = (
            All-of _ db.members (λ m i. let f = any-false _ db.members fresh i in ground arith),
            v.distinct,
          );
          known = (known, v.known);
        })

  pub assign_role-IsRoster :
      (member version : ℕ) (role : Role)
      → IsRoster (assign_role pg actor event member version role db).1.members
  assign_role-IsRoster member version role =
      assign_role-keeps pg actor event member version role db (λ d. IsRoster d.members) v
        (λ old found known. record {
          distinct =
              Pairwise-update_row Distinct _ _ db.members Distinct-sym v.distinct (λ x y q m h. h);
          known = All-update_row _ _ _ db.members v.known (λ x q. known);
        })

  pub delete_member-IsRoster :
      (member version : ℕ) → IsRoster (delete_member pg actor event member version db).1.members
  delete_member-IsRoster member version =
      delete_member-keeps pg actor event member version db (λ d. IsRoster d.members) v
        (λ old found. record {
          distinct = Pairwise-remove_row Distinct _ db.members v.distinct;
          known = All-remove_row _ _ db.members v.known;
        })

-- At most one row has the id.
module _ (event member : ℕ) where
  pub is_row_once :
      (ms : List MemberRow)
      → Pairwise Distinct ms
      → Pairwise (λ a b. is_row event member a ≡ true → is_row event member b ≡ true → ⊥) ms
  is_row_once [] h = tt
  is_row_once (m ∷ ms) h = (
    All-of _ ms (λ x i p q. let d = All-get (Distinct m) ms h.0 i in ground (arith, d.0)),
    is_row_once ms h.1,
  )

-- What each refusal of AssignRole says of the roster, in the order in which it is diagnosed.
abbrev pub AssignRefusal : ℕ → ℕ → ℕ → Role → List MemberRow → Error → Type 0
AssignRefusal event member version role ms not_found = find_row (is_row event member) ms ≡ none
AssignRefusal event member version role ms version_mismatch =
    (m : MemberRow) × (find_row (is_row event member) ms ≡ some m) × (m.version ≢ version)
AssignRefusal event member version role ms conflict =
    (m : MemberRow) × (find_row (is_row event member) ms ≡ some m)
    × (m.version ≡ version)
    × (m.role ≡ admin)
    × (role ≢ admin)
    × (other_admin event member ms ≡ false)
AssignRefusal event member version role ms _ = Unit

module _ (pg : Server) (actor event member version : ℕ) (role : Role) (db : Db) where
  -- A refusal comes from the read after an UPDATE that found no row.
  assign_role-refused :
      (e : Error)
      → (assign_role pg actor event member version role db).0 ≡ err e
      → (e ≡ internal)
        ⊎ (find_row (may_assign event member version role db.members) db.members ≡ none)
          × (e ≡ diagnose_guarded pg event member version db.members)
  unfolding assign_role insert_audit
  assign_role-refused e h = ground arith

  refusal_missing :
      (e : Error)
      → find_row (is_row event member) db.members ≡ none
      → e ≡ diagnose_guarded pg event member version db.members
      → AssignRefusal event member version role db.members e
  unfolding diagnose_guarded
  refusal_missing not_found f d = f
  refusal_missing version_mismatch f d = ground arith
  refusal_missing conflict f d = ground arith
  refusal_missing _ f d = tt

  refusal_found :
      (e : Error) (m : MemberRow)
      → find_row (is_row event member) db.members ≡ some m
      → (m.version == version
          && (not (is_admin m.role) || (is_admin role || other_admin event member db.members)))
        ≡ false
      → e ≡ diagnose_guarded pg event member version db.members
      → AssignRefusal event member version role db.members e
  unfolding diagnose_guarded
  refusal_found not_found m f g d = ground arith
  refusal_found version_mismatch m f g d = (m, f, ground arith)
  refusal_found conflict m f g d =
      let same : m.version ≡ version = ground arith in
      (m, f, same, ground arith, ground arith, ground arith)
  refusal_found _ m f g d = tt

  -- On a roster in order, each error of AssignRole is exact: not_found means that the event has no
  -- such row, version_mismatch that its version is another, and conflict that the version is right,
  -- the row is the event's only admin and the new role is not admin.
  pub assign_role-AssignRefusal :
      (e : Error)
      → IsRoster db.members
      → (assign_role pg actor event member version role db).0 ≡ err e
      → AssignRefusal event member version role db.members e
  assign_role-AssignRefusal e v h = elim (assign_role-refused e h) [
    | inl i ↦ rw i tt
    | inr (missed, d) ↦ elim (Option-cases (find_row (is_row event member) db.members)) [
      | inl none_there ↦ refusal_missing e none_there d
      | inr (m, there) ↦
          refusal_found e m there
            (ground (
              arith,
              find_row-and (is_row event member)
                  (λ r.
                    r.version == version
                    && (not (is_admin r.role)
                        || (is_admin role || other_admin event member db.members)))
                  db.members (is_row_once event member db.members v.distinct),
            ))
            d
    ]
  ]
