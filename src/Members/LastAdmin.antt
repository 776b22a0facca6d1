-- ===== src/Members/LastAdmin.antt =====
-- Last-admin protection: once an event has an admin, no write of the roster takes the last one away.
use krane_event_management_p.Common.{
  ℕ, ◌≡◌, Bool, true, false, not, ◌==◌, ◌&&◌, List, any, any-update_row, any-remove_row, any_mono,
  arith, Bool-cases, inl, inr, ◌⊎◌, ◌≢◌, ℕ_discrete, update_row, remove_row,
}
use krane_event_management_p.Domain.{Role, is_admin, GrantInput}
use krane_event_management_p.Store.{MemberRow, Db, Server}
use krane_event_management_p.Members.{
  create_member, assign_role, delete_member, other_admin, may_assign, may_delete, with_role,
}
use krane_event_management_p.Members.Writes.{
  create_member-keeps, assign_role-keeps, delete_member-keeps,
}

abbrev pub has_admin : ℕ → List MemberRow → Bool
has_admin event members = any (λ m. m.event_id == event && is_admin m.role) members

module _ (event member version : ℕ) (role : Role) (now : ℕ) (ms : List MemberRow) (e : ℕ) where
  -- Where there is another admin, that row stays one.
  has_admin-assign_other :
      other_admin event member ms ≡ true
      → has_admin event
          (update_row (may_assign event member version role ms) (with_role role now) ms)
        ≡ true
  has_admin-assign_other h =
      any_mono (λ m. (m.event_id == event && is_admin m.role) && not (m.id == member)) _ _
        (any-update_row (may_assign event member version role ms) _ (with_role role now) ms h
          (λ x p q. ground arith))
        (λ x q. ground arith)

  -- Where there is none, the guard leaves an admin's role alone. Rows of other events stay.
  has_admin-assign_last :
      (other_admin event member ms ≡ false) ⊎ (event ≢ e)
      → has_admin e ms ≡ true
      → has_admin e (update_row (may_assign event member version role ms) (with_role role now) ms)
        ≡ true
  has_admin-assign_last o h =
      any-update_row (may_assign event member version role ms) _ (with_role role now) ms h
        (λ x p q. ground arith)

  has_admin-assign :
      has_admin e ms ≡ true
      → has_admin e (update_row (may_assign event member version role ms) (with_role role now) ms)
        ≡ true
  has_admin-assign h = elim (Bool-cases (other_admin event member ms)) [
    | inr o ↦ has_admin-assign_last (inl o) h
    | inl o ↦ elim (ℕ_discrete event e) [
      | yes same ↦ rw (← same) (has_admin-assign_other o)
      | no other ↦ has_admin-assign_last (inr other) h
    ]
  ]

module _ (event member version : ℕ) (ms : List MemberRow) (e : ℕ) where
  has_admin-delete_other :
      other_admin event member ms ≡ true
      → has_admin event (remove_row (may_delete event member version ms) ms) ≡ true
  has_admin-delete_other h =
      any_mono (λ m. (m.event_id == event && is_admin m.role) && not (m.id == member)) _ _
        (any-remove_row (may_delete event member version ms) _ ms h (λ x p q. ground arith))
        (λ x q. ground arith)

  has_admin-delete_last :
      (other_admin event member ms ≡ false) ⊎ (event ≢ e)
      → has_admin e ms ≡ true
      → has_admin e (remove_row (may_delete event member version ms) ms) ≡ true
  has_admin-delete_last o h =
      any-remove_row (may_delete event member version ms) _ ms h (λ x p q. ground arith)

  has_admin-delete :
      has_admin e ms ≡ true
      → has_admin e (remove_row (may_delete event member version ms) ms) ≡ true
  has_admin-delete h = elim (Bool-cases (other_admin event member ms)) [
    | inr o ↦ has_admin-delete_last (inl o) h
    | inl o ↦ elim (ℕ_discrete event e) [
      | yes same ↦ rw (← same) (has_admin-delete_other o)
      | no other ↦ has_admin-delete_last (inr other) h
    ]
  ]

module _ (pg : Server) (actor event e : ℕ) (db : Db) (h : has_admin e db.members ≡ true) where
  pub create_member-has_admin :
      (input : GrantInput) → has_admin e (create_member pg actor event input db).1.members ≡ true
  create_member-has_admin input =
      create_member-keeps pg actor event input db (λ d. has_admin e d.members ≡ true) h
        (λ user granted known fresh. ground arith)

  pub assign_role-has_admin :
      (member version : ℕ) (role : Role)
      → has_admin e (assign_role pg actor event member version role db).1.members ≡ true
  assign_role-has_admin member version role =
      assign_role-keeps pg actor event member version role db (λ d. has_admin e d.members ≡ true) h
        (λ old found known. has_admin-assign event member version role pg.now db.members e h)

  pub delete_member-has_admin :
      (member version : ℕ)
      → has_admin e (delete_member pg actor event member version db).1.members ≡ true
  delete_member-has_admin member version =
      delete_member-keeps pg actor event member version db (λ d. has_admin e d.members ≡ true) h
        (λ old found. has_admin-delete event member version db.members e h)
