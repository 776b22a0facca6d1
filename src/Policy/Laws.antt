-- ===== src/Policy/Laws.antt =====
-- Boot refuses a table with an uncovered role; and the live lookup of membership makes a change of the
-- roster count from the next request on.
use krane_event_management_p.Common.{
  ℕ, ◌≡◌, refl, Bool, true, false, none, some, List, [], ◌∷◌, any, find_row, ok, arith, ◌↔◌,
  any-remove_row_related, find_row-update_row_related, find_row-none, find_row-and, All, Bool-cases,
  inl, inr, ◌&&◌, find_row-test,
}
use krane_event_management_p.Domain.{Role, Member}
use krane_event_management_p.Store.{MemberRow, Db, Server, exec}
use krane_event_management_p.Members.{
  is_member_of, is_row, assign_role as assign, delete_member, may_assign, may_delete, with_role,
}
use krane_event_management_p.Members.Writes.{assign_role-ok, delete_member-ok}
use krane_event_management_p.Members.Roster.{IsRoster, is_row_once, Distinct, Distinct-sym}
use krane_event_management_p.Policy.{
  Resource, Action, PermKey, permits, same_role, validate_role_coverage, can,
}

-- The check at boot reports no role exactly when every role of the list has a row in the
-- permissions.
pub validate_role_coverage_iff :
    (permissions : List PermKey) (roles : List Role)
    → (validate_role_coverage permissions roles ≡ none)
      ↔ All (λ role. any (λ k. same_role k.role role) permissions ≡ true) roles
unfolding validate_role_coverage
validate_role_coverage_iff permissions [] = (λ e. tt, λ u. refl)
validate_role_coverage_iff permissions (role ∷ roles) =
    let ih = validate_role_coverage_iff permissions roles in
    elim (Bool-cases (any (λ k. same_role k.role role) permissions)) [
      | inl e ↦ (λ h. (e, ih.0 (rw e at h)), λ h. rw e (ih.1 h.1))
      | inr e ↦ (λ h. ground arith, λ h. ground arith)
    ]

-- No other row is of the same event and user.
not_of_user :
    (m r : MemberRow) (event : ℕ)
    → m.event_id ≡ event
    → Distinct m r
    → is_member_of event m.user_id r ≡ false
not_of_user m r event e d = ground (arith, d.1)

module _ (event member : ℕ) (ms : List MemberRow) (v : IsRoster ms) {m : MemberRow}
    (there : find_row (is_row event member) ms ≡ some m) where
  -- Under the row's id, a further test of the row decides.
  same_row :
      (r : MemberRow → Bool) {old : MemberRow}
      → find_row (λ x. is_row event member x && r x) ms ≡ some old
      → old ≡ m
  same_row r found =
      ground
        (arith, find_row-and (is_row event member) r ms (is_row_once event member ms v.distinct))

  of_event : m.event_id ≡ event
  of_event = ground (arith, find_row-test (is_row event member) ms there)

module _ (pg pg' : Server) (permissions : List PermKey) (action : Action) (resource : Resource)
    (actor event member version : ℕ) (db : Db) (m : MemberRow) (v : IsRoster db.members)
    (up : pg'.fails exec ≡ false) (there : find_row (is_row event member) db.members ≡ some m) where
  -- On a roster in order, and where the lookup does not fail: after a member was removed, the user's
  -- next request on the event is denied, for every action and resource, and no role is found.
  pub can-delete_member :
      {a : Unit {0}}
      → (delete_member pg actor event member version db).0 ≡ ok a
      → can pg' permissions m.user_id event action resource
          (delete_member pg actor event member version db).1
        ≡ ok (false, none)
  unfolding can
  can-delete_member h =
      let (old, found, after) = delete_member-ok pg actor event member version db h in
      let same : old ≡ m = same_row event member db.members v there _ found in
      let gone = find_row-none (is_member_of event m.user_id) _ (
        any-remove_row_related Distinct (may_delete event member version db.members)
          (is_member_of event m.user_id)
          (λ r d. not_of_user m r event (of_event event member db.members v there) d) db.members
          Distinct-sym v.distinct (rw same at found)) in
      rw (after, up) (rw gone)

  -- On a roster in order, and where the lookup does not fail: after a role was assigned, the user's
  -- next request on the event is answered by the permissions of the new role.
  pub can-assign_role :
      (role : Role) {a : Member}
      → (assign pg actor event member version role db).0 ≡ ok a
      → can pg' permissions m.user_id event action resource
          (assign pg actor event member version role db).1
        ≡ ok (permits permissions role resource action, some role)
  unfolding can
  can-assign_role role h =
      let (old, found, _, _, after) = assign_role-ok pg actor event member version role db h in
      let same : old ≡ m = same_row event member db.members v there _ found in
      let here = of_event event member db.members v there in
      let kept =
        find_row-update_row_related Distinct (may_assign event member version role db.members)
          (is_member_of event m.user_id) (λ r d. not_of_user m r event here d)
          (with_role role pg.now) db.members Distinct-sym v.distinct (rw same at found)
          (ground arith) in
      rw (after, up) (rw kept)
