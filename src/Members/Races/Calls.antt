-- ===== src/Members/Races/Calls.antt =====
-- A call of AssignRole or Delete that succeeds is, on the roster, its statement run alone.
use krane_event_management_p.Common.{ℕ, ◌≡◌, ap, ok}
use krane_event_management_p.Domain.{Role, Member}
use krane_event_management_p.Store.{Db, Server}
use krane_event_management_p.Members.{assign_role, delete_member}
use krane_event_management_p.Members.Writes.{assign_role-ok, delete_member-ok}
use krane_event_management_p.Members.Races.{assign, remove, apply}

module _ (pg : Server) (actor event member version : ℕ) (db : Db) where
  pub assign_role-apply :
      (role : Role) {a : Member}
      → (assign_role pg actor event member version role db).0 ≡ ok a
      → (assign_role pg actor event member version role db).1.members
        ≡ apply (assign event member version role pg.now) db.members db.members
  assign_role-apply role h =
      let (old, found, known, row, same) = assign_role-ok pg actor event member version role db h in
      ap (λ d. d.members) same

  pub delete_member-apply :
      {a : Unit {0}}
      → (delete_member pg actor event member version db).0 ≡ ok a
      → (delete_member pg actor event member version db).1.members
        ≡ apply (remove event member version) db.members db.members
  delete_member-apply h =
      let (old, found, same) = delete_member-ok pg actor event member version db h in
      ap (λ d. d.members) same
