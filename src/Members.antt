-- ===== src/Members.antt =====
-- internal/adapter/postgres/member_repo.go and roles.go: the roster of an event. A method returns its
-- result and the tables after it.
pub mod Grants
pub mod LastAdmin
pub mod Writes
pub mod Roster
pub mod Races
use krane_event_management_p.Common.{
  ℕ, suc, String, Bool, true, false, not, ◌==◌, ◌&&◌, ◌||◌, Option, none, some, List, ◌∷◌, any,
  find_row, update_row, remove_row, if◌then◌else◌, Error, Result, ok, err, conflict,
  version_mismatch, forbidden, not_found, internal, ◌>>=◌, ◌>>◌, fail_if, or_fail,
}
use krane_event_management_p.Domain.{
  Role, is_admin, is_attendee, is_known, User, Member, GrantInput,
}
use krane_event_management_p.Store.{
  MemberRow, Db, Server, Point, lock, exec, diagnose, in_tx, event_member, create, update, delete,
  of_member, insert_audit, fits_int4,
}

abbrev pub is_member_of : ℕ → ℕ → MemberRow → Bool
is_member_of event user m = m.event_id == event && m.user_id == user

abbrev pub is_row : ℕ → ℕ → MemberRow → Bool
is_row event member m = m.id == member && m.event_id == event

-- canGrantRoleActorCTE: UNIQUE (event_id, user_id) leaves one row at most.
abbrev pub actor_row : ℕ → ℕ → List MemberRow → Option MemberRow
actor_row event actor members = find_row (is_member_of event actor) members

-- canGrantRoleGuard, which fails closed without a row of the actor.
abbrev pub can_grant : Option MemberRow → Role → Bool
can_grant none role = false
can_grant (some m) role = is_attendee role || is_admin m.role

pub to_member : String → String → MemberRow → Member
to_member email name r = record {
  id = r.id;
  event_id = r.event_id;
  user_id = r.user_id;
  user_email = email;
  user_name = name;
  role = r.role;
  version = r.version;
  created_at = r.created_at;
  updated_at = r.updated_at;
}

-- The INSERT with its constraints: the CHECK on role, the primary key, UNIQUE (event_id, user_id).
pub insert_member : Server → ℕ → ℕ → Role → List MemberRow → Result MemberRow
insert_member pg event user role members = do
  fail_if (not (is_known role)) internal
  fail_if (any (λ m. m.id == pg.uuid || is_member_of event user m) members) conflict
  ok (record {
    id = pg.uuid;
    event_id = event;
    user_id = user;
    role = role;
    version = 1;
    created_at = pg.now;
    updated_at = pg.now;
  })

-- The read after an INSERT that inserted nothing.
pub diagnose_create : Server → String → Db → Error
diagnose_create pg email db =
    if pg.fails diagnose
    then internal
    else if any (λ u. pg.citext_eq u.email email) db.users
    then forbidden
    else not_found

pub create_body : Server → ℕ → ℕ → GrantInput → Db → Result (Member × Db)
unfolding insert_member diagnose_create to_member
create_body pg actor event input db = do
  fail_if (pg.fails exec) internal
  user ←
      or_fail
        (if can_grant (actor_row event actor db.members) input.role
          then find_row (λ u. pg.citext_eq u.email input.email) db.users
          else none)
        (diagnose_create pg input.email db)
  row ← insert_member pg event user.id input.role db.members
  logged ←
      insert_audit pg
        (record {
          actor_id = actor;
          entity_type = event_member;
          entity_id = row.id;
          action = create;
          before = none;
          after = some (of_member row);
        })
        (record db { members = row ∷ db.members })
  ok (to_member user.email "" row, logged)

-- MemberRepository.Create
unfoldable pub create_member : Server → ℕ → ℕ → GrantInput → Db → Result Member × Db
unfolding create_body
create_member pg actor event input = in_tx pg (create_body pg actor event input)

-- MemberRepository.Get, with its JOIN of users.
unfoldable pub get_member : Server → ℕ → ℕ → Db → Result Member
unfolding to_member
get_member pg event member db = do
  fail_if (pg.fails exec) internal
  row ← or_fail (find_row (is_row event member) db.members) not_found
  user ← or_fail (find_row (λ u. u.id == row.user_id) db.users) not_found
  ok (to_member user.email user.name row)

-- EXISTS (SELECT 1 FROM event_members other WHERE ...)
abbrev pub other_admin : ℕ → ℕ → List MemberRow → Bool
other_admin event member members =
    any (λ m. (m.event_id == event && is_admin m.role) && not (m.id == member)) members

-- diagnoseAdminGuardedFailure
pub diagnose_guarded : Server → ℕ → ℕ → ℕ → List MemberRow → Error
diagnose_guarded pg event member version members =
    if pg.fails diagnose then internal else elim (find_row (is_row event member) members) [
      | none ↦ not_found
      | some m ↦ if m.version == version then conflict else version_mismatch
    ]

-- The WHERE clause of AssignRole's UPDATE; that of Delete's has no new role.
abbrev pub may_assign : ℕ → ℕ → ℕ → Role → List MemberRow → MemberRow → Bool
may_assign event member version role members m =
    is_row event member m
    && (m.version == version
        && (not (is_admin m.role) || (is_admin role || other_admin event member members)))

abbrev pub may_delete : ℕ → ℕ → ℕ → List MemberRow → MemberRow → Bool
may_delete event member version members m =
    is_row event member m
    && (m.version == version && (not (is_admin m.role) || other_admin event member members))

abbrev pub with_role : Role → ℕ → MemberRow → MemberRow
with_role role now m = record m { role = role; updated_at = now; version = suc m.version }

pub assign_body : Server → ℕ → ℕ → ℕ → ℕ → Role → Db → Result (Member × Db)
unfolding diagnose_guarded to_member
assign_body pg actor event member version role db = do
  fail_if (pg.fails lock) internal
  fail_if (pg.fails exec || not (fits_int4 version)) internal
  old ←
      or_fail (find_row (may_assign event member version role db.members) db.members)
        (diagnose_guarded pg event member version db.members)
  let new = with_role role pg.now old
  fail_if (not (fits_int4 new.version) || not (is_known role)) internal
  logged ←
      insert_audit pg
        (record {
          actor_id = actor;
          entity_type = event_member;
          entity_id = member;
          action = update;
          before = some (of_member old);
          after = some (of_member new);
        })
        (record db {
          members =
              update_row (may_assign event member version role db.members) (with_role role pg.now)
                db.members;
        })
  ok (to_member "" "" new, logged)

-- MemberRepository.AssignRole
unfoldable pub assign_role : Server → ℕ → ℕ → ℕ → ℕ → Role → Db → Result Member × Db
unfolding assign_body
assign_role pg actor event member version role =
    in_tx pg (assign_body pg actor event member version role)

pub delete_body : Server → ℕ → ℕ → ℕ → ℕ → Db → Result (Unit {0} × Db)
unfolding diagnose_guarded
delete_body pg actor event member version db = do
  fail_if (pg.fails lock) internal
  fail_if (pg.fails exec || not (fits_int4 version)) internal
  old ←
      or_fail (find_row (may_delete event member version db.members) db.members)
        (diagnose_guarded pg event member version db.members)
  logged ←
      insert_audit pg
        (record {
          actor_id = actor;
          entity_type = event_member;
          entity_id = member;
          action = delete;
          before = some (of_member old);
          after = none;
        })
        (record db { members = remove_row (may_delete event member version db.members) db.members })
  ok (tt, logged)

-- MemberRepository.Delete
unfoldable pub delete_member : Server → ℕ → ℕ → ℕ → ℕ → Db → Result (Unit {0}) × Db
unfolding delete_body
delete_member pg actor event member version = in_tx pg (delete_body pg actor event member version)
