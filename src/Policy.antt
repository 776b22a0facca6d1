-- ===== src/Policy.antt =====
-- internal/adapter/authz/policy.go, and the rows that migrations/20260824090000_seed_role_permissions
-- gives it. A permission is the presence of its row; membership is looked up at every call.
pub mod Laws
pub mod Seed
use text.Mathlib.Text.{◌==◌ as str_eq}
use krane_event_management_p.Common.{
  ℕ, Bool, true, false, ◌==◌, ◌&&◌, Option, none, some, List, [], ◌∷◌, any, find_row, if◌then◌else◌,
  Result, ok, err, internal, ◌>>=◌, ◌>>◌, fail_if,
}
use krane_event_management_p.Domain.{Role, admin, contributor, attendee}
use krane_event_management_p.Store.{MemberRow, Db, Server, exec}
use krane_event_management_p.Members.{is_member_of}

pub data Resource : Type 0 where
  event member room session invitation : Resource

pub data Action : Type 0 where
  create read update delete assign_role : Action

pub record PermKey : Type 0 where
  pub role : Role
  pub resource : Resource
  pub action : Action

abbrev pub resource_index : Resource → ℕ
resource_index event = 0
resource_index member = 1
resource_index room = 2
resource_index session = 3
resource_index invitation = 4

abbrev pub action_index : Action → ℕ
action_index create = 0
action_index read = 1
action_index update = 2
action_index delete = 3
action_index assign_role = 4

-- Equality of the texts.
abbrev pub same_role : Role → Role → Bool
same_role admin admin = true
same_role contributor contributor = true
same_role attendee attendee = true
same_role (Role.other a) (Role.other b) = str_eq a b
same_role _ _ = false

abbrev pub same_key : PermKey → PermKey → Bool
same_key j k =
    same_role j.role k.role
    && (resource_index j.resource == resource_index k.resource
        && action_index j.action == action_index k.action)

-- permissions[permKey{role, resource, action}]
unfoldable pub permits : List PermKey → Role → Resource → Action → Bool
permits permissions role resource action =
    any (same_key (record { role = role; resource = resource; action = action })) permissions

abbrev pub known_roles : List Role
known_roles = admin ∷ contributor ∷ attendee ∷ []

-- The first known role without a row, or none.
unfoldable pub validate_role_coverage : List PermKey → List Role → Option Role
validate_role_coverage permissions [] = none
validate_role_coverage permissions (role ∷ roles) =
    if any (λ k. same_role k.role role) permissions
    then validate_role_coverage permissions roles
    else some role

-- New: the rows of role_permissions are loaded once, and boot fails where a known role has none.
unfoldable pub new_policy : Server → List PermKey → Result (List PermKey)
unfolding validate_role_coverage
new_policy pg table = do
  fail_if (pg.fails exec) internal
  elim (validate_role_coverage table known_roles) [ none ↦ ok table | some role ↦ err internal ]

-- Can answers whether the action is allowed, and the role that it looked up ("" is none).
unfoldable pub can :
    Server → List PermKey → ℕ → ℕ → Action → Resource → Db → Result (Bool × Option Role)
unfolding permits
can pg permissions user event_id action resource db = do
  fail_if (pg.fails exec) internal
  elim (find_row (is_member_of event_id user) db.members) [
    | none ↦ ok (false, none)
    | some m ↦ ok (permits permissions m.role resource action, some m.role)
  ]
