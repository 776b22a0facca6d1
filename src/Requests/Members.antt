-- ===== src/Requests/Members.antt =====
-- internal/http/request/member.go and invitation.go
use krane_event_management_p.Common.{
  String, Bool, false, not, ◌||◌, List, [], ◌∷◌, ◌++◌, map, if◌then◌else◌,
}
use krane_event_management_p.Domain.{Role, is_known, GrantInput}
use krane_event_management_p.Utils.Text.{is_blank}
use krane_event_management_p.Utils.Integers.{ℤ, is_positive}
use krane_event_management_p.Requests.Issues.{Issue, issue_if, has_issues}

-- AddMemberRequest, and InvitationCreateRequest, which has the same fields and validation.
pub record GrantRequest : Type 0 where
  pub email : String
  pub role : Role

pub record AssignRoleRequest : Type 0 where
  pub role : Role
  pub version : ℤ

pub record BulkInviteRequest : Type 0 where
  pub invitations : List GrantRequest

unfoldable pub validate_add_member : GrantRequest → List Issue
validate_add_member r =
    issue_if (is_blank r.email) "email" "is required"
    ++ issue_if (not (is_known r.role)) "role" "must be one of admin, contributor, attendee"

unfoldable pub validate_assign_role : AssignRoleRequest → List Issue
validate_assign_role r =
    issue_if (not (is_known r.role)) "role" "must be one of admin, contributor, attendee"
    ++ issue_if (not (is_positive r.version)) "version" "is required"

unfoldable pub validate_create_invitation : GrantRequest → List Issue
validate_create_invitation r =
    issue_if (is_blank r.email) "email" "is required"
    ++ issue_if (not (is_known r.role)) "role" "must be one of admin, contributor, attendee"

-- The value of issues["invitations"], where there is one.
pub data BulkIssues : Type 0 where
  no_issues no_invitations : BulkIssues
  per_item : List (List Issue) → BulkIssues

abbrev pub any_issues : List (List Issue) → Bool
any_issues [] = false
any_issues (issues ∷ rest) = has_issues issues || any_issues rest

abbrev pub validate_items : List GrantRequest → BulkIssues
validate_items items =
    let issues = map validate_create_invitation items in
    if any_issues issues then per_item issues else no_issues

unfoldable pub validate_bulk_invite : BulkInviteRequest → BulkIssues
validate_bulk_invite r = elim r.invitations [
  | [] ↦ no_invitations
  | item ∷ items ↦ validate_items (item ∷ items)
]

abbrev pub to_grant_input : GrantRequest → GrantInput
to_grant_input r = record { email = r.email; role = r.role }

abbrev pub to_create_inputs : BulkInviteRequest → List GrantInput
to_create_inputs r = map to_grant_input r.invitations
