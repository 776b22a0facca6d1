-- ===== src/Examples/Access.antt =====
-- The roster, the policy, invitations and sign-in at the conference.
use text.Mathlib.Text.{◌==◌ as str_eq}
use krane_event_management_p.Common.{◌≡◌, refl, none, some, List, [], ◌∷◌, ok, Error}
use krane_event_management_p.Domain.{
  admin, contributor, attendee, BulkItemResult, BulkStatus, GrantInput, User,
}
use krane_event_management_p.Store.{IdempotencyRow, Db, insert_audit, fits_int4}
use krane_event_management_p.Members.{assign_role}
use krane_event_management_p.Members.Roster.{AssignRefusal, assign_role-AssignRefusal}
use krane_event_management_p.Policy.{Resource, Action, can, permits}
use krane_event_management_p.Policy.Seed.{seed}
use krane_event_management_p.Policy.Laws.{can-assign_role}
use krane_event_management_p.Invitations.{
  create_invitation, invite_each, bulk_create, stored_result,
}
use krane_event_management_p.Invitations.Addresses.{IsInvited, invite_each-IsInvited}
use krane_event_management_p.Invitations.Bulk.{bulk_create-replay}
use krane_event_management_p.Examples.Data.{
  server, all-Up, conference, conference-IsRoster, member_row, grant,
}

abbrev dan : User
dan = record {
  id = 100;
  subject = "dan";
  email = "dan";
  name = "dan";
  created_at = 50;
  updated_at = 50;
}

-- Two addresses, the first one twice.
abbrev guests : List GrantInput
guests = grant "dan" attendee ∷ grant "dan" attendee ∷ grant "eve" admin ∷ []

abbrev invited : Db
invited = (bulk_create (server 0) server (server 9) (λ d. d) 2 10 "k" "h" guests conference).1

assign_role-AssignRefusal_example : AssignRefusal 10 21 1 attendee conference.members Error.conflict
unfolding assign_role insert_audit fits_int4
assign_role-AssignRefusal_example =
    assign_role-AssignRefusal (server 0) 1 10 21 1 attendee conference Error.conflict
      conference-IsRoster refl

can-assign_role_example :
    can
      (server 1)
      seed
      3
      10
      Action.update
      Resource.room
      (assign_role (server 0) 1 10 23 1 contributor conference).1
    ≡ ok (permits seed contributor Resource.room Action.update, some contributor)
unfolding assign_role insert_audit fits_int4
can-assign_role_example =
    can-assign_role (server 0) (server 1) seed Action.update Resource.room 1 10 23 1 conference
      (member_row 23 3 attendee) conference-IsRoster refl refl contributor refl

invite_each-IsInvited_example : IsInvited str_eq (invite_each server 2 10 0 guests conference).1
invite_each-IsInvited_example =
    invite_each-IsInvited str_eq server 2 10 0 guests conference (λ j. refl) tt

abbrev answers : List BulkItemResult
answers =
    record { email = "dan"; status = BulkStatus.created; invitation_id = some 100 }
    ∷ record { email = "dan"; status = BulkStatus.conflict; invitation_id = none }
    ∷ record { email = "eve"; status = BulkStatus.forbidden; invitation_id = none }
    ∷ []

bulk_create-replay_example :
    bulk_create (server 1) server (server 9) (λ d. d) 2 11 "k" "h" [] invited
    ≡ (ok (stored_result answers), invited)
unfolding bulk_create create_invitation insert_audit
bulk_create-replay_example =
    bulk_create-replay (server 0) (server 9) server (λ d. d) 2 10 "k" "h" guests conference
      (server 1) (server 9) server (λ d. d) 11 [] (all-Up 1) refl

abbrev stored : IdempotencyRow
stored = record { actor_id = 2; key = "k"; request_hash = "h"; response_body = answers }

abbrev keyed : Db
keyed = record conference { idempotency_keys = stored ∷ [] }
