-- ===== src/Responses/Emails.antt =====
-- Which answers carry an address: those of members to an admin, and those of invitations.
use krane_event_management_p.Common.{
  ◌≡◌, Bool, true, false, not, none, some, is_some, List, [], ◌∷◌, any, map, refl, arith,
}
use krane_event_management_p.Domain.{Role, is_admin, Member}
use krane_event_management_p.Pages.{Page}
use krane_event_management_p.Utils.Cursors.{Codec}
use krane_event_management_p.Responses.Rows.{
  ListResponse, MemberResponse, member_response, member_list_response,
}
use krane_event_management_p.Responses.Envelope.{
  Payload, no_content, healthy, of_event, of_events, of_member, of_members, of_room, of_rooms,
  of_session, of_sessions, of_series, of_invitation, of_invitations, of_bulk, Details, no_details,
  issues, invitation_issues, current, Body, success, failure, Response, answered, panicked,
}

abbrev pub has_email : MemberResponse → Bool
has_email m = is_some m.user_email

abbrev is_empty : {A : Type 0} → List A → Bool
is_empty [] = true
is_empty (x ∷ xs) = false

-- The presenters of events, rooms, sessions and series have no address; each invitation, and each item
-- of a bulk call, has one.
abbrev pub payload_has_email : Payload → Bool
payload_has_email (of_member m) = has_email m
payload_has_email (of_members page) = any has_email page.data_rows
payload_has_email (of_invitation i) = true
payload_has_email (of_invitations page) = not (is_empty page.data_rows)
payload_has_email (of_bulk results) = not (is_empty results)
payload_has_email no_content = false
payload_has_email healthy = false
payload_has_email (of_event e) = false
payload_has_email (of_events page) = false
payload_has_email (of_room r) = false
payload_has_email (of_rooms page) = false
payload_has_email (of_session s) = false
payload_has_email (of_sessions page) = false
payload_has_email (of_series s) = false

abbrev pub details_have_email : Details → Bool
details_have_email (current (some payload)) = payload_has_email payload
details_have_email (current none) = false
details_have_email no_details = false
details_have_email (issues list) = false
details_have_email (invitation_issues lists) = false

abbrev pub body_has_email : Body → Bool
body_has_email (success payload) = payload_has_email payload
body_has_email (failure e) = details_have_email e.details

-- The body of the answer, or what it says is current, has an address.
unfoldable pub shows_email : Response → Bool
shows_email (answered status body) = body_has_email body
shows_email panicked = false

pub member_response-has_email :
    (caller : Role) (m : Member)
    → is_admin caller ≡ false
    → has_email (member_response caller m) ≡ false
unfolding member_response
member_response-has_email caller m h = rw h

any_email :
    (caller : Role) (ms : List Member)
    → is_admin caller ≡ false
    → any has_email (map (member_response caller) ms) ≡ false
any_email caller [] h = refl
any_email caller (m ∷ ms) h =
    ground (arith, any_email caller ms h, member_response-has_email caller m h)

pub member_list_response-has_email :
    (codec : Codec) (caller : Role) (page : Page Member) {list : ListResponse MemberResponse}
    → is_admin caller ≡ false
    → member_list_response codec caller page ≡ some list
    → any has_email list.data_rows ≡ false
unfolding member_list_response
member_list_response-has_email codec caller page h e =
    ground (arith, any_email caller page.items h, e)
