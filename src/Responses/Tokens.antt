-- ===== src/Responses/Tokens.antt =====
-- The presenters of lists, which call EncodeCursor: a page that ends before the year 10000 is presented.
use krane_event_management_p.Common.{
  String, Bool, ◌==◌, Result, err, ℕ, ◌≡◌, true, Option, some, none, refl, is_some, ok, arith,
}
use krane_event_management_p.Domain.{Cursor}
use krane_event_management_p.Store.{Db, Server}
use krane_event_management_p.Pages.{Page}
use krane_event_management_p.Pages.Lists.{
  list_rooms, list_invitations, list_members, list_sessions, list_events,
}
use krane_event_management_p.Pages.Indices.{
  list_rooms-none, list_invitations-none, list_members-none, list_sessions-none, list_events-none,
}
use krane_event_management_p.Pages.Ends.{
  IsEarly, EndsEarly, IsDated, list_rooms-EndsEarly, list_invitations-EndsEarly,
  list_members-EndsEarly, list_sessions-EndsEarly, list_events-EndsEarly,
}
use krane_event_management_p.Utils.Cursors.{Codec, IsCodec, encode_cursor-is_some}
use krane_event_management_p.Responses.Rows.{next_token}

-- The token of what follows a page: none is a panic of EncodeCursor.
abbrev pub token_after : {A : Type 0} → Codec → Page A → Option (Option String)
token_after codec page = next_token codec page.next_cursor

-- What a List method returns is an error, a page whose end has a token, or, at the limit 0, a panic.
abbrev pub presents : {A : Type 0} → Codec → ℕ → Result (Option (Page A)) → Bool
presents codec limit (err e) = true
presents codec limit (ok none) = limit == 0
presents codec limit (ok (some page)) = is_some (token_after codec page)

module _ (codec : Codec) (lawful : IsCodec codec) where
  token_after-is_some :
      {A : Type 0} (page : Page A) → EndsEarly page → is_some (token_after codec page) ≡ true
  unfolding next_token
  token_after-is_some page h = next_token-is_some page.next_cursor h
    where
      next_token-is_some :
          (cursor : Option Cursor) → IsEarly cursor → is_some (next_token codec cursor) ≡ true
      next_token-is_some none h = refl
      next_token-is_some (some c) h = ground (arith, encode_cursor-is_some codec c lawful h)

  presents_all :
      {A : Type 0} (limit : ℕ) (r : Result (Option (Page A)))
      → (r ≡ ok none → limit ≡ 0)
      → ((page : Page A) → r ≡ ok (some page) → EndsEarly page)
      → presents codec limit r ≡ true
  presents_all limit (err e) h k = refl
  presents_all limit (ok none) h k = ground (arith, h refl)
  presents_all limit (ok (some page)) h k = token_after-is_some page (k page refl)

  module _ (pg : Server) (db : Db) (dated : IsDated db) where
    pub list_rooms-presents :
        (event limit : ℕ) (after : Option Cursor)
        → presents codec limit (list_rooms pg event limit after db) ≡ true
    list_rooms-presents event limit after =
        presents_all limit (list_rooms pg event limit after db)
          (list_rooms-none pg db event limit after)
          (λ page h. list_rooms-EndsEarly pg db dated event limit after h)

    pub list_invitations-presents :
        (event limit : ℕ) (after : Option Cursor)
        → presents codec limit (list_invitations pg event limit after db) ≡ true
    list_invitations-presents event limit after =
        presents_all limit (list_invitations pg event limit after db)
          (list_invitations-none pg db event limit after)
          (λ page h. list_invitations-EndsEarly pg db dated event limit after h)

    pub list_members-presents :
        (event limit : ℕ) (after : Option Cursor)
        → presents codec limit (list_members pg event limit after db) ≡ true
    list_members-presents event limit after =
        presents_all limit (list_members pg event limit after db)
          (list_members-none pg db event limit after)
          (λ page h. list_members-EndsEarly pg db dated event limit after h)

    pub list_sessions-presents :
        (event limit : ℕ) (after : Option Cursor)
        → presents codec limit (list_sessions pg event limit after db) ≡ true
    list_sessions-presents event limit after =
        presents_all limit (list_sessions pg event limit after db)
          (list_sessions-none pg db event limit after)
          (λ page h. list_sessions-EndsEarly pg db dated event limit after h)

    pub list_events-presents :
        (user limit : ℕ) (after : Option Cursor)
        → presents codec limit (list_events pg user limit after db) ≡ true
    list_events-presents user limit after =
        presents_all limit (list_events pg user limit after db)
          (list_events-none pg db user limit after)
          (λ page h. list_events-EndsEarly pg db dated user limit after h)
