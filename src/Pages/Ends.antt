-- ===== src/Pages/Ends.antt =====
-- Where a page ends: next_cursor is the position of a row of the table.
use krane_event_management_p.Common.{
  ℕ, zero, suc, ◌≡◌, ◌<◌, Bool, true, false, subst, ltb, length, Option, none, some, List, [], ◌∷◌,
  ok, err, internal, if◌then◌else◌, All, Bool-cases, Option-cases, inl, inr, arith, ◌==◌, ◌&&◌,
}
use krane_event_management_p.Domain.{Cursor, Room, Invitation, Member, Session, Event}
use krane_event_management_p.Store.{Db, Server, exec, EventRow, MemberRow, SessionRow}
use krane_event_management_p.Sessions.{is_live as is_live_session}
use krane_event_management_p.Events.{to_event}
use krane_event_management_p.Pages.{Page, get_elem?, fetched, cut, page_of, starts_after}
use krane_event_management_p.Pages.Lists.{
  joined, list_rooms, list_invitations, member_of, list_members, session_of, list_sessions,
  event_key, sees, list_events, All-select, All-take, All-order_by,
}
use krane_event_management_p.Utils.Cursors.{year_10000}

abbrev pub IsEarly : Option Cursor → Type 0
IsEarly none = Unit
IsEarly (some c) = c.created_at < year_10000

-- The page has no next_cursor, or one before the year 10000.
abbrev pub EndsEarly : {A : Type 0} → Page A → Type 0
EndsEarly page = IsEarly page.next_cursor

-- The rows that a list reads were created before the year 10000.
pub record IsDated (db : Db) : Type 0 where
  pub events : All (λ e. e.created_at < year_10000) db.events
  pub members : All (λ m. m.created_at < year_10000) db.members
  pub rooms : All (λ r. r.created_at < year_10000) db.rooms
  pub sessions : All (λ s. s.created_at < year_10000) db.sessions
  pub invitations : All (λ i. i.created_at < year_10000) db.invitations

abbrev room_key : Room → Cursor
room_key r = record { created_at = r.created_at; id = r.id }

abbrev invitation_key : Invitation → Cursor
invitation_key r = record { created_at = r.created_at; id = r.id }

abbrev member_key : Member → Cursor
member_key r = record { created_at = r.created_at; id = r.id }

abbrev member_row_key : MemberRow → Cursor
member_row_key r = record { created_at = r.created_at; id = r.id }

abbrev session_key : Session → Cursor
session_key r = record { created_at = r.created_at; id = r.id }

abbrev session_row_key : SessionRow → Cursor
session_row_key r = record { created_at = r.created_at; id = r.id }

abbrev event_row_key : EventRow → Cursor
event_row_key r = record { created_at = r.created_at; id = r.id }

module _ {A : Type 0} where
  get_elem?-All :
      (P : A → Type 0) (n : ℕ) (xs : List A) {x : A} → get_elem? xs n ≡ some x → All P xs → P x
  get_elem?-All P n [] e h = absurd (ground (arith, e))
  get_elem?-All P zero (y ∷ xs) {x} e h = let same : y ≡ x = ground (arith, e) in subst P same h.0
  get_elem?-All P (suc n) (y ∷ xs) e h = get_elem?-All P n xs e h.1

  All-joined :
      {B : Type 0} (f : B → Option A) (P : B → Type 0) (Q : A → Type 0)
      → ((x : B) (y : A) → f x ≡ some y → P x → Q y)
      → (xs : List B) → All P xs
      → All Q (joined f xs)
  All-joined f P Q k [] h = tt
  All-joined f P Q k (x ∷ xs) h = elim (Option-cases (f x)) [
    | inl e ↦ rw (e, joined) (All-joined f P Q k xs h.1)
    | inr (y, e) ↦ rw (e, joined) (k x y e h.0, All-joined f P Q k xs h.1)
  ]

  module _ (key : A → Cursor) where
    Early : A → Type 0
    Early x = (key x).created_at < year_10000

    cut-EndsEarly :
        (limit : ℕ) (xs : List A) {page : Page A}
        → cut key limit xs ≡ some page
        → All Early xs
        → EndsEarly page
    unfolding Early
    cut-EndsEarly zero xs e h = absurd (ground (arith, e))
    cut-EndsEarly (suc n) xs {page} e h = elim (Option-cases (get_elem? xs n)) [
      | inl q ↦ absurd (ground (arith, q, e))
      | inr (last, q) ↦
          let same : some (key last) ≡ page.next_cursor = ground (arith, q, e) in
          rw (← same) (get_elem?-All Early n xs q h)
    ]

    page_of-EndsEarly :
        (limit : ℕ) (after : Option Cursor) (rows : List A) {page : Page A}
        → page_of key limit after rows ≡ some page
        → All Early rows
        → EndsEarly page
    page_of-EndsEarly limit after rows {page} e h =
        let rows' = fetched key limit after rows in
        elim (Bool-cases (ltb limit (length rows'))) [
          | inl q ↦ cut-EndsEarly limit rows' (rw q at e) (
              All-take key Early (suc limit) _ (
                All-order_by key Early _
                  (All-select key Early (λ r. starts_after after (key r)) rows h)))
          | inr q ↦ let same : none ≡ page.next_cursor = ground (arith, q, e) in rw (← same) tt
        ]

    -- The page of a query that may have failed.
    fetched-EndsEarly :
        (failed : Bool) (limit : ℕ) (after : Option Cursor) (rows : List A) {page : Page A}
        → (if failed then err internal else ok (page_of key limit after rows)) ≡ ok (some page)
        → All Early rows
        → EndsEarly page
    fetched-EndsEarly true limit after rows e h = absurd (ground (arith, e))
    fetched-EndsEarly false limit after rows {page} e h =
        page_of-EndsEarly limit after rows {page = page} (ground (arith, e)) h

module _ (pg : Server) (db : Db) (dated : IsDated db) where
  pub list_rooms-EndsEarly :
      (event limit : ℕ) (after : Option Cursor) {page : Page Room}
      → list_rooms pg event limit after db ≡ ok (some page)
      → EndsEarly page
  unfolding list_rooms Early
  list_rooms-EndsEarly event limit after h =
      fetched-EndsEarly room_key (pg.fails exec) limit after _ h
        (All-select room_key _ (λ r. r.event_id == event) db.rooms dated.rooms)

  pub list_invitations-EndsEarly :
      (event limit : ℕ) (after : Option Cursor) {page : Page Invitation}
      → list_invitations pg event limit after db ≡ ok (some page)
      → EndsEarly page
  unfolding list_invitations Early
  list_invitations-EndsEarly event limit after h =
      fetched-EndsEarly invitation_key (pg.fails exec) limit after _ h
        (All-select invitation_key _ (λ r. r.event_id == event) db.invitations dated.invitations)

  member_of-created :
      (m : MemberRow) (y : Member) → member_of db m ≡ some y → m.created_at ≡ y.created_at
  member_of-created m y e = ground (arith, e)

  pub list_members-EndsEarly :
      (event limit : ℕ) (after : Option Cursor) {page : Page Member}
      → list_members pg event limit after db ≡ ok (some page)
      → EndsEarly page
  unfolding list_members Early
  list_members-EndsEarly event limit after h =
      fetched-EndsEarly member_key (pg.fails exec) limit after _ h (
        All-joined (member_of db) (λ m. m.created_at < year_10000) (λ m. m.created_at < year_10000)
          (λ m y e q. rw (member_of-created m y e) at q) _
          (All-select member_row_key _ (λ m. m.event_id == event) db.members dated.members))

  session_of-created :
      (s : SessionRow) (y : Session) → session_of db s ≡ some y → s.created_at ≡ y.created_at
  session_of-created s y e = ground (arith, e)

  pub list_sessions-EndsEarly :
      (event limit : ℕ) (after : Option Cursor) {page : Page Session}
      → list_sessions pg event limit after db ≡ ok (some page)
      → EndsEarly page
  unfolding list_sessions Early
  list_sessions-EndsEarly event limit after h =
      fetched-EndsEarly session_key (pg.fails exec) limit after _ h (
        All-joined (session_of db) (λ s. s.created_at < year_10000) (λ s. s.created_at < year_10000)
          (λ s y e q. rw (session_of-created s y e) at q) _
          (All-select session_row_key _ (λ s. s.event_id == event && is_live_session s) db.sessions
            dated.sessions))

  pub list_events-EndsEarly :
      (user limit : ℕ) (after : Option Cursor) {page : Page Event}
      → list_events pg user limit after db ≡ ok (some page)
      → EndsEarly page
  unfolding list_events to_event Early
  list_events-EndsEarly user limit after h =
      fetched-EndsEarly event_key (pg.fails exec) limit after _ h (
        All-joined (λ e. some (to_event e)) (λ e. e.created_at < year_10000)
          (λ e. e.created_at < year_10000)
          (λ x y e q. let same : x.created_at ≡ y.created_at = ground (arith, e) in rw same at q) _
          (All-select event_row_key _ (sees user db) db.events dated.events))
