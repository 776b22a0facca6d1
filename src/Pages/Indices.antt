-- ===== src/Pages/Indices.antt =====
-- items[limit-1] is in range: a List method panics at the limit 0 only.
use krane_event_management_p.Common.{
  ℕ, zero, suc, ◌≡◌, ◌≢◌, ◌<◌, refl, Bool, Option, none, List, [], ◌∷◌, length, ok, err, internal,
  if◌then◌else◌, arith,
}
use krane_event_management_p.Domain.{Cursor, Room, Invitation, Member, Session, Event}
use krane_event_management_p.Store.{Db, Server, exec}
use krane_event_management_p.Pages.{get_elem?, trimmed}
use krane_event_management_p.Pages.Lists.{
  list_rooms, list_invitations, list_members, list_sessions, list_events,
}

module _ {A : Type 0} where
  get_elem?-ne_none : (n : ℕ) (xs : List A) → n < length xs → get_elem? xs n ≢ none
  get_elem?-ne_none n [] h = absurd (ground arith)
  get_elem?-ne_none zero (x ∷ xs) h = λ e. ground arith
  get_elem?-ne_none (suc n) (x ∷ xs) h = get_elem?-ne_none n xs (ground arith)

  trimmed-none :
      (key : A → Cursor) (limit : ℕ) (rows : List A) → trimmed key limit rows ≡ none → limit ≡ 0
  trimmed-none key zero rows h = refl
  trimmed-none key (suc n) rows h = ground (arith, get_elem?-ne_none n rows)

  -- The page of a query that may have failed.
  fetched-none :
      (failed : Bool) (key : A → Cursor) (limit : ℕ) (rows : List A)
      → (if failed then err internal else ok (trimmed key limit rows)) ≡ ok none
      → limit ≡ 0
  fetched-none failed key limit rows h = ground (arith, trimmed-none key limit rows)

module _ (pg : Server) (db : Db) where
  pub list_rooms-none :
      (event limit : ℕ) (after : Option Cursor)
      → list_rooms pg event limit after db ≡ ok none
      → limit ≡ 0
  unfolding list_rooms
  list_rooms-none event limit after h =
      fetched-none (pg.fails exec) (λ (r : Room). record { created_at = r.created_at; id = r.id })
        limit _ h

  pub list_invitations-none :
      (event limit : ℕ) (after : Option Cursor)
      → list_invitations pg event limit after db ≡ ok none
      → limit ≡ 0
  unfolding list_invitations
  list_invitations-none event limit after h =
      fetched-none (pg.fails exec)
        (λ (r : Invitation). record { created_at = r.created_at; id = r.id }) limit _ h

  pub list_members-none :
      (event limit : ℕ) (after : Option Cursor)
      → list_members pg event limit after db ≡ ok none
      → limit ≡ 0
  unfolding list_members
  list_members-none event limit after h =
      fetched-none (pg.fails exec) (λ (r : Member). record { created_at = r.created_at; id = r.id })
        limit _ h

  pub list_sessions-none :
      (event limit : ℕ) (after : Option Cursor)
      → list_sessions pg event limit after db ≡ ok none
      → limit ≡ 0
  unfolding list_sessions
  list_sessions-none event limit after h =
      fetched-none (pg.fails exec)
        (λ (r : Session). record { created_at = r.created_at; id = r.id }) limit _ h

  pub list_events-none :
      (user limit : ℕ) (after : Option Cursor)
      → list_events pg user limit after db ≡ ok none
      → limit ≡ 0
  unfolding list_events
  list_events-none user limit after h =
      fetched-none (pg.fails exec) (λ (r : Event). record { created_at = r.created_at; id = r.id })
        limit _ h
