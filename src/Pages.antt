-- ===== src/Pages.antt =====
-- The List methods of internal/adapter/postgres: keyset pages ordered by (created_at, id). Each fetches
-- one row more than the limit to see whether a page follows, and trims it.
pub mod Order
pub mod Walk
pub mod Lists
pub mod Indices
pub mod Ends
use krane_event_management_p.Common.{
  ℕ, zero, suc, Bool, true, false, not, ◌==◌, ◌&&◌, ◌||◌, ltb, Option, none, some, List, [], ◌∷◌,
  any, length, if◌then◌else◌, Result, ok, err, internal,
}
use krane_event_management_p.Domain.{Cursor, Room, Invitation}
use krane_event_management_p.Store.{Db, Server, exec}

-- (created_at, id) < (created_at, id), as rows are compared.
abbrev pub precedes : Cursor → Cursor → Bool
precedes a b = ltb a.created_at b.created_at || (a.created_at == b.created_at && ltb a.id b.id)

abbrev pub starts_after : Option Cursor → Cursor → Bool
starts_after none c = true
starts_after (some after) c = precedes after c

pub record Page (A : Type 0) : Type 0 where
  pub items : List A
  pub next_cursor : Option Cursor

module _ {A : Type 0} where
  abbrev pub select : (A → Bool) → List A → List A
  select p [] = []
  select p (x ∷ xs) = if p x then x ∷ select p xs else select p xs

  abbrev pub take : ℕ → List A → List A
  take zero xs = []
  take (suc n) [] = []
  take (suc n) (x ∷ xs) = x ∷ take n xs

  abbrev pub get_elem? : List A → ℕ → Option A
  get_elem? [] n = none
  get_elem? (x ∷ xs) zero = some x
  get_elem? (x ∷ xs) (suc n) = get_elem? xs n

  module _ (key : A → Cursor) where
    abbrev pub insert_row : A → List A → List A
    insert_row x [] = x ∷ []
    insert_row x (y ∷ ys) = if precedes (key y) (key x) then y ∷ insert_row x ys else x ∷ y ∷ ys

    -- ORDER BY created_at, id
    abbrev pub order_by : List A → List A
    order_by [] = []
    order_by (x ∷ xs) = insert_row x (order_by xs)

    -- items[:limit] and the cursor of items[limit-1], or nothing where the index is -1 and panics.
    abbrev pub cut : ℕ → List A → Option (Page A)
    cut zero rows = none
    cut (suc n) rows = elim (get_elem? rows n) [
      | none ↦ none
      | some last ↦ some (record { items = take (suc n) rows; next_cursor = some (key last) })
    ]

    abbrev pub trimmed : ℕ → List A → Option (Page A)
    trimmed limit rows =
        if ltb limit (length rows)
        then cut limit rows
        else some (record { items = rows; next_cursor = none })

    -- The query on the rows in scope, and the page of it.
    abbrev pub fetched : ℕ → Option Cursor → List A → List A
    fetched limit after rows =
        take (suc limit) (order_by (select (λ r. starts_after after (key r)) rows))

    abbrev pub page_of : ℕ → Option Cursor → List A → Option (Page A)
    page_of limit after rows = trimmed limit (fetched limit after rows)
