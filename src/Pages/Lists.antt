-- ===== src/Pages/Lists.antt =====
-- The five List methods: which rows each puts in scope, and who sees an event.
use mathlib.Core.List.{Memᴰ}
use krane_event_management_p.Common.{
  All-of, any-mem, eq_self, ℕ, zero, suc, ◌≡◌, Bool, true, ◌==◌, ◌&&◌, ltb, Option, none, some,
  List, [], ◌∷◌, any, find_row, length, if◌then◌else◌, Result, ok, err, internal, arith, All,
  Bool-cases, Option-cases, inl, inr, subst,
}
use krane_event_management_p.Domain.{Cursor, Room, Invitation, Member, Session, Event}
use krane_event_management_p.Store.{Db, Server, EventRow, MemberRow, SessionRow, exec}
use krane_event_management_p.Members.{is_member_of}
use krane_event_management_p.Sessions.{is_live as is_live_session}
use krane_event_management_p.Events.{is_live, to_event}
use krane_event_management_p.Pages.{
  Page, select, take, get_elem?, insert_row, order_by, fetched, cut, page_of, starts_after,
  precedes,
}

-- JOIN, of a row with what its foreign keys name.
abbrev pub joined : {A B : Type 0} → (A → Option B) → List A → List B
joined f [] = []
joined f (x ∷ xs) = elim (f x) [ none ↦ joined f xs | some y ↦ y ∷ joined f xs ]

-- RoomRepository.List
unfoldable pub list_rooms : Server → ℕ → ℕ → Option Cursor → Db → Result (Option (Page Room))
list_rooms pg event limit after db =
    if pg.fails exec
    then err internal
    else ok (
        page_of (λ r. record { created_at = r.created_at; id = r.id }) limit after
          (select (λ r. r.event_id == event) db.rooms))

-- InvitationRepository.List
unfoldable pub list_invitations :
    Server → ℕ → ℕ → Option Cursor → Db → Result (Option (Page Invitation))
list_invitations pg event limit after db =
    if pg.fails exec
    then err internal
    else ok (
        page_of (λ r. record { created_at = r.created_at; id = r.id }) limit after
          (select (λ r. r.event_id == event) db.invitations))

abbrev pub member_of : Db → MemberRow → Option Member
member_of db m = elim (find_row (λ u. u.id == m.user_id) db.users) [
  | none ↦ none
  | some u ↦ some (record {
    id = m.id;
    event_id = m.event_id;
    user_id = m.user_id;
    user_email = u.email;
    user_name = u.name;
    role = m.role;
    version = m.version;
    created_at = m.created_at;
    updated_at = m.updated_at;
  })
]

-- MemberRepository.List
unfoldable pub list_members : Server → ℕ → ℕ → Option Cursor → Db → Result (Option (Page Member))
list_members pg event limit after db =
    if pg.fails exec
    then err internal
    else ok (
        page_of (λ m. record { created_at = m.created_at; id = m.id }) limit after
          (joined (member_of db) (select (λ m. m.event_id == event) db.members)))

abbrev pub session_of : Db → SessionRow → Option Session
session_of db s = elim (find_row (λ r. r.id == s.room_id) db.rooms) [
  | none ↦ none
  | some room ↦ elim (find_row (λ u. u.id == s.speaker_id) db.users) [
    | none ↦ none
    | some speaker ↦ some (record {
      id = s.id;
      event_id = s.event_id;
      room_id = s.room_id;
      speaker_id = s.speaker_id;
      title = s.title;
      description = s.description;
      starts_at = s.starts_at;
      ends_at = s.ends_at;
      version = s.version;
      created_at = s.created_at;
      updated_at = s.updated_at;
      room_name = room.name;
      speaker_name = speaker.name;
      series_id = none;
    })
  ]
]

-- SessionRepository.List, which does not select series_id.
unfoldable pub list_sessions : Server → ℕ → ℕ → Option Cursor → Db → Result (Option (Page Session))
list_sessions pg event limit after db =
    if pg.fails exec
    then err internal
    else ok (
        page_of (λ s. record { created_at = s.created_at; id = s.id }) limit after
          (joined (session_of db)
            (select (λ s. s.event_id == event && is_live_session s) db.sessions)))

abbrev pub event_key : Event → Cursor
event_key e = record { created_at = e.created_at; id = e.id }

abbrev pub sees : ℕ → Db → EventRow → Bool
sees user db e = any (is_member_of e.id user) db.members && is_live e

-- EventRepository.List: UNIQUE (event_id, user_id) joins an event with one row at most.
unfoldable pub list_events : Server → ℕ → ℕ → Option Cursor → Db → Result (Option (Page Event))
list_events pg user limit after db =
    if pg.fails exec
    then err internal
    else ok (
        page_of event_key limit after
          (joined (λ e. some (to_event e)) (select (sees user db) db.events)))

module _ {κ} {A : Type 0} (key : A → Cursor) (P : A → Type κ) where
  pub All-select : (p : A → Bool) (xs : List A) → All P xs → All P (select p xs)
  All-select p [] h = tt
  All-select p (x ∷ xs) h = elim (Bool-cases (p x)) [
    | inl e ↦ rw e (h.0, All-select p xs h.1)
    | inr e ↦ rw e (All-select p xs h.1)
  ]

  pub All-take : (n : ℕ) (xs : List A) → All P xs → All P (take n xs)
  All-take zero xs h = tt
  All-take (suc n) [] h = tt
  All-take (suc n) (x ∷ xs) h = (h.0, All-take n xs h.1)

  All-insert_row : (x : A) (xs : List A) → P x → All P xs → All P (insert_row key x xs)
  All-insert_row x [] p h = (p, tt)
  All-insert_row x (y ∷ ys) p h = elim (Bool-cases (precedes (key y) (key x))) [
    | inl e ↦ rw e (h.0, All-insert_row x ys p h.1)
    | inr e ↦ rw e (p, h)
  ]

  pub All-order_by : (xs : List A) → All P xs → All P (order_by key xs)
  All-order_by [] h = tt
  All-order_by (x ∷ xs) h = All-insert_row x _ h.0 (All-order_by xs h.1)

  All-cut :
      (limit : ℕ) (xs : List A) {page : Page A}
      → cut key limit xs ≡ some page
      → All P xs
      → All P page.items
  All-cut zero xs e h = ground arith
  All-cut (suc n) xs {page} e h = elim (Option-cases (get_elem? xs n)) [
    | inl q ↦ ground (arith, q, e)
    | inr (last, q) ↦
        let same : take (suc n) xs ≡ page.items = ground (arith, q, e) in
        subst (λ ys. All P ys) same (All-take (suc n) xs h)
  ]

  -- A page holds rows in scope only.
  All-page_of :
      (limit : ℕ) (after : Option Cursor) (rows : List A) {page : Page A}
      → page_of key limit after rows ≡ some page
      → All P rows
      → All P page.items
  All-page_of limit after rows {page} e h =
      let rows' = fetched key limit after rows in
      let here =
        All-take (suc limit) _
          (All-order_by _ (All-select (λ r. starts_after after (key r)) rows h)) in
      elim (Bool-cases (ltb limit (length rows'))) [
        | inl q ↦ All-cut limit rows' (rw q at e) here
        | inr q ↦
            let same : rows' ≡ page.items = ground (arith, q, e) in subst (λ ys. All P ys) same here
      ]

selected : {A : Type 0} (p : A → Bool) (xs : List A) → All (λ x. p x ≡ true) (select p xs)
selected p [] = tt
selected p (x ∷ xs) = elim (Bool-cases (p x)) [
  | inl e ↦ rw e (e, selected p xs)
  | inr e ↦ rw e (selected p xs)
]

abbrev row_key : EventRow → Cursor
row_key e = record { created_at = e.created_at; id = e.id }

seen :
    (user : ℕ) (db : Db) (xs : List EventRow)
    → All (λ e. Memᴰ e db.events) xs
    → All (λ e. sees user db e ≡ true) xs
    → All
        (λ a. any (λ r. r.id == a.id && sees user db r) db.events ≡ true)
        (joined (λ e. some (to_event e)) xs)
unfolding to_event
seen user db [] m h = tt
seen user db (x ∷ xs) m h = (
  any-mem (λ r. r.id == x.id && sees user db r) db.events m.0 (ground (arith, eq_self x.id, h.0)),
  seen user db xs m.1 h.1,
)

-- Each event on a page of a user's list is that of a live row, and the user has a membership row on
-- it.
pub list_events-members :
    (pg : Server) (user limit : ℕ) (after : Option Cursor) (db : Db) {page : Page Event}
    → list_events pg user limit after db ≡ ok (some page)
    → All (λ a. any (λ r. r.id == a.id && sees user db r) db.events ≡ true) page.items
unfolding list_events
list_events-members pg user limit after db {page} h = elim (Bool-cases (pg.fails exec)) [
  | inl e ↦ cc (rw e at h)
  | inr e ↦ All-page_of event_key _ limit after _ {page = page} (ground (arith, h, e)) (
      seen user db _
        (All-select row_key (λ r. Memᴰ r db.events) (sees user db) db.events
          (All-of _ db.events (λ r m. m)))
        (selected (sees user db) db.events))
]
