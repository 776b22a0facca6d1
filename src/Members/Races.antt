-- ===== src/Members/Races.antt =====
-- member_repo.go: AssignRole and Delete as transactions that run at the same time. A statement reads
-- what is committed when it starts (READ COMMITTED), and others see its change from the commit on;
-- SELECT ... FOR UPDATE waits while another transaction holds the row of the event.
pub mod Safety
pub mod Selected
pub mod Order
pub mod Serial
pub mod Calls
use krane_event_management_p.Common.{
  ℕ, suc, ◌≡◌, Bool, true, false, not, ◌&&◌, Option, none, some, List, ◌∷◌, any, find_row,
  update_row, remove_row, if◌then◌else◌, ◌==◌,
}
use krane_event_management_p.Domain.{Role, is_known}
use krane_event_management_p.Store.{MemberRow, fits_int4}
use krane_event_management_p.Members.{may_assign, may_delete, with_role}

-- What a transaction was called with: AssignRole or Delete.
pub data Write : Type 0 where
  assign : (event member version : ℕ) → Role → (now : ℕ) → Write
  remove : (event member version : ℕ) → Write

abbrev pub event_of : Write → ℕ
event_of (assign event member version role now) = event
event_of (remove event member version) = event

-- The WHERE clause of the statement, which counts the other admins in what is committed at its start.
abbrev pub selects : Write → List MemberRow → MemberRow → Bool
selects (assign event member version role now) seen = may_assign event member version role seen
selects (remove event member version) seen = may_delete event member version seen

-- The CHECK on role, and the 32 bits of a version.
abbrev pub allowed : Write → Bool
allowed (assign event member version role now) = is_known role && fits_int4 (suc version)
allowed (remove event member version) = fits_int4 version

-- What the statement does to the rows that it selected.
abbrev pub apply : Write → List MemberRow → List MemberRow → List MemberRow
apply (assign event member version role now) seen members =
    update_row (selects (assign event member version role now) seen) (with_role role now) members
apply (remove event member version) seen members =
    remove_row (selects (remove event member version) seen) members

-- Where a transaction stands. `wrote` has what was committed when its statement started.
pub data Phase : Type 0 where
  idle : Phase
  holds : Write → Phase
  wrote : Write → List MemberRow → Phase
  ended : Phase

-- What is committed, who holds the row of an event, and the transactions by number.
pub record System : Type 0 where
  pub members : List MemberRow
  pub holder : ℕ → Option ℕ
  pub phase : ℕ → Phase

abbrev pub set_at {ℓ} : {A : Type ℓ} → (ℕ → A) → ℕ → A → ℕ → A
set_at f i a j = if i == j then a else f j

-- The lock is granted while nobody has it. Without FOR UPDATE it always is.
abbrev pub granted : Bool → Option ℕ → Bool
granted for_update none = true
granted for_update (some i) = not for_update

abbrev pub taken : System → ℕ → Write → System
taken s i w = record s {
  holder = set_at s.holder (event_of w) (some i);
  phase = set_at s.phase i (Phase.holds w);
}

abbrev pub written : System → ℕ → Write → System
written s i w = record s { phase = set_at s.phase i (Phase.wrote w s.members) }

-- The end of a transaction gives the row of the event back.
abbrev pub over : System → ℕ → Write → List MemberRow → System
over s i w members = record {
  members = members;
  holder = set_at s.holder (event_of w) none;
  phase = set_at s.phase i Phase.ended;
}

pub data Step (for_update : Bool) (s : System) : System → Type 0 where
  -- SELECT id FROM events ... FOR UPDATE
  take :
      (i : ℕ) (w : Write)
      → s.phase i ≡ Phase.idle
      → granted for_update (s.holder (event_of w)) ≡ true
      → Step for_update s (taken s i w)
  -- The UPDATE or the DELETE, which selected a row.
  write :
      (i : ℕ) (w : Write) (old : MemberRow)
      → s.phase i ≡ Phase.holds w
      → find_row (selects w s.members) s.members ≡ some old
      → allowed w ≡ true
      → Step for_update s (written s i w)
  commit :
      (i : ℕ) (w : Write) (seen : List MemberRow)
      → s.phase i ≡ Phase.wrote w seen
      → Step for_update s (over s i w (apply w seen s.members))
  -- No row was selected, or an error, before the statement or after it.
  refuse :
      (i : ℕ) (w : Write) → s.phase i ≡ Phase.holds w → Step for_update s (over s i w s.members)
  rollback :
      (i : ℕ) (w : Write) (seen : List MemberRow)
      → s.phase i ≡ Phase.wrote w seen
      → Step for_update s (over s i w s.members)
  -- A membership that Create, or the creation of an event, has committed; it takes no such lock.
  grow :
      (m : MemberRow)
      → any (λ x. x.id == m.id) s.members ≡ false
      → Step for_update s (record s { members = m ∷ s.members })

abbrev pub start : List MemberRow → System
start members = record { members = members; holder = λ _. none; phase = λ _. Phase.idle }

pub data Reach (for_update : Bool) (members : List MemberRow) : System → Type 0 where
  here : Reach for_update members (start members)
  next :
      {s t : System} → Reach for_update members s → Step for_update s t → Reach for_update members t
