-- ===== src/Members/Races/Safety.antt =====
-- The lock keeps an admin whatever the order of the steps; without it two demotions orphan an event.
use krane_event_management_p.Common.{
  ℕ, suc, ◌≡◌, ◌≢◌, refl, Bool, true, false, ◌==◌, some, List, [], ◌∷◌, any-update_row,
  any-remove_row, any_mono, arith, Bool-cases, inl, inr, ℕ_discrete, subst, ap, ◌⊎◌,
}
use krane_event_management_p.Domain.{Role, is_admin, is_known}
use krane_event_management_p.Store.{MemberRow, fits_int4}
use krane_event_management_p.Members.{other_admin, may_assign, may_delete, with_role}
use krane_event_management_p.Members.LastAdmin.{has_admin}
use krane_event_management_p.Members.Races.{
  Write, assign, remove, event_of, apply, Phase, System, set_at, taken, written, over, Step, take,
  write, commit, refuse, rollback, grow, start, Reach, here, next,
}

abbrev pub row_of : Write → ℕ
row_of (assign event member version role now) = member
row_of (remove event member version) = member

-- An admin of the event of `w` whose row is not the one that `w` is about.
abbrev pub another : Write → List MemberRow → Bool
another w ms = other_admin (event_of w) (row_of w) ms

abbrev pub HoldsLock : System → ℕ → Phase → Type 0
HoldsLock s i Phase.idle = Unit
HoldsLock s i (Phase.holds w) = s.holder (event_of w) ≡ some i
HoldsLock s i (Phase.wrote w seen) =
    (s.holder (event_of w) ≡ some i) × (another w seen ≡ true → another w s.members ≡ true)
HoldsLock s i Phase.ended = Unit

pub record IsSafe (e : ℕ) (s : System) : Type 0 where
  pub admin : has_admin e s.members ≡ true
  pub locked : (i : ℕ) → HoldsLock s i (s.phase i)

-- Admins of other rows stay admins.
pub another-apply_other :
    (v w : Write) (seen ms : List MemberRow)
    → event_of w ≢ event_of v
    → another v ms ≡ true
    → another v (apply w seen ms) ≡ true
another-apply_other v (assign event member version role now) seen ms n h =
    any-update_row (may_assign event member version role seen) _ (with_role role now) ms h
      (λ x p q. ground arith)
another-apply_other v (remove event member version) seen ms n h =
    any-remove_row (may_delete event member version seen) _ ms h (λ x p q. ground arith)

pub another-apply :
    (w : Write) (seen ms : List MemberRow)
    → another w ms ≡ true
    → another w (apply w seen ms) ≡ true
another-apply (assign event member version role now) seen ms h =
    any-update_row (may_assign event member version role seen) _ (with_role role now) ms h
      (λ x p q. ground arith)
another-apply (remove event member version) seen ms h =
    any-remove_row (may_delete event member version seen) _ ms h (λ x p q. ground arith)

has_admin-another :
    (w : Write) (ms : List MemberRow) → another w ms ≡ true → has_admin (event_of w) ms ≡ true
has_admin-another w ms h = any_mono _ _ ms h (λ x q. ground arith)

-- The guard saw no other admin, so it left the admins alone; or the row is of another event.
has_admin-apply_last :
    (e : ℕ) (w : Write) (seen ms : List MemberRow)
    → (another w seen ≡ false) ⊎ (event_of w ≢ e)
    → has_admin e ms ≡ true
    → has_admin e (apply w seen ms) ≡ true
has_admin-apply_last e (assign event member version role now) seen ms o h =
    any-update_row (may_assign event member version role seen) _ (with_role role now) ms h
      (λ x p q. ground arith)
has_admin-apply_last e (remove event member version) seen ms o h =
    any-remove_row (may_delete event member version seen) _ ms h (λ x p q. ground arith)

has_admin-apply :
    (e : ℕ) (w : Write) (seen ms : List MemberRow)
    → (another w seen ≡ true → another w ms ≡ true)
    → has_admin e ms ≡ true
    → has_admin e (apply w seen ms) ≡ true
has_admin-apply e w seen ms k h = elim (Bool-cases (another w seen)) [
  | inr o ↦ has_admin-apply_last e w seen ms (inl o) h
  | inl o ↦ elim (ℕ_discrete (event_of w) e) [
    | yes same ↦ rw (← same) (has_admin-another w _ (another-apply w seen ms (k o)))
    | no other ↦ has_admin-apply_last e w seen ms (inr other) h
  ]
]

-- What a transaction relies on survives a step that leaves its lock and the admins of its event.
HoldsLock-frame :
    (s t : System) (j : ℕ) (p : Phase)
    → HoldsLock s j p
    → ((e : ℕ) → s.holder e ≡ some j → t.holder e ≡ some j)
    → ((v : Write)
        → s.holder (event_of v) ≡ some j
        → another v s.members ≡ true
        → another v t.members ≡ true)
    → HoldsLock t j p
HoldsLock-frame s t j Phase.idle h k m = tt
HoldsLock-frame s t j (Phase.holds w) h k m = k (event_of w) h
HoldsLock-frame s t j (Phase.wrote w seen) h k m = (k (event_of w) h.0, λ o. m w h.0 (h.1 o))
HoldsLock-frame s t j Phase.ended h k m = tt

-- A step of transaction `i`, which goes to `p`.
HoldsLock-set :
    (s t : System) (i : ℕ) (p : Phase)
    → ((j : ℕ) → HoldsLock s j (s.phase j))
    → HoldsLock t i p
    → ((j e : ℕ) → (i == j) ≡ false → s.holder e ≡ some j → t.holder e ≡ some j)
    → ((j : ℕ) (v : Write)
        → (i == j) ≡ false
        → s.holder (event_of v) ≡ some j
        → another v s.members ≡ true
        → another v t.members ≡ true)
    → (j : ℕ) → HoldsLock t j (set_at s.phase i p j)
HoldsLock-set s t i p locked h k m j = elim (Bool-cases (i == j)) [
  | inl e ↦ let same : i ≡ j = ground arith in rw e (subst (λ x. HoldsLock t x p) same h)
  | inr e ↦ rw e (HoldsLock-frame s t j (s.phase j) (locked j) (λ x. k j x e) (λ v. m j v e))
]

-- The end of a transaction that has the lock, with the roster that it leaves.
release :
    (e : ℕ) (s : System) (i : ℕ) (w : Write) (ms : List MemberRow)
    → IsSafe e s
    → s.holder (event_of w) ≡ some i
    → has_admin e ms ≡ true
    → ((v : Write) → event_of w ≢ event_of v → another v s.members ≡ true → another v ms ≡ true)
    → IsSafe e (over s i w ms)
release e s i w ms safe lock h k = record {
  admin = h;
  locked =
      HoldsLock-set s (over s i w ms) i Phase.ended safe.locked tt (λ j x n q. ground arith)
        (λ j v n q. k v (λ same. ground (arith, ap s.holder same)));
}

pub Step-IsSafe : (e : ℕ) {s t : System} → Step true s t → IsSafe e s → IsSafe e t
Step-IsSafe e {s} (take i w idle free) safe = record {
  admin = safe.admin;
  locked =
      HoldsLock-set s (taken s i w) i (Phase.holds w) safe.locked (ground arith)
        (λ j x n q. ground arith) (λ j v n q o. o);
}
Step-IsSafe e {s} (write i w old at found known) safe =
    let lock : s.holder (event_of w) ≡ some i = subst (HoldsLock s i) at (safe.locked i) in
    record {
      admin = safe.admin;
      locked =
          HoldsLock-set s (written s i w) i (Phase.wrote w s.members) safe.locked (lock, λ o. o)
            (λ j x n q. q) (λ j v n q o. o);
    }
Step-IsSafe e {s} (commit i w seen at) safe =
    let (lock, still) = subst (HoldsLock s i) at (safe.locked i) in
    release e s i w (apply w seen s.members) safe lock
      (has_admin-apply e w seen s.members still safe.admin)
      (λ v n o. another-apply_other v w seen s.members n o)
Step-IsSafe e {s} (refuse i w at) safe =
    release e s i w s.members safe (subst (HoldsLock s i) at (safe.locked i)) safe.admin
      (λ v n o. o)
Step-IsSafe e {s} (rollback i w seen at) safe =
    release e s i w s.members safe (subst (HoldsLock s i) at (safe.locked i)).0 safe.admin
      (λ v n o. o)
Step-IsSafe e {s} (grow m fresh) safe = record {
  admin = ground (arith, safe.admin);
  locked = λ j.
      HoldsLock-frame s (record s { members = m ∷ s.members }) j (s.phase j) (safe.locked j)
        (λ x q. q) (λ v q o. ground arith);
}

pub Reach-IsSafe :
    (e : ℕ) {ms : List MemberRow} {s : System}
    → has_admin e ms ≡ true
    → Reach true ms s
    → IsSafe e s
Reach-IsSafe e h here = record { admin = h; locked = λ i. tt }
Reach-IsSafe e h (next r st) = Step-IsSafe e st (Reach-IsSafe e h r)

-- With the lock of the event: an event that has an admin has one after any interleaving of the steps
-- of concurrent calls of AssignRole and Delete, each of whose statements counts the admins that were
-- committed when it started.
pub Reach-has_admin :
    (e : ℕ) (ms : List MemberRow) {s : System}
    → has_admin e ms ≡ true
    → Reach true ms s
    → has_admin e s.members ≡ true
Reach-has_admin e ms h r = (Reach-IsSafe e h r).admin

-- Two demotions, each of which sees the other admin, before either commits.
pub race :
    (a b : MemberRow) (role : Role) (now : ℕ)
    → a.event_id ≡ b.event_id
    → a.id ≢ b.id
    → is_admin a.role ≡ true
    → is_admin b.role ≡ true
    → is_admin role ≡ false
    → is_known role ≡ true
    → fits_int4 (suc a.version) ≡ true
    → fits_int4 (suc b.version) ≡ true
    → (s : System) × Reach false (a ∷ b ∷ []) s × (has_admin a.event_id s.members ≡ false)
race a b role now same apart p q r known fits fits' =
    let v = assign a.event_id a.id a.version role now in
    let w = assign a.event_id b.id b.version role now in
    let s0 = start (a ∷ b ∷ []) in
    let s1 = taken s0 0 v in
    let s2 = taken s1 1 w in
    let s3 = written s2 0 v in
    let s4 = written s3 1 w in
    let s5 = over s4 0 v (apply v (a ∷ b ∷ []) s4.members) in
    let s6 = over s5 1 w (apply w (a ∷ b ∷ []) s5.members) in
    (
      s6,
      next
          (next
            (next
              (next (next (next here (take 0 v refl refl)) (take 1 w refl (ground arith)))
                (write 0 v a refl (ground arith) (ground arith)))
              (write 1 w b refl (ground arith) (ground arith)))
            (commit 0 v (a ∷ b ∷ []) refl))
          (commit 1 w (a ∷ b ∷ []) refl),
      ground arith,
    )
