-- ===== src/Members/Races/Selected.antt =====
-- What the statement of a transaction selects, when it starts and when it commits.
use mathlib.Core.List.{Memᴰ}
use krane_event_management_p.Common.{
  ℕ, ◌≡◌, ◌≢◌, refl, sym, ap, ◌∙◌, Bool, true, false, ◌==◌, ◌&&◌, some, List, [], ◌∷◌, any, any-mem,
  any-update_row, any-remove_row, find_row, find_row-mem, find_row-test, All, All-get, All_mono,
  All-update_row, All-remove_row, Pairwise, Pairwise-update_row, Pairwise-remove_row, arith,
  Bool-cases, inl, inr, subst,
}
use krane_event_management_p.Store.{MemberRow}
use krane_event_management_p.Members.{is_row, may_assign, may_delete, with_role}
use krane_event_management_p.Members.Races.{Write, assign, remove, event_of, selects, apply}
use krane_event_management_p.Members.Races.Safety.{row_of, another}

abbrev pub expected_version : Write → ℕ
expected_version (assign event member version role now) = version
expected_version (remove event member version) = version

-- The row, at the version, that the statement is about.
abbrev pub aims : Write → MemberRow → Bool
aims w m = is_row (event_of w) (row_of w) m && m.version == expected_version w

abbrev pub AreKeyed : List MemberRow → Type 0
AreKeyed = Pairwise (λ a b. (a.id == b.id) ≡ false)

pub selects-aims :
    (w : Write) (seen : List MemberRow) (m : MemberRow) → selects w seen m ≡ true → aims w m ≡ true
selects-aims (assign event member version role now) seen m h = ground (arith, h)
selects-aims (remove event member version) seen m h = ground (arith, h)

-- What was selected is selected where another admin is still there.
selects_still :
    (w : Write) (seen ms : List MemberRow) (m : MemberRow)
    → (another w seen ≡ true → another w ms ≡ true)
    → selects w seen m ≡ true
    → selects w ms m ≡ true
selects_still (assign event member version role now) seen ms m k h = ground (arith, h, k)
selects_still (remove event member version) seen ms m k h = ground (arith, h, k)

-- Where the statement selects the row that it aims at in both, it does the same.
pub apply-same :
    (w : Write) (seen ms : List MemberRow) (xs : List MemberRow)
    → All (λ m. selects w seen m ≡ selects w ms m) xs
    → apply w seen xs ≡ apply w ms xs
apply-same (assign event member version role now) seen ms [] h = refl
apply-same (assign event member version role now) seen ms (x ∷ xs) h =
    ground (arith, h.0, apply-same (assign event member version role now) seen ms xs h.1)
apply-same (remove event member version) seen ms [] h = refl
apply-same (remove event member version) seen ms (x ∷ xs) h =
    ground (arith, h.0, apply-same (remove event member version) seen ms xs h.1)

pub selects-same :
    (w : Write) (seen ms : List MemberRow) (m : MemberRow)
    → (another w seen ≡ true → another w ms ≡ true)
    → (aims w m ≡ true → selects w seen m ≡ true)
    → selects w seen m ≡ selects w ms m
selects-same w seen ms m k h = elim (Bool-cases (aims w m)) [
  | inl e ↦ h e ∙ sym (selects_still w seen ms m k (h e))
  | inr e ↦ elim (Bool-cases (selects w seen m)) [
    | inl s ↦ s ∙ sym (selects_still w seen ms m k s)
    | inr s ↦ elim (Bool-cases (selects w ms m)) [
      | inl t ↦ absurd (ground (arith, e, selects-aims w ms m t))
      | inr t ↦ s ∙ sym t
    ]
  ]
]

same_key :
    {old : MemberRow} (ms : List MemberRow)
    → AreKeyed ms
    → Memᴰ old ms
    → All (λ m. (m.id == old.id) ≡ true → m ≡ old) ms
same_key [] k m = tt
same_key (x ∷ xs) k (Memᴰ.head e) =
    (λ q. sym e, All_mono _ _ xs k.0 (λ y r q. absurd (ground (arith, q, r, ap (λ z. z.id) e))))
same_key (x ∷ xs) k (Memᴰ.tail m) =
    (λ q. absurd (ground (arith, q, All-get _ xs k.0 m)), same_key xs k.1 m)

-- At the statement: with distinct ids, the row that was found is the only one that it aims at.
pub aims-selects :
    (w : Write) (ms : List MemberRow) {old : MemberRow}
    → AreKeyed ms
    → find_row (selects w ms) ms ≡ some old
    → All (λ m. aims w m ≡ true → selects w ms m ≡ true) ms × (any (aims w) ms ≡ true)
aims-selects w ms {old} k found =
    let chosen = find_row-test (selects w ms) ms found in
    let there = find_row-mem (selects w ms) ms found in
    let aimed = selects-aims w ms old chosen in
    (
      All_mono _ _ ms (same_key ms k there) (λ m same q.
          subst (λ z. selects w ms z ≡ true) (sym (same (ground (arith, q, aimed)))) chosen),
      any-mem (aims w) ms there aimed,
    )

-- A commit on another event.
pub aims-apply_other :
    (v w : Write) (seen seen' ms : List MemberRow)
    → event_of w ≢ event_of v
    → All (λ m. aims v m ≡ true → selects v seen m ≡ true) ms
    → All (λ m. aims v m ≡ true → selects v seen m ≡ true) (apply w seen' ms)
aims-apply_other v (assign event member version role now) seen seen' ms n h =
    All-update_row _ (may_assign event member version role seen') (with_role role now) ms h
      (λ x q a.
        absurd
          (ground (arith, a, n, find_row-test (may_assign event member version role seen') ms q)))
aims-apply_other v (remove event member version) seen seen' ms n h =
    All-remove_row _ (may_delete event member version seen') ms h

pub present-apply_other :
    (v w : Write) (seen ms : List MemberRow)
    → event_of w ≢ event_of v
    → any (aims v) ms ≡ true
    → any (aims v) (apply w seen ms) ≡ true
present-apply_other v (assign event member version role now) seen ms n h =
    any-update_row (may_assign event member version role seen) _ (with_role role now) ms h
      (λ x p q. ground (arith, p, q, n))
present-apply_other v (remove event member version) seen ms n h =
    any-remove_row (may_delete event member version seen) _ ms h (λ x p q. ground (arith, p, q, n))

pub AreKeyed-apply :
    (w : Write) (seen ms : List MemberRow) → AreKeyed ms → AreKeyed (apply w seen ms)
AreKeyed-apply (assign event member version role now) seen ms k =
    Pairwise-update_row _ (may_assign event member version role seen) (with_role role now) ms
      (λ x y h. ground (arith, h)) k (λ x y q m h. h)
AreKeyed-apply (remove event member version) seen ms k =
    Pairwise-remove_row _ (may_delete event member version seen) ms k

-- Added to another row.
pub keyed_new :
    (m : MemberRow) (ms : List MemberRow)
    → any (λ x. x.id == m.id) ms ≡ false
    → All (λ x. (m.id == x.id) ≡ false) ms
keyed_new m [] h = tt
keyed_new m (x ∷ xs) h = (ground (arith, h), keyed_new m xs (ground (arith, h)))

pub not_aimed :
    (w : Write) (m : MemberRow) (ms : List MemberRow)
    → any (λ x. x.id == m.id) ms ≡ false
    → any (aims w) ms ≡ true
    → aims w m ≡ false
not_aimed w m [] h k = absurd (ground (arith, k))
not_aimed w m (x ∷ xs) h k = ground (arith, h, k, not_aimed w m xs)
