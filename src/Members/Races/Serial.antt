-- ===== src/Members/Races/Serial.antt =====
-- Whatever the order of the steps, the roster is the one that the committed calls leave when they run
-- one after the other.
use krane_event_management_p.Common.{
  ℕ, ◌≡◌, ◌≢◌, refl, sym, ap, ◌∙◌, Bool, true, false, some, List, [], ◌∷◌, any, All, All_mono,
  Pairwise, arith, ◌==◌, Bool-cases, inl, inr, subst,
}
use krane_event_management_p.Store.{MemberRow}
use krane_event_management_p.Members.Races.{
  Write, event_of, selects, apply, Phase, System, allowed, set_at, taken, written, over, Step, take,
  write, commit, refuse, rollback, grow, Reach, here, next,
}
use krane_event_management_p.Members.Races.Order.{
  Change, commit_of, commits, starts, alone, takes_effect, AreEffective, IsStarted, Differs,
  commits-IsStarted, commits-Differs,
}
use krane_event_management_p.Members.Races.Safety.{another, another-apply_other}
use krane_event_management_p.Members.Races.Selected.{
  aims, AreKeyed, apply-same, selects-same, aims-selects, aims-apply_other, present-apply_other,
  AreKeyed-apply, keyed_new, not_aimed,
}

-- The statement of a transaction that wrote still selects just the row that it selected.
abbrev Writes : System → ℕ → Phase → Type 0
Writes s i Phase.idle = Unit
Writes s i (Phase.holds w) = s.holder (event_of w) ≡ some i
Writes s i (Phase.wrote w seen) =
    (s.holder (event_of w) ≡ some i)
    × (another w seen ≡ true → another w s.members ≡ true)
    × All (λ m. aims w m ≡ true → selects w seen m ≡ true) s.members
    × (any (aims w) s.members ≡ true)
    × (allowed w ≡ true)
Writes s i Phase.ended = Unit

-- What a transaction of the event of `v` relies on, from one roster to the next.
record Keeps (v : Write) (xs ys : List MemberRow) : Type 0 where
  others : another v xs ≡ true → another v ys ≡ true
  present : any (aims v) xs ≡ true → any (aims v) ys ≡ true
  aimed :
      (seen : List MemberRow)
      → any (aims v) xs ≡ true
      → All (λ m. aims v m ≡ true → selects v seen m ≡ true) xs
      → All (λ m. aims v m ≡ true → selects v seen m ≡ true) ys

Keeps-same : (v : Write) (xs : List MemberRow) → Keeps v xs xs
Keeps-same v xs = record { others = λ o. o; present = λ p. p; aimed = λ seen p h. h }

Keeps-other :
    (v w : Write) (seen xs : List MemberRow)
    → event_of w ≢ event_of v
    → Keeps v xs (apply w seen xs)
Keeps-other v w seen xs n = record {
  others = another-apply_other v w seen xs n;
  present = present-apply_other v w seen xs n;
  aimed = λ seen' p h. aims-apply_other v w seen' seen xs n h;
}

Keeps-grown :
    (v : Write) (m : MemberRow) (xs : List MemberRow)
    → any (λ x. x.id == m.id) xs ≡ false
    → Keeps v xs (m ∷ xs)
Keeps-grown v m xs fresh = record {
  others = λ o. ground (arith, o);
  present = λ p. ground (arith, p);
  aimed = λ seen p h. (λ a. absurd (ground (arith, a, not_aimed v m xs fresh p)), h);
}

Writes-frame :
    (s t : System) (j : ℕ) (p : Phase)
    → Writes s j p
    → ((e : ℕ) → s.holder e ≡ some j → t.holder e ≡ some j)
    → ((v : Write) → s.holder (event_of v) ≡ some j → Keeps v s.members t.members)
    → Writes t j p
Writes-frame s t j Phase.idle h k m = tt
Writes-frame s t j (Phase.holds w) h k m = k (event_of w) h
Writes-frame s t j (Phase.wrote w seen) h k m =
    let kept = m w h.0 in
    (k (event_of w) h.0, λ o. kept.others (h.1 o), kept.aimed seen h.3 h.2, kept.present h.3, h.4)
Writes-frame s t j Phase.ended h k m = tt

Writes-set :
    (s t : System) (i : ℕ) (p : Phase)
    → ((j : ℕ) → Writes s j (s.phase j))
    → Writes t i p
    → ((j e : ℕ) → (i == j) ≡ false → s.holder e ≡ some j → t.holder e ≡ some j)
    → ((j : ℕ) (v : Write)
        → (i == j) ≡ false
        → s.holder (event_of v) ≡ some j
        → Keeps v s.members t.members)
    → (j : ℕ) → Writes t j (set_at s.phase i p j)
Writes-set s t i p locked h k m j = elim (Bool-cases (i == j)) [
  | inl e ↦ let same : i ≡ j = ground arith in rw e (subst (λ x. Writes t x p) same h)
  | inr e ↦ rw e (Writes-frame s t j (s.phase j) (locked j) (λ x. k j x e) (λ v. m j v e))
]

any_through :
    (p q : MemberRow → Bool) (xs : List MemberRow)
    → any p xs ≡ true
    → All (λ x. p x ≡ true → q x ≡ true) xs
    → any q xs ≡ true
any_through p q [] h k = h
any_through p q (x ∷ xs) h k = ground (arith, k.0, any_through p q xs)

All-both :
    (P Q : MemberRow → Type 0) (xs : List MemberRow) → All P xs → All Q xs → All (λ x. P x × Q x) xs
All-both P Q [] h k = tt
All-both P Q (x ∷ xs) h k = ((h.0, k.0), All-both P Q xs h.1 k.1)

-- The roster is what the changes leave one after the other, and each call among them takes effect.
record IsSerial (base : List MemberRow) (s : System) (cs : List Change) : Type 0 where
  serial : s.members ≡ alone cs base
  effective : AreEffective base cs
  keyed : AreKeyed s.members
  locked : (i : ℕ) → Writes s i (s.phase i)

-- The end of a transaction that has the lock leaves the others what they rely on.
end_of :
    (s : System) (i : ℕ) (w : Write) (ms : List MemberRow)
    → ((j : ℕ) → Writes s j (s.phase j))
    → s.holder (event_of w) ≡ some i
    → ((v : Write) → event_of w ≢ event_of v → Keeps v s.members ms)
    → (j : ℕ) → Writes (over s i w ms) j ((over s i w ms).phase j)
end_of s i w ms locked lock k =
    Writes-set s (over s i w ms) i Phase.ended locked tt (λ j x n q. ground arith)
      (λ j v n q. k v (λ same. ground (arith, ap s.holder same)))

-- At the commit: the statement would select the same rows, one at least, if it ran now.
commit_alone :
    (s : System) (w : Write) (seen : List MemberRow)
    → (another w seen ≡ true → another w s.members ≡ true)
    → All (λ m. aims w m ≡ true → selects w seen m ≡ true) s.members
    → any (aims w) s.members ≡ true
    → (apply w seen s.members ≡ apply w s.members s.members)
      × (any (selects w s.members) s.members ≡ true)
commit_alone s w seen still aimed present =
    let same =
      All_mono _ (λ m. selects w seen m ≡ selects w s.members m) s.members aimed
        (λ m. selects-same w seen s.members m still) in
    (
      apply-same w seen s.members s.members same,
      any_through (aims w) (selects w s.members) s.members present
          (All_mono _ _ s.members (All-both _ _ s.members aimed same) (λ m h a. sym h.1 ∙ h.0 a)),
    )

Step-IsSerial :
    (base : List MemberRow) {s t : System} (st : Step true s t) {cs : List Change}
    → IsSerial base s cs
    → IsSerial base t (commit_of st cs)
unfolding alone AreEffective
Step-IsSerial base {s} (take i w idle free) h = record {
  serial = h.serial;
  effective = h.effective;
  keyed = h.keyed;
  locked =
      Writes-set s (taken s i w) i (Phase.holds w) h.locked (ground arith) (λ j x n q. ground arith)
        (λ j v n q. Keeps-same v s.members);
}
Step-IsSerial base {s} (write i w old at found known) h =
    let lock : s.holder (event_of w) ≡ some i = subst (Writes s i) at (h.locked i) in
    let (aimed, present) = aims-selects w s.members h.keyed found in
    record {
      serial = h.serial;
      effective = h.effective;
      keyed = h.keyed;
      locked =
          Writes-set s (written s i w) i (Phase.wrote w s.members) h.locked
            (lock, λ o. o, aimed, present, known) (λ j x n q. q)
            (λ j v n q. Keeps-same v s.members);
    }
Step-IsSerial base {s} (commit i w seen at) {cs} h =
    let (lock, still, aimed, present, known) = subst (Writes s i) at (h.locked i) in
    let (same, chosen) = commit_alone s w seen still aimed present in
    record {
      serial = same ∙ ap (λ ms. apply w ms ms) h.serial;
      effective = (
        subst (λ ms. takes_effect w ms ≡ true) h.serial (ground (arith, known, chosen)),
        h.effective,
      );
      keyed = AreKeyed-apply w seen s.members h.keyed;
      locked =
          end_of s i w (apply w seen s.members) h.locked lock
            (λ v n. Keeps-other v w seen s.members n);
    }
Step-IsSerial base {s} (refuse i w at) h = record {
  serial = h.serial;
  effective = h.effective;
  keyed = h.keyed;
  locked =
      end_of s i w s.members h.locked (subst (Writes s i) at (h.locked i))
        (λ v n. Keeps-same v s.members);
}
Step-IsSerial base {s} (rollback i w seen at) h = record {
  serial = h.serial;
  effective = h.effective;
  keyed = h.keyed;
  locked =
      end_of s i w s.members h.locked (subst (Writes s i) at (h.locked i)).0
        (λ v n. Keeps-same v s.members);
}
Step-IsSerial base {s} (grow m fresh) h = record {
  serial = ap (λ ms. m ∷ ms) h.serial;
  effective = h.effective;
  keyed = (keyed_new m s.members fresh, h.keyed);
  locked = λ j.
      Writes-frame s (record s { members = m ∷ s.members }) j (s.phase j) (h.locked j) (λ x q. q)
        (λ v q. Keeps-grown v m s.members fresh);
}

Reach-IsSerial :
    (ms : List MemberRow) {s : System} (r : Reach true ms s)
    → AreKeyed ms
    → IsSerial ms s (commits r)
unfolding commits alone AreEffective
Reach-IsSerial ms here k = record { serial = refl; effective = tt; keyed = k; locked = λ i. tt }
Reach-IsSerial ms (next r st) k = Step-IsSerial ms st (Reach-IsSerial ms r k)

-- With distinct ids to start with, and with the lock of the event: however the steps of concurrent
-- calls of AssignRole and Delete are interleaved, among them and with memberships that are added,
-- the roster that is committed is what exactly the committed calls, with the arguments that they
-- were started with, and the added memberships leave when they run one after the other in the order
-- of their commits, each statement alone on what the one before left. Each of these calls takes
-- effect there too: it passes the CHECK on the role and the 32 bits of a version, and selects a row.
-- None commits twice.
pub Reach-Serial :
    (ms : List MemberRow) {s : System} (r : Reach true ms s)
    → AreKeyed ms
    → (s.members ≡ alone (commits r) ms)
      × AreEffective ms (commits r)
      × All (IsStarted (starts r)) (commits r)
      × Pairwise Differs (commits r)
Reach-Serial ms r k =
    let h = Reach-IsSerial ms r k in (h.serial, h.effective, commits-IsStarted r, commits-Differs r)
