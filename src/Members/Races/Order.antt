-- ===== src/Members/Races/Order.antt =====
-- What a run has committed, in the order of the commits: the calls, each as it was started, and the
-- memberships that were added.
use mathlib.Core.List.{Memᴰ}
use krane_event_management_p.Common.{
  ℕ, ◌≡◌, ◌≢◌, refl, sym, Bool, true, false, ◌==◌, ◌&&◌, List, [], ◌∷◌, any, All, All_mono, All-of,
  Pairwise, arith, Bool-cases, inl, inr, subst,
}
use krane_event_management_p.Store.{MemberRow}
use krane_event_management_p.Members.Races.{
  Write, selects, allowed, apply, Phase, System, set_at, over, Step, take, write, commit, refuse,
  rollback, grow, Reach, here, next,
}

-- A transaction by its number, with the call that it was started with.
pub record Call : Type 0 where
  pub number : ℕ
  pub write : Write

abbrev pub call_of : ℕ → Write → Call
call_of i w = record { number = i; write = w }

pub data Change : Type 0 where
  called : Call → Change
  added : MemberRow → Change

abbrev pub commit_of : {b : Bool} {s t : System} → Step b s t → List Change → List Change
commit_of (take i w idle free) cs = cs
commit_of (write i w old at found known) cs = cs
commit_of (commit i w seen at) cs = called (call_of i w) ∷ cs
commit_of (refuse i w at) cs = cs
commit_of (rollback i w seen at) cs = cs
commit_of (grow m fresh) cs = added m ∷ cs

-- The commits of a run, the last one first.
unfoldable pub commits : {b : Bool} {ms : List MemberRow} {s : System} → Reach b ms s → List Change
commits here = []
commits (next r st) = commit_of st (commits r)

abbrev pub start_of : {b : Bool} {s t : System} → Step b s t → List Call → List Call
start_of (take i w idle free) cs = call_of i w ∷ cs
start_of (write i w old at found known) cs = cs
start_of (commit i w seen at) cs = cs
start_of (refuse i w at) cs = cs
start_of (rollback i w seen at) cs = cs
start_of (grow m fresh) cs = cs

-- The transactions that a run has started, by their SELECT ... FOR UPDATE.
unfoldable pub starts : {b : Bool} {ms : List MemberRow} {s : System} → Reach b ms s → List Call
starts here = []
starts (next r st) = start_of st (starts r)

-- The changes made one after the other, the last one first in the list: each statement runs alone,
-- and sees what the changes before it left.
unfoldable pub alone : List Change → List MemberRow → List MemberRow
alone [] ms = ms
alone (called c ∷ cs) ms = apply c.write (alone cs ms) (alone cs ms)
alone (added m ∷ cs) ms = m ∷ alone cs ms

-- Alone, a statement passes what it has to pass and selects a row.
abbrev pub takes_effect : Write → List MemberRow → Bool
takes_effect w ms = allowed w && any (selects w ms) ms

-- So does each of the calls.
unfoldable pub AreEffective : List MemberRow → List Change → Type 0
AreEffective ms [] = Unit
AreEffective ms (called c ∷ cs) = (takes_effect c.write (alone cs ms) ≡ true) × AreEffective ms cs
AreEffective ms (added m ∷ cs) = AreEffective ms cs

abbrev pub IsStarted : List Call → Change → Type 0
IsStarted calls (called c) = Memᴰ c calls
IsStarted calls (added m) = Unit

-- Not the same transaction.
abbrev pub Differs : Change → Change → Type 0
Differs (called a) (called b) = (a.number == b.number) ≡ false
Differs (called a) (added m) = Unit
Differs (added m) c = Unit

abbrev Knows : List Call → ℕ → Phase → Type 0
Knows calls i Phase.idle = Unit
Knows calls i (Phase.holds w) = Memᴰ (call_of i w) calls
Knows calls i (Phase.wrote w seen) = Memᴰ (call_of i w) calls
Knows calls i Phase.ended = Unit

abbrev IsOver : System → Change → Type 0
IsOver s (called c) = s.phase c.number ≡ Phase.ended
IsOver s (added m) = Unit

record IsOrdered (s : System) (calls : List Call) (cs : List Change) : Type 0 where
  started : All (IsStarted calls) cs
  once : Pairwise Differs cs
  over : All (IsOver s) cs
  known : (i : ℕ) → Knows calls i (s.phase i)

Knows-later :
    (c : Call) (calls : List Call) (i : ℕ) (p : Phase) → Knows calls i p → Knows (c ∷ calls) i p
Knows-later c calls i Phase.idle h = tt
Knows-later c calls i (Phase.holds w) h = Memᴰ.tail h
Knows-later c calls i (Phase.wrote w seen) h = Memᴰ.tail h
Knows-later c calls i Phase.ended h = tt

IsStarted-later :
    (c : Call) (calls : List Call) (d : Change) → IsStarted calls d → IsStarted (c ∷ calls) d
IsStarted-later c calls (called d) h = Memᴰ.tail h
IsStarted-later c calls (added m) h = tt

Knows-set :
    (calls : List Call) (f : ℕ → Phase) (i : ℕ) (p : Phase)
    → ((j : ℕ) → Knows calls j (f j))
    → Knows calls i p
    → (j : ℕ) → Knows calls j (set_at f i p j)
Knows-set calls f i p known h j = elim (Bool-cases (i == j)) [
  | inl e ↦ let same : i ≡ j = ground arith in rw e (subst (λ x. Knows calls x p) same h)
  | inr e ↦ rw e (known j)
]

-- A transaction that is not over is none of those that have committed.
IsOver-set :
    (s : System) (t : System) (i : ℕ) (p : Phase) (c : Change)
    → s.phase i ≢ Phase.ended
    → t.phase ≡ set_at s.phase i p
    → IsOver s c
    → IsOver t c
IsOver-set s t i p (called c) open_yet same h = elim (Bool-cases (i == c.number)) [
  | inl e ↦
      let at : i ≡ c.number = ground arith in
      absurd (open_yet (subst (λ x. s.phase x ≡ Phase.ended) (sym at) h))
  | inr e ↦ rw same (rw e h)
]
IsOver-set s t i p (added m) open_yet same h = tt

IsOver-members :
    (s : System) (ms : List MemberRow) (c : Change)
    → IsOver s c
    → IsOver (record s { members = ms }) c
IsOver-members s ms (called c) h = h
IsOver-members s ms (added m) h = tt

Differs-open :
    (s : System) (i : ℕ) (w : Write) (c : Change)
    → s.phase i ≢ Phase.ended
    → IsOver s c
    → Differs (called (call_of i w)) c
Differs-open s i w (called c) open_yet h = elim (Bool-cases (i == c.number)) [
  | inl e ↦
      let at : i ≡ c.number = ground arith in
      absurd (open_yet (subst (λ x. s.phase x ≡ Phase.ended) (sym at) h))
  | inr e ↦ e
]
Differs-open s i w (added m) open_yet h = tt

set_at_same : (f : ℕ → Phase) (i : ℕ) (p : Phase) → set_at f i p i ≡ p
set_at_same f i p = ground arith

-- A step of transaction `i`, which is not over, to `p`, with no commit.
moved :
    {s : System} (t : System) (i : ℕ) (p : Phase) {calls : List Call} {cs : List Change}
    → IsOrdered s calls cs
    → s.phase i ≢ Phase.ended
    → t.phase ≡ set_at s.phase i p
    → Knows calls i p
    → IsOrdered t calls cs
moved {s} t i p {calls} {cs} o open_yet same h = record {
  started = o.started;
  once = o.once;
  over = All_mono _ _ cs o.over (λ c. IsOver-set s t i p c open_yet same);
  known =
      λ j. subst (λ f. Knows calls j (f j)) (sym same) (Knows-set calls s.phase i p o.known h j);
}

Step-IsOrdered :
    {b : Bool} {s t : System} (st : Step b s t) {calls : List Call} {cs : List Change}
    → IsOrdered s calls cs
    → IsOrdered t (start_of st calls) (commit_of st cs)
Step-IsOrdered {s = s} (take i w idle free) {calls} {cs} o =
    let c = call_of i w in
    let later : IsOrdered s (c ∷ calls) cs = record {
      started = All_mono _ _ cs o.started (IsStarted-later c calls);
      once = o.once;
      over = o.over;
      known = λ j. Knows-later c calls j (s.phase j) (o.known j);
    } in
    moved _ i (Phase.holds w) later (λ e. cc) refl (Memᴰ.head refl)
Step-IsOrdered {s = s} (write i w old at found known) {calls} {cs} o =
    moved _ i (Phase.wrote w s.members) o (λ e. cc) refl (subst (Knows calls i) at (o.known i))
Step-IsOrdered {s = s} (commit i w seen at) {calls} {cs} o =
    let t = over s i w (apply w seen s.members) in
    let ended = moved t i Phase.ended o (λ e. cc) refl tt in
    record {
      started = (subst (Knows calls i) at (o.known i), o.started);
      once = (All_mono _ _ cs o.over (λ c. Differs-open s i w c (λ e. cc)), o.once);
      over = (set_at_same s.phase i Phase.ended, ended.over);
      known = ended.known;
    }
Step-IsOrdered (refuse i w at) o = moved _ i Phase.ended o (λ e. cc) refl tt
Step-IsOrdered (rollback i w seen at) o = moved _ i Phase.ended o (λ e. cc) refl tt
Step-IsOrdered {s = s} (grow m fresh) {calls} {cs} o = record {
  started = (tt, o.started);
  once = (All-of _ cs (λ c q. tt), o.once);
  over = (tt, All_mono _ _ cs o.over (IsOver-members s (m ∷ s.members)));
  known = o.known;
}

Reach-IsOrdered :
    {b : Bool} {ms : List MemberRow} {s : System} (r : Reach b ms s)
    → IsOrdered s (starts r) (commits r)
unfolding starts commits
Reach-IsOrdered here = record { started = tt; once = tt; over = tt; known = λ i. tt }
Reach-IsOrdered (next r st) = Step-IsOrdered st (Reach-IsOrdered r)

-- What has committed was started before, as the same call.
pub commits-IsStarted :
    {b : Bool} {ms : List MemberRow} {s : System} (r : Reach b ms s)
    → All (IsStarted (starts r)) (commits r)
commits-IsStarted r = (Reach-IsOrdered r).started

-- No transaction commits twice.
pub commits-Differs :
    {b : Bool} {ms : List MemberRow} {s : System} (r : Reach b ms s) → Pairwise Differs (commits r)
commits-Differs r = (Reach-IsOrdered r).once
