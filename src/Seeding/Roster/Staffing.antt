-- ===== src/Seeding/Roster/Staffing.antt =====
-- What addStandardMembers builds: a roster that UNIQUE (event_id, user_id) accepts, with an admin.
use krane_event_management_p.Common.{
  ℕ, ◌+◌, ◌-◌, ◌%◌, min, ◌≤◌, ◌<◌, ◌≡◌, refl, true, false, ◌==◌, ◌&&◌, some, List, [], ◌∷◌, length,
  map, All, All_mono, Pairwise, arith, Option-cases, inl, inr, subst,
}
use krane_event_management_p.Domain.{Role, admin, contributor, attendee}
use krane_event_management_p.Store.{MemberRow}
use krane_event_management_p.Members.LastAdmin.{has_admin}
use krane_event_management_p.Seeding.Roster.{
  contains, Staff, include, add_member, add_members, add_role, add_demo, add_standard_members,
  pick_distinct_users,
}
use krane_event_management_p.Seeding.Roster.Draws.{AllDistinct, pick_loop-IsPick}

-- UNIQUE (event_id, user_id)
abbrev pub AreUnique : List MemberRow → Type 0
AreUnique = Pairwise (λ a b. (a.event_id == b.event_id && a.user_id == b.user_id) ≡ false)

-- The users on the roster of the event are excluded from the draws.
record IsStaffed (event : ℕ) (s : Staff) : Type 0 where
  unique : AreUnique s.members
  known : All (λ m. (m.event_id == event) ≡ true → contains m.user_id s.exclude ≡ true) s.members

abbrev AreNew : List ℕ → List ℕ → Type 0
AreNew exclude us = All (λ v. contains v exclude ≡ false) us

new-include :
    (u : ℕ) (exclude us : List ℕ)
    → All (λ v. (u == v) ≡ false) us
    → AreNew exclude us
    → AreNew (include u exclude) us
new-include u exclude [] d h = tt
new-include u exclude (v ∷ us) d h = (ground (arith, d.0, h.0), new-include u exclude us d.1 h.1)

module _ (uuid : ℕ → ℕ) (base event : ℕ) where
  add_member-IsStaffed :
      (role : Role) (u : ℕ) (s : Staff)
      → IsStaffed event s
      → contains u s.exclude ≡ false
      → IsStaffed event (add_member uuid base event role u s)
  add_member-IsStaffed role u s v new = record {
    unique = (All_mono _ _ s.members v.known (λ m k. ground (arith, k, new)), v.unique);
    known = (λ e. ground arith, All_mono _ _ s.members v.known (λ m k e. ground (arith, k e)));
  }

  add_members-IsStaffed :
      (role : Role) (us : List ℕ) (s : Staff)
      → IsStaffed event s
      → AllDistinct us
      → AreNew s.exclude us
      → IsStaffed event (add_members uuid base event role us s)
  add_members-IsStaffed role [] s v d new = v
  add_members-IsStaffed role (u ∷ us) s v d new =
      add_members-IsStaffed role us (add_member uuid base event role u s)
        (add_member-IsStaffed role u s v new.0) d.1 (new-include u s.exclude us d.0 new.1)

  add_members-has_admin :
      (role : Role) (us : List ℕ) (s : Staff)
      → has_admin event s.members ≡ true
      → has_admin event (add_members uuid base event role us s).members ≡ true
  add_members-has_admin role [] s h = h
  add_members-has_admin role (u ∷ us) s h =
      add_members-has_admin role us (add_member uuid base event role u s) (ground (arith, h))

  first_admin :
      (us : List ℕ) (s : Staff)
      → 0 < length us
      → has_admin event (add_members uuid base event admin us s).members ≡ true
  first_admin [] s h = absurd (omega (arith, h))
  first_admin (u ∷ us) s h =
      add_members-has_admin admin us (add_member uuid base event admin u s) (ground arith)

  -- What addRole keeps, and its picks.
  add_role-ok :
      (users : List ℕ) (count : ℕ) (role : Role) (s : Staff) (draws : List ℕ) {t : Staff}
      {rest : List ℕ}
      → IsStaffed event s
      → add_role uuid base event users count role s draws ≡ some (t, rest)
      → (us : List ℕ) × (t ≡ add_members uuid base event role us s)
        × (length us ≡ min count (length users - length s.exclude))
        × IsStaffed event t
  unfolding add_role pick_distinct_users
  add_role-ok users count role s draws {t} v h =
      elim (Option-cases (pick_distinct_users users count s.exclude draws)) [
        | inl e ↦ absurd (ground (arith, e, h))
        | inr ((us, left), e) ↦
            let pick =
              pick_loop-IsPick s.exclude [] (min count (length users - length s.exclude)) draws e in
            let same : add_members uuid base event role us s ≡ t = ground (arith, e, h) in
            (
              us,
              ground (arith, same),
              pick.number,
              subst (IsStaffed event) same (
                  add_members-IsStaffed role us s v pick.distinct
                    (All_mono _ _ us pick.fresh (λ u k. ground (arith, k)))),
            )
      ]

  add_demo-IsStaffed :
      (demo : List (ℕ × Role)) (s : Staff)
      → IsStaffed event s
      → AllDistinct (map (λ d. d.0) demo)
      → AreNew s.exclude (map (λ d. d.0) demo)
      → IsStaffed event (add_demo uuid base event demo s)
        × (length (add_demo uuid base event demo s).exclude ≤ length s.exclude + length demo)
  add_demo-IsStaffed [] s v d new = (v, omega arith)
  add_demo-IsStaffed ((u, role) ∷ demo) s v d new =
      let (w, few) =
        add_demo-IsStaffed demo (add_member uuid base event role u s)
          (add_member-IsStaffed role u s v new.0) d.1
          (new-include u s.exclude (map (λ x. x.0) demo) d.0 new.1) in
      (w, ground (arith, few, new.0))

  nothing_excluded : (us : List ℕ) → AreNew [] us
  nothing_excluded [] = tt
  nothing_excluded (u ∷ us) = (refl, nothing_excluded us)

  fresh-IsStaffed :
      (members : List MemberRow)
      → AreUnique members
      → All (λ m. (m.event_id == event) ≡ false) members
      → IsStaffed event (record { members = members; exclude = []; member_ids = [] })
  fresh-IsStaffed members unique fresh = record {
    unique = unique;
    known = All_mono _ _ members fresh (λ m k e. absurd (ground (arith, k, e)));
  }

  pub add_standard_members-has_admin :
      (users : List ℕ) (demo : List (ℕ × Role)) (a c t : ℕ) (members : List MemberRow)
      (draws : List ℕ) {s : Staff} {rest : List ℕ}
      → AreUnique members
      → All (λ m. (m.event_id == event) ≡ false) members
      → AllDistinct (map (λ d. d.0) demo)
      → length demo < length users
      → add_standard_members uuid base event users demo a c t members draws ≡ some (s, rest)
      → AreUnique s.members × (has_admin event s.members ≡ true)
  unfolding add_standard_members
  add_standard_members-has_admin users demo a c t members draws {s} {rest} unique fresh d few h =
      let s0 =
        add_demo uuid base event demo
          (record { members = members; exclude = []; member_ids = [] }) in
      let (v0, short) =
        add_demo-IsStaffed demo _ (fresh-IsStaffed members unique fresh) d
          (nothing_excluded (map (λ x. x.0) demo)) in
      elim (Option-cases (add_role uuid base event users (1 + a % 2) admin s0 draws)) [
        | inl e ↦ absurd (ground (arith, e, h))
        | inr ((s1, draws1), e1) ↦
            elim (Option-cases (add_role uuid base event users (2 + c % 4) contributor s1 draws1)) [
              | inl e ↦ absurd (ground (arith, e, e1, h))
              | inr ((s2, draws2), e2) ↦
                  let (us1, same1, many, v1) = add_role-ok users (1 + a % 2) admin s0 draws v0 e1 in
                  let (us2, same2, _, v2) =
                    add_role-ok users (2 + c % 4) contributor s1 draws1 v1 e2 in
                  let e3 : add_role uuid base event users (10 + t % 31) attendee s2 draws2
                      ≡ some (s, rest) =
                    ground (arith, e1, e2, h) in
                  let (us3, same3, _, v3) =
                    add_role-ok users (10 + t % 31) attendee s2 draws2 v2 e3 in
                  let admin1 : has_admin event s1.members ≡ true =
                    rw same1 (first_admin us1 s0 (omega (arith, many, short, few))) in
                  let admin2 : has_admin event s2.members ≡ true =
                    rw same2 (add_members-has_admin contributor us2 s1 admin1) in
                  (v3.unique, rw same3 (add_members-has_admin attendee us3 s2 admin2))
            ]
      ]
