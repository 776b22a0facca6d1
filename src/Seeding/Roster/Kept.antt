-- ===== src/Seeding/Roster/Kept.antt =====
-- What holds of the members and is kept by each further row of the event holds after addStandardMembers.
use krane_event_management_p.Common.{
  ℕ, ◌+◌, ◌%◌, ◌≡◌, refl, some, List, [], ◌∷◌, arith, Option-cases, inl, inr, subst,
}
use krane_event_management_p.Domain.{Role, admin, contributor, attendee}
use krane_event_management_p.Store.{MemberRow}
use krane_event_management_p.Seeding.Roster.{
  Staff, add_member, add_members, add_role, add_demo, add_standard_members, pick_distinct_users,
}

-- What each further row of the event keeps is kept by the whole.
module _ {κ} (uuid : ℕ → ℕ) (base event : ℕ) (Q : List MemberRow → Type κ)
    (k : (m : MemberRow) (xs : List MemberRow) → m.event_id ≡ event → Q xs → Q (m ∷ xs)) where
  add_members-keeps :
      (role : Role) (us : List ℕ) (s : Staff)
      → Q s.members
      → Q (add_members uuid base event role us s).members
  add_members-keeps role [] s q = q
  add_members-keeps role (u ∷ us) s q =
      add_members-keeps role us (add_member uuid base event role u s) (k _ s.members refl q)

  add_demo-keeps :
      (demo : List (ℕ × Role)) (s : Staff)
      → Q s.members
      → Q (add_demo uuid base event demo s).members
  add_demo-keeps [] s q = q
  add_demo-keeps ((u, role) ∷ demo) s q =
      add_demo-keeps demo (add_member uuid base event role u s) (k _ s.members refl q)

  add_role-keeps :
      (users : List ℕ) (count : ℕ) (role : Role) (s : Staff) (draws : List ℕ) {t : Staff}
      {rest : List ℕ}
      → Q s.members
      → add_role uuid base event users count role s draws ≡ some (t, rest)
      → Q t.members
  unfolding add_role
  add_role-keeps users count role s draws {t} q h =
      elim (Option-cases (pick_distinct_users users count s.exclude draws)) [
        | inl e ↦ absurd (ground (arith, e, h))
        | inr ((us, left), e) ↦
            let same : add_members uuid base event role us s ≡ t = ground (arith, e, h) in
            subst (λ x. Q x.members) same (add_members-keeps role us s q)
      ]

  pub add_standard_members-keeps :
      (users : List ℕ) (demo : List (ℕ × Role)) (a c t : ℕ) (members : List MemberRow)
      (draws : List ℕ) {s : Staff} {rest : List ℕ}
      → Q members
      → add_standard_members uuid base event users demo a c t members draws ≡ some (s, rest)
      → Q s.members
  unfolding add_standard_members
  add_standard_members-keeps users demo a c t members draws {s} {rest} q h =
      let none_yet : Staff = record { members = members; exclude = []; member_ids = [] } in
      let s0 = add_demo uuid base event demo none_yet in
      elim (Option-cases (add_role uuid base event users (1 + a % 2) admin s0 draws)) [
        | inl e ↦ absurd (ground (arith, e, h))
        | inr ((s1, draws1), e1) ↦
            elim (Option-cases (add_role uuid base event users (2 + c % 4) contributor s1 draws1)) [
              | inl e ↦ absurd (ground (arith, e, e1, h))
              | inr ((s2, draws2), e2) ↦
                  let e3 : add_role uuid base event users (10 + t % 31) attendee s2 draws2
                      ≡ some (s, rest) =
                    ground (arith, e1, e2, h) in
                  let e3 : add_role uuid base event users (10 + t % 31) attendee s2 draws2
                      ≡ some (s, rest) =
                    ground (arith, e1, e2, h) in
                  add_role-keeps users (10 + t % 31) attendee s2 draws2
                    (add_role-keeps users (2 + c % 4) contributor s1 draws1
                      (add_role-keeps users (1 + a % 2) admin s0 draws
                        (add_demo-keeps demo none_yet q) e1)
                      e2)
                    e3
            ]
      ]
