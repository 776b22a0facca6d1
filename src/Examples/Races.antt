-- ===== src/Examples/Races.antt =====
-- Two admins of the conference, each of whom is to be demoted at the same time.
use krane_event_management_p.Common.{◌≡◌, refl, true, List, [], ◌∷◌, All, Pairwise}
use krane_event_management_p.Domain.{admin, attendee}
use krane_event_management_p.Store.{MemberRow, fits_int4}
use krane_event_management_p.Members.LastAdmin.{has_admin}
use krane_event_management_p.Members.Races.{
  Write, assign, System, take, write, commit, refuse, grow, taken, written, over, apply, start,
  Reach, here, next,
}
use krane_event_management_p.Members.Races.Safety.{Reach-has_admin}
use krane_event_management_p.Members.Races.Order.{
  commits, starts, alone, AreEffective, IsStarted, Differs,
}
use krane_event_management_p.Members.Races.Serial.{Reach-Serial}
use krane_event_management_p.Examples.Data.{member_row}

abbrev admins : List MemberRow
admins = member_row 21 1 admin ∷ member_row 22 2 admin ∷ []

abbrev first_call : Write
first_call = assign 10 21 1 attendee 60

abbrev second_call : Write
second_call = assign 10 22 1 attendee 61

-- The first one holds the event, writes, and commits; meanwhile a member joins. The second one waits,
-- and then selects nothing.
abbrev held : System
held = taken (start admins) 0 first_call

abbrev wrote_one : System
wrote_one = written held 0 first_call

abbrev after_join : System
after_join = record wrote_one { members = member_row 23 3 attendee ∷ wrote_one.members }

abbrev done : System
done = over after_join 0 first_call (apply first_call admins after_join.members)

abbrev waited : System
waited = taken done 1 second_call

abbrev after_both : System
after_both = over waited 1 second_call waited.members

abbrev both : Reach true admins after_both
unfolding fits_int4
both =
    next
      (next
        (next
          (next
            (next (next here (take 0 first_call refl refl))
              (write 0 first_call (member_row 21 1 admin) refl refl refl))
            (grow (member_row 23 3 attendee) refl))
          (commit 0 first_call admins refl))
        (take 1 second_call refl refl))
      (refuse 1 second_call refl)

Reach-has_admin_example : has_admin 10 after_both.members ≡ true
Reach-has_admin_example = Reach-has_admin 10 admins refl both

-- The member who joined is added first, then the first call takes effect; the second one does not.
Reach-Serial_example :
    (after_both.members ≡ alone (commits both) admins)
    × AreEffective admins (commits both)
    × All (IsStarted (starts both)) (commits both)
    × Pairwise Differs (commits both)
Reach-Serial_example = Reach-Serial admins both ((refl, tt), (tt, tt))
