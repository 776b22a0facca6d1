-- ===== src/Examples/Dataset.antt =====
-- A dataset with one bulk event, and the checks of the seeder on small lists.
use text.Mathlib.Text.{◌==◌ as str_eq}
use krane_event_management_p.Common.{
  ℕ, ◌≡◌, ◌*◌, refl, Option, none, some, List, [], ◌∷◌, length, ◌-◌, arith, if◌then◌else◌, ◌+◌,
  ◌==◌,
}
use krane_event_management_p.Seeding.{minute}
use krane_event_management_p.Seeding.Roster.{pick_distinct_users}
use krane_event_management_p.Seeding.Roster.Draws.{AllDistinct, IsPick, pick_distinct_users-ends}
use krane_event_management_p.Utils.LocalTime.{Location, resolve_local_time}
use krane_event_management_p.Seeding.Generator.{Config, Draws, Ids, SeedUser, Generator}
use krane_event_management_p.Seeding.Generator.Events.{Fixture, generate_dataset}
use krane_event_management_p.Seeding.Generator.Keeps.{IsConsistent}
use krane_event_management_p.Seeding.Generator.Bookings.{HasInstants}
use krane_event_management_p.Seeding.Generator.Dataset.{ArePermuted, generate_dataset-IsConsistent}

abbrev ids : Ids
ids = record { user = λ j. j; event = λ j. j; room = λ j. j; member = λ j. j }

abbrev cfg : Config
cfg = record {
  user_count = 4;
  bulk_event_count = 1;
  invitations_per_event = 2;
  min_rooms_per_event = 2;
  max_rooms_per_event = 2;
  min_sessions_per_event = 3;
  max_sessions_per_event = 3;
  large_event_room_count = 1;
  large_event_session_count = 1;
}

-- The draws of an event that starts at an hour.
abbrev draws_at : ℕ → Draws
draws_at hours = record {
  starts_at = hours * (60 * minute);
  ends_at = (hours + 24) * (60 * minute);
  rooms = 0;
  sessions = 0;
  admins = 0;
  contributors = 0;
  attendees = 0;
  picks = 0 ∷ 1 ∷ 1 ∷ 2 ∷ 3 ∷ [];
  lengths = λ room j. j;
  percent = λ room j. 50;
  shuffle = λ room j us. us;
  order = 2 ∷ 0 ∷ 1 ∷ 3 ∷ [];
  account_roles = λ n. 90;
  external_roles = λ n. 10;
}

abbrev zone : Location
zone = record {
  parse_in = λ s. if str_eq s "01:30" then some (1000 * minute) else some (1060 * minute);
  format_in = λ t. if t == 1000 * minute then "01:30" else "03:30";
}

abbrev fixture : Fixture
fixture = record { loc = zone; local_start = "01:30"; local_end = "03:30" }

fixture_instants : HasInstants fixture
unfolding resolve_local_time
fixture_instants = record {
  starts = 1000 * minute;
  ends = 1060 * minute;
  at_start = refl;
  at_end = refl;
  forward = omega arith;
}

abbrev one_fewer : ℕ → ℕ
one_fewer n = n - 1

abbrev generated : Option (List SeedUser × Generator)
generated =
    generate_dataset ids 0 one_fewer cfg (λ us. us) (λ n. draws_at 100) (draws_at 200)
      (draws_at 300) (draws_at 400) (draws_at 500) fixture fixture

abbrev value_of : Option (List SeedUser × Generator) → List SeedUser × Generator
value_of (some made) = made
value_of none = (
  [],
  record {
    event_seq = 0;
    events = [];
    rooms = [];
    placement = record { sessions = []; bookings = [] };
    members = [];
    invitations = [];
  },
)

order_distinct : AllDistinct (2 ∷ 0 ∷ 1 ∷ 3 ∷ [])
order_distinct = ((refl, (refl, (refl, tt))), ((refl, (refl, tt)), ((refl, tt), (tt, tt))))

permuted :
    ArePermuted (λ n. draws_at 100) (draws_at 200) (draws_at 300) (draws_at 400) (draws_at 500)
permuted = record {
  bulk = λ n. order_distinct;
  spring_forward = order_distinct;
  fall_back = order_distinct;
  large = order_distinct;
  demo = order_distinct;
}

generate_dataset-IsConsistent_example :
    IsConsistent ids cfg (value_of generated).1 × (length (value_of generated).1.events ≡ 5)
unfolding generate_dataset
generate_dataset-IsConsistent_example =
    generate_dataset-IsConsistent ids 0 one_fewer cfg (λ j k e. e) (λ j k e. e) (λ j k e. e)
      (omega arith) (omega arith) (λ us. us) (λ n. draws_at 100) (draws_at 200) (draws_at 300)
      (draws_at 400) (draws_at 500) fixture fixture permuted fixture_instants fixture_instants
      {users = (value_of generated).0} {g = (value_of generated).1} refl

abbrev three : List ℕ
three = 1 ∷ 2 ∷ 3 ∷ []

-- Five users are asked for, and two are not excluded.
pick_distinct_users-ends_example :
    (us rest : List ℕ) × (pick_distinct_users three 5 (2 ∷ []) (2 ∷ 1 ∷ 1 ∷ 3 ∷ [])
      ≡ some (us, rest))
    × IsPick (2 ∷ []) [] 2 us
pick_distinct_users-ends_example =
    pick_distinct_users-ends three (2 ∷ []) (2 ∷ 1 ∷ 1 ∷ 3 ∷ [])
      ((refl, (refl, tt)), ((refl, tt), (tt, tt))) (refl, (refl, (refl, tt))) 5
