-- ===== src/Utils/LocalTime.antt =====
-- internal/utils/localtime.go. Go's time package is a parameter: of a loaded zone, what
-- time.ParseInLocation makes of a text in the layout 2006-01-02T15:04:05, and the text of an instant in
-- that layout.
use text.Mathlib.Text.{◌==◌ as str_eq}
use text.Mathlib.TextEquality.{eq_iff}
use krane_event_management_p.Common.{ℕ, String, ◌≡◌, Option, none, some, if◌then◌else◌, arith}

pub record Location : Type 0 where
  pub parse_in : String → Option ℕ
  pub format_in : ℕ → String

pub data TimeError : Type 0 where
  nonexistent malformed : TimeError

pub data Resolved : Type 0 where
  at_instant : ℕ → Resolved
  unresolved : TimeError → Resolved

-- ResolveLocalTime
unfoldable pub resolve_local_time : Location → String → Resolved
resolve_local_time loc local = elim (loc.parse_in local) [
  | none ↦ unresolved malformed
  | some t ↦ if str_eq (loc.format_in t) local then at_instant t else unresolved nonexistent
]

abbrev pub instant_of : Resolved → ℕ
instant_of (at_instant t) = t
instant_of (unresolved e) = 0

-- A local time that is accepted as the instant `t` is how the zone writes `t`.
pub resolve_local_time-format :
    (loc : Location) (local : String) (t : ℕ)
    → resolve_local_time loc local ≡ at_instant t
    → loc.format_in t ≡ local
unfolding resolve_local_time
resolve_local_time-format loc local t h = ground (arith, eq_iff (loc.format_in t) local)
