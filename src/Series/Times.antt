-- ===== src/Series/Times.antt =====
-- The instants of the occurrences, within the range of time.Duration and beyond it.
use krane_event_management_p.Common.{ℕ, zero, suc, ◌≡◌, ◌≤◌, ◌<◌, ◌+◌, ◌*◌, arith, if◌then◌else◌}
use native.Mathlib.Nat.{le_trans, mod-eq_of_lt}
use krane_event_management_p.Domain.{SeriesInput, daily}
use krane_event_management_p.Series.{
  int64_mod, int64_max, mul64, day, is_weekly, step_of, starts_of, occurrence_input,
}

-- The distance of two occurrences as the recurrence rule means it.
abbrev pub plain_step : SeriesInput → ℕ
plain_step input =
    if is_weekly input.freq then input.interval_count * day * 7 else input.interval_count * day

step_of_lem :
    (input : SeriesInput) → plain_step input < int64_mod → step_of input ≡ plain_step input
step_of_lem input h = ground arith

le-mul_suc : (i p : ℕ) → p ≤ suc i * p
le-mul_suc i p = grind arith

offset_lem :
    (input : SeriesInput) (i : ℕ)
    → i * plain_step input ≤ int64_max
    → mul64 i (step_of input) ≡ i * plain_step input
offset_lem input zero h = omega arith
offset_lem input (suc i) h =
    let small : plain_step input ≤ int64_max = le_trans (le-mul_suc i (plain_step input)) h in
    rw (step_of_lem input (omega arith)) (mod-eq_of_lt (omega arith))

-- Where the offset of occurrence i and the length fit the range of a duration and the first
-- occurrence ends after it starts, occurrence i is the first one moved by i steps.
pub occurrence_times :
    (series : ℕ) (input : SeriesInput) (i : ℕ)
    → i * plain_step input ≤ int64_max
    → input.first_starts_at < input.first_ends_at
    → input.first_ends_at ≤ input.first_starts_at + int64_max
    → ((occurrence_input series input i).starts_at ≡ input.first_starts_at + i * plain_step input)
      × ((occurrence_input series input i).ends_at ≡ input.first_ends_at + i * plain_step input)
occurrence_times series input i h b d =
    let o = offset_lem input i h in (ground (arith, o), ground (arith, o))

-- With a daily frequency and an interval of 106752 to 213503 days the 64-bit duration wraps around:
-- the second occurrence starts before the first.
pub starts_of-wraps :
    (input : SeriesInput)
    → input.freq ≡ daily
    → 106752 ≤ input.interval_count
    → input.interval_count ≤ 213503
    → 0 < input.first_starts_at
    → starts_of input 1 < input.first_starts_at
starts_of-wraps input f h k p = ground arith
