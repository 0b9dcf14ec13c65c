-- ===== src/NextRun/Weekly.antt =====
-- The day of the week of a weekly task's next run (`_compute_next_run`,
-- api/app/services/scheduled_task.py).
use pressure_platform.Prelude.{
  ℕ, zero, suc, ◌+◌, ◌-◌, ◌≤◌, ◌<◌, ◌≡◌, ◌≢◌, ◌⊎◌, refl, true, false, Option, none, some, List, [],
  ◌∷◌, arith, if◌then◌else◌, ltb, inl, inr, Bool-cases, is_nil,
}
use pressure_platform.Prelude.Text.{codes}
use pressure_platform.Prelude.Int.{ℤ}
use pressure_platform.Store.{Result, ok, err, and_then}
use pressure_platform.Calendar.{Date, DateTime, IsDate, next_day, add_days, isoweekday}
use pressure_platform.Calendar.Weekdays.{isoweekday-bounds, isoweekday-add_days}
use pressure_platform.NextRun.{
  ScheduleData, replace_time, hour_minute, has_day, weekly_candidate, weekly_from, or_week_later,
  next_weekly, days_or_none, compute_next_run,
}
use pressure_platform.NextRun.Future.{replace_time-date}

-- A round that answers with a moment answers with its own candidate or with the rest's.
weekly_candidate-some :
    (now : DateTime) (delta : ℕ) (r : Result DateTime) (rest : Result (Option DateTime))
    (t : DateTime)
    → weekly_candidate now delta r rest ≡ ok (some t)
    → (r ≡ ok t) ⊎ (rest ≡ ok (some t))
weekly_candidate-some now delta (err e) rest t h = ground arith
weekly_candidate-some now delta (ok c) rest t h = ground arith

-- A round after the first that answers with nothing never had a match.
weekly_candidate-none :
    (now : DateTime) (delta : ℕ) (r : Result DateTime) (rest : Result (Option DateTime))
    → weekly_candidate now delta r rest ≡ ok none
    → (delta ≡ 0) × (rest ≡ ok none)
weekly_candidate-none now delta (err e) rest h = ground arith
weekly_candidate-none now delta (ok c) rest h = ground arith

weekly_from-matches :
    (days : List ℤ) (h m : ℤ) (now : DateTime) (rounds delta : ℕ) (day : Date) (t : DateTime)
    → weekly_from days h m now rounds delta day ≡ ok (some t)
    → has_day days (isoweekday t.date) ≡ true
unfolding weekly_from
weekly_from-matches days h m now zero delta day t e = ground arith
weekly_from-matches days h m now (suc rounds) delta day t e =
    let rest = weekly_from-matches days h m now rounds (suc delta) (next_day day) t in
    elim (Bool-cases (has_day days (isoweekday day))) [
      | inr f ↦ rest (rw (weekly_from, f) at e)
      | inl f ↦
          elim (weekly_candidate-some now delta (replace_time day h m) _ t
            (rw (weekly_from, f) at e)) [
              | inl c ↦ rw (replace_time-date day h m t c) f
              | inr c ↦ rest c
            ]
    ]

weekly_from-misses :
    (days : List ℤ) (h m : ℤ) (now : DateTime) (rounds delta : ℕ) (day : Date) (k : ℕ)
    → weekly_from days h m now rounds delta day ≡ ok none
    → k < rounds
    → 0 < delta + k
    → has_day days (isoweekday (add_days k day)) ≡ false
unfolding weekly_from add_days
weekly_from-misses days h m now zero delta day k e lt pos = absurd (omega arith)
weekly_from-misses days h m now (suc rounds) delta day zero e lt pos =
    elim (Bool-cases (has_day days (isoweekday day))) [
      | inr f ↦ f
      | inl f ↦
          let (z, _) =
            weekly_candidate-none now delta (replace_time day h m) _ (rw (weekly_from, f) at e) in
          absurd (omega arith)
    ]
weekly_from-misses days h m now (suc rounds) delta day (suc k) e lt pos =
    let rest = weekly_from-misses days h m now rounds (suc delta) (next_day day) k in
    elim (Bool-cases (has_day days (isoweekday day))) [
      | inr f ↦ rest (rw (weekly_from, f) at e) (omega arith) (omega arith)
      | inl f ↦
          let (_, r) =
            weekly_candidate-none now delta (replace_time day h m) _ (rw (weekly_from, f) at e) in
          rest r (omega arith) (omega arith)
    ]

-- How many days from one day of the week to another, at least one.
abbrev until : ℕ → ℕ → ℕ
until w v = if ltb w v then v - w else v + 7 - w

until-add_days :
    (d : Date) (w : ℕ)
    → IsDate d
    → 1 ≤ w
    → w ≤ 7
    → isoweekday (add_days (until (isoweekday d) w) d) ≡ w
until-add_days d w v low high =
    ground (arith, isoweekday-add_days (until (isoweekday d) w) d v, isoweekday-bounds d)

-- The loop finds a match where a day of the week is asked for.
pub weekly_from-finds :
    (days : List ℤ) (h m : ℤ) (now : DateTime) (w : ℕ)
    → IsDate now.date
    → 1 ≤ w
    → w ≤ 7
    → has_day days w ≡ true
    → weekly_from days h m now 8 0 now.date ≢ ok none
weekly_from-finds days h m now w v low high e missed =
    let k = until (isoweekday now.date) w in
    let miss =
      weekly_from-misses days h m now 8 0 now.date k missed
        (ground (arith, isoweekday-bounds now.date)) (ground (arith, isoweekday-bounds now.date)) in
    ground (arith, until-add_days now.date w v low high, miss)

has_day-nil : (days : List ℤ) (w : ℕ) → has_day days w ≡ true → is_nil days ≡ false
has_day-nil [] w h = ground arith
has_day-nil (z ∷ days) w h = refl

found_or :
    (days : List ℤ) (now t : DateTime) (r : Result (Option DateTime))
    → r ≢ ok none
    → ((u : DateTime) → r ≡ ok (some u) → has_day days (isoweekday u.date) ≡ true)
    → and_then r (λ found. ok (or_week_later now found)) ≡ ok (some t)
    → has_day days (isoweekday t.date) ≡ true
found_or days now t (err e) found match h = ground arith
found_or days now t (ok none) found match h = absurd (found refl)
found_or days now t (ok (some u)) found match h = match t (ground arith)

-- A weekly task that names a day of the week runs next on a day of the week that it names.
pub compute_next_run-has_day :
    (sd : ScheduleData) (now t : DateTime) (w : ℕ)
    → IsDate now.date
    → 1 ≤ w
    → w ≤ 7
    → has_day (days_or_none sd.days_of_week) w ≡ true
    → compute_next_run (codes "weekly") sd now ≡ ok (some t)
    → has_day (days_or_none sd.days_of_week) (isoweekday t.date) ≡ true
unfolding compute_next_run next_weekly
compute_next_run-has_day sd now t w v low high e h =
    let days = days_or_none sd.days_of_week in
    let (hour, minute) = hour_minute sd.time in
    found_or days now t (weekly_from days hour minute now 8 0 now.date)
      (weekly_from-finds days hour minute now w v low high e)
      (λ u. weekly_from-matches days hour minute now 8 0 now.date u)
      (rw (compute_next_run, next_weekly, has_day-nil days w e) at h)
