-- ===== src/NextRun.antt =====
-- The next run of a scheduled task (`_compute_next_run` of api/app/services/scheduled_task.py, with
-- the data it reads from api/app/schemas/scheduled_task.py).
pub mod Future
pub mod Weekly
pub mod Computable
use pressure_platform.Prelude.{
  ℕ, zero, suc, ◌+◌, Bool, true, false, ◌&&◌, ◌||◌, not, Option, none, some, List, [], ◌∷◌, ◌++◌,
  map, if◌then◌else◌, ◌==◌, ltb, leb, min, max, any, find, keep, update_where, is_nil, insert_by,
  sort_by,
}
use mathlib.Core.Option
use pressure_platform.Prelude.Text.{Text, codes, text_eq, split, or_else, parse_int}
use pressure_platform.Prelude.Int.{ℤ, pos, negsuc}
use pressure_platform.Store.{
  Db, Audit, UserContext, RunParam, Code, Error, Result, ok, err, and_then, stamp_create,
  stamp_modify,
}
use pressure_platform.Calendar.{
  Date, DateTime, before, next_day, add_days, add_minute, isoweekday, strptime,
}

pub record ScheduleData : Type 0 where
  pub time : Text
  pub days_of_week : Option (List ℤ)
  pub day_of_month : Option ℤ

-- `d.replace(hour=…, minute=…, second=0)`
unfoldable pub replace_time : Date → ℤ → ℤ → Result DateTime
replace_time d (pos h) (pos m) =
    if leb h 23
    then (if leb m 59
        then ok (record { date = d; hour = h; minute = m; second = 0 })
        else err (Error.other (codes "minute must be in 0..59")))
    else err (Error.other (codes "hour must be in 0..23"))
replace_time d (negsuc h) m = err (Error.other (codes "hour must be in 0..23"))
replace_time d (pos h) (negsuc m) =
    if leb h 23
    then err (Error.other (codes "minute must be in 0..59"))
    else err (Error.other (codes "hour must be in 0..23"))

abbrev pair_of : Option ℤ → Option ℤ → ℤ × ℤ
pair_of (some h) (some m) = (h, m)
pair_of _ _ = (pos 0, pos 0)

abbrev two_of : List Text → ℤ × ℤ
two_of (h ∷ m ∷ []) = pair_of (parse_int h) (parse_int m)
two_of _ = (pos 0, pos 0)

-- `hour, minute = map(int, time_str.split(":"))`, and midnight if that raises.
unfoldable pub hour_minute : Text → ℤ × ℤ
hour_minute time = two_of (split 58 (or_else time (codes "00:00")))

abbrev is_day : ℕ → ℤ → Bool
is_day w z = elim z [ pos n ↦ n == w | negsuc n ↦ false ]

-- `w in days`
abbrev pub has_day : List ℤ → ℕ → Bool
has_day days w = any (is_day w) days

-- The candidate of one round of the loop, if it is a match, and the rest of the loop otherwise.
abbrev pub weekly_candidate :
    DateTime → ℕ → Result DateTime → Result (Option DateTime) → Result (Option DateTime)
weekly_candidate now delta (err e) rest = err e
weekly_candidate now delta (ok candidate) rest =
    if before now candidate || ltb 0 delta then ok (some candidate) else rest

-- The loop over the days from now on: `none` when it ends without a match.
unfoldable pub weekly_from : List ℤ → ℤ → ℤ → DateTime → ℕ → ℕ → Date → Result (Option DateTime)
weekly_from days hour minute now zero delta day = ok none
weekly_from days hour minute now (suc rounds) delta day =
    let rest = weekly_from days hour minute now rounds (suc delta) (next_day day) in
    if has_day days (isoweekday day)
    then weekly_candidate now delta (replace_time day hour minute) rest
    else rest

-- `now + timedelta(days=7)`
abbrev pub week_later : DateTime → DateTime
week_later now = record now { date = add_days 7 now.date }

abbrev pub or_week_later : DateTime → Option DateTime → Option DateTime
or_week_later now none = some (week_later now)
or_week_later now (some t) = some t

unfoldable pub next_weekly : List ℤ → ℤ → ℤ → DateTime → Result (Option DateTime)
next_weekly days hour minute now =
    if is_nil days
    then ok (some (add_minute now))
    else and_then (weekly_from days hour minute now 8 0 now.date)
        (λ found. ok (or_week_later now found))

-- `max(1, min(28, day_of_month or 1))`
unfoldable pub clamp_day : Option ℤ → ℕ
clamp_day none = 1
clamp_day (some (pos n)) = max 1 (min 28 n)
clamp_day (some (negsuc n)) = 1

-- The month that follows, on the same day.
unfoldable pub next_month : Date → Date
next_month d =
    if ltb 12 (d.month + 1)
    then record { year = d.year + 1; month = 1; day = d.day }
    else record { year = d.year; month = d.month + 1; day = d.day }

-- A candidate of today, put off where it does not come after now.
abbrev pub put_off : (Date → Date) → DateTime → DateTime → DateTime
put_off later now candidate =
    if before now candidate then candidate else record candidate { date = later candidate.date }

unfoldable pub next_daily : ℤ → ℤ → DateTime → Result (Option DateTime)
next_daily hour minute now =
    and_then (replace_time now.date hour minute)
      (λ candidate. ok (some (put_off next_day now candidate)))

unfoldable pub next_monthly : ℕ → ℤ → ℤ → DateTime → Result (Option DateTime)
next_monthly day hour minute now =
    and_then (replace_time (record now.date { day = day }) hour minute)
      (λ candidate. ok (some (put_off next_month now candidate)))

-- The moment of a task that runs once, or the next minute if the text is no moment.
abbrev pub next_once : Text → DateTime → DateTime
next_once time now = elim (strptime time) [ none ↦ add_minute now | some t ↦ t ]

abbrev pub days_or_none : Option (List ℤ) → List ℤ
days_or_none none = []
days_or_none (some days) = days

-- `_compute_next_run`, with one reading of the clock. `none` is the answer for an unknown type.
unfoldable pub compute_next_run : Text → ScheduleData → DateTime → Result (Option DateTime)
compute_next_run schedule_type sd now =
    let (hour, minute) = hour_minute sd.time in
    if text_eq schedule_type (codes "once")
    then ok (some (next_once sd.time now))
    else if text_eq schedule_type (codes "daily")
    then next_daily hour minute now
    else if text_eq schedule_type (codes "weekly")
    then next_weekly (days_or_none sd.days_of_week) hour minute now
    else if text_eq schedule_type (codes "monthly")
    then next_monthly (clamp_day sd.day_of_month) hour minute now
    else ok none
