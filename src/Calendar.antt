-- ===== src/Calendar.antt =====
-- Python's `datetime` as the scheduler uses it (api/app/services/scheduled_task.py): dates of the
-- Gregorian calendar, the time of day to the second, the order, the day of the week, and the
-- addition of minutes and of days. The scheduler's zone, Asia/Shanghai, has one offset all year.
pub mod Order
pub mod Weekdays
use pressure_platform.Prelude.{
  ℕ, zero, suc, ◌+◌, ◌-◌, ◌*◌, ◌/◌, ◌%◌, ◌≤◌, Bool, true, false, not, ◌&&◌, ◌||◌, Option, none,
  some, List, [], ◌∷◌, if◌then◌else◌, ltb, leb, ◌==◌, keep, length,
}
use pressure_platform.Prelude.Text.{Text, split, is_empty}

pub record Date : Type 0 where
  pub year : ℕ
  pub month : ℕ
  pub day : ℕ

pub record DateTime : Type 0 where
  pub date : Date
  pub hour : ℕ
  pub minute : ℕ
  pub second : ℕ

abbrev pub is_leap : ℕ → Bool
is_leap y = y % 4 == 0 && (not (y % 100 == 0) || y % 400 == 0)

unfoldable pub days_in_month : ℕ → ℕ → ℕ
days_in_month y m =
    if m == 2
    then (if is_leap y then 29 else 28)
    else if m == 4 || m == 6 || m == 9 || m == 11
    then 30
    else 31

-- The days of a year before its month `m`.
unfoldable pub days_before_month : ℕ → ℕ → ℕ
days_before_month y zero = 0
days_before_month y (suc m) =
    let before = days_before_month y m in if m == 0 then 0 else before + days_in_month y m

-- `date.toordinal`: the first of January of the year 1 is day 1.
unfoldable pub ordinal : Date → ℕ
ordinal d =
    (d.year - 1) * 365
    + (d.year - 1) / 4
    - (d.year - 1) / 100
    + (d.year - 1) / 400
    + days_before_month d.year d.month
    + d.day

-- `datetime.isoweekday`: 1 on a Monday, 7 on a Sunday.
unfoldable pub isoweekday : Date → ℕ
unfolding ordinal
isoweekday d = if ordinal d % 7 == 0 then 7 else ordinal d % 7

unfoldable pub next_day : Date → Date
next_day d =
    if ltb d.day (days_in_month d.year d.month)
    then record d { day = d.day + 1 }
    else if ltb d.month 12
    then record { year = d.year; month = d.month + 1; day = 1 }
    else record { year = d.year + 1; month = 1; day = 1 }

unfoldable pub add_days : ℕ → Date → Date
unfolding next_day
add_days zero d = d
add_days (suc k) d = add_days k (next_day d)

-- `d + timedelta(minutes=1)`
unfoldable pub add_minute : DateTime → DateTime
unfolding next_day
add_minute t =
    if ltb (t.minute + 1) 60
    then record t { minute = t.minute + 1 }
    else if ltb (t.hour + 1) 24
    then record t { hour = t.hour + 1; minute = 0 }
    else record t { date = next_day t.date; hour = 0; minute = 0 }

-- Compare by one field, and by the rest where it is the same.
abbrev pub lex : ℕ → ℕ → Bool → Bool
lex a b rest = if ltb a b then true else if a == b then rest else false

abbrev date_before : Date → Date → Bool → Bool
date_before d e rest = lex d.year e.year (lex d.month e.month (lex d.day e.day rest))

-- `a < b`
unfoldable pub before : DateTime → DateTime → Bool
before a b =
    date_before a.date b.date (lex a.hour b.hour (lex a.minute b.minute (ltb a.second b.second)))

-- A date of the calendar.
pub record IsDate (d : Date) : Type 0 where
  pub year : 1 ≤ d.year
  pub month : (1 ≤ d.month) × (d.month ≤ 12)
  pub day : (1 ≤ d.day) × (d.day ≤ days_in_month d.year d.month)

-- The time of day is one that `datetime` admits.
pub record IsTime (t : DateTime) : Type 0 where
  pub hour : t.hour ≤ 23
  pub minute : t.minute ≤ 59
  pub second : t.second ≤ 59

-- One or two digits, as `strptime` reads a month, a day, an hour, a minute and a second.
abbrev is_digit : ℕ → Bool
is_digit c = leb 48 c && leb c 57

abbrev two_digits : Text → Option ℕ
two_digits (a ∷ []) = if is_digit a then some (a - 48) else none
two_digits (a ∷ b ∷ []) = if is_digit a && is_digit b then some ((a - 48) * 10 + (b - 48)) else none
two_digits _ = none

abbrev four_digits : Text → Option ℕ
four_digits (a ∷ b ∷ c ∷ d ∷ []) =
    if is_digit a && is_digit b && is_digit c && is_digit d
    then some ((a - 48) * 1000 + (b - 48) * 100 + (c - 48) * 10 + (d - 48))
    else none
four_digits _ = none

abbrev checked : DateTime → Option DateTime
checked t =
    if leb 1 t.date.year
      && (leb 1 t.date.month && leb t.date.month 12)
      && (leb 1 t.date.day && leb t.date.day (days_in_month t.date.year t.date.month))
      && (leb t.hour 23 && leb t.minute 59 && leb t.second 59)
    then some t
    else none

infixl 5 ◌>>=◌
abbrev ◌>>=◌ : {A B : Type 0} → Option A → (A → Option B) → Option B
none >>= f = none
some a >>= f = f a

abbrev time_fields : Date → List Text → Option DateTime
time_fields d (h ∷ m ∷ s ∷ []) = do
  hour ← two_digits h
  minute ← two_digits m
  second ← two_digits s
  checked (record { date = d; hour = hour; minute = minute; second = second })
time_fields d _ = none

abbrev day_fields : ℕ → ℕ → List Text → Option DateTime
day_fields year month (d ∷ time ∷ []) = do
  day ← two_digits d
  time_fields (record { year = year; month = month; day = day }) (split 58 time)
day_fields year month _ = none

abbrev date_fields : List Text → Option DateTime
date_fields (y ∷ m ∷ rest ∷ []) = do
  year ← four_digits y
  month ← two_digits m
  day_fields year month (keep (λ part. not (is_empty part)) (split 32 rest))
date_fields _ = none

-- `datetime.strptime(text, "%Y-%m-%d %H:%M:%S")`; `none` stands for the `ValueError`. Digits of
-- other scripts, and white space other than the blanks between date and time, are not read.
unfoldable pub strptime : Text → Option DateTime
unfolding days_in_month
strptime text = date_fields (split 45 text)
