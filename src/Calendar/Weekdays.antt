-- ===== src/Calendar/Weekdays.antt =====
-- The day of the week of the days that follow a date.
use pressure_platform.Prelude.{
  ℕ, zero, suc, ◌+◌, ◌-◌, ◌*◌, ◌/◌, ◌%◌, ◌≤◌, ◌≡◌, refl, ap, arith, if◌then◌else◌, ltb, Bool-cases,
  inl, inr,
}
use pressure_platform.Calendar.{
  Date, IsDate, is_leap, days_in_month, days_before_month, ordinal, isoweekday, next_day, add_days,
}
use pressure_platform.Calendar.Order.{days_in_month-bounds}

pub IsDate-next_day : (d : Date) → IsDate d → IsDate (next_day d)
unfolding next_day
IsDate-next_day d v = elim (Bool-cases (ltb d.day (days_in_month d.year d.month))) [
  | inl e ↦ rw e (record { year = v.year; month = v.month; day = (omega arith, ground arith) })
  | inr e ↦ elim (Bool-cases (ltb d.month 12)) [
    | inl f ↦
        rw (e, f)
          (record {
            year = v.year;
            month = (omega arith, ground arith);
            day = (omega arith, omega (arith, days_in_month-bounds d.year (d.month + 1)));
          })
    | inr f ↦
        rw (e, f)
          (record {
            year = omega arith;
            month = (omega arith, omega arith);
            day = (omega arith, omega (arith, days_in_month-bounds (d.year + 1) 1));
          })
  ]
]

-- The days of a whole year.
days_before_year_end :
    (y : ℕ) → days_before_month y 12 + days_in_month y 12 ≡ (if is_leap y then 366 else 365)
unfolding days_before_month days_in_month
days_before_year_end y = ground arith

days_before_month-first : (y : ℕ) → days_before_month y 1 ≡ 0
unfolding days_before_month
days_before_month-first y = refl

days_before_month-suc :
    (y m : ℕ) → 1 ≤ m → days_before_month y (m + 1) ≡ days_before_month y m + days_in_month y m
unfolding days_before_month
days_before_month-suc y zero h = absurd (omega arith)
days_before_month-suc y (suc m) h = ground arith

-- The days before a year, counted from `p` whole years.
abbrev days_before : ℕ → ℕ
days_before p = p * 365 + p / 4 - p / 100 + p / 400

days_before-suc :
    (p : ℕ) → days_before (suc p) ≡ days_before p + (if is_leap (suc p) then 366 else 365)
days_before-suc p = ground arith

days_before-year :
    (y : ℕ)
    → 1 ≤ y
    → days_before y ≡ days_before (y - 1) + days_before_month y 12 + days_in_month y 12
days_before-year zero h = absurd (omega arith)
days_before-year (suc p) h = omega (arith, days_before-suc p, days_before_year_end (suc p))

-- The day after a date has the next number.
pub ordinal-next_day : (d : Date) → IsDate d → ordinal (next_day d) ≡ ordinal d + 1
unfolding next_day ordinal
ordinal-next_day d v = elim (Bool-cases (ltb d.day (days_in_month d.year d.month))) [
  | inl e ↦ rw e (omega arith)
  | inr e ↦ elim (Bool-cases (ltb d.month 12)) [
    | inl f ↦ rw (e, f) (ground (arith, days_before_month-suc d.year d.month v.month.0))
    | inr f ↦
        let last : d.month ≡ 12 = ground arith in
        let end : days_in_month d.year 12 ≡ d.day = rw (← last) (ground arith) in
        rw (e, f)
          (omega (
            arith,
            days_before-year d.year v.year,
            end,
            ap (days_before_month d.year) last,
            days_before_month-first (d.year + 1),
          ))
  ]
]

pub isoweekday-bounds : (d : Date) → (1 ≤ isoweekday d) × (isoweekday d ≤ 7)
unfolding isoweekday
isoweekday-bounds d = ground arith

pub isoweekday-next_day : (d : Date) → IsDate d → isoweekday (next_day d) ≡ isoweekday d % 7 + 1
unfolding isoweekday
isoweekday-next_day d v = rw (ordinal-next_day d v) (ground arith)

-- The days of the week go round.
pub isoweekday-add_days :
    (k : ℕ) (d : Date) → IsDate d → isoweekday (add_days k d) ≡ (isoweekday d + k - 1) % 7 + 1
unfolding add_days
isoweekday-add_days zero d v = omega (arith, isoweekday-bounds d)
isoweekday-add_days (suc k) d v = omega (
  arith,
  isoweekday-add_days k (next_day d) (IsDate-next_day d v),
  isoweekday-next_day d v,
  isoweekday-bounds d,
)
