-- ===== src/NextRun/Future.antt =====
-- The next run of a task that runs again lies ahead (`_compute_next_run`,
-- api/app/services/scheduled_task.py).
use pressure_platform.Prelude.{
  ℕ, zero, suc, ◌<◌, ◌≡◌, refl, true, false, Option, none, some, List, arith, ltb, inl, inr,
  Bool-cases, is_nil,
}
use pressure_platform.Prelude.Text.{Text, codes, text_eq}
use pressure_platform.Prelude.Int.{ℤ, pos, negsuc}
use pressure_platform.Store.{Result, ok, err, and_then}
use pressure_platform.Calendar.{Date, DateTime, before, next_day, isoweekday}
use pressure_platform.Calendar.Order.{
  IsEarlier, next_day-IsEarlier, add_days-IsEarlier, IsEarlier-trans, before-IsEarlier,
  before-add_minute,
}
use pressure_platform.NextRun.{
  ScheduleData, replace_time, has_day, weekly_candidate, weekly_from, week_later, or_week_later,
  next_weekly, next_month, put_off, next_daily, next_monthly, compute_next_run,
}

pub replace_time-date : (d : Date) (h m : ℤ) (t : DateTime) → replace_time d h m ≡ ok t → t.date ≡ d
unfolding replace_time
replace_time-date d (pos h) (pos m) t e = ground arith
replace_time-date d (pos h) (negsuc m) t e = ground arith
replace_time-date d (negsuc h) m t e = ground arith

-- A computation whose value, if it has one, is ahead of now.
pub data IsAhead (now : DateTime) : Result (Option DateTime) → Type 0 where
  raised : (e : _) → IsAhead now (err e)
  never : IsAhead now (ok none)
  at : (t : DateTime) → before now t ≡ true → IsAhead now (ok (some t))

-- A candidate put off to a day after now's is ahead.
put_off-IsAhead :
    (later : Date → Date) (now candidate : DateTime)
    → IsEarlier now.date (later candidate.date)
    → IsAhead now (ok (some (put_off later now candidate)))
put_off-IsAhead later now candidate h = elim (Bool-cases (before now candidate)) [
  | inl e ↦ rw e (at candidate e)
  | inr e ↦ rw e (at _ (before-IsEarlier now _ h))
]

put_off-and_then :
    (later : Date → Date) (now : DateTime) (d : Date) (r : Result DateTime)
    → ((t : DateTime) → r ≡ ok t → t.date ≡ d)
    → IsEarlier now.date (later d)
    → IsAhead now (and_then r (λ candidate. ok (some (put_off later now candidate))))
put_off-and_then later now d (err e) date h = raised e
put_off-and_then later now d (ok t) date h = put_off-IsAhead later now t (rw (date t refl) h)

next_daily-IsAhead : (h m : ℤ) (now : DateTime) → IsAhead now (next_daily h m now)
unfolding next_daily
next_daily-IsAhead h m now =
    put_off-and_then next_day now now.date (replace_time now.date h m)
      (replace_time-date now.date h m) (next_day-IsEarlier now.date)

next_month-IsEarlier : (d : Date) (k : ℕ) → IsEarlier d (next_month (record d { day = k }))
unfolding next_month
next_month-IsEarlier d k = record { apart = ground arith }

next_monthly-IsAhead : (day : ℕ) (h m : ℤ) (now : DateTime) → IsAhead now (next_monthly day h m now)
unfolding next_monthly
next_monthly-IsAhead day h m now =
    put_off-and_then next_month now (record now.date { day = day })
      (replace_time (record now.date { day = day }) h m)
      (replace_time-date (record now.date { day = day }) h m) (next_month-IsEarlier now.date day)

-- One round: at the first day the test decides, and any later day is ahead.
weekly_candidate-IsAhead :
    (now : DateTime) (delta : ℕ) (r : Result DateTime) (rest : Result (Option DateTime))
    → ((t : DateTime) → r ≡ ok t → 0 < delta → before now t ≡ true)
    → IsAhead now rest
    → IsAhead now (weekly_candidate now delta r rest)
weekly_candidate-IsAhead now delta (err e) rest h hr = raised e
weekly_candidate-IsAhead now delta (ok t) rest h hr = elim (Bool-cases (before now t)) [
  | inl e ↦ rw e (at t e)
  | inr e ↦ elim (Bool-cases (ltb 0 delta)) [
    | inl f ↦ rw (e, f) (at t (h t refl (ground arith)))
    | inr f ↦ rw (e, f) hr
  ]
]

weekly_from-IsAhead :
    (days : List ℤ) (h m : ℤ) (now : DateTime) (rounds delta : ℕ) (day : Date)
    → (0 < delta → IsEarlier now.date day)
    → (IsEarlier now.date (next_day day))
    → IsAhead now (weekly_from days h m now rounds delta day)
unfolding weekly_from
weekly_from-IsAhead days h m now zero delta day later next = never
weekly_from-IsAhead days h m now (suc rounds) delta day later next =
    let rest =
      weekly_from-IsAhead days h m now rounds (suc delta) (next_day day) (λ _. next)
        (IsEarlier-trans now.date (next_day day) _ next (next_day-IsEarlier (next_day day))) in
    elim (Bool-cases (has_day days (isoweekday day))) [
      | inl e ↦ rw e (
          weekly_candidate-IsAhead now delta (replace_time day h m) _
            (λ t f pos. before-IsEarlier now t (rw (replace_time-date day h m t f) (later pos)))
            rest)
      | inr e ↦ rw e rest
    ]

or_week_later-IsAhead :
    (now : DateTime) (r : Result (Option DateTime))
    → IsAhead now r
    → IsAhead now (and_then r (λ found. ok (or_week_later now found)))
or_week_later-IsAhead now _ (raised e) = raised e
or_week_later-IsAhead now _ never =
    at (week_later now) (before-IsEarlier now _ (add_days-IsEarlier 6 now.date))
or_week_later-IsAhead now _ (at t h) = at t h

next_weekly-IsAhead :
    (days : List ℤ) (h m : ℤ) (now : DateTime) → IsAhead now (next_weekly days h m now)
unfolding next_weekly
next_weekly-IsAhead days h m now = elim (Bool-cases (is_nil days)) [
  | inl e ↦ rw e (at _ (before-add_minute now))
  | inr e ↦ rw e (
      or_week_later-IsAhead now _ (
        weekly_from-IsAhead days h m now 8 0 now.date (λ p. absurd (omega arith))
          (next_day-IsEarlier now.date)))
]

IsAhead-lem :
    (now t : DateTime) (r : Result (Option DateTime))
    → IsAhead now r
    → r ≡ ok (some t)
    → before now t ≡ true
IsAhead-lem now t _ (raised e) h = ground arith
IsAhead-lem now t _ never h = ground arith
IsAhead-lem now t _ (at u k) h = let e : u ≡ t = ground arith in rw (← e) k

-- The next run that is computed for a task which does not run once comes after now.
pub compute_next_run-later :
    (schedule_type : Text) (sd : ScheduleData) (now t : DateTime)
    → text_eq schedule_type (codes "once") ≡ false
    → compute_next_run schedule_type sd now ≡ ok (some t)
    → before now t ≡ true
unfolding compute_next_run
compute_next_run-later schedule_type sd now t again h =
    IsAhead-lem now t (compute_next_run schedule_type sd now) ahead h
  where
    ahead : IsAhead now (compute_next_run schedule_type sd now)
    ahead = rw again (elim (Bool-cases (text_eq schedule_type (codes "daily"))) [
      | inl e ↦ rw e (next_daily-IsAhead _ _ now)
      | inr e ↦ rw e (elim (Bool-cases (text_eq schedule_type (codes "weekly"))) [
        | inl f ↦ rw f (next_weekly-IsAhead _ _ _ now)
        | inr f ↦ rw f (elim (Bool-cases (text_eq schedule_type (codes "monthly"))) [
          | inl g ↦ rw g (next_monthly-IsAhead _ _ _ now)
          | inr g ↦ rw g never
        ])
      ])
    ])
