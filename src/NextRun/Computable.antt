-- ===== src/NextRun/Computable.antt =====
-- Schedules whose next run can be computed at any time (`_compute_next_run`,
-- api/app/services/scheduled_task.py): the clock does not decide whether the computation raises.
use pressure_platform.Prelude.{
  ℕ, zero, suc, ◌≤◌, ◌≡◌, ◌⊎◌, refl, false, Option, none, List, arith, leb, ltb, ◌||◌, inl, inr,
  Bool-cases, is_nil,
}
use pressure_platform.Prelude.Text.{Text, codes, text_eq}
use pressure_platform.Prelude.Int.{ℤ, pos, negsuc}
use pressure_platform.Store.{Error, Result, ok, err, and_then}
use pressure_platform.Calendar.{Date, DateTime, IsDate, before, next_day, isoweekday}
use pressure_platform.Calendar.Weekdays.{isoweekday-bounds}
use pressure_platform.NextRun.{
  ScheduleData, replace_time, has_day, weekly_candidate, weekly_from, or_week_later, next_weekly,
  next_daily, next_monthly, compute_next_run,
}
use pressure_platform.NextRun.Weekly.{weekly_from-finds}

-- A computation that returns.
abbrev pub Returns {ℓ} : {A : Type ℓ} → Result A → Type ℓ
Returns {A = A} r = (a : A) × (r ≡ ok a)

-- The next run of the schedule can be computed on any date.
abbrev pub Computes : Text → ScheduleData → Type 0
Computes schedule_type sd =
    (now : DateTime) → IsDate now.date → Returns (compute_next_run schedule_type sd now)

-- Whether a time of day is admitted does not depend on the date.
abbrev Admits : ℤ → ℤ → Type 0
Admits h m = (d : Date) → Returns (replace_time d h m)

abbrev Refuses : ℤ → ℤ → Type 0
Refuses h m = (d : Date) → (e : Error) × (replace_time d h m ≡ err e)

Admits-or_Refuses : (h m : ℤ) → Admits h m ⊎ Refuses h m
unfolding replace_time
Admits-or_Refuses (negsuc h) m = inr (λ d. (_, refl))
Admits-or_Refuses (pos h) (negsuc m) =
    inr (λ d. elim (Bool-cases (leb h 23)) [ inl e ↦ rw e (_, refl) | inr e ↦ rw e (_, refl) ])
Admits-or_Refuses (pos h) (pos m) = elim (Bool-cases (leb h 23)) [
  | inr e ↦ inr (λ d. rw e (_, refl))
  | inl e ↦ elim (Bool-cases (leb m 59)) [
    | inl f ↦ inl (λ d. rw (e, f) (_, refl))
    | inr f ↦ inr (λ d. rw (e, f) (_, refl))
  ]
]

weekly_candidate-Returns :
    (now : DateTime) (delta : ℕ) (r : Result DateTime) (rest : Result (Option DateTime))
    → Returns r
    → Returns rest
    → Returns (weekly_candidate now delta r rest)
weekly_candidate-Returns now delta (err e) rest (t, h) hr = ground arith
weekly_candidate-Returns now delta (ok c) rest h hr =
    elim (Bool-cases (before now c || ltb 0 delta)) [ inl e ↦ rw e (_, refl) | inr e ↦ rw e hr ]

weekly_from-Returns :
    (days : List ℤ) (h m : ℤ) (now : DateTime) (rounds delta : ℕ) (day : Date)
    → Admits h m
    → Returns (weekly_from days h m now rounds delta day)
unfolding weekly_from
weekly_from-Returns days h m now zero delta day a = (none, refl)
weekly_from-Returns days h m now (suc rounds) delta day a =
    let rest = weekly_from-Returns days h m now rounds (suc delta) (next_day day) a in
    elim (Bool-cases (has_day days (isoweekday day))) [
      | inl e ↦ rw e (weekly_candidate-Returns now delta (replace_time day h m) _ (a day) rest)
      | inr e ↦ rw e rest
    ]

-- With a time that is refused the loop answers with nothing, if it answers.
weekly_from-refused :
    (days : List ℤ) (h m : ℤ) (now : DateTime) (rounds delta : ℕ) (day : Date)
    (found : Option DateTime)
    → Refuses h m
    → weekly_from days h m now rounds delta day ≡ ok found
    → weekly_from days h m now rounds delta day ≡ ok none
unfolding weekly_from
weekly_from-refused days h m now zero delta day found r e = refl
weekly_from-refused days h m now (suc rounds) delta day found r e =
    elim (Bool-cases (has_day days (isoweekday day))) [
      | inl f ↦ let (x, g) = r day in absurd (cc (rw (weekly_from, f, g) at e))
      | inr f ↦ rw f (
          weekly_from-refused days h m now rounds (suc delta) (next_day day) found r
            (rw (weekly_from, f) at e))
    ]

-- No day of the week is asked for.
abbrev HasNone : List ℤ → Type 0
HasNone days = (w : ℕ) → 1 ≤ w → w ≤ 7 → has_day days w ≡ false

weekly_from-HasNone :
    (days : List ℤ) (h m : ℤ) (now : DateTime) (rounds delta : ℕ) (day : Date)
    → HasNone days
    → weekly_from days h m now rounds delta day ≡ ok none
unfolding weekly_from
weekly_from-HasNone days h m now zero delta day free = refl
weekly_from-HasNone days h m now (suc rounds) delta day free =
    let (low, high) = isoweekday-bounds day in
    rw (free (isoweekday day) low high)
      (weekly_from-HasNone days h m now rounds (suc delta) (next_day day) free)

refused-HasNone :
    (days : List ℤ) (h m : ℤ) (now : DateTime) (found : Option DateTime)
    → IsDate now.date
    → Refuses h m
    → weekly_from days h m now 8 0 now.date ≡ ok found
    → HasNone days
refused-HasNone days h m now found v r e w low high = elim (Bool-cases (has_day days w)) [
  | inr f ↦ f
  | inl f ↦ absurd (
      weekly_from-finds days h m now w v low high f
        (weekly_from-refused days h m now 8 0 now.date found r e))
]

and_then-Returns {ℓ κ} :
    {A : Type ℓ} {B : Type κ} (r : Result A) (f : A → B)
    → Returns r
    → Returns (and_then r (λ a. ok (f a)))
and_then-Returns (ok a) f h = (f a, refl)
and_then-Returns (err e) f (a, h) = ground arith

Returns-and_then {ℓ κ} :
    {A : Type ℓ} {B : Type κ} (r : Result A) (f : A → B)
    → Returns (and_then r (λ a. ok (f a)))
    → Returns r
Returns-and_then (ok a) f h = (a, refl)
Returns-and_then (err e) f (b, h) = ground arith

weekly_from-again :
    (days : List ℤ) (h m : ℤ) (now later : DateTime)
    → IsDate now.date
    → Returns (weekly_from days h m now 8 0 now.date)
    → Returns (weekly_from days h m later 8 0 later.date)
weekly_from-again days h m now later v (found, e) = elim (Admits-or_Refuses h m) [
  | inl a ↦ weekly_from-Returns days h m later 8 0 later.date a
  | inr r ↦ (
    none,
    weekly_from-HasNone days h m later 8 0 later.date (refused-HasNone days h m now found v r e),
  )
]

next_weekly-again :
    (days : List ℤ) (h m : ℤ) (now later : DateTime)
    → IsDate now.date
    → Returns (next_weekly days h m now)
    → Returns (next_weekly days h m later)
unfolding next_weekly
next_weekly-again days h m now later v e = elim (Bool-cases (is_nil days)) [
  | inl f ↦ rw f (_, refl)
  | inr f ↦ rw f (
      and_then-Returns (weekly_from days h m later 8 0 later.date) (or_week_later later) (
        weekly_from-again days h m now later v (
          Returns-and_then (weekly_from days h m now 8 0 now.date) (or_week_later now)
            (rw (next_weekly, f) at e))))
]

-- A time of day that is admitted on one date is admitted on every date.
replace_time-again :
    (d e : Date) (h m : ℤ) → Returns (replace_time d h m) → Returns (replace_time e h m)
replace_time-again d e h m (t, r) = elim (Admits-or_Refuses h m) [
  | inl a ↦ a e
  | inr f ↦ let (x, g) = f d in ground arith
]

next_daily-again :
    (h m : ℤ) (now later : DateTime) → Returns (next_daily h m now) → Returns (next_daily h m later)
unfolding next_daily
next_daily-again h m now later e =
    and_then-Returns (replace_time later.date h m) _ (
      replace_time-again now.date later.date h m (Returns-and_then (replace_time now.date h m) _ e))

next_monthly-again :
    (day : ℕ) (h m : ℤ) (now later : DateTime)
    → Returns (next_monthly day h m now)
    → Returns (next_monthly day h m later)
unfolding next_monthly
next_monthly-again day h m now later e =
    and_then-Returns (replace_time (record later.date { day = day }) h m) _ (
      replace_time-again (record now.date { day = day }) (record later.date { day = day }) h m
        (Returns-and_then (replace_time (record now.date { day = day }) h m) _ e))

-- A schedule whose next run is computed without an exception on one date is computed without one on
-- every date.
pub compute_next_run-Computes :
    (schedule_type : Text) (sd : ScheduleData) (now : DateTime) (next : Option DateTime)
    → IsDate now.date
    → compute_next_run schedule_type sd now ≡ ok next
    → Computes schedule_type sd
unfolding compute_next_run
compute_next_run-Computes schedule_type sd now next v e later w =
    let before : Returns (compute_next_run schedule_type sd now) = (next, e) in
    elim (Bool-cases (text_eq schedule_type (codes "once"))) [
      | inl f ↦ rw (compute_next_run, f) (_, refl)
      | inr f ↦ elim (Bool-cases (text_eq schedule_type (codes "daily"))) [
        | inl g ↦
            rw (compute_next_run, f, g)
              (next_daily-again _ _ now later (rw (compute_next_run, f, g) at before))
        | inr g ↦ elim (Bool-cases (text_eq schedule_type (codes "weekly"))) [
          | inl k ↦
              rw (compute_next_run, f, g, k)
                (next_weekly-again _ _ _ now later v (rw (compute_next_run, f, g, k) at before))
          | inr k ↦ elim (Bool-cases (text_eq schedule_type (codes "monthly"))) [
            | inl j ↦
                rw (compute_next_run, f, g, k, j)
                  (next_monthly-again _ _ _ now later (rw (compute_next_run, f, g, k, j) at before))
            | inr j ↦ rw (compute_next_run, f, g, k, j) (none, refl)
          ]
        ]
      ]
    ]
