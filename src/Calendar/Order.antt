-- ===== src/Calendar/Order.antt =====
-- The order of moments (`datetime.__lt__`) against the arithmetic of days.
use pressure_platform.Prelude.{
  ℕ, zero, suc, ◌+◌, ◌≤◌, ◌<◌, ◌≡◌, true, arith, ltb, inl, inr, Bool-cases,
}
use pressure_platform.Calendar.{
  Date, DateTime, days_in_month, next_day, add_days, add_minute, before, lex,
}

-- The date of a moment comes first.
pub record IsEarlier (d e : Date) : Type 0 where
  pub apart : lex d.year e.year (lex d.month e.month (ltb d.day e.day)) ≡ true

pub days_in_month-bounds : (y m : ℕ) → (28 ≤ days_in_month y m) × (days_in_month y m ≤ 31)
unfolding days_in_month
days_in_month-bounds y m = ground arith

pub next_day-IsEarlier : (d : Date) → IsEarlier d (next_day d)
unfolding next_day
next_day-IsEarlier d = record { apart = ground arith }

pub IsEarlier-trans : (a b c : Date) → IsEarlier a b → IsEarlier b c → IsEarlier a c
IsEarlier-trans a b c h k = record { apart = ground (arith, h.apart, k.apart) }

pub add_days-IsEarlier : (k : ℕ) (d : Date) → IsEarlier d (add_days (suc k) d)
unfolding add_days
add_days-IsEarlier zero d = next_day-IsEarlier d
add_days-IsEarlier (suc k) d =
    IsEarlier-trans d (next_day d) _ (next_day-IsEarlier d) (add_days-IsEarlier k (next_day d))

-- On a later day any time of day is later.
pub before-IsEarlier : (a b : DateTime) → IsEarlier a.date b.date → before a b ≡ true
unfolding before
before-IsEarlier a b h = ground (arith, h.apart)

-- On one day the time of day decides.
before-hour :
    (d : Date) (h k m n s r : ℕ)
    → h < k
    → before
        (record { date = d; hour = h; minute = m; second = s })
        (record { date = d; hour = k; minute = n; second = r })
      ≡ true
unfolding before
before-hour d h k m n s r e = ground arith

before-minute :
    (d : Date) (h m n s r : ℕ)
    → m < n
    → before
        (record { date = d; hour = h; minute = m; second = s })
        (record { date = d; hour = h; minute = n; second = r })
      ≡ true
unfolding before
before-minute d h m n s r e = ground arith

pub before-add_minute : (t : DateTime) → before t (add_minute t) ≡ true
unfolding add_minute
before-add_minute t = elim (Bool-cases (ltb (t.minute + 1) 60)) [
  | inl e ↦ rw e (before-minute t.date t.hour t.minute _ t.second _ (omega arith))
  | inr e ↦ elim (Bool-cases (ltb (t.hour + 1) 24)) [
    | inl f ↦ rw (e, f) (before-hour t.date t.hour _ t.minute _ t.second _ (omega arith))
    | inr f ↦ rw (e, f) (before-IsEarlier t _ (next_day-IsEarlier t.date))
  ]
]
