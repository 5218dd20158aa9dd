-- ===== src/Periods/Contains.antt =====
-- A date lies in its period, and the days of a period of fixed length have the same period.
use mathlib.Core.Path.{subst}
use text.Mathlib.Text.{◌==◌ as str_eq}
use clockr.Base.{
  ℕ, ◌+◌, ◌-◌, ◌%◌, ◌<◌, ◌≤◌, ◌≡◌, refl, true, Option, none, some, arith, String, ap, ◌⊎◌, inl, inr,
  Bool-cases,
}
use clockr.GoTime.{Date, date_le, valid_date}
use clockr.Periods.{
  Calendar, DateRange, offset_of, most_days, fixed_day_period_range, fixed_range, days_in_month,
  half_month_range, month_range, current_period_range,
}

-- What the Gregorian calendar promises: dates are numbered in their order, and the number of a date
-- names that date.
pub record IsCalendar (cal : Calendar) : Type 0 where
  pub back : (d : Date) → valid_date d ≡ true → cal.date_of (cal.day_of d) ≡ d
  pub ordered : (a b : ℕ) → a ≤ b → date_le (cal.date_of a) (cal.date_of b) ≡ true

-- The offset is how far a day lies behind its anchor, up to whole weeks.
offset_week :
    (today anchor : ℕ)
    → today ≤ anchor + most_days
    → anchor ≤ today + most_days
    → offset_of today anchor 7 ≡ ((today + 1400000) - anchor) % 7
unfolding offset_of
offset_week today anchor a b = ground arith

offset_fortnight :
    (today anchor : ℕ)
    → today ≤ anchor + most_days
    → anchor ≤ today + most_days
    → offset_of today anchor 14 ≡ ((today + 1400000) - anchor) % 14
unfolding offset_of
offset_fortnight today anchor a b = ground arith

week_start :
    (today other anchor : ℕ)
    → today ≤ anchor + 100000
    → anchor ≤ today + 100000
    → 7 ≤ today
    → today - ((today + 1400000) - anchor) % 7 ≤ other
    → other < today - ((today + 1400000) - anchor) % 7 + 7
    → other - ((other + 1400000) - anchor) % 7 ≡ today - ((today + 1400000) - anchor) % 7
week_start today other anchor a b c d e = omega arith

fortnight_start :
    (today other anchor : ℕ)
    → today ≤ anchor + 100000
    → anchor ≤ today + 100000
    → 14 ≤ today
    → today - ((today + 1400000) - anchor) % 14 ≤ other
    → other < today - ((today + 1400000) - anchor) % 14 + 14
    → other - ((other + 1400000) - anchor) % 14 ≡ today - ((today + 1400000) - anchor) % 14
fortnight_start today other anchor a b c d e = omega arith

week_same :
    (today other anchor : ℕ)
    → today ≤ anchor + 100000
    → anchor ≤ today + 100000
    → 14 ≤ today
    → (fixed_day_period_range today anchor 7).0 ≤ other
    → other ≤ (fixed_day_period_range today anchor 7).1
    → fixed_day_period_range other anchor 7 ≡ fixed_day_period_range today anchor 7
unfolding fixed_day_period_range
week_same today other anchor a b c d f =
    let lo : today - offset_of today anchor 7 ≤ other = d in
    let hi : other ≤ ((today - offset_of today anchor 7) + 7) - 1 = f in
    let n = offset_week today anchor (omega arith) (omega arith) in
    let r : (today + 1400000 - anchor) % 7 < 7 = omega arith in
    let m = offset_week other anchor (omega (arith, n, r, lo, hi)) (omega (arith, n, r, lo, hi)) in
    let s =
      week_start today other anchor a b (omega arith) (omega (arith, n, lo))
        (omega (arith, n, hi)) in
    let start : other - offset_of other anchor 7 ≡ today - offset_of today anchor 7 =
      omega (arith, n, m, s) in
    ap (λ (k : ℕ). (k, (k + 7) - 1)) start

fortnight_same :
    (today other anchor : ℕ)
    → today ≤ anchor + 100000
    → anchor ≤ today + 100000
    → 14 ≤ today
    → (fixed_day_period_range today anchor 14).0 ≤ other
    → other ≤ (fixed_day_period_range today anchor 14).1
    → fixed_day_period_range other anchor 14 ≡ fixed_day_period_range today anchor 14
unfolding fixed_day_period_range
fortnight_same today other anchor a b c d f =
    let lo : today - offset_of today anchor 14 ≤ other = d in
    let hi : other ≤ ((today - offset_of today anchor 14) + 14) - 1 = f in
    let n = offset_fortnight today anchor (omega arith) (omega arith) in
    let r : (today + 1400000 - anchor) % 14 < 14 = omega arith in
    let m =
      offset_fortnight other anchor (omega (arith, n, r, lo, hi)) (omega (arith, n, r, lo, hi)) in
    let s =
      fortnight_start today other anchor a b (omega arith) (omega (arith, n, lo))
        (omega (arith, n, hi)) in
    let start : other - offset_of other anchor 14 ≡ today - offset_of today anchor 14 =
      omega (arith, n, m, s) in
    ap (λ (k : ℕ). (k, (k + 14) - 1)) start

-- Weekly and bi-weekly: each day of the period of a day has that same period, if that day is the
-- 14th or later and at most 100,000 days from the anchor. So such periods do not overlap.
pub fixed_day_period_range-same :
    (today other anchor len : ℕ)
    → (len ≡ 7) ⊎ (len ≡ 14)
    → today ≤ anchor + 100000
    → anchor ≤ today + 100000
    → 14 ≤ today
    → (fixed_day_period_range today anchor len).0 ≤ other
    → other ≤ (fixed_day_period_range today anchor len).1
    → fixed_day_period_range other anchor len ≡ fixed_day_period_range today anchor len
fixed_day_period_range-same today other anchor len (inl e) a b c d f =
    rw (e) (week_same today other anchor a b c (rw (e) at d) (rw (e) at f))
fixed_day_period_range-same today other anchor len (inr e) a b c d f =
    rw (e) (fortnight_same today other anchor a b c (rw (e) at d) (rw (e) at f))

offset_lt : (today anchor len : ℕ) → (len ≡ 7) ⊎ (len ≡ 14) → offset_of today anchor len < len
unfolding offset_of
offset_lt today anchor len (inl e) = ground arith
offset_lt today anchor len (inr e) = ground arith

fixed_day_contains :
    (today anchor len : ℕ)
    → (len ≡ 7) ⊎ (len ≡ 14)
    → ((fixed_day_period_range today anchor len).0 ≤ today)
      × (today ≤ (fixed_day_period_range today anchor len).1)
unfolding fixed_day_period_range
fixed_day_contains today anchor len h = (omega arith, omega (arith, offset_lt today anchor len h))

-- The date lies in the range.
abbrev pub Holds : Date → DateRange → Type 0
Holds d r = (date_le r.0 d ≡ true) × (date_le d r.1 ≡ true)

range-Holds :
    (cal : Calendar) (today : Date) (anchor len : ℕ)
    → IsCalendar cal
    → valid_date today ≡ true
    → (len ≡ 7) ⊎ (len ≡ 14)
    → Holds today (
      cal.date_of (fixed_day_period_range (cal.day_of today) anchor len).0,
      cal.date_of (fixed_day_period_range (cal.day_of today) anchor len).1,
    )
range-Holds cal today anchor len c v h =
    let n = cal.day_of today in
    let r = fixed_day_period_range n anchor len in
    let k = fixed_day_contains n anchor len h in
    (
      subst (λ d. date_le (cal.date_of r.0) d ≡ true) (c.back today v) (c.ordered r.0 n k.0),
      subst (λ d. date_le d (cal.date_of r.1) ≡ true) (c.back today v) (c.ordered n r.1 k.1),
    )

fixed_range-Holds :
    (cal : Calendar) (today : Date) (anchor : Option Date) (len : ℕ)
    → IsCalendar cal
    → valid_date today ≡ true
    → (len ≡ 7) ⊎ (len ≡ 14)
    → Holds today (fixed_range cal today anchor len)
unfolding fixed_range
fixed_range-Holds cal today none len c v h = range-Holds cal today (cal.day_of today) len c v h
fixed_range-Holds cal today (some anchor) len c v h =
    range-Holds cal today (cal.day_of anchor) len c v h

half_month-Holds : (d : Date) → valid_date d ≡ true → Holds d (half_month_range d)
unfolding half_month_range date_le valid_date days_in_month
half_month-Holds d v = (ground arith, ground arith)

month-Holds : (d : Date) → valid_date d ≡ true → Holds d (month_range d)
unfolding month_range date_le valid_date days_in_month
month-Holds d v = (ground arith, ground arith)

-- Whatever the cadence and the anchor: a valid date lies in the range that is computed for it.
pub current_period_range-Holds :
    (cal : Calendar) (today : Date) (anchor : Option Date) (cadence : String)
    → IsCalendar cal
    → valid_date today ≡ true
    → Holds today (current_period_range cal today anchor cadence)
unfolding current_period_range
current_period_range-Holds cal today anchor cadence c v =
    let week = fixed_range-Holds cal today anchor 7 c v (inl refl) in
    let fortnight = fixed_range-Holds cal today anchor 14 c v (inr refl) in
    elim (Bool-cases (str_eq cadence "weekly")) [
      | inl a ↦ rw (a) week
      | inr a ↦ elim (Bool-cases (str_eq cadence "bi-weekly")) [
        | inl b ↦ rw (a, b) fortnight
        | inr b ↦ elim (Bool-cases (str_eq cadence "semi-monthly")) [
          | inl d ↦ rw (a, b, d) (half_month-Holds today v)
          | inr d ↦ elim (Bool-cases (str_eq cadence "monthly")) [
            | inl e ↦ rw (a, b, d, e) (month-Holds today v)
            | inr e ↦ rw (a, b, d, e) fortnight
          ]
        ]
      ]
    ]
