-- ===== src/Tests/Ranges.antt =====
-- Periods of concrete dates.
use clockr.Base.{◌+◌, ◌-◌, ◌*◌, ◌/◌, ◌%◌, ◌≤◌, ◌≡◌, refl, true, none, arith, inr}
use clockr.GoTime.{Date, date_le, valid_date, days_in, is_leap}
use clockr.Periods.{
  Calendar, fixed_day_period_range, offset_of, current_period_range, half_month_range,
  days_in_month,
}
use clockr.Periods.Contains.{
  IsCalendar, Holds, fixed_day_period_range-same, current_period_range-Holds,
}

-- Day 738000 with an anchor 10 days later.
fortnight-range : fixed_day_period_range 738000 738010 14 ≡ (737996, 738009)
unfolding fixed_day_period_range offset_of
fortnight-range = refl

fixed_day_period_range-same_example :
    fixed_day_period_range 738005 738010 14 ≡ fixed_day_period_range 738000 738010 14
unfolding fixed_day_period_range offset_of
fixed_day_period_range-same_example =
    fixed_day_period_range-same 738000 738005 738010 14 (inr refl) (omega arith) (omega arith)
      (omega arith) (omega arith) (omega arith)

-- A numbering of the dates with 31 numbers for each month.
abbrev plain : Calendar
plain = record {
  day_of = λ d. d.year * 372 + (d.month - 1) * 31 + (d.day - 1);
  date_of = λ n. record { year = n / 372; month = n % 372 / 31 + 1; day = n % 31 + 1 };
}

bounds :
    (d : Date) → valid_date d ≡ true → (1 ≤ d.month) × (d.month ≤ 12) × (1 ≤ d.day) × (d.day ≤ 31)
unfolding valid_date days_in
bounds d v = (ground arith, ground arith, ground arith, ground arith)

same_date_of : (d : Date) → valid_date d ≡ true → plain.date_of (plain.day_of d) ≡ d
same_date_of d v =
    let b = bounds d v in
    let n = plain.day_of d in
    let y : n / 372 ≡ d.year = omega (arith, b.0, b.1, b.2, b.3) in
    let m : n % 372 / 31 + 1 ≡ d.month = omega (arith, b.0, b.1, b.2, b.3) in
    let k : n % 31 + 1 ≡ d.day = omega (arith, b.0, b.1, b.2, b.3) in
    λ i. record { year = y i; month = m i; day = k i }

plain-IsCalendar : IsCalendar plain
unfolding date_le
plain-IsCalendar = record { back = same_date_of; ordered = λ a b h. ground arith }

abbrev today : Date
today = record { year = 2024; month = 2; day = 29 }

half_month-leap : half_month_range today ≡ (record today { day = 16 }, record today { day = 29 })
unfolding half_month_range days_in_month days_in is_leap
half_month-leap = refl

current_period_range-Holds_example : Holds today (current_period_range plain today none "monthly")
unfolding valid_date days_in is_leap
current_period_range-Holds_example =
    current_period_range-Holds plain today none "monthly" plain-IsCalendar refl
