-- ===== src/Periods.antt =====
-- internal/service/period.go: which period a date falls into.
--
-- A day is the number of days since 1 January of the year 1. What time.Parse and AddDate say of the
-- Gregorian calendar is a parameter, a record Calendar.
pub mod Contains
use text.Mathlib.Text.{◌==◌ as str_eq}
use clockr.Base.{
  ℕ, ◌+◌, ◌-◌, ◌%◌, min, String, Bool, true, false, not, ◌&&◌, Option, none, some, List, [], ◌∷◌,
  leb, ◌==◌, if◌then◌else◌,
}
use clockr.GoTime.{Date, date_le, days_in, valid_date}

pub record Calendar : Type 0 where
  pub day_of : Date → ℕ
  pub date_of : ℕ → Date

-- What the functions read of a Period; a text of an anchor that does not parse is none.
pub record PeriodRow : Type 0 where
  pub start_date : Date
  pub end_date : Date
  pub anchor_date : Option Date

abbrev pub DateRange : Type 0
DateRange = Date × Date

-- The most days that a Duration can hold.
abbrev pub most_days : ℕ
most_days = 106751

-- int(today.Sub(anchor).Hours() / 24) % length, and the length added to it if it is negative.
unfoldable pub offset_of : ℕ → ℕ → ℕ → ℕ
offset_of today anchor len =
    if leb anchor today
    then min (today - anchor) most_days % len
    else let r = min (anchor - today) most_days % len in if r == 0 then 0 else len - r

unfoldable pub fixed_day_period_range : ℕ → ℕ → ℕ → ℕ × ℕ
unfolding offset_of
fixed_day_period_range today anchor len =
    let start = today - offset_of today anchor len in (start, (start + len) - 1)

unfoldable pub period_contains : PeriodRow → Date → Bool
unfolding date_le
period_contains p day = date_le p.start_date day && date_le day p.end_date

unfoldable pub days_in_month : Date → ℕ
unfolding days_in
days_in_month d = days_in d.year d.month

-- The first half of a month, the second, and the whole month.
unfoldable pub half_month_range : Date → DateRange
unfolding days_in_month
half_month_range d =
    if leb d.day 15
    then (record d { day = 1 }, record d { day = 15 })
    else (record d { day = 16 }, record d { day = days_in_month d })

unfoldable pub month_range : Date → DateRange
unfolding days_in_month
month_range d = (record d { day = 1 }, record d { day = days_in_month d })

module _ (cal : Calendar) where
  -- The dates of a range of days; an anchor that does not parse is the date itself.
  unfoldable pub fixed_range : Date → Option Date → ℕ → DateRange
  unfolding fixed_day_period_range
  fixed_range today none len =
      let r = fixed_day_period_range (cal.day_of today) (cal.day_of today) len in
      (cal.date_of r.0, cal.date_of r.1)
  fixed_range today (some anchor) len =
      let r = fixed_day_period_range (cal.day_of today) (cal.day_of anchor) len in
      (cal.date_of r.0, cal.date_of r.1)

  unfoldable pub current_period_range : Date → Option Date → String → DateRange
  unfolding fixed_range half_month_range month_range
  current_period_range today anchor cadence =
      if str_eq cadence "weekly"
      then fixed_range today anchor 7
      else if str_eq cadence "bi-weekly"
      then fixed_range today anchor 14
      else if str_eq cadence "semi-monthly"
      then half_month_range today
      else if str_eq cadence "monthly"
      then month_range today
      else fixed_range today anchor 14

-- periodAnchor, of the periods that ListPeriods returns; an empty anchor is none too.
unfoldable pub period_anchor : List PeriodRow → Date → Option Date
period_anchor [] today = some today
period_anchor (p ∷ ps) today = p.anchor_date
