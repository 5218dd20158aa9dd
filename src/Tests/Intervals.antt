-- ===== src/Tests/Intervals.antt =====
-- The interval algebra, the timeline of a date and the midnights on concrete spans.
use clockr.Base.{
  ℕ, ◌≡◌, refl, true, false, List, [], ◌∷◌, ◌+◌, ◌-◌, ◌*◌, some, none, arith, All, sort_by,
  insert_by,
}
use clockr.Gaps.{
  Interval, span, clip, append_clip, clip_all, starts_before, extend, merge_from, merge, union,
  subtract, subtract_from, misses, gap_before, past, total_hours,
}
use clockr.Gaps.Points.{IsSeparated, covered, covered-union}
use clockr.Gaps.Separated.{IsFilled, union-IsSeparated, union_unique}
use clockr.Gaps.Subtract.{IsOrdered, covered-subtract, subtract-IsOrdered}
use clockr.Gaps.Measure.{total, total_hours-eq-total}
use clockr.Timeline.{compute_day}
use clockr.Timeline.Partition.{compute_day_points, compute_day_hours}
use clockr.Spans.{split_from}
use clockr.Spans.Midnights.{IsRegular, IsSplit, split_from-IsSplit, split_from-eq-none}
use clockr.Tests.Data.{hour, date, utc, skips_midnight}

-- Three spans, of which two overlap.
abbrev spans : List Interval
spans = span 60 90 ∷ span 10 30 ∷ span 20 40 ∷ []

abbrev merged : List Interval
merged = span 10 40 ∷ span 60 90 ∷ []

abbrev window : Interval
window = span 0 100

union-spans : union spans ≡ merged
unfolding union merge starts_before extend sort_by insert_by merge_from
union-spans = refl

subtract-merged : subtract window merged ≡ span 0 10 ∷ span 40 60 ∷ span 90 100 ∷ []
unfolding subtract subtract_from misses gap_before past
subtract-merged = refl

merged-IsSeparated : IsSeparated merged
merged-IsSeparated = (omega arith, (omega arith, tt), (omega arith, tt, tt))

spans-IsFilled : All IsFilled spans
spans-IsFilled = (omega arith, (omega arith, (omega arith, tt)))

covered-union_example : covered (union spans) 35 ≡ true
covered-union_example = covered-union spans 35

union-IsSeparated_example : IsSeparated (union spans)
union-IsSeparated_example = union-IsSeparated spans (omega arith, (omega arith, (omega arith, tt)))

covered-spans : (t : ℕ) → covered merged t ≡ covered spans t
covered-spans t = ground arith

union_unique_example : merged ≡ union spans
union_unique_example =
    union_unique spans merged spans-IsFilled (omega arith, (omega arith, tt)) merged-IsSeparated
      covered-spans

covered-subtract_example : covered (subtract window merged) 50 ≡ true
covered-subtract_example = covered-subtract window merged 50 merged-IsSeparated

subtract-IsOrdered_example : IsOrdered (subtract window merged)
subtract-IsOrdered_example = subtract-IsOrdered window merged (omega arith, (omega arith, tt))

total_hours-eq-total_example : total_hours merged ≡ 60
unfolding total
total_hours-eq-total_example =
    total_hours-eq-total merged (omega arith, (omega arith, tt)) (omega arith)

-- Two windows, one event that reaches into both, and one entry.
abbrev working : List Interval
working = span 0 50 ∷ span 60 100 ∷ []

abbrev events : List Interval
events = span 40 70 ∷ []

abbrev fills : List Interval
fills = span 65 80 ∷ []

working-IsSeparated : IsSeparated working
working-IsSeparated = (omega arith, (omega arith, tt), (omega arith, tt, tt))

compute_day-gaps :
    (compute_day (date 1) "UTC" events fills working).gaps ≡ span 0 40 ∷ span 80 100 ∷ []
unfolding compute_day union merge starts_before extend clip_all clip append_clip subtract
    subtract_from sort_by insert_by merge_from misses gap_before past
compute_day-gaps = refl

compute_day_points_example :
    (covered (compute_day (date 1) "UTC" events fills working).events 68 ≡ true)
    × (covered (compute_day (date 1) "UTC" events fills working).filled 68 ≡ true)
    × (covered (compute_day (date 1) "UTC" events fills working).gaps 68 ≡ false)
compute_day_points_example = compute_day_points (date 1) "UTC" events fills working 68

compute_day_hours_example :
    (compute_day (date 1) "UTC" events fills working).covered_hours
      + (compute_day (date 1) "UTC" events fills working).gap_hours
    ≡ 90
unfolding total
compute_day_hours_example =
    compute_day_hours (date 1) "UTC" events fills working working-IsSeparated (omega arith)

utc-IsRegular : IsRegular utc
utc-IsRegular = record { ahead = λ t. omega arith }

split_from-IsSplit_example :
    (pieces : List Interval) × (split_from 5 utc (26 * hour) (26 * hour - 4) ≡ some pieces)
    × IsSplit utc (26 * hour - 4) (26 * hour) pieces
split_from-IsSplit_example =
    split_from-IsSplit utc 5 (26 * hour) (26 * hour - 4) utc-IsRegular (omega arith)

split_from-eq-none_example : split_from 1000 skips_midnight (26 * hour) (22 * hour) ≡ none
split_from-eq-none_example =
    split_from-eq-none skips_midnight 1000 (26 * hour) (22 * hour) (23 * hour) refl refl
      (omega arith) (omega arith)
