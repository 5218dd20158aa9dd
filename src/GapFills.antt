-- ===== src/GapFills.antt =====
-- internal/service/review_policy.go: how a timed event takes its span away from the entries of the
-- period that overlap it.
pub mod Cover
pub mod Items
use clockr.Base.{
  ℕ, Bool, true, false, not, ◌&&◌, ◌||◌, Option, none, some, List, [], ◌∷◌, ltb, leb, ◌==◌,
  if◌then◌else◌,
}
use clockr.GoTime.{Date, format_stamp}
use clockr.Gaps.{Interval, span}
use clockr.Timeline.{parse_time}
use clockr.Ledger.{M, ◌>>=◌, ◌>>◌, pure, Params, Row, create_time_entry, delete_time_entry}
use clockr.Queries.{SpanEdit, update_time_entry_span}
use clockr.Entries.{duration_minutes}

-- What `splitAround` returns.
pub record Around : Type 0 where
  pub before : Option Interval
  pub overlap : Option Interval
  pub after : Option Interval

abbrev pub around : Option Interval → Option Interval → Option Interval → Around
around b o a = record { before = b; overlap = o; after = a }

unfoldable pub split_around : Interval → Interval → Around
split_around gap event =
    if not (ltb gap.start gap.end)
    then around none none none
    else if ltb gap.end event.start || not (ltb gap.start event.end)
    then around (some gap) none none
    else if not (ltb gap.start event.start)
    then (if not (ltb event.end gap.end)
        then around none (some gap) none
        else around none (some (span gap.start event.end)) (some (span event.end gap.end)))
    else if not (ltb event.end gap.end)
    then around (some (span gap.start event.start)) (some (span event.start gap.end)) none
    else around (some (span gap.start event.start)) (some (span event.start event.end))
        (some (span event.end gap.end))

unfoldable pub time_entry_span_params : Interval → Date → SpanEdit
unfolding duration_minutes format_stamp
time_entry_span_params iv day = record {
  start_instant = format_stamp iv.start;
  end_instant = format_stamp iv.end;
  duration_minutes = duration_minutes iv.start iv.end;
  local_work_date = day;
}

-- The entry for what follows the event.
unfoldable pub trailing_params : ℕ → Row → Interval → Params
unfolding duration_minutes format_stamp
trailing_params period_id fill after = record (fill.fields) {
  period_id = period_id;
  start_instant = format_stamp after.start;
  end_instant = format_stamp after.end;
  duration_minutes = duration_minutes after.start after.end;
}

abbrev pub set_fill : ℕ → Row → Interval → M (Unit {0})
set_fill period_id fill iv = do
  update_time_entry_span (time_entry_span_params iv fill.local_work_date) fill.id period_id
  pure tt

-- What one round does to an entry that the event leaves `before` and `after` of.
unfoldable pub shrink_one : ℕ → Row → Option Interval → Option Interval → M (Unit {0})
unfolding time_entry_span_params trailing_params
shrink_one period_id fill none none = do delete_time_entry fill.id period_id; pure tt
shrink_one period_id fill none (some after) = set_fill period_id fill after
shrink_one period_id fill (some before) none = set_fill period_id fill before
shrink_one period_id fill (some before) (some after) = do
  set_fill period_id fill before
  create_time_entry (trailing_params period_id fill after)
  pure tt

abbrev pub fill_interval : Row → Interval
fill_interval fill = span (parse_time fill.start_instant) (parse_time fill.end_instant)

abbrev overlaps : Option Interval → Bool
overlaps none = false
overlaps (some o) = true

-- Whether a round writes: its instants parse and the event overlaps it.
unfoldable pub is_cut : Interval → Row → Bool
unfolding parse_time split_around
is_cut event fill =
    let gap = fill_interval fill in
    not (gap.start == 0 || gap.end == 0) && overlaps (split_around gap event).overlap

-- The loop of `shrinkGapFillsForEvent`.
unfoldable pub shrink_gap_fills_for_event : ℕ → Interval → List Row → M (Unit {0})
unfolding parse_time split_around shrink_one is_cut
shrink_gap_fills_for_event period_id event [] = pure tt
shrink_gap_fills_for_event period_id event (fill ∷ fills) =
    let parts = split_around (fill_interval fill) event in
    let rest = shrink_gap_fills_for_event period_id event fills in
    if is_cut event fill then (shrink_one period_id fill parts.before parts.after >> rest) else rest
