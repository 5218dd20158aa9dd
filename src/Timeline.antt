-- ===== src/Timeline.antt =====
-- internal/service/gaps.go: `ComputeGaps`, the timeline of each date of a period.
pub mod Partition
use text.Mathlib.Text.{◌==◌ as str_eq}
use clockr.Base.{
  ℕ, ◌+◌, ◌*◌, String, Bool, true, false, ◌||◌, Option, none, some, List, [], ◌∷◌, ◌++◌, Result, ok,
  err, failure, leb, ◌==◌, if◌then◌else◌,
}
use clockr.GoTime.{Stamp, Date, valid_date, Location, zero_time, parse_stamp}
use clockr.Gaps.{Interval, span, clip_all, union, subtract, total_hours}
use clockr.Zones.{active_segment, load_loc}
use clockr.Ledger.{TzSegment}
use clockr.Entries.{TimeEntry}

-- What the timeline reads of an Event.
pub record Event : Type 0 where
  pub all_day : Bool
  pub status : String
  pub start : Option ℕ
  pub end : Option ℕ

-- expected_time.go; the service stores no negative minutes.
pub record WorkingWindow : Type 0 where
  pub start_minutes : ℕ
  pub end_minutes : ℕ

pub record ExpectedTime : Type 0 where
  pub date : Date
  pub expected_minutes : ℕ
  pub windows : List WorkingWindow
  pub timezone : String

-- Hours are kept as the Duration that they are computed from.
pub record DayTimeline : Type 0 where
  pub date : Date
  pub tz : String
  pub window_start : ℕ
  pub window_end : ℕ
  pub events : List Interval
  pub filled : List Interval
  pub gaps : List Interval
  pub covered_hours : ℕ
  pub gap_hours : ℕ

-- The span of a timed event that was not declined.
unfoldable pub event_span : Bool → Bool → Option ℕ → Option ℕ → List Interval
event_span false false (some s) (some e) = span s e ∷ []
event_span _ _ _ _ = []

unfoldable pub event_spans : List Event → List Interval
unfolding event_span
event_spans [] = []
event_spans (e ∷ es) =
    event_span e.all_day (str_eq e.status "declined") e.start e.end ++ event_spans es

-- `parseTime`: the zero Time for a text that does not parse.
unfoldable pub parse_time : Stamp → ℕ
unfolding parse_stamp
parse_time s = elim (parse_stamp s) [ none ↦ zero_time | some t ↦ t ]

unfoldable pub fill_spans : List TimeEntry → List Interval
unfolding parse_time
fill_spans [] = []
fill_spans (f ∷ fs) = span (parse_time f.start) (parse_time f.end) ∷ fill_spans fs

-- The loop over the windows of a date; windows that end before they start are passed over.
unfoldable pub raw_windows : Location → Date → List WorkingWindow → List Interval
raw_windows loc date [] = []
raw_windows loc date (w ∷ ws) =
    let rest = raw_windows loc date ws in
    if leb w.end_minutes w.start_minutes
    then rest
    else span (loc.date_at date w.start_minutes) (loc.date_at date w.end_minutes) ∷ rest

abbrev nine_o_clock : ℕ
nine_o_clock = 9 * 60

-- One window from 09:00 on where minutes are expected and no windows are given.
unfoldable pub default_windows : ℕ → List WorkingWindow → List WorkingWindow
default_windows expected [] =
    record { start_minutes = nine_o_clock; end_minutes = nine_o_clock + expected } ∷ []
default_windows expected (w ∷ ws) = w ∷ ws

module _ (zones : String → Option Location) where
  unfoldable pub working_windows_utc : ExpectedTime → Result (List Interval)
  unfolding default_windows load_loc valid_date raw_windows
  working_windows_utc et =
      if et.expected_minutes == 0
      then ok []
      else if str_eq et.timezone ""
      then err failure
      else elim (load_loc zones et.timezone) [
        | err e ↦ err e
        | ok loc ↦
            if valid_date et.date
            then ok
                (union (raw_windows loc et.date (default_windows et.expected_minutes et.windows)))
            else err failure
      ]

-- The spans clipped to each window in turn.
unfoldable pub clip_windows : List Interval → List Interval → List Interval
clip_windows spans [] = []
clip_windows spans (win ∷ wins) = clip_all spans win ++ clip_windows spans wins

unfoldable pub gaps_of : List Interval → List Interval → List Interval
gaps_of [] occupied = []
gaps_of (win ∷ wins) occupied = subtract win occupied ++ gaps_of wins occupied

unfoldable pub last_end : Interval → List Interval → ℕ
last_end win [] = win.end
last_end win (next ∷ wins) = last_end next wins

-- The timeline of one date from its working windows.
unfoldable pub compute_day :
    Date → String → List Interval → List Interval → List Interval → DayTimeline
unfolding clip_windows gaps_of last_end
compute_day date tz events fills [] = record {
  date = date;
  tz = tz;
  window_start = zero_time;
  window_end = zero_time;
  events = [];
  filled = [];
  gaps = [];
  covered_hours = 0;
  gap_hours = 0;
}
compute_day date tz events fills (win ∷ wins) =
    let day_events = clip_windows events (win ∷ wins) in
    let day_fills = clip_windows fills (win ∷ wins) in
    let occupied = union (day_events ++ day_fills) in
    let gaps = gaps_of (win ∷ wins) occupied in
    record {
      date = date;
      tz = tz;
      window_start = win.start;
      window_end = last_end win wins;
      events = day_events;
      filled = day_fills;
      gaps = gaps;
      covered_hours = total_hours occupied;
      gap_hours = total_hours gaps;
    }

abbrev cons_day : DayTimeline → Result (List DayTimeline) → Result (List DayTimeline)
cons_day d (ok ds) = ok (d ∷ ds)
cons_day d (err e) = err e

module _ (zones : String → Option Location) where
  -- The loop over the dates; the period's segments are `seg ∷ segs`.
  unfoldable pub compute_days :
      TzSegment
      → List TzSegment
      → List Interval
      → List Interval
      → List ExpectedTime
      → Result (List DayTimeline)
  unfolding working_windows_utc compute_day active_segment
  compute_days seg segs events fills [] = ok []
  compute_days seg segs events fills (et ∷ ets) = elim (working_windows_utc zones et) [
    | err e ↦ err e
    | ok working ↦
        cons_day
          (compute_day et.date (active_segment seg segs et.date).iana_tz events fills working)
          (compute_days seg segs events fills ets)
  ]

  -- `ComputeGaps`; what its five reads return are the arguments.
  unfoldable pub compute_gaps :
      List TzSegment → List Event → List TimeEntry → List ExpectedTime → Result (List DayTimeline)
  unfolding compute_days event_spans fill_spans
  compute_gaps [] events fills expected = err failure
  compute_gaps (seg ∷ segs) events fills expected =
      compute_days seg segs (event_spans events) (fill_spans fills) expected
