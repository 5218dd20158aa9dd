-- ===== src/Entries.antt =====
-- internal/service/time_entry.go: the entries that a user writes, edits and deletes.
use text.Mathlib.Text.{◌==◌ as str_eq}
use clockr.Base.{
  ℕ, ◌*◌, String, Bool, ◌&&◌, Option, none, some, List, [], ◌∷◌, invalid_input, failed_precondition,
  failure, not_found, Result, ok, err, ℤ, pos, pos_part, ltb_ℤ, leb_ℤ, ltb, if◌then◌else◌,
}
use clockr.GoTime.{Stamp, Date, date_le, valid_date, Location, sub_time, minutes_of, format_stamp}
use clockr.GoText.{trim_space, elem}
use clockr.Zones.{active_segment, load_loc}
use clockr.Ledger.{
  M, ◌>>=◌, ◌>>◌, pure, guard, lift, Attestation, confirmed, Params, Row, Edit, TzSegment,
  create_time_entry, update_time_entry, delete_time_entry, get_period, list_tz_segments,
}

-- The entry that the service returns for a row.
pub record TimeEntry : Type 0 where
  pub id : ℕ
  pub period_id : ℕ
  pub local_work_date : Date
  pub start : Stamp
  pub end : Stamp
  pub duration_minutes : ℕ
  pub category_id : Option ℕ
  pub description : String
  pub attestation : Attestation
  pub method : String
  pub work_type : String
  pub project_id : Option ℕ
  pub billable_status : String

abbrev string_or_empty : Option String → String
string_or_empty none = ""
string_or_empty (some s) = s

unfoldable pub to_time_entry : Row → TimeEntry
to_time_entry r = record {
  id = r.id;
  period_id = r.period_id;
  local_work_date = r.local_work_date;
  start = r.start_instant;
  end = r.end_instant;
  duration_minutes = r.duration_minutes;
  category_id = r.category_id;
  description = r.description;
  attestation = r.attestation;
  method = string_or_empty r.method;
  work_type = r.work_type;
  project_id = r.project_id;
  billable_status = r.billable_status;
}

pub record TimeEntryInput : Type 0 where
  pub period_id : ℕ
  pub day : Date
  pub start_minutes : ℤ
  pub end_minutes : ℤ
  pub category_id : Option ℕ
  pub description : String
  pub work_type : String
  pub project_id : Option ℕ
  pub billable_status : String

unfoldable pub duration_minutes : ℕ → ℕ → ℕ
unfolding sub_time minutes_of
duration_minutes start end = minutes_of (sub_time end start)

abbrev pub allowed_work_types : List String
allowed_work_types =
    "worked" ∷ "paid_leave" ∷ "unpaid_leave" ∷ "holiday" ∷ "break" ∷ "adjustment" ∷ []

abbrev pub allowed_billable_statuses : List String
allowed_billable_statuses = "unset" ∷ "billable" ∷ "non_billable" ∷ []

abbrev pub default_to : String → String → String
default_to d s = if str_eq s "" then d else s

-- The trimmed text or its default, if that is allowed.
unfoldable pub normalize_one : List String → String → String → Result String
unfolding trim_space elem
normalize_one allowed d s =
    let text = default_to d (trim_space s) in
    if elem text allowed then ok text else err invalid_input

-- A work type and a billable status.
pub record Allocation : Type 0 where
  pub work_type : String
  pub billable_status : String

abbrev pub pair_up : Result String → Result String → Result Allocation
pair_up (ok w) (ok b) = ok (record { work_type = w; billable_status = b })
pair_up (ok w) (err e) = err e
pair_up (err e) b = err e

unfoldable pub normalize_time_entry_allocation : String → String → Result Allocation
unfolding normalize_one
normalize_time_entry_allocation work_type billable_status =
    pair_up (normalize_one allowed_work_types "worked" work_type)
      (normalize_one allowed_billable_statuses "unset" billable_status)

-- timeEntrySpan
pub record EntrySpan : Type 0 where
  pub start : ℕ
  pub end : ℕ

abbrev minutes_per_day : ℤ
minutes_per_day = pos (24 * 60)

-- The columns of an entry that a user writes; `gap_origin` stamps the method.
unfoldable pub entry_params : Bool → TimeEntryInput → EntrySpan → Allocation → Params
unfolding duration_minutes format_stamp
entry_params gap_origin input span allocation = record {
  period_id = input.period_id;
  start_instant = format_stamp span.start;
  end_instant = format_stamp span.end;
  duration_minutes = duration_minutes span.start span.end;
  local_work_date = input.day;
  category_id = input.category_id;
  description = trim_space input.description;
  attestation = confirmed;
  source_kind = none;
  source_id = none;
  source_revision = none;
  method = if gap_origin then some "gap_fill" else none;
  work_type = allocation.work_type;
  project_id = input.project_id;
  billable_status = allocation.billable_status;
}

unfoldable pub edit_params : TimeEntryInput → EntrySpan → Allocation → Edit
unfolding duration_minutes format_stamp
edit_params input span allocation = record {
  start_instant = format_stamp span.start;
  end_instant = format_stamp span.end;
  duration_minutes = duration_minutes span.start span.end;
  local_work_date = input.day;
  category_id = input.category_id;
  description = trim_space input.description;
  work_type = allocation.work_type;
  project_id = input.project_id;
  billable_status = allocation.billable_status;
}

module _ (zones : String → Option Location) where
  -- The zone that governs `day` in the period.
  unfoldable pub zone_on : List TzSegment → Date → Result Location
  unfolding active_segment load_loc
  zone_on [] day = err failed_precondition
  zone_on (seg ∷ segs) day = load_loc zones (active_segment seg segs day).iana_tz

  unfoldable pub time_entry_span : TimeEntryInput → M EntrySpan
  unfolding date_le valid_date
  time_entry_span input = do
    guard (ltb 0 input.period_id) invalid_input
    guard (leb_ℤ (pos 0) input.start_minutes && ltb_ℤ input.start_minutes minutes_per_day)
        invalid_input
    guard (ltb_ℤ input.start_minutes input.end_minutes && leb_ℤ input.end_minutes minutes_per_day)
        invalid_input
    period ← get_period input.period_id
    guard (valid_date input.day) invalid_input
    guard (valid_date period.start_date) failure
    guard (valid_date period.end_date) failure
    guard (date_le period.start_date input.day && date_le input.day period.end_date) invalid_input
    segs ← list_tz_segments input.period_id
    loc ← lift (zone_on segs input.day)
    pure (record {
      start = loc.date_at input.day (pos_part input.start_minutes);
      end = loc.date_at input.day (pos_part input.end_minutes);
    })

  unfoldable pub create_entry : TimeEntryInput → Bool → M TimeEntry
  create_entry input gap_origin = do
    span ← time_entry_span input
    allocation ← lift (normalize_time_entry_allocation input.work_type input.billable_status)
    row ← create_time_entry (entry_params gap_origin input span allocation)
    pure (to_time_entry row)

  -- UpdateTimeEntry of the service; `id` and the input are the fields of TimeEntryUpdateInput.
  unfoldable pub update_entry : ℕ → TimeEntryInput → M TimeEntry
  update_entry id input = do
    guard (ltb 0 id) failure
    span ← time_entry_span input
    allocation ← lift (normalize_time_entry_allocation input.work_type input.billable_status)
    row ← update_time_entry (edit_params input span allocation) id input.period_id
    pure (to_time_entry row)

-- DeleteTimeEntry of the service.
unfoldable pub delete_entry : ℕ → ℕ → M (Unit {0})
delete_entry id period_id = do
  guard (ltb 0 id) failure
  guard (ltb 0 period_id) failure
  rows ← delete_time_entry id period_id
  guard (ltb 0 rows) not_found
