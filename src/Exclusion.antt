-- ===== src/Exclusion.antt =====
-- internal/service/exclude_event.go: a user hides an event from the schedule; all_day_convert.go: a
-- user makes a draft of an all-day event.
pub mod Excluded
pub mod Untouched
use text.Mathlib.Text.{◌==◌ as str_eq}
use clockr.Base.{
  ℕ, String, Bool, true, false, not, ◌||◌, Option, none, some, List, [], ◌∷◌, ltb, ◌==◌,
  invalid_input, failed_precondition, failure, not_found, if◌then◌else◌,
}
use clockr.GoTime.{Location, format_stamp}
use clockr.GoText.{trim_space}
use clockr.Sources.{Event, OverlayKind, Status, ReviewItem, exclude}
use clockr.Ledger.{
  M, ◌>>=◌, ◌>>◌, pure, guard, lift, draft, Params, Row, transaction, create_time_entry,
  list_time_entries_for_period,
}
use clockr.Entries.{
  TimeEntry, to_time_entry, TimeEntryInput, EntrySpan, Allocation, duration_minutes, default_to,
  time_entry_span, normalize_time_entry_allocation,
}
use clockr.Queries.{get_event, list_open_review_items, resolve_review_item}
use clockr.Calendar.{
  event_identity_from_row, event_key, mark_excluded, has_status_excluded, delete_category_overlay,
  overlay_category, source_kind_calendar_event, Partition, linked_calendar_entries,
  partition_linked, dismiss_calendar_drafts_for_event,
}

abbrev pub about : ℕ → Option ℕ → Bool
about id none = false
about id (some i) = i == id

-- The loop over the open items.
unfoldable pub dismiss_items : ℕ → List ReviewItem → M (Unit {0})
dismiss_items event_id [] = pure tt
dismiss_items event_id (item ∷ items) =
    let rest = dismiss_items event_id items in
    if about event_id item.event_id
    then (resolve_review_item Status.dismissed exclude item.id >> rest)
    else rest

-- ExcludeEventResult is the input's pair of ids.
unfoldable pub exclude_event : ℕ → ℕ → M (ℕ × ℕ)
unfolding dismiss_items
exclude_event event_id period_id = do
  guard (ltb 0 event_id) failure
  guard (ltb 0 period_id) failure
  transaction do
    ev ← get_event event_id
    guard (ev.period_id == period_id) not_found
    delete_category_overlay ev
    dismiss_calendar_drafts_for_event ev
    mark_excluded ev
    open_items ← list_open_review_items period_id
    dismiss_items ev.id open_items
    pure (ev.period_id, ev.id)

unfoldable pub converted_params :
    TimeEntryInput → Event → EntrySpan → Allocation → Option ℕ → Params
unfolding duration_minutes format_stamp event_identity_from_row trim_space
converted_params input ev span allocation category = record {
  period_id = input.period_id;
  start_instant = format_stamp span.start;
  end_instant = format_stamp span.end;
  duration_minutes = duration_minutes span.start span.end;
  local_work_date = input.day;
  category_id = category;
  description = default_to ev.title (trim_space input.description);
  attestation = draft;
  source_kind = some source_kind_calendar_event;
  source_id = some (event_identity_from_row ev);
  source_revision = some ev.source_hash;
  method = some "calendar_convert";
  work_type = allocation.work_type;
  project_id = input.project_id;
  billable_status = allocation.billable_status;
}

abbrev no_rows : List Row → Bool
no_rows [] = true
no_rows (r ∷ rs) = false

-- The category that the user named, or that of the event.
unfoldable pub chosen_category : Option ℕ → TimeEntryInput → Event → M (Option ℕ)
chosen_category (some c) input ev = pure (some c)
chosen_category none input ev =
    overlay_category (record (event_key ev OverlayKind.category) { period_id = input.period_id })

unfoldable pub convert_all_day_event : (String → Option Location) → ℕ → TimeEntryInput → M TimeEntry
unfolding converted_params chosen_category linked_calendar_entries partition_linked
convert_all_day_event zones event_id input = do
  guard (ltb 0 event_id) invalid_input
  span ← time_entry_span zones input
  allocation ← lift (normalize_time_entry_allocation input.work_type input.billable_status)
  ev ← get_event event_id
  guard (ev.period_id == input.period_id) not_found
  guard ev.all_day failed_precondition
  guard ev.active failed_precondition
  excluded ← has_status_excluded ev
  guard (not excluded) failed_precondition
  entries ← list_time_entries_for_period input.period_id
  let p = partition_linked (linked_calendar_entries entries (event_identity_from_row ev))
  guard (not p.has_confirmed) failed_precondition
  guard (no_rows p.drafts) failed_precondition
  category ← chosen_category input.category_id input ev
  row ← create_time_entry (converted_params input ev span allocation category)
  pure (to_time_entry row)
