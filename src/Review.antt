-- ===== src/Review.antt =====
-- internal/service/review_policy.go: what the answer to a question about a calendar event does; review.go:
-- `ResolveReviewDecision`.
pub mod Steps
pub mod Replay
pub mod Untouched
use text.Mathlib.Text.{◌==◌ as str_eq}
use clockr.Base.{
  ℕ, suc, String, Bool, true, false, not, Option, none, some, List, [], ◌∷◌, Result, ok, err, ltb,
  invalid_input, failed_precondition, failure, not_found, if◌then◌else◌,
}
use clockr.GoTime.{Date, Location, format_stamp}
use clockr.GoText.{join}
use clockr.Gaps.{span}
use clockr.Sources.{
  Event, Overlay, OverlayKind, Kind, Status, Action, Payload, ConflictKey, ReviewItem, payload_of,
  no_action, keep_entry, drop_entry, accept, dismiss, keep_gap, use_event, include, exclude,
  spawn_draft, replace, overlap, dedup_ambiguous, tentative, all_day, title_changed,
  deleted_categorized, new_in_gap, source_drift, opened, resolved,
}
use clockr.Ledger.{
  Db, M, ◌>>=◌, ◌>>◌, pure, fail, guard, lift, draft, confirmed, is_confirmed, Params, Row,
  transaction, get_time_entry, create_time_entry, list_time_entries_for_period,
}
use clockr.Entries.{duration_minutes}
use clockr.Queries.{
  is_opened, get_event, get_overlay, delete_overlay, get_review_item, create_review_item,
  get_review_item_by_conflict_key, update_open_review_item_payload, reopen_review_item,
  resolve_review_item,
}
use clockr.GapFills.{shrink_gap_fills_for_event}
use clockr.Calendar.{
  event_identity_from_row, column_time, is_timed, event_key, mark_excluded, note_is_excluded,
  delete_category_overlay, overlay_category, source_kind_calendar_event,
  dismiss_calendar_drafts_for_event, event_local_day,
}

-- The item's event; an item without one is an error.
unfoldable pub event_of : Option ℕ → M Event
event_of none = fail failure
event_of (some id) = get_event id

-- A query whose error the caller passes over.
unfoldable pub attempt : {A : Type 0} → M A → M (Option A)
attempt m db = let (r, db') = m db in (ok (elim r [ ok a ↦ some a | err e ↦ none ]), db')

abbrev pub confirmed_or : M (Option Row) → Option Row → M (Option Row)
confirmed_or rest none = rest
confirmed_or rest (some r) = if is_confirmed r.attestation then pure (some r) else rest

-- The loop over payload.TimeEntryIDs: the first of the entries that is confirmed.
unfoldable pub first_confirmed : ℕ → List ℕ → M (Option Row)
unfolding attempt is_confirmed
first_confirmed period_id [] = pure none
first_confirmed period_id (id ∷ ids) = do
  row ← attempt (get_time_entry id period_id)
  confirmed_or (first_confirmed period_id ids) row

abbrev or_else : String → String → String
or_else s default = if str_eq s "" then default else s

-- The entry that `spawnSourceDriftDraft` creates, without what it copies from the confirmed entry.
abbrev proposal : ReviewItem → Event → Date → Params
proposal item ev day = record {
  period_id = item.period_id;
  start_instant = format_stamp (column_time ev.start_utc);
  end_instant = format_stamp (column_time ev.end_utc);
  duration_minutes = duration_minutes (column_time ev.start_utc) (column_time ev.end_utc);
  local_work_date = day;
  category_id = none;
  description = ev.title;
  attestation = draft;
  source_kind = some source_kind_calendar_event;
  source_id = some (or_else item.payload.event_identity (event_identity_from_row ev));
  source_revision = some (or_else item.payload.source_revision ev.source_hash);
  method = some "calendar_import";
  work_type = "worked";
  project_id = none;
  billable_status = "unset";
}

unfoldable pub drift_params : Bool → ReviewItem → Event → Date → Option Row → Params
unfolding event_identity_from_row column_time duration_minutes format_stamp
drift_params replacing item ev day none = proposal item ev day
drift_params replacing item ev day (some row) = record (proposal item ev day) {
  category_id = row.category_id;
  description = if replacing then ev.title else or_else row.description ev.title;
  work_type = row.work_type;
  project_id = row.project_id;
  billable_status = row.billable_status;
}

-- The confirmed entry that keeps the time of a deleted event.
unfoldable pub manual_params : Event → Option ℕ → Date → Params
unfolding column_time duration_minutes format_stamp
manual_params ev category day = record {
  period_id = ev.period_id;
  start_instant = format_stamp (column_time ev.start_utc);
  end_instant = format_stamp (column_time ev.end_utc);
  duration_minutes = duration_minutes (column_time ev.start_utc) (column_time ev.end_utc);
  local_work_date = day;
  category_id = category;
  description = ev.title;
  attestation = confirmed;
  source_kind = none;
  source_id = none;
  source_revision = none;
  method = none;
  work_type = "worked";
  project_id = none;
  billable_status = "unset";
}

-- Whether the overlay hides an event, and what removes it then.
abbrev pub clear_excluded : Option Overlay → M (Unit {0})
clear_excluded none = pure tt
clear_excluded (some o) = if note_is_excluded (some o) then delete_overlay o.id else pure tt

unfoldable pub clear_all_day_review_exclusion : ℕ → M (Unit {0})
clear_all_day_review_exclusion event_id = do
  ev ← get_event event_id
  if ev.all_day then (get_overlay (event_key ev OverlayKind.status) >>= clear_excluded) else pure tt

abbrev pub is_all_day : Kind → Bool
is_all_day all_day = true
is_all_day _ = false

unfoldable pub include_exclude : Kind → ℕ → Action → M (Unit {0})
unfolding clear_all_day_review_exclusion
include_exclude kind id include =
    if is_all_day kind then clear_all_day_review_exclusion id else pure tt
include_exclude kind id exclude = do
  ev ← get_event id
  delete_category_overlay ev
  if is_all_day kind then clear_all_day_review_exclusion ev.id else mark_excluded ev
include_exclude kind id _ = fail invalid_input

unfoldable pub apply_include_exclude : ReviewItem → Action → M (Unit {0})
unfolding include_exclude
apply_include_exclude item action = elim item.event_id [
  | none ↦ fail failure
  | some id ↦ include_exclude item.kind id action
]

unfoldable pub settle_gap : ℕ → Event → Action → M (Unit {0})
unfolding is_timed column_time
settle_gap period_id ev keep_gap = mark_excluded ev
settle_gap period_id ev use_event = do
  guard (is_timed ev) failure
  fills ← list_time_entries_for_period period_id
  shrink_gap_fills_for_event period_id (span (column_time ev.start_utc) (column_time ev.end_utc))
      fills
settle_gap period_id ev _ = fail invalid_input

unfoldable pub apply_new_in_gap : ReviewItem → Action → M (Unit {0})
unfolding event_of settle_gap
apply_new_in_gap item action = do ev ← event_of item.event_id; settle_gap item.period_id ev action

abbrev pub drift_status : Action → Status
drift_status dismiss = Status.dismissed
drift_status _ = resolved

abbrev pub title_status : Action → Result Status
title_status accept = ok resolved
title_status dismiss = ok Status.dismissed
title_status _ = err invalid_input

module _ (zones : String → Option Location) (utc : Location) where
  unfoldable pub spawn_source_drift_draft : ReviewItem → Bool → M (Unit {0})
  unfolding event_of is_timed first_confirmed drift_params
  spawn_source_drift_draft item replacing = do
    ev ← event_of item.event_id
    guard (is_timed ev) failure
    row ← first_confirmed item.period_id item.payload.time_entry_ids
    day ← event_local_day zones utc ev
    create_time_entry (drift_params replacing item ev day row)
    pure tt

  unfoldable pub apply_source_drift : ReviewItem → Action → M (Unit {0})
  unfolding spawn_source_drift_draft
  apply_source_drift item dismiss = pure tt
  apply_source_drift item spawn_draft = spawn_source_drift_draft item false
  apply_source_drift item replace = spawn_source_drift_draft item true
  apply_source_drift item _ = fail invalid_input

  unfoldable pub convert_event_to_manual_fill : Event → M (Unit {0})
  unfolding is_timed manual_params
  convert_event_to_manual_fill ev = do
    guard (is_timed ev) failure
    category ← overlay_category (event_key ev OverlayKind.category)
    day ← event_local_day zones utc ev
    create_time_entry (manual_params ev category day)
    delete_category_overlay ev

  unfoldable pub settle_deleted : Event → Action → M (Unit {0})
  unfolding convert_event_to_manual_fill
  settle_deleted ev keep_entry = do
    dismiss_calendar_drafts_for_event ev
    convert_event_to_manual_fill ev
    mark_excluded ev
  settle_deleted ev drop_entry = do
    dismiss_calendar_drafts_for_event ev
    delete_category_overlay ev
    mark_excluded ev
  settle_deleted ev _ = fail invalid_input

  unfoldable pub apply_deleted_categorized : ReviewItem → Action → M (Unit {0})
  unfolding event_of settle_deleted
  apply_deleted_categorized item action = do ev ← event_of item.event_id; settle_deleted ev action

  -- Apply
  unfoldable pub apply_kind : Kind → ReviewItem → Action → M Status
  unfolding apply_deleted_categorized apply_new_in_gap apply_include_exclude apply_source_drift
  apply_kind deleted_categorized item action =
      apply_deleted_categorized item action >> pure resolved
  apply_kind title_changed item action = lift (title_status action)
  apply_kind new_in_gap item action = apply_new_in_gap item action >> pure resolved
  apply_kind tentative item action = apply_include_exclude item action >> pure resolved
  apply_kind all_day item action = apply_include_exclude item action >> pure resolved
  apply_kind source_drift item action = apply_source_drift item action >> pure (drift_status action)
  apply_kind overlap item action = fail failed_precondition
  apply_kind dedup_ambiguous item action = fail failed_precondition

  unfoldable pub apply : ReviewItem → Action → M Status
  unfolding apply_kind
  apply item action = apply_kind item.kind item action

  -- The period whose schedule has changed.
  unfoldable pub resolve_review_decision : ℕ → Action → M ℕ
  unfolding apply
  resolve_review_decision decision_id action = transaction do
    item ← get_review_item decision_id
    guard (is_opened item.status) failure
    status ← apply item action
    resolve_review_item status action item.id
    pure item.period_id
