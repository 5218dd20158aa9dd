-- ===== src/Materialize.antt =====
-- internal/service/sync_materialize.go: the draft that stands for a calendar event of the schedule;
-- all_day_convert.go: the draft that a user makes of an all-day event.
pub mod Steps
pub mod Untouched
use text.Mathlib.Text.{◌==◌ as str_eq}
use clockr.Base.{
  ℕ, String, Bool, true, false, not, ◌&&◌, ◌||◌, Option, none, some, List, [], ◌∷◌, ◌++◌, ltb, ◌==◌,
  invalid_input, failed_precondition, failure, not_found, if◌then◌else◌, any,
}
use clockr.GoTime.{Date, Location, format_stamp}
use clockr.GoText.{trim_space}
use clockr.Sources.{Event, OverlayKind, Kind, ReviewItem, tentative}
use clockr.Ledger.{
  M, ◌>>=◌, ◌>>◌, pure, fail, guard, lift, draft, is_draft, Params, Row, create_time_entry,
  list_time_entries_for_period,
}
use clockr.Entries.{
  TimeEntry, to_time_entry, TimeEntryInput, EntrySpan, Allocation, duration_minutes,
  time_entry_span, normalize_time_entry_allocation, default_to,
}
use clockr.Queries.{
  same_kind, DraftEdit, get_event, list_open_review_items, update_time_entry_calendar_draft,
  update_time_entry_source_revision,
}
use clockr.Calendar.{
  IncomingEvent, event_identity_from_incoming, event_identity_from_row, has_status_excluded,
  overlay_key, overlay_category, effective_category, source_kind_calendar_event, Partition,
  linked_calendar_entries, partition_linked, dismiss_linked_drafts, event_local_day,
}

-- The start and the end of a timed event: `draftEligible`, and the instants that it vouches for.
unfoldable pub timed_span : IncomingEvent → Option (ℕ × ℕ)
timed_span inc = elim inc.all_day [
  | true ↦ none
  | false ↦ elim inc.start [
    | none ↦ none
    | some start ↦ elim inc.end [ none ↦ none | some end ↦ some (start, end) ]
  ]
]

abbrev is_event : Option ℕ → ℕ → Bool
is_event none id = false
is_event (some i) id = i == id

unfoldable pub has_open_tentative_review : ℕ → ℕ → M Bool
unfolding same_kind
has_open_tentative_review period_id event_id = do
  items ← list_open_review_items period_id
  pure (any (λ it. same_kind it.kind tentative && is_event it.event_id event_id) items)

unfoldable pub waits_for_answer : IncomingEvent → Bool
waits_for_answer inc = str_eq inc.status "tentative" || str_eq inc.status "needsAction"

-- The question whether to include a tentative event is open.
unfoldable pub is_undecided : ℕ → IncomingEvent → Event → M Bool
unfolding waits_for_answer has_open_tentative_review
is_undecided period_id inc ev =
    if waits_for_answer inc then has_open_tentative_review period_id ev.id else pure false

abbrev pub category_or : Option ℕ → Option ℕ → Option ℕ
category_or (some c) d = some c
category_or none d = d

unfoldable pub draft_edit : IncomingEvent → Event → ℕ × ℕ → Date → Option ℕ → DraftEdit
unfolding duration_minutes format_stamp
draft_edit inc ev (start, end) day category = record {
  span = record {
    start_instant = format_stamp start;
    end_instant = format_stamp end;
    duration_minutes = duration_minutes start end;
    local_work_date = day;
  };
  description = inc.title;
  source_revision = some ev.source_hash;
  category_id = category;
}

unfoldable pub draft_params : ℕ → IncomingEvent → Event → String → ℕ × ℕ → Date → Option ℕ → Params
unfolding duration_minutes format_stamp
draft_params period_id inc ev identity (start, end) day category = record {
  period_id = period_id;
  start_instant = format_stamp start;
  end_instant = format_stamp end;
  duration_minutes = duration_minutes start end;
  local_work_date = day;
  category_id = category;
  description = inc.title;
  attestation = draft;
  source_kind = some source_kind_calendar_event;
  source_id = some identity;
  source_revision = some ev.source_hash;
  method = some "calendar_import";
  work_type = "worked";
  project_id = none;
  billable_status = "unset";
}

abbrev pub is_current : Option String → String → Bool
is_current none hash = false
is_current (some rev) hash = str_eq rev hash

-- The loop over the dismissed entries of an event that has not changed much.
unfoldable pub bump_revisions : String → List Row → M (Unit {0})
bump_revisions hash [] = pure tt
bump_revisions hash (te ∷ linked) =
    update_time_entry_source_revision (some hash) te.id te.period_id >> bump_revisions hash linked

abbrev pub has_drafts : List Row → Bool
has_drafts [] = false
has_drafts (te ∷ tes) = true

module _ (zones : String → Option Location) (utc : Location) where
  unfoldable pub create_draft_from_event :
      ℕ → IncomingEvent → Event → String → ℕ × ℕ → List Row → M (List Row)
  unfolding draft_params
  create_draft_from_event period_id inc ev identity span entries = do
    day ← event_local_day zones utc ev
    category ← effective_category period_id inc
    row ← create_time_entry (draft_params period_id inc ev identity span day category)
    pure (entries ++ row ∷ [])

  unfoldable pub refresh_draft_from_event : ℕ → IncomingEvent → Event → ℕ × ℕ → Row → M (Unit {0})
  unfolding draft_edit
  refresh_draft_from_event period_id inc ev span te =
      if is_current te.source_revision ev.source_hash then pure tt else (do
        day ← event_local_day zones utc ev
        category ← effective_category period_id inc
        update_time_entry_calendar_draft
            (draft_edit inc ev span day (category_or category te.category_id)) te.id te.period_id
        pure tt)

  -- The loop over the live drafts.
  unfoldable pub refresh_drafts : ℕ → IncomingEvent → Event → ℕ × ℕ → List Row → M (Unit {0})
  unfolding refresh_draft_from_event
  refresh_drafts period_id inc ev span [] = pure tt
  refresh_drafts period_id inc ev span (te ∷ drafts) =
      refresh_draft_from_event period_id inc ev span te
      >> refresh_drafts period_id inc ev span drafts

  -- What `materializeDraftForEvent` does by the entries that stem from the event; the result is the
  -- caller's list of entries.
  unfoldable pub propose :
      ℕ → IncomingEvent → Event → ℕ × ℕ → List Row → Bool → List Row → Partition → M (List Row)
  unfolding create_draft_from_event refresh_drafts bump_revisions event_identity_from_incoming
  propose period_id inc ev span entries material_change linked p =
      if p.has_confirmed || has_drafts p.drafts
      then (refresh_drafts period_id inc ev span p.drafts >> pure entries)
      else if p.all_dismissed && not material_change
      then (bump_revisions ev.source_hash linked >> pure entries)
      else create_draft_from_event period_id inc ev (event_identity_from_incoming inc) span entries

  unfoldable pub materialize_timed :
      ℕ → IncomingEvent → Event → List Row → Bool → ℕ × ℕ → M (List Row)
  unfolding event_identity_from_incoming linked_calendar_entries partition_linked is_undecided
      propose
  materialize_timed period_id inc ev entries material_change span =
      let linked = linked_calendar_entries entries (event_identity_from_incoming inc) in
      do
        excluded ← has_status_excluded ev
        if excluded then (dismiss_linked_drafts linked >> pure entries) else (do
          undecided ← is_undecided period_id inc ev
          if undecided
              then pure entries
              else propose period_id inc ev span entries material_change linked
                  (partition_linked linked))

  unfoldable pub materialize_draft_for_event :
      ℕ → IncomingEvent → Event → List Row → Bool → M (List Row)
  unfolding timed_span materialize_timed
  materialize_draft_for_event period_id inc ev entries material_change = elim (timed_span inc) [
    | none ↦ pure entries
    | some span ↦ materialize_timed period_id inc ev entries material_change span
  ]
