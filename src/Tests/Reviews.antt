-- ===== src/Tests/Reviews.antt =====
-- A period with a calendar event and a question about it: runs, and the theorems at work on them.
use clockr.Base.{
  ◌++◌, ◌||◌, ◌&&◌, ◌≡◌, ◌≢◌, refl, true, false, some, [], ◌∷◌, ok, arith, find, length, sort_by,
  keep, insert_by, ◌*◌, ◌==◌,
}
use clockr.GoTime.{at}
use clockr.Gaps.{span}
use clockr.Sources.{
  Event, ReviewItem, ConflictKey, Status, no_sources, no_action, payload_of, deleted_categorized,
  drop_entry, keep_entry, tentative,
}
use clockr.Ledger.{
  Db, is_draft, consume, refused, is_row, ◌>>=◌, statement, guard, fail, pure, transaction,
  list_time_entries_for_period, list_tz_segments, create_time_entry,
}
use clockr.Queries.{
  get_event, get_overlay, get_review_item, is_opened, upsert_overlay, resolve_review_item,
  update_items, list_open_review_items, same_conflict, create_review_item,
  get_review_item_by_conflict_key,
}
use clockr.Ledger.Holds.{Holds}
use clockr.Calendar.{
  IncomingEvent, dismiss_calendar_drafts_for_event, delete_category_overlay, mark_excluded,
  has_status_excluded, event_local_day, effective_category,
}
use clockr.GapFills.{split_around}
use clockr.GapFills.Cover.{one, inside, split_around-subtract_interval, split_around-inside}
use clockr.Spans.{subtract_interval}
use clockr.Conflicts.{enqueue_or_replay, key_of}
use clockr.Conflicts.Asked.{asked, enqueue_or_replay-twice}
use clockr.Review.{resolve_review_decision}
use clockr.Review.Untouched.{resolve_review_decision-Holds}
use clockr.Review.Replay.{resolve_review_decision-once, resolve_review_decision-replayed}
use clockr.Materialize.{materialize_draft_for_event}
use clockr.Materialize.Untouched.{materialize_draft_for_event-Holds}
use clockr.Exclusion.{exclude_event}
use clockr.Exclusion.Untouched.{exclude_event-Holds}
use clockr.Exclusion.Excluded.{exclude_event-materialize}
use clockr.Tests.Data.{hour, utc, zones, ledger, settled_entry}

-- 06:00 to 07:00 of the second day
abbrev standup : Event
standup = record {
  id = 5;
  active = true;
  fields = record {
    period_id = 7;
    calendar_id = 2;
    provider = "google";
    external_id = "e1";
    instance_id = "";
    recurring_event_id = "";
    ical_uid = "";
    title = "stand-up";
    description = "";
    location = "";
    organizer = "";
    attendees = "[]";
    status = "accepted";
    all_day = false;
    start_utc = some (at (30 * hour));
    end_utc = some (at (31 * hour));
    start_date = "";
    end_date = "";
    original_tz = "UTC";
    source_hash = "h1";
  };
}

abbrev pub pulled : IncomingEvent
pulled = record {
  calendar_id = 2;
  provider = "google";
  external_id = "e1";
  instance_id = "";
  recurring_event_id = "";
  ical_uid = "";
  title = "stand-up";
  description = "";
  location = "";
  organizer = "";
  attendees = "[]";
  status = "accepted";
  all_day = false;
  start = some (30 * hour);
  end = some (31 * hour);
  start_date = "";
  end_date = "";
  original_tz = "UTC";
}

abbrev question : ReviewItem
question = record {
  id = 1;
  key = key_of 7 deleted_categorized "google|2|e1||deleted";
  event_id = some 5;
  payload = payload_of [];
  status = Status.opened;
  decision_action = no_action;
}

abbrev pub asking : Db
asking = record ledger {
  sources = record no_sources {
    events = standup ∷ [];
    review_items = question ∷ [];
    next_review = 2;
  };
}

pub settled_entry-Holds : Holds settled_entry asking
unfolding find is_row
settled_entry-Holds = record {
  present = refl;
  alone = (λ h. absurd (ground arith), (λ h. refl, tt));
  older = refl;
}

abbrev after_drop : Db
after_drop = (resolve_review_decision zones utc 1 drop_entry asking).1

drop_runs : resolve_review_decision zones utc 1 drop_entry asking ≡ (ok 7, after_drop)
unfolding resolve_review_decision transaction get_review_item is_opened
    dismiss_calendar_drafts_for_event list_time_entries_for_period delete_category_overlay
    mark_excluded upsert_overlay resolve_review_item update_items ◌>>=◌ find sort_by keep insert_by
    statement guard fail pure get_event get_overlay
drop_runs = refl

abbrev after_exclude : Db
after_exclude = (exclude_event 5 7 asking).1

exclude_runs : exclude_event 5 7 asking ≡ (ok (7, 5), after_exclude)
unfolding exclude_event transaction dismiss_calendar_drafts_for_event list_time_entries_for_period
    delete_category_overlay mark_excluded upsert_overlay list_open_review_items resolve_review_item
    update_items ◌>>=◌ find sort_by keep insert_by statement guard fail pure get_event get_overlay
exclude_runs = refl

abbrev new_key : ConflictKey
new_key = key_of 7 tentative "google|2|e1||tentative"

asked_question : asked question.key asking ≡ some question
unfolding find same_conflict
asked_question = refl

drop_free : refused after_drop ≡ false
unfolding resolve_review_decision transaction get_review_item is_opened
    dismiss_calendar_drafts_for_event list_time_entries_for_period delete_category_overlay
    mark_excluded upsert_overlay resolve_review_item update_items ◌>>=◌ find sort_by keep insert_by
    statement guard fail pure get_event get_overlay
drop_free = refl

event_found : find (λ (e : Event). e.id == 5) asking.sources.events ≡ some standup
unfolding find
event_found = refl

-- A sync proposes a draft for the event.
proposed :
    length
      (materialize_draft_for_event zones utc 7 pulled standup asking.entries false asking).1.entries
    ≡ 3
unfolding materialize_draft_for_event has_status_excluded event_local_day list_tz_segments
    effective_category create_time_entry ◌>>=◌ find sort_by keep insert_by statement guard fail pure
    get_overlay
proposed = refl

split_around-subtract_interval_example :
    one (split_around (span 0 10) (span 4 6)).before
      ++ one (split_around (span 0 10) (span 4 6)).after
    ≡ subtract_interval (span 0 10 ∷ []) 4 6
split_around-subtract_interval_example =
    split_around-subtract_interval (span 0 10) (span 4 6) (omega arith) (omega arith)

split_around-inside_example :
    (inside 5 (split_around (span 0 10) (span 4 6)).overlap ≡ true)
    × ((inside 5 (split_around (span 0 10) (span 4 6)).before
          || inside 5 (split_around (span 0 10) (span 4 6)).after)
        ≡ false)
    × ((inside 5 (split_around (span 0 10) (span 4 6)).before
          && inside 5 (split_around (span 0 10) (span 4 6)).after)
        ≡ false)
split_around-inside_example = split_around-inside (span 0 10) (span 4 6) 5 (omega arith)

resolve_review_decision-Holds_example :
    Holds settled_entry (resolve_review_decision zones utc 1 keep_entry asking).1
unfolding is_draft
resolve_review_decision-Holds_example =
    resolve_review_decision-Holds zones utc settled_entry 1 keep_entry asking refl
      (λ e. absurd (ground arith)) settled_entry-Holds

resolve_review_decision-once_example :
    resolve_review_decision zones utc 1 keep_entry after_drop ≢ (ok 7, after_drop)
resolve_review_decision-once_example =
    resolve_review_decision-once zones utc 1 drop_entry keep_entry asking 7 after_drop after_drop 7
      after_drop drop_runs refl

resolve_review_decision-replayed_example :
    enqueue_or_replay question.key 5 (payload_of []) after_drop
    ≡ (ok (record { action = drop_entry; created = false }), consume after_drop)
resolve_review_decision-replayed_example =
    resolve_review_decision-replayed zones utc question drop_entry asking 7 after_drop after_drop 5
      (payload_of []) asked_question drop_runs refl drop_free

abbrev question_asked : Db
question_asked = (enqueue_or_replay new_key 5 (payload_of []) asking).1

asks_once :
    enqueue_or_replay new_key 5 (payload_of []) asking
    ≡ (ok (record { action = no_action; created = true }), question_asked)
unfolding enqueue_or_replay ◌>>=◌ get_review_item_by_conflict_key statement find create_review_item
asks_once = refl

asked_free : refused question_asked ≡ false
unfolding enqueue_or_replay ◌>>=◌ get_review_item_by_conflict_key statement find create_review_item
asked_free = refl

enqueue_or_replay-twice_example :
    enqueue_or_replay new_key 5 (payload_of []) question_asked
    ≡ (ok (record { action = no_action; created = false }), consume question_asked)
enqueue_or_replay-twice_example =
    enqueue_or_replay-twice new_key 5 (payload_of []) asking
      (record { action = no_action; created = true }) question_asked 5 (payload_of []) asks_once
      asked_free

exclude_event-Holds_example : Holds settled_entry (exclude_event 5 7 asking).1
unfolding is_draft
exclude_event-Holds_example = exclude_event-Holds settled_entry 5 7 asking refl settled_entry-Holds

-- The row that a sync stores for the event, under a new title.
abbrev renamed : Event
renamed = record standup { fields = record (standup.fields) { title = "daily" } }

exclude_event-materialize_example :
    length
      (materialize_draft_for_event zones utc 7 pulled renamed after_exclude.entries false
        after_exclude).1.entries
    ≡ length after_exclude.entries
exclude_event-materialize_example =
    exclude_event-materialize zones utc 5 7 asking (7, 5) after_exclude after_exclude standup
      renamed 7 pulled after_exclude.entries false event_found exclude_runs refl refl

materialize_draft_for_event-Holds_example :
    Holds settled_entry
      (materialize_draft_for_event zones utc 7 pulled standup asking.entries false asking).1
materialize_draft_for_event-Holds_example =
    materialize_draft_for_event-Holds zones utc settled_entry 7 pulled standup asking.entries false
      asking refl settled_entry-Holds.alone settled_entry-Holds
