-- ===== src/Tests/Syncs.antt =====
-- A sync of the period of Tests/Reviews: a run, and the theorems at work on it.
use clockr.Base.{any, ◌≡◌, ◌+◌, refl, none, [], ◌∷◌, All, ok, find, sort_by, keep, insert_by}
use clockr.Sources.{ReviewItem}
use clockr.Ledger.{
  Db, transaction, list_time_entries_for_period, list_tz_segments, create_time_entry, ◌>>=◌,
  statement, guard, fail, pure,
}
use clockr.Ledger.Holds.{Holds}
use clockr.Resync.{World}
use clockr.Resync.Calm.{IsOther}
use clockr.Calendar.{has_status_excluded, event_local_day, effective_category}
use clockr.Queries.{
  get_overlay, list_all_events_for_period, upsert_event, get_memory, get_calendar_default,
}
use clockr.Materialize.{materialize_draft_for_event}
use clockr.Incoming.{has_category, upsert_params}
use clockr.Sync.{
  SyncResult, sync_events, sync_incoming, sync_vanished, sync_changed, handle_changed_event,
}
use clockr.Sync.Counts.{sync_events-handled}
use clockr.Sync.Untouched.{sync_events-Holds}
use clockr.Tests.Data.{utc, zones, settled_entry}
use clockr.Tests.Reviews.{asking, pulled, settled_entry-Holds}

-- A world without a model, in which every event has the hash "h2".
abbrev world : World
world = record {
  zones = zones;
  utc = utc;
  stamp_text = λ s. "";
  to_lower = λ s. s;
  digest = λ l. "h2";
  suggest = λ inc. none;
}

sync_events-Holds_example :
    Holds settled_entry (sync_events world 7 (pulled ∷ []) asking).1
    × All
        (λ (i : ReviewItem). IsOther i.decision_action)
        (sync_events world 7 (pulled ∷ []) asking).1.sources.review_items
sync_events-Holds_example =
    sync_events-Holds world 7 (pulled ∷ []) settled_entry asking refl settled_entry-Holds (refl, tt)

abbrev synced : SyncResult
synced = record { added = 0; updated = 1; unchanged = 0; removed = 0; flagged = 0 }

abbrev after_sync : Db
after_sync = (sync_events world 7 (pulled ∷ []) asking).1

sync_runs : sync_events world 7 (pulled ∷ []) asking ≡ (ok synced, after_sync)
unfolding sync_events transaction list_all_events_for_period list_time_entries_for_period
    sync_incoming sync_vanished sync_changed handle_changed_event has_category upsert_params
    upsert_event materialize_draft_for_event has_status_excluded event_local_day list_tz_segments
    effective_category create_time_entry ◌>>=◌ find sort_by keep insert_by statement guard fail pure
    get_overlay get_memory get_calendar_default any
sync_runs = refl

sync_events-handled_example : synced.added + synced.updated + synced.unchanged ≡ 1
sync_events-handled_example =
    sync_events-handled world 7 (pulled ∷ []) asking synced after_sync sync_runs
