-- ===== src/Sync.antt =====
-- internal/service/sync.go: the merge of a pull into the events that a period has stored.
pub mod Steps
pub mod Untouched
pub mod Counts
use text.Mathlib.Text.{◌==◌ as str_eq}
use Prim.Native.String.{◌++◌ as append}
use clockr.Base.{
  ℕ, suc, ◌+◌, String, Bool, true, false, not, ◌&&◌, ◌||◌, Option, none, some, List, [], ◌∷◌, any,
  if◌then◌else◌,
}
use clockr.GoTime.{Stamp, format_stamp}
use clockr.GoText.{join, sprint, trim_space}
use clockr.Sources.{Event, EventParams, OverlayKind}
use clockr.Ledger.{M, ◌>>=◌, ◌>>◌, pure, Row, transaction, list_time_entries_for_period}
use clockr.Queries.{
  get_overlay, upsert_overlay, list_all_events_for_period, upsert_event, delete_event, get_memory,
  get_calendar_default,
}
use clockr.Calendar.{
  IncomingEvent, event_identity_from_incoming, has_status_excluded, overlay_key, overlay_category,
  linked_calendar_entries, partition_linked, Partition,
}
use clockr.Materialize.{materialize_draft_for_event, has_drafts}
use clockr.Incoming.{
  text_key, key_of_event, key_of_incoming, has_category, has_category_of, categorize, source_hash,
  unhashed, upsert_params, match_key, apply_memory, apply_calendar_default, apply_ai_suggestion,
  categorize_new,
}
use clockr.SourceDrift.{on_confirmed_source_drift, on_vanished_confirmed_source}
use clockr.Resync.{
  World, normalize_title, title_material_change, on_vanished_categorized, on_new_event,
  on_changed_categorized, count_of,
}

pub record SyncResult : Type 0 where
  pub added : ℕ
  pub updated : ℕ
  pub unchanged : ℕ
  pub removed : ℕ
  pub flagged : ℕ

-- The entries that the loop knows, and its counters.
pub record Progress : Type 0 where
  pub entries : List Row
  pub result : SyncResult

-- baseByKey: of two events with one key the later one stands.
unfoldable pub base_by_key : String → Option Event → List Event → Option Event
unfolding text_key
base_by_key key found [] = found
base_by_key key found (e ∷ base) =
    base_by_key key (if str_eq (key_of_event e) key then some e else found) base

abbrev was_included : String → Bool
was_included status = str_eq status "accepted" || str_eq status ""

abbrev now_excluded : String → Bool
now_excluded status =
    str_eq status "declined" || str_eq status "tentative" || str_eq status "needsAction"

-- scheduleIncludeDropped
unfoldable pub schedule_include_dropped : Event → IncomingEvent → Bool
schedule_include_dropped ex inc = was_included ex.status && now_excluded inc.status

-- What becomes of an event that the pull does not name and no user has excluded.
unfoldable pub drop_unless_kept : Event → SyncResult → ℕ × Bool → M SyncResult
drop_unless_kept e res (n, kept) =
    if kept
    then pure (record res { flagged = res.flagged + n })
    else (delete_event e.id >> pure (record res { removed = suc res.removed }))

module _ (w : World) where
  unfoldable pub handle_new_event : ℕ → IncomingEvent → ℕ → List Row → M ℕ
  unfolding on_new_event apply_memory apply_calendar_default apply_ai_suggestion
  handle_new_event period_id inc event_id gaps = do
    r ← on_new_event w period_id inc event_id gaps
    if r.1 then pure tt else categorize_new w period_id inc
    pure r.0

  -- Live drafts take a new title over, and no entry is confirmed.
  unfoldable pub absorbs_title : Event → IncomingEvent → List Row → Bool
  unfolding event_identity_from_incoming linked_calendar_entries partition_linked
      title_material_change
  absorbs_title ex inc entries =
      let p =
        partition_linked (linked_calendar_entries entries (event_identity_from_incoming inc)) in
      has_drafts p.drafts && not p.has_confirmed && title_material_change w ex inc

  abbrev ask_changed : ℕ → ℕ → Event → IncomingEvent → List Row → M ℕ
  ask_changed period_id event_id ex inc entries =
      if absorbs_title ex inc entries && not (str_eq inc.status "declined")
      then pure 0
      else on_changed_categorized w period_id event_id ex inc

  unfoldable pub handle_changed_event : ℕ → ℕ → Event → IncomingEvent → List Row → String → M ℕ
  unfolding on_confirmed_source_drift has_category absorbs_title on_changed_categorized
  handle_changed_event period_id event_id ex inc entries new_hash = do
    a ← on_confirmed_source_drift period_id event_id inc entries new_hash
    categorized ← has_category_of period_id inc
    b ← if categorized then ask_changed period_id event_id ex inc entries else pure 0
    pure (a + b)

  -- A round of the loop over the pull, by the stored event with the key.
  unfoldable pub sync_new : ℕ → IncomingEvent → Progress → M Progress
  unfolding upsert_params handle_new_event
  sync_new period_id inc p = do
    ev ← upsert_event (upsert_params w period_id inc)
    n ← handle_new_event period_id inc ev.id p.entries
    entries ← materialize_draft_for_event w.zones w.utc period_id inc ev p.entries false
    pure (record {
      entries = entries;
      result = record (p.result) { added = suc p.result.added; flagged = p.result.flagged + n };
    })

  unfoldable pub sync_unchanged : ℕ → IncomingEvent → Event → Progress → M Progress
  sync_unchanged period_id inc ex p = do
    entries ← materialize_draft_for_event w.zones w.utc period_id inc ex p.entries false
    pure (record {
      entries = entries;
      result = record (p.result) { unchanged = suc p.result.unchanged };
    })

  unfoldable pub sync_changed : ℕ → IncomingEvent → Event → Progress → M Progress
  unfolding upsert_params handle_changed_event title_material_change schedule_include_dropped
  sync_changed period_id inc ex p =
      let params = upsert_params w period_id inc in
      do
        ev ← upsert_event params
        n ← handle_changed_event period_id ev.id ex inc p.entries params.source_hash
        entries ←
            materialize_draft_for_event w.zones w.utc period_id inc ev p.entries
              (title_material_change w ex inc || schedule_include_dropped ex inc)
        pure (record {
          entries = entries;
          result = record (p.result) {
            updated = suc p.result.updated;
            flagged = p.result.flagged + n;
          };
        })

  abbrev pub sync_stored : ℕ → IncomingEvent → Progress → Option Event → M Progress
  sync_stored period_id inc p none = sync_new period_id inc p
  sync_stored period_id inc p (some ex) =
      if str_eq ex.source_hash (upsert_params w period_id inc).source_hash
      then sync_unchanged period_id inc ex p
      else sync_changed period_id inc ex p

  unfoldable pub sync_incoming : ℕ → List Event → List IncomingEvent → Progress → M Progress
  unfolding base_by_key upsert_params sync_new sync_unchanged sync_changed
  sync_incoming period_id base [] p = pure p
  sync_incoming period_id base (inc ∷ incoming) p = do
    q ← sync_stored period_id inc p (base_by_key (key_of_incoming inc) none base)
    sync_incoming period_id base incoming q

  abbrev ask_vanished : ℕ → Event → SyncResult → M SyncResult
  ask_vanished period_id e res = do
    r ← on_vanished_categorized w period_id e
    pure (record res { flagged = res.flagged + count_of r.0; removed = res.removed + count_of r.1 })

  unfoldable pub vanish : ℕ → List Row → Event → SyncResult → M SyncResult
  unfolding has_status_excluded has_category on_vanished_categorized on_vanished_confirmed_source
      drop_unless_kept
  vanish period_id entries e res = do
    excluded ← has_status_excluded e
    if excluded then pure res else (do
      categorized ← has_category period_id e.provider e.external_id e.instance_id
      if categorized
          then ask_vanished period_id e res
          else (on_vanished_confirmed_source period_id e entries >>= drop_unless_kept e res))

  -- The loop over the stored events that the pull does not name.
  unfoldable pub sync_vanished :
      ℕ → List IncomingEvent → List Row → List Event → SyncResult → M SyncResult
  unfolding vanish text_key
  sync_vanished period_id incoming entries [] res = pure res
  sync_vanished period_id incoming entries (e ∷ base) res = do
    next ←
        if any (λ inc. str_eq (key_of_incoming inc) (key_of_event e)) incoming
        then pure res
        else vanish period_id entries e res
    sync_vanished period_id incoming entries base next

  unfoldable pub sync_events : ℕ → List IncomingEvent → M SyncResult
  unfolding sync_incoming sync_vanished
  sync_events period_id incoming = transaction do
    base ← list_all_events_for_period period_id
    entries ← list_time_entries_for_period period_id
    p ← sync_incoming period_id base incoming (record {
      entries = entries;
      result = record { added = 0; updated = 0; unchanged = 0; removed = 0; flagged = 0 };
    })
    sync_vanished period_id incoming p.entries base p.result
