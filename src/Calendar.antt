-- ===== src/Calendar.antt =====
-- What internal/service/review_policy.go, sync_materialize.go and sync.go share about a calendar event:
-- its identity, the local day on which it starts, the entries that stem from it, and the overlays
-- that keep the user's decisions.
pub mod Rows
pub mod Dismissed
use text.Mathlib.Text.{◌==◌ as str_eq}
use clockr.Base.{
  ℕ, suc, String, Bool, true, false, not, ◌&&◌, ◌||◌, Option, none, some, List, [], ◌∷◌, Result, ok,
  err, failure, ◌==◌, if◌then◌else◌,
}
use clockr.GoTime.{Stamp, Date, same_date, Location}
use clockr.GoText.{join, sprint}
use clockr.Zones.{active_segment, load_loc}
use clockr.Timeline.{parse_time}
use clockr.Sources.{Event, Overlay, OverlayKey, OverlayKind}
use clockr.Ledger.{
  M, ◌>>=◌, ◌>>◌, pure, fail, guard, lift, draft, confirmed, dismissed, Attestation, is_draft,
  is_confirmed, Row, TzSegment, update_attestation, list_time_entries_for_period, list_tz_segments,
}
use clockr.Queries.{get_overlay, upsert_overlay, delete_overlay}

-- IncomingEvent; `attendees` is their JSON text, which marshalAttendees makes.
pub record IncomingEvent : Type 0 where
  pub calendar_id : ℕ
  pub provider : String
  pub external_id : String
  pub instance_id : String
  pub recurring_event_id : String
  pub ical_uid : String
  pub title : String
  pub description : String
  pub location : String
  pub organizer : String
  pub attendees : String
  pub status : String
  pub all_day : Bool
  pub start : Option ℕ
  pub end : Option ℕ
  pub start_date : String
  pub end_date : String
  pub original_tz : String

unfoldable pub event_identity : String → ℕ → String → String → String
unfolding join sprint
event_identity provider calendar_id external_id instance_id =
    join "|" (provider ∷ sprint calendar_id ∷ external_id ∷ instance_id ∷ [])

unfoldable pub event_identity_from_incoming : IncomingEvent → String
unfolding event_identity
event_identity_from_incoming inc =
    event_identity inc.provider inc.calendar_id inc.external_id inc.instance_id

unfoldable pub event_identity_from_row : Event → String
unfolding event_identity
event_identity_from_row ev = event_identity ev.provider ev.calendar_id ev.external_id ev.instance_id

-- A NULL column and a text that does not parse both give the zero Time.
unfoldable pub column_time : Option Stamp → ℕ
unfolding parse_time
column_time none = 0
column_time (some s) = parse_time s

abbrev is_valid : Option Stamp → Bool
is_valid none = false
is_valid (some s) = true

-- The test `ev.AllDay != 0 || !ev.StartUtc.Valid || !ev.EndUtc.Valid` of the callers, negated.
unfoldable pub is_timed : Event → Bool
is_timed ev = not ev.all_day && is_valid ev.start_utc && is_valid ev.end_utc

abbrev pub overlay_key : ℕ → String → String → String → OverlayKind → OverlayKey
overlay_key period_id provider external_id instance_id kind = record {
  period_id = period_id;
  provider = provider;
  external_id = external_id;
  instance_id = instance_id;
  kind = kind;
}

abbrev pub event_key : Event → OverlayKind → OverlayKey
event_key ev kind = overlay_key ev.period_id ev.provider ev.external_id ev.instance_id kind

abbrev pub excluded_note : String
excluded_note = "excluded"

-- MarkExcluded
unfoldable pub mark_excluded : Event → M (Unit {0})
mark_excluded ev = upsert_overlay (event_key ev OverlayKind.status) none excluded_note

abbrev pub note_is_excluded : Option Overlay → Bool
note_is_excluded none = false
note_is_excluded (some o) = str_eq o.note excluded_note

-- HasStatusExcluded
unfoldable pub has_status_excluded : Event → M Bool
has_status_excluded ev = do
  o ← get_overlay (event_key ev OverlayKind.status)
  pure (note_is_excluded o)

abbrev pub delete_found : Option Overlay → M (Unit {0})
delete_found none = pure tt
delete_found (some o) = delete_overlay o.id

-- DeleteCategoryOverlay
unfoldable pub delete_category_overlay : Event → M (Unit {0})
delete_category_overlay ev = do o ← get_overlay (event_key ev OverlayKind.category); delete_found o

abbrev pub category_of : Option Overlay → Option ℕ
category_of none = none
category_of (some o) = o.category_id

-- The category of the overlay, if there is one.
unfoldable pub overlay_category : OverlayKey → M (Option ℕ)
overlay_category k = do o ← get_overlay k; pure (category_of o)

unfoldable pub effective_category : ℕ → IncomingEvent → M (Option ℕ)
unfolding overlay_category
effective_category period_id inc =
    overlay_category
      (overlay_key period_id inc.provider inc.external_id inc.instance_id OverlayKind.category)

abbrev text_is : Option String → String → Bool
text_is none s = false
text_is (some t) s = str_eq t s

abbrev pub source_kind_calendar_event : String
source_kind_calendar_event = "calendar_event"

-- Whether the entry stems from the event with this identity.
unfoldable pub is_linked : String → Row → Bool
is_linked identity te =
    text_is te.source_kind source_kind_calendar_event && text_is te.source_id identity

-- The loop of `linkedCalendarEntries`.
unfoldable pub linked_calendar_entries : List Row → String → List Row
unfolding is_linked
linked_calendar_entries [] identity = []
linked_calendar_entries (te ∷ entries) identity =
    let out = linked_calendar_entries entries identity in
    if is_linked identity te then te ∷ out else out

-- What `partitionLinked` returns.
pub record Partition : Type 0 where
  pub drafts : List Row
  pub has_confirmed : Bool
  pub all_dismissed : Bool

abbrev pub add_linked : Row → Attestation → Partition → Partition
add_linked te draft p = record p { drafts = te ∷ p.drafts; all_dismissed = false }
add_linked te confirmed p = record p { has_confirmed = true; all_dismissed = false }
add_linked te dismissed p = p

-- The loop of `partitionLinked`.
unfoldable pub partition_rows : List Row → Partition
partition_rows [] = record { drafts = []; has_confirmed = false; all_dismissed = true }
partition_rows (te ∷ linked) = add_linked te te.attestation (partition_rows linked)

unfoldable pub partition_linked : List Row → Partition
unfolding partition_rows
partition_linked [] = record { drafts = []; has_confirmed = false; all_dismissed = false }
partition_linked linked = partition_rows linked

-- The loop of `dismissLinkedDrafts`.
unfoldable pub dismiss_linked_drafts : List Row → M (Unit {0})
unfolding is_draft
dismiss_linked_drafts [] = pure tt
dismiss_linked_drafts (te ∷ linked) =
    let rest = dismiss_linked_drafts linked in
    if is_draft te.attestation
    then (update_attestation dismissed te.id te.period_id >> rest)
    else rest

-- dismissCalendarDraftsForEvent
unfoldable pub dismiss_calendar_drafts_for_event : Event → M (Unit {0})
unfolding event_identity_from_row linked_calendar_entries dismiss_linked_drafts
dismiss_calendar_drafts_for_event ev = do
  entries ← list_time_entries_for_period ev.period_id
  dismiss_linked_drafts (linked_calendar_entries entries (event_identity_from_row ev))

module _ (zones : String → Option Location) where
  abbrev date_in : ℕ → Result Location → Result Date
  date_in start (ok loc) = ok (loc.local_date start)
  date_in start (err e) = err e

  -- The local date of `start` in the zone that governs `date`.
  unfoldable pub date_by : TzSegment → List TzSegment → ℕ → Date → Result Date
  unfolding load_loc active_segment
  date_by seg segs start date =
      date_in start (load_loc zones (active_segment seg segs date).iana_tz)

  abbrev second_round : TzSegment → List TzSegment → ℕ → Date → Result Date → Result Date
  second_round seg segs start date (err e) = err e
  second_round seg segs start date (ok next) =
      if same_date next date then ok date else date_by seg segs start next

  -- The two rounds of the loop of `eventLocalDay`, from the UTC date on.
  unfoldable pub settle_day : List TzSegment → ℕ → Date → Result Date
  unfolding same_date date_by
  settle_day [] start date = err failure
  settle_day (seg ∷ segs) start date =
      second_round seg segs start date (date_by seg segs start date)

  -- `utc` is time.UTC.
  unfoldable pub event_local_day : Location → Event → M Date
  unfolding column_time settle_day
  event_local_day utc ev = do
    guard (not (column_time ev.start_utc == 0)) failure
    segs ← list_tz_segments ev.period_id
    lift (settle_day segs (column_time ev.start_utc) (utc.local_date (column_time ev.start_utc)))
