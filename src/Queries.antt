-- ===== src/Queries.antt =====
-- The queries of internal/db/sqlc (event.sql.go, overlay.sql.go, review_item.sql.go and the rest of
-- time_entry.sql.go) that connect a period to its calendars, as actions on the database.
--
-- A query that the callers test for sql.ErrNoRows returns an Option; in the others a missing row is
-- the error that mapErr makes of it.
pub mod Items
pub mod Reads
use Prim.Native.String.{compare as compare_text}
use text.Mathlib.Text.{◌==◌ as str_eq, is_le}
use clockr.Base.{
  ℕ, suc, ◌+◌, String, Bool, true, false, ◌&&◌, Option, none, some, List, [], ◌∷◌, ◌++◌, failure,
  ok, err, ◌==◌, if◌then◌else◌, length, not, find, keep, sort_by,
}
use clockr.GoTime.{Stamp, Date}
use clockr.Sources.{
  Event, EventParams, Overlay, OverlayKey, OverlayKind, ReviewItem, ConflictKey, Kind, Status,
  Action, Payload, Sources, no_action,
}
use clockr.Ledger.{
  Db, M, stamp_le, statement, one_row, Params, Row, is_row, is_draft, update_where, update_row,
}

-- Tests of the constants by their number.
abbrev overlay_kind_number : OverlayKind → ℕ
overlay_kind_number OverlayKind.category = 0
overlay_kind_number OverlayKind.overlap = 1
overlay_kind_number OverlayKind.status = 2

abbrev kind_number : Kind → ℕ
kind_number Kind.overlap = 0
kind_number Kind.dedup_ambiguous = 1
kind_number Kind.tentative = 2
kind_number Kind.all_day = 3
kind_number Kind.title_changed = 4
kind_number Kind.deleted_categorized = 5
kind_number Kind.new_in_gap = 6
kind_number Kind.source_drift = 7

unfoldable pub same_kind : Kind → Kind → Bool
same_kind a b = kind_number a == kind_number b

unfoldable pub is_opened : Status → Bool
is_opened Status.opened = true
is_opened _ = false

unfoldable pub same_key : OverlayKey → OverlayKey → Bool
same_key a b =
    a.period_id == b.period_id
    && str_eq a.provider b.provider
    && str_eq a.external_id b.external_id
    && str_eq a.instance_id b.instance_id
    && overlay_kind_number a.kind == overlay_kind_number b.kind

unfoldable pub same_conflict : ConflictKey → ConflictKey → Bool
unfolding same_kind
same_conflict a b =
    a.period_id == b.period_id && same_kind a.kind b.kind && str_eq a.conflict_key b.conflict_key

unfoldable pub get_event : ℕ → M Event
get_event id = statement λ db. (one_row (find (λ e. e.id == id) db.sources.events), db)

unfoldable pub get_overlay : OverlayKey → M (Option Overlay)
get_overlay k = statement λ db. (ok (find (λ o. same_key o.key k) db.sources.overlays), db)

-- DO UPDATE SET on the overlays with the key.
unfoldable pub set_overlays : OverlayKey → Option ℕ → String → List Overlay → List Overlay
set_overlays k c note [] = []
set_overlays k c note (o ∷ os) =
    (if same_key o.key k then record o { category_id = c; note = note } else o)
    ∷ set_overlays k c note os

abbrev pub is_found : {A : Type 0} → Option A → Bool
is_found none = false
is_found (some a) = true

-- The overlays after the INSERT … ON CONFLICT.
unfoldable pub upserted : OverlayKey → Option ℕ → String → Sources → Sources
unfolding set_overlays
upserted k c note s =
    if is_found (find (λ o. same_key o.key k) s.overlays)
    then record s { overlays = set_overlays k c note s.overlays }
    else record s {
      overlays =
          s.overlays ++ record { id = s.next_overlay; key = k; category_id = c; note = note } ∷ [];
      next_overlay = suc s.next_overlay;
    }

unfoldable pub upsert_overlay : OverlayKey → Option ℕ → String → M (Unit {0})
unfolding upserted
upsert_overlay k c note =
    statement λ db. (ok tt, record db { sources = upserted k c note db.sources })

unfoldable pub delete_overlay : ℕ → M (Unit {0})
delete_overlay id = statement λ db. (
  ok tt,
  record db {
    sources = record (db.sources) { overlays = keep (λ o. not (o.id == id)) db.sources.overlays };
  },
)

unfoldable pub get_review_item : ℕ → M ReviewItem
get_review_item id = statement λ db. (one_row (find (λ i. i.id == id) db.sources.review_items), db)

-- The unique index leaves one row at most for ORDER BY and LIMIT to choose from.
unfoldable pub get_review_item_by_conflict_key : ConflictKey → M (Option ReviewItem)
unfolding same_conflict
get_review_item_by_conflict_key k =
    statement λ db. (ok (find (λ i. same_conflict i.key k) db.sources.review_items), db)

-- Rows stand in the order in which they were created.
unfoldable pub list_open_review_items : ℕ → M (List ReviewItem)
unfolding is_opened
list_open_review_items pid =
    statement
      λ db. (ok (keep (λ i. i.period_id == pid && is_opened i.status) db.sources.review_items), db)

-- The unique index on the key refuses a second row, except under an empty conflict_key.
unfoldable pub create_review_item : ConflictKey → ℕ → Payload → M (Unit {0})
unfolding same_conflict
create_review_item k event_id payload = statement λ db.
    let s = db.sources in
    if is_found (find (λ i. same_conflict i.key k) s.review_items) && not (str_eq k.conflict_key "")
    then (err failure, db)
    else (
      ok tt,
      record db {
        sources = record s {
          review_items =
              s.review_items
              ++ record {
                id = s.next_review;
                key = k;
                event_id = some event_id;
                payload = payload;
                status = Status.opened;
                decision_action = no_action;
              }
                ∷ [];
          next_review = suc s.next_review;
        };
      },
    )

-- UPDATE review_item SET … WHERE.
unfoldable pub set_items :
    (ReviewItem → Bool) → (ReviewItem → ReviewItem) → List ReviewItem → List ReviewItem
set_items p f [] = []
set_items p f (i ∷ is) = (if p i then f i else i) ∷ set_items p f is

-- :execrows; the result is the number of rows that the WHERE clause selected.
unfoldable pub update_items : (ReviewItem → Bool) → (ReviewItem → ReviewItem) → M ℕ
unfolding set_items
update_items p f = statement λ db.
    let s = db.sources in
    (
      ok (length (keep p s.review_items)),
      record db { sources = record s { review_items = set_items p f s.review_items } },
    )

unfoldable pub update_open_review_item_payload : Payload → ℕ → M ℕ
unfolding is_opened
update_open_review_item_payload payload id =
    update_items (λ i. i.id == id && is_opened i.status) (λ i. record i { payload = payload })

unfoldable pub reopen_review_item : Payload → ℕ → ℕ → M ℕ
unfolding is_opened
reopen_review_item payload event_id id =
    update_items (λ i. i.id == id && not (is_opened i.status))
      λ i. record i {
        status = Status.opened;
        payload = payload;
        event_id = some event_id;
        decision_action = no_action;
      }

abbrev pub decided : Status → Action → ReviewItem → ReviewItem
decided status action i = record i { status = status; decision_action = action }

unfoldable pub resolve_review_item : Status → Action → ℕ → M ℕ
resolve_review_item status action id = update_items (λ i. i.id == id) (decided status action)

-- The columns that UpdateTimeEntrySpan sets.
pub record SpanEdit : Type 0 where
  pub start_instant : Stamp
  pub end_instant : Stamp
  pub duration_minutes : ℕ
  pub local_work_date : Date

abbrev pub set_span : SpanEdit → Params → Params
set_span e p = record p {
  start_instant = e.start_instant;
  end_instant = e.end_instant;
  duration_minutes = e.duration_minutes;
  local_work_date = e.local_work_date;
}

unfoldable pub update_time_entry_span : SpanEdit → ℕ → ℕ → M Row
update_time_entry_span e id pid = update_row (is_row id pid) (set_span e)

-- The columns that UpdateTimeEntryCalendarDraft sets beside the span.
pub record DraftEdit : Type 0 where
  pub span : SpanEdit
  pub description : String
  pub source_revision : Option String
  pub category_id : Option ℕ

abbrev pub set_calendar_draft : DraftEdit → Params → Params
set_calendar_draft e p = record (set_span e.span p) {
  description = e.description;
  source_revision = e.source_revision;
  category_id = e.category_id;
}

-- WHERE id = ? AND period_id = ? AND attestation = 'draft'
unfoldable pub is_draft_row : ℕ → ℕ → Row → Bool
unfolding is_row is_draft
is_draft_row id pid r = is_row id pid r && is_draft r.attestation

unfoldable pub update_time_entry_calendar_draft : DraftEdit → ℕ → ℕ → M Row
unfolding is_draft_row
update_time_entry_calendar_draft e id pid = update_row (is_draft_row id pid) (set_calendar_draft e)

abbrev pub set_revision : Option String → Params → Params
set_revision rev p = record p { source_revision = rev }

-- :exec, which does not ask whether a row was found.
unfoldable pub update_time_entry_source_revision : Option String → ℕ → ℕ → M (Unit {0})
unfolding update_where
update_time_entry_source_revision rev id pid = statement λ db.
    (ok tt, record db { entries = update_where (is_row id pid) (set_revision rev) db.entries })

abbrev start_le : Option Stamp → Option Stamp → Bool
start_le none b = true
start_le (some a) none = false
start_le (some a) (some b) = stamp_le a b

-- ORDER BY start_utc, start_date, where NULL comes first.
unfoldable pub event_le : Event → Event → Bool
event_le a b =
    if start_le a.start_utc b.start_utc && start_le b.start_utc a.start_utc
    then is_le (compare_text a.start_date b.start_date)
    else start_le a.start_utc b.start_utc

unfoldable pub list_all_events_for_period : ℕ → M (List Event)
unfolding event_le
list_all_events_for_period pid =
    statement λ db. (ok (sort_by event_le (keep (λ e. e.period_id == pid) db.sources.events)), db)

-- ON CONFLICT (period_id, calendar_id, external_id, instance_id)
unfoldable pub same_event : EventParams → EventParams → Bool
same_event a b =
    a.period_id == b.period_id
    && a.calendar_id == b.calendar_id
    && str_eq a.external_id b.external_id
    && str_eq a.instance_id b.instance_id

unfoldable pub set_events : EventParams → List Event → List Event
unfolding same_event
set_events p [] = []
set_events p (e ∷ es) =
    (if same_event e.fields p then record e { fields = p } else e) ∷ set_events p es

-- The row that the statement returns, and the table after it.
unfoldable pub upserted_event : EventParams → Sources → Option Event → Event × Sources
unfolding set_events
upserted_event p s (some e) = (record e { fields = p }, record s { events = set_events p s.events })
upserted_event p s none =
    let e : Event = record { id = s.next_event; active = true; fields = p } in
    (e, record s { events = s.events ++ e ∷ []; next_event = suc s.next_event })

unfoldable pub upsert_event : EventParams → M Event
unfolding upserted_event same_event
upsert_event p = statement λ db.
    let (e, s) =
      upserted_event p db.sources (find (λ x. same_event x.fields p) db.sources.events) in
    (ok e, record db { sources = s })

abbrev pub is_about : ℕ → ReviewItem → Bool
is_about id item = elim item.event_id [ none ↦ false | some e ↦ e == id ]

-- The review items of the event go with it, by ON DELETE CASCADE.
unfoldable pub delete_event : ℕ → M (Unit {0})
delete_event id = statement λ db. (
  ok tt,
  record db {
    sources = record (db.sources) {
      events = keep (λ e. not (e.id == id)) db.sources.events;
      review_items = keep (λ i. not (is_about id i)) db.sources.review_items;
    };
  },
)

abbrev second_of : {A : Type 0} → Option (String × A) → Option A
second_of none = none
second_of (some x) = some x.1

unfoldable pub get_memory : String → M (Option ℕ)
get_memory key = statement λ db. (ok (second_of (find (λ m. str_eq m.0 key) db.sources.memory)), db)

abbrev default_of : Option (ℕ × Option ℕ) → Option ℕ
default_of none = none
default_of (some x) = x.1

-- The default category of the calendar, if there are both.
unfoldable pub get_calendar_default : ℕ → M (Option ℕ)
get_calendar_default id =
    statement λ db. (ok (default_of (find (λ c. c.0 == id) db.sources.calendars)), db)
