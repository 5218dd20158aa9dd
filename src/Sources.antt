-- ===== src/Sources.antt =====
-- The tables that connect a period to its calendars, of internal/db/sqlc/models.go: the events that a
-- sync has stored, the user's decisions about them (overlay) and the open questions (review_item).
--
-- A column that the CHECK constraints limit to some texts is kept as the one it holds. A JSON payload is
-- kept as the fields that json.Unmarshal finds in it. created_at, updated_at, resolved_at,
-- resolved_overlap and decision_payload, which nothing reads, are left out.
use clockr.Base.{ℕ, String, Bool, Option, List, []}
use clockr.GoTime.{Stamp}

-- sqlc.UpsertEventParams: what a sync writes.
pub record EventParams : Type 0 where
  pub period_id : ℕ
  pub calendar_id : ℕ
  pub provider : String
  pub external_id : String
  pub instance_id : String
  pub recurring_event_id : String
  pub ical_uid : String
  pub title : String
  pub description : String
  pub location : String
  pub organizer : String
  pub attendees : String
  pub status : String
  pub all_day : Bool
  pub start_utc : Option Stamp
  pub end_utc : Option Stamp
  pub start_date : String
  pub end_date : String
  pub original_tz : String
  pub source_hash : String

-- sqlc.Event: a row.
pub record Event : Type 0 where
  pub id : ℕ
  pub active : Bool
  pub fields : EventParams
  pub open fields use *

-- The CHECK constraint on overlay.kind.
pub data OverlayKind : Type 0 where
  category overlap status : OverlayKind

-- The columns by which an overlay is found: the unique key of the table.
pub record OverlayKey : Type 0 where
  pub period_id : ℕ
  pub provider : String
  pub external_id : String
  pub instance_id : String
  pub kind : OverlayKind

-- sqlc.Overlay.
pub record Overlay : Type 0 where
  pub id : ℕ
  pub key : OverlayKey
  pub category_id : Option ℕ
  pub note : String

-- The CHECK constraint on review_item.kind.
pub data Kind : Type 0 where
  overlap dedup_ambiguous tentative all_day title_changed : Kind
  deleted_categorized new_in_gap source_drift : Kind

-- The CHECK constraint on review_item.status.
pub data Status : Type 0 where
  opened resolved dismissed : Status

-- The resolution actions, and any other text that a client sends.
pub data Action : Type 0 where
  keep_entry drop_entry accept dismiss keep_gap use_event include exclude spawn_draft replace :
      Action
  other : String → Action

-- The column decision_action of an item that waits for its decision.
abbrev pub no_action : Action
no_action = other ""

-- The fields of the payloads.
pub record Payload : Type 0 where
  pub time_entry_ids : List ℕ
  pub event_identity : String
  pub source_revision : String
  pub texts : List (String × String)

abbrev pub payload_of : List (String × String) → Payload
payload_of texts = record {
  time_entry_ids = [];
  event_identity = "";
  source_revision = "";
  texts = texts;
}

-- The columns under which a review item is found again.
pub record ConflictKey : Type 0 where
  pub period_id : ℕ
  pub kind : Kind
  pub conflict_key : String

-- sqlc.ReviewItem.
pub record ReviewItem : Type 0 where
  pub id : ℕ
  pub key : ConflictKey
  pub open key use *
  pub event_id : Option ℕ
  pub payload : Payload
  pub status : Status
  pub decision_action : Action

-- The tables, and the ids that the next rows get. A memory is a match key and its category, a calendar
-- its id and its default category.
pub record Sources : Type 0 where
  pub events : List Event
  pub overlays : List Overlay
  pub review_items : List ReviewItem
  pub memory : List (String × ℕ)
  pub calendars : List (ℕ × Option ℕ)
  pub next_event : ℕ
  pub next_overlay : ℕ
  pub next_review : ℕ

abbrev pub no_sources : Sources
no_sources = record {
  events = [];
  overlays = [];
  review_items = [];
  memory = [];
  calendars = [];
  next_event = 1;
  next_overlay = 1;
  next_review = 1;
}
