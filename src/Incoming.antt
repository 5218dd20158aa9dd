-- ===== src/Incoming.antt =====
-- internal/service/sync.go and ai_sync.go: the row that a pulled event is stored as, and its category.
use text.Mathlib.Text.{◌==◌ as str_eq}
use Prim.Native.String.{◌++◌ as append}
use clockr.Base.{ℕ, String, Bool, true, false, not, Option, none, some, [], ◌∷◌, if◌then◌else◌}
use clockr.GoTime.{Stamp, format_stamp}
use clockr.GoText.{join, sprint, trim_space}
use clockr.Sources.{Event, EventParams, OverlayKind}
use clockr.Ledger.{M, ◌>>=◌, ◌>>◌, pure}
use clockr.Queries.{upsert_overlay, get_memory, get_calendar_default}
use clockr.Calendar.{IncomingEvent, overlay_key, overlay_category}
use clockr.Resync.{World, normalize_title}

-- eventKey
unfoldable pub text_key : ℕ → String → String → String
unfolding join sprint
text_key calendar_id external_id instance_id =
    join "|" (sprint calendar_id ∷ external_id ∷ instance_id ∷ [])

abbrev pub key_of_event : Event → String
key_of_event e = text_key e.calendar_id e.external_id e.instance_id

abbrev pub key_of_incoming : IncomingEvent → String
key_of_incoming inc = text_key inc.calendar_id inc.external_id inc.instance_id

abbrev is_some : Option ℕ → Bool
is_some none = false
is_some (some c) = true

-- hasCategory
unfoldable pub has_category : ℕ → String → String → String → M Bool
has_category period_id provider external_id instance_id = do
  c ← overlay_category (overlay_key period_id provider external_id instance_id OverlayKind.category)
  pure (is_some c)

abbrev pub has_category_of : ℕ → IncomingEvent → M Bool
has_category_of period_id inc = has_category period_id inc.provider inc.external_id inc.instance_id

-- The category overlay of an incoming event, if there is a category to write.
unfoldable pub categorize : ℕ → IncomingEvent → Option ℕ → M (Unit {0})
categorize period_id inc none = pure tt
categorize period_id inc (some c) =
    upsert_overlay
      (overlay_key period_id inc.provider inc.external_id inc.instance_id OverlayKind.category)
      (some c) ""

abbrev null_time : Option ℕ → Option Stamp
null_time none = none
null_time (some t) = some (format_stamp t)

abbrev stamp_column : (Stamp → String) → Option Stamp → String
stamp_column text none = ""
stamp_column text (some s) = text s

abbrev digit_of : Bool → String
digit_of b = if b then "1" else "0"

module _ (w : World) where
  -- sourceHash
  unfoldable pub source_hash : EventParams → String
  source_hash p = w.digest (
      p.provider
      ∷ p.external_id
      ∷ p.instance_id
      ∷ p.recurring_event_id
      ∷ p.ical_uid
      ∷ p.title
      ∷ p.description
      ∷ p.location
      ∷ p.organizer
      ∷ p.attendees
      ∷ digit_of p.all_day
      ∷ stamp_column w.stamp_text p.start_utc
      ∷ stamp_column w.stamp_text p.end_utc
      ∷ p.start_date
      ∷ p.end_date
      ∷ p.original_tz
      ∷ [])

  -- The parameters without their hash.
  unfoldable pub unhashed : ℕ → IncomingEvent → EventParams
  unfolding format_stamp
  unhashed period_id inc = record {
    period_id = period_id;
    calendar_id = inc.calendar_id;
    provider = inc.provider;
    external_id = inc.external_id;
    instance_id = inc.instance_id;
    recurring_event_id = inc.recurring_event_id;
    ical_uid = inc.ical_uid;
    title = inc.title;
    description = inc.description;
    location = inc.location;
    organizer = inc.organizer;
    attendees = inc.attendees;
    status = inc.status;
    all_day = inc.all_day;
    start_utc = null_time inc.start;
    end_utc = null_time inc.end;
    start_date = inc.start_date;
    end_date = inc.end_date;
    original_tz = inc.original_tz;
    source_hash = "";
  }

  unfoldable pub upsert_params : ℕ → IncomingEvent → EventParams
  unfolding source_hash unhashed
  upsert_params period_id inc =
      let p = unhashed period_id inc in record p { source_hash = source_hash p }

  -- matchKey
  unfoldable pub match_key : IncomingEvent → String
  unfolding normalize_title trim_space
  match_key inc =
      if not (str_eq inc.recurring_event_id "")
      then append "rid:" inc.recurring_event_id
      else append "title:" (
          append (normalize_title w inc.title) (append "|" (w.to_lower (trim_space inc.organizer))))

  unfoldable pub apply_memory : ℕ → IncomingEvent → M (Unit {0})
  unfolding match_key categorize
  apply_memory period_id inc = do c ← get_memory (match_key inc); categorize period_id inc c

  unfoldable pub apply_calendar_default : ℕ → IncomingEvent → M (Unit {0})
  unfolding has_category categorize
  apply_calendar_default period_id inc = do
    has ← has_category_of period_id inc
    if has then pure tt else (get_calendar_default inc.calendar_id >>= categorize period_id inc)

  -- `suggest` answers for loadAIConfig and what follows it.
  unfoldable pub apply_ai_suggestion : ℕ → IncomingEvent → M (Unit {0})
  unfolding has_category categorize
  apply_ai_suggestion period_id inc = do
    has ← has_category_of period_id inc
    if has then pure tt else categorize period_id inc (w.suggest inc)

  abbrev pub categorize_new : ℕ → IncomingEvent → M (Unit {0})
  categorize_new period_id inc = do
    apply_memory period_id inc
    apply_calendar_default period_id inc
    apply_ai_suggestion period_id inc
  -- The number of new questions.
