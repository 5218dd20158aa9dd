-- ===== src/Resync.antt =====
-- internal/service/review_policy.go: the questions that a sync asks about the events that it meets, and the
-- answers that it replays.
pub mod Calm
pub mod Steps
use text.Mathlib.Text.{◌==◌ as str_eq}
use clockr.Base.{
  ℕ, ◌+◌, String, Bool, true, false, not, ◌&&◌, ◌||◌, Option, none, some, List, [], ◌∷◌, ltb, ◌==◌,
  if◌then◌else◌,
}
use clockr.GoTime.{Stamp, Location}
use clockr.GoText.{join, fields, sprint}
use clockr.Timeline.{parse_time}
use clockr.Sources.{
  Event, Kind, Status, Action, Payload, ReviewItem, payload_of, no_action, keep_entry, drop_entry,
  keep_gap, use_event, exclude, other, tentative, all_day, title_changed, deleted_categorized,
  new_in_gap,
}
use clockr.Ledger.{M, ◌>>=◌, ◌>>◌, pure, Row, is_confirmed}
use clockr.Calendar.{
  IncomingEvent, event_identity_from_incoming, event_identity_from_row, is_linked,
}
use clockr.Conflicts.{Enqueued, key_of, conflict_key, enqueue_or_replay, enqueue_source_drift}
use clockr.Review.{apply}
use clockr.Materialize.{waits_for_answer}

-- What a sync takes from outside: the zones, time.UTC, the text of an instant's column, strings.ToLower,
-- and `digest`, the SHA-256 of the texts with a NUL between them, in hexadecimal digits. `suggest` is the
-- category that the configured model names for an event, if there is one.
pub record World : Type 0 where
  pub zones : String → Option Location
  pub utc : Location
  pub stamp_text : Stamp → String
  pub to_lower : String → String
  pub digest : List String → String
  pub suggest : IncomingEvent → Option ℕ

-- A number of new questions.
abbrev pub count_of : Bool → ℕ
count_of b = if b then 1 else 0

-- The item that a replay hands to Apply.
abbrev pub replay_item : ℕ → Kind → ℕ → ReviewItem
replay_item period_id kind event_id = record {
  id = 0;
  key = key_of period_id kind "";
  event_id = some event_id;
  payload = payload_of [];
  status = Status.opened;
  decision_action = no_action;
}

abbrev pub is_drop : Action → Bool
is_drop drop_entry = true
is_drop _ = false

abbrev pub is_keep_entry : Action → Bool
is_keep_entry keep_entry = true
is_keep_entry _ = false

abbrev pub is_keep_gap : Action → Bool
is_keep_gap keep_gap = true
is_keep_gap _ = false

abbrev pub is_use_event : Action → Bool
is_use_event use_event = true
is_use_event _ = false

abbrev pub is_exclude : Action → Bool
is_exclude exclude = true
is_exclude _ = false

unfoldable pub overlaps_gap : ℕ → ℕ → Row → Bool
unfolding parse_time
overlaps_gap s e g =
    let gs = parse_time g.start_instant in
    let ge = parse_time g.end_instant in not (gs == 0 || ge == 0) && ltb s ge && ltb gs e

abbrev category_text : Option ℕ → String
category_text none = "none"
category_text (some c) = sprint c

abbrev text_or_empty : Option String → String
text_or_empty none = ""
text_or_empty (some s) = s

module _ (w : World) where
  -- normalizeTitle
  unfoldable pub normalize_title : String → String
  unfolding join fields
  normalize_title s = w.to_lower (join " " (fields s))

  unfoldable pub gap_parts : ℕ → ℕ → List Row → List String
  unfolding overlaps_gap join
  gap_parts s e [] = []
  gap_parts s e (g ∷ gaps) =
      let parts = gap_parts s e gaps in
      if overlaps_gap s e g
      then join "~" (
          w.stamp_text g.start_instant
          ∷ w.stamp_text g.end_instant
          ∷ category_text g.category_id
          ∷ text_or_empty g.method
          ∷ [])
        ∷ parts
      else parts

  abbrev joined : List String → Option String
  joined [] = none
  joined parts = some (join "^" parts)

  unfoldable pub overlapping_gap_fingerprint : IncomingEvent → List Row → Option String
  unfolding gap_parts
  overlapping_gap_fingerprint inc gaps = elim inc.start [
    | none ↦ none
    | some s ↦ elim inc.end [ none ↦ none | some e ↦ joined (gap_parts s e gaps) ]
  ]

  -- Apply on a replayed answer.
  unfoldable pub replay : ℕ → Kind → ℕ → Action → M (Unit {0})
  replay period_id kind event_id action =
      apply w.zones w.utc (replay_item period_id kind event_id) action >> pure tt

  -- The questions that were asked, and whether the answer dropped the entry.
  unfoldable pub on_vanished_categorized : ℕ → Event → M (Bool × Bool)
  unfolding conflict_key replay
  on_vanished_categorized period_id e = do
    r ←
        enqueue_or_replay
          (key_of period_id deleted_categorized
            (conflict_key (event_identity_from_row e) ("deleted" ∷ [])))
          e.id (payload_of (("reason", "deleted") ∷ ("title", e.title) ∷ []))
    if is_drop r.action || is_keep_entry r.action
        then replay period_id deleted_categorized e.id r.action
        else pure tt
    pure (r.created, is_drop r.action)

  -- The cases of `OnNewEvent`.
  unfoldable pub on_gap : ℕ → IncomingEvent → ℕ → String → M (ℕ × Bool)
  unfolding conflict_key replay
  on_gap period_id inc event_id fingerprint = do
    r ←
        enqueue_or_replay
          (key_of period_id new_in_gap
            (conflict_key (event_identity_from_incoming inc) (fingerprint ∷ [])))
          event_id (payload_of (("title", inc.title) ∷ []))
    if is_keep_gap r.action || is_use_event r.action
        then replay period_id new_in_gap event_id r.action
        else pure tt
    pure (count_of r.created, is_keep_gap r.action)

  unfoldable pub on_all_day : ℕ → IncomingEvent → ℕ → M (ℕ × Bool)
  unfolding conflict_key
  on_all_day period_id inc event_id = do
    r ←
        enqueue_or_replay
          (key_of period_id all_day
            (conflict_key (event_identity_from_incoming inc) (inc.start_date ∷ inc.end_date ∷ [])))
          event_id (payload_of (("title", inc.title) ∷ []))
    pure (count_of r.created, false)

  unfoldable pub on_tentative : ℕ → IncomingEvent → ℕ → M (ℕ × Bool)
  unfolding conflict_key replay
  on_tentative period_id inc event_id = do
    r ←
        enqueue_or_replay
          (key_of period_id tentative
            (conflict_key (event_identity_from_incoming inc) (inc.status ∷ [])))
          event_id (payload_of (("title", inc.title) ∷ ("status", inc.status) ∷ []))
    if is_exclude r.action then replay period_id tentative event_id r.action else pure tt
    pure (count_of r.created, is_exclude r.action)

  abbrev pub gap_or : ℕ → IncomingEvent → ℕ → Option String → M (ℕ × Bool)
  gap_or period_id inc event_id (some fingerprint) = on_gap period_id inc event_id fingerprint
  gap_or period_id inc event_id none =
      if inc.all_day
      then on_all_day period_id inc event_id
      else if waits_for_answer inc
      then on_tentative period_id inc event_id
      else pure (0, false)

  -- New questions, and whether the event gets no category.
  unfoldable pub on_new_event : ℕ → IncomingEvent → ℕ → List Row → M (ℕ × Bool)
  unfolding overlapping_gap_fingerprint waits_for_answer on_gap on_all_day on_tentative
  on_new_event period_id inc event_id gaps =
      gap_or period_id inc event_id (overlapping_gap_fingerprint inc gaps)

  unfoldable pub ask_title : ℕ → ℕ → Event → IncomingEvent → M ℕ
  unfolding conflict_key normalize_title
  ask_title period_id event_id ex inc = do
    r ←
        enqueue_or_replay
          (key_of period_id title_changed (
            conflict_key (event_identity_from_incoming inc)
              (normalize_title ex.title ∷ normalize_title inc.title ∷ [])))
          event_id (payload_of (("from", ex.title) ∷ ("to", inc.title) ∷ []))
    pure (count_of r.created)

  unfoldable pub ask_declined : ℕ → ℕ → IncomingEvent → M ℕ
  unfolding conflict_key replay
  ask_declined period_id event_id inc = do
    r ←
        enqueue_or_replay
          (key_of period_id deleted_categorized
            (conflict_key (event_identity_from_incoming inc) ("declined" ∷ [])))
          event_id (payload_of (("reason", "declined") ∷ ("title", inc.title) ∷ []))
    if is_drop r.action then replay period_id deleted_categorized event_id r.action else pure tt
    pure (count_of r.created)

  -- titleMaterialChange
  unfoldable pub title_material_change : Event → IncomingEvent → Bool
  unfolding normalize_title
  title_material_change ex inc = not (str_eq (normalize_title ex.title) (normalize_title inc.title))

  unfoldable pub on_changed_categorized : ℕ → ℕ → Event → IncomingEvent → M ℕ
  unfolding title_material_change ask_title ask_declined
  on_changed_categorized period_id event_id ex inc = do
    a ← if title_material_change ex inc then ask_title period_id event_id ex inc else pure 0
    b ← if str_eq inc.status "declined" then ask_declined period_id event_id inc else pure 0
    pure (a + b)
