-- ===== src/SourceDrift.antt =====
-- internal/service/review_policy.go: the question that a sync asks about confirmed entries whose event
-- has changed or is gone.
use text.Mathlib.Text.{◌==◌ as str_eq}
use clockr.Base.{
  ℕ, String, Bool, true, false, not, ◌&&◌, Option, none, some, List, [], ◌∷◌, if◌then◌else◌,
}
use clockr.Sources.{Event, Payload}
use clockr.Ledger.{M, ◌>>=◌, pure, Row, is_confirmed}
use clockr.Calendar.{
  IncomingEvent, event_identity_from_incoming, event_identity_from_row, is_linked,
}
use clockr.Conflicts.{enqueue_source_drift}
use clockr.Resync.{count_of}

abbrev is_current : Option String → String → Bool
is_current none hash = str_eq "" hash
is_current (some rev) hash = str_eq rev hash

abbrev is_at : Option String → Row → Bool
is_at none te = false
is_at (some hash) te = is_current te.source_revision hash

-- The confirmed entries of the event whose revision is not `hash`, if it is asked for.
unfoldable pub drifted_ids : String → Option String → List Row → List ℕ
unfolding is_linked is_confirmed
drifted_ids identity hash [] = []
drifted_ids identity hash (te ∷ entries) =
    let ids = drifted_ids identity hash entries in
    if is_confirmed te.attestation && is_linked identity te && not (is_at hash te)
    then te.id ∷ ids
    else ids

abbrev drift_payload : List ℕ → String → String → List (String × String) → Payload
drift_payload ids identity revision texts = record {
  time_entry_ids = ids;
  event_identity = identity;
  source_revision = revision;
  texts = texts;
}

unfoldable pub ask_drift : ℕ → ℕ → String → String → List (String × String) → List ℕ → M ℕ
ask_drift period_id event_id identity revision texts [] = pure 0
ask_drift period_id event_id identity revision texts (id ∷ ids) = do
  created ←
      enqueue_source_drift period_id event_id identity
        (drift_payload (id ∷ ids) identity revision texts)
  pure (count_of created)

unfoldable pub on_confirmed_source_drift : ℕ → ℕ → IncomingEvent → List Row → String → M ℕ
unfolding drifted_ids ask_drift
on_confirmed_source_drift period_id event_id inc entries new_hash =
    let identity = event_identity_from_incoming inc in
    ask_drift period_id event_id identity new_hash (("title", inc.title) ∷ [])
      (drifted_ids identity (some new_hash) entries)

abbrev some_id : List ℕ → Bool
some_id [] = false
some_id (id ∷ ids) = true

-- New questions, and whether the event stays.
unfoldable pub on_vanished_confirmed_source : ℕ → Event → List Row → M (ℕ × Bool)
unfolding drifted_ids ask_drift
on_vanished_confirmed_source period_id ev entries =
    let identity = event_identity_from_row ev in
    let ids = drifted_ids identity none entries in
    do
      n ←
          ask_drift period_id ev.id identity "deleted"
            (("title", ev.title) ∷ ("reason", "deleted") ∷ []) ids
      pure (n, some_id ids)
