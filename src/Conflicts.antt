-- ===== src/Conflicts.antt =====
-- internal/service/review_policy.go: how a question about a calendar event is asked under its conflict
-- key, and how an answer that was given under the key is replayed or asked for again.
pub mod Asked
use text.Mathlib.Text.{◌==◌ as str_eq}
use clockr.Base.{
  ℕ, suc, String, Bool, true, false, not, Option, none, some, List, [], ◌∷◌, ltb, if◌then◌else◌,
}
use clockr.GoText.{join}
use clockr.Sources.{Kind, Status, Action, Payload, ConflictKey, ReviewItem, no_action, source_drift}
use clockr.Ledger.{M, ◌>>=◌, ◌>>◌, pure}
use clockr.Queries.{
  is_opened, create_review_item, get_review_item_by_conflict_key, update_open_review_item_payload,
  reopen_review_item,
}

-- ConflictKey
unfoldable pub conflict_key : String → List String → String
unfolding join
conflict_key identity parts = join "|" (identity ∷ parts)

abbrev pub key_of : ℕ → Kind → String → ConflictKey
key_of period_id kind text = record { period_id = period_id; kind = kind; conflict_key = text }

-- What `EnqueueOrReplay` returns: an action to replay, and whether an item was created.
pub record Enqueued : Type 0 where
  pub action : Action
  pub created : Bool

abbrev pub enqueued : Action → Bool → Enqueued
enqueued action created = record { action = action; created = created }

abbrev pub replayed : ReviewItem → Enqueued
replayed existing =
    if is_opened existing.status
    then enqueued no_action false
    else enqueued existing.decision_action false

-- What follows the lookup by the conflict key.
unfoldable pub enqueue_unless : ConflictKey → ℕ → Payload → Option ReviewItem → M Enqueued
unfolding is_opened
enqueue_unless k event_id payload (some existing) = pure (replayed existing)
enqueue_unless k event_id payload none = do
  create_review_item k event_id payload
  pure (enqueued no_action true)

unfoldable pub enqueue_or_replay : ConflictKey → ℕ → Payload → M Enqueued
unfolding enqueue_unless
enqueue_or_replay k event_id payload = do
  existing ← get_review_item_by_conflict_key k
  enqueue_unless k event_id payload existing

-- What `enqueueSourceDrift` does with the item that it finds.
unfoldable pub enqueue_or_reopen : ConflictKey → ℕ → Payload → Option ReviewItem → M Bool
unfolding is_opened
enqueue_or_reopen k event_id payload none = do create_review_item k event_id payload; pure true
enqueue_or_reopen k event_id payload (some existing) =
    if is_opened existing.status
    then (do update_open_review_item_payload payload existing.id; pure false)
    else (do n ← reopen_review_item payload event_id existing.id; pure (ltb 0 n))

unfoldable pub enqueue_source_drift : ℕ → ℕ → String → Payload → M Bool
unfolding join enqueue_or_reopen
enqueue_source_drift period_id event_id identity payload =
    let k = key_of period_id source_drift (join "|" (identity ∷ "source_drift" ∷ [])) in
    do existing ← get_review_item_by_conflict_key k; enqueue_or_reopen k event_id payload existing
