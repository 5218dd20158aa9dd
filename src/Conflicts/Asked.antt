-- ===== src/Conflicts/Asked.antt =====
-- What `EnqueueOrReplay` does by the item that stands under the conflict key.
use mathlib.Core.Option.{Option}
use clockr.Base.{
  ℕ, ◌≡◌, refl, ap, ◌∙◌, Bool, true, false, some, none, List, [], ◌∷◌, ◌++◌, arith, find, ok,
}
use text.Mathlib.TextPositions.{eq_refl}
use clockr.Sources.{ConflictKey, Payload, ReviewItem, Sources, Status, no_action}
use clockr.Ledger.{Db, ◌>>=◌, pure, statement, consume, refused}
use clockr.Ledger.Returns.{Runs, bind-runs, pure-runs}
use clockr.Queries.{
  is_opened, same_kind, same_conflict, get_review_item_by_conflict_key, create_review_item,
}
use clockr.Conflicts.{Enqueued, enqueued, replayed, enqueue_unless, enqueue_or_replay}

-- The item under the key.
abbrev pub asked : ConflictKey → Db → Option ReviewItem
asked k db = find (λ i. same_conflict i.key k) db.sources.review_items

pub enqueue_or_replay-found :
    (k : ConflictKey) (event_id : ℕ) (payload : Payload) (db : Db) (existing : ReviewItem)
    → refused db ≡ false
    → asked k db ≡ some existing
    → enqueue_or_replay k event_id payload db ≡ (ok (replayed existing), consume db)
unfolding enqueue_or_replay enqueue_unless get_review_item_by_conflict_key statement ◌>>=◌ pure
enqueue_or_replay-found k event_id payload db existing free h = rw (free, h) refl

find-append_new :
    (q : ReviewItem → Bool) (is : List ReviewItem) (i : ReviewItem)
    → find q is ≡ none
    → q i ≡ true
    → find q (is ++ i ∷ []) ≡ some i
unfolding find
find-append_new q [] i h e = ground arith
find-append_new q (x ∷ is) i h e = ground (arith, find-append_new q is i)

same_conflict_refl : (k : ConflictKey) → same_conflict k k ≡ true
unfolding same_conflict same_kind
same_conflict_refl k = ground (arith, eq_refl k.conflict_key)

abbrev new_item : ConflictKey → ℕ → Payload → Db → ReviewItem
new_item k event_id payload db = record {
  id = db.sources.next_review;
  key = k;
  event_id = some event_id;
  payload = payload;
  status = Status.opened;
  decision_action = no_action;
}

create_item-runs :
    (k : ConflictKey) (event_id : ℕ) (payload : Payload) (before : Db) (u : Unit {0}) (after : Db)
    → Runs (create_review_item k event_id payload) before u after
    → after.sources.review_items
      ≡ before.sources.review_items ++ new_item k event_id payload before ∷ []
unfolding create_review_item statement
create_item-runs k event_id payload before u after h = ground arith

lookup-runs :
    (k : ConflictKey) (before : Db) (o : Option ReviewItem) (after : Db)
    → Runs (get_review_item_by_conflict_key k) before o after
    → (asked k before ≡ o) × (after.sources ≡ before.sources)
unfolding get_review_item_by_conflict_key statement
lookup-runs k before o after h = (ground arith, ground arith)

-- What stands under the key after the call, and what it replays.
record Stands (k : ConflictKey) (r : Enqueued) (after : Db) : Type 0 where
  existing : ReviewItem
  found : asked k after ≡ some existing
  same : replayed existing ≡ record { action = r.action; created = false }

replayed-same :
    (x : ReviewItem) (r : Enqueued)
    → r ≡ replayed x
    → replayed x ≡ record { action = r.action; created = false }
unfolding is_opened
replayed-same x r h = rw (h) (ground arith)

enqueue_unless-Stands :
    (k : ConflictKey) (event_id : ℕ) (payload : Payload) (o : Option ReviewItem)
    → (before : Db) (r : Enqueued) (after : Db) → asked k before ≡ o
    → Runs (enqueue_unless k event_id payload o) before r after
    → Stands k r after
unfolding enqueue_unless
enqueue_unless-Stands k event_id payload (some x) before r after h runs =
    let (e, same) = pure-runs (replayed x) before r after runs in
    record { existing = x; found = rw (same) h; same = replayed-same x r e }
enqueue_unless-Stands k event_id payload none before r after h runs =
    let b = bind-runs (create_review_item k event_id payload) _ before r after runs in
    let (e, same) = pure-runs (enqueued no_action true) b.middle r after b.second in
    let items = create_item-runs k event_id payload before b.result b.middle b.first in
    record {
      existing = new_item k event_id payload before;
      found =
          ap (asked k) same
          ∙ ap (find λ i. same_conflict i.key k) items
          ∙ find-append_new _ before.sources.review_items _ h (same_conflict_refl k);
      same = rw (e) refl;
    }

-- A question that was asked, or found under its key, is not asked again: the second call under the key
-- reports the same action as the first, reports that it created nothing, and leaves the tables as they
-- are, if the engine does not refuse the lookup.
pub enqueue_or_replay-twice :
    (k : ConflictKey) (event_id : ℕ) (payload : Payload) (before : Db) (r : Enqueued) (after : Db)
    → (event_id' : ℕ) (payload' : Payload)
    → Runs (enqueue_or_replay k event_id payload) before r after
    → refused after ≡ false
    → enqueue_or_replay k event_id' payload' after
      ≡ (ok (record { action = r.action; created = false }), consume after)
unfolding enqueue_or_replay
enqueue_or_replay-twice k event_id payload before r after event_id' payload' h free =
    let b = bind-runs (get_review_item_by_conflict_key k) _ before r after h in
    let (found, kept) = lookup-runs k before b.result b.middle b.first in
    let s =
      enqueue_unless-Stands k event_id payload b.result b.middle r after
        (ap (λ (t : Sources). find (λ i. same_conflict i.key k) t.review_items) kept ∙ found)
        b.second in
    enqueue_or_replay-found k event_id' payload' after s.existing free s.found
    ∙ ap (λ x. (ok x, consume after)) s.same
