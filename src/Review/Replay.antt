-- ===== src/Review/Replay.antt =====
-- What the answer to a question leaves of its item: closed to a second answer, and found under the
-- conflict key of the question, as long as nothing reopens it.
use clockr.Base.{
  ℕ, ◌≡◌, ◌≢◌, refl, ap, sym, ◌∙◌, true, false, String, Option, some, List, arith, ◌==◌, ==_refl,
  if◌then◌else◌, find, ok, err, Result, failure,
}
use clockr.GoTime.{Location}
use clockr.Sources.{
  Kind, Status, Action, Payload, ReviewItem, use_event, overlap, dedup_ambiguous, tentative,
  all_day, title_changed, deleted_categorized, new_in_gap, source_drift, Event, Sources,
}
use clockr.Ledger.{Db, M, consume, refused, guard, lift}
use clockr.Ledger.Keeps.{Keeps, Keeps-bind, Keeps-pure, Keeps-fail, Keeps-guard, Post}
use clockr.Ledger.Stays.{Any, Post-Any}
use clockr.Ledger.Returns.{Runs, bind-runs, guard-runs, pure-runs, transaction-runs, runs-Keeps}
use clockr.Queries.{is_opened, set_items, decided, same_conflict, get_review_item}
use clockr.Queries.Items.{find-set_items, find-decided, item-runs, resolve-runs}
use clockr.Queries.Reads.{Keeps-list_entries}
use clockr.GapFills.Items.{EntryFree, Keeps-create_free, Keeps-shrink, Keeps-dismisses_free}
use clockr.Conflicts.{replayed, enqueue_or_replay}
use clockr.Conflicts.Asked.{asked, enqueue_or_replay-found}
use clockr.Review.{
  settle_gap, apply_kind, apply, title_status, drift_status, resolve_review_decision,
}
use clockr.Review.Steps.{Outlives, Keeps-apply_new_in_gap, Keeps-apply_kind}

-- The review items are these.
abbrev Asks : List ReviewItem → Db → Type 0
Asks is db = db.sources.review_items ≡ is

module _ (is : List ReviewItem) where
  Asks-EntryFree : EntryFree (Asks is)
  Asks-EntryFree = record { tables = λ db fs h. h; entries = λ db rs n h. h }

  Asks-Outlives : Outlives (Asks is)
  Asks-Outlives = record {
    free = record { tables = λ db fs h. h; overlays = λ db os n h. h };
    creates = Keeps-create_free Asks-EntryFree;
    dismisses = Keeps-dismisses_free Asks-EntryFree;
  }

  gives_time : (pid : ℕ) (ev : Event) → Keeps (Asks is) Any (settle_gap pid ev use_event)
  unfolding settle_gap
  gives_time pid ev = Keeps-bind _ _ (Keeps-guard _ _) λ _ _.
      Keeps-bind _ _ (Keeps-list_entries Asks-EntryFree.tables _)
        λ rows _. Keeps-shrink Asks-EntryFree pid _ rows

  Asks-apply :
      (zones : String → Option Location) (utc : Location) (item : ReviewItem) (a : Action)
      → Keeps (Asks is) Any (apply zones utc item a)
  unfolding apply
  Asks-apply zones utc item a =
      Keeps-apply_kind Asks-Outlives zones utc item.kind item a
        (Keeps-apply_new_in_gap Asks-Outlives item a (λ ev _. gives_time item.period_id ev))

-- An answer that succeeds closes its question.
abbrev Closes : Status → Type 0
Closes s = is_opened s ≡ false

abbrev Always : Db → Type 0
Always db = Unit

Keeps-Always : {A : Type 0} (m : M A) → Keeps Always Any m
Keeps-Always m = record { at = λ db h. (tt, Post-Any _) }

title-Closes : (a : Action) (s : Status) → title_status a ≡ ok s → Closes s
unfolding is_opened
title-Closes a s h = ground arith

Post-Closes : (r : Result Status) → ((s : Status) → r ≡ ok s → Closes s) → Post Closes r
Post-Closes (ok s) h = h s refl
Post-Closes (err e) h = tt

drift-Closes : (a : Action) → Closes (drift_status a)
unfolding is_opened
drift-Closes a = ground arith

apply_kind-Closes :
    (zones : String → Option Location) (utc : Location) (k : Kind) (item : ReviewItem) (a : Action)
    → Keeps Always Closes (apply_kind zones utc k item a)
unfolding apply_kind is_opened lift
apply_kind-Closes zones utc deleted_categorized item a =
    Keeps-bind _ _ (Keeps-Always _) λ _ _. Keeps-pure _ refl
apply_kind-Closes zones utc title_changed item a = record {
  at = λ db h. (tt, Post-Closes _ (title-Closes a));
}
apply_kind-Closes zones utc new_in_gap item a =
    Keeps-bind _ _ (Keeps-Always _) λ _ _. Keeps-pure _ refl
apply_kind-Closes zones utc tentative item a =
    Keeps-bind _ _ (Keeps-Always _) λ _ _. Keeps-pure _ refl
apply_kind-Closes zones utc all_day item a =
    Keeps-bind _ _ (Keeps-Always _) λ _ _. Keeps-pure _ refl
apply_kind-Closes zones utc source_drift item a =
    Keeps-bind _ _ (Keeps-Always _) λ _ _. Keeps-pure _ (drift-Closes a)
apply_kind-Closes zones utc overlap item a = Keeps-fail _
apply_kind-Closes zones utc dedup_ambiguous item a = Keeps-fail _

abbrev items_of : Db → List ReviewItem
items_of db = db.sources.review_items

-- What a call that has succeeded leaves of the items.
record Settled (id : ℕ) (a : Action) (before after : Db) : Type 0 where
  asked : ReviewItem
  found : find (λ (i : ReviewItem). i.id == id) before.sources.review_items ≡ some asked
  was_open : is_opened asked.status ≡ true
  status : Status
  closed : is_opened status ≡ false
  items :
      after.sources.review_items
      ≡ set_items (λ i. i.id == id) (decided status a) before.sources.review_items

resolve_review_decision-Settled :
    (zones : String → Option Location) (utc : Location) (id : ℕ) (a : Action)
    → (before : Db) (pid : ℕ) (after : Db)
    → Runs (resolve_review_decision zones utc id a) before pid after
    → Settled id a before after
unfolding resolve_review_decision apply
resolve_review_decision-Settled zones utc id a before pid after h =
    let (last, body, e) = transaction-runs _ before pid after h in
    let got = bind-runs (get_review_item id) _ _ pid last body in
    let (found, same, kept) = item-runs id _ got.result got.middle got.first in
    let checked = bind-runs (guard (is_opened got.result.status) failure) _ _ pid last got.second in
    let (is_open, still) = guard-runs _ _ _ _ _ checked.first in
    let applied = bind-runs (apply zones utc got.result a) _ _ pid last checked.second in
    let written = bind-runs _ _ _ pid last applied.second in
    let (p, done) = pure-runs _ _ _ _ written.second in
    record {
      asked = got.result;
      found = found;
      was_open = is_open;
      status = applied.result;
      closed =
          (runs-Keeps (apply zones utc got.result a) _ _ _
            (apply_kind-Closes zones utc got.result.kind got.result a) tt applied.first).1;
      items =
          ap items_of e
          ∙ ap items_of done
          ∙ resolve-runs applied.result a got.result.id applied.middle _ _ written.first
          ∙ ap (set_items (λ i. i.id == got.result.id) (decided applied.result a)) (
              (runs-Keeps (apply zones utc got.result a) _ _ _
                (Asks-apply (items_of checked.middle) zones utc got.result a) refl applied.first).0
              ∙ ap items_of still
              ∙ ap (λ (s : Sources). s.review_items) kept)
          ∙ ap
              (λ j.
                set_items (λ i. i.id == j) (decided applied.result a) before.sources.review_items)
              same;
    }

-- When an answer to a question has succeeded, no second answer to it succeeds as long as its item stands
-- in the table as the first one has left it.
pub resolve_review_decision-once :
    (zones : String → Option Location) (utc : Location) (id : ℕ) (action second : Action)
    → (before : Db) (pid : ℕ) (after meanwhile : Db) (pid' : ℕ) (later : Db)
    → Runs (resolve_review_decision zones utc id action) before pid after
    → find (λ (i : ReviewItem). i.id == id) meanwhile.sources.review_items
      ≡ find (λ (i : ReviewItem). i.id == id) after.sources.review_items
    → resolve_review_decision zones utc id second meanwhile ≢ (ok pid', later)
resolve_review_decision-once zones utc id action second before pid after meanwhile pid' later h s
      k =
    let one = resolve_review_decision-Settled zones utc id action before pid after h in
    let two = resolve_review_decision-Settled zones utc id second meanwhile pid' later k in
    let shut =
      find-decided id one.status action before.sources.review_items two.asked one.closed
        (ap (find λ (x : ReviewItem). x.id == id) (sym one.items) ∙ sym s ∙ two.found) in
    absurd (ground (arith, shut, two.was_open))

replayed-closed :
    (s : Status) (a : Action) (i : ReviewItem)
    → is_opened s ≡ false
    → replayed (decided s a i) ≡ record { action = a; created = false }
unfolding is_opened
replayed-closed s a i c = rw (c) refl

-- When an answer to a question has succeeded, EnqueueOrReplay under the conflict key of the question
-- returns the answer, asks nothing and changes no table, as long as the item under that key stands as
-- the answer has left it, if the engine does not refuse the lookup.
pub resolve_review_decision-replayed :
    (zones : String → Option Location) (utc : Location) (item : ReviewItem) (action : Action)
    → (before : Db) (pid : ℕ) (after later : Db) (event_id : ℕ) (payload : Payload)
    → asked item.key before ≡ some item
    → Runs (resolve_review_decision zones utc item.id action) before pid after
    → asked item.key later ≡ asked item.key after
    → refused later ≡ false
    → enqueue_or_replay item.key event_id payload later
      ≡ (ok (record { action = action; created = false }), consume later)
resolve_review_decision-replayed zones utc item action before pid after later event_id payload h k s
      free =
    let one = resolve_review_decision-Settled zones utc item.id action before pid after k in
    let x = decided one.status action item in
    let found =
      find-set_items (λ (i : ReviewItem). same_conflict i.key item.key) (λ i. i.id == item.id)
        (decided one.status action) before.sources.review_items item (λ x. refl) h in
    let still =
      s
      ∙ ap (find λ i. same_conflict i.key item.key) one.items
      ∙ found
      ∙ ap (λ b. some (if b then x else item)) (==_refl item.id) in
    enqueue_or_replay-found item.key event_id payload later x free still
    ∙ ap (λ y. (ok y, consume later)) (replayed-closed one.status action item one.closed)
