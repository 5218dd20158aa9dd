-- ===== src/Resync/Calm.antt =====
-- A row that is the only one under its key, where no question was answered by `use_event`: what the
-- questions and the answers of a sync leave of that.
use clockr.Base.{
  String, ℕ, ◌≡◌, refl, Bool, true, false, Option, none, some, List, [], ◌∷◌, find, All, All-append,
  Result, if◌then◌else◌,
}
use clockr.Sources.{Action, Payload, ConflictKey, ReviewItem, Sources, no_action}
use clockr.Ledger.{Db, Params, Row, statement, is_draft, create_time_entry}
use clockr.Ledger.Keeps.{
  Keeps, Post, OfTables, Keeps-statement, Keeps-bind, Keeps-pure, Keeps-if, Keeps-both,
}
use clockr.Ledger.Stays.{Any, Keeps-Any}
use clockr.Ledger.Holds.{Holds, IsOwn, Holds-create}
use clockr.Queries.{
  is_opened, set_items, update_items, create_review_item, get_review_item_by_conflict_key,
  update_open_review_item_payload, reopen_review_item,
}
use clockr.Calendar.Rows.{OverlayFree}
use clockr.Calendar.Dismissed.{Holds-dismisses}
use clockr.GapFills.Items.{EntryFree, Keeps-create_free, Keeps-dismisses_free}
use clockr.Conflicts.{
  enqueued, enqueue_unless, enqueue_or_replay, enqueue_or_reopen, enqueue_source_drift,
}
use clockr.Review.Steps.{Outlives}
use clockr.Resync.{is_use_event}

-- The answer is another one.
abbrev pub IsOther : Action → Type 0
IsOther a = is_use_event a ≡ false

abbrev IsOtherItem : ReviewItem → Type 0
IsOtherItem i = IsOther i.decision_action

abbrev pub NoneUses : Db → Type 0
NoneUses db = All IsOtherItem db.sources.review_items

abbrev pub Calm : Row → Db → Type 0
Calm r db = Holds r db × NoneUses db

pub NoneUses-EntryFree : EntryFree NoneUses
NoneUses-EntryFree = record { tables = λ db fs h. h; entries = λ db rs n h. h }

set_items-IsOther :
    (p : ReviewItem → Bool) (f : ReviewItem → ReviewItem) (is : List ReviewItem)
    → ((i : ReviewItem) → IsOtherItem i → IsOtherItem (f i))
    → All IsOtherItem is
    → All IsOtherItem (set_items p f is)
unfolding set_items
set_items-IsOther p f [] k h = tt
set_items-IsOther p f (i ∷ is) k h = (one (p i), set_items-IsOther p f is k h.1)
  where
    one : (b : Bool) → IsOtherItem (if b then f i else i)
    one true = k i h.0
    one false = h.0

-- An item that was found is one of the table.
IsOtherFound : Option ReviewItem → Type 0
IsOtherFound none = Unit
IsOtherFound (some i) = IsOtherItem i

find-IsOther :
    (p : ReviewItem → Bool) (is : List ReviewItem) → All IsOtherItem is → IsOtherFound (find p is)
unfolding find IsOtherFound
find-IsOther p [] h = tt
find-IsOther p (i ∷ is) h = one (p i) (find-IsOther p is h.1)
  where
    one : (b : Bool) → IsOtherFound (find p is) → IsOtherFound (if b then some i else find p is)
    one true k = h.0
    one false k = k

replays-IsOther :
    (b : Bool) (i : ReviewItem)
    → IsOtherItem i
    → IsOther (if b then enqueued no_action false else enqueued i.decision_action false).action
replays-IsOther true i h = refl
replays-IsOther false i h = h

module _ (r : Row) where
  pub Calm-OfTables : OfTables (Calm r)
  Calm-OfTables db fs (h, k) = (record { present = h.present; alone = h.alone; older = h.older }, k)

  pub Calm-OverlayFree : OverlayFree (Calm r)
  Calm-OverlayFree = record {
    tables = Calm-OfTables;
    overlays =
        λ db os n h. (record { present = h.0.present; alone = h.0.alone; older = h.0.older }, h.1);
  }

  -- A statement on the calendar tables.
  pub Calm-sources :
      {A : Type 0} {Q : A → Type 0} (f : Db → Result A) (g : Db → Sources)
      → ((db : Db) → NoneUses db → All IsOtherItem (g db).review_items × Post Q (f db))
      → Keeps (Calm r) Q (statement λ db. (f db, record db { sources = g db }))
  Calm-sources f g k = Keeps-statement (Calm r) _ Calm-OfTables _ λ db h. (
    (record { present = h.0.present; alone = h.0.alone; older = h.0.older }, (k db h.1).0),
    (k db h.1).1,
  )

  pub Calm-create : (p : Params) → Keeps (Calm r) (IsOwn r) (create_time_entry p)
  Calm-create p = Keeps-both _ (Holds-create r p) (Keeps-create_free NoneUses-EntryFree p)

  pub Calm-Outlives : is_draft r.attestation ≡ false → Outlives (Calm r)
  Calm-Outlives settled = record {
    free = Calm-OverlayFree;
    creates = λ p. Keeps-Any _ (Calm-create p);
    dismisses = λ ev.
        Keeps-both _ (Holds-dismisses r settled ev) (Keeps-dismisses_free NoneUses-EntryFree ev);
  }

  Calm-update_items :
      (p : ReviewItem → Bool) (f : ReviewItem → ReviewItem)
      → ((i : ReviewItem) → IsOtherItem i → IsOtherItem (f i))
      → Keeps (Calm r) Any (update_items p f)
  unfolding update_items
  Calm-update_items p f k =
      Calm-sources _ _ λ db h. (set_items-IsOther p f db.sources.review_items k h, tt)

  Calm-lookup : (k : ConflictKey) → Keeps (Calm r) IsOtherFound (get_review_item_by_conflict_key k)
  unfolding get_review_item_by_conflict_key
  Calm-lookup k =
      Calm-sources _ (λ db. db.sources) λ db h. (h, find-IsOther _ db.sources.review_items h)

  either-Calm :
      {A : Type 0} (b : Bool) (x y : Result A × Db)
      → Calm r x.1 × Post Any x.0
      → Calm r y.1 × Post Any y.0
      → Calm r (if b then x else y).1 × Post Any (if b then x else y).0
  either-Calm true x y h k = h
  either-Calm false x y h k = k

  Calm-create_item :
      (k : ConflictKey) (id : ℕ) (payload : Payload)
      → Keeps (Calm r) Any (create_review_item k id payload)
  unfolding create_review_item
  Calm-create_item k id payload = Keeps-statement (Calm r) Any Calm-OfTables _ λ db h.
      either-Calm _ _ _ (h, tt)
        (
          (
            record { present = h.0.present; alone = h.0.alone; older = h.0.older },
            All-append IsOtherItem db.sources.review_items _ h.1 (refl, tt),
          ),
          tt,
        )

  Calm-enqueue_unless :
      (k : ConflictKey) (id : ℕ) (payload : Payload) (o : Option ReviewItem)
      → IsOtherFound o
      → Keeps (Calm r) (λ e. IsOther e.action) (enqueue_unless k id payload o)
  unfolding enqueue_unless IsOtherFound
  Calm-enqueue_unless k id payload none h =
      Keeps-bind _ _ (Calm-create_item k id payload) λ _ _. Keeps-pure _ refl
  Calm-enqueue_unless k id payload (some i) h =
      Keeps-pure _ (replays-IsOther (is_opened i.status) i h)

  pub Calm-enqueue :
      (k : ConflictKey) (id : ℕ) (payload : Payload)
      → Keeps (Calm r) (λ e. IsOther e.action) (enqueue_or_replay k id payload)
  unfolding enqueue_or_replay
  Calm-enqueue k id payload =
      Keeps-bind _ _ (Calm-lookup k) λ o h. Calm-enqueue_unless k id payload o h

  Calm-reopen :
      (k : ConflictKey) (id : ℕ) (payload : Payload) (o : Option ReviewItem)
      → Keeps (Calm r) Any (enqueue_or_reopen k id payload o)
  unfolding enqueue_or_reopen update_open_review_item_payload reopen_review_item
  Calm-reopen k id payload none =
      Keeps-bind _ _ (Calm-create_item k id payload) λ _ _. Keeps-pure _ tt
  Calm-reopen k id payload (some i) =
      Keeps-if _ _ _ (Keeps-bind _ _ (Calm-update_items _ _ (λ x h. h)) λ _ _. Keeps-pure _ tt)
        (Keeps-bind _ _ (Calm-update_items _ _ (λ x h. refl)) λ _ _. Keeps-pure _ tt)

  pub Calm-source_drift :
      (pid id : ℕ) (identity : String) (payload : Payload)
      → Keeps (Calm r) Any (enqueue_source_drift pid id identity payload)
  unfolding enqueue_source_drift
  Calm-source_drift pid id identity payload =
      Keeps-bind _ _ (Calm-lookup _) λ o h. Calm-reopen _ id payload o
