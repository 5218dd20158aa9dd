-- ===== src/Queries/Items.antt =====
-- What the statements on review items do to the items that are found.
use clockr.Base.{
  ℕ, ◌≡◌, Bool, false, Option, none, some, List, [], ◌∷◌, arith, ◌==◌, ==_iff, if◌then◌else◌, find,
  ok,
}
use clockr.Sources.{ReviewItem, Status, Action}
use clockr.Ledger.{Db, statement, one_row}
use clockr.Ledger.Returns.{Runs}
use clockr.Queries.{
  set_items, update_items, resolve_review_item, decided, get_review_item, is_opened,
}

find_self :
    (id : ℕ) (is : List ReviewItem) (i : ReviewItem)
    → find (λ (x : ReviewItem). x.id == id) is ≡ some i
    → i.id ≡ id
unfolding find
find_self id [] i h = absurd (ground arith)
find_self id (x ∷ is) i h = ground (arith, find_self id is i, ==_iff x.id id)

-- What an update does to the first item of a test that it does not change.
pub find-set_items :
    (q p : ReviewItem → Bool) (f : ReviewItem → ReviewItem) (is : List ReviewItem) (i : ReviewItem)
    → ((x : ReviewItem) → q (f x) ≡ q x)
    → find q is ≡ some i
    → find q (set_items p f is) ≡ some (if p i then f i else i)
unfolding find set_items
find-set_items q p f [] i same h = absurd (ground arith)
find-set_items q p f (x ∷ is) i same h =
    ground (arith, same x, λ (k : find q is ≡ some i). find-set_items q p f is i same k)

-- No item under the id is still open.
pub find-decided :
    (id : ℕ) (s : Status) (a : Action) (is : List ReviewItem) (i : ReviewItem)
    → is_opened s ≡ false
    → find (λ (x : ReviewItem). x.id == id) (set_items (λ x. x.id == id) (decided s a) is) ≡ some i
    → is_opened i.status ≡ false
unfolding find set_items
find-decided id s a [] i c h = absurd (ground arith)
find-decided id s a (x ∷ is) i c h = ground (arith, c, find-decided id s a is i c)

one_item-ok : (o : Option ReviewItem) (i : ReviewItem) → one_row o ≡ ok i → o ≡ some i
one_item-ok none i h = absurd (ground arith)
one_item-ok (some x) i h = ground arith

pub item-runs :
    (id : ℕ) (before : Db) (i : ReviewItem) (after : Db)
    → Runs (get_review_item id) before i after
    → (find (λ (x : ReviewItem). x.id == id) before.sources.review_items ≡ some i)
      × (i.id ≡ id)
      × (after.sources ≡ before.sources)
unfolding get_review_item statement
item-runs id before i after h =
    (found, find_self id before.sources.review_items i found, ground arith)
  where
    found : find (λ (x : ReviewItem). x.id == id) before.sources.review_items ≡ some i
    found = ground (arith, one_item-ok (find (λ x. x.id == id) before.sources.review_items) i)

pub resolve-runs :
    (s : Status) (a : Action) (id : ℕ) (before : Db) (n : ℕ) (after : Db)
    → Runs (resolve_review_item s a id) before n after
    → after.sources.review_items
      ≡ set_items (λ i. i.id == id) (decided s a) before.sources.review_items
unfolding resolve_review_item update_items statement
resolve-runs s a id before n after h = ground arith
