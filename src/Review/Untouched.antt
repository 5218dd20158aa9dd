-- ===== src/Review/Untouched.antt =====
-- What the answer to a question leaves of a row that is no draft and is the only one under its key,
-- unless the answer gives time to an event.
use clockr.Base.{ℕ, ◌≡◌, ◌≢◌, false, String, Option}
use clockr.GoTime.{Location}
use clockr.Sources.{ReviewItem, Action, Status, use_event}
use clockr.Ledger.{Db, Row, is_draft}
use clockr.Ledger.Keeps.{
  Keeps, Keeps-bind, Keeps-pure, Keeps-guard, Keeps-transaction, Keeps-statement,
}
use clockr.Ledger.Stays.{Any, Keeps-Any}
use clockr.Ledger.Holds.{Holds, Holds-OfTables, Holds-create}
use clockr.Queries.{update_items, resolve_review_item, is_opened}
use clockr.Queries.Reads.{Keeps-get_review_item}
use clockr.Calendar.Dismissed.{Holds-OverlayFree, Holds-dismisses}
use clockr.Review.{apply, resolve_review_decision}
use clockr.Review.Steps.{Outlives, Keeps-apply_new_in_gap, Keeps-apply_kind}

pub Holds-resolve_item :
    (r : Row) (s : Status) (a : Action) (id : ℕ) → Keeps (Holds r) Any (resolve_review_item s a id)
unfolding resolve_review_item update_items
Holds-resolve_item r s a id =
    Keeps-statement (Holds r) Any (Holds-OfTables r) _
      λ db h. (record { present = h.present; alone = h.alone; older = h.older }, tt)

module _ (r : Row) (settled : is_draft r.attestation ≡ false) where
  pub Holds-Outlives : Outlives (Holds r)
  Holds-Outlives = record {
    free = Holds-OverlayFree r;
    creates = λ p. Keeps-Any _ (Holds-create r p);
    dismisses = Holds-dismisses r settled;
  }

  Keeps-apply :
      (zones : String → Option Location) (utc : Location) (item : ReviewItem) (a : Action)
      → a ≢ use_event
      → Keeps (Holds r) Any (apply zones utc item a)
  unfolding apply
  Keeps-apply zones utc item a n =
      Keeps-apply_kind Holds-Outlives zones utc item.kind item a
        (Keeps-apply_new_in_gap Holds-Outlives item a (λ ev e. absurd (n e)))

  Keeps-resolve :
      (zones : String → Option Location) (utc : Location) (id : ℕ) (a : Action)
      → a ≢ use_event
      → Keeps (Holds r) Any (resolve_review_decision zones utc id a)
  unfolding resolve_review_decision
  Keeps-resolve zones utc id a n = Keeps-transaction (Holds r) Any (Holds-OfTables r) _ (
      Keeps-bind _ _ (Keeps-get_review_item (Holds-OfTables r) id) λ item _.
        Keeps-bind _ _ (Keeps-guard (is_opened item.status) _) λ _ _.
          Keeps-bind _ _ (Keeps-apply zones utc item a n)
            λ s _. Keeps-bind _ _ (Holds-resolve_item r s a item.id) λ _ _. Keeps-pure _ tt)

-- A row that is no draft, is the only one under its key and is older than the next row stays as it is,
-- and the only one, whatever answer other than `use_event` a user gives to whichever question, and
-- whether or not the call succeeds.
pub resolve_review_decision-Holds :
    (zones : String → Option Location) (utc : Location) (r : Row) (id : ℕ) (action : Action)
    → (db : Db) → is_draft r.attestation ≡ false
    → action ≢ use_event
    → Holds r db
    → Holds r (resolve_review_decision zones utc id action db).1
resolve_review_decision-Holds zones utc r id action db s n h =
    ((Keeps-resolve r s zones utc id action n).at db h).0
