-- ===== src/Exclusion/Untouched.antt =====
-- What excluding an event leaves of a row that is no draft and is the only one under its key.
use clockr.Base.{ℕ, ◌≡◌, false, List, [], ◌∷◌}
use clockr.Sources.{ReviewItem}
use clockr.Ledger.{Db, Row, is_draft}
use clockr.Ledger.Keeps.{Keeps, Keeps-bind, Keeps-pure, Keeps-guard, Keeps-if, Keeps-transaction}
use clockr.Ledger.Stays.{Any}
use clockr.Ledger.Holds.{Holds, Holds-OfTables}
use clockr.Queries.Reads.{Keeps-get_event, Keeps-list_open_review_items}
use clockr.Calendar.Rows.{Keeps-delete_category_overlay, Keeps-mark_excluded}
use clockr.Calendar.Dismissed.{Holds-OverlayFree, Holds-dismisses}
use clockr.Review.Untouched.{Holds-resolve_item}
use clockr.Exclusion.{dismiss_items, exclude_event}

module _ (r : Row) (settled : is_draft r.attestation ≡ false) where
  Holds-dismiss_items :
      (id : ℕ) (items : List ReviewItem) → Keeps (Holds r) Any (dismiss_items id items)
  unfolding dismiss_items
  Holds-dismiss_items id [] = Keeps-pure tt tt
  Holds-dismiss_items id (item ∷ items) =
      let rest = Holds-dismiss_items id items in
      Keeps-if _ _ _ (Keeps-bind _ _ (Holds-resolve_item r _ _ _) λ _ _. rest) rest

  Holds-exclude : (id pid : ℕ) → Keeps (Holds r) Any (exclude_event id pid)
  unfolding exclude_event
  Holds-exclude id pid = Keeps-bind _ _ (Keeps-guard _ _) λ _ _.
      Keeps-bind _ _ (Keeps-guard _ _) λ _ _. Keeps-transaction (Holds r) Any (Holds-OfTables r) _ (
        Keeps-bind _ _ (Keeps-get_event (Holds-OfTables r) id) λ ev _.
          Keeps-bind _ _ (Keeps-guard _ _) λ _ _.
            Keeps-bind _ _ (Keeps-delete_category_overlay (Holds-OverlayFree r) ev) λ _ _.
              Keeps-bind _ _ (Holds-dismisses r settled ev) λ _ _.
                Keeps-bind _ _ (Keeps-mark_excluded (Holds-OverlayFree r) ev) λ _ _.
                  Keeps-bind _ _ (Keeps-list_open_review_items (Holds-OfTables r) pid) λ items _.
                    Keeps-bind _ _ (Holds-dismiss_items ev.id items) λ _ _. Keeps-pure _ tt)

-- A row that is no draft, is the only one under its key and is older than the next row stays as it is,
-- and the only one, when a user excludes an event, whether or not the call succeeds.
pub exclude_event-Holds :
    (r : Row) (id pid : ℕ) (db : Db)
    → is_draft r.attestation ≡ false
    → Holds r db
    → Holds r (exclude_event id pid db).1
exclude_event-Holds r id pid db s h = ((Holds-exclude r s id pid).at db h).0
