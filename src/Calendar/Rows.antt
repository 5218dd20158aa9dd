-- ===== src/Calendar/Rows.antt =====
-- What the actions on a calendar event keep, if it depends on neither the overlays nor the faults.
use clockr.Base.{ℕ, Bool, true, false, String, Option, none, some, List, if◌then◌else◌}
use clockr.GoTime.{Location}
use clockr.Sources.{Event, Overlay, OverlayKey, Sources}
use clockr.Ledger.{Db}
use clockr.Ledger.Keeps.{
  Keeps, OfTables, Keeps-statement, Keeps-bind, Keeps-pure, Keeps-guard, Keeps-lift,
}
use clockr.Ledger.Stays.{Any, Keeps-Any}
use clockr.Queries.{upserted, upsert_overlay, delete_overlay}
use clockr.Queries.Reads.{Keeps-get_overlay, Keeps-list_segments}
use clockr.Calendar.{
  IncomingEvent, mark_excluded, has_status_excluded, delete_category_overlay, overlay_category,
  effective_category, event_local_day, delete_found,
}

-- The database with other overlays.
abbrev pub with_overlays : List Overlay → ℕ → Db → Db
with_overlays os n db = record db {
  sources = record (db.sources) { overlays = os; next_overlay = n };
}

pub record OverlayFree (P : Db → Type 0) : Type 0 where
  pub tables : OfTables P
  pub overlays : (db : Db) (os : List Overlay) (n : ℕ) → P db → P (with_overlays os n db)

module _ {P : Db → Type 0} (free : OverlayFree P) where
  either-free :
      (db : Db) (b : Bool) (x y : Sources)
      → P (record db { sources = x })
      → P (record db { sources = y })
      → P (record db { sources = if b then x else y })
  either-free db true x y h k = h
  either-free db false x y h k = k

  upserted-free :
      (db : Db) (k : OverlayKey) (c : Option ℕ) (note : String)
      → P db
      → P (record db { sources = upserted k c note db.sources })
  unfolding upserted
  upserted-free db k c note h =
      either-free db _ _ _ (free.overlays db _ _ h) (free.overlays db _ _ h)

  pub Keeps-upsert_overlay :
      (k : OverlayKey) (c : Option ℕ) (note : String) → Keeps P Any (upsert_overlay k c note)
  unfolding upsert_overlay
  Keeps-upsert_overlay k c note =
      Keeps-statement P Any free.tables _ (λ db h. (upserted-free db k c note h, tt))

  pub Keeps-delete_overlay : (id : ℕ) → Keeps P Any (delete_overlay id)
  unfolding delete_overlay
  Keeps-delete_overlay id =
      Keeps-statement P Any free.tables _ (λ db h. (free.overlays db _ _ h, tt))

  pub Keeps-mark_excluded : (ev : Event) → Keeps P Any (mark_excluded ev)
  unfolding mark_excluded
  Keeps-mark_excluded ev = Keeps-upsert_overlay _ _ _

  pub Keeps-has_status_excluded : (ev : Event) → Keeps P Any (has_status_excluded ev)
  unfolding has_status_excluded
  Keeps-has_status_excluded ev =
      Keeps-bind _ _ (Keeps-get_overlay free.tables _) λ o _. Keeps-pure _ tt

  pub Keeps-delete_category_overlay : (ev : Event) → Keeps P Any (delete_category_overlay ev)
  unfolding delete_category_overlay
  Keeps-delete_category_overlay ev = Keeps-bind _ _ (Keeps-get_overlay free.tables _) λ o _. found o
    where
      found : (o : Option Overlay) → Keeps P Any (delete_found o)
      found none = Keeps-pure tt tt
      found (some o) = Keeps-delete_overlay o.id

  pub Keeps-overlay_category : (k : OverlayKey) → Keeps P Any (overlay_category k)
  unfolding overlay_category
  Keeps-overlay_category k = Keeps-bind _ _ (Keeps-get_overlay free.tables _) λ o _. Keeps-pure _ tt

  pub Keeps-effective_category :
      (pid : ℕ) (inc : IncomingEvent) → Keeps P Any (effective_category pid inc)
  unfolding effective_category
  Keeps-effective_category pid inc = Keeps-overlay_category _

  pub Keeps-event_local_day :
      (zones : String → Option Location) (utc : Location) (ev : Event)
      → Keeps P Any (event_local_day zones utc ev)
  unfolding event_local_day
  Keeps-event_local_day zones utc ev =
      Keeps-bind _ _ (Keeps-guard _ _) λ _ _.
        Keeps-bind _ _ (Keeps-list_segments free.tables _) λ segs _. Keeps-Any _ (Keeps-lift _)
