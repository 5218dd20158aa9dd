-- ===== src/Queries/Reads.antt =====
-- A statement that only reads keeps whatever speaks of the tables.
use clockr.Base.{ℕ, Result}
use clockr.Sources.{OverlayKey}
use clockr.Ledger.{Db, statement, get_time_entry, list_time_entries_for_period, list_tz_segments}
use clockr.Ledger.Keeps.{Keeps, OfTables, Keeps-statement}
use clockr.Ledger.Stays.{Any, Post-Any}
use clockr.Queries.{get_event, get_overlay, get_review_item, list_open_review_items}

module _ {P : Db → Type 0} (tables : OfTables P) where
  pub Keeps-read : {A : Type 0} (f : Db → Result A) → Keeps P Any (statement λ db. (f db, db))
  Keeps-read f = Keeps-statement P Any tables _ (λ db h. (h, Post-Any (f db)))

  pub Keeps-get_event : (id : ℕ) → Keeps P Any (get_event id)
  unfolding get_event
  Keeps-get_event id = Keeps-read _

  pub Keeps-get_overlay : (k : OverlayKey) → Keeps P Any (get_overlay k)
  unfolding get_overlay
  Keeps-get_overlay k = Keeps-read _

  pub Keeps-get_review_item : (id : ℕ) → Keeps P Any (get_review_item id)
  unfolding get_review_item
  Keeps-get_review_item id = Keeps-read _

  pub Keeps-list_open_review_items : (pid : ℕ) → Keeps P Any (list_open_review_items pid)
  unfolding list_open_review_items
  Keeps-list_open_review_items pid = Keeps-read _

  pub Keeps-list_entries : (pid : ℕ) → Keeps P Any (list_time_entries_for_period pid)
  unfolding list_time_entries_for_period
  Keeps-list_entries pid = Keeps-read _

  pub Keeps-list_segments : (pid : ℕ) → Keeps P Any (list_tz_segments pid)
  unfolding list_tz_segments
  Keeps-list_segments pid = Keeps-read _

  pub Keeps-get_entry : (id pid : ℕ) → Keeps P Any (get_time_entry id pid)
  unfolding get_time_entry
  Keeps-get_entry id pid = Keeps-read _
