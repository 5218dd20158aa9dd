-- ===== src/GapFills/Items.antt =====
-- Taking time from entries keeps whatever does not depend on the entries.
use clockr.Base.{String, ℕ, Bool, List, [], ◌∷◌, Option, none, some}
use clockr.Gaps.{Interval}
use clockr.Sources.{Event}
use clockr.Ledger.{
  Db, Params, Row, update_row, create_time_entry, delete_time_entry, update_attestation,
}
use clockr.Ledger.Keeps.{Keeps, OfTables, Keeps-statement, Keeps-bind, Keeps-pure, Keeps-if}
use clockr.Ledger.Stays.{Any, Post-Any}
use clockr.Materialize.{bump_revisions}
use clockr.Queries.{update_time_entry_source_revision, update_time_entry_span}
use clockr.Queries.Reads.{Keeps-list_entries}
use clockr.Calendar.{
  linked_calendar_entries, event_identity_from_row, dismiss_linked_drafts,
  dismiss_calendar_drafts_for_event,
}
use clockr.GapFills.{set_fill, shrink_one, shrink_gap_fills_for_event}

pub record EntryFree (P : Db → Type 0) : Type 0 where
  pub tables : OfTables P
  pub entries :
      (db : Db) (rs : List Row) (n : ℕ) → P db → P (record db { entries = rs; next_id = n })

module _ {P : Db → Type 0} (free : EntryFree P) where
  pub Keeps-create_free : (p : Params) → Keeps P Any (create_time_entry p)
  unfolding create_time_entry
  Keeps-create_free p = Keeps-statement P Any free.tables _ λ db h. (free.entries db _ _ h, tt)

  pub Keeps-update_free : (p : Row → Bool) (f : Params → Params) → Keeps P Any (update_row p f)
  unfolding update_row
  Keeps-update_free p f =
      Keeps-statement P Any free.tables _ λ db h. (free.entries db _ db.next_id h, Post-Any _)

  Keeps-delete_free : (id pid : ℕ) → Keeps P Any (delete_time_entry id pid)
  unfolding delete_time_entry
  Keeps-delete_free id pid =
      Keeps-statement P Any free.tables _ λ db h. (free.entries db _ db.next_id h, tt)

  Keeps-set_fill : (pid : ℕ) (fill : Row) (iv : Interval) → Keeps P Any (set_fill pid fill iv)
  unfolding update_time_entry_span
  Keeps-set_fill pid fill iv = Keeps-bind _ _ (Keeps-update_free _ _) λ row _. Keeps-pure tt tt

  Keeps-shrink_one :
      (pid : ℕ) (fill : Row) (before after : Option Interval)
      → Keeps P Any (shrink_one pid fill before after)
  unfolding shrink_one
  Keeps-shrink_one pid fill none none =
      Keeps-bind _ _ (Keeps-delete_free _ _) λ n _. Keeps-pure tt tt
  Keeps-shrink_one pid fill none (some a) = Keeps-set_fill pid fill a
  Keeps-shrink_one pid fill (some b) none = Keeps-set_fill pid fill b
  Keeps-shrink_one pid fill (some b) (some a) =
      Keeps-bind _ _ (Keeps-set_fill pid fill b)
        λ _ _. Keeps-bind _ _ (Keeps-create_free _) λ row _. Keeps-pure tt tt

  pub Keeps-shrink :
      (pid : ℕ) (event : Interval) (fills : List Row)
      → Keeps P Any (shrink_gap_fills_for_event pid event fills)
  unfolding shrink_gap_fills_for_event
  Keeps-shrink pid event [] = Keeps-pure tt tt
  Keeps-shrink pid event (fill ∷ fills) =
      let rest = Keeps-shrink pid event fills in
      Keeps-if _ _ _ (Keeps-bind _ _ (Keeps-shrink_one pid fill _ _) λ _ _. rest) rest

  pub Keeps-dismiss : (rows : List Row) → Keeps P Any (dismiss_linked_drafts rows)
  unfolding dismiss_linked_drafts update_attestation
  Keeps-dismiss [] = Keeps-pure tt tt
  Keeps-dismiss (te ∷ rows) =
      let rest = Keeps-dismiss rows in
      Keeps-if _ _ _ (Keeps-bind _ _ (Keeps-update_free _ _) λ row _. rest) rest

  pub Keeps-dismisses_free : (ev : Event) → Keeps P Any (dismiss_calendar_drafts_for_event ev)
  unfolding dismiss_calendar_drafts_for_event
  Keeps-dismisses_free ev =
      Keeps-bind _ _ (Keeps-list_entries free.tables _)
        λ rows _. Keeps-dismiss (linked_calendar_entries rows (event_identity_from_row ev))

  pub Keeps-bump : (hash : String) (rows : List Row) → Keeps P Any (bump_revisions hash rows)
  unfolding bump_revisions update_time_entry_source_revision
  Keeps-bump hash [] = Keeps-pure tt tt
  Keeps-bump hash (te ∷ rows) =
      Keeps-bind _ _
        (Keeps-statement P Any free.tables _ λ db h. (free.entries db _ db.next_id h, tt))
        λ _ _. Keeps-bump hash rows
