-- ===== src/Sync/Untouched.antt =====
-- What a merge leaves of a confirmed row that is the only one under its key, where no question was
-- answered by `use_event`.
use clockr.Base.{ℕ, ◌≡◌, Bool, false, String, Option, none, some, List, [], ◌∷◌, All}
use clockr.Sources.{Event, ReviewItem}
use clockr.Ledger.{Db, Row, confirmed, is_draft, list_time_entries_for_period}
use clockr.Ledger.Keeps.{Keeps, Keeps-bind, Keeps-pure, Keeps-if, Keeps-both, Keeps-transaction}
use clockr.Ledger.Stays.{Any}
use clockr.Ledger.Holds.{IsOwn, Holds, Holds-list}
use clockr.Queries.{list_all_events_for_period}
use clockr.Queries.Reads.{Keeps-read, Keeps-list_entries}
use clockr.Calendar.{IncomingEvent}
use clockr.Calendar.Rows.{Keeps-has_status_excluded}
use clockr.Materialize.Untouched.{confirmed-settled}
use clockr.Resync.{World}
use clockr.Resync.Calm.{IsOther, NoneUses-EntryFree, Calm, Calm-OfTables, Calm-OverlayFree}
use clockr.Resync.Steps.{
  Calm-vanished_categorized, Calm-new_event, Calm-changed_categorized, Calm-confirmed_source_drift,
  Calm-vanished_confirmed_source,
}
use clockr.Incoming.{categorize_new}
use clockr.Sync.{
  SyncResult, Progress, handle_new_event, handle_changed_event, sync_new, sync_unchanged,
  sync_changed, sync_stored, sync_incoming, drop_unless_kept, vanish, sync_vanished, sync_events,
}
use clockr.Sync.Steps.{
  Calm-upsert_event, Calm-delete_event, Calm-has_category, Calm-memory, Calm-calendar_default,
  Calm-ai, Calm-materialize,
}

module _ (r : Row) (settled : r.attestation ≡ confirmed) (w : World) (pid : ℕ) where
  no_draft : is_draft r.attestation ≡ false
  no_draft = confirmed-settled r.attestation settled

  -- No row that the loop knows is another one under the key of `r`.
  abbrev Knows : Progress → Type 0
  Knows p = All (IsOwn r) p.entries

  Calm-categorize_new : (inc : IncomingEvent) → Keeps (Calm r) Any (categorize_new w pid inc)
  Calm-categorize_new inc =
      Keeps-bind _ _ (Calm-memory r w pid inc)
        λ _ _. Keeps-bind _ _ (Calm-calendar_default r w pid inc) λ _ _. Calm-ai r w pid inc

  Calm-handle_new :
      (inc : IncomingEvent) (id : ℕ) (gaps : List Row)
      → Keeps (Calm r) Any (handle_new_event w pid inc id gaps)
  unfolding handle_new_event
  Calm-handle_new inc id gaps = Keeps-bind _ _ (Calm-new_event r no_draft w pid inc id gaps) λ x _.
      Keeps-bind _ _ (Keeps-if _ _ _ (Keeps-pure tt tt) (Calm-categorize_new inc))
        λ _ _. Keeps-pure _ tt

  Calm-handle_changed :
      (id : ℕ) (ex : Event) (inc : IncomingEvent) (entries : List Row) (hash : String)
      → Keeps (Calm r) Any (handle_changed_event w pid id ex inc entries hash)
  unfolding handle_changed_event
  Calm-handle_changed id ex inc entries hash =
      Keeps-bind _ _ (Calm-confirmed_source_drift r pid id inc entries hash) λ a _.
        Keeps-bind _ _ (Calm-has_category r pid _ _ _) λ c _.
          Keeps-bind _ _
            (Keeps-if _ _ _
              (Keeps-if _ _ _ (Keeps-pure 0 tt)
                (Calm-changed_categorized r no_draft w pid id ex inc))
              (Keeps-pure 0 tt))
            λ b _. Keeps-pure _ tt

  Calm-stored :
      (inc : IncomingEvent) (p : Progress) (o : Option Event)
      → Knows p
      → Keeps (Calm r) Knows (sync_stored w pid inc p o)
  unfolding sync_new sync_unchanged sync_changed
  Calm-stored inc p none own = Keeps-bind _ _ (Calm-upsert_event r _) λ ev _.
      Keeps-bind _ _ (Calm-handle_new inc ev.id p.entries) λ n _.
        Keeps-bind _ _ (Calm-materialize r settled w pid inc ev p.entries false own)
          λ entries known. Keeps-pure _ known
  Calm-stored inc p (some ex) own =
      Keeps-if _ _ _
        (Keeps-bind _ _ (Calm-materialize r settled w pid inc ex p.entries false own)
          λ entries known. Keeps-pure _ known)
        (Keeps-bind _ _ (Calm-upsert_event r _) λ ev _.
          Keeps-bind _ _ (Calm-handle_changed ev.id ex inc p.entries _) λ n _.
            Keeps-bind _ _ (Calm-materialize r settled w pid inc ev p.entries _ own)
              λ entries known. Keeps-pure _ known)

  Calm-incoming :
      (base : List Event) (incoming : List IncomingEvent) (p : Progress)
      → Knows p
      → Keeps (Calm r) Knows (sync_incoming w pid base incoming p)
  unfolding sync_incoming
  Calm-incoming base [] p own = Keeps-pure p own
  Calm-incoming base (inc ∷ incoming) p own =
      Keeps-bind _ _ (Calm-stored inc p _ own) λ q known. Calm-incoming base incoming q known

  Calm-drop :
      (e : Event) (res : SyncResult) (x : ℕ × Bool) → Keeps (Calm r) Any (drop_unless_kept e res x)
  unfolding drop_unless_kept
  Calm-drop e res (n, kept) =
      Keeps-if _ _ _ (Keeps-pure _ tt)
        (Keeps-bind _ _ (Calm-delete_event r e.id) λ _ _. Keeps-pure _ tt)

  Calm-vanish :
      (entries : List Row) (e : Event) (res : SyncResult)
      → Keeps (Calm r) Any (vanish w pid entries e res)
  unfolding vanish
  Calm-vanish entries e res =
      Keeps-bind _ _ (Keeps-has_status_excluded (Calm-OverlayFree r) e) λ x _.
        Keeps-if _ _ _ (Keeps-pure res tt) (
          Keeps-bind _ _ (Calm-has_category r pid _ _ _) λ c _.
            Keeps-if _ _ _
              (Keeps-bind _ _ (Calm-vanished_categorized r no_draft w pid e) λ y _. Keeps-pure _ tt)
              (Keeps-bind _ _ (Calm-vanished_confirmed_source r pid e entries)
                λ y _. Calm-drop e res y))

  Calm-vanished :
      (incoming : List IncomingEvent) (entries : List Row) (base : List Event) (res : SyncResult)
      → Keeps (Calm r) Any (sync_vanished w pid incoming entries base res)
  unfolding sync_vanished
  Calm-vanished incoming entries [] res = Keeps-pure res tt
  Calm-vanished incoming entries (e ∷ base) res =
      Keeps-bind _ _ (Keeps-if _ _ _ (Keeps-pure res tt) (Calm-vanish entries e res))
        λ next _. Calm-vanished incoming entries base next

  Calm-list : Keeps (Calm r) (All (IsOwn r)) (list_time_entries_for_period pid)
  Calm-list = Keeps-both _ (Holds-list r pid) (Keeps-list_entries NoneUses-EntryFree.tables pid)

  Calm-sync : (incoming : List IncomingEvent) → Keeps (Calm r) Any (sync_events w pid incoming)
  unfolding sync_events list_all_events_for_period
  Calm-sync incoming = Keeps-transaction (Calm r) Any (Calm-OfTables r) _ (
      Keeps-bind _ _ (Keeps-read (Calm-OfTables r) _) λ base _.
        Keeps-bind _ _ Calm-list λ entries own.
          Keeps-bind _ _ (Calm-incoming base incoming _ own)
            λ p _. Calm-vanished incoming p.entries base p.result)

-- A confirmed entry that is the only one under its key and is older than the next entry stays as it is,
-- and the only one, whatever a sync pulls, and whether or not the sync succeeds, if no question of the
-- table was answered by `use_event`; no question is answered by it then either.
pub sync_events-Holds :
    (w : World) (pid : ℕ) (incoming : List IncomingEvent) (r : Row) (db : Db)
    → r.attestation ≡ confirmed
    → Holds r db
    → All (λ (i : ReviewItem). IsOther i.decision_action) db.sources.review_items
    → Holds r (sync_events w pid incoming db).1
      × All
          (λ (i : ReviewItem). IsOther i.decision_action)
          (sync_events w pid incoming db).1.sources.review_items
sync_events-Holds w pid incoming r db s h k = ((Calm-sync r s w pid incoming).at db (h, k)).0
