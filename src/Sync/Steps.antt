-- ===== src/Sync/Steps.antt =====
-- What the statements of a merge, its categories and its drafts leave of a confirmed entry, where no
-- question was answered by `use_event`.
use clockr.Base.{
  true, false, keep, if◌then◌else◌, ℕ, ◌≡◌, Bool, false, String, Option, none, some, List, [], ◌∷◌,
  All, All-append,
}
use clockr.Sources.{Event, EventParams, ReviewItem, Sources}
use clockr.Ledger.{Row, confirmed, is_draft}
use clockr.Ledger.Keeps.{Keeps, Keeps-bind, Keeps-pure, Keeps-if, Keeps-both, Keeps-post}
use clockr.Ledger.Stays.{Any}
use clockr.Ledger.Holds.{IsOwn}
use clockr.Queries.{
  upserted_event, upsert_event, delete_event, get_memory, get_calendar_default,
  update_time_entry_calendar_draft,
}
use clockr.Queries.Reads.{Keeps-read}
use clockr.Calendar.{IncomingEvent, event_identity_from_incoming, linked_calendar_entries}
use clockr.Calendar.Rows.{Keeps-overlay_category, Keeps-upsert_overlay}
use clockr.Calendar.Dismissed.{All-linked, Holds-dismiss_linked}
use clockr.GapFills.Items.{Keeps-update_free, Keeps-dismiss, Keeps-bump}
use clockr.Materialize.{materialize_draft_for_event}
use clockr.Materialize.Steps.{Proposes, Keeps-materialize}
use clockr.Materialize.Untouched.{
  Holds-bump, Holds-refreshes, partition_linked-IsDismissed, confirmed-settled,
}
use clockr.Resync.{World}
use clockr.Resync.Calm.{
  IsOther, NoneUses-EntryFree, Calm, Calm-OfTables, Calm-OverlayFree, Calm-sources, Calm-create,
}
use clockr.Incoming.{
  has_category, categorize, apply_memory, apply_calendar_default, apply_ai_suggestion,
}

upserted_event-IsOther :
    (p : EventParams) (s : Sources) (o : Option Event)
    → All (λ (i : ReviewItem). IsOther i.decision_action) s.review_items
    → All (λ (i : ReviewItem). IsOther i.decision_action) (upserted_event p s o).1.review_items
unfolding upserted_event
upserted_event-IsOther p s none h = h
upserted_event-IsOther p s (some e) h = h

All-if :
    {A : Type 0} (P : A → Type 0) (b : Bool) (x : A) (xs : List A)
    → P x
    → All P xs
    → All P (if b then x ∷ xs else xs)
All-if P true x xs h hs = (h, hs)
All-if P false x xs h hs = hs

All-keep : {A : Type 0} (P : A → Type 0) (q : A → Bool) (xs : List A) → All P xs → All P (keep q xs)
unfolding keep
All-keep P q [] h = tt
All-keep P q (x ∷ xs) h = All-if P (q x) x (keep q xs) h.0 (All-keep P q xs h.1)

module _ (r : Row) where
  pub Calm-upsert_event : (p : EventParams) → Keeps (Calm r) Any (upsert_event p)
  unfolding upsert_event
  Calm-upsert_event p = Calm-sources r _ _ λ db h. (upserted_event-IsOther p db.sources _ h, tt)

  pub Calm-delete_event : (id : ℕ) → Keeps (Calm r) Any (delete_event id)
  unfolding delete_event
  Calm-delete_event id = Calm-sources r _ _ λ db h. (All-keep _ _ db.sources.review_items h, tt)

  pub Calm-has_category : (pid : ℕ) (a b c : String) → Keeps (Calm r) Any (has_category pid a b c)
  unfolding has_category
  Calm-has_category pid a b c =
      Keeps-bind _ _ (Keeps-overlay_category (Calm-OverlayFree r) _) λ o _. Keeps-pure _ tt

  Calm-categorize :
      (pid : ℕ) (inc : IncomingEvent) (c : Option ℕ) → Keeps (Calm r) Any (categorize pid inc c)
  unfolding categorize
  Calm-categorize pid inc none = Keeps-pure tt tt
  Calm-categorize pid inc (some c) = Keeps-upsert_overlay (Calm-OverlayFree r) _ _ _

  pub Calm-memory :
      (w : World) (pid : ℕ) (inc : IncomingEvent) → Keeps (Calm r) Any (apply_memory w pid inc)
  unfolding apply_memory get_memory
  Calm-memory w pid inc =
      Keeps-bind _ _ (Keeps-read (Calm-OfTables r) _) λ c _. Calm-categorize pid inc c

  pub Calm-calendar_default :
      (w : World) (pid : ℕ) (inc : IncomingEvent)
      → Keeps (Calm r) Any (apply_calendar_default w pid inc)
  unfolding apply_calendar_default get_calendar_default
  Calm-calendar_default w pid inc = Keeps-bind _ _ (Calm-has_category pid _ _ _) λ has _.
      Keeps-if _ _ _ (Keeps-pure tt tt)
        (Keeps-bind _ _ (Keeps-read (Calm-OfTables r) _) λ c _. Calm-categorize pid inc c)

  pub Calm-ai :
      (w : World) (pid : ℕ) (inc : IncomingEvent)
      → Keeps (Calm r) Any (apply_ai_suggestion w pid inc)
  unfolding apply_ai_suggestion
  Calm-ai w pid inc =
      Keeps-bind _ _ (Calm-has_category pid _ _ _)
        λ has _. Keeps-if _ _ _ (Keeps-pure tt tt) (Calm-categorize pid inc _)

module _ (r : Row) (settled : r.attestation ≡ confirmed) (w : World) (pid : ℕ) where
  no_draft : is_draft r.attestation ≡ false
  no_draft = confirmed-settled r.attestation settled

  Calm-Proposes :
      (entries : List Row) (identity : String)
      → All (IsOwn r) entries
      → Proposes (Calm r) (All (IsOwn r)) entries (linked_calendar_entries entries identity)
  unfolding update_time_entry_calendar_draft
  Calm-Proposes entries identity own =
      let linked = linked_calendar_entries entries identity in
      let own_linked = All-linked (IsOwn r) entries identity own in
      record {
        free = Calm-OverlayFree r;
        creates = λ p.
            Keeps-post _ (Calm-create r p)
              (λ row o. All-append (IsOwn r) entries (row ∷ []) own (o, tt));
        refreshes = λ e id p.
            Keeps-both _ (Holds-refreshes r settled e id p)
              (Keeps-update_free NoneUses-EntryFree _ _);
        dismisses =
            Keeps-both _ (Holds-dismiss_linked r no_draft linked own_linked)
              (Keeps-dismiss NoneUses-EntryFree linked);
        bumps = λ hash d.
            Keeps-both _
              (Holds-bump r settled hash linked own_linked (partition_linked-IsDismissed linked d))
              (Keeps-bump NoneUses-EntryFree hash linked);
        stays = own;
      }

  pub Calm-materialize :
      (inc : IncomingEvent) (ev : Event) (entries : List Row) (change : Bool)
      → All (IsOwn r) entries
      → Keeps
          (Calm r)
          (All (IsOwn r))
          (materialize_draft_for_event w.zones w.utc pid inc ev entries change)
  Calm-materialize inc ev entries change own =
      Keeps-materialize entries w.zones w.utc pid inc
        (Calm-Proposes entries (event_identity_from_incoming inc) own) ev change
