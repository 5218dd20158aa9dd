-- ===== src/Materialize/Steps.antt =====
-- Proposing a draft for an event keeps whatever its statements keep.
use clockr.Base.{ℕ, ◌≡◌, Bool, true, false, not, ◌&&◌, String, Option, List, [], ◌∷◌, ◌++◌, arith}
use clockr.GoTime.{Location}
use clockr.Sources.{Event}
use clockr.Ledger.{Db, Row, Params, create_time_entry}
use clockr.Ledger.Keeps.{Keeps, Keeps-bind, Keeps-pure, Keeps-if, Keeps-when, Keeps-option}
use clockr.Ledger.Stays.{Any}
use clockr.Queries.{DraftEdit, update_time_entry_calendar_draft}
use clockr.Queries.Reads.{Keeps-list_open_review_items}
use clockr.Calendar.{
  IncomingEvent, partition_linked, linked_calendar_entries, event_identity_from_incoming,
  dismiss_linked_drafts,
}
use clockr.Calendar.Rows.{
  OverlayFree, Keeps-has_status_excluded, Keeps-effective_category, Keeps-event_local_day,
}
use clockr.Materialize.{
  has_open_tentative_review, is_undecided, bump_revisions, create_draft_from_event,
  refresh_draft_from_event, refresh_drafts, propose, materialize_timed, materialize_draft_for_event,
  timed_span,
}

-- `P` outlives the writes, and the caller's list of entries has `Q` before and after them.
pub record Proposes (P : Db → Type 0) (Q : List Row → Type 0) (entries linked : List Row)
    : Type 0 where
  pub free : OverlayFree P
  pub creates : (p : Params) → Keeps P (λ row. Q (entries ++ row ∷ [])) (create_time_entry p)
  pub refreshes : (e : DraftEdit) (id p : ℕ) → Keeps P Any (update_time_entry_calendar_draft e id p)
  pub dismisses : Keeps P Any (dismiss_linked_drafts linked)
  pub bumps :
      (hash : String)
      → (partition_linked linked).all_dismissed ≡ true
      → Keeps P Any (bump_revisions hash linked)
  pub stays : Q entries

both-left : (b c : Bool) → (b && c) ≡ true → b ≡ true
both-left b c h = ground arith

module _ {P : Db → Type 0} {Q : List Row → Type 0} {entries linked : List Row}
    (o : Proposes P Q entries linked) (zones : String → Option Location) (utc : Location) (pid : ℕ)
    (inc : IncomingEvent) (ev : Event) where
  Keeps-create_draft :
      (identity : String) (span : ℕ × ℕ)
      → Keeps P Q (create_draft_from_event zones utc pid inc ev identity span entries)
  unfolding create_draft_from_event
  Keeps-create_draft identity span =
      Keeps-bind _ _ (Keeps-event_local_day o.free zones utc ev) λ day _.
        Keeps-bind _ _ (Keeps-effective_category o.free pid inc)
          λ c _. Keeps-bind _ _ (o.creates _) λ row q. Keeps-pure _ q

  Keeps-refresh :
      (span : ℕ × ℕ) (te : Row)
      → Keeps P Any (refresh_draft_from_event zones utc pid inc ev span te)
  unfolding refresh_draft_from_event
  Keeps-refresh span te = Keeps-if _ _ _ (Keeps-pure tt tt) (
      Keeps-bind _ _ (Keeps-event_local_day o.free zones utc ev) λ day _.
        Keeps-bind _ _ (Keeps-effective_category o.free pid inc)
          λ c _. Keeps-bind _ _ (o.refreshes _ _ _) λ row _. Keeps-pure tt tt)

  Keeps-refresh_drafts :
      (span : ℕ × ℕ) (drafts : List Row)
      → Keeps P Any (refresh_drafts zones utc pid inc ev span drafts)
  unfolding refresh_drafts
  Keeps-refresh_drafts span [] = Keeps-pure tt tt
  Keeps-refresh_drafts span (te ∷ drafts) =
      Keeps-bind _ _ (Keeps-refresh span te) λ _ _. Keeps-refresh_drafts span drafts

  Keeps-undecided : Keeps P Any (is_undecided pid inc ev)
  unfolding is_undecided has_open_tentative_review
  Keeps-undecided =
      Keeps-if _ _ _
        (Keeps-bind _ _ (Keeps-list_open_review_items o.free.tables pid) λ items _. Keeps-pure _ tt)
        (Keeps-pure false tt)

  Keeps-propose :
      (span : ℕ × ℕ) (change : Bool)
      → Keeps P Q
          (propose zones utc pid inc ev span entries change linked (partition_linked linked))
  unfolding propose
  Keeps-propose span change =
      Keeps-if _ _ _ (Keeps-bind _ _ (Keeps-refresh_drafts span _) λ _ _. Keeps-pure _ o.stays) (
        Keeps-when ((partition_linked linked).all_dismissed && not change) _ _
          (λ d.
            Keeps-bind _ _ (o.bumps ev.source_hash (both-left _ _ d)) λ _ _. Keeps-pure _ o.stays)
          (Keeps-create_draft _ span))

module _ {P : Db → Type 0} {Q : List Row → Type 0} (entries : List Row)
    (zones : String → Option Location) (utc : Location) (pid : ℕ) (inc : IncomingEvent)
    (o : Proposes P Q entries (linked_calendar_entries entries (event_identity_from_incoming inc)))
    (ev : Event) (change : Bool) where
  Keeps-timed :
      (span : ℕ × ℕ) → Keeps P Q (materialize_timed zones utc pid inc ev entries change span)
  unfolding materialize_timed
  Keeps-timed span = Keeps-bind _ _ (Keeps-has_status_excluded o.free ev) λ excluded _.
      Keeps-if _ _ _ (Keeps-bind _ _ o.dismisses λ _ _. Keeps-pure _ o.stays) (
        Keeps-bind _ _ (Keeps-undecided o zones utc pid inc ev) λ undecided _.
          Keeps-if _ _ _ (Keeps-pure _ o.stays) (Keeps-propose o zones utc pid inc ev span change))

  pub Keeps-materialize :
      Keeps P Q (materialize_draft_for_event zones utc pid inc ev entries change)
  unfolding materialize_draft_for_event
  Keeps-materialize = Keeps-option (timed_span inc) _ _ (Keeps-pure _ o.stays) Keeps-timed
