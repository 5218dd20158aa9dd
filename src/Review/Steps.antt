-- ===== src/Review/Steps.antt =====
-- The answers to questions keep whatever depends on neither the overlays nor the faults, outlives a new
-- entry and the dismissal of an event's drafts. `use_event` on `new_in_gap`, which writes entries of
-- the user, is left to those who use this.
use clockr.Base.{
  ℕ, ◌≡◌, refl, Bool, true, false, String, Option, none, some, List, [], ◌∷◌, failure,
  invalid_input,
}
use clockr.GoTime.{Location}
use clockr.Sources.{
  Event, Overlay, Kind, Action, ReviewItem, keep_entry, drop_entry, accept, dismiss, keep_gap,
  use_event, include, exclude, spawn_draft, replace, other, overlap, dedup_ambiguous, tentative,
  all_day, title_changed, deleted_categorized, new_in_gap, source_drift,
}
use clockr.Ledger.{Db, M, ◌>>=◌, Params, Row, pure, create_time_entry}
use clockr.Ledger.Keeps.{
  Keeps, Keeps-if, Keeps-option, Keeps-bind, Keeps-pure, Keeps-fail, Keeps-guard, Keeps-lift,
}
use clockr.Ledger.Stays.{Any, Keeps-Any}
use clockr.Queries.Reads.{Keeps-get_event, Keeps-get_overlay, Keeps-get_entry}
use clockr.Calendar.{dismiss_calendar_drafts_for_event}
use clockr.Calendar.Rows.{
  OverlayFree, Keeps-mark_excluded, Keeps-delete_category_overlay, Keeps-overlay_category,
  Keeps-event_local_day, Keeps-delete_overlay,
}
use clockr.Review.{
  event_of, attempt, first_confirmed, confirmed_or, clear_excluded, include_exclude, settle_gap,
  settle_deleted, clear_all_day_review_exclusion, apply_include_exclude, apply_new_in_gap,
  spawn_source_drift_draft, apply_source_drift, convert_event_to_manual_fill,
  apply_deleted_categorized, apply_kind,
}

pub record Outlives (P : Db → Type 0) : Type 0 where
  pub free : OverlayFree P
  pub creates : (p : Params) → Keeps P Any (create_time_entry p)
  pub dismisses : (ev : Event) → Keeps P Any (dismiss_calendar_drafts_for_event ev)

module _ {P : Db → Type 0} where
  pub Keeps-attempt : {A : Type 0} (m : M A) → Keeps P Any m → Keeps P Any (attempt m)
  unfolding attempt
  Keeps-attempt m k = record { at = λ db h. ((k.at db h).0, tt) }

  Keeps-confirmed_or :
      (rest : M (Option Row)) (row : Option Row)
      → Keeps P Any rest
      → Keeps P Any (confirmed_or rest row)
  Keeps-confirmed_or rest none k = k
  Keeps-confirmed_or rest (some r) k = Keeps-if _ _ _ (Keeps-pure (some r) tt) k

  pub Keeps-then :
      {A B : Type 0} (m : M A) (b : B) → Keeps P Any m → Keeps P Any (m >>= λ _. pure b)
  Keeps-then m b k = Keeps-bind _ _ k λ _ _. Keeps-pure b tt

module _ {P : Db → Type 0} (o : Outlives P) where
  Keeps-event_of : (id : Option ℕ) → Keeps P Any (event_of id)
  unfolding event_of
  Keeps-event_of none = Keeps-fail failure
  Keeps-event_of (some id) = Keeps-get_event o.free.tables id

  Keeps-first_confirmed : (pid : ℕ) (ids : List ℕ) → Keeps P Any (first_confirmed pid ids)
  unfolding first_confirmed
  Keeps-first_confirmed pid [] = Keeps-pure none tt
  Keeps-first_confirmed pid (id ∷ ids) =
      Keeps-bind _ _ (Keeps-attempt _ (Keeps-get_entry o.free.tables id pid))
        λ row _. Keeps-confirmed_or _ row (Keeps-first_confirmed pid ids)

  Keeps-clear_excluded : (ov : Option Overlay) → Keeps P Any (clear_excluded ov)
  Keeps-clear_excluded none = Keeps-pure tt tt
  Keeps-clear_excluded (some ov) =
      Keeps-if _ _ _ (Keeps-delete_overlay o.free ov.id) (Keeps-pure tt tt)

  Keeps-clear_all_day : (id : ℕ) → Keeps P Any (clear_all_day_review_exclusion id)
  unfolding clear_all_day_review_exclusion
  Keeps-clear_all_day id = Keeps-bind _ _ (Keeps-get_event o.free.tables id) λ ev _.
      Keeps-if _ _ _
        (Keeps-bind _ _ (Keeps-get_overlay o.free.tables _) λ ov _. Keeps-clear_excluded ov)
        (Keeps-pure tt tt)

  Keeps-include_exclude :
      (kind : Kind) (id : ℕ) (a : Action) → Keeps P Any (include_exclude kind id a)
  unfolding include_exclude
  Keeps-include_exclude kind id include = Keeps-if _ _ _ (Keeps-clear_all_day id) (Keeps-pure tt tt)
  Keeps-include_exclude kind id exclude = Keeps-bind _ _ (Keeps-get_event o.free.tables id) λ ev _.
      Keeps-bind _ _ (Keeps-delete_category_overlay o.free ev)
        λ _ _. Keeps-if _ _ _ (Keeps-clear_all_day ev.id) (Keeps-mark_excluded o.free ev)
  Keeps-include_exclude kind id keep_entry = Keeps-fail invalid_input
  Keeps-include_exclude kind id drop_entry = Keeps-fail invalid_input
  Keeps-include_exclude kind id accept = Keeps-fail invalid_input
  Keeps-include_exclude kind id dismiss = Keeps-fail invalid_input
  Keeps-include_exclude kind id keep_gap = Keeps-fail invalid_input
  Keeps-include_exclude kind id use_event = Keeps-fail invalid_input
  Keeps-include_exclude kind id spawn_draft = Keeps-fail invalid_input
  Keeps-include_exclude kind id replace = Keeps-fail invalid_input
  Keeps-include_exclude kind id (other t) = Keeps-fail invalid_input

  Keeps-apply_include_exclude :
      (item : ReviewItem) (a : Action) → Keeps P Any (apply_include_exclude item a)
  unfolding apply_include_exclude
  Keeps-apply_include_exclude item a =
      Keeps-option item.event_id _ _ (Keeps-fail failure)
        (λ id. Keeps-include_exclude item.kind id a)

  Keeps-settle_gap :
      (pid : ℕ) (ev : Event) (a : Action)
      → (a ≡ use_event → Keeps P Any (settle_gap pid ev use_event))
      → Keeps P Any (settle_gap pid ev a)
  unfolding settle_gap
  Keeps-settle_gap pid ev keep_gap n = Keeps-mark_excluded o.free ev
  Keeps-settle_gap pid ev use_event n = n refl
  Keeps-settle_gap pid ev keep_entry n = Keeps-fail invalid_input
  Keeps-settle_gap pid ev drop_entry n = Keeps-fail invalid_input
  Keeps-settle_gap pid ev accept n = Keeps-fail invalid_input
  Keeps-settle_gap pid ev dismiss n = Keeps-fail invalid_input
  Keeps-settle_gap pid ev include n = Keeps-fail invalid_input
  Keeps-settle_gap pid ev exclude n = Keeps-fail invalid_input
  Keeps-settle_gap pid ev spawn_draft n = Keeps-fail invalid_input
  Keeps-settle_gap pid ev replace n = Keeps-fail invalid_input
  Keeps-settle_gap pid ev (other t) n = Keeps-fail invalid_input

  pub Keeps-apply_new_in_gap :
      (item : ReviewItem) (a : Action)
      → ((ev : Event) → a ≡ use_event → Keeps P Any (settle_gap item.period_id ev use_event))
      → Keeps P Any (apply_new_in_gap item a)
  unfolding apply_new_in_gap
  Keeps-apply_new_in_gap item a n =
      Keeps-bind _ _ (Keeps-event_of item.event_id) λ ev _. Keeps-settle_gap _ ev a (n ev)

  module _ (zones : String → Option Location) (utc : Location) where
    Keeps-spawn :
        (item : ReviewItem) (b : Bool) → Keeps P Any (spawn_source_drift_draft zones utc item b)
    unfolding spawn_source_drift_draft
    Keeps-spawn item b = Keeps-bind _ _ (Keeps-event_of item.event_id) λ ev _.
        Keeps-bind _ _ (Keeps-guard _ _) λ _ _. Keeps-bind _ _ (Keeps-first_confirmed _ _) λ row _.
          Keeps-bind _ _ (Keeps-event_local_day o.free zones utc ev)
            λ day _. Keeps-then _ tt (o.creates _)

    Keeps-apply_source_drift :
        (item : ReviewItem) (a : Action) → Keeps P Any (apply_source_drift zones utc item a)
    unfolding apply_source_drift
    Keeps-apply_source_drift item dismiss = Keeps-pure tt tt
    Keeps-apply_source_drift item spawn_draft = Keeps-spawn item false
    Keeps-apply_source_drift item replace = Keeps-spawn item true
    Keeps-apply_source_drift item keep_entry = Keeps-fail invalid_input
    Keeps-apply_source_drift item drop_entry = Keeps-fail invalid_input
    Keeps-apply_source_drift item accept = Keeps-fail invalid_input
    Keeps-apply_source_drift item keep_gap = Keeps-fail invalid_input
    Keeps-apply_source_drift item use_event = Keeps-fail invalid_input
    Keeps-apply_source_drift item include = Keeps-fail invalid_input
    Keeps-apply_source_drift item exclude = Keeps-fail invalid_input
    Keeps-apply_source_drift item (other t) = Keeps-fail invalid_input

    Keeps-convert : (ev : Event) → Keeps P Any (convert_event_to_manual_fill zones utc ev)
    unfolding convert_event_to_manual_fill
    Keeps-convert ev = Keeps-bind _ _ (Keeps-guard _ _) λ _ _.
        Keeps-bind _ _ (Keeps-overlay_category o.free _) λ c _.
          Keeps-bind _ _ (Keeps-event_local_day o.free zones utc ev)
            λ day _. Keeps-bind _ _ (o.creates _) λ row _. Keeps-delete_category_overlay o.free ev

    Keeps-settle_deleted : (ev : Event) (a : Action) → Keeps P Any (settle_deleted zones utc ev a)
    unfolding settle_deleted
    Keeps-settle_deleted ev keep_entry =
        Keeps-bind _ _ (o.dismisses ev)
          λ _ _. Keeps-bind _ _ (Keeps-convert ev) λ _ _. Keeps-mark_excluded o.free ev
    Keeps-settle_deleted ev drop_entry = Keeps-bind _ _ (o.dismisses ev) λ _ _.
        Keeps-bind _ _ (Keeps-delete_category_overlay o.free ev)
          λ _ _. Keeps-mark_excluded o.free ev
    Keeps-settle_deleted ev accept = Keeps-fail invalid_input
    Keeps-settle_deleted ev dismiss = Keeps-fail invalid_input
    Keeps-settle_deleted ev keep_gap = Keeps-fail invalid_input
    Keeps-settle_deleted ev use_event = Keeps-fail invalid_input
    Keeps-settle_deleted ev include = Keeps-fail invalid_input
    Keeps-settle_deleted ev exclude = Keeps-fail invalid_input
    Keeps-settle_deleted ev spawn_draft = Keeps-fail invalid_input
    Keeps-settle_deleted ev replace = Keeps-fail invalid_input
    Keeps-settle_deleted ev (other t) = Keeps-fail invalid_input

    Keeps-apply_deleted :
        (item : ReviewItem) (a : Action) → Keeps P Any (apply_deleted_categorized zones utc item a)
    unfolding apply_deleted_categorized
    Keeps-apply_deleted item a =
        Keeps-bind _ _ (Keeps-event_of item.event_id) λ ev _. Keeps-settle_deleted ev a

    pub Keeps-apply_kind :
        (k : Kind) (item : ReviewItem) (a : Action)
        → Keeps P Any (apply_new_in_gap item a)
        → Keeps P Any (apply_kind zones utc k item a)
    unfolding apply_kind
    Keeps-apply_kind deleted_categorized item a g = Keeps-then _ _ (Keeps-apply_deleted item a)
    Keeps-apply_kind title_changed item a g = Keeps-Any _ (Keeps-lift _)
    Keeps-apply_kind new_in_gap item a g = Keeps-then _ _ g
    Keeps-apply_kind tentative item a g = Keeps-then _ _ (Keeps-apply_include_exclude item a)
    Keeps-apply_kind all_day item a g = Keeps-then _ _ (Keeps-apply_include_exclude item a)
    Keeps-apply_kind source_drift item a g = Keeps-then _ _ (Keeps-apply_source_drift item a)
    Keeps-apply_kind overlap item a g = Keeps-fail _
    Keeps-apply_kind dedup_ambiguous item a g = Keeps-fail _
