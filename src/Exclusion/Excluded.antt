-- ===== src/Exclusion/Excluded.antt =====
-- What excluding an event leaves: the overlay that hides it, by which no entry is proposed for it.
use mathlib.Core.Path.{subst}
use text.Mathlib.TextPositions.{eq_refl}
use clockr.Base.{
  ℕ, suc, ◌≡◌, refl, ap, sym, ◌∙◌, Bool, true, false, String, Option, none, some, List, [], ◌∷◌,
  ◌++◌, arith, find, length, ok, failure, not_found, if◌then◌else◌, ltb, ◌==◌,
}
use clockr.GoTime.{Location}
use clockr.Sources.{Event, Overlay, OverlayKey, OverlayKind, ReviewItem, Status, Action, Sources}
use clockr.Ledger.{
  Db, M, ◌>>=◌, ◌>>◌, pure, guard, statement, one_row, consume, Params, Row, update_where,
  update_row, update_attestation,
}
use clockr.Ledger.Keeps.{
  Keeps, OfTables, Keeps-statement, Keeps-bind, Keeps-pure, Keeps-if, Keeps-option,
}
use clockr.Ledger.Stays.{Any, Post-Any}
use clockr.Ledger.Returns.{Runs, bind-runs, guard-runs, transaction-runs, runs-Keeps}
use clockr.Queries.{
  same_key, set_overlays, upserted, upsert_overlay, get_overlay, update_items, get_event,
  resolve_review_item, list_open_review_items,
}
use clockr.Queries.Reads.{Keeps-list_open_review_items}
use clockr.Calendar.{
  event_key, IncomingEvent, mark_excluded, has_status_excluded, note_is_excluded, excluded_note,
  dismiss_linked_drafts, delete_category_overlay, dismiss_calendar_drafts_for_event,
}
use clockr.Materialize.{timed_span, materialize_timed, materialize_draft_for_event}
use clockr.Exclusion.{dismiss_items, exclude_event}

-- The overlay that hides the event.
abbrev pub status_overlay : Event → Db → Option Overlay
status_overlay ev db =
    find (λ o. same_key o.key (event_key ev OverlayKind.status)) db.sources.overlays

-- The event is hidden from the schedule.
abbrev pub IsExcluded : Event → Db → Type 0
IsExcluded ev db = note_is_excluded (status_overlay ev db) ≡ true

same_key_refl : (k : OverlayKey) → same_key k k ≡ true
unfolding same_key
same_key_refl k = ground (arith, eq_refl k.provider, eq_refl k.external_id, eq_refl k.instance_id)

find-set_overlays :
    (k : OverlayKey) (c : Option ℕ) (note : String) (os : List Overlay) (o : Overlay)
    → find (λ (x : Overlay). same_key x.key k) os ≡ some o
    → find (λ (x : Overlay). same_key x.key k) (set_overlays k c note os)
      ≡ some (record o { category_id = c; note = note })
unfolding find set_overlays
find-set_overlays k c note [] o h = absurd (ground arith)
find-set_overlays k c note (x ∷ os) o h = ground (arith, find-set_overlays k c note os o)

find-new_overlay :
    (k : OverlayKey) (os : List Overlay) (o : Overlay)
    → find (λ (x : Overlay). same_key x.key k) os ≡ none
    → same_key o.key k ≡ true
    → find (λ (x : Overlay). same_key x.key k) (os ++ o ∷ []) ≡ some o
unfolding find
find-new_overlay k [] o h e = ground arith
find-new_overlay k (x ∷ os) o h e = ground (arith, find-new_overlay k os o)

upserted-note :
    (k : OverlayKey) (c : Option ℕ) (s : Sources)
    → note_is_excluded (find (λ o. same_key o.key k) (upserted k c excluded_note s).overlays) ≡ true
unfolding upserted
upserted-note k c s = go (find (λ o. same_key o.key k) s.overlays) refl
  where
    go :
        (o : Option Overlay)
        → find (λ (x : Overlay). same_key x.key k) s.overlays ≡ o
        → note_is_excluded (find (λ o. same_key o.key k) (upserted k c excluded_note s).overlays)
          ≡ true
    go none e =
        rw
          (
            e,
            find-new_overlay k s.overlays
                (record { id = s.next_overlay; key = k; category_id = c; note = excluded_note }) e
                (same_key_refl k),
          )
          (eq_refl excluded_note)
    go (some o) e =
        rw (e, find-set_overlays k c excluded_note s.overlays o e) (eq_refl excluded_note)

mark_excluded-runs :
    (ev : Event) (before : Db) (u : Unit {0}) (after : Db)
    → Runs (mark_excluded ev) before u after
    → IsExcluded ev after
unfolding mark_excluded upsert_overlay statement
mark_excluded-runs ev before u after h =
    ground (arith, upserted-note (event_key ev OverlayKind.status) none before.sources)

module _ (ev : Event) where
  IsExcluded-OfTables : OfTables (IsExcluded ev)
  IsExcluded-OfTables db fs h = h

  Keeps-resolve_item :
      (s : Status) (a : Action) (id : ℕ) → Keeps (IsExcluded ev) Any (resolve_review_item s a id)
  unfolding resolve_review_item update_items
  Keeps-resolve_item s a id =
      Keeps-statement (IsExcluded ev) Any IsExcluded-OfTables _ λ db h. (h, tt)

  Keeps-dismiss_items :
      (id : ℕ) (items : List ReviewItem) → Keeps (IsExcluded ev) Any (dismiss_items id items)
  unfolding dismiss_items
  Keeps-dismiss_items id [] = Keeps-pure tt tt
  Keeps-dismiss_items id (item ∷ items) =
      let rest = Keeps-dismiss_items id items in
      Keeps-if _ _ _ (Keeps-bind _ _ (Keeps-resolve_item _ _ _) λ _ _. rest) rest

  -- What `exclude_event` does once the event is marked.
  Keeps-clean :
      (pid : ℕ) (r : ℕ × ℕ)
      → Keeps
          (IsExcluded ev)
          Any
          (list_open_review_items pid >>= λ items. dismiss_items ev.id items >> pure r)
  Keeps-clean pid r =
      Keeps-bind _ _ (Keeps-list_open_review_items IsExcluded-OfTables pid)
        λ items _. Keeps-bind _ _ (Keeps-dismiss_items ev.id items) λ _ _. Keeps-pure r tt

event-runs :
    (id : ℕ) (before : Db) (ev : Event) (after : Db)
    → Runs (get_event id) before ev after
    → find (λ (e : Event). e.id == id) before.sources.events ≡ some ev
unfolding get_event statement
event-runs id before ev after h =
    found (find (λ (e : Event). e.id == id) before.sources.events) (ground arith)
  where
    found : (o : Option Event) → one_row o ≡ ok ev → o ≡ some ev
    found none h = absurd (ground arith)
    found (some x) h = ground arith

some-inj : {x y : Event} → some x ≡ some y → x ≡ y
some-inj h = ground arith

exclude_event-IsExcluded :
    (id pid : ℕ) (before : Db) (r : ℕ × ℕ) (after : Db) (ev : Event)
    → find (λ (e : Event). e.id == id) before.sources.events ≡ some ev
    → Runs (exclude_event id pid) before r after
    → IsExcluded ev after
unfolding exclude_event
exclude_event-IsExcluded id pid before r after ev h runs =
    let a = bind-runs (guard (ltb 0 id) failure) _ before r after runs in
    let b = bind-runs (guard (ltb 0 pid) failure) _ a.middle r after a.second in
    let (last, body, e) = transaction-runs _ b.middle r after b.second in
    let c = bind-runs (get_event id) _ _ r last body in
    let d = bind-runs (guard (c.result.period_id == pid) not_found) _ c.middle r last c.second in
    let f = bind-runs (delete_category_overlay c.result) _ d.middle r last d.second in
    let g = bind-runs (dismiss_calendar_drafts_for_event c.result) _ f.middle r last f.second in
    let m = bind-runs (mark_excluded c.result) _ g.middle r last g.second in
    let marked = mark_excluded-runs c.result g.middle m.result m.middle m.first in
    let cleaned = runs-Keeps _ m.middle r last (Keeps-clean c.result pid _) marked m.second in
    let still = (guard-runs _ _ _ _ _ b.first).1 ∙ (guard-runs _ _ _ _ _ a.first).1 in
    let same = some-inj (
      sym (event-runs id (consume b.middle) c.result c.middle c.first)
      ∙ ap (λ (db : Db). find (λ (e : Event). e.id == id) db.sources.events) still
      ∙ h) in
    subst (λ v. IsExcluded v after) same (subst (IsExcluded c.result) (sym e) cleaned.0)

length-update_where :
    (p : Row → Bool) (f : Params → Params) (rows : List Row)
    → length (update_where p f rows) ≡ length rows
unfolding update_where
length-update_where p f [] = refl
length-update_where p f (x ∷ xs) = ap suc (length-update_where p f xs)

-- The event is hidden, and there are `n` entries.
abbrev Counts : Event → ℕ → Db → Type 0
Counts ev n db = IsExcluded ev db × (length db.entries ≡ n)

module _ (ev : Event) (n : ℕ) where
  Counts-OfTables : OfTables (Counts ev n)
  Counts-OfTables db fs h = h

  Counts-update_row :
      (p : Row → Bool) (f : Params → Params) → Keeps (Counts ev n) Any (update_row p f)
  unfolding update_row
  Counts-update_row p f =
      Keeps-statement (Counts ev n) Any Counts-OfTables _
        λ db h. ((h.0, length-update_where p f db.entries ∙ h.1), Post-Any _)

  Counts-dismiss : (rows : List Row) → Keeps (Counts ev n) Any (dismiss_linked_drafts rows)
  unfolding dismiss_linked_drafts update_attestation
  Counts-dismiss [] = Keeps-pure tt tt
  Counts-dismiss (te ∷ rows) =
      let rest = Counts-dismiss rows in
      Keeps-if _ _ _ (Keeps-bind _ _ (Counts-update_row _ _) λ row _. rest) rest

  -- The lookup finds the event excluded.
  Counts-has_status_excluded : Keeps (Counts ev n) (λ b. b ≡ true) (has_status_excluded ev)
  unfolding has_status_excluded get_overlay
  Counts-has_status_excluded =
      Keeps-bind _ _
        (Keeps-statement (Counts ev n) (λ o. note_is_excluded o ≡ true) Counts-OfTables _
          (λ db h. (h, h.0)))
        λ o e. Keeps-pure (note_is_excluded o) e

  if-true :
      {A : Type 0} (b : Bool) (m k : M A)
      → b ≡ true
      → Keeps (Counts ev n) Any m
      → Keeps (Counts ev n) Any (if b then m else k)
  if-true true m k e h = h
  if-true false m k e h = absurd (ground arith)

  Counts-timed :
      (zones : String → Option Location) (utc : Location) (pid : ℕ) (inc : IncomingEvent)
      → (entries : List Row) (change : Bool) (span : ℕ × ℕ)
      → Keeps (Counts ev n) Any (materialize_timed zones utc pid inc ev entries change span)
  unfolding materialize_timed
  Counts-timed zones utc pid inc entries change span =
      Keeps-bind _ _ Counts-has_status_excluded λ excluded e.
        if-true excluded _ _ e (Keeps-bind _ _ (Counts-dismiss _) λ _ _. Keeps-pure entries tt)

  Counts-materialize :
      (zones : String → Option Location) (utc : Location) (pid : ℕ) (inc : IncomingEvent)
      → (entries : List Row) (change : Bool)
      → Keeps (Counts ev n) Any (materialize_draft_for_event zones utc pid inc ev entries change)
  unfolding materialize_draft_for_event
  Counts-materialize zones utc pid inc entries change =
      Keeps-option (timed_span inc) _ _ (Keeps-pure entries tt)
        (λ span. Counts-timed zones utc pid inc entries change span)

-- When a user has excluded an event: as long as its status overlay stands as the exclusion has left it,
-- proposing a draft for any row with the key of the event creates no entry, whatever was pulled for it,
-- and whether or not the proposal succeeds.
pub exclude_event-materialize :
    (zones : String → Option Location) (utc : Location) (id pid : ℕ) (before : Db) (r : ℕ × ℕ)
    → (after later : Db) (ev row : Event) (period_id : ℕ) (inc : IncomingEvent)
    → (entries : List Row) (change : Bool)
    → find (λ (e : Event). e.id == id) before.sources.events ≡ some ev
    → Runs (exclude_event id pid) before r after
    → status_overlay ev later ≡ status_overlay ev after
    → event_key row OverlayKind.status ≡ event_key ev OverlayKind.status
    → length
        (materialize_draft_for_event zones utc period_id inc row entries change later).1.entries
      ≡ length later.entries
exclude_event-materialize zones utc id pid before r after later ev row period_id inc entries change
      h runs same key =
    let excluded = exclude_event-IsExcluded id pid before r after ev h runs in
    let hides = subst (λ o. note_is_excluded o ≡ true) (sym same) excluded in
    let still : IsExcluded row later =
      subst
        (λ k.
          note_is_excluded (find (λ (o : Overlay). same_key o.key k) later.sources.overlays) ≡ true)
        (sym key) hides in
    let kept =
      Counts-materialize row (length later.entries) zones utc period_id inc entries change in
    (kept.at later (still, refl)).0.1
