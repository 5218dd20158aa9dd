-- ===== src/Resync/Steps.antt =====
-- What the questions that a sync asks, and the answers that it replays, leave of a settled row that is
-- the only one under its key, where no question was answered by `use_event`.
use clockr.Base.{
  ℕ, ◌≡◌, Bool, false, String, Option, none, some, List, [], ◌∷◌, arith, if◌then◌else◌,
}
use clockr.Sources.{Event, Kind, Action, Payload, ConflictKey}
use clockr.Ledger.{M, ◌>>=◌, pure, Row, is_draft}
use clockr.Ledger.Keeps.{Keeps, Keeps-bind, Keeps-pure, Keeps-if}
use clockr.Ledger.Stays.{Any}
use clockr.Calendar.{IncomingEvent}
use clockr.Conflicts.{Enqueued, enqueue_or_replay}
use clockr.Review.{apply}
use clockr.Review.Steps.{Keeps-apply_new_in_gap, Keeps-apply_kind, Keeps-then}
use clockr.SourceDrift.{ask_drift, on_confirmed_source_drift, on_vanished_confirmed_source}
use clockr.Resync.{
  World, replay_item, replay, on_vanished_categorized, on_gap, on_all_day, on_tentative, gap_or,
  on_new_event, overlapping_gap_fingerprint, ask_title, ask_declined, on_changed_categorized,
}
use clockr.Resync.Calm.{IsOther, Calm, Calm-Outlives, Calm-enqueue, Calm-source_drift}

module _ (r : Row) (settled : is_draft r.attestation ≡ false) (w : World) where
  Calm-replay :
      (pid : ℕ) (k : Kind) (id : ℕ) (a : Action)
      → IsOther a
      → Keeps (Calm r) Any (replay w pid k id a)
  unfolding replay apply
  Calm-replay pid k id a h = Keeps-then _ tt (
      Keeps-apply_kind (Calm-Outlives r settled) w.zones w.utc k (replay_item pid k id) a (
        Keeps-apply_new_in_gap (Calm-Outlives r settled) (replay_item pid k id) a
          (λ ev e. absurd (ground (arith, h, e)))))

  -- A question, the replay of its answer where the sync replays it, and a result.
  asks :
      {A : Type 0} (k : ConflictKey) (id : ℕ) (payload : Payload)
      → (replays : Enqueued → M (Unit {0})) (result : Enqueued → A)
      → ((e : Enqueued) → IsOther e.action → Keeps (Calm r) Any (replays e))
      → Keeps
          (Calm r)
          Any
          (enqueue_or_replay k id payload >>= λ e. replays e >>= λ _. pure (result e))
  asks k id payload replays result h =
      Keeps-bind _ _ (Calm-enqueue r k id payload)
        λ e other. Keeps-bind _ _ (h e other) λ _ _. Keeps-pure _ tt

  if-replay :
      (b : Bool) (pid : ℕ) (k : Kind) (id : ℕ) (a : Action)
      → IsOther a
      → Keeps (Calm r) Any (if b then replay w pid k id a else pure tt)
  if-replay b pid k id a h = Keeps-if b _ _ (Calm-replay pid k id a h) (Keeps-pure tt tt)

  pub Calm-vanished_categorized :
      (pid : ℕ) (e : Event) → Keeps (Calm r) Any (on_vanished_categorized w pid e)
  unfolding on_vanished_categorized
  Calm-vanished_categorized pid e = asks _ _ _ _ _ λ x h. if-replay _ pid _ e.id x.action h

  Calm-gap :
      (pid : ℕ) (inc : IncomingEvent) (id : ℕ) (fingerprint : String)
      → Keeps (Calm r) Any (on_gap w pid inc id fingerprint)
  unfolding on_gap
  Calm-gap pid inc id fingerprint = asks _ _ _ _ _ λ x h. if-replay _ pid _ id x.action h

  Calm-all_day :
      (pid : ℕ) (inc : IncomingEvent) (id : ℕ) → Keeps (Calm r) Any (on_all_day w pid inc id)
  unfolding on_all_day
  Calm-all_day pid inc id = Keeps-bind _ _ (Calm-enqueue r _ id _) λ e _. Keeps-pure _ tt

  Calm-tentative :
      (pid : ℕ) (inc : IncomingEvent) (id : ℕ) → Keeps (Calm r) Any (on_tentative w pid inc id)
  unfolding on_tentative
  Calm-tentative pid inc id = asks _ _ _ _ _ λ x h. if-replay _ pid _ id x.action h

  Calm-gap_or :
      (pid : ℕ) (inc : IncomingEvent) (id : ℕ) (o : Option String)
      → Keeps (Calm r) Any (gap_or w pid inc id o)
  Calm-gap_or pid inc id (some f) = Calm-gap pid inc id f
  Calm-gap_or pid inc id none =
      Keeps-if _ _ _ (Calm-all_day pid inc id)
        (Keeps-if _ _ _ (Calm-tentative pid inc id) (Keeps-pure _ tt))

  pub Calm-new_event :
      (pid : ℕ) (inc : IncomingEvent) (id : ℕ) (gaps : List Row)
      → Keeps (Calm r) Any (on_new_event w pid inc id gaps)
  unfolding on_new_event
  Calm-new_event pid inc id gaps = Calm-gap_or pid inc id (overlapping_gap_fingerprint w inc gaps)

  Calm-title :
      (pid id : ℕ) (ex : Event) (inc : IncomingEvent)
      → Keeps (Calm r) Any (ask_title w pid id ex inc)
  unfolding ask_title
  Calm-title pid id ex inc = Keeps-bind _ _ (Calm-enqueue r _ id _) λ e _. Keeps-pure _ tt

  Calm-declined :
      (pid id : ℕ) (inc : IncomingEvent) → Keeps (Calm r) Any (ask_declined w pid id inc)
  unfolding ask_declined
  Calm-declined pid id inc = asks _ _ _ _ _ λ x h. if-replay _ pid _ id x.action h

  pub Calm-changed_categorized :
      (pid id : ℕ) (ex : Event) (inc : IncomingEvent)
      → Keeps (Calm r) Any (on_changed_categorized w pid id ex inc)
  unfolding on_changed_categorized
  Calm-changed_categorized pid id ex inc =
      Keeps-bind _ _ (Keeps-if _ _ _ (Calm-title pid id ex inc) (Keeps-pure 0 tt)) λ a _.
        Keeps-bind _ _ (Keeps-if _ _ _ (Calm-declined pid id inc) (Keeps-pure 0 tt))
          λ b _. Keeps-pure _ tt

module _ (r : Row) where
  Calm-ask_drift :
      (pid id : ℕ) (identity revision : String) (texts : List (String × String)) (ids : List ℕ)
      → Keeps (Calm r) Any (ask_drift pid id identity revision texts ids)
  unfolding ask_drift
  Calm-ask_drift pid id identity revision texts [] = Keeps-pure 0 tt
  Calm-ask_drift pid id identity revision texts (x ∷ xs) =
      Keeps-bind _ _ (Calm-source_drift r pid id identity _) λ c _. Keeps-pure _ tt

  pub Calm-confirmed_source_drift :
      (pid id : ℕ) (inc : IncomingEvent) (entries : List Row) (hash : String)
      → Keeps (Calm r) Any (on_confirmed_source_drift pid id inc entries hash)
  unfolding on_confirmed_source_drift
  Calm-confirmed_source_drift pid id inc entries hash = Calm-ask_drift _ _ _ _ _ _

  pub Calm-vanished_confirmed_source :
      (pid : ℕ) (ev : Event) (entries : List Row)
      → Keeps (Calm r) Any (on_vanished_confirmed_source pid ev entries)
  unfolding on_vanished_confirmed_source
  Calm-vanished_confirmed_source pid ev entries =
      Keeps-bind _ _ (Calm-ask_drift _ _ _ _ _ _) λ n _. Keeps-pure _ tt
