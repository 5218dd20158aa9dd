-- ===== src/Sync/Counts.antt =====
-- The counters of a merge: each event of the pull is counted once.
use clockr.Base.{ℕ, suc, ◌+◌, ◌≡◌, refl, Option, none, some, List, [], ◌∷◌, arith, length, ok}
use clockr.Sources.{Event}
use clockr.Ledger.{Db, M, Row}
use clockr.Ledger.Keeps.{Keeps, Keeps-bind, Keeps-pure, Keeps-if, Keeps-transaction, Keeps-post}
use clockr.Ledger.Stays.{Any, Post-Any}
use clockr.Ledger.Returns.{runs-Keeps}
use clockr.Calendar.{IncomingEvent}
use clockr.Resync.{World}
use clockr.Sync.{
  SyncResult, Progress, sync_new, sync_unchanged, sync_changed, sync_stored, sync_incoming,
  drop_unless_kept, vanish, sync_vanished, sync_events,
}

-- No claim about the tables.
abbrev Free : Db → Type 0
Free db = Unit

Keeps-Free : {A : Type 0} (m : M A) → Keeps Free Any m
Keeps-Free m = record { at = λ db h. (tt, Post-Any _) }

-- How many events of the pull were counted.
abbrev handled : SyncResult → ℕ
handled res = res.added + res.updated + res.unchanged

abbrev Handles : ℕ → SyncResult → Type 0
Handles n res = handled res ≡ n

module _ (w : World) (pid : ℕ) where
  Counted-stored :
      (inc : IncomingEvent) (p : Progress) (o : Option Event)
      → Keeps Free
          (λ (q : Progress). Handles (suc (handled p.result)) q.result)
          (sync_stored w pid inc p o)
  unfolding sync_new sync_unchanged sync_changed
  Counted-stored inc p none = Keeps-bind _ _ (Keeps-Free _) λ ev _.
      Keeps-bind _ _ (Keeps-Free _)
        λ n _. Keeps-bind _ _ (Keeps-Free _) λ entries _. Keeps-pure _ (omega arith)
  Counted-stored inc p (some ex) =
      Keeps-if _ _ _ (Keeps-bind _ _ (Keeps-Free _) λ entries _. Keeps-pure _ (omega arith)) (
        Keeps-bind _ _ (Keeps-Free _) λ ev _.
          Keeps-bind _ _ (Keeps-Free _)
            λ n _. Keeps-bind _ _ (Keeps-Free _) λ entries _. Keeps-pure _ (omega arith))

  Counted-incoming :
      (base : List Event) (incoming : List IncomingEvent) (p : Progress) (n : ℕ)
      → Handles n p.result
      → Keeps Free
          (λ (q : Progress). Handles (length incoming + n) q.result)
          (sync_incoming w pid base incoming p)
  unfolding sync_incoming
  Counted-incoming base [] p n h = Keeps-pure p (omega (arith, h))
  Counted-incoming base (inc ∷ incoming) p n h = Keeps-bind _ _ (Counted-stored inc p _) λ q k.
      Keeps-post _ (Counted-incoming base incoming q (suc n) (omega (arith, h, k)))
        λ q' k'. omega (arith, k')

  Counted-vanish :
      (entries : List Row) (e : Event) (res : SyncResult)
      → Keeps Free (Handles (handled res)) (vanish w pid entries e res)
  unfolding vanish drop_unless_kept
  Counted-vanish entries e res = Keeps-bind _ _ (Keeps-Free _) λ x _.
      Keeps-if _ _ _ (Keeps-pure res refl) (
        Keeps-bind _ _ (Keeps-Free _) λ c _.
          Keeps-if _ _ _ (Keeps-bind _ _ (Keeps-Free _) λ y _. Keeps-pure _ refl) (
            Keeps-bind _ _ (Keeps-Free _) λ y _.
              Keeps-if _ _ _ (Keeps-pure _ refl)
                (Keeps-bind _ _ (Keeps-Free _) λ _ _. Keeps-pure _ refl)))

  Counted-vanished :
      (incoming : List IncomingEvent) (entries : List Row) (base : List Event) (res : SyncResult)
      (n : ℕ)
      → Handles n res
      → Keeps Free (Handles n) (sync_vanished w pid incoming entries base res)
  unfolding sync_vanished
  Counted-vanished incoming entries [] res n h = Keeps-pure res h
  Counted-vanished incoming entries (e ∷ base) res n h =
      Keeps-bind _ _
        (Keeps-if {Q = Handles n} _ _ _ (Keeps-pure res h)
          (Keeps-post _ (Counted-vanish entries e res) λ q k. omega (arith, h, k)))
        λ next k. Counted-vanished incoming entries base next n k

  Counted-sync :
      (incoming : List IncomingEvent)
      → Keeps Free (Handles (length incoming)) (sync_events w pid incoming)
  unfolding sync_events
  Counted-sync incoming =
      Keeps-transaction Free _ (λ db fs h. h) _
        (Keeps-bind _ _ (Keeps-Free _) λ base _. Keeps-bind _ _ (Keeps-Free _) λ entries _.
          Keeps-bind _ _ (Counted-incoming base incoming _ 0 refl)
            λ p k. Counted-vanished incoming p.entries base p.result _ (omega (arith, k)))

-- A sync that succeeds has counted each event of the pull exactly once, as added, updated or unchanged.
pub sync_events-handled :
    (w : World) (pid : ℕ) (incoming : List IncomingEvent) (db : Db) (res : SyncResult) (after : Db)
    → sync_events w pid incoming db ≡ (ok res, after)
    → res.added + res.updated + res.unchanged ≡ length incoming
sync_events-handled w pid incoming db res after h =
    (runs-Keeps _ db res after (Counted-sync w pid incoming) tt h).1
