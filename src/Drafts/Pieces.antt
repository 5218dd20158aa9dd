-- ===== src/Drafts/Pieces.antt =====
-- What replaces a draft: the rows that the loop over the pieces writes, and the segments between
-- the cut points.
use mathlib.Core.List.{append-nil}
use clockr.Base.{
  ℕ, suc, ◌<◌, ◌≡◌, refl, ◌∙◌, ap, not, ◌||◌, Option, none, some, List, [], ◌∷◌, ◌++◌, map, Result,
  ok, err, arith, ltb, Bool-cases, inl, inr,
}
use clockr.GoTime.{Stamp, Location, parse_stamp}
use clockr.Spans.{LocalSpan}
use clockr.Spans.Midnights.{IsChain}
use clockr.Ledger.{Db, Attestation, dismissed, Params, Row, is_row, update_where, set_attestation}
use clockr.Ledger.Returns.{Runs, bind-runs, pure-runs, create-runs, update-runs, transaction-runs}
use clockr.Entries.{TimeEntry, to_time_entry}
use clockr.Drafts.{piece_params, create_pieces, replace, check_cuts, cons_result, segments}

-- Rows with ids that follow one another.
abbrev pub numbered : ℕ → List Params → List Row
numbered n [] = []
numbered n (p ∷ ps) = record { id = n; fields = p } ∷ numbered (suc n) ps

append_one : (xs ys : List Row) (y : Row) → (xs ++ y ∷ []) ++ ys ≡ xs ++ y ∷ ys
append_one [] ys y = refl
append_one (x ∷ xs) ys y = ap (◌∷◌ x) (append_one xs ys y)

-- The loop over the pieces, when it succeeds, appends one row for each.
pub create_pieces-runs :
    (row : Row) (loc : Location) (a : Attestation) (pieces : List LocalSpan) (before : Db)
    (out : List TimeEntry) (after : Db)
    → Runs (create_pieces row loc a pieces) before out after
    → (after.entries
        ≡ before.entries ++ numbered before.next_id (map (piece_params row loc a) pieces))
      × (out ≡ map to_time_entry (numbered before.next_id (map (piece_params row loc a) pieces)))
unfolding create_pieces
create_pieces-runs row loc a [] before out after h =
    let (e, s) = pure-runs [] before out after h in
    (ground (arith, s, append-nil before.entries), e)
create_pieces-runs row loc a (p ∷ ps) before out after h =
    let b1 = bind-runs _ _ before out after h in
    let c = create-runs (piece_params row loc a p) before b1.result b1.middle b1.first in
    let b2 = bind-runs _ _ b1.middle out after b1.second in
    let (e, s) = pure-runs (to_time_entry b1.result ∷ b2.result) b2.middle out after b2.second in
    let ih = create_pieces-runs row loc a ps b1.middle b2.result b2.middle b2.first in
    let rest = map (piece_params row loc a) ps in
    (
      cc (
        ap (λ (db : Db). db.entries) s,
        ih.0,
        c.0,
        c.1,
        c.2,
        append_one before.entries (numbered (suc before.next_id) rest)
            (record { id = before.next_id; fields = piece_params row loc a p }),
      ),
      cc (e, ih.1, c.0, c.2),
    )

-- Replacing a draft, when it succeeds, appends the rows of the pieces and dismisses the draft.
pub replace-runs :
    (row : Row) (loc : Location) (a : Attestation) (pieces : List LocalSpan) (before : Db)
    (out : List TimeEntry) (after : Db)
    → Runs (replace row (create_pieces row loc a pieces)) before out after
    → (after.entries
        ≡ update_where
            (is_row row.id row.period_id)
            (set_attestation dismissed)
            (before.entries ++ numbered before.next_id (map (piece_params row loc a) pieces)))
      × (out ≡ map to_time_entry (numbered before.next_id (map (piece_params row loc a) pieces)))
unfolding replace
replace-runs row loc a pieces before out after h =
    let (last, t, c) = transaction-runs _ before out after h in
    let b1 = bind-runs _ _ _ out last t in
    let b2 = bind-runs _ _ b1.middle out last b1.second in
    let u = update-runs dismissed row.id row.period_id b1.middle b2.result b2.middle b2.first in
    let (e, s) = pure-runs b1.result b2.middle out last b2.second in
    let p = create_pieces-runs row loc a pieces _ b1.result b1.middle b1.first in
    (
      cc (
        ap (λ (db : Db). db.entries) c,
        ap (λ (db : Db). db.entries) s,
        u,
        ap (update_where (is_row row.id row.period_id) (set_attestation dismissed)) p.0,
      ),
      e ∙ p.1,
    )

-- Cut points that are accepted ascend strictly inside the span.
cons_result-ok :
    (cut : ℕ) (rest : Result (List ℕ)) (cuts : List ℕ)
    → cons_result cut rest ≡ ok cuts
    → (more : List ℕ) × (rest ≡ ok more) × (cuts ≡ cut ∷ more)
cons_result-ok cut (ok more) cuts h = (more, refl, ground arith)
cons_result-ok cut (err e) cuts h = absurd (ground arith)

-- One cut point that was accepted.
pub record Accepted (end prev : ℕ) (raw : Stamp) (raws : List Stamp) (cuts : List ℕ) : Type 0 where
  pub cut : ℕ
  pub read : parse_stamp raw ≡ some cut
  pub more : List ℕ
  pub after : prev < cut
  pub before : cut < end
  pub rest : check_cuts end cut raws ≡ ok more
  pub all : cuts ≡ cut ∷ more

pub accept :
    (end prev : ℕ) (raw : Stamp) (raws : List Stamp) (cuts : List ℕ)
    → check_cuts end prev (raw ∷ raws) ≡ ok cuts
    → Accepted end prev raw raws cuts
unfolding check_cuts
accept end prev raw raws cuts h = go (parse_stamp raw) refl
  where
    go : (p : Option ℕ) → parse_stamp raw ≡ p → Accepted end prev raw raws cuts
    go none e = absurd (ground arith)
    go (some cut) e = elim (Bool-cases (not (ltb prev cut) || not (ltb cut end))) [
      | inl t ↦ absurd (ground arith)
      | inr f ↦
          let k : cons_result cut (check_cuts end cut raws) ≡ ok cuts = ground arith in
          let (more, r, c) = cons_result-ok cut (check_cuts end cut raws) cuts k in
          record {
            cut = cut;
            read = e;
            more = more;
            after = ground arith;
            before = ground arith;
            rest = r;
            all = c;
          }
    ]

-- The segments between the cut points that are accepted are filled, follow one another, and run
-- from the first bound to the last.
pub segments-IsChain :
    (end prev : ℕ) (raws : List Stamp) (cuts : List ℕ)
    → check_cuts end prev raws ≡ ok cuts
    → prev < end
    → IsChain prev end (segments prev cuts end)
unfolding check_cuts segments
segments-IsChain end prev [] cuts h lt =
    let e : cuts ≡ [] = ground arith in rw (e, segments) (refl, lt, omega arith, omega arith)
segments-IsChain end prev (raw ∷ raws) cuts h lt =
    let a = accept end prev raw raws cuts h in
    rw (a.all, segments)
      (
        refl,
        a.after,
        omega (arith, a.before),
        segments-IsChain end a.cut raws a.more a.rest a.before,
      )
