-- ===== src/Drafts/Split.antt =====
-- What splitting a draft does when it succeeds.
use clockr.Base.{
  sort_by, keep, ◌==◌, ℕ, ◌≡◌, refl, sym, ◌∙◌, ap, true, Option, none, some, List, [], ◌∷◌, ◌++◌,
  map, String, Result, ok, Error, arith, ltb, leb, ◌&&◌, ◌-◌, find, failed_precondition,
}
use clockr.GoTime.{Stamp, Location, parse_stamp}
use clockr.Gaps.Points.{covered}
use clockr.Gaps.Measure.{total}
use clockr.Spans.Midnights.{IsChain, covered-IsChain, total-IsChain}
use clockr.Ledger.{Db, M, draft, dismissed, is_draft, Row, is_row, update_where, set_attestation}
use clockr.Ledger.Returns.{Runs, bind-runs, guard-runs, lift-runs, pure-runs, get-runs}
use clockr.Ledger.Atomic.{SameTables, SameTables-trans, OnlyReads}
use clockr.Entries.{TimeEntry, to_time_entry}
use clockr.Drafts.{
  replace, create_pieces, RowSpan, parsed, piece_params, load_draft, time_entry_local_span,
  check_cuts, segments, split_time_entry,
}
use clockr.Spans.{LocalSpan}
use clockr.Entries.{zone_on}
use clockr.Ledger.{statement, segment_le, list_tz_segments, TzSegment, Params}
use clockr.Drafts.Stored.{Each, map-Each, check_cuts-read, map-segments}
use clockr.Drafts.Pieces.{numbered, accept, replace-runs, segments-IsChain}
use clockr.Drafts.Atomic.{OnlyReads-load_draft, OnlyReads-time_entry_local_span}

pub reads-runs :
    {A : Type 0} (m : M A) (before : Db) (a : A) (after : Db)
    → OnlyReads m
    → Runs m before a after
    → SameTables before after
reads-runs m before a after r h =
    let q = ap (λ (x : Result _ × Db). x.1) h in let t = r.at before in rw (sym q) t

-- The draft that was loaded is the row with the key.
load_draft-runs :
    (id pid : ℕ) (before : Db) (row : Row) (after : Db)
    → Runs (load_draft id pid) before row after
    → (find (is_row id pid) before.entries ≡ some row) × (is_draft row.attestation ≡ true)
unfolding load_draft
load_draft-runs id pid before row after h =
    let b1 = bind-runs _ _ before row after h in
    let b2 = bind-runs _ _ b1.middle row after b1.second in
    let p = pure-runs b1.result b2.middle row after b2.second in
    let g =
      guard-runs (is_draft b1.result.attestation) failed_precondition _ b2.result b2.middle
        b2.first in
    let f = get-runs id pid before b1.result b1.middle b1.first in
    (f.0 ∙ ap some (sym p.0), ap (λ (r : Row). is_draft r.attestation) p.0 ∙ g.0)

parsed-ok : (s : Stamp) (e : Error) (t : ℕ) → parsed s e ≡ ok t → parse_stamp s ≡ some t
parsed-ok s e t h = go (parse_stamp s) refl
  where
    go : (p : Option ℕ) → parse_stamp s ≡ p → parse_stamp s ≡ some t
    go none q = absurd (ground arith)
    go (some u) q = ground arith

-- The zones of the period, by the dates from which they hold.
abbrev pub segments_of : ℕ → Db → List TzSegment
segments_of pid db = sort_by segment_le (keep (λ s. s.period_id == pid) db.tz_segments)

tz-runs :
    (pid : ℕ) (before : Db) (segs : List TzSegment) (after : Db)
    → Runs (list_tz_segments pid) before segs after
    → segs ≡ segments_of pid before
unfolding list_tz_segments statement
tz-runs pid before segs after h = ground arith

module _ (zones : String → Option Location) where
  -- The bounds that were read off the row are those of its texts.
  local_span-runs :
      (row : Row) (before : Db) (s : RowSpan) (after : Db)
      → Runs (time_entry_local_span zones row) before s after
      → (parse_stamp row.start_instant ≡ some s.start)
        × (parse_stamp row.end_instant ≡ some s.end)
        × (zone_on zones (segments_of row.period_id before) row.local_work_date ≡ ok s.loc)
  unfolding time_entry_local_span
  local_span-runs row before s after h =
      let b1 = bind-runs _ _ before s after h in
      let b2 = bind-runs _ _ b1.middle s after b1.second in
      let b3 = bind-runs _ _ b2.middle s after b2.second in
      let b4 = bind-runs _ _ b3.middle s after b3.second in
      let p = pure-runs _ b4.middle s after b4.second in
      let l1 = lift-runs _ before b1.result b1.middle b1.first in
      let l2 = lift-runs _ b1.middle b2.result b2.middle b2.first in
      let l4 = lift-runs _ b3.middle b4.result b4.middle b4.first in
      let here : b2.middle ≡ before = l2.1 ∙ l1.1 in
      let listed =
        tz-runs row.period_id b2.middle b3.result b3.middle b3.first
        ∙ ap (segments_of row.period_id) here in
      let z = ap (λ segs. zone_on zones segs row.local_work_date) (sym listed) in
      (
        parsed-ok _ _ _ l1.0 ∙ ap (λ (x : RowSpan). some x.start) (sym p.0),
        parsed-ok _ _ _ l2.0 ∙ ap (λ (x : RowSpan). some x.end) (sym p.0),
        z ∙ l4.0 ∙ ap (λ (x : RowSpan). ok x.loc) (sym p.0),
      )

  -- What a split that has succeeded did: it read the draft with the key and the zone of its date, cut its
  -- span at the cut points into pieces that are filled and follow one another from its start to its end,
  -- appended a draft row for each piece and dismissed the draft.
  pub record Outcome (id pid : ℕ) (cut_points : List Stamp) (before : Db) (out : List TimeEntry)
      (after : Db) : Type 0 where
    pub row : Row
    pub s : RowSpan
    pub cuts : List ℕ
    pub pieces : List LocalSpan
    pub stored : List Params
    pub found : find (is_row id pid) before.entries ≡ some row
    pub was_draft : is_draft row.attestation ≡ true
    pub starts : parse_stamp row.start_instant ≡ some s.start
    pub ends : parse_stamp row.end_instant ≡ some s.end
    pub zone : zone_on zones (segments_of row.period_id before) row.local_work_date ≡ ok s.loc
    pub read : map parse_stamp cut_points ≡ map some cuts
    pub cut : map (λ (p : LocalSpan). p.end) pieces ≡ cuts ++ s.end ∷ []
    pub chain : IsChain s.start s.end pieces
    pub covers : (t : ℕ) → covered pieces t ≡ (leb s.start t && ltb t s.end)
    pub lengths : total pieces ≡ s.end - s.start
    pub each : Each row s.loc draft pieces stored
    pub rows :
        after.entries
        ≡ update_where
            (is_row row.id row.period_id)
            (set_attestation dismissed)
            (before.entries ++ numbered before.next_id stored)
    pub replies : out ≡ map to_time_entry (numbered before.next_id stored)

  -- From accepted cut points on.
  replaced :
      (id pid : ℕ) (raw : Stamp) (raws : List Stamp) (before : Db) (out : List TimeEntry)
      (after : Db) (m1 m2 : Db) (row : Row) (s : RowSpan) (cuts : List ℕ)
      → SameTables before m1
      → SameTables m1 m2
      → Runs (load_draft id pid) before row m1
      → Runs (time_entry_local_span zones row) m1 s m2
      → check_cuts s.end s.start (raw ∷ raws) ≡ ok cuts
      → Runs
          (replace row (create_pieces row s.loc draft (segments s.start cuts s.end)))
          m2
          out
          after
      → Outcome id pid (raw ∷ raws) before out after
  replaced id pid raw raws before out after m1 m2 row s cuts t1 t2 h1 h2 e h =
      let d = load_draft-runs id pid before row m1 h1 in
      let l = local_span-runs row m1 s m2 h2 in
      let a = accept s.end s.start raw raws cuts e in
      let t = SameTables-trans t1 t2 in
      let p = replace-runs row s.loc draft (segments s.start cuts s.end) m2 out after h in
      let c =
        segments-IsChain s.end s.start (raw ∷ raws) cuts e (omega (arith, a.after, a.before)) in
      record {
        row = row;
        s = s;
        cuts = cuts;
        pieces = segments s.start cuts s.end;
        stored = map (piece_params row s.loc draft) (segments s.start cuts s.end);
        found = d.0;
        was_draft = d.1;
        starts = l.0;
        ends = l.1;
        zone =
            ap
              (λ segs.
                zone_on zones (sort_by segment_le (keep (λ s. s.period_id == row.period_id) segs))
                  row.local_work_date)
              (sym t1.tz_segments)
            ∙ l.2;
        read = check_cuts-read s.end s.start (raw ∷ raws) cuts e;
        cut = map-segments s.start cuts s.end;
        each = map-Each row s.loc draft s.start s.end (segments s.start cuts s.end) c;
        chain = c;
        covers = λ u. covered-IsChain s.start s.end (segments s.start cuts s.end) u c;
        lengths =
            total-IsChain s.start s.end (segments s.start cuts s.end)
              (omega (arith, a.after, a.before)) c;
        rows = cc (p.0, t.entries, t.next_id);
        replies = cc (p.1, t.next_id);
      }

  -- A split that succeeds has read the draft with the key, and dismisses it; behind the other rows it
  -- appends a draft row for each piece, and replies with these. The pieces end at the cut points and at
  -- the draft's end, are filled, follow one another and cover the draft's span; their lengths add up to
  -- its length. The row of a piece has the bounds of the piece in whole seconds, its length in minutes,
  -- the date of its start in the zone of the draft's date, and for the rest the columns of the draft.
  pub split_time_entry-Outcome :
      (id pid : ℕ) (cut_points : List Stamp) (before : Db) (out : List TimeEntry) (after : Db)
      → Runs (split_time_entry zones id pid cut_points) before out after
      → Outcome id pid cut_points before out after
  unfolding split_time_entry
  split_time_entry-Outcome id pid [] before out after h =
      let b1 = bind-runs _ _ before out after h in
      let b2 = bind-runs _ _ b1.middle out after b1.second in
      let b3 = bind-runs _ _ b2.middle out after b2.second in
      let g = guard-runs _ _ _ b3.result b3.middle b3.first in absurd (ground (arith, g.0))
  split_time_entry-Outcome id pid (raw ∷ raws) before out after h =
      let b1 = bind-runs _ _ before out after h in
      let b2 = bind-runs _ _ b1.middle out after b1.second in
      let b3 = bind-runs _ _ b2.middle out after b2.second in
      let b4 = bind-runs _ _ b3.middle out after b3.second in
      let b5 = bind-runs _ _ b4.middle out after b4.second in
      let b6 = bind-runs _ _ b5.middle out after b5.second in
      let g1 = guard-runs _ _ _ b1.result b1.middle b1.first in
      let g2 = guard-runs _ _ _ b2.result b2.middle b2.first in
      let g3 = guard-runs _ _ _ b3.result b3.middle b3.first in
      let same = g3.1 ∙ g2.1 ∙ g1.1 in
      let l = lift-runs _ _ b6.result b6.middle b6.first in
      let load : Runs (load_draft id pid) before b4.result b4.middle = rw (sym same) b4.first in
      let done = b6.second in
      let kept : Runs
          (replace b4.result (
            create_pieces b4.result b5.result.loc draft
              (segments b5.result.start b6.result b5.result.end)))
          b5.middle out after =
        rw (sym l.1) done in
      replaced id pid raw raws before out after b4.middle b5.middle b4.result b5.result b6.result
        (reads-runs _ before b4.result b4.middle (OnlyReads-load_draft id pid) load)
        (reads-runs _ b4.middle b5.result b5.middle
          (OnlyReads-time_entry_local_span zones b4.result) b5.first)
        load b5.first l.0 kept
