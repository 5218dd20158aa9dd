-- ===== src/Drafts/Stored.antt =====
-- The rows that replace a draft, field by field: what is stored for each piece of its span.
use clockr.Base.{
  ℕ, ◌-◌, ◌/◌, ◌%◌, ◌≤◌, ◌≡◌, refl, ap, some, List, [], ◌∷◌, ◌++◌, map, ok, arith, min,
}
use clockr.GoTime.{
  Stamp, Location, at, parse_stamp, format_stamp, second, minute, two63, sub_time, minutes_of,
}
use clockr.Spans.{LocalSpan}
use clockr.Spans.Midnights.{IsChain}
use clockr.Ledger.{Attestation, Params, Row}
use clockr.Entries.{duration_minutes}
use clockr.Drafts.{piece_params, check_cuts, segments}
use clockr.Drafts.Pieces.{accept}

abbrev pub whole_seconds : ℕ → ℕ
whole_seconds t = t - t % second

-- What is stored for a piece of the span of `row`: its bounds in whole seconds, its length in minutes, the
-- local date of its start, the attestation, and the other columns of the row.
pub record IsPiece (row : Row) (loc : Location) (a : Attestation) (p : LocalSpan) (x : Params)
    : Type 0 where
  pub starts : x.start_instant ≡ at (whole_seconds p.start)
  pub ends : x.end_instant ≡ at (whole_seconds p.end)
  pub minutes : x.duration_minutes ≡ min (p.end - p.start) (two63 - 1) / minute
  pub day : x.local_work_date ≡ loc.local_date p.start
  pub attested : x.attestation ≡ a
  pub rest :
      record x {
        start_instant = row.start_instant;
        end_instant = row.end_instant;
        duration_minutes = row.duration_minutes;
        local_work_date = row.local_work_date;
        attestation = row.attestation;
      }
      ≡ row.fields

-- One row for each piece.
abbrev pub Each : Row → Location → Attestation → List LocalSpan → List Params → Type 0
Each row loc a [] [] = Unit
Each row loc a [] (x ∷ xs) = ⊥
Each row loc a (p ∷ ps) [] = ⊥
Each row loc a (p ∷ ps) (x ∷ xs) = IsPiece row loc a p x × Each row loc a ps xs

duration_minutes-eq :
    (start end : ℕ)
    → start ≤ end
    → duration_minutes start end ≡ min (end - start) (two63 - 1) / minute
unfolding duration_minutes minutes_of sub_time
duration_minutes-eq start end h = ground arith

piece_params-IsPiece :
    (row : Row) (loc : Location) (a : Attestation) (p : LocalSpan)
    → p.start ≤ p.end
    → IsPiece row loc a p (piece_params row loc a p)
unfolding piece_params format_stamp
piece_params-IsPiece row loc a p h = record {
  starts = refl;
  ends = refl;
  minutes = duration_minutes-eq p.start p.end h;
  day = refl;
  attested = refl;
  rest = refl;
}

pub map-Each :
    (row : Row) (loc : Location) (a : Attestation) (cur end : ℕ) (ps : List LocalSpan)
    → IsChain cur end ps
    → Each row loc a ps (map (piece_params row loc a) ps)
map-Each row loc a cur end [] h = tt
map-Each row loc a cur end (p ∷ ps) (s, lt, le, rest) =
    (piece_params-IsPiece row loc a p (omega (arith, s, lt)), map-Each row loc a p.end end ps rest)

-- The cut points that are accepted are the instants of their texts.
pub check_cuts-read :
    (end prev : ℕ) (raws : List Stamp) (cuts : List ℕ)
    → check_cuts end prev raws ≡ ok cuts
    → map parse_stamp raws ≡ map some cuts
unfolding check_cuts
check_cuts-read end prev [] cuts h = let e : cuts ≡ [] = ground arith in rw (e) refl
check_cuts-read end prev (raw ∷ raws) cuts h =
    let a = accept end prev raw raws cuts h in
    rw (a.all, a.read) (ap (◌∷◌ (some a.cut)) (check_cuts-read end a.cut raws a.more a.rest))

-- The segments end at the cut points and at the last bound.
pub map-segments :
    (start : ℕ) (cuts : List ℕ) (end : ℕ)
    → map (λ (p : LocalSpan). p.end) (segments start cuts end) ≡ cuts ++ end ∷ []
unfolding segments
map-segments start [] end = refl
map-segments start (cut ∷ cuts) end = ap (◌∷◌ cut) (map-segments cut cuts end)
