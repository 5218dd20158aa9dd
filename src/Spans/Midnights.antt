-- ===== src/Spans/Midnights.antt =====
-- The pieces of `splitAtLocalMidnights`: where the zone has a midnight ahead of every instant the loop
-- ends, and the pieces are the span, cut at these midnights. In a zone whose clocks skip midnight
-- time.Date may name an instant of the day before, and then the loop does not end.
use Prim.Native.Nat.{zero, suc}
use clockr.Base.{
  min, ℕ, ◌-◌, ◌<◌, ◌≤◌, ◌≡◌, refl, ap, ◌&&◌, none, some, List, [], ◌∷◌, arith, ltb, leb, lt→ltb,
  All, Bool-cases, inl, inr,
}
use clockr.GoTime.{Location}
use clockr.Gaps.{span}
use clockr.Gaps.Points.{covered}
use clockr.Gaps.Measure.{total}
use clockr.Spans.{LocalSpan, segment_end, add_piece, split_from}

-- The next local midnight lies ahead of every instant.
pub record IsRegular (loc : Location) : Type 0 where
  pub ahead : (t : ℕ) → t < loc.next_midnight (loc.local_date t)

-- Pieces that follow one another from `cur` to `end`, none of them empty.
abbrev pub IsChain : ℕ → ℕ → List LocalSpan → Type 0
IsChain cur end [] = end ≤ cur
IsChain cur end (p ∷ ps) = (p.start ≡ cur) × (cur < p.end) × (p.end ≤ end) × IsChain p.end end ps

-- The piece ends at the next midnight after the date that it starts on, or at `end` if that comes first.
abbrev pub IsCut : Location → ℕ → LocalSpan → Type 0
IsCut loc end p = p.end ≡ min end (loc.next_midnight (loc.local_date p.start))

pub record IsSplit (loc : Location) (start end : ℕ) (pieces : List LocalSpan) : Type 0 where
  pub chain : IsChain start end pieces
  pub cuts : All (IsCut loc end) pieces

segment_end_bounds :
    (loc : Location) (end cur : ℕ)
    → cur < loc.next_midnight (loc.local_date cur)
    → cur < end
    → (cur < segment_end loc end cur)
      × (segment_end loc end cur ≤ end)
      × (segment_end loc end cur ≤ loc.next_midnight (loc.local_date cur))
unfolding segment_end
segment_end_bounds loc end cur h k = ground arith

segment_end-eq-min :
    (loc : Location) (end cur : ℕ)
    → segment_end loc end cur ≡ min end (loc.next_midnight (loc.local_date cur))
unfolding segment_end
segment_end-eq-min loc end cur = ground arith

add_piece_lt : (a b : ℕ) (ps : List LocalSpan) → a < b → add_piece a b ps ≡ span a b ∷ ps
unfolding add_piece
add_piece_lt a b ps h = ground arith

-- Where every instant has the next midnight of its date ahead of it the loop over the local midnights
-- ends, within one round for each nanosecond of the span. Its pieces are filled, follow one another from
-- the start to the end, and each ends at the next midnight of the date at its start, or at the end of the
-- span if that comes first.
pub split_from-IsSplit :
    (loc : Location) (fuel end cur : ℕ)
    → IsRegular loc
    → end - cur < fuel
    → (pieces : List LocalSpan) × (split_from fuel loc end cur ≡ some pieces)
      × IsSplit loc cur end pieces
unfolding split_from
split_from-IsSplit loc zero end cur r h = absurd (omega arith)
split_from-IsSplit loc (suc fuel) end cur r h = elim (Bool-cases (ltb cur end)) [
  | inl lt ↦
      let k : cur < end = ground arith in
      let b = segment_end_bounds loc end cur (r.ahead cur) k in
      let (ps, e, s) = split_from-IsSplit loc fuel end (segment_end loc end cur) r (omega arith) in
      (
        span cur (segment_end loc end cur) ∷ ps,
        rw (lt, split_from, e) (ap some (add_piece_lt _ _ ps b.0)),
        record {
          chain = (refl, b.0, b.1, s.chain);
          cuts = (segment_end-eq-min loc end cur, s.cuts);
        },
      )
  | inr ge ↦ ([], rw (ge, split_from) refl, record { chain = ground arith; cuts = tt })
]

segment_end_stuck :
    (loc : Location) (end cur : ℕ)
    → cur < end
    → loc.next_midnight (loc.local_date cur) ≡ cur
    → segment_end loc end cur ≡ cur
unfolding segment_end
segment_end_stuck loc end cur h e = ground arith

split_from_stuck :
    (loc : Location) (fuel end cur : ℕ)
    → cur < end
    → loc.next_midnight (loc.local_date cur) ≡ cur
    → split_from fuel loc end cur ≡ none
unfolding split_from
split_from_stuck loc zero end cur h e = refl
split_from_stuck loc (suc fuel) end cur h e = rw (
  lt→ltb cur end h,
  split_from,
  segment_end_stuck loc end cur h e,
  split_from_stuck loc fuel end cur h e,
)

segment_end_first :
    (loc : Location) (end start midnight : ℕ)
    → loc.next_midnight (loc.local_date start) ≡ midnight
    → midnight < end
    → segment_end loc end start ≡ midnight
unfolding segment_end
segment_end_first loc end start m e l = ground arith

-- If the midnight after the start lies inside the span and is its own next midnight, the loop over the
-- local midnights has not ended after any number of rounds.
pub split_from-eq-none :
    (loc : Location) (fuel end start midnight : ℕ)
    → loc.next_midnight (loc.local_date start) ≡ midnight
    → loc.next_midnight (loc.local_date midnight) ≡ midnight
    → start < end
    → midnight < end
    → split_from fuel loc end start ≡ none
unfolding split_from segment_end
split_from-eq-none loc zero end start m e k h l = refl
split_from-eq-none loc (suc fuel) end start m e k h l =
    ground (arith, segment_end_first loc end start m e l, split_from_stuck loc fuel end m l k)

-- The pieces cover the span.
pub covered-IsChain :
    (cur end : ℕ) (pieces : List LocalSpan) (t : ℕ)
    → IsChain cur end pieces
    → covered pieces t ≡ (leb cur t && ltb t end)
covered-IsChain cur end [] t h = ground arith
covered-IsChain cur end (p ∷ ps) t h = ground (arith, covered-IsChain p.end end ps t h.3)

-- The lengths of the pieces add up to the length of the span.
pub total-IsChain :
    (cur end : ℕ) (pieces : List LocalSpan)
    → cur ≤ end
    → IsChain cur end pieces
    → total pieces ≡ end - cur
unfolding total
total-IsChain cur end [] h c = omega arith
total-IsChain cur end (p ∷ ps) h c = ground (arith, total-IsChain p.end end ps c.2 c.3)
