-- ===== src/Timeline/Partition.antt =====
-- A date's gaps and its occupied time divide the working windows among them.
use clockr.Base.{
  ℕ, ◌+◌, ◌<◌, ◌≤◌, ◌≡◌, refl, false, not, ◌&&◌, ◌||◌, String, List, [], ◌∷◌, max, ◌++◌, arith, All,
  All-mono, All-append, some, none, Option,
}
use clockr.GoTime.{Date, two63}
use clockr.Gaps.{Interval, clip, append_clip, clip_all, union, subtract, total_hours}
use clockr.Gaps.Points.{
  IsProper, IsSeparated, covered, covered-append, covered-clip_all, covered-union,
}
use clockr.Gaps.Separated.{IsFilled, union-IsSeparated, filled-IsProper}
use clockr.Gaps.Subtract.{
  IsOrdered, IsSeparated-IsOrdered, IsSeparated-IsProper, covered-subtract, subtract-IsOrdered,
  subtract-Inside, append-IsOrdered,
}
use clockr.Gaps.Measure.{count-congr, count-or, total, total-count, total_hours-eq-total}
use clockr.Timeline.{clip_windows, gaps_of, compute_day}

covered-clip_windows :
    (spans wins : List Interval) (t : ℕ)
    → covered (clip_windows spans wins) t ≡ (covered wins t && covered spans t)
unfolding clip_windows
covered-clip_windows spans [] t = refl
covered-clip_windows spans (win ∷ wins) t = ground (
  arith,
  covered-append (clip_all spans win) (clip_windows spans wins) t,
  covered-clip_all spans win t,
  covered-clip_windows spans wins t,
)

covered-gaps_of :
    (wins occupied : List Interval) (t : ℕ)
    → IsSeparated occupied
    → covered (gaps_of wins occupied) t ≡ (covered wins t && not (covered occupied t))
unfolding gaps_of
covered-gaps_of [] occupied t s = refl
covered-gaps_of (win ∷ wins) occupied t s = ground (
  arith,
  covered-append (subtract win occupied) (gaps_of wins occupied) t,
  covered-subtract win occupied t s,
  covered-gaps_of wins occupied t s,
)

clip-IsFilled : (iv : Interval) (lo hi : ℕ) (c : Interval) → clip iv lo hi ≡ some c → IsFilled c
unfolding clip
clip-IsFilled iv lo hi c h = ground arith

append_clip-IsFilled :
    (o : Option Interval) (rest : List Interval)
    → ((c : Interval) → o ≡ some c → IsFilled c)
    → All IsFilled rest
    → All IsFilled (append_clip o rest)
unfolding append_clip
append_clip-IsFilled none rest h k = k
append_clip-IsFilled (some c) rest h k = (h c refl, k)

clip_all-IsFilled : (spans : List Interval) (win : Interval) → All IsFilled (clip_all spans win)
unfolding clip_all
clip_all-IsFilled [] win = tt
clip_all-IsFilled (s ∷ ss) win =
    append_clip-IsFilled (clip s win.start win.end) (clip_all ss win)
      (clip-IsFilled s win.start win.end) (clip_all-IsFilled ss win)

clip_windows-IsFilled : (spans wins : List Interval) → All IsFilled (clip_windows spans wins)
unfolding clip_windows
clip_windows-IsFilled spans [] = tt
clip_windows-IsFilled spans (win ∷ wins) =
    All-append IsFilled (clip_all spans win) (clip_windows spans wins) (clip_all-IsFilled spans win)
      (clip_windows-IsFilled spans wins)

-- The occupied spans of a date.
pub occupied_of : List Interval → List Interval → List Interval → List Interval
occupied_of events fills working = union (clip_windows events working ++ clip_windows fills working)

occupied_of-IsSeparated :
    (events fills working : List Interval) → IsSeparated (occupied_of events fills working)
unfolding occupied_of
occupied_of-IsSeparated events fills working = union-IsSeparated _ (
    filled-IsProper _ (
      All-append IsFilled (clip_windows events working) (clip_windows fills working)
        (clip_windows-IsFilled events working) (clip_windows-IsFilled fills working)))

covered-occupied_of :
    (events fills working : List Interval) (t : ℕ)
    → covered (occupied_of events fills working) t
      ≡ (covered working t && (covered events t || covered fills t))
unfolding occupied_of
covered-occupied_of events fills working t = ground (
  arith,
  covered-union (clip_windows events working ++ clip_windows fills working) t,
  covered-append (clip_windows events working) (clip_windows fills working) t,
  covered-clip_windows events working t,
  covered-clip_windows fills working t,
)

covered_gaps :
    (events fills working : List Interval) (t : ℕ)
    → covered (gaps_of working (occupied_of events fills working)) t
      ≡ (covered working t && not (covered events t || covered fills t))
covered_gaps events fills working t = ground (
  arith,
  covered-gaps_of working (occupied_of events fills working) t
      (occupied_of-IsSeparated events fills working),
  covered-occupied_of events fills working t,
)

-- Whatever the events, the fills and the windows: the date's events, fills and gaps are the working
-- instants that events cover, that fills cover, and that neither covers.
pub compute_day_points :
    (date : Date) (tz : String) (events fills working : List Interval) (t : ℕ)
    → (covered (compute_day date tz events fills working).events t
        ≡ (covered working t && covered events t))
      × (covered (compute_day date tz events fills working).filled t
          ≡ (covered working t && covered fills t))
      × (covered (compute_day date tz events fills working).gaps t
          ≡ (covered working t && not (covered events t || covered fills t)))
unfolding compute_day occupied_of
compute_day_points date tz events fills [] t = (refl, refl, refl)
compute_day_points date tz events fills (win ∷ wins) t = (
  covered-clip_windows events (win ∷ wins) t,
  covered-clip_windows fills (win ∷ wins) t,
  covered_gaps events fills (win ∷ wins) t,
)

gaps_of-after :
    (lo : ℕ) (wins occupied : List Interval)
    → All (λ b. lo ≤ b.start) wins
    → All (λ b. lo ≤ b.start) (gaps_of wins occupied)
unfolding gaps_of
gaps_of-after lo [] occupied h = tt
gaps_of-after lo (win ∷ wins) occupied h =
    All-append (λ b. lo ≤ b.start) (subtract win occupied) (gaps_of wins occupied)
      (All-mono _ _ (λ b r. omega arith) (subtract win occupied) (subtract-Inside win occupied))
      (gaps_of-after lo wins occupied h.1)

gaps_of-IsOrdered :
    (wins occupied : List Interval)
    → IsSeparated wins
    → IsSeparated occupied
    → IsOrdered (gaps_of wins occupied)
unfolding gaps_of
gaps_of-IsOrdered [] occupied s k = tt
gaps_of-IsOrdered (win ∷ wins) occupied s k =
    append-IsOrdered win.end (subtract win occupied) (gaps_of wins occupied)
      (subtract-IsOrdered win occupied (IsSeparated-IsProper occupied k))
      (gaps_of-IsOrdered wins occupied s.2 k)
      (All-mono _ _ (λ b r. omega arith) (subtract win occupied) (subtract-Inside win occupied))
      (gaps_of-after win.end wins occupied (All-mono _ _ (λ b r. omega arith) wins s.1))

-- The latest end.
ceiling : List Interval → ℕ
ceiling [] = 0
ceiling (x ∷ xs) = max x.end (ceiling xs)

below_ceiling : (n : ℕ) (l : List Interval) → ceiling l ≤ n → All (λ b. b.end ≤ n) l
unfolding ceiling
below_ceiling n [] h = tt
below_ceiling n (x ∷ xs) h = (omega arith, below_ceiling n xs (omega arith))

IsOrdered-IsProper : (l : List Interval) → IsOrdered l → All IsProper l
IsOrdered-IsProper [] h = tt
IsOrdered-IsProper (x ∷ xs) h = (h.0, IsOrdered-IsProper xs h.2)

module _ (events fills working : List Interval) (apart : IsSeparated working) where
  abbrev occupied : List Interval
  occupied = occupied_of events fills working

  abbrev gaps : List Interval
  gaps = gaps_of working occupied

  occupied_or_gap :
      (t : ℕ)
      → ((covered occupied t && covered gaps t) ≡ false)
        × ((covered occupied t || covered gaps t) ≡ covered working t)
  occupied_or_gap t =
      ground
        (arith, covered-occupied_of events fills working t, covered_gaps events fills working t)

  totals : total occupied + total gaps ≡ total working
  totals =
      let n = ceiling occupied + ceiling gaps + ceiling working in
      let s = occupied_of-IsSeparated events fills working in
      omega (
        arith,
        total-count n occupied (IsSeparated-IsOrdered _ s) (below_ceiling n _ (omega arith)),
        total-count n gaps (gaps_of-IsOrdered working occupied apart s)
            (below_ceiling n _ (omega arith)),
        total-count n working (IsSeparated-IsOrdered _ apart) (below_ceiling n _ (omega arith)),
        count-or n (covered occupied) (covered gaps) (λ t. (occupied_or_gap t).0),
        count-congr n (λ t. covered occupied t || covered gaps t) (covered working)
            (λ t. (occupied_or_gap t).1),
      )

  hours_add_up : total working < two63 → total_hours occupied + total_hours gaps ≡ total working
  hours_add_up h =
      let s = occupied_of-IsSeparated events fills working in
      omega (
        arith,
        totals,
        total_hours-eq-total occupied (IsSeparated-IsProper _ s) (omega (arith, totals)),
        total_hours-eq-total gaps
            (IsOrdered-IsProper _ (gaps_of-IsOrdered working occupied apart s))
            (omega (arith, totals)),
      )

-- Covered and gap hours add up to the working time of the date, if the windows are apart and
-- their length fits an int64 of nanoseconds.
pub compute_day_hours :
    (date : Date) (tz : String) (events fills working : List Interval)
    → IsSeparated working
    → total working < two63
    → (compute_day date tz events fills working).covered_hours
        + (compute_day date tz events fills working).gap_hours
      ≡ total working
unfolding compute_day occupied_of total
compute_day_hours date tz events fills [] s h = refl
compute_day_hours date tz events fills (win ∷ wins) s h = hours_add_up events fills (win ∷ wins) s h
