-- ===== src/Gaps.antt =====
-- internal/service/gaps.go: the half-open intervals of a day's timeline, clipped to the working
-- windows, united and subtracted. An instant is a number of nanoseconds since an origin that lies
-- before every instant of the program; `Before` and `After` are the orders of these numbers.
pub mod Points
pub mod Separated
pub mod Subtract
pub mod Measure
use clockr.GoTime.{sub_time, add_duration}
use clockr.Base.{
  ℕ, ◌+◌, ◌-◌, ◌^◌, ◌%◌, min, Bool, true, false, ◌||◌, Option, none, some, List, [], ◌∷◌, ◌++◌, ltb,
  leb, if◌then◌else◌, sort_by,
}

-- A span [start, end).
pub record Interval : Type 0 where
  pub start : ℕ
  pub end : ℕ

abbrev pub span : ℕ → ℕ → Interval
span s e = record { start = s; end = e }

-- The part of `iv` inside [lo, hi), unless it is empty.
unfoldable pub clip : Interval → ℕ → ℕ → Option Interval
clip iv lo hi =
    let s = if ltb iv.start lo then lo else iv.start in
    let e = if ltb hi iv.end then hi else iv.end in if ltb s e then some (span s e) else none

-- One round of the loop of `clipAll`.
unfoldable pub append_clip : Option Interval → List Interval → List Interval
append_clip none rest = rest
append_clip (some c) rest = c ∷ rest

unfoldable pub clip_all : List Interval → Interval → List Interval
clip_all [] win = []
clip_all (iv ∷ ivs) win = append_clip (clip iv win.start win.end) (clip_all ivs win)

-- The comparison of `union`'s sort.
unfoldable pub starts_before : Interval → Interval → Bool
starts_before a b = leb a.start b.start

-- `last.End = iv.End` where `iv` ends later.
unfoldable pub extend : Interval → Interval → Interval
extend last iv = if ltb last.end iv.end then record last { end = iv.end } else last

-- The loop of `union`: `last` is the last span of `out`, and what stands before it is final.
unfoldable pub merge_from : Interval → List Interval → List Interval
merge_from last [] = last ∷ []
merge_from last (iv ∷ ivs) = elim (leb iv.start last.end) [
  | true ↦ merge_from (extend last iv) ivs
  | false ↦ last ∷ merge_from iv ivs
]

unfoldable pub merge : List Interval → List Interval
merge [] = []
merge (iv ∷ ivs) = merge_from iv ivs

unfoldable pub union : List Interval → List Interval
union ivs = merge (sort_by starts_before ivs)

-- The guard of the loop of `subtract` that passes over `o`.
unfoldable pub misses : Interval → Interval → Bool
misses win o = ltb o.end win.start || ltb win.end o.start

-- The span from the cursor to `o`, if `o` starts after the cursor.
unfoldable pub gap_before : ℕ → Interval → List Interval
gap_before cursor o = if ltb cursor o.start then span cursor o.start ∷ [] else []

-- The cursor after `o`.
unfoldable pub past : ℕ → Interval → ℕ
past cursor o = if ltb cursor o.end then o.end else cursor

-- The loop of `subtract`, from its cursor on.
unfoldable pub subtract_from : Interval → ℕ → List Interval → List Interval
subtract_from win cursor [] = if ltb cursor win.end then span cursor win.end ∷ [] else []
subtract_from win cursor (o ∷ os) = elim (misses win o) [
  | true ↦ subtract_from win cursor os
  | false ↦ gap_before cursor o ++ subtract_from win (past cursor o) os
]

unfoldable pub subtract : Interval → List Interval → List Interval
subtract win occupied = subtract_from win win.start occupied

-- The sum of `totalHours`, as the Duration before its conversion to a float of hours.
unfoldable pub total_from : ℕ → List Interval → ℕ
total_from d [] = d
total_from d (iv ∷ ivs) = total_from (add_duration d (sub_time iv.end iv.start)) ivs

unfoldable pub total_hours : List Interval → ℕ
unfolding total_from
total_hours ivs = total_from 0 ivs
