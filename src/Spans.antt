-- ===== src/Spans.antt =====
-- internal/service/time_entry_confirm.go: the span arithmetic behind confirming a draft.
pub mod Cut
pub mod Midnights
use mathlib.Core.Option
use clockr.Base.{
  ℕ, zero, suc, Bool, true, false, not, ◌||◌, Option, none, some, List, [], ◌∷◌, ◌++◌, ltb,
  if◌then◌else◌,
}
use clockr.GoTime.{same_date, Location}
use clockr.Gaps.{Interval, span}

-- localSpan
abbrev pub LocalSpan : Type 0
LocalSpan = Interval

-- One round of the loop of `subtractInterval`.
unfoldable pub cut_span : LocalSpan → ℕ → ℕ → List LocalSpan
cut_span sp cut_start cut_end =
    if not (ltb cut_start sp.end) || not (ltb sp.start cut_end)
    then sp ∷ []
    else (if ltb sp.start cut_start then span sp.start cut_start ∷ [] else [])
      ++ (if ltb cut_end sp.end then span cut_end sp.end ∷ [] else [])

unfoldable pub subtract_interval : List LocalSpan → ℕ → ℕ → List LocalSpan
subtract_interval [] cut_start cut_end = []
subtract_interval (sp ∷ spans) cut_start cut_end =
    cut_span sp cut_start cut_end ++ subtract_interval spans cut_start cut_end

unfoldable pub crosses_local_midnight : Location → ℕ → ℕ → Bool
unfolding same_date
crosses_local_midnight loc start end = not (same_date (loc.local_date start) (loc.local_date end))

-- The end of the piece that starts at `cur`.
unfoldable pub segment_end : Location → ℕ → ℕ → ℕ
segment_end loc end cur =
    let next = loc.next_midnight (loc.local_date cur) in if ltb end next then end else next

unfoldable pub add_piece : ℕ → ℕ → List LocalSpan → List LocalSpan
add_piece cur seg_end rest = if ltb cur seg_end then span cur seg_end ∷ rest else rest

-- The loop of `splitAtLocalMidnights` for at most `fuel` rounds; `none` means that it has not ended.
unfoldable pub split_from : ℕ → Location → ℕ → ℕ → Option (List LocalSpan)
split_from zero loc end cur = none
split_from (suc fuel) loc end cur = elim (ltb cur end) [
  | true ↦
      Option.map (add_piece cur (segment_end loc end cur))
        (split_from fuel loc end (segment_end loc end cur))
  | false ↦ some []
]
