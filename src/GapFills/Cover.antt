-- ===== src/GapFills/Cover.antt =====
-- The parts that `splitAround` returns.
use clockr.Base.{
  ℕ, ◌≡◌, ◌≤◌, ◌<◌, leb, ◌&&◌, Bool, false, not, ◌||◌, Option, none, some, List, [], ◌∷◌, ◌++◌,
  arith, ltb,
}
use clockr.Gaps.{Interval}
use clockr.Spans.{cut_span, subtract_interval}
use clockr.GapFills.{split_around}

abbrev pub one : Option Interval → List Interval
one none = []
one (some iv) = iv ∷ []

-- For a span and an event that are not empty, what `splitAround` keeps of the span is what
-- `subtractInterval`, which confirms drafts, keeps of it.
pub split_around-subtract_interval :
    (gap event : Interval)
    → gap.start < gap.end
    → event.start < event.end
    → one (split_around gap event).before ++ one (split_around gap event).after
      ≡ subtract_interval (gap ∷ []) event.start event.end
unfolding split_around subtract_interval cut_span
split_around-subtract_interval gap event h k = ground arith

abbrev pub inside : ℕ → Option Interval → Bool
inside t none = false
inside t (some iv) = leb iv.start t && ltb t iv.end

-- An instant lies in the overlap if it lies in the span and in the event, in one of the two other
-- parts if it lies in the span and outside the event, and in no two parts, if the event does not end
-- before it starts.
pub split_around-inside :
    (gap event : Interval) (t : ℕ)
    → event.start ≤ event.end
    → (inside t (split_around gap event).overlap ≡ (inside t (some gap) && inside t (some event)))
      × ((inside t (split_around gap event).before || inside t (split_around gap event).after)
          ≡ (inside t (some gap) && not (inside t (some event))))
      × ((inside t (split_around gap event).before && inside t (split_around gap event).after)
          ≡ false)
unfolding split_around
split_around-inside gap event t h = (ground arith, ground arith, ground arith)
