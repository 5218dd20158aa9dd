-- ===== src/Spans/Cut.antt =====
-- Cutting an interval out of a list of spans leaves exactly the instants outside of it.
use clockr.Base.{ℕ, ◌≡◌, refl, not, ◌&&◌, List, [], ◌∷◌, arith}
use clockr.Gaps.{span}
use clockr.Gaps.Points.{within, covered, covered-append}
use clockr.Spans.{LocalSpan, cut_span, subtract_interval}

covered-cut_span :
    (sp : LocalSpan) (cs ce t : ℕ)
    → covered (cut_span sp cs ce) t ≡ (within sp t && not (within (span cs ce) t))
unfolding cut_span
covered-cut_span sp cs ce t = ground arith

-- For every list of spans and every cut, also one that ends before it starts.
pub covered-subtract_interval :
    (spans : List LocalSpan) (cs ce t : ℕ)
    → covered (subtract_interval spans cs ce) t ≡ (covered spans t && not (within (span cs ce) t))
unfolding subtract_interval
covered-subtract_interval [] cs ce t = refl
covered-subtract_interval (sp ∷ spans) cs ce t = ground (
  arith,
  covered-append (cut_span sp cs ce) (subtract_interval spans cs ce) t,
  covered-cut_span sp cs ce t,
  covered-subtract_interval spans cs ce t,
)
