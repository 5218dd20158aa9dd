-- ===== src/Zones.antt =====
-- internal/service/gaps.go: which timezone segment of a period governs a date, and its zone.
use clockr.Base.{Option, none, some, List, [], ◌∷◌, String, Result, ok, err, failure, if◌then◌else◌}
use clockr.GoTime.{Date, date_le, Location}
use clockr.Ledger.{TzSegment}

-- The loop of `activeSegment`, with its break.
unfoldable pub active_from : Date → TzSegment → List TzSegment → TzSegment
unfolding date_le
active_from date active [] = active
active_from date active (seg ∷ segs) =
    let next = active_from date seg segs in
    if date_le seg.effective_from_date date then next else active

-- `activeSegment` on the segments `seg ∷ segs`; its callers have refused an empty list.
unfoldable pub active_segment : TzSegment → List TzSegment → Date → TzSegment
unfolding active_from
active_segment seg segs date = active_from date seg (seg ∷ segs)

-- time.LoadLocation; the cache of `loadLoc` holds what it answered before.
unfoldable pub load_loc : (String → Option Location) → String → Result Location
load_loc zones iana = elim (zones iana) [ none ↦ err failure | some loc ↦ ok loc ]
