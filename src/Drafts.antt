-- ===== src/Drafts.antt =====
-- internal/service/time_entry_confirm.go: a draft entry, what replaces it, and the handlers that
-- reject, adjust and split it.
pub mod Untouched
pub mod Atomic
pub mod Pieces
pub mod Stored
pub mod Split
pub mod Created
use clockr.Base.{
  ℕ, Bool, true, false, not, ◌||◌, Option, none, some, List, [], ◌∷◌, String, Error, invalid_input,
  failed_precondition, Result, ok, err, ltb, if◌then◌else◌,
}
use clockr.GoTime.{Stamp, Location, parse_stamp, format_stamp}
use clockr.Gaps.{span}
use clockr.Spans.{LocalSpan}
use clockr.Ledger.{
  M, ◌>>=◌, ◌>>◌, pure, fail, guard, lift, Attestation, draft, dismissed, is_draft, Params, Row,
  transaction, get_time_entry, create_time_entry, update_attestation, list_tz_segments,
}
use clockr.Entries.{
  TimeEntry, to_time_entry, TimeEntryInput, duration_minutes, zone_on, update_entry,
}

-- What `timeEntryLocalSpan` returns.
pub record RowSpan : Type 0 where
  pub start : ℕ
  pub end : ℕ
  pub loc : Location

abbrev pub parsed : Stamp → Error → Result ℕ
parsed s e = elim (parse_stamp s) [ none ↦ err e | some t ↦ ok t ]

-- The entry that replaces a piece of `row`.
unfoldable pub piece_params : Row → Location → Attestation → LocalSpan → Params
unfolding duration_minutes format_stamp
piece_params row loc attestation piece = record (row.fields) {
  start_instant = format_stamp piece.start;
  end_instant = format_stamp piece.end;
  duration_minutes = duration_minutes piece.start piece.end;
  local_work_date = loc.local_date piece.start;
  attestation = attestation;
}

-- The loop over CreateTimeEntry.
unfoldable pub create_pieces : Row → Location → Attestation → List LocalSpan → M (List TimeEntry)
create_pieces row loc attestation [] = pure []
create_pieces row loc attestation (piece ∷ pieces) = do
  created ← create_time_entry (piece_params row loc attestation piece)
  out ← create_pieces row loc attestation pieces
  pure (to_time_entry created ∷ out)

-- One transaction: the entries are created, then the original is dismissed.
unfoldable pub replace : Row → M (List TimeEntry) → M (List TimeEntry)
replace row creates =
    transaction do out ← creates; update_attestation dismissed row.id row.period_id; pure out

-- The draft that the handlers start from.
unfoldable pub load_draft : ℕ → ℕ → M Row
unfolding is_draft
load_draft id period_id = do
  row ← get_time_entry id period_id
  guard (is_draft row.attestation) failed_precondition
  pure row

abbrev pub cons_result : ℕ → Result (List ℕ) → Result (List ℕ)
cons_result cut (ok cuts) = ok (cut ∷ cuts)
cons_result cut (err e) = err e

-- One round of the check of the cut points: each lies after the one before it and before `end`.
unfoldable pub check_cuts : ℕ → ℕ → List Stamp → Result (List ℕ)
check_cuts end prev [] = ok []
check_cuts end prev (raw ∷ raws) = elim (parsed raw invalid_input) [
  | err e ↦ err e
  | ok cut ↦
      let rest = check_cuts end cut raws in
      if not (ltb prev cut) || not (ltb cut end) then err invalid_input else cons_result cut rest
]

-- The segments between neighbouring bounds.
unfoldable pub segments : ℕ → List ℕ → ℕ → List LocalSpan
segments start [] end = span start end ∷ []
segments start (cut ∷ cuts) end = span start cut ∷ segments cut cuts end

abbrev some_cut : List Stamp → Bool
some_cut [] = false
some_cut (raw ∷ raws) = true

unfoldable pub reject_time_entry : ℕ → ℕ → M TimeEntry
unfolding load_draft
reject_time_entry id period_id = do
  guard (ltb 0 id) invalid_input
  guard (ltb 0 period_id) invalid_input
  load_draft id period_id
  updated ← update_attestation dismissed id period_id
  pure (to_time_entry updated)

module _ (zones : String → Option Location) where
  unfoldable pub time_entry_local_span : Row → M RowSpan
  time_entry_local_span row = do
    start ← lift (parsed row.start_instant failed_precondition)
    end ← lift (parsed row.end_instant failed_precondition)
    segs ← list_tz_segments row.period_id
    loc ← lift (zone_on zones segs row.local_work_date)
    pure (record { start = start; end = end; loc = loc })

  unfoldable pub adjust_draft_time_entry : ℕ → TimeEntryInput → M TimeEntry
  unfolding load_draft
  adjust_draft_time_entry id input = do
    guard (ltb 0 id) invalid_input
    load_draft id input.period_id
    update_entry zones id input

  unfoldable pub split_time_entry : ℕ → ℕ → List Stamp → M (List TimeEntry)
  unfolding load_draft time_entry_local_span check_cuts segments create_pieces replace
  split_time_entry id period_id cut_points = do
    guard (ltb 0 id) invalid_input
    guard (ltb 0 period_id) invalid_input
    guard (some_cut cut_points) invalid_input
    row ← load_draft id period_id
    s ← time_entry_local_span row
    cuts ← lift (check_cuts s.end s.start cut_points)
    replace row (create_pieces row s.loc draft (segments s.start cuts s.end))
