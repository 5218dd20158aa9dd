-- ===== src/Tests/Writes.antt =====
-- The handlers that write entries, on a ledger with a draft over midnight.
use clockr.Base.{
  ℕ, ◌≡◌, refl, ◌&&◌, not, true, false, List, [], ◌∷◌, ◌*◌, none, keep, find, sort_by, insert_by,
  any, ok, err, failure, invalid_input, Result,
}
use clockr.GoTime.{at, same_date, parse_stamp}
use clockr.Gaps.{Interval, span}
use clockr.Gaps.Points.{covered, within}
use clockr.Ledger.{
  Db, is_draft, is_row, ◌>>=◌, get_time_entry, statement, list_tz_segments, get_period, transaction,
  create_time_entry, update_attestation, update_row, list_time_entries_for_period,
}
use clockr.Ledger.View.{row_of}
use clockr.Ledger.Stays.{HasRow}
use clockr.Ledger.Atomic.{SameTables}
use clockr.Drafts.Created.{Created, create_entry-Created}
use clockr.Entries.{
  TimeEntry, to_time_entry, create_entry, time_entry_span, normalize_time_entry_allocation, zone_on,
}
use clockr.Spans.{crosses_local_midnight, subtract_interval, cut_span, split_from}
use clockr.Drafts.{split_time_entry}
use clockr.Drafts.Split.{Outcome, split_time_entry-Outcome}
use clockr.Confirm.{
  OvernightPolicy, split_at_midnight, keep_mine, split, is_overlap, cut_rows, resolve_overlaps,
  confirm_time_entry,
}
use clockr.Confirm.Overlaps.{confirmed_spans, remainders_free}
use clockr.Confirm.KeepMine.{keep_mine_not_atomic}
use clockr.Service.{
  Call, reject, split_at, confirm, delete, serve, serve_all, may_write, deletes_overlaps,
}
use clockr.Service.Calls.{serve_all-HasRow, serve_atomic}
use clockr.Tests.Data.{
  morning, hour, utc, zones, overnight_draft, settled_entry, ledger, confirmation,
}

-- The result and the database of splitting the draft at midnight.
abbrev split_run : Result (List TimeEntry) × Db
split_run = split_time_entry zones 1 7 (at (24 * hour) ∷ []) ledger

abbrev outcome : Result (List TimeEntry) → List TimeEntry
outcome (ok out) = out
outcome (err e) = []

split-runs : split_run ≡ (ok (outcome split_run.0), split_run.1)
unfolding split_time_entry ◌>>=◌ get_time_entry statement find is_row parse_stamp list_tz_segments
    zone_on sort_by keep insert_by transaction create_time_entry update_attestation update_row
split-runs = refl

split_time_entry-Outcome_example :
    Outcome zones 1 7 (at (24 * hour) ∷ []) ledger (outcome split_run.0) split_run.1
split_time_entry-Outcome_example =
    split_time_entry-Outcome zones 1 7 (at (24 * hour) ∷ []) ledger (outcome split_run.0)
      split_run.1 split-runs

remainders_free_example :
    (out : List Interval) × (cut_rows
        (span (22 * hour) (26 * hour) ∷ [])
        (keep (is_overlap 1 (22 * hour) (26 * hour)) ledger.entries)
      ≡ ok out)
    × ((t : ℕ)
        → covered out t ≡ (
            within (span (22 * hour) (26 * hour)) t
            && not (covered (confirmed_spans 1 ledger.entries) t)))
remainders_free_example = remainders_free 1 (22 * hour) (26 * hour) ledger.entries

keep_mine_not_atomic_example :
    ((resolve_overlaps
        (confirmation OvernightPolicy.unset keep_mine)
        overnight_draft
        (record { start = 22 * hour; end = 26 * hour; loc = utc })
        (settled_entry ∷ [])
        keep_mine
        ledger).0
      ≡ err invalid_input)
    × ((resolve_overlaps
          (confirmation OvernightPolicy.unset keep_mine)
          overnight_draft
          (record { start = 22 * hour; end = 26 * hour; loc = utc })
          (settled_entry ∷ [])
          keep_mine
          ledger).1
        ≡ record ledger { entries = overnight_draft ∷ [] })
    × (row_of settled_entry (overnight_draft ∷ []) ≡ none)
unfolding keep is_row crosses_local_midnight same_date find
keep_mine_not_atomic_example =
    keep_mine_not_atomic (confirmation OvernightPolicy.unset keep_mine) overnight_draft
      (record { start = 22 * hour; end = 26 * hour; loc = utc }) settled_entry [] ledger refl refl
      refl

abbrev calls : List Call
calls =
    confirm (confirmation split_at_midnight split)
    ∷ split_at 1 7 (at (24 * hour) ∷ [])
    ∷ delete 1 7
    ∷ reject 2 7
    ∷ []

serve_all-HasRow_example : HasRow settled_entry (serve_all zones calls ledger)
unfolding may_write is_row is_draft find
serve_all-HasRow_example =
    serve_all-HasRow zones settled_entry calls ledger refl (refl, (refl, (refl, (refl, tt)))) refl

-- The same ledger, whose engine refuses the fifth statement of the call.
abbrev failing : Db
failing = record ledger { faults = false ∷ false ∷ false ∷ false ∷ true ∷ [] }

serve_atomic_example :
    SameTables failing (serve zones (confirm (confirmation split_at_midnight split)) failing).1
unfolding deletes_overlaps serve confirm_time_entry ◌>>=◌ get_time_entry statement find is_row
    parse_stamp list_tz_segments zone_on sort_by keep insert_by transaction create_time_entry
    list_time_entries_for_period is_overlap subtract_interval cut_span any crosses_local_midnight
    same_date split_from update_row
serve_atomic_example =
    serve_atomic zones (confirm (confirmation split_at_midnight split)) failing failure refl refl

abbrev create_run : Result TimeEntry × Db
create_run = create_entry zones morning true ledger

abbrev created : Result TimeEntry → TimeEntry
created (ok e) = e
created (err e) = to_time_entry settled_entry

create-runs_at : create_run ≡ (ok (created create_run.0), create_run.1)
unfolding create_entry ◌>>=◌ time_entry_span get_period statement find list_tz_segments zone_on
    sort_by keep insert_by normalize_time_entry_allocation create_time_entry
create-runs_at = refl

create_entry-Created_example : Created morning ledger (created create_run.0) create_run.1
create_entry-Created_example =
    create_entry-Created zones morning true ledger (created create_run.0) create_run.1
      create-runs_at
