-- ===== src/Service.antt =====
-- The service methods that write time entries, as the calls of a client: internal/service/
-- time_entry.go and time_entry_confirm.go.
pub mod Calls
use clockr.Base.{ℕ, Bool, true, false, Option, List, [], ◌∷◌, String}
use clockr.GoTime.{Stamp, Location}
use clockr.Ledger.{Db, M, ◌>>=◌, ◌>>◌, pure, Row, is_row}
use clockr.Entries.{TimeEntry, TimeEntryInput, create_entry, update_entry, delete_entry}
use clockr.Drafts.{reject_time_entry, adjust_draft_time_entry, split_time_entry}
use clockr.Confirm.{ConfirmTimeEntryInput, OverlapResolution, keep_mine, confirm_time_entry}

-- A call and its arguments.
pub data Call : Type 0 where
  create : TimeEntryInput → Bool → Call
  update : ℕ → TimeEntryInput → Call
  delete : ℕ → ℕ → Call
  reject : ℕ → ℕ → Call
  adjust : ℕ → TimeEntryInput → Call
  split_at : ℕ → ℕ → List Stamp → Call
  confirm : ConfirmTimeEntryInput → Call

abbrev is_keep_mine : OverlapResolution → Bool
is_keep_mine keep_mine = true
is_keep_mine _ = false

-- Whether a call asks to write the row `r` by its key, or deletes what the user did not name.
unfoldable pub may_write : Row → Call → Bool
unfolding is_row
may_write r (update id input) = is_row id input.period_id r
may_write r (delete id period_id) = is_row id period_id r
may_write r (confirm input) = is_keep_mine input.overlap_resolution
may_write r _ = false

-- Whether a call deletes entries that it does not name.
unfoldable pub deletes_overlaps : Call → Bool
deletes_overlaps (confirm input) = is_keep_mine input.overlap_resolution
deletes_overlaps _ = false

unfoldable pub one_entry : M TimeEntry → M (List TimeEntry)
one_entry m = do e ← m; pure (e ∷ [])

module _ (zones : String → Option Location) where
  unfoldable pub serve : Call → M (List TimeEntry)
  unfolding one_entry
  serve (create input gap_origin) = one_entry (create_entry zones input gap_origin)
  serve (update id input) = one_entry (update_entry zones id input)
  serve (delete id period_id) = delete_entry id period_id >> pure []
  serve (reject id period_id) = one_entry (reject_time_entry id period_id)
  serve (adjust id input) = one_entry (adjust_draft_time_entry zones id input)
  serve (split_at id period_id cuts) = split_time_entry zones id period_id cuts
  serve (confirm input) = confirm_time_entry zones input

  -- The database after a run of calls, each of which may succeed or fail.
  unfoldable pub serve_all : List Call → Db → Db
  unfolding serve
  serve_all [] db = db
  serve_all (c ∷ cs) db = serve_all cs (serve c db).1
