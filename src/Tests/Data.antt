-- ===== src/Tests/Data.antt =====
-- Two clocks, and a ledger with a draft over midnight and a confirmed entry that overlaps it.
use clockr.Base.{
  ℕ, ◌+◌, ◌-◌, ◌*◌, ◌/◌, ◌^◌, Option, none, some, [], ◌∷◌, String, if◌then◌else◌, ◌==◌, suc, pos,
}
use clockr.GoTime.{Date, at, Location}
use clockr.Sources.{no_sources}
use clockr.Ledger.{Attestation, draft, confirmed, Params, Row, Db}
use clockr.Entries.{TimeEntryInput}
use clockr.Confirm.{ConfirmTimeEntryInput, OvernightPolicy, OverlapResolution}

abbrev pub hour : ℕ
hour = 3600 * 10 ^ 9

abbrev pub day_length : ℕ
day_length = 24 * 3600 * 10 ^ 9

abbrev pub date : ℕ → Date
date d = record { year = 1; month = 1; day = d }

abbrev pub date_of : ℕ → Date
date_of t = date (suc (t / day_length))

-- UTC in January of the year 1.
abbrev pub utc : Location
utc = record {
  local_date = date_of;
  date_at = λ d m. (d.day - 1) * day_length + m * (60 * 10 ^ 9);
  next_midnight = λ d. d.day * day_length;
}

-- A zone whose clocks skip the first midnight; the instant named for it shows 23:00 of the day before.
abbrev pub skips_midnight : Location
skips_midnight = record utc {
  next_midnight = λ d. if d.day == 1 then day_length - hour else d.day * day_length;
}

abbrev pub zones : String → Option Location
zones iana = some utc

abbrev pub entry_from : ℕ → ℕ → Attestation → Params
entry_from s e a = record {
  period_id = 7;
  start_instant = at s;
  end_instant = at e;
  duration_minutes = 0;
  local_work_date = date 1;
  category_id = none;
  description = "work";
  attestation = a;
  source_kind = none;
  source_id = none;
  source_revision = none;
  method = none;
  work_type = "worked";
  project_id = none;
  billable_status = "unset";
}

-- 22:00 to 02:00
abbrev pub overnight_draft : Row
overnight_draft = record { id = 1; fields = entry_from (22 * hour) (26 * hour) draft }

-- 23:00 to 24:00
abbrev pub settled_entry : Row
settled_entry = record { id = 2; fields = entry_from (23 * hour) (24 * hour) confirmed }

abbrev pub ledger : Db
ledger = record {
  entries = overnight_draft ∷ settled_entry ∷ [];
  next_id = 3;
  periods = record { id = 7; start_date = date 1; end_date = date 7 } ∷ [];
  tz_segments = record { period_id = 7; effective_from_date = date 1; iana_tz = "UTC" } ∷ [];
  sources = no_sources;
  faults = [];
}

abbrev pub confirmation : OvernightPolicy → OverlapResolution → ConfirmTimeEntryInput
confirmation policy resolution = record {
  id = 1;
  period_id = 7;
  overnight_policy = policy;
  overlap_resolution = resolution;
}

abbrev pub morning : TimeEntryInput
morning = record {
  period_id = 7;
  day = date 2;
  start_minutes = pos 540;
  end_minutes = pos 600;
  category_id = none;
  description = " stand-up ";
  work_type = "";
  project_id = none;
  billable_status = "billable";
}
