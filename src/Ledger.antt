-- ===== src/Ledger.antt =====
-- The table time_entry and the timezone segments of internal/db, with the queries of
-- internal/db/sqlc/time_entry.sql.go that the service runs, and database/sql transactions.
--
-- A query is an action on the database. `faults` says which of the coming statements the engine
-- will refuse (I/O, a lock, a violated constraint); [] means that it refuses none. Rows carry no
-- created_at and updated_at, which nothing reads. An id that Go tests by `<= 0` is 0 here.
pub mod View
pub mod Keeps
pub mod Stays
pub mod Atomic
pub mod Returns
pub mod Holds
use clockr.Base.{
  ℕ, suc, ◌+◌, String, Bool, true, false, ◌&&◌, Option, none, some, List, [], ◌∷◌, ◌++◌, Error,
  failure, not_found, Result, ok, err, leb, ◌==◌, if◌then◌else◌, length, not, find, keep, sort_by,
}
use clockr.GoTime.{Stamp, at, malformed, Date, date_le, same_date}
use clockr.Sources.{Sources}

-- The CHECK constraint on time_entry.attestation.
pub data Attestation : Type 0 where
  draft confirmed dismissed : Attestation

unfoldable pub is_draft : Attestation → Bool
is_draft draft = true
is_draft _ = false

unfoldable pub is_confirmed : Attestation → Bool
is_confirmed confirmed = true
is_confirmed _ = false

-- sqlc.CreateTimeEntryParams.
pub record Params : Type 0 where
  pub period_id : ℕ
  pub start_instant : Stamp
  pub end_instant : Stamp
  pub duration_minutes : ℕ
  pub local_work_date : Date
  pub category_id : Option ℕ
  pub description : String
  pub attestation : Attestation
  pub source_kind : Option String
  pub source_id : Option String
  pub source_revision : Option String
  pub method : Option String
  pub work_type : String
  pub project_id : Option ℕ
  pub billable_status : String

-- sqlc.TimeEntry: a row.
pub record Row : Type 0 where
  pub id : ℕ
  pub fields : Params
  pub open fields use *

-- sqlc.TzSegment, and sqlc.Period without the columns that the entries do not read.
pub record TzSegment : Type 0 where
  pub period_id : ℕ
  pub effective_from_date : Date
  pub iana_tz : String

pub record Period : Type 0 where
  pub id : ℕ
  pub start_date : Date
  pub end_date : Date

pub record Db : Type 0 where
  pub entries : List Row
  pub next_id : ℕ
  pub periods : List Period
  pub tz_segments : List TzSegment
  pub sources : Sources
  pub faults : List Bool

-- Go methods over the database: an error leaves behind what was written before it.
abbrev pub M : Type 0 → Type 0
M A = Db → Result A × Db

abbrev pub continue : {A B : Type 0} → Result A → (A → M B) → M B
continue (ok a) f db = f a db
continue (err e) f db = (err e, db)

unfoldable pub pure : {A : Type 0} → A → M A
pure a db = (ok a, db)

unfoldable pub fail : {A : Type 0} → Error → M A
fail e db = (err e, db)

-- The early returns of the service.
unfoldable pub guard : Bool → Error → M (Unit {0})
unfolding pure fail
guard true e = pure tt
guard false e = fail e

unfoldable pub lift : {A : Type 0} → Result A → M A
lift r db = (r, db)

infixl 5 ◌>>=◌ ◌>>◌
-- To open it opens the actions above too.
unfoldable pub ◌>>=◌ : {A B : Type 0} → M A → (A → M B) → M B
unfolding pure fail guard lift
◌>>=◌ m f db = let (r, db') = m db in continue r f db'

abbrev pub ◌>>◌ : {A B : Type 0} → M A → M B → M B
m >> k = m >>= λ _. k

-- Whether the engine refuses the coming statement.
abbrev head_or_false : List Bool → Bool
head_or_false [] = false
head_or_false (b ∷ bs) = b

abbrev rest_of : List Bool → List Bool
rest_of [] = []
rest_of (b ∷ bs) = bs

abbrev pub refused : Db → Bool
refused db = head_or_false db.faults

abbrev pub consume : Db → Db
consume db = record db { faults = rest_of db.faults }

-- One statement.
unfoldable pub statement : {A : Type 0} → M A → M A
statement m db = if refused db then (err failure, consume db) else m (consume db)

abbrev pub rollback : Db → Db → Db
rollback before after = record before { faults = after.faults }

abbrev pub settle : {A : Type 0} → Db → Result A → Db → Result A × Db
settle before (ok a) after =
    if refused after then (err failure, rollback before (consume after)) else (ok a, consume after)
settle before (err e) after = (err e, rollback before after)

-- BeginTx, the statements, Commit; the deferred Rollback undoes the statements unless Commit ran.
unfoldable pub transaction : {A : Type 0} → M A → M A
unfolding statement
transaction m = statement λ db. let (r, db') = m db in settle db r db'

-- WHERE id = ? AND period_id = ?
unfoldable pub is_row : ℕ → ℕ → Row → Bool
is_row id pid r = r.id == id && r.period_id == pid

abbrev pub one_row : {A : Type 0} → Option A → Result A
one_row none = err not_found
one_row (some r) = ok r

unfoldable pub get_time_entry : ℕ → ℕ → M Row
get_time_entry id pid = statement λ db. (one_row (find (is_row id pid) db.entries), db)

unfoldable pub create_time_entry : Params → M Row
create_time_entry p = statement λ db.
    let row : Row = record { id = db.next_id; fields = p } in
    (ok row, record db { entries = db.entries ++ row ∷ []; next_id = suc db.next_id })

-- SET on the rows that the WHERE clause selects.
unfoldable pub update_where : (Row → Bool) → (Params → Params) → List Row → List Row
update_where p f [] = []
update_where p f (r ∷ rs) =
    (if p r then record r { fields = f r.fields } else r) ∷ update_where p f rs

-- UPDATE … RETURNING *, of which the caller takes the one row.
unfoldable pub update_row : (Row → Bool) → (Params → Params) → M Row
unfolding update_where
update_row p f = statement λ db.
    let rows = update_where p f db.entries in (one_row (find p rows), record db { entries = rows })

abbrev pub set_attestation : Attestation → Params → Params
set_attestation a p = record p { attestation = a }

unfoldable pub update_attestation : Attestation → ℕ → ℕ → M Row
update_attestation a id pid = update_row (is_row id pid) (set_attestation a)

-- The columns that UpdateTimeEntry sets.
pub record Edit : Type 0 where
  pub start_instant : Stamp
  pub end_instant : Stamp
  pub duration_minutes : ℕ
  pub local_work_date : Date
  pub category_id : Option ℕ
  pub description : String
  pub work_type : String
  pub project_id : Option ℕ
  pub billable_status : String

abbrev apply_edit : Edit → Params → Params
apply_edit e p = record p {
  start_instant = e.start_instant;
  end_instant = e.end_instant;
  duration_minutes = e.duration_minutes;
  local_work_date = e.local_work_date;
  category_id = e.category_id;
  description = e.description;
  work_type = e.work_type;
  project_id = e.project_id;
  billable_status = e.billable_status;
}

unfoldable pub update_time_entry : Edit → ℕ → ℕ → M Row
update_time_entry e id pid = update_row (is_row id pid) (apply_edit e)

-- The number of rows that were removed.
unfoldable pub delete_time_entry : ℕ → ℕ → M ℕ
delete_time_entry id pid = statement λ db. (
  ok (length (keep (is_row id pid) db.entries)),
  record db { entries = keep (λ r. not (is_row id pid r)) db.entries },
)

-- ORDER BY local_work_date, start_instant. Texts of UTC seconds are in the order of their instants;
-- where a malformed text stands is immaterial to the readers of the list.
abbrev pub stamp_le : Stamp → Stamp → Bool
stamp_le (at a) (at b) = leb a b
stamp_le (at a) (malformed s) = true
stamp_le (malformed s) b = false

unfoldable pub row_le : Row → Row → Bool
unfolding date_le same_date
row_le a b =
    if same_date a.local_work_date b.local_work_date
    then stamp_le a.start_instant b.start_instant
    else date_le a.local_work_date b.local_work_date

unfoldable pub list_time_entries_for_period : ℕ → M (List Row)
unfolding row_le
list_time_entries_for_period pid =
    statement λ db. (ok (sort_by row_le (keep (λ r. r.period_id == pid) db.entries)), db)

unfoldable pub get_period : ℕ → M Period
get_period id = statement λ db. (one_row (find (λ p. p.id == id) db.periods), db)

abbrev pub segment_le : TzSegment → TzSegment → Bool
segment_le a b = date_le a.effective_from_date b.effective_from_date

unfoldable pub list_tz_segments : ℕ → M (List TzSegment)
unfolding date_le
list_tz_segments pid =
    statement λ db. (ok (sort_by segment_le (keep (λ s. s.period_id == pid) db.tz_segments)), db)
