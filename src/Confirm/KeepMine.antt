-- ===== src/Confirm/KeepMine.antt =====
-- `keep_mine` deletes the overlapping entries before the overnight policy is looked at, and outside
-- of any transaction: a confirmation that then fails has deleted them all the same.
use clockr.Base.{
  ◌≡◌, refl, Bool, true, not, none, List, [], ◌∷◌, ok, err, invalid_input, arith, find, keep,
}
use clockr.Spans.{crosses_local_midnight}
use clockr.Ledger.{Db, Row, ◌>>=◌, is_row, statement, delete_time_entry}
use clockr.Ledger.View.{row_of}
use clockr.Drafts.{RowSpan}
use clockr.Confirm.{
  ConfirmTimeEntryInput, OvernightPolicy, keep_mine, delete_rows, confirm_span, resolve_overlaps,
}

-- The rows but those with the key of `o`.
abbrev pub without : Row → List Row → List Row
without o rows = keep (λ r. not (is_row o.id o.period_id r)) rows

abbrev pub without_all : List Row → List Row → List Row
without_all [] rows = rows
without_all (o ∷ os) rows = without_all os (without o rows)

delete_rows_lem :
    (os : List Row) (db : Db)
    → db.faults ≡ []
    → ((delete_rows os db).0 ≡ ok tt)
      × ((delete_rows os db).1 ≡ record db { entries = without_all os db.entries })
unfolding delete_rows delete_time_entry statement ◌>>=◌
delete_rows_lem [] db h = (refl, refl)
delete_rows_lem (o ∷ os) db h =
    ground (arith, delete_rows_lem os (record db { entries = without o db.entries }))

find-without : (o : Row) (rows : List Row) → row_of o (without o rows) ≡ none
unfolding find keep
find-without o [] = refl
find-without o (r ∷ rs) = ground (arith, find-without o rs)

find-keep-none :
    (p q : Row → Bool) (rows : List Row) → find p rows ≡ none → find p (keep q rows) ≡ none
unfolding find keep
find-keep-none p q [] h = refl
find-keep-none p q (r ∷ rs) h = ground (arith, λ (k : find p rs ≡ none). find-keep-none p q rs k)

find-without_all :
    (o : Row) (os : List Row) (rows : List Row)
    → row_of o rows ≡ none
    → row_of o (without_all os rows) ≡ none
find-without_all o [] rows h = h
find-without_all o (x ∷ xs) rows h =
    find-without_all o xs (without x rows) (find-keep-none _ _ rows h)

-- A draft over midnight with overlaps, `keep_mine`, no overnight policy and an engine that refuses
-- nothing: the confirmation fails as invalid input, the rows of the overlaps are deleted from the
-- ledger, the first of them is not found any more, and the rest of the database is as it was.
pub keep_mine_not_atomic :
    (input : ConfirmTimeEntryInput) (row : Row) (s : RowSpan) (o : Row) (os : List Row) (db : Db)
    → input.overnight_policy ≡ OvernightPolicy.unset
    → crosses_local_midnight s.loc s.start s.end ≡ true
    → db.faults ≡ []
    → ((resolve_overlaps input row s (o ∷ os) keep_mine db).0 ≡ err invalid_input)
      × ((resolve_overlaps input row s (o ∷ os) keep_mine db).1
          ≡ record db { entries = without_all (o ∷ os) db.entries })
      × (row_of o (without_all (o ∷ os) db.entries) ≡ none)
unfolding resolve_overlaps confirm_span ◌>>=◌
keep_mine_not_atomic input row s o os db policy crosses faults = (
  ground (arith, delete_rows_lem (o ∷ os) db faults),
  ground (arith, delete_rows_lem (o ∷ os) db faults),
  find-without_all o os (without o db.entries) (find-without o db.entries),
)
