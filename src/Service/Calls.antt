-- ===== src/Service/Calls.antt =====
-- What a run of calls keeps, and what a call that fails leaves behind.
use clockr.Base.{
  ℕ, ◌≡◌, ◌≢◌, refl, Bool, false, not, Option, List, [], ◌∷◌, String, Error, err, arith, All, ltb,
  not_found, keep, length,
}
use clockr.GoTime.{Location}
use clockr.Ledger.{Db, M, Row, ◌>>=◌, is_draft, is_row, guard, statement, delete_time_entry}
use clockr.Ledger.Keeps.{Keeps, Keeps-bind, Keeps-pure, Keeps-guard, Keeps-lift}
use clockr.Ledger.Stays.{HasRow, Any, Keeps-Any, Keeps-create, Keeps-delete}
use clockr.Ledger.Atomic.{SameTables, IsAtomic, IsAtomic-last, OnlyReads-guard, IsAtomic-bind}
use clockr.Entries.{TimeEntry, TimeEntryInput, create_entry, delete_entry}
use clockr.Drafts.Untouched.{
  Keeps-time_entry_span, Keeps-update_entry, Keeps-reject, Keeps-adjust, Keeps-split,
}
use clockr.Drafts.Atomic.{
  IsAtomic-create_entry, IsAtomic-update_entry, IsAtomic-reject, IsAtomic-adjust, IsAtomic-split,
}
use clockr.Confirm.{OverlapResolution, keep_mine}
use clockr.Confirm.Untouched.{Keeps-confirm}
use clockr.Confirm.Atomic.{IsAtomic-confirm_time_entry}
use clockr.Service.{
  Call, create, update, delete, reject, adjust, split_at, confirm, may_write, deletes_overlaps,
  is_keep_mine, one_entry, serve, serve_all,
}

not_keep_mine : (x : OverlapResolution) → is_keep_mine x ≡ false → x ≢ keep_mine
not_keep_mine x h e = absurd (ground arith)

module _ (r : Row) (settled : is_draft r.attestation ≡ false) where
  Keeps-one : (m : M TimeEntry) → Keeps (HasRow r) Any m → Keeps (HasRow r) Any (one_entry m)
  unfolding one_entry
  Keeps-one m k = Keeps-bind _ _ k λ e u. Keeps-pure _ tt

  Keeps-create_entry :
      (zones : String → Option Location) (input : TimeEntryInput) (gap : Bool)
      → Keeps (HasRow r) Any (create_entry zones input gap)
  unfolding create_entry
  Keeps-create_entry zones input gap =
      Keeps-bind _ _ (Keeps-time_entry_span r settled zones input) λ s u.
        Keeps-bind _ _ (Keeps-lift _)
          λ a v. Keeps-bind _ _ (Keeps-create r _) λ x w. Keeps-pure _ tt

  Keeps-delete_entry :
      (id pid : ℕ) → is_row id pid r ≡ false → Keeps (HasRow r) Any (delete_entry id pid)
  unfolding delete_entry
  Keeps-delete_entry id pid o = Keeps-bind _ _ (Keeps-guard _ _) λ _ _.
      Keeps-bind _ _ (Keeps-guard _ _)
        λ _ _. Keeps-bind _ _ (Keeps-delete r id pid o) λ rows _. Keeps-Any _ (Keeps-guard _ _)

  Keeps-serve :
      (zones : String → Option Location) (c : Call)
      → may_write r c ≡ false
      → Keeps (HasRow r) Any (serve zones c)
  unfolding serve may_write
  Keeps-serve zones (create input gap) h = Keeps-one _ (Keeps-create_entry zones input gap)
  Keeps-serve zones (update id input) h =
      Keeps-one _ (Keeps-update_entry r settled zones id input h)
  Keeps-serve zones (delete id pid) h =
      Keeps-bind _ _ (Keeps-delete_entry id pid h) λ _ _. Keeps-pure _ tt
  Keeps-serve zones (reject id pid) h = Keeps-one _ (Keeps-reject r settled id pid)
  Keeps-serve zones (adjust id input) h = Keeps-one _ (Keeps-adjust r settled zones id input)
  Keeps-serve zones (split_at id pid cuts) h = Keeps-split r settled zones id pid cuts
  Keeps-serve zones (confirm input) h = Keeps-confirm r settled zones input (not_keep_mine _ h)

-- Whatever calls the clients make, in whatever order and with whatever outcome: a row that is no
-- draft stays as it is, unless a call updates or deletes it under its own key or confirms a draft
-- with `keep_mine`.
pub serve_all-HasRow :
    (zones : String → Option Location) (r : Row) (calls : List Call) (db : Db)
    → is_draft r.attestation ≡ false
    → All (λ c. may_write r c ≡ false) calls
    → HasRow r db
    → HasRow r (serve_all zones calls db)
unfolding serve_all
serve_all-HasRow zones r [] db s a h = h
serve_all-HasRow zones r (c ∷ cs) db s a h =
    serve_all-HasRow zones r cs (serve zones c db).1 s a.1 ((Keeps-serve r s zones c a.0).at db h).0

keep_none :
    (p : Row → Bool) (rows : List Row)
    → length (keep p rows) ≡ 0
    → keep (λ r. not (p r)) rows ≡ rows
unfolding keep
keep_none p [] h = refl
keep_none p (r ∷ rs) h = ground (arith, λ (k : length (keep p rs) ≡ 0). keep_none p rs k)

IsAtomic-delete_last :
    (id pid : ℕ) → IsAtomic (delete_time_entry id pid >>= λ rows. guard (ltb 0 rows) not_found)
unfolding delete_time_entry statement ◌>>=◌ guard
IsAtomic-delete_last id pid = record {
  at = λ db e h. record {
    entries = ground (arith, keep_none (is_row id pid) db.entries);
    next_id = ground arith;
    periods = ground arith;
    tz_segments = ground arith;
    sources = ground arith;
  };
}

IsAtomic-delete_entry : (id pid : ℕ) → IsAtomic (delete_entry id pid)
unfolding delete_entry
IsAtomic-delete_entry id pid =
    IsAtomic-bind _ _ (OnlyReads-guard _ _)
      λ _. IsAtomic-bind _ _ (OnlyReads-guard _ _) λ _. IsAtomic-delete_last id pid

IsAtomic-one : (m : M TimeEntry) → IsAtomic m → IsAtomic (one_entry m)
unfolding one_entry
IsAtomic-one m k = IsAtomic-last _ _ k

IsAtomic-serve :
    (zones : String → Option Location) (c : Call)
    → deletes_overlaps c ≡ false
    → IsAtomic (serve zones c)
unfolding serve deletes_overlaps
IsAtomic-serve zones (create input gap) h = IsAtomic-one _ (IsAtomic-create_entry zones input gap)
IsAtomic-serve zones (update id input) h = IsAtomic-one _ (IsAtomic-update_entry zones id input)
IsAtomic-serve zones (delete id pid) h = IsAtomic-last _ _ (IsAtomic-delete_entry id pid)
IsAtomic-serve zones (reject id pid) h = IsAtomic-one _ (IsAtomic-reject id pid)
IsAtomic-serve zones (adjust id input) h = IsAtomic-one _ (IsAtomic-adjust zones id input)
IsAtomic-serve zones (split_at id pid cuts) h = IsAtomic-split zones id pid cuts
IsAtomic-serve zones (confirm input) h = IsAtomic-confirm_time_entry zones input (not_keep_mine _ h)

-- A call that fails, whichever statement the engine refuses, leaves the tables and the next id as
-- they were, unless it confirms a draft with `keep_mine`.
pub serve_atomic :
    (zones : String → Option Location) (c : Call) (db : Db) (e : Error)
    → deletes_overlaps c ≡ false
    → (serve zones c db).0 ≡ err e
    → SameTables db (serve zones c db).1
serve_atomic zones c db e h = (IsAtomic-serve zones c h).at db e
