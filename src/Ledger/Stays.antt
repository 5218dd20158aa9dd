-- ===== src/Ledger/Stays.antt =====
-- A row stays in its table under every statement that is not about its key.
use mathlib.Core.Path.{fun_ext}
use clockr.Base.{
  ℕ, ◌≡◌, refl, ap, Bool, true, false, Option, none, some, List, find, Result, ok, err,
}
use clockr.Ledger.{
  Db, M, Params, Row, Attestation, Edit, is_row, get_time_entry, create_time_entry, update_row,
  update_attestation, update_time_entry, delete_time_entry, list_time_entries_for_period,
  get_period, list_tz_segments, one_row,
}
use clockr.Ledger.View.{
  row_of, is_row_same, found-is_row, KeepsKey, row_of-update_where, row_of-keep, row_of-append,
}
use clockr.Ledger.Keeps.{Post, Keeps, OfTables, Keeps-statement}

-- The row is found under its own key, as it is.
abbrev pub HasRow : Row → Db → Type 0
HasRow r db = row_of r db.entries ≡ some r

pub HasRow-OfTables : (r : Row) → OfTables (HasRow r)
HasRow-OfTables r db fs h = h

-- No claim about the result.
abbrev pub Any : {A : Type 0} → A → Type 0
Any a = Unit

pub Post-Any : {A : Type 0} (r : Result A) → Post Any r
Post-Any (ok a) = tt
Post-Any (err e) = tt

pub Keeps-Any :
    {A : Type 0} {P : Db → Type 0} {Q : A → Type 0} (m : M A) → Keeps P Q m → Keeps P Any m
Keeps-Any m k = record { at = λ db h. ((k.at db h).0, Post-Any _) }

-- What was read under a key is the row itself, if the key is its own.
abbrev pub IsRead : Row → ℕ → ℕ → Row → Type 0
IsRead r id pid x = (is_row id pid x ≡ true) × (is_row id pid r ≡ true → x ≡ r)

module _ (r : Row) where
  pub Keeps-create : (p : Params) → Keeps (HasRow r) Any (create_time_entry p)
  unfolding create_time_entry
  Keeps-create p =
      Keeps-statement _ _ (HasRow-OfTables r) _ (λ db h. (row_of-append r db.entries _ h, tt))

  pub Keeps-update_row :
      (id pid : ℕ) (f : Params → Params)
      → KeepsKey f
      → is_row id pid r ≡ false
      → Keeps (HasRow r) Any (update_row (is_row id pid) f)
  unfolding update_row
  Keeps-update_row id pid f same n =
      Keeps-statement _ _ (HasRow-OfTables r) _
        (λ db h. (row_of-update_where r id pid f db.entries same n h, Post-Any _))

  pub Keeps-update_attestation :
      (a : Attestation) (id pid : ℕ)
      → is_row id pid r ≡ false
      → Keeps (HasRow r) Any (update_attestation a id pid)
  unfolding update_attestation
  Keeps-update_attestation a id pid n = Keeps-update_row id pid _ (λ p. refl) n

  pub Keeps-update_time_entry :
      (e : Edit) (id pid : ℕ)
      → is_row id pid r ≡ false
      → Keeps (HasRow r) Any (update_time_entry e id pid)
  unfolding update_time_entry
  Keeps-update_time_entry e id pid n = Keeps-update_row id pid _ (λ p. refl) n

  pub Keeps-delete :
      (id pid : ℕ) → is_row id pid r ≡ false → Keeps (HasRow r) Any (delete_time_entry id pid)
  unfolding delete_time_entry
  Keeps-delete id pid n =
      Keeps-statement _ _ (HasRow-OfTables r) _ (λ db h. (row_of-keep r id pid db.entries n h, tt))

  pub Keeps-list : (pid : ℕ) → Keeps (HasRow r) Any (list_time_entries_for_period pid)
  unfolding list_time_entries_for_period
  Keeps-list pid = Keeps-statement _ _ (HasRow-OfTables r) _ (λ db h. (h, tt))

  pub Keeps-list_tz_segments : (pid : ℕ) → Keeps (HasRow r) Any (list_tz_segments pid)
  unfolding list_tz_segments
  Keeps-list_tz_segments pid = Keeps-statement _ _ (HasRow-OfTables r) _ (λ db h. (h, tt))

  pub Keeps-get_period : (id : ℕ) → Keeps (HasRow r) Any (get_period id)
  unfolding get_period
  Keeps-get_period id = Keeps-statement _ _ (HasRow-OfTables r) _ (λ db h. (h, Post-Any _))

  one_row-IsRead :
      (id pid : ℕ) (rows : List Row) (o : Option Row)
      → row_of r rows ≡ some r
      → find (is_row id pid) rows ≡ o
      → Post (IsRead r id pid) (one_row o)
  one_row-IsRead id pid rows none h e = tt
  one_row-IsRead id pid rows (some x) h e = (found-is_row id pid rows x e, same)
    where
      same : is_row id pid r ≡ true → x ≡ r
      same k =
          cc (h, e, ap (λ (p : Row → Bool). find p rows) (fun_ext (λ y. is_row_same id pid r y k)))

  pub Keeps-get : (id pid : ℕ) → Keeps (HasRow r) (IsRead r id pid) (get_time_entry id pid)
  unfolding get_time_entry
  Keeps-get id pid =
      Keeps-statement _ _ (HasRow-OfTables r) _
        (λ db h. (h, one_row-IsRead id pid db.entries _ h refl))
