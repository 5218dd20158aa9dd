-- ===== src/Ledger/Holds.antt =====
-- A row that is the only one under its key, and stays so: what an update spares, and what is created gets
-- an id that is still free.
use mathlib.Core.Path.{◌∙◌}
use clockr.Base.{
  ℕ, ◌≡◌, refl, sym, ap, Bool, true, false, some, List, [], ◌∷◌, arith, ltb, if◌then◌else◌, find,
  keep, All, All-append, All-sort_by, Bool-cases, inl, inr, ok,
}
use clockr.Ledger.{
  Db, statement, Params, Row, Attestation, is_row, is_draft, update_where, update_row,
  create_time_entry, update_attestation, list_time_entries_for_period, row_le,
}
use clockr.Ledger.View.{row_of, KeepsKey, is_row-updated, row_of-append}
use clockr.Ledger.Keeps.{Keeps, OfTables, Keeps-statement}
use clockr.Ledger.Stays.{Any, Post-Any}

-- `x` is `r`, if it has the key of `r`.
abbrev pub IsOwn : Row → Row → Type 0
IsOwn r x = is_row r.id r.period_id x ≡ true → x ≡ r

pub record Holds (r : Row) (db : Db) : Type 0 where
  pub present : row_of r db.entries ≡ some r
  pub alone : All (IsOwn r) db.entries
  pub older : ltb r.id db.next_id ≡ true

row_of-update_if :
    (r : Row) (p : Row → Bool) (f : Params → Params) (rows : List Row)
    → KeepsKey f
    → p r ≡ false
    → row_of r rows ≡ some r
    → row_of r (update_where p f rows) ≡ some r
unfolding find update_where
row_of-update_if r p f [] same n h = cc
row_of-update_if r p f (x ∷ xs) same n h = ground (
  arith,
  is_row-updated r.id r.period_id f x same,
  λ (q : row_of r xs ≡ some r). row_of-update_if r p f xs same n q,
)

alone-update_where :
    (r : Row) (p : Row → Bool) (f : Params → Params) (rows : List Row)
    → KeepsKey f
    → p r ≡ false
    → All (IsOwn r) rows
    → All (IsOwn r) (update_where p f rows)
unfolding update_where
alone-update_where r p f [] same n h = tt
alone-update_where r p f (x ∷ xs) same n (own, h) =
    (own_updated (p x) refl, alone-update_where r p f xs same n h)
  where
    own_updated : (b : Bool) → p x ≡ b → IsOwn r (if b then record x { fields = f x.fields } else x)
    own_updated false e k = own k
    own_updated true e k =
        absurd
          (ground (arith, n, e, ap p (own (sym (is_row-updated r.id r.period_id f x same) ∙ k))))

All-keep :
    (r : Row) (p : Row → Bool) (rows : List Row) → All (IsOwn r) rows → All (IsOwn r) (keep p rows)
unfolding keep
All-keep r p [] h = tt
All-keep r p (x ∷ xs) h = elim (Bool-cases (p x)) [
  | inl e ↦ rw (e) (h.0, All-keep r p xs h.1)
  | inr e ↦ rw (e) (All-keep r p xs h.1)
]

-- A draft that was read is not under the key of a row that is no draft.
pub draft-other :
    (r x : Row)
    → is_draft r.attestation ≡ false
    → IsOwn r x
    → is_draft x.attestation ≡ true
    → is_row x.id x.period_id r ≡ false
unfolding is_row
draft-other r x s own d = elim (Bool-cases (is_row x.id x.period_id r)) [
  | inr n ↦ n
  | inl e ↦ absurd (ground (arith, s, d, own (ground (arith, e))))
]

IsOwn-new :
    (r : Row) (db : Db) (p : Params)
    → ltb r.id db.next_id ≡ true
    → IsOwn r (record { id = db.next_id; fields = p })
unfolding is_row
IsOwn-new r db p h k = absurd (ground (arith, h, k))

module _ (r : Row) where
  pub Holds-OfTables : OfTables (Holds r)
  Holds-OfTables db fs h = record { present = h.present; alone = h.alone; older = h.older }

  pub Holds-create : (p : Params) → Keeps (Holds r) (IsOwn r) (create_time_entry p)
  unfolding create_time_entry
  Holds-create p = Keeps-statement (Holds r) (IsOwn r) Holds-OfTables _ λ db h. (
    record {
      present = row_of-append r db.entries _ h.present;
      alone = All-append (IsOwn r) db.entries _ h.alone (IsOwn-new r db p h.older, tt);
      older = ground (arith, h.older);
    },
    IsOwn-new r db p h.older,
  )

  after_update :
      (p : Row → Bool) (f : Params → Params) (db : Db)
      → KeepsKey f
      → p r ≡ false
      → Holds r db
      → Holds r (record db { entries = update_where p f db.entries })
  after_update p f db same n h = record {
    present = row_of-update_if r p f db.entries same n h.present;
    alone = alone-update_where r p f db.entries same n h.alone;
    older = h.older;
  }

  pub Holds-update_row :
      (p : Row → Bool) (f : Params → Params)
      → KeepsKey f
      → p r ≡ false
      → Keeps (Holds r) Any (update_row p f)
  unfolding update_row
  Holds-update_row p f same n =
      Keeps-statement (Holds r) Any Holds-OfTables _
        λ db h. (after_update p f db same n h, Post-Any _)

  -- The same of an UPDATE that returns no row.
  pub Holds-update_where :
      (p : Row → Bool) (f : Params → Params)
      → KeepsKey f
      → p r ≡ false
      → Keeps
          (Holds r)
          Any
          (statement λ db. (ok tt, record db { entries = update_where p f db.entries }))
  Holds-update_where p f same n =
      Keeps-statement (Holds r) Any Holds-OfTables _ λ db h. (after_update p f db same n h, tt)

  pub Holds-update_attestation :
      (a : Attestation) (id pid : ℕ)
      → is_row id pid r ≡ false
      → Keeps (Holds r) Any (update_attestation a id pid)
  unfolding update_attestation
  Holds-update_attestation a id pid n = Holds-update_row _ _ (λ p. refl) n

  pub Holds-list : (pid : ℕ) → Keeps (Holds r) (All (IsOwn r)) (list_time_entries_for_period pid)
  unfolding list_time_entries_for_period
  Holds-list pid =
      Keeps-statement (Holds r) _ Holds-OfTables _
        λ db h. (h, All-sort_by (IsOwn r) row_le _ (All-keep r _ db.entries h.alone))
