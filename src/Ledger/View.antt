-- ===== src/Ledger/View.antt =====
-- A row is found by its id and its period. What the statements do to the rows that are found.
use clockr.Base.{
  ℕ, ◌≡◌, refl, true, false, not, Option, none, some, List, [], ◌∷◌, ◌++◌, arith, ==_refl, find,
  keep,
}
use clockr.Ledger.{Params, Row, is_row, update_where}

-- The first row with the key of `r`.
abbrev pub row_of : Row → List Row → Option Row
row_of r rows = find (is_row r.id r.period_id) rows

pub is_row_self : (r : Row) → is_row r.id r.period_id r ≡ true
unfolding is_row
is_row_self r = ground (arith, ==_refl r.id, ==_refl r.period_id)

-- Two keys that one row has are the same key.
pub is_row_same :
    (id pid : ℕ) (r : Row) (x : Row)
    → is_row id pid r ≡ true
    → is_row id pid x ≡ is_row r.id r.period_id x
unfolding is_row
is_row_same id pid r x h = ground arith

pub found-is_row :
    (id pid : ℕ) (rows : List Row) (r : Row)
    → find (is_row id pid) rows ≡ some r
    → is_row id pid r ≡ true
unfolding find
found-is_row id pid [] r h = cc
found-is_row id pid (x ∷ xs) r h = ground (arith, found-is_row id pid xs r)

-- An update sets columns other than the period, so the keys stay.
abbrev pub KeepsKey : (Params → Params) → Type 0
KeepsKey f = (p : Params) → (f p).period_id ≡ p.period_id

abbrev updated : (Params → Params) → Row → Row
updated f r = record r { fields = f r.fields }

pub is_row-updated :
    (id pid : ℕ) (f : Params → Params) (x : Row)
    → KeepsKey f
    → is_row id pid (updated f x) ≡ is_row id pid x
unfolding is_row
is_row-updated id pid f x same = rw (same x.fields) refl

other_key :
    (r : Row) (id pid : ℕ) (x : Row)
    → is_row id pid r ≡ false
    → is_row id pid x ≡ true
    → is_row r.id r.period_id x ≡ false
unfolding is_row
other_key r id pid x h k = ground arith

-- An update of other rows leaves the row in place.
pub row_of-update_where :
    (r : Row) (id pid : ℕ) (f : Params → Params) (rows : List Row)
    → KeepsKey f
    → is_row id pid r ≡ false
    → row_of r rows ≡ some r
    → row_of r (update_where (is_row id pid) f rows) ≡ some r
unfolding find update_where
row_of-update_where r id pid f [] same h k = cc
row_of-update_where r id pid f (x ∷ xs) same h k = ground (
  arith,
  is_row-updated r.id r.period_id f x same,
  other_key r id pid x h,
  λ (q : row_of r xs ≡ some r). row_of-update_where r id pid f xs same h q,
)

pub row_of-keep :
    (r : Row) (id pid : ℕ) (rows : List Row)
    → is_row id pid r ≡ false
    → row_of r rows ≡ some r
    → row_of r (keep (λ x. not (is_row id pid x)) rows) ≡ some r
unfolding find keep is_row
row_of-keep r id pid [] h k = cc
row_of-keep r id pid (x ∷ xs) h k = ground (arith, row_of-keep r id pid xs h)

pub row_of-append :
    (r : Row) (rows more : List Row) → row_of r rows ≡ some r → row_of r (rows ++ more) ≡ some r
unfolding find
row_of-append r [] more k = cc
row_of-append r (x ∷ xs) more k = ground (arith, row_of-append r xs more)

-- An update that finds no row changes none.
pub update_where-none :
    (id pid : ℕ) (f : Params → Params) (rows : List Row)
    → KeepsKey f
    → find (is_row id pid) (update_where (is_row id pid) f rows) ≡ none
    → update_where (is_row id pid) f rows ≡ rows
unfolding find update_where
update_where-none id pid f [] same h = refl
update_where-none id pid f (x ∷ xs) same h = ground (
  arith,
  is_row-updated id pid f x same,
  λ (q : find (is_row id pid) (update_where (is_row id pid) f xs) ≡ none).
      update_where-none id pid f xs same q,
)

-- An update finds the updated row.
pub find-update_where :
    (id pid : ℕ) (f : Params → Params) (rows : List Row) (r : Row)
    → KeepsKey f
    → find (is_row id pid) rows ≡ some r
    → find (is_row id pid) (update_where (is_row id pid) f rows) ≡ some (updated f r)
unfolding find update_where
find-update_where id pid f [] r same h = cc
find-update_where id pid f (x ∷ xs) r same h = ground (
  arith,
  is_row-updated id pid f x same,
  λ (q : find (is_row id pid) xs ≡ some r). find-update_where id pid f xs r same q,
)
