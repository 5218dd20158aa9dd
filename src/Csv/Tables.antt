-- ===== src/Csv/Tables.antt =====
-- A table that was written is read back.
use mathlib.Core.List.{append_assoc, append-nil}
use clockr.Base.{
  ℕ, ◌≡◌, refl, ap, ◌∙◌, sym, Bool, true, false, List, [], ◌∷◌, ◌++◌, arith, ◌==◌, ==_refl, All,
}
use clockr.Csv.{
  Text, newline, escape_delimited_cell, join_texts, join_delimited, write_table, Parsed, start,
  end_cell, end_row, parse,
}
use clockr.Csv.Cells.{prepend, ends_cell, IsDelimiter, parse-escape_delimited_cell}

-- Behind a row stands the end or a newline.
abbrev ends_row : Text → Bool
ends_row [] = true
ends_row (c ∷ s) = c == newline

-- What is read of it: no more of the row.
abbrev after_row : List (List Text) → Parsed
after_row rows = record { cell = []; cells = []; rows = rows }

ends_row-cell : (d : ℕ) (r : Text) → ends_row r ≡ true → ends_cell d r ≡ true
ends_row-cell d [] h = refl
ends_row-cell d (c ∷ s) h = ground arith

parse-after_row :
    (d : ℕ) (r : Text)
    → IsDelimiter d
    → ends_row r ≡ true
    → parse d start r ≡ after_row (parse d start r).rows
unfolding parse
parse-after_row d [] n h = refl
parse-after_row d (c ∷ s) n h = ground (arith, n.0, n.1)

parse-delimiter : (d : ℕ) (s : Text) → parse d start (d ∷ s) ≡ end_cell (parse d start s)
unfolding parse
parse-delimiter d s = rw (==_refl d) refl

parse-newline :
    (d : ℕ) (s : Text) → IsDelimiter d → parse d start (newline ∷ s) ≡ end_row (parse d start s)
unfolding parse
parse-newline d s n = rw (n.1) refl

parse-join_delimited :
    (d : ℕ) (c : Text) (cs : List Text) (r : Text)
    → IsDelimiter d
    → ends_row r ≡ true
    → parse d start (join_delimited (c ∷ cs) (d ∷ []) ++ r)
      ≡ record { cell = c; cells = cs; rows = (parse d start r).rows }
unfolding join_delimited join_texts
parse-join_delimited d c [] r n h =
    parse-escape_delimited_cell d c r n (ends_row-cell d r h)
    ∙ ap (prepend c) (parse-after_row d r n h)
    ∙ ap (λ x. record { cell = x; cells = []; rows = (parse d start r).rows }) (append-nil c)
parse-join_delimited d c (c2 ∷ cs) r n h =
    let rest = join_delimited (c2 ∷ cs) (d ∷ []) in
    ap (parse d start) (append_assoc (escape_delimited_cell c (d ∷ [])) (d ∷ rest) r)
    ∙ parse-escape_delimited_cell d c (d ∷ rest ++ r) n (ground (arith, ==_refl d))
    ∙ ap (prepend c) (parse-delimiter d (rest ++ r))
    ∙ ap (λ p. prepend c (end_cell p)) (parse-join_delimited d c2 cs r n h)
    ∙ ap (λ x. record { cell = x; cells = c2 ∷ cs; rows = (parse d start r).rows }) (append-nil c)

-- A row has a cell.
abbrev pub has_cell : List Text → Bool
has_cell [] = false
has_cell (c ∷ cs) = true

-- What `read_table` makes of what is parsed.
abbrev pub table_of : Parsed → List (List Text)
table_of p = (p.cell ∷ p.cells) ∷ p.rows

-- The cells of a table are found again, whatever they hold.
pub table_of-write_table :
    (d : ℕ) (row : List Text) (rows : List (List Text))
    → IsDelimiter d
    → All (λ r. has_cell r ≡ true) (row ∷ rows)
    → table_of (parse d start (write_table (d ∷ []) (row ∷ rows))) ≡ row ∷ rows
unfolding write_table join_texts parse
table_of-write_table d [] rows n h = absurd (ground (arith, h.0))
table_of-write_table d (c ∷ cs) [] n h = ap table_of (
    ap (parse d start) (sym (append-nil (join_delimited (c ∷ cs) (d ∷ []))))
    ∙ parse-join_delimited d c cs [] n refl)
table_of-write_table d (c ∷ cs) (row ∷ rows) n h =
    let rest = write_table (d ∷ []) (row ∷ rows) in
    ap table_of (parse-join_delimited d c cs (newline ∷ rest) n refl)
    ∙ ap (λ p. (c ∷ cs) ∷ p.rows) (parse-newline d rest n)
    ∙ ap (λ t. (c ∷ cs) ∷ t) (table_of-write_table d row rows n h.1)
