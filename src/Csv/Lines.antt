-- ===== src/Csv/Lines.antt =====
-- A table that was written is read back by a reader that takes CRLF for the end of a row as well.
use clockr.Base.{
  if◌then◌else◌, ℕ, ◌≡◌, refl, ap, ◌∙◌, Bool, true, false, List, [], ◌∷◌, ◌++◌, map, ◌==◌, All,
  All-append, Bool-cases, inl, inr,
}
use clockr.Csv.{
  Text, quote, newline, carriage_return, unix_lines, double_quotes, needs_quotes,
  escape_delimited_cell, join_texts, join_delimited, write_table, read_table, parse, start,
}
use clockr.Csv.Cells.{IsDelimiter}
use clockr.Csv.Tables.{has_cell, table_of, table_of-write_table}

-- No character of the text is a carriage return.
abbrev pub NoReturn : Text → Type 0
NoReturn = All (λ c. (c == carriage_return) ≡ false)

NoReturn-append : (v w : Text) → NoReturn v → NoReturn w → NoReturn (v ++ w)
NoReturn-append v w h k = All-append (λ c. (c == carriage_return) ≡ false) v w h k

unix_lines-NoReturn : (t : Text) → NoReturn t → unix_lines t ≡ t
unfolding unix_lines
unix_lines-NoReturn [] h = refl
unix_lines-NoReturn (c ∷ s) h = rw (h.0) (ap (◌∷◌ c) (unix_lines-NoReturn s h.1))

quoted-NoReturn :
    (b : Bool) (c : ℕ) (rest : Text)
    → (c == carriage_return) ≡ false
    → NoReturn rest
    → NoReturn (if b then quote ∷ quote ∷ rest else c ∷ rest)
quoted-NoReturn true c rest h k = (refl, (refl, k))
quoted-NoReturn false c rest h k = (h, k)

double_quotes-NoReturn : (v : Text) → NoReturn v → NoReturn (double_quotes v)
unfolding double_quotes
double_quotes-NoReturn [] h = tt
double_quotes-NoReturn (c ∷ v) h =
    quoted-NoReturn (c == quote) c _ h.0 (double_quotes-NoReturn v h.1)

escape-NoReturn : (v d : Text) → NoReturn v → NoReturn (escape_delimited_cell v d)
unfolding escape_delimited_cell
escape-NoReturn v d h = elim (Bool-cases (needs_quotes v d)) [
  | inl e ↦
      rw (e) (
        refl,
        NoReturn-append (double_quotes v) (quote ∷ []) (double_quotes-NoReturn v h) (refl, tt),
      )
  | inr e ↦ rw (e) h
]

join_texts-NoReturn :
    (sep : Text) (ts : List Text) → NoReturn sep → All NoReturn ts → NoReturn (join_texts sep ts)
unfolding join_texts
join_texts-NoReturn sep [] h k = tt
join_texts-NoReturn sep (t ∷ []) h k = k.0
join_texts-NoReturn sep (t ∷ u ∷ ts) h k =
    NoReturn-append t _ k.0 (NoReturn-append sep _ h (join_texts-NoReturn sep (u ∷ ts) h k.1))

escaped-NoReturn :
    (d : Text) (cells : List Text)
    → All NoReturn cells
    → All NoReturn (map (λ cell. escape_delimited_cell cell d) cells)
escaped-NoReturn d [] h = tt
escaped-NoReturn d (v ∷ cells) h = (escape-NoReturn v d h.0, escaped-NoReturn d cells h.1)

rows-NoReturn :
    (d : Text) (rows : List (List Text))
    → NoReturn d
    → All (All NoReturn) rows
    → All NoReturn (map (λ row. join_delimited row d) rows)
unfolding join_delimited
rows-NoReturn d [] n h = tt
rows-NoReturn d (row ∷ rows) n h =
    (join_texts-NoReturn d _ n (escaped-NoReturn d row h.0), rows-NoReturn d rows n h.1)

write_table-NoReturn :
    (d : Text) (rows : List (List Text))
    → NoReturn d
    → All (All NoReturn) rows
    → NoReturn (write_table d rows)
unfolding write_table
write_table-NoReturn d rows n h =
    join_texts-NoReturn (newline ∷ []) _ (refl, tt) (rows-NoReturn d rows n h)

-- A table of rows with one cell or more, and at least one row, is read back as it was written by a reader
-- that undoes quotes as RFC 4180 has it and ends a row at LF or CRLF, if no cell holds a carriage return
-- and the delimiter is one character, neither a quote nor a newline nor a carriage return. Cells may hold
-- delimiters, quotes and newlines.
pub read_table-write_table :
    (d : ℕ) (row : List Text) (rows : List (List Text))
    → IsDelimiter d
    → (d == carriage_return) ≡ false
    → All (λ r. has_cell r ≡ true) (row ∷ rows)
    → All (All NoReturn) (row ∷ rows)
    → read_table d (write_table (d ∷ []) (row ∷ rows)) ≡ row ∷ rows
unfolding read_table
read_table-write_table d row rows n c h r =
    ap (λ t. table_of (parse d start t))
      (unix_lines-NoReturn _ (write_table-NoReturn (d ∷ []) (row ∷ rows) (c, tt) r))
    ∙ table_of-write_table d row rows n h
