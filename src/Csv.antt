-- ===== src/Csv.antt =====
-- internal/service/export_tabular.go: how rows of cells are written, and a reader of what is written.
--
-- A text is the list of its characters' numbers.
pub mod Cells
pub mod Tables
pub mod Lines
use Prim.Native.Char.{code}
use Prim.Native.String.{String}
use clockr.Base.{ℕ, Bool, true, false, ◌&&◌, ◌||◌, List, [], ◌∷◌, ◌++◌, map, ◌==◌, if◌then◌else◌}

abbrev pub Text : Type 0
Text = List ℕ

abbrev pub codes : String → Text
codes String.[] = []
codes (String.◌∷◌ c s) = code c ∷ codes s

abbrev pub quote : ℕ
quote = 34

abbrev pub newline : ℕ
newline = 10

unfoldable pub is_prefix : Text → Text → Bool
is_prefix [] v = true
is_prefix (p ∷ ps) [] = false
is_prefix (p ∷ ps) (c ∷ v) = p == c && is_prefix ps v

-- strings.Contains(value, part)
unfoldable pub contains : Text → Text → Bool
unfolding is_prefix
contains [] part = is_prefix part []
contains (c ∷ v) part = is_prefix part (c ∷ v) || contains v part

-- strings.ReplaceAll(value, `"`, `""`)
unfoldable pub double_quotes : Text → Text
double_quotes [] = []
double_quotes (c ∷ v) =
    let rest = double_quotes v in if c == quote then quote ∷ quote ∷ rest else c ∷ rest

unfoldable pub needs_quotes : Text → Text → Bool
unfolding contains
needs_quotes value delimiter =
    contains value (quote ∷ []) || contains value (newline ∷ []) || contains value delimiter

unfoldable pub escape_delimited_cell : Text → Text → Text
unfolding needs_quotes double_quotes
escape_delimited_cell value delimiter =
    if needs_quotes value delimiter then quote ∷ double_quotes value ++ quote ∷ [] else value

-- strings.Join
unfoldable pub join_texts : Text → List Text → Text
join_texts sep [] = []
join_texts sep (s ∷ []) = s
join_texts sep (s ∷ t ∷ rest) = s ++ (sep ++ join_texts sep (t ∷ rest))

unfoldable pub join_delimited : List Text → Text → Text
unfolding join_texts escape_delimited_cell
join_delimited cells delimiter =
    join_texts delimiter (map (λ cell. escape_delimited_cell cell delimiter) cells)

-- The end of each renderer: the lines of the table.
unfoldable pub write_table : Text → List (List Text) → Text
unfolding join_delimited join_texts
write_table delimiter rows =
    join_texts (newline ∷ []) (map (λ row. join_delimited row delimiter) rows)

-- What a reader makes of a text: what is left of the cell at hand, of its row, and the rows after it.
pub record Parsed : Type 0 where
  pub cell : Text
  pub cells : List Text
  pub rows : List (List Text)

-- Where the reader stands: before a cell, inside one without or with quotes, or behind a quote in it.
pub data Mode : Type 0 where
  start plain quoted behind : Mode

abbrev pub nothing_left : Parsed
nothing_left = record { cell = []; cells = []; rows = [] }

abbrev pub add_char : ℕ → Parsed → Parsed
add_char c p = record p { cell = c ∷ p.cell }

abbrev pub end_cell : Parsed → Parsed
end_cell p = record { cell = []; cells = p.cell ∷ p.cells; rows = p.rows }

abbrev pub end_row : Parsed → Parsed
end_row p = record { cell = []; cells = []; rows = (p.cell ∷ p.cells) ∷ p.rows }

-- The cells of a text whose rows end at newlines, for the delimiter `d`; quotes are undone as RFC 4180 has it.
unfoldable pub parse : ℕ → Mode → Text → Parsed
parse d m [] = nothing_left
parse d quoted (c ∷ s) =
    let inside = parse d quoted s in
    let after = parse d behind s in if c == quote then after else add_char c inside
parse d start (c ∷ s) =
    let fresh = parse d start s in
    let inside = parse d plain s in
    let opened = parse d quoted s in
    if c == d
    then end_cell fresh
    else if c == newline
    then end_row fresh
    else if c == quote
    then opened
    else add_char c inside
parse d plain (c ∷ s) =
    let fresh = parse d start s in
    let inside = parse d plain s in
    if c == d then end_cell fresh else if c == newline then end_row fresh else add_char c inside
parse d behind (c ∷ s) =
    let fresh = parse d start s in
    let inside = parse d plain s in
    let reopened = parse d quoted s in
    if c == d
    then end_cell fresh
    else if c == newline
    then end_row fresh
    else if c == quote
    then add_char quote reopened
    else add_char c inside

abbrev pub carriage_return : ℕ
carriage_return = 13

abbrev pub ends_line : Text → Bool
ends_line [] = false
ends_line (c ∷ s) = c == newline

-- The text without the carriage returns that stand before a newline.
unfoldable pub unix_lines : Text → Text
unix_lines [] = []
unix_lines (c ∷ s) =
    let rest = unix_lines s in if c == carriage_return && ends_line s then rest else c ∷ rest

-- A reader that ends rows at a newline, with or without a carriage return before it.
unfoldable pub read_table : ℕ → Text → List (List Text)
unfolding parse unix_lines
read_table d text = let p = parse d start (unix_lines text) in (p.cell ∷ p.cells) ∷ p.rows
