-- ===== src/Csv/Cells.antt =====
-- A cell that was escaped is read back.
use mathlib.Core.List.{append_assoc}
use clockr.Base.{
  ℕ, ◌≡◌, refl, ap, ◌∙◌, sym, Bool, true, false, ◌||◌, [], ◌∷◌, ◌++◌, arith, ◌==◌, Bool-cases, inl,
  inr, ==_iff,
}
use clockr.Csv.{
  Text, quote, newline, is_prefix, contains, double_quotes, needs_quotes, escape_delimited_cell,
  Parsed, start, plain, quoted, behind, add_char, parse,
}

-- A text in front of the cell at hand.
abbrev pub prepend : Text → Parsed → Parsed
prepend v p = record p { cell = v ++ p.cell }

-- What may stand behind a cell: the end, or a delimiter or a newline.
abbrev pub ends_cell : ℕ → Text → Bool
ends_cell d [] = true
ends_cell d (c ∷ s) = c == d || c == newline

contains-cons :
    (c : ℕ) (v : Text) (x : ℕ) → contains (c ∷ v) (x ∷ []) ≡ (x == c || contains v (x ∷ []))
unfolding contains is_prefix
contains-cons c v x = ground arith

-- Behind a cell every mode but `quoted` reads on alike.
parse-behind : (d : ℕ) (r : Text) → ends_cell d r ≡ true → parse d behind r ≡ parse d start r
unfolding parse
parse-behind d [] h = refl
parse-behind d (c ∷ s) h = ground arith

parse-plain_end : (d : ℕ) (r : Text) → ends_cell d r ≡ true → parse d plain r ≡ parse d start r
unfolding parse
parse-plain_end d [] h = refl
parse-plain_end d (c ∷ s) h = ground arith

parse-plain :
    (d : ℕ) (v r : Text)
    → contains v (newline ∷ []) ≡ false
    → contains v (d ∷ []) ≡ false
    → parse d plain (v ++ r) ≡ prepend v (parse d plain r)
unfolding parse
parse-plain d [] r n m = refl
parse-plain d (c ∷ v) r n m = ground (
  arith,
  contains-cons c v newline,
  contains-cons c v d,
  λ (a : contains v (newline ∷ []) ≡ false) (b : contains v (d ∷ []) ≡ false).
      parse-plain d v r a b,
)

parse-doubled :
    (d : ℕ) (s : Text)
    → (quote == d) ≡ false
    → parse d quoted (quote ∷ quote ∷ s) ≡ add_char quote (parse d quoted s)
unfolding parse
parse-doubled d s n = rw (n) refl

double_quotes-eq : (v : Text) → double_quotes (quote ∷ v) ≡ quote ∷ quote ∷ double_quotes v
unfolding double_quotes
double_quotes-eq v = refl

double_quotes-other :
    (c : ℕ) (v : Text) → (c == quote) ≡ false → double_quotes (c ∷ v) ≡ c ∷ double_quotes v
unfolding double_quotes
double_quotes-other c v n = rw (n) refl

parse-inside :
    (d c : ℕ) (s : Text)
    → (c == quote) ≡ false
    → parse d quoted (c ∷ s) ≡ add_char c (parse d quoted s)
unfolding parse
parse-inside d c s n = rw (n) refl

pub parse-closed :
    (d : ℕ) (v r : Text)
    → (quote == d) ≡ false
    → parse d quoted (double_quotes v ++ quote ∷ r) ≡ prepend v (parse d behind r)
unfolding parse double_quotes
parse-closed d [] r n = refl
parse-closed d (c ∷ v) r n = elim (Bool-cases (c == quote)) [
  | inl e ↦
      let same : c ≡ quote = (==_iff c quote).0 e in
      ap (λ x. parse d quoted (double_quotes (x ∷ v) ++ quote ∷ r)) same
      ∙ parse-doubled d (double_quotes v ++ quote ∷ r) n
      ∙ ap (add_char quote) (parse-closed d v r n)
      ∙ ap (λ x. prepend (x ∷ v) (parse d behind r)) (sym same)
  | inr e ↦
      ap (λ x. parse d quoted (x ++ quote ∷ r)) (double_quotes-other c v e)
      ∙ parse-inside d c (double_quotes v ++ quote ∷ r) e
      ∙ ap (add_char c) (parse-closed d v r n)
]

-- A delimiter that is neither a quote nor the end of a line.
abbrev pub IsDelimiter : ℕ → Type 0
IsDelimiter d = ((quote == d) ≡ false) × ((newline == d) ≡ false)

-- What no quotes are needed for.
record IsPlain (d : ℕ) (v : Text) : Type 0 where
  no_quote : contains v (quote ∷ []) ≡ false
  no_newline : contains v (newline ∷ []) ≡ false
  no_delimiter : contains v (d ∷ []) ≡ false

needs_quotes-IsPlain : (d : ℕ) (v : Text) → needs_quotes v (d ∷ []) ≡ false → IsPlain d v
unfolding needs_quotes
needs_quotes-IsPlain d v h = record {
  no_quote = ground (arith, h);
  no_newline = ground (arith, h);
  no_delimiter = ground (arith, h);
}

parse-start_plain :
    (d : ℕ) (v r : Text)
    → ends_cell d r ≡ true
    → IsPlain d v
    → parse d start (v ++ r) ≡ prepend v (parse d start r)
unfolding parse
parse-start_plain d [] r e p = refl
parse-start_plain d (c ∷ v) r e p = ground (
  arith,
  p.no_quote,
  p.no_newline,
  p.no_delimiter,
  contains-cons c v quote,
  contains-cons c v newline,
  contains-cons c v d,
  λ (a : contains v (newline ∷ []) ≡ false) (b : contains v (d ∷ []) ≡ false).
      parse-plain d v r a b,
  parse-plain_end d r e,
)

parse-open :
    (d : ℕ) (s : Text) → (quote == d) ≡ false → parse d start (quote ∷ s) ≡ parse d quoted s
unfolding parse
parse-open d s n = rw (n) refl

escape-quoted :
    (d : ℕ) (v r : Text)
    → needs_quotes v (d ∷ []) ≡ true
    → escape_delimited_cell v (d ∷ []) ++ r ≡ quote ∷ (double_quotes v ++ quote ∷ r)
unfolding escape_delimited_cell
escape-quoted d v r h = rw (h) (ap (λ s. quote ∷ s) (append_assoc (double_quotes v) (quote ∷ []) r))

escape-plain :
    (d : ℕ) (v : Text) → needs_quotes v (d ∷ []) ≡ false → escape_delimited_cell v (d ∷ []) ≡ v
unfolding escape_delimited_cell
escape-plain d v h = rw (h) refl

-- A cell is read back, whatever it holds, and the reader goes on behind it.
pub parse-escape_delimited_cell :
    (d : ℕ) (v r : Text)
    → IsDelimiter d
    → ends_cell d r ≡ true
    → parse d start (escape_delimited_cell v (d ∷ []) ++ r) ≡ prepend v (parse d start r)
parse-escape_delimited_cell d v r n e = elim (Bool-cases (needs_quotes v (d ∷ []))) [
  | inl h ↦
      ap (parse d start) (escape-quoted d v r h)
      ∙ parse-open d (double_quotes v ++ quote ∷ r) n.0
      ∙ parse-closed d v r n.0
      ∙ ap (prepend v) (parse-behind d r e)
  | inr h ↦
      ap (λ x. parse d start (x ++ r)) (escape-plain d v h)
      ∙ parse-start_plain d v r e (needs_quotes-IsPlain d v h)
]
