-- ===== src/Confirm/Overlaps.antt =====
-- What is left of a draft when the confirmed entries that overlap it are cut out.
use clockr.Base.{
  ℕ, ◌≡◌, refl, ◌∙◌, ap, Bool, true, false, not, ◌&&◌, ◌||◌, Option, none, some, List, [], ◌∷◌,
  ◌++◌, ok, arith, ◌==◌, if◌then◌else◌, keep, Bool-cases, inl, inr,
}
use clockr.GoTime.{parse_stamp}
use clockr.Gaps.{Interval, span}
use clockr.Gaps.Points.{within, covered, covered-append}
use clockr.Spans.{LocalSpan, subtract_interval}
use clockr.Spans.Cut.{covered-subtract_interval}
use clockr.Ledger.{Row, is_confirmed}
use clockr.Confirm.{is_overlap, cut_rows}

-- The span of two texts, if both parse.
abbrev pub text_span : Option ℕ → Option ℕ → List Interval
text_span (some s) (some e) = span s e ∷ []
text_span _ _ = []

abbrev pub is_other : ℕ → Row → Bool
is_other id r = not (r.id == id || not (is_confirmed r.attestation))

abbrev pub other_span : ℕ → Row → List Interval
other_span id r =
    if is_other id r
    then text_span (parse_stamp r.start_instant) (parse_stamp r.end_instant)
    else []

-- The spans of the confirmed rows other than `id`.
abbrev pub confirmed_spans : ℕ → List Row → List Interval
confirmed_spans id [] = []
confirmed_spans id (r ∷ rs) = other_span id r ++ confirmed_spans id rs

-- A row that does not overlap the draft covers none of its instants.
no_overlap :
    (id start end : ℕ) (r : Row) (t : ℕ)
    → is_overlap id start end r ≡ false
    → within (span start end) t ≡ true
    → covered (other_span id r) t ≡ false
unfolding is_overlap
no_overlap id start end r t h w = ground arith

abbrev Cuts : List LocalSpan → List Row → (ℕ → Bool) → Type 0
Cuts spans rows free =
    (out : List LocalSpan) × (cut_rows spans rows ≡ ok out)
    × ((t : ℕ) → covered out t ≡ (covered spans t && free t))

-- One row that overlaps the draft: it parses, and is cut out.
cut_overlap :
    (id start end : ℕ) (r : Row) (spans : List LocalSpan)
    → is_overlap id start end r ≡ true
    → (cs : ℕ) × (ce : ℕ) × (parse_stamp r.start_instant ≡ some cs)
      × (parse_stamp r.end_instant ≡ some ce)
      × (other_span id r ≡ span cs ce ∷ [])
unfolding is_overlap
cut_overlap id start end r spans h =
    go (parse_stamp r.start_instant) (parse_stamp r.end_instant) refl refl
  where
    go :
        (a b : Option ℕ)
        → parse_stamp r.start_instant ≡ a
        → parse_stamp r.end_instant ≡ b
        → (cs : ℕ) × (ce : ℕ) × (parse_stamp r.start_instant ≡ some cs)
          × (parse_stamp r.end_instant ≡ some ce)
          × (other_span id r ≡ span cs ce ∷ [])
    go (some cs) (some ce) p q = (cs, ce, p, q, ground arith)
    go none b p q = absurd (ground arith)
    go (some cs) none p q = absurd (ground arith)

cut_first :
    (spans : List LocalSpan) (r : Row) (rs : List Row) (cs ce : ℕ)
    → parse_stamp r.start_instant ≡ some cs
    → parse_stamp r.end_instant ≡ some ce
    → cut_rows spans (r ∷ rs) ≡ cut_rows (subtract_interval spans cs ce) rs
cut_first spans r rs cs ce p q = ground arith

keep_first :
    (f : Row → Bool) (r : Row) (rs : List Row)
    → (f r ≡ true → keep f (r ∷ rs) ≡ r ∷ keep f rs) × (f r ≡ false → keep f (r ∷ rs) ≡ keep f rs)
unfolding keep
keep_first f r rs = ground arith

free_of_cut :
    (id : ℕ) (r : Row) (rs : List Row) (spans : List LocalSpan) (cs ce t : ℕ)
    → other_span id r ≡ span cs ce ∷ []
    → (covered (subtract_interval spans cs ce) t && not (covered (confirmed_spans id rs) t))
      ≡ (covered spans t && not (covered (confirmed_spans id (r ∷ rs)) t))
free_of_cut id r rs spans cs ce t o = ground (
  arith,
  ap (λ l. covered (l ++ confirmed_spans id rs) t) o,
  covered-append (span cs ce ∷ []) (confirmed_spans id rs) t,
  covered-subtract_interval spans cs ce t,
)

free_of_rest :
    (id start end : ℕ) (r : Row) (rs : List Row) (spans : List LocalSpan) (t : ℕ)
    → is_overlap id start end r ≡ false
    → (covered spans t ≡ true → within (span start end) t ≡ true)
    → (covered spans t && not (covered (confirmed_spans id rs) t))
      ≡ (covered spans t && not (covered (confirmed_spans id (r ∷ rs)) t))
free_of_rest id start end r rs spans t n h = ground (
  arith,
  h,
  covered-append (other_span id r) (confirmed_spans id rs) t,
  no_overlap id start end r t n,
)

-- Cutting the overlapping rows out of spans that lie inside the draft always succeeds, and leaves
-- the instants that no confirmed row but `id` covers.
pub cut_rows-free :
    (id start end : ℕ) (rows : List Row) (spans : List LocalSpan)
    → ((t : ℕ) → covered spans t ≡ true → within (span start end) t ≡ true)
    → Cuts spans
        (keep (is_overlap id start end) rows)
        (λ t. not (covered (confirmed_spans id rows) t))
unfolding keep
cut_rows-free id start end [] spans h = (spans, refl, λ t. ground arith)
cut_rows-free id start end (r ∷ rs) spans h = elim (Bool-cases (is_overlap id start end r)) [
  | inl y ↦
      let (cs, ce, p, q, o) = cut_overlap id start end r spans y in
      let (out, e, c) =
        cut_rows-free id start end rs (subtract_interval spans cs ce)
          (λ t w. h t (ground (arith, covered-subtract_interval spans cs ce t))) in
      (
        out,
        ap (cut_rows spans) ((keep_first (is_overlap id start end) r rs).0 y)
            ∙ cut_first spans r (keep (is_overlap id start end) rs) cs ce p q
            ∙ e,
        λ t. c t ∙ free_of_cut id r rs spans cs ce t o,
      )
  | inr n ↦
      let (out, e, c) = cut_rows-free id start end rs spans h in
      (
        out,
        ap (cut_rows spans) ((keep_first (is_overlap id start end) r rs).1 n) ∙ e,
        λ t. c t ∙ free_of_rest id start end r rs spans t n (h t),
      )
]

-- For every list of rows: cutting the rows that overlap a draft out of its span succeeds, and what
-- remains are the instants of the draft that no other confirmed row covers.
pub remainders_free :
    (id start end : ℕ) (rows : List Row)
    → (out : List LocalSpan) × (cut_rows (span start end ∷ []) (keep (is_overlap id start end) rows)
        ≡ ok out)
      × ((t : ℕ)
          → covered out t
            ≡ (within (span start end) t && not (covered (confirmed_spans id rows) t)))
remainders_free id start end rows =
    let (out, e, c) = cut_rows-free id start end rows (span start end ∷ []) (λ t w. ground arith) in
    (out, e, λ t. ground (arith, c t))
