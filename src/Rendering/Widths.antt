-- ===== src/Rendering/Widths.antt =====
-- How many cells the rows of a rendered table have.
use text.Mathlib.Text.{◌==◌ as str_eq}
use clockr.Base.{
  ℕ, suc, ◌+◌, ◌≡◌, refl, ap, ◌∙◌, String, true, false, not, ◌&&◌, List, [], ◌∷◌, ◌++◌, map, length,
  arith, All, All-append, if◌then◌else◌, Bool-cases, inl, inr,
}
use clockr.Tabular.{TabularColumnSpec, TabularTemplateSpec}
use clockr.Rendering.{
  ExportCategory, PeriodExportModel, ExportDayTotals, matrix_row, matrix_table, flat_rows,
  flat_rollup_table, detail_table, table_for, columns_where, is_total, minutes_per_day,
}

length-append : {A : Type 0} (xs ys : List A) → length (xs ++ ys) ≡ length xs + length ys
length-append [] ys = omega arith
length-append (x ∷ xs) ys = omega (arith, length-append xs ys)

length-map : {A B : Type 0} (f : A → B) (xs : List A) → length (map f xs) ≡ length xs
length-map f [] = refl
length-map f (x ∷ xs) = ap suc (length-map f xs)

-- Each of the rows has `n` cells.
abbrev pub HaveCells : ℕ → List (List String) → Type 0
HaveCells n = All (λ row. length row ≡ n)

map-HaveCells :
    {A : Type 0} (n : ℕ) (f : A → List String) (xs : List A)
    → ((x : A) → length (f x) ≡ n)
    → HaveCells n (map f xs)
map-HaveCells n f [] h = tt
map-HaveCells n f (x ∷ xs) h = (h x, map-HaveCells n f xs h)

-- Each column stands in one of the two parts.
length-columns_where :
    (cols : List TabularColumnSpec)
    → length (columns_where false cols) + length (columns_where true cols) ≡ length cols
unfolding columns_where
length-columns_where [] = refl
length-columns_where (col ∷ cols) = elim (Bool-cases (is_total col)) [
  | inl e ↦ rw (e) (omega (arith, length-columns_where cols))
  | inr e ↦ rw (e) (omega (arith, length-columns_where cols))
]

length-minutes_per_day :
    (identity : String) (days : List ExportDayTotals)
    → length (minutes_per_day identity days) ≡ length days
unfolding minutes_per_day
length-minutes_per_day identity [] = refl
length-minutes_per_day identity (day ∷ days) = ap suc (length-minutes_per_day identity days)

-- A row of three parts, of which the first and the last are the two parts of the columns.
length-row :
    (cols : List TabularColumnSpec) (f g : TabularColumnSpec → String) (middle : List String)
    → length (map f (columns_where false cols) ++ (middle ++ map g (columns_where true cols)))
      ≡ length cols + length middle
length-row cols f g middle = omega (
  arith,
  length-append (map f (columns_where false cols)) (middle ++ map g (columns_where true cols)),
  length-append middle (map g (columns_where true cols)),
  length-map f (columns_where false cols),
  length-map g (columns_where true cols),
  length-columns_where cols,
)

-- How many cells a row has: one for each column, and in a matrix one more for each day.
abbrev pub width : PeriodExportModel → TabularTemplateSpec → ℕ
width model spec =
    if not (str_eq spec.grain "detail") && str_eq spec.layout "matrix"
    then length spec.columns + length model.days
    else length spec.columns

module _ (decimal_hours : ℕ → String) where
  flat_rows-HaveCells :
      (cols : List TabularColumnSpec) (days : List ExportDayTotals)
      → HaveCells (length cols) (flat_rows decimal_hours cols days)
  unfolding flat_rows
  flat_rows-HaveCells cols [] = tt
  flat_rows-HaveCells cols (day ∷ days) =
      All-append (λ row. length row ≡ length cols) _ _
        (map-HaveCells _ _ day.categories (λ cat. length-map _ cols))
        (flat_rows-HaveCells cols days)

  module _ (model : PeriodExportModel) (spec : TabularTemplateSpec) where
    detail_table-HaveCells : HaveCells (length spec.columns) (detail_table decimal_hours model spec)
    unfolding detail_table
    detail_table-HaveCells =
        (length-map _ spec.columns, map-HaveCells _ _ _ (λ entry. length-map _ spec.columns))

    flat_rollup_table-HaveCells :
        HaveCells (length spec.columns) (flat_rollup_table decimal_hours model spec)
    unfolding flat_rollup_table
    flat_rollup_table-HaveCells =
        (length-map _ spec.columns, flat_rows-HaveCells spec.columns model.daily_totals)

    matrix_row-HaveCells :
        (cat : ExportCategory)
        → length (
            matrix_row decimal_hours
              (columns_where false spec.columns)
              (columns_where true spec.columns)
              model.daily_totals
              cat)
          ≡ length spec.columns + length model.daily_totals
    unfolding matrix_row
    matrix_row-HaveCells cat =
        length-row spec.columns _ _ _
        ∙ ap (λ n. length spec.columns + n)
            (length-map decimal_hours _ ∙ length-minutes_per_day _ model.daily_totals)

    matrix_table-HaveCells :
        length model.daily_totals ≡ length model.days
        → HaveCells
            (length spec.columns + length model.days)
            (matrix_table decimal_hours model spec)
    unfolding matrix_table
    matrix_table-HaveCells same = (
      length-row spec.columns _ _ model.days,
      map-HaveCells _ _ model.period_totals
          λ total. omega (arith, matrix_row-HaveCells total.category, same),
    )

  -- Whichever table a template asks for: the header and all rows have the same number of cells, one for
  -- each column of the template, and in a matrix one more for each day, if the model has totals for
  -- each of its days.
  pub table_for-HaveCells :
      (model : PeriodExportModel) (spec : TabularTemplateSpec)
      → length model.daily_totals ≡ length model.days
      → HaveCells (width model spec) (table_for decimal_hours model spec)
  unfolding table_for
  table_for-HaveCells model spec same = elim (Bool-cases (str_eq spec.grain "detail")) [
    | inl e ↦ rw (e) (detail_table-HaveCells model spec)
    | inr e ↦ elim (Bool-cases (str_eq spec.layout "matrix")) [
      | inl f ↦ rw (e, f) (matrix_table-HaveCells model spec same)
      | inr f ↦ rw (e, f) (flat_rollup_table-HaveCells model spec)
    ]
  ]
