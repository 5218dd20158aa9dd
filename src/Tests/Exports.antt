-- ===== src/Tests/Exports.antt =====
-- Exports of a small period, and what is read of them.
use Prim.Native.String.{String}
use clockr.Base.{All, ℕ, ◌≡◌, refl, [], ◌∷◌, pos, List}
use clockr.Csv.{codes, write_table, read_table}
use clockr.Csv.Lines.{NoReturn, read_table-write_table}
use clockr.Tabular.{TabularTemplateSpec}
use clockr.GoText.{sprint}
use clockr.Rendering.Widths.{HaveCells, width, table_for-HaveCells}
use clockr.Rendering.{
  PeriodExportModel, ExportCategory, table_for, matrix_table, columns_where, matrix_row,
  matrix_row_field, field_in, minutes_per_day, day_minutes, sum_of, category_identity,
}

abbrev comma : ℕ
comma = 44

abbrev tricky : List (List (List ℕ))
tricky = (codes "a,b" ∷ codes "say \"hi\"" ∷ []) ∷ (codes "" ∷ codes "two\nlines" ∷ []) ∷ []

no_returns : All (All NoReturn) tricky
no_returns = (
  (
    (refl, (refl, (refl, tt))),
    ((refl, (refl, (refl, (refl, (refl, (refl, (refl, (refl, tt)))))))), tt),
  ),
  ((tt, ((refl, (refl, (refl, (refl, (refl, (refl, (refl, (refl, (refl, tt))))))))), tt)), tt),
)

read_table-write_table_example : read_table comma (write_table (comma ∷ []) tricky) ≡ tricky
read_table-write_table_example =
    read_table-write_table comma (codes "a,b" ∷ codes "say \"hi\"" ∷ [])
      ((codes "" ∷ codes "two\nlines" ∷ []) ∷ []) (refl, refl) refl (refl, (refl, tt)) no_returns

abbrev design : ExportCategory
design = record { name = "Design, UX"; key = "" }

abbrev week : PeriodExportModel
week = record {
  days = "2026-01-05" ∷ "2026-01-06" ∷ [];
  entries = [];
  daily_totals =
      record {
        date = "2026-01-05";
        categories = record { category = design; minutes = 90 } ∷ [];
        actual_minutes = 90;
        target_minutes = 480;
      }
      ∷ record { date = "2026-01-06"; categories = []; actual_minutes = 0; target_minutes = 480 }
      ∷ [];
  period_totals = record { category = design; minutes = 90 } ∷ [];
}

abbrev matrix : TabularTemplateSpec
matrix = record {
  version = pos 1;
  grain = "rollup";
  layout = "matrix";
  delimiter = ",";
  columns =
      record { field = "category_name"; header = "Category" }
      ∷ record { field = "total"; header = "Total" }
      ∷ [];
}

-- The minutes stand in for the decimal hours.
abbrev minutes_text : ℕ → String
minutes_text n = sprint n

week_table :
    matrix_table minutes_text week matrix
    ≡ ("Category" ∷ "2026-01-05" ∷ "2026-01-06" ∷ "Total" ∷ [])
      ∷ ("Design, UX" ∷ "90" ∷ "0" ∷ "90" ∷ [])
      ∷ []
unfolding matrix_table columns_where matrix_row matrix_row_field field_in minutes_per_day
    day_minutes sum_of category_identity sprint
week_table = refl

table_for-HaveCells_example : HaveCells (width week matrix) (table_for minutes_text week matrix)
table_for-HaveCells_example = table_for-HaveCells minutes_text week matrix refl
