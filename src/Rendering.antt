-- ===== src/Rendering.antt =====
-- internal/service/export_tabular.go: the tables that the exports of a period write, from the rollup of
-- export.go. Minutes are no negative numbers. `decimal_hours` is fmt.Sprintf("%.2f", minutes / 60).
pub mod Widths
use text.Mathlib.Text.{◌==◌ as str_eq, is_lt}
use Prim.Native.String.{compare, ◌++◌ as append}
use clockr.Base.{
  ℕ, ◌+◌, ◌/◌, ◌%◌, String, Bool, true, false, not, ◌&&◌, ◌||◌, List, [], ◌∷◌, ◌++◌, map, ltb, ◌==◌,
  if◌then◌else◌, sort_by,
}
use clockr.GoText.{sprint}
use clockr.Csv.{Text, codes, write_table}
use clockr.Tabular.{TabularColumnSpec, TabularTemplateSpec, normalize_tabular_spec}

-- The fields of ExportCategory that are rendered.
pub record ExportCategory : Type 0 where
  pub name : String
  pub key : String

pub record ExportEntry : Type 0 where
  pub source : String
  pub source_id : ℕ
  pub day : String
  pub start_minutes : ℕ
  pub end_minutes : ℕ
  pub minutes : ℕ
  pub title : String
  pub description : String
  pub category : ExportCategory
  pub work_type : String
  pub project_name : String
  pub project_key : String
  pub billable_status : String

pub record ExportCategoryMinutes : Type 0 where
  pub category : ExportCategory
  pub minutes : ℕ

pub record ExportDayTotals : Type 0 where
  pub date : String
  pub categories : List ExportCategoryMinutes
  pub actual_minutes : ℕ
  pub target_minutes : ℕ

-- The fields of PeriodExportModel that are rendered.
pub record PeriodExportModel : Type 0 where
  pub days : List String
  pub entries : List ExportEntry
  pub daily_totals : List ExportDayTotals
  pub period_totals : List ExportCategoryMinutes

unfoldable pub category_identity : ExportCategory → String
category_identity c = if str_eq c.key "" then c.name else c.key

-- %02d
abbrev two_digits : ℕ → String
two_digits n = if ltb n 10 then append "0" (sprint n) else sprint n

unfoldable pub export_entry_date_time : String → ℕ → String
unfolding sprint
export_entry_date_time day minutes =
    append day
      (append "T" (append (two_digits (minutes / 60)) (append ":" (two_digits (minutes % 60)))))

-- A switch on the name of a field: the value of the first case with the name, and "" in no case.
unfoldable pub field_in : List (String × String) → String → String
field_in [] field = ""
field_in ((name, value) ∷ rest) field = if str_eq field name then value else field_in rest field

-- The texts of a map's minutes per identity: a later entry overwrites an earlier one.
unfoldable pub day_minutes : String → ℕ → List ExportCategoryMinutes → ℕ
unfolding category_identity
day_minutes identity minutes [] = minutes
day_minutes identity minutes (c ∷ cs) =
    day_minutes identity
      (if str_eq (category_identity c.category) identity then c.minutes else minutes) cs

abbrev pub is_total : TabularColumnSpec → Bool
is_total col = str_eq col.field "total"

-- The loop that parts the columns of a matrix.
unfoldable pub columns_where : Bool → List TabularColumnSpec → List TabularColumnSpec
columns_where total [] = []
columns_where total (col ∷ cols) =
    let rest = columns_where total cols in
    if (is_total col && total) || (not (is_total col) && not total) then col ∷ rest else rest

unfoldable pub matrix_row_field : String → ExportCategory → String
unfolding category_identity field_in
matrix_row_field field cat =
    field_in (("category_name", cat.name) ∷ ("category_key", category_identity cat) ∷ []) field

-- The minutes of a category on each day.
unfoldable pub minutes_per_day : String → List ExportDayTotals → List ℕ
unfolding day_minutes
minutes_per_day identity [] = []
minutes_per_day identity (day ∷ days) =
    day_minutes identity 0 day.categories ∷ minutes_per_day identity days

unfoldable pub sum_of : List ℕ → ℕ
sum_of [] = 0
sum_of (n ∷ ns) = n + sum_of ns

-- sort.SliceStable's order of the entries: by day, start, source and id.
unfoldable pub entry_less : ExportEntry → ExportEntry → Bool
entry_less a b =
    if not (str_eq a.day b.day)
    then is_lt (compare a.day b.day)
    else if not (a.start_minutes == b.start_minutes)
    then ltb a.start_minutes b.start_minutes
    else if not (str_eq a.source b.source)
    then is_lt (compare a.source b.source)
    else ltb a.source_id b.source_id

abbrev headers_of : List TabularColumnSpec → List String
headers_of cols = map (λ col. col.header) cols

module _ (decimal_hours : ℕ → String) where
  unfoldable pub matrix_row :
      List TabularColumnSpec
      → List TabularColumnSpec
      → List ExportDayTotals
      → ExportCategory
      → List String
  unfolding matrix_row_field minutes_per_day sum_of category_identity
  matrix_row leading trailing days cat =
      let minutes = minutes_per_day (category_identity cat) days in
      map (λ col. matrix_row_field col.field cat) leading
      ++ (map decimal_hours minutes ++ map (λ col. decimal_hours (sum_of minutes)) trailing)

  unfoldable pub matrix_table : PeriodExportModel → TabularTemplateSpec → List (List String)
  unfolding columns_where matrix_row
  matrix_table model spec =
      let leading = columns_where false spec.columns in
      let trailing = columns_where true spec.columns in
      (headers_of leading ++ (model.days ++ headers_of trailing))
      ∷ map (λ total. matrix_row leading trailing model.daily_totals total.category)
          model.period_totals

  unfoldable pub flat_rollup_field : String → ExportDayTotals → ExportCategoryMinutes → String
  unfolding category_identity field_in sprint
  flat_rollup_field field day cat =
      field_in
        (("date", day.date)
          ∷ ("category_name", cat.category.name)
          ∷ ("category_key", category_identity cat.category)
          ∷ ("hours", decimal_hours cat.minutes)
          ∷ ("minutes", sprint cat.minutes)
          ∷ ("day_actual_hours", decimal_hours day.actual_minutes)
          ∷ ("day_target_hours", decimal_hours day.target_minutes)
          ∷ [])
        field

  -- The rows of the loop over the days and their categories.
  unfoldable pub flat_rows : List TabularColumnSpec → List ExportDayTotals → List (List String)
  unfolding flat_rollup_field
  flat_rows cols [] = []
  flat_rows cols (day ∷ days) =
      map (λ cat. map (λ col. flat_rollup_field col.field day cat) cols) day.categories
      ++ flat_rows cols days

  unfoldable pub flat_rollup_table : PeriodExportModel → TabularTemplateSpec → List (List String)
  unfolding flat_rows
  flat_rollup_table model spec = headers_of spec.columns ∷ flat_rows spec.columns model.daily_totals

  unfoldable pub detail_field : String → ExportEntry → String
  unfolding export_entry_date_time category_identity field_in sprint
  detail_field field entry =
      field_in
        (("date", entry.day)
          ∷ ("start", export_entry_date_time entry.day entry.start_minutes)
          ∷ ("end", export_entry_date_time entry.day entry.end_minutes)
          ∷ ("category_name", entry.category.name)
          ∷ ("category_key", category_identity entry.category)
          ∷ ("hours", decimal_hours entry.minutes)
          ∷ ("minutes", sprint entry.minutes)
          ∷ ("title", entry.title)
          ∷ ("description", entry.description)
          ∷ ("source", entry.source)
          ∷ ("work_type", entry.work_type)
          ∷ ("project_name", entry.project_name)
          ∷ ("project_key", entry.project_key)
          ∷ ("billable_status", entry.billable_status)
          ∷ [])
        field

  unfoldable pub detail_table : PeriodExportModel → TabularTemplateSpec → List (List String)
  unfolding detail_field entry_less
  detail_table model spec =
      headers_of spec.columns
      ∷ map (λ entry. map (λ col. detail_field col.field entry) spec.columns)
          (sort_by (λ a b. not (entry_less b a)) model.entries)

  -- The table of `renderTabular`'s switch, for a normalised specification.
  unfoldable pub table_for : PeriodExportModel → TabularTemplateSpec → List (List String)
  unfolding matrix_table flat_rollup_table detail_table
  table_for model spec =
      if str_eq spec.grain "detail"
      then detail_table model spec
      else if str_eq spec.layout "matrix"
      then matrix_table model spec
      else flat_rollup_table model spec

  unfoldable pub render_tabular : PeriodExportModel → TabularTemplateSpec → Text
  unfolding table_for normalize_tabular_spec write_table
  render_tabular model spec =
      let normal = normalize_tabular_spec spec in
      write_table (codes normal.delimiter) (map (map codes) (table_for model normal))
