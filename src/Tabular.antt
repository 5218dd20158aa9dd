-- ===== src/Tabular.antt =====
-- internal/service/export_tabular.go: the declarative templates of CSV and TSV exports.
--
-- A validation answers whether the source returns no error; the texts of its errors are not kept,
-- and neither are the labels and descriptions of the field catalog.
pub mod Valid
use text.Mathlib.Text.{◌==◌ as str_eq}
use clockr.Base.{
  ℕ, String, Bool, true, false, not, ◌&&◌, ◌||◌, Option, none, some, List, [], ◌∷◌, ◌++◌, map, ℤ,
  pos, negsuc, leb, if◌then◌else◌, any,
}
use clockr.GoText.{trim_space, elem}

pub record TabularColumnSpec : Type 0 where
  pub field : String
  pub header : String

pub record TabularTemplateSpec : Type 0 where
  pub version : ℤ
  pub grain : String
  pub layout : String
  pub delimiter : String
  pub columns : List TabularColumnSpec

abbrev column : String → String → TabularColumnSpec
column field header = record { field = field; header = header }

unfoldable pub default_columns : Bool → Bool → List TabularColumnSpec
default_columns true _ =
    column "start" "Start"
    ∷ column "end" "End"
    ∷ column "category_name" "Category"
    ∷ column "category_key" "Key"
    ∷ column "hours" "Hours"
    ∷ column "title" "Title"
    ∷ column "description" "Description"
    ∷ column "work_type" "Work type"
    ∷ column "project_name" "Project"
    ∷ column "project_key" "Project key"
    ∷ column "billable_status" "Billable"
    ∷ []
default_columns false true = column "category_name" "Category" ∷ column "total" "Total" ∷ []
default_columns false false =
    column "date" "Date"
    ∷ column "category_name" "Category"
    ∷ column "category_key" "Key"
    ∷ column "hours" "Hours"
    ∷ []

abbrev default_to : String → String → String
default_to d s = if str_eq s "" then d else s

unfoldable pub default_tabular_spec : String → String → TabularTemplateSpec
unfolding default_columns
default_tabular_spec grain layout =
    let g = default_to "rollup" (trim_space grain) in
    let l = if str_eq g "detail" then "flat" else default_to "flat" (trim_space layout) in
    record {
      version = pos 1;
      grain = g;
      layout = l;
      delimiter = ",";
      columns = default_columns (str_eq g "detail") (str_eq l "matrix");
    }

-- The fields of fieldCatalog.
unfoldable pub field_catalog : String → String → List String
field_catalog grain layout =
    if str_eq grain "detail"
    then "date" ∷ "start" ∷ "end" ∷ "category_name" ∷ "category_key" ∷ "hours" ∷ "minutes" ∷ "title"
      ∷ "description" ∷ "source" ∷ "work_type" ∷ "project_name" ∷ "project_key" ∷ "billable_status"
      ∷ []
    else if str_eq layout "matrix"
    then "category_name" ∷ "category_key" ∷ "total" ∷ []
    else "date" ∷ "category_name" ∷ "category_key" ∷ "hours" ∷ "minutes" ∷ "day_actual_hours"
      ∷ "day_target_hours" ∷ []

unfoldable pub validate_grain_layout : String → String → Bool
validate_grain_layout grain layout =
    (str_eq grain "rollup" || str_eq grain "detail")
    && (str_eq layout "matrix" || str_eq layout "flat")
    && not (str_eq grain "detail" && not (str_eq layout "flat"))

-- The loop over the columns: `seen` holds the fields of those before.
unfoldable pub validate_columns : List String → List String → List TabularColumnSpec → Bool
unfolding trim_space elem
validate_columns allowed seen [] = true
validate_columns allowed seen (col ∷ cols) =
    let field = trim_space col.field in
    not (str_eq field "")
    && elem field allowed
    && not (elem field seen)
    && validate_columns allowed (field ∷ seen) cols

abbrev is_row_label : TabularColumnSpec → Bool
is_row_label col = str_eq col.field "category_name" || str_eq col.field "category_key"

abbrev is_supported : ℤ → Bool
is_supported (pos n) = leb n 1
is_supported (negsuc n) = false

abbrev is_cons : List TabularColumnSpec → Bool
is_cons [] = false
is_cons (c ∷ cs) = true

unfoldable pub validate_tabular_spec : TabularTemplateSpec → Bool
unfolding validate_grain_layout validate_columns field_catalog
validate_tabular_spec spec =
    is_supported spec.version
    && validate_grain_layout spec.grain spec.layout
    && is_cons spec.columns
    && validate_columns (field_catalog spec.grain spec.layout) [] spec.columns
    && (not (str_eq spec.layout "matrix") || any is_row_label spec.columns)
    && elem spec.delimiter ("" ∷ "," ∷ "\t" ∷ [])

-- The cases of defaultFieldHeader.
abbrev headers : List (String × String)
headers =
    ("date", "Date")
    ∷ ("category_name", "Category")
    ∷ ("category_key", "Key")
    ∷ ("hours", "Hours")
    ∷ ("minutes", "Minutes")
    ∷ ("start", "Start")
    ∷ ("end", "End")
    ∷ ("title", "Title")
    ∷ ("description", "Description")
    ∷ ("source", "Source")
    ∷ ("work_type", "Work type")
    ∷ ("project_name", "Project")
    ∷ ("project_key", "Project key")
    ∷ ("billable_status", "Billable")
    ∷ ("day_actual_hours", "Day actual")
    ∷ ("day_target_hours", "Day target")
    ∷ ("total", "Total")
    ∷ []

unfoldable pub header_in : List (String × String) → String → String
header_in [] field = field
header_in ((name, header) ∷ rest) field = if str_eq field name then header else header_in rest field

unfoldable pub default_field_header : String → String
unfolding header_in
default_field_header field = header_in headers field

unfoldable pub normalize_column : TabularColumnSpec → TabularColumnSpec
unfolding default_field_header trim_space
normalize_column col = record {
  field = trim_space col.field;
  header = default_to (default_field_header col.field) (trim_space col.header);
}

abbrev normalize_version : ℤ → ℤ
normalize_version (pos n) = if leb n 0 then pos 1 else pos n
normalize_version (negsuc n) = negsuc n

unfoldable pub normalize_tabular_spec : TabularTemplateSpec → TabularTemplateSpec
unfolding normalize_column
normalize_tabular_spec spec = record spec {
  version = normalize_version spec.version;
  delimiter = default_to "," spec.delimiter;
  columns = map normalize_column spec.columns;
}
