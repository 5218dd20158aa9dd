-- ===== src/Tests/Templates.antt =====
-- The validation of templates on concrete columns.
use clockr.Base.{◌≡◌, ◌↔◌, refl, true, false, List, [], ◌∷◌, All, any}
use clockr.GoText.{trim_space, elem}
use clockr.Tabular.{
  TabularColumnSpec, TabularTemplateSpec, default_tabular_spec, field_catalog, validate_columns,
  validate_tabular_spec, normalize_tabular_spec,
}
use clockr.Tabular.Valid.{IsField, AllDistinct, fields, validate_columns_iff}

abbrev columns : List TabularColumnSpec
columns = record { field = " date "; header = "" } ∷ record { field = "hours"; header = "h" } ∷ []

validate_columns_iff_example :
    (validate_columns (field_catalog "rollup" "flat") [] columns ≡ true) ↔ (
      All (IsField (field_catalog "rollup" "flat")) (fields columns) × AllDistinct (fields columns))
validate_columns_iff_example = validate_columns_iff (field_catalog "rollup" "flat") columns

default-flat : validate_tabular_spec (default_tabular_spec "" "") ≡ true
unfolding default_tabular_spec validate_tabular_spec trim_space elem any
default-flat = refl

default-matrix : validate_tabular_spec (default_tabular_spec "rollup" " matrix") ≡ true
unfolding default_tabular_spec validate_tabular_spec trim_space elem any
default-matrix = refl

default-detail : validate_tabular_spec (default_tabular_spec "detail" "matrix") ≡ true
unfolding default_tabular_spec validate_tabular_spec trim_space elem any
default-detail = refl

-- The label of a matrix is looked for by the text that is not trimmed.
abbrev untrimmed : TabularTemplateSpec
untrimmed = record (default_tabular_spec "rollup" "matrix") {
  columns = record { field = " category_name"; header = "" } ∷ [];
}

untrimmed-refused : validate_tabular_spec untrimmed ≡ false
unfolding default_tabular_spec validate_tabular_spec trim_space elem any
untrimmed-refused = refl

normalized-accepted : validate_tabular_spec (normalize_tabular_spec untrimmed) ≡ true
unfolding default_tabular_spec validate_tabular_spec trim_space elem any normalize_tabular_spec
normalized-accepted = refl
