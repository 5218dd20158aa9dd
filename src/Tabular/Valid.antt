-- ===== src/Tabular/Valid.antt =====
-- What a template that passes the validation is.
use text.Mathlib.Text.{◌==◌ as str_eq}
use clockr.Base.{◌≡◌, ◌↔◌, refl, String, true, false, List, [], ◌∷◌, arith, All}
use clockr.GoText.{trim_space, elem}
use clockr.Tabular.{TabularColumnSpec, validate_columns}

-- No field stands twice.
abbrev pub AllDistinct : List String → Type 0
AllDistinct [] = Unit
AllDistinct (x ∷ xs) = All (λ f. str_eq f x ≡ false) xs × AllDistinct xs

abbrev pub fields : List TabularColumnSpec → List String
fields [] = []
fields (c ∷ cs) = trim_space c.field ∷ fields cs

-- A field that is not empty and stands in the catalog.
abbrev pub IsField : List String → String → Type 0
IsField allowed f = (str_eq f "" ≡ false) × (elem f allowed ≡ true)

abbrev IsNew : List String → String → Type 0
IsNew seen f = elem f seen ≡ false

module _ (allowed : List String) where
  rest-IsNew :
      (x : String) (seen fs : List String)
      → All (IsNew (x ∷ seen)) fs
      → All (λ f. str_eq f x ≡ false) fs × All (IsNew seen) fs
  unfolding elem
  rest-IsNew x seen [] h = (tt, tt)
  rest-IsNew x seen (f ∷ fs) h =
      let r = rest-IsNew x seen fs h.1 in ((ground arith, r.0), (ground arith, r.1))

  cons-IsNew :
      (x : String) (seen fs : List String)
      → All (λ f. str_eq f x ≡ false) fs
      → All (IsNew seen) fs
      → All (IsNew (x ∷ seen)) fs
  unfolding elem
  cons-IsNew x seen [] h k = tt
  cons-IsNew x seen (f ∷ fs) h k = (ground arith, cons-IsNew x seen fs h.1 k.1)

  accepted :
      (seen : List String) (cols : List TabularColumnSpec)
      → validate_columns allowed seen cols ≡ true
      → All (IsField allowed) (fields cols)
        × AllDistinct (fields cols)
        × All (IsNew seen) (fields cols)
  unfolding validate_columns
  accepted seen [] h = (tt, tt, tt)
  accepted seen (c ∷ cs) h =
      let f = trim_space c.field in
      let (a, d, n) = accepted (f ∷ seen) cs (ground arith) in
      let r = rest-IsNew f seen (fields cs) n in
      (((ground arith, ground arith), a), (r.0, d), (ground arith, r.1))

  accepts :
      (seen : List String) (cols : List TabularColumnSpec)
      → All (IsField allowed) (fields cols)
      → AllDistinct (fields cols)
      → All (IsNew seen) (fields cols)
      → validate_columns allowed seen cols ≡ true
  unfolding validate_columns
  accepts seen [] a d n = refl
  accepts seen (c ∷ cs) a d n =
      let f = trim_space c.field in
      let ih = accepts (f ∷ seen) cs a.1 d.1 (cons-IsNew f seen (fields cs) d.0 n.1) in
      ground (arith, ih, a.0, n.0)

  All-IsNew : (fs : List String) → All (IsNew []) fs
  unfolding elem
  All-IsNew [] = tt
  All-IsNew (f ∷ fs) = (refl, All-IsNew fs)

  -- The loop over the columns accepts just the lists whose trimmed fields are not empty, stand in
  -- the catalog, and are pairwise different.
  pub validate_columns_iff :
      (cols : List TabularColumnSpec)
      → (validate_columns allowed [] cols ≡ true)
        ↔ (All (IsField allowed) (fields cols) × AllDistinct (fields cols))
  validate_columns_iff cols = (
    λ h. let r = accepted [] cols h in (r.0, r.1),
    λ h. accepts [] cols h.0 h.1 (All-IsNew (fields cols)),
  )
