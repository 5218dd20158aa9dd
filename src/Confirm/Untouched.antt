-- ===== src/Confirm/Untouched.antt =====
-- Confirming a draft leaves every row that is no draft as it is, unless the user chose `keep_mine`.
use clockr.Base.{ℕ, ◌≡◌, ◌≢◌, refl, Bool, true, false, Option, List, [], ◌∷◌, String}
use clockr.GoTime.{Location}
use clockr.Spans.{LocalSpan}
use clockr.Ledger.{confirmed, is_draft, Row, is_row}
use clockr.Ledger.Keeps.{Keeps, Keeps-pure, Keeps-fail, Keeps-bind, Keeps-guard, Keeps-lift}
use clockr.Ledger.Stays.{HasRow, Any, Keeps-update_attestation, Keeps-list}
use clockr.Drafts.{RowSpan}
use clockr.Drafts.Untouched.{
  IsOther, Keeps-load_draft, Keeps-create_pieces, Keeps-replace, Keeps-time_entry_local_span,
}
use clockr.Confirm.{
  OvernightPolicy, OverlapResolution, ConfirmTimeEntryInput, attribute_to_start, split_at_midnight,
  allow_parallel, keep_theirs, keep_mine, split, create_remainders, confirm_remainders, dismiss,
  confirm_draft_around_overlaps, confirm_in_place, confirm_split_at_midnight, confirm_overnight,
  confirm_span, overlapping_confirmed, resolve_overlaps, confirm_time_entry,
}

module _ (r : Row) (settled : is_draft r.attestation ≡ false) where
  Keeps-create_remainders :
      (row : Row) (loc : Location) (policy : OvernightPolicy) (rems : List LocalSpan)
      → Keeps (HasRow r) Any (create_remainders row loc policy rems)
  unfolding create_remainders
  Keeps-create_remainders row loc policy [] = Keeps-pure [] tt
  Keeps-create_remainders row loc policy (x ∷ xs) = Keeps-bind _ _ (Keeps-lift _) λ pieces _.
      Keeps-bind _ _ (Keeps-create_pieces r settled row loc confirmed pieces) λ out _.
        Keeps-bind _ _ (Keeps-create_remainders row loc policy xs) λ rest _. Keeps-pure _ tt

  Keeps-dismiss :
      (row : Row) → is_row row.id row.period_id r ≡ false → Keeps (HasRow r) Any (dismiss row)
  unfolding dismiss
  Keeps-dismiss row o = Keeps-bind _ _ (Keeps-update_attestation r _ _ _ o) λ x _. Keeps-pure [] tt

  Keeps-confirm_remainders :
      (row : Row) (loc : Location) (policy : OvernightPolicy) (rems : List LocalSpan)
      → is_row row.id row.period_id r ≡ false
      → Keeps (HasRow r) Any (confirm_remainders row loc policy rems)
  unfolding confirm_remainders
  Keeps-confirm_remainders row loc policy [] o = Keeps-dismiss row o
  Keeps-confirm_remainders row loc policy (x ∷ xs) o =
      Keeps-bind _ _ (Keeps-guard _ _)
        λ _ _. Keeps-replace r settled row _ o (Keeps-create_remainders row loc policy (x ∷ xs))

  Keeps-around :
      (row : Row) (s : RowSpan) (overlaps : List Row) (policy : OvernightPolicy)
      → is_row row.id row.period_id r ≡ false
      → Keeps (HasRow r) Any (confirm_draft_around_overlaps row s overlaps policy)
  unfolding confirm_draft_around_overlaps
  Keeps-around row s overlaps policy o =
      Keeps-bind _ _ (Keeps-lift _) λ rems _. Keeps-confirm_remainders row s.loc policy rems o

  Keeps-in_place :
      (input : ConfirmTimeEntryInput)
      → is_row input.id input.period_id r ≡ false
      → Keeps (HasRow r) Any (confirm_in_place input)
  unfolding confirm_in_place
  Keeps-in_place input o =
      Keeps-bind _ _ (Keeps-update_attestation r _ _ _ o) λ x _. Keeps-pure _ tt

  Keeps-split_at_midnight :
      (row : Row) (s : RowSpan)
      → is_row row.id row.period_id r ≡ false
      → Keeps (HasRow r) Any (confirm_split_at_midnight row s)
  unfolding confirm_split_at_midnight
  Keeps-split_at_midnight row s o = Keeps-bind _ _ (Keeps-lift _) λ pieces _.
      Keeps-bind _ _ (Keeps-guard _ _) λ _ _.
        Keeps-replace r settled row _ o (Keeps-create_pieces r settled row s.loc confirmed pieces)

  Keeps-overnight :
      (crosses : Bool) (input : ConfirmTimeEntryInput) (row : Row) (s : RowSpan)
      (policy : OvernightPolicy)
      → IsOther r input.id input.period_id row
      → Keeps (HasRow r) Any (confirm_overnight crosses input row s policy)
  unfolding confirm_overnight
  Keeps-overnight true input row s attribute_to_start o = Keeps-in_place input o.0
  Keeps-overnight true input row s split_at_midnight o = Keeps-split_at_midnight row s o.1
  Keeps-overnight true input row s OvernightPolicy.unset o = Keeps-fail _
  Keeps-overnight true input row s (OvernightPolicy.unknown text) o = Keeps-fail _
  Keeps-overnight false input row s OvernightPolicy.unset o = Keeps-in_place input o.0
  Keeps-overnight false input row s _ o = Keeps-fail _

  Keeps-confirm_span :
      (input : ConfirmTimeEntryInput) (row : Row) (s : RowSpan)
      → IsOther r input.id input.period_id row
      → Keeps (HasRow r) Any (confirm_span input row s)
  unfolding confirm_span
  Keeps-confirm_span input row s o = Keeps-overnight _ input row s _ o

  Keeps-resolve :
      (input : ConfirmTimeEntryInput) (row : Row) (s : RowSpan) (overlaps : List Row)
      (resolution : OverlapResolution)
      → resolution ≢ keep_mine
      → IsOther r input.id input.period_id row
      → Keeps (HasRow r) Any (resolve_overlaps input row s overlaps resolution)
  unfolding resolve_overlaps
  Keeps-resolve input row s [] OverlapResolution.unset ne o = Keeps-confirm_span input row s o
  Keeps-resolve input row s [] _ ne o = Keeps-fail _
  Keeps-resolve input row s (x ∷ xs) allow_parallel ne o = Keeps-confirm_span input row s o
  Keeps-resolve input row s (x ∷ xs) keep_theirs ne o = Keeps-dismiss row o.1
  Keeps-resolve input row s (x ∷ xs) keep_mine ne o = absurd (ne refl)
  Keeps-resolve input row s (x ∷ xs) split ne o = Keeps-around row s (x ∷ xs) _ o.1
  Keeps-resolve input row s (x ∷ xs) OverlapResolution.unset ne o = Keeps-fail _
  Keeps-resolve input row s (x ∷ xs) (OverlapResolution.unknown text) ne o = Keeps-fail _

  Keeps-overlapping :
      (pid id start end : ℕ) → Keeps (HasRow r) Any (overlapping_confirmed pid id start end)
  unfolding overlapping_confirmed
  Keeps-overlapping pid id start end = Keeps-bind _ _ (Keeps-list r pid) λ rows _. Keeps-pure _ tt

  pub Keeps-confirm :
      (zones : String → Option Location) (input : ConfirmTimeEntryInput)
      → input.overlap_resolution ≢ keep_mine
      → Keeps (HasRow r) Any (confirm_time_entry zones input)
  unfolding confirm_time_entry
  Keeps-confirm zones input ne = Keeps-bind _ _ (Keeps-guard _ _) λ _ _.
      Keeps-bind _ _ (Keeps-guard _ _) λ _ _.
        Keeps-bind _ _ (Keeps-load_draft r settled input.id input.period_id) λ row o.
          Keeps-bind _ _ (Keeps-time_entry_local_span r settled zones row) λ s _.
            Keeps-bind _ _ (Keeps-overlapping _ _ _ _)
              λ overlaps _. Keeps-resolve input row s overlaps _ ne o
