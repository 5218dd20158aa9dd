-- ===== src/Drafts/Untouched.antt =====
-- Rejecting, adjusting and splitting a draft leaves every row that is no draft as it is, whether
-- the handler succeeds or fails and whichever statement the engine refuses.
use clockr.Base.{
  ℕ, ◌≡◌, sym, ◌∙◌, true, false, Option, List, [], ◌∷◌, String, failed_precondition, arith,
  Bool-cases, inl, inr,
}
use clockr.GoTime.{Stamp, Location}
use clockr.Spans.{LocalSpan}
use clockr.Ledger.{M, Attestation, draft, is_draft, Row, is_row}
use clockr.Ledger.Keeps.{Keeps, Keeps-pure, Keeps-bind, Keeps-guard, Keeps-lift, Keeps-transaction}
use clockr.Ledger.Stays.{
  HasRow, HasRow-OfTables, Any, IsRead, Keeps-create, Keeps-update_attestation,
  Keeps-update_time_entry, Keeps-list_tz_segments, Keeps-get_period, Keeps-get,
}
use clockr.Ledger.View.{is_row_same}
use clockr.Entries.{TimeEntry, TimeEntryInput, time_entry_span, update_entry}
use clockr.Drafts.{
  create_pieces, replace, load_draft, reject_time_entry, time_entry_local_span,
  adjust_draft_time_entry, split_time_entry,
}

-- What is known of a draft that was read under a key: the key is not that of `r`.
abbrev pub IsOther : Row → ℕ → ℕ → Row → Type 0
IsOther r id pid x = (is_row id pid r ≡ false) × (is_row x.id x.period_id r ≡ false)

module _ (r : Row) (settled : is_draft r.attestation ≡ false) where
  draft-IsOther :
      (id pid : ℕ) (x : Row)
      → IsRead r id pid x
      → is_draft x.attestation ≡ true
      → IsOther r id pid x
  draft-IsOther id pid x (k, same) d = elim (Bool-cases (is_row id pid r)) [
    | inl yes' ↦ absurd (ground (arith, same yes', settled, d))
    | inr other ↦ (other, sym (is_row_same id pid x r k) ∙ other)
  ]

  pub Keeps-load_draft : (id pid : ℕ) → Keeps (HasRow r) (IsOther r id pid) (load_draft id pid)
  unfolding load_draft
  Keeps-load_draft id pid = Keeps-bind _ _ (Keeps-get r id pid) λ x read.
      Keeps-bind _ _ (Keeps-guard (is_draft x.attestation) failed_precondition)
        λ u d. Keeps-pure x (draft-IsOther id pid x read d)

  pub Keeps-create_pieces :
      (row : Row) (loc : Location) (a : Attestation) (pieces : List LocalSpan)
      → Keeps (HasRow r) Any (create_pieces row loc a pieces)
  unfolding create_pieces
  Keeps-create_pieces row loc a [] = Keeps-pure [] tt
  Keeps-create_pieces row loc a (p ∷ ps) =
      Keeps-bind _ _ (Keeps-create r _)
        λ x u. Keeps-bind _ _ (Keeps-create_pieces row loc a ps) λ out v. Keeps-pure _ tt

  pub Keeps-replace :
      (row : Row) (creates : M (List TimeEntry))
      → is_row row.id row.period_id r ≡ false
      → Keeps (HasRow r) Any creates
      → Keeps (HasRow r) Any (replace row creates)
  unfolding replace
  Keeps-replace row creates other k = Keeps-transaction _ _ (HasRow-OfTables r) _ (
      Keeps-bind _ _ k
        λ out u. Keeps-bind _ _ (Keeps-update_attestation r _ _ _ other) λ x v. Keeps-pure out tt)

  pub Keeps-reject : (id pid : ℕ) → Keeps (HasRow r) Any (reject_time_entry id pid)
  unfolding reject_time_entry
  Keeps-reject id pid = Keeps-bind _ _ (Keeps-guard _ _) λ _ _.
      Keeps-bind _ _ (Keeps-guard _ _) λ _ _.
        Keeps-bind _ _ (Keeps-load_draft id pid)
          λ x o. Keeps-bind _ _ (Keeps-update_attestation r _ _ _ o.0) λ y u. Keeps-pure _ tt

  pub Keeps-time_entry_local_span :
      (zones : String → Option Location) (row : Row)
      → Keeps (HasRow r) Any (time_entry_local_span zones row)
  unfolding time_entry_local_span
  Keeps-time_entry_local_span zones row = Keeps-bind _ _ (Keeps-lift _) λ start _.
      Keeps-bind _ _ (Keeps-lift _) λ end _.
        Keeps-bind _ _ (Keeps-list_tz_segments r _)
          λ segs _. Keeps-bind _ _ (Keeps-lift _) λ loc _. Keeps-pure _ tt

  pub Keeps-split :
      (zones : String → Option Location) (id pid : ℕ) (cuts : List Stamp)
      → Keeps (HasRow r) Any (split_time_entry zones id pid cuts)
  unfolding split_time_entry
  Keeps-split zones id pid cuts = Keeps-bind _ _ (Keeps-guard _ _) λ _ _.
      Keeps-bind _ _ (Keeps-guard _ _) λ _ _. Keeps-bind _ _ (Keeps-guard _ _) λ _ _.
        Keeps-bind _ _ (Keeps-load_draft id pid) λ x o.
          Keeps-bind _ _ (Keeps-time_entry_local_span zones x) λ s _.
            Keeps-bind _ _ (Keeps-lift _)
              λ cs _. Keeps-replace x _ o.1 (Keeps-create_pieces x s.loc draft _)

  pub Keeps-time_entry_span :
      (zones : String → Option Location) (input : TimeEntryInput)
      → Keeps (HasRow r) Any (time_entry_span zones input)
  unfolding time_entry_span
  Keeps-time_entry_span zones input = Keeps-bind _ _ (Keeps-guard _ _) λ _ _.
      Keeps-bind _ _ (Keeps-guard _ _) λ _ _. Keeps-bind _ _ (Keeps-guard _ _) λ _ _.
        Keeps-bind _ _ (Keeps-get_period r _) λ period _. Keeps-bind _ _ (Keeps-guard _ _) λ _ _.
          Keeps-bind _ _ (Keeps-guard _ _) λ _ _. Keeps-bind _ _ (Keeps-guard _ _) λ _ _.
            Keeps-bind _ _ (Keeps-guard _ _) λ _ _.
              Keeps-bind _ _ (Keeps-list_tz_segments r _)
                λ segs _. Keeps-bind _ _ (Keeps-lift _) λ loc _. Keeps-pure _ tt

  pub Keeps-update_entry :
      (zones : String → Option Location) (id : ℕ) (input : TimeEntryInput)
      → is_row id input.period_id r ≡ false
      → Keeps (HasRow r) Any (update_entry zones id input)
  unfolding update_entry
  Keeps-update_entry zones id input other = Keeps-bind _ _ (Keeps-guard _ _) λ _ _.
      Keeps-bind _ _ (Keeps-time_entry_span zones input) λ s _.
        Keeps-bind _ _ (Keeps-lift _) λ allocation _.
          Keeps-bind _ _ (Keeps-update_time_entry r _ _ _ other) λ row _. Keeps-pure _ tt

  pub Keeps-adjust :
      (zones : String → Option Location) (id : ℕ) (input : TimeEntryInput)
      → Keeps (HasRow r) Any (adjust_draft_time_entry zones id input)
  unfolding adjust_draft_time_entry
  Keeps-adjust zones id input = Keeps-bind _ _ (Keeps-guard _ _) λ _ _.
      Keeps-bind _ _ (Keeps-load_draft id input.period_id)
        λ x o. Keeps-update_entry zones id input o.0
