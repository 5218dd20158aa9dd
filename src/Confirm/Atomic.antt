-- ===== src/Confirm/Atomic.antt =====
-- Confirming a draft with any resolution but `keep_mine` changes nothing when it fails. With `keep_mine`
-- the deletes stand outside of any transaction.
use clockr.Base.{ℕ, ◌≢◌, refl, Bool, true, false, Option, List, [], ◌∷◌, String}
use clockr.GoTime.{Location}
use clockr.Spans.{LocalSpan}
use clockr.Ledger.{Row}
use clockr.Ledger.Atomic.{
  OnlyReads, IsAtomic, IsAtomic-bind, IsAtomic-last, IsAtomic-fail, IsAtomic-update_attestation,
  OnlyReads-bind, OnlyReads-pure, OnlyReads-guard, OnlyReads-lift, OnlyReads-list,
}
use clockr.Drafts.{RowSpan}
use clockr.Drafts.Atomic.{OnlyReads-load_draft, OnlyReads-time_entry_local_span, IsAtomic-replace}
use clockr.Confirm.{
  OvernightPolicy, OverlapResolution, ConfirmTimeEntryInput, attribute_to_start, split_at_midnight,
  allow_parallel, keep_theirs, keep_mine, split, confirm_remainders, dismiss,
  confirm_draft_around_overlaps, confirm_in_place, confirm_split_at_midnight, confirm_overnight,
  confirm_span, overlapping_confirmed, resolve_overlaps, confirm_time_entry,
}

IsAtomic-dismiss : (row : Row) → IsAtomic (dismiss row)
unfolding dismiss
IsAtomic-dismiss row = IsAtomic-last _ _ (IsAtomic-update_attestation _ _ _)

IsAtomic-remainders :
    (row : Row) (loc : Location) (policy : OvernightPolicy) (rems : List LocalSpan)
    → IsAtomic (confirm_remainders row loc policy rems)
unfolding confirm_remainders
IsAtomic-remainders row loc policy [] = IsAtomic-dismiss row
IsAtomic-remainders row loc policy (x ∷ xs) =
    IsAtomic-bind _ _ (OnlyReads-guard _ _) λ _. IsAtomic-replace row _

IsAtomic-around :
    (row : Row) (s : RowSpan) (overlaps : List Row) (policy : OvernightPolicy)
    → IsAtomic (confirm_draft_around_overlaps row s overlaps policy)
unfolding confirm_draft_around_overlaps
IsAtomic-around row s overlaps policy =
    IsAtomic-bind _ _ (OnlyReads-lift _) λ rems. IsAtomic-remainders row s.loc policy rems

IsAtomic-in_place : (input : ConfirmTimeEntryInput) → IsAtomic (confirm_in_place input)
unfolding confirm_in_place
IsAtomic-in_place input = IsAtomic-last _ _ (IsAtomic-update_attestation _ _ _)

IsAtomic-midnight : (row : Row) (s : RowSpan) → IsAtomic (confirm_split_at_midnight row s)
unfolding confirm_split_at_midnight
IsAtomic-midnight row s =
    IsAtomic-bind _ _ (OnlyReads-lift _)
      λ pieces. IsAtomic-bind _ _ (OnlyReads-guard _ _) λ _. IsAtomic-replace row _

IsAtomic-overnight :
    (crosses : Bool) (input : ConfirmTimeEntryInput) (row : Row) (s : RowSpan)
    (policy : OvernightPolicy)
    → IsAtomic (confirm_overnight crosses input row s policy)
unfolding confirm_overnight
IsAtomic-overnight true input row s attribute_to_start = IsAtomic-in_place input
IsAtomic-overnight true input row s split_at_midnight = IsAtomic-midnight row s
IsAtomic-overnight true input row s OvernightPolicy.unset = IsAtomic-fail _
IsAtomic-overnight true input row s (OvernightPolicy.unknown text) = IsAtomic-fail _
IsAtomic-overnight false input row s OvernightPolicy.unset = IsAtomic-in_place input
IsAtomic-overnight false input row s _ = IsAtomic-fail _

IsAtomic-span :
    (input : ConfirmTimeEntryInput) (row : Row) (s : RowSpan) → IsAtomic (confirm_span input row s)
unfolding confirm_span
IsAtomic-span input row s = IsAtomic-overnight _ input row s _

IsAtomic-resolve :
    (input : ConfirmTimeEntryInput) (row : Row) (s : RowSpan) (overlaps : List Row)
    (resolution : OverlapResolution)
    → resolution ≢ keep_mine
    → IsAtomic (resolve_overlaps input row s overlaps resolution)
unfolding resolve_overlaps
IsAtomic-resolve input row s [] OverlapResolution.unset ne = IsAtomic-span input row s
IsAtomic-resolve input row s [] _ ne = IsAtomic-fail _
IsAtomic-resolve input row s (x ∷ xs) allow_parallel ne = IsAtomic-span input row s
IsAtomic-resolve input row s (x ∷ xs) keep_theirs ne = IsAtomic-dismiss row
IsAtomic-resolve input row s (x ∷ xs) keep_mine ne = absurd (ne refl)
IsAtomic-resolve input row s (x ∷ xs) split ne = IsAtomic-around row s (x ∷ xs) _
IsAtomic-resolve input row s (x ∷ xs) OverlapResolution.unset ne = IsAtomic-fail _
IsAtomic-resolve input row s (x ∷ xs) (OverlapResolution.unknown text) ne = IsAtomic-fail _

pub OnlyReads-overlapping :
    (pid id start end : ℕ) → OnlyReads (overlapping_confirmed pid id start end)
unfolding overlapping_confirmed
OnlyReads-overlapping pid id start end =
    OnlyReads-bind _ _ (OnlyReads-list pid) λ rows. OnlyReads-pure _

pub IsAtomic-confirm_time_entry :
    (zones : String → Option Location) (input : ConfirmTimeEntryInput)
    → input.overlap_resolution ≢ keep_mine
    → IsAtomic (confirm_time_entry zones input)
unfolding confirm_time_entry
IsAtomic-confirm_time_entry zones input ne = IsAtomic-bind _ _ (OnlyReads-guard _ _) λ _.
    IsAtomic-bind _ _ (OnlyReads-guard _ _) λ _.
      IsAtomic-bind _ _ (OnlyReads-load_draft input.id input.period_id) λ row.
        IsAtomic-bind _ _ (OnlyReads-time_entry_local_span zones row) λ s.
          IsAtomic-bind _ _ (OnlyReads-overlapping _ _ _ _)
            λ overlaps. IsAtomic-resolve input row s overlaps _ ne
