-- ===== src/Drafts/Atomic.antt =====
-- Writing, rejecting, adjusting or splitting an entry changes nothing when it fails.
use clockr.Base.{ℕ, Bool, Option, String, List}
use clockr.GoTime.{Stamp, Location}
use clockr.Ledger.{M, Row}
use clockr.Ledger.Atomic.{
  OnlyReads, IsAtomic, IsAtomic-bind, IsAtomic-last, IsAtomic-transaction,
  IsAtomic-update_attestation, IsAtomic-update_time_entry, IsAtomic-create, OnlyReads-bind,
  OnlyReads-pure, OnlyReads-guard, OnlyReads-lift, OnlyReads-get, OnlyReads-get_period,
  OnlyReads-list_tz_segments,
}
use clockr.Entries.{TimeEntry, TimeEntryInput, time_entry_span, create_entry, update_entry}
use clockr.Drafts.{
  replace, load_draft, reject_time_entry, time_entry_local_span, adjust_draft_time_entry,
  split_time_entry,
}

pub OnlyReads-load_draft : (id pid : ℕ) → OnlyReads (load_draft id pid)
unfolding load_draft
OnlyReads-load_draft id pid =
    OnlyReads-bind _ _ (OnlyReads-get id pid)
      λ row. OnlyReads-bind _ _ (OnlyReads-guard _ _) λ _. OnlyReads-pure row

pub IsAtomic-replace : (row : Row) (creates : M (List TimeEntry)) → IsAtomic (replace row creates)
unfolding replace
IsAtomic-replace row creates = IsAtomic-transaction _

pub IsAtomic-reject : (id pid : ℕ) → IsAtomic (reject_time_entry id pid)
unfolding reject_time_entry
IsAtomic-reject id pid = IsAtomic-bind _ _ (OnlyReads-guard _ _) λ _.
    IsAtomic-bind _ _ (OnlyReads-guard _ _) λ _.
      IsAtomic-bind _ _ (OnlyReads-load_draft id pid)
        λ row. IsAtomic-last _ _ (IsAtomic-update_attestation _ id pid)

module _ (zones : String → Option Location) where
  pub OnlyReads-time_entry_local_span : (row : Row) → OnlyReads (time_entry_local_span zones row)
  unfolding time_entry_local_span
  OnlyReads-time_entry_local_span row = OnlyReads-bind _ _ (OnlyReads-lift _) λ start.
      OnlyReads-bind _ _ (OnlyReads-lift _) λ end.
        OnlyReads-bind _ _ (OnlyReads-list_tz_segments _)
          λ segs. OnlyReads-bind _ _ (OnlyReads-lift _) λ loc. OnlyReads-pure _

  pub OnlyReads-time_entry_span : (input : TimeEntryInput) → OnlyReads (time_entry_span zones input)
  unfolding time_entry_span
  OnlyReads-time_entry_span input = OnlyReads-bind _ _ (OnlyReads-guard _ _) λ _.
      OnlyReads-bind _ _ (OnlyReads-guard _ _) λ _. OnlyReads-bind _ _ (OnlyReads-guard _ _) λ _.
        OnlyReads-bind _ _ (OnlyReads-get_period _) λ period.
          OnlyReads-bind _ _ (OnlyReads-guard _ _) λ _.
            OnlyReads-bind _ _ (OnlyReads-guard _ _) λ _.
              OnlyReads-bind _ _ (OnlyReads-guard _ _) λ _.
                OnlyReads-bind _ _ (OnlyReads-guard _ _) λ _.
                  OnlyReads-bind _ _ (OnlyReads-list_tz_segments _)
                    λ segs. OnlyReads-bind _ _ (OnlyReads-lift _) λ loc. OnlyReads-pure _

  pub IsAtomic-create_entry :
      (input : TimeEntryInput) (gap : Bool) → IsAtomic (create_entry zones input gap)
  unfolding create_entry
  IsAtomic-create_entry input gap =
      IsAtomic-bind _ _ (OnlyReads-time_entry_span input) λ s.
        IsAtomic-bind _ _ (OnlyReads-lift _) λ allocation. IsAtomic-last _ _ (IsAtomic-create _)

  pub IsAtomic-update_entry :
      (id : ℕ) (input : TimeEntryInput) → IsAtomic (update_entry zones id input)
  unfolding update_entry
  IsAtomic-update_entry id input = IsAtomic-bind _ _ (OnlyReads-guard _ _) λ _.
      IsAtomic-bind _ _ (OnlyReads-time_entry_span input) λ s.
        IsAtomic-bind _ _ (OnlyReads-lift _)
          λ allocation. IsAtomic-last _ _ (IsAtomic-update_time_entry _ _ _)

  pub IsAtomic-adjust :
      (id : ℕ) (input : TimeEntryInput) → IsAtomic (adjust_draft_time_entry zones id input)
  unfolding adjust_draft_time_entry
  IsAtomic-adjust id input =
      IsAtomic-bind _ _ (OnlyReads-guard _ _)
        λ _. IsAtomic-bind _ _ (OnlyReads-load_draft id _) λ row. IsAtomic-update_entry id input

  pub IsAtomic-split :
      (id pid : ℕ) (cuts : List Stamp) → IsAtomic (split_time_entry zones id pid cuts)
  unfolding split_time_entry
  IsAtomic-split id pid cuts = IsAtomic-bind _ _ (OnlyReads-guard _ _) λ _.
      IsAtomic-bind _ _ (OnlyReads-guard _ _) λ _. IsAtomic-bind _ _ (OnlyReads-guard _ _) λ _.
        IsAtomic-bind _ _ (OnlyReads-load_draft id pid) λ row.
          IsAtomic-bind _ _ (OnlyReads-time_entry_local_span row)
            λ s. IsAtomic-bind _ _ (OnlyReads-lift _) λ cs. IsAtomic-replace row _
