-- ===== src/Confirm.antt =====
-- internal/service/time_entry_confirm.go: confirming a draft, with its overlaps and midnights.
pub mod Untouched
pub mod Atomic
pub mod Overlaps
pub mod KeepMine
use clockr.Base.{
  ℕ, suc, ◌-◌, Bool, true, false, not, ◌&&◌, ◌||◌, Option, none, some, List, [], ◌∷◌, ◌++◌, String,
  invalid_input, failed_precondition, no_return, Result, ok, err, ltb, ◌==◌, if◌then◌else◌, any,
  keep,
}
use clockr.GoTime.{Location, parse_stamp}
use clockr.Gaps.{span}
use clockr.Spans.{LocalSpan, subtract_interval, crosses_local_midnight, split_from}
use clockr.Ledger.{
  M, ◌>>=◌, ◌>>◌, pure, fail, guard, lift, confirmed, dismissed, is_confirmed, Row,
  update_attestation, delete_time_entry, list_time_entries_for_period,
}
use clockr.Entries.{TimeEntry, to_time_entry}
use clockr.Drafts.{RowSpan, parsed, create_pieces, replace, load_draft, time_entry_local_span}

-- overnight_policy: "", "attribute_to_start", "split_at_midnight" or another text.
pub data OvernightPolicy : Type 0 where
  unset attribute_to_start split_at_midnight : OvernightPolicy
  unknown : String → OvernightPolicy

-- overlap_resolution: "", "allow_parallel", "keep_theirs", "keep_mine", "split" or another text.
pub data OverlapResolution : Type 0 where
  unset allow_parallel keep_theirs keep_mine split : OverlapResolution
  unknown : String → OverlapResolution

pub record ConfirmTimeEntryInput : Type 0 where
  pub id : ℕ
  pub period_id : ℕ
  pub overnight_policy : OvernightPolicy
  pub overlap_resolution : OverlapResolution

-- `end.After(start)`, read off the texts of a row; a text that does not parse overlaps nothing.
unfoldable pub overlaps_span : ℕ → ℕ → Option ℕ → Option ℕ → Bool
overlaps_span start end (some other_start) (some other_end) =
    ltb other_start end && ltb start other_end
overlaps_span start end _ _ = false

unfoldable pub is_overlap : ℕ → ℕ → ℕ → Row → Bool
unfolding is_confirmed parse_stamp overlaps_span
is_overlap exclude_id start end r =
    not (r.id == exclude_id || not (is_confirmed r.attestation))
    && overlaps_span start end (parse_stamp r.start_instant) (parse_stamp r.end_instant)

unfoldable pub overlapping_confirmed : ℕ → ℕ → ℕ → ℕ → M (List Row)
overlapping_confirmed period_id exclude_id start end = do
  rows ← list_time_entries_for_period period_id
  pure (keep (is_overlap exclude_id start end) rows)

-- `splitAtLocalMidnights`; `no_return` stands for a loop that does not end.
unfoldable pub split_at_local_midnights : Location → ℕ → ℕ → Result (List LocalSpan)
split_at_local_midnights loc start end = elim (split_from (suc (end - start)) loc end start) [
  | none ↦ err no_return
  | some l ↦ ok l
]

abbrev at_least_two : List LocalSpan → Bool
at_least_two (a ∷ b ∷ l) = true
at_least_two _ = false

unfoldable pub confirm_in_place : ConfirmTimeEntryInput → M (List TimeEntry)
confirm_in_place input = do
  updated ← update_attestation confirmed input.id input.period_id
  pure (to_time_entry updated ∷ [])

unfoldable pub confirm_split_at_midnight : Row → RowSpan → M (List TimeEntry)
confirm_split_at_midnight row s = do
  segments ← lift (split_at_local_midnights s.loc s.start s.end)
  guard (at_least_two segments) failed_precondition
  replace row (create_pieces row s.loc confirmed segments)

abbrev pub cut_rows : List LocalSpan → List Row → Result (List LocalSpan)
cut_rows spans [] = ok spans
cut_rows spans (other ∷ others) = elim (parsed other.start_instant failed_precondition) [
  | err e ↦ err e
  | ok cut_start ↦ elim (parsed other.end_instant failed_precondition) [
    | err e ↦ err e
    | ok cut_end ↦ cut_rows (subtract_interval spans cut_start cut_end) others
  ]
]

abbrev is_unset : OvernightPolicy → Bool
is_unset OvernightPolicy.unset = true
is_unset _ = false

abbrev is_split : OvernightPolicy → Bool
is_split split_at_midnight = true
is_split _ = false

unfoldable pub crosses : Location → LocalSpan → Bool
unfolding crosses_local_midnight
crosses loc sp = crosses_local_midnight loc sp.start sp.end

-- The pieces of one remainder.
unfoldable pub remainder_pieces : Location → OvernightPolicy → LocalSpan → Result (List LocalSpan)
unfolding crosses
remainder_pieces loc policy rem =
    if is_split policy && crosses loc rem
    then split_at_local_midnights loc rem.start rem.end
    else ok (rem ∷ [])

-- The loop over the remainders, and inside it the loop over the pieces of each.
unfoldable pub create_remainders :
    Row → Location → OvernightPolicy → List LocalSpan → M (List TimeEntry)
unfolding create_pieces remainder_pieces
create_remainders row loc policy [] = pure []
create_remainders row loc policy (rem ∷ rems) = do
  pieces ← lift (remainder_pieces loc policy rem)
  out ← create_pieces row loc confirmed pieces
  rest ← create_remainders row loc policy rems
  pure (out ++ rest)

unfoldable pub dismiss : Row → M (List TimeEntry)
dismiss row = do update_attestation dismissed row.id row.period_id; pure []

-- What is left of the draft outside of the overlaps.
unfoldable pub confirm_remainders :
    Row → Location → OvernightPolicy → List LocalSpan → M (List TimeEntry)
unfolding dismiss crosses create_remainders replace
confirm_remainders row loc policy [] = dismiss row
confirm_remainders row loc policy (rem ∷ rems) = do
  guard (not (any (crosses loc) (rem ∷ rems) && is_unset policy)) invalid_input
  replace row (create_remainders row loc policy (rem ∷ rems))

unfoldable pub confirm_draft_around_overlaps :
    Row → RowSpan → List Row → OvernightPolicy → M (List TimeEntry)
unfolding confirm_remainders
confirm_draft_around_overlaps row s overlaps policy = do
  remainders ← lift (cut_rows (span s.start s.end ∷ []) overlaps)
  confirm_remainders row s.loc policy remainders

-- The end of `ConfirmTimeEntry`, from the test for an overnight span on.
unfoldable pub confirm_overnight :
    Bool → ConfirmTimeEntryInput → Row → RowSpan → OvernightPolicy → M (List TimeEntry)
unfolding confirm_in_place confirm_split_at_midnight
confirm_overnight true input row s attribute_to_start = confirm_in_place input
confirm_overnight true input row s split_at_midnight = confirm_split_at_midnight row s
confirm_overnight true input row s OvernightPolicy.unset = fail invalid_input
confirm_overnight true input row s (OvernightPolicy.unknown text) = fail invalid_input
confirm_overnight false input row s OvernightPolicy.unset = confirm_in_place input
confirm_overnight false input row s _ = fail invalid_input

unfoldable pub confirm_span : ConfirmTimeEntryInput → Row → RowSpan → M (List TimeEntry)
unfolding confirm_overnight crosses_local_midnight
confirm_span input row s =
    confirm_overnight (crosses_local_midnight s.loc s.start s.end) input row s
      input.overnight_policy

-- The deletes of `keep_mine`, each a statement of its own.
unfoldable pub delete_rows : List Row → M (Unit {0})
delete_rows [] = pure tt
delete_rows (other ∷ others) = do delete_time_entry other.id other.period_id; delete_rows others

-- The switch on the overlap resolution.
unfoldable pub resolve_overlaps :
    ConfirmTimeEntryInput → Row → RowSpan → List Row → OverlapResolution → M (List TimeEntry)
unfolding confirm_span dismiss delete_rows confirm_draft_around_overlaps
resolve_overlaps input row s [] OverlapResolution.unset = confirm_span input row s
resolve_overlaps input row s [] _ = fail invalid_input
resolve_overlaps input row s (o ∷ os) allow_parallel = confirm_span input row s
resolve_overlaps input row s (o ∷ os) keep_theirs = dismiss row
resolve_overlaps input row s (o ∷ os) keep_mine = do delete_rows (o ∷ os); confirm_span input row s
resolve_overlaps input row s (o ∷ os) split =
    confirm_draft_around_overlaps row s (o ∷ os) input.overnight_policy
resolve_overlaps input row s (o ∷ os) OverlapResolution.unset = fail failed_precondition
resolve_overlaps input row s (o ∷ os) (OverlapResolution.unknown text) = fail invalid_input

module _ (zones : String → Option Location) where
  unfoldable pub confirm_time_entry : ConfirmTimeEntryInput → M (List TimeEntry)
  unfolding load_draft time_entry_local_span resolve_overlaps overlapping_confirmed
  confirm_time_entry input = do
    guard (ltb 0 input.id) invalid_input
    guard (ltb 0 input.period_id) invalid_input
    row ← load_draft input.id input.period_id
    s ← time_entry_local_span zones row
    overlaps ← overlapping_confirmed row.period_id row.id s.start s.end
    resolve_overlaps input row s overlaps input.overlap_resolution
