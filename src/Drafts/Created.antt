-- ===== src/Drafts/Created.antt =====
-- What creating an entry does when it succeeds.
use clockr.Base.{
  suc, ◌≡◌, refl, ◌∙◌, ap, Bool, true, List, [], ◌∷◌, ◌++◌, String, Result, ok, err, Option, arith,
  Bool-cases, inl, inr,
}
use clockr.GoText.{trim_space, elem}
use clockr.GoTime.{Location}
use clockr.Ledger.{Db, Row, is_confirmed}
use clockr.Ledger.Returns.{Runs, bind-runs, lift-runs, pure-runs, create-runs}
use clockr.Entries.{
  TimeEntry, TimeEntryInput, Allocation, to_time_entry, entry_params, normalize_one,
  normalize_time_entry_allocation, pair_up, default_to, allowed_work_types,
  allowed_billable_statuses, create_entry,
}
use clockr.Drafts.Atomic.{OnlyReads-time_entry_span}
use clockr.Drafts.Split.{reads-runs}

normalize_one-elem :
    (allowed : List String) (d s t : String)
    → normalize_one allowed d s ≡ ok t
    → elem t allowed ≡ true
unfolding normalize_one
normalize_one-elem allowed d s t h =
    elim (Bool-cases (elem (default_to d (trim_space s)) allowed)) [
      | inl e ↦ ground (arith, e)
      | inr e ↦ absurd (ground (arith, e))
    ]

abbrev IsAllowed : Allocation → Type 0
IsAllowed a =
    (elem a.work_type allowed_work_types ≡ true)
    × (elem a.billable_status allowed_billable_statuses ≡ true)

pair_up-IsAllowed :
    (w b : Result String) (a : Allocation)
    → ((t : String) → w ≡ ok t → elem t allowed_work_types ≡ true)
    → ((t : String) → b ≡ ok t → elem t allowed_billable_statuses ≡ true)
    → pair_up w b ≡ ok a
    → IsAllowed a
pair_up-IsAllowed (ok w) (ok b) a h k e =
    let x : a.work_type ≡ w = cc in
    let y : a.billable_status ≡ b = cc in (rw (x) (h w refl), rw (y) (k b refl))
pair_up-IsAllowed (ok w) (err x) a h k e = absurd (ground arith)
pair_up-IsAllowed (err x) b a h k e = absurd (ground arith)

-- The row that a successful create appends.
pub record Created (input : TimeEntryInput) (before : Db) (e : TimeEntry) (after : Db)
    : Type 0 where
  pub row : Row
  pub rows : after.entries ≡ before.entries ++ row ∷ []
  pub fresh : row.id ≡ before.next_id
  pub next : after.next_id ≡ suc before.next_id
  pub reply : e ≡ to_time_entry row
  pub settled : is_confirmed row.attestation ≡ true
  pub day : row.local_work_date ≡ input.day
  pub work : elem row.work_type allowed_work_types ≡ true
  pub billing : elem row.billable_status allowed_billable_statuses ≡ true

-- An entry that is created is one new row behind the others: confirmed, of the day that was asked
-- for, with an allowed work type and billable status, under the next id.
pub create_entry-Created :
    (zones : String → Option Location) (input : TimeEntryInput) (gap : Bool) (before : Db)
    (e : TimeEntry) (after : Db)
    → Runs (create_entry zones input gap) before e after
    → Created input before e after
unfolding create_entry normalize_time_entry_allocation entry_params is_confirmed
create_entry-Created zones input gap before e after h =
    let b1 = bind-runs _ _ before e after h in
    let b2 = bind-runs _ _ b1.middle e after b1.second in
    let b3 = bind-runs _ _ b2.middle e after b2.second in
    let t =
      reads-runs _ before b1.result b1.middle (OnlyReads-time_entry_span zones input) b1.first in
    let l = lift-runs _ _ b2.result b2.middle b2.first in
    let c = create-runs _ b2.middle b3.result b3.middle b3.first in
    let p = pure-runs _ b3.middle e after b3.second in
    let a =
      pair_up-IsAllowed _ _ b2.result
        (normalize_one-elem allowed_work_types "worked" input.work_type)
        (normalize_one-elem allowed_billable_statuses "unset" input.billable_status) l.0 in
    record {
      row = b3.result;
      rows = cc (c.1, l.1, p.1, t.entries);
      fresh = cc (c.0, l.1, t.next_id);
      next = cc (c.2, l.1, p.1, t.next_id);
      reply = p.0;
      settled = ap (λ (r : Row). is_confirmed r.attestation) c.0;
      day = ap (λ (r : Row). r.local_work_date) c.0;
      work = ap (λ (r : Row). elem r.work_type allowed_work_types) c.0 ∙ a.0;
      billing = ap (λ (r : Row). elem r.billable_status allowed_billable_statuses) c.0 ∙ a.1;
    }
