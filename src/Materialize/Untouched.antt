-- ===== src/Materialize/Untouched.antt =====
-- What proposing a draft for an event leaves of a confirmed row that is the only one under its key.
use clockr.Base.{
  ℕ, ◌≡◌, refl, Bool, true, false, String, Option, List, [], ◌∷◌, arith, All, All-append,
  Bool-cases, inl, inr,
}
use clockr.GoTime.{Location}
use clockr.Sources.{Event}
use clockr.Ledger.{Db, Row, Attestation, draft, confirmed, dismissed, is_draft, is_row}
use clockr.Ledger.Keeps.{Keeps, Keeps-bind, Keeps-pure, Keeps-post}
use clockr.Ledger.Stays.{Any}
use clockr.Ledger.Holds.{IsOwn, Holds, Holds-create, Holds-update_row, Holds-update_where}
use clockr.Queries.{
  is_draft_row, DraftEdit, update_time_entry_calendar_draft, update_time_entry_source_revision,
}
use clockr.Calendar.{
  IncomingEvent, Partition, add_linked, partition_rows, partition_linked, linked_calendar_entries,
  event_identity_from_incoming,
}
use clockr.Calendar.Dismissed.{All-linked, Holds-OverlayFree, Holds-dismiss_linked}
use clockr.Materialize.Steps.{Proposes, Keeps-materialize}
use clockr.Materialize.{bump_revisions, materialize_draft_for_event}

-- The entries of an event whose entries are all dismissed.
abbrev IsDismissed : Row → Type 0
IsDismissed te = te.attestation ≡ dismissed

add_linked-IsDismissed :
    (te : Row) (a : Attestation) (p : Partition)
    → (add_linked te a p).all_dismissed ≡ true
    → (a ≡ dismissed) × (p.all_dismissed ≡ true)
add_linked-IsDismissed te draft p h = absurd (ground arith)
add_linked-IsDismissed te confirmed p h = absurd (ground arith)
add_linked-IsDismissed te dismissed p h = (refl, h)

partition_rows-IsDismissed :
    (linked : List Row) → (partition_rows linked).all_dismissed ≡ true → All IsDismissed linked
unfolding partition_rows
partition_rows-IsDismissed [] h = tt
partition_rows-IsDismissed (te ∷ linked) h =
    let (d, rest) = add_linked-IsDismissed te te.attestation (partition_rows linked) h in
    (d, partition_rows-IsDismissed linked rest)

pub partition_linked-IsDismissed :
    (linked : List Row) → (partition_linked linked).all_dismissed ≡ true → All IsDismissed linked
unfolding partition_linked
partition_linked-IsDismissed [] h = tt
partition_linked-IsDismissed (te ∷ linked) h = partition_rows-IsDismissed (te ∷ linked) h

pub confirmed-settled : (a : Attestation) → a ≡ confirmed → is_draft a ≡ false
unfolding is_draft
confirmed-settled a h = ground arith

module _ (r : Row) (settled : r.attestation ≡ confirmed) where
  -- A dismissed entry is not under the key of `r`.
  dismissed-other : (te : Row) → IsOwn r te → IsDismissed te → is_row te.id te.period_id r ≡ false
  unfolding is_row
  dismissed-other te own d = elim (Bool-cases (is_row te.id te.period_id r)) [
    | inr n ↦ n
    | inl e ↦ absurd (ground (arith, settled, d, own (ground (arith, e))))
  ]

  pub Holds-bump :
      (hash : String) (linked : List Row)
      → All (IsOwn r) linked
      → All IsDismissed linked
      → Keeps (Holds r) Any (bump_revisions hash linked)
  unfolding bump_revisions update_time_entry_source_revision
  Holds-bump hash [] o d = Keeps-pure tt tt
  Holds-bump hash (te ∷ linked) o d =
      Keeps-bind _ _ (Holds-update_where r _ _ (λ p. refl) (dismissed-other te o.0 d.0))
        λ _ _. Holds-bump hash linked o.1 d.1

  pub Holds-refreshes :
      (e : DraftEdit) (id p : ℕ) → Keeps (Holds r) Any (update_time_entry_calendar_draft e id p)
  unfolding update_time_entry_calendar_draft is_draft_row is_draft
  Holds-refreshes e id p = Holds-update_row r _ _ (λ q. refl) (ground (arith, settled))

  -- The new row is not under the key of `r` either.
  pub Holds-Proposes :
      (entries : List Row) (identity : String)
      → All (IsOwn r) entries
      → Proposes (Holds r) (All (IsOwn r)) entries (linked_calendar_entries entries identity)
  Holds-Proposes entries identity own = record {
    free = Holds-OverlayFree r;
    creates = λ p.
        Keeps-post _ (Holds-create r p)
          (λ row o. All-append (IsOwn r) entries (row ∷ []) own (o, tt));
    refreshes = Holds-refreshes;
    dismisses =
        Holds-dismiss_linked r (confirmed-settled r.attestation settled) _
          (All-linked (IsOwn r) entries identity own);
    bumps = λ hash d.
        Holds-bump hash _ (All-linked (IsOwn r) entries identity own)
          (partition_linked-IsDismissed _ d);
    stays = own;
  }

-- A confirmed entry that is the only one under its key and is older than the next entry stays as it
-- is, and the only one, when a sync proposes a draft for any event, whether or not it succeeds, if no
-- row of the sync's list of entries is another one under that key.
pub materialize_draft_for_event-Holds :
    (zones : String → Option Location) (utc : Location) (r : Row) (pid : ℕ) (inc : IncomingEvent)
    → (ev : Event) (entries : List Row) (material_change : Bool) (db : Db)
    → r.attestation ≡ confirmed
    → All (IsOwn r) entries
    → Holds r db
    → Holds r (materialize_draft_for_event zones utc pid inc ev entries material_change db).1
materialize_draft_for_event-Holds zones utc r pid inc ev entries material_change db s own h =
    ((Keeps-materialize entries zones utc pid inc
        (Holds-Proposes r s entries (event_identity_from_incoming inc) own) ev material_change).at
      db h).0
