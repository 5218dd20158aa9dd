-- ===== src/Calendar/Dismissed.antt =====
-- What dismissing the drafts of an event leaves of a row that is no draft and is the only one under its
-- key.
use clockr.Base.{◌≡◌, Bool, true, false, String, List, [], ◌∷◌, All, if◌then◌else◌, refl}
use clockr.Sources.{Event}
use clockr.Ledger.{Row, dismissed, is_draft}
use clockr.Ledger.Keeps.{Keeps, Keeps-bind, Keeps-pure}
use clockr.Ledger.Stays.{Any}
use clockr.Ledger.Holds.{
  IsOwn, Holds, Holds-OfTables, Holds-list, Holds-update_attestation, draft-other,
}
use clockr.Calendar.{
  is_linked, linked_calendar_entries, dismiss_linked_drafts, dismiss_calendar_drafts_for_event,
}
use clockr.Calendar.Rows.{OverlayFree}

module _ (P : Row → Type 0) where
  pub All-linked :
      (rows : List Row) (identity : String)
      → All P rows
      → All P (linked_calendar_entries rows identity)
  unfolding linked_calendar_entries
  All-linked [] identity h = tt
  All-linked (te ∷ rows) identity h =
      choose (is_linked identity te) _ h.0 (All-linked rows identity h.1)
    where
      choose : (b : Bool) (out : List Row) → P te → All P out → All P (if b then te ∷ out else out)
      choose true out p k = (p, k)
      choose false out p k = k

pub Holds-OverlayFree : (r : Row) → OverlayFree (Holds r)
Holds-OverlayFree r = record {
  tables = Holds-OfTables r;
  overlays = λ db os n h. record { present = h.present; alone = h.alone; older = h.older };
}

module _ (r : Row) (settled : is_draft r.attestation ≡ false) where
  pub Holds-dismiss_linked :
      (rows : List Row) → All (IsOwn r) rows → Keeps (Holds r) Any (dismiss_linked_drafts rows)
  unfolding dismiss_linked_drafts
  Holds-dismiss_linked [] h = Keeps-pure tt tt
  Holds-dismiss_linked (te ∷ rows) h =
      one (is_draft te.attestation) refl (Holds-dismiss_linked rows h.1)
    where
      one :
          (b : Bool)
          → is_draft te.attestation ≡ b
          → Keeps (Holds r) Any (dismiss_linked_drafts rows)
          → Keeps (Holds r) Any (dismiss_linked_drafts (te ∷ rows))
      one true e k =
          rw (e, dismiss_linked_drafts)
            (Keeps-bind _ _
              (Holds-update_attestation r dismissed te.id te.period_id
                (draft-other r te settled h.0 e))
              λ _ _. k)
      one false e k = rw (e, dismiss_linked_drafts) k

  pub Holds-dismisses : (ev : Event) → Keeps (Holds r) Any (dismiss_calendar_drafts_for_event ev)
  unfolding dismiss_calendar_drafts_for_event
  Holds-dismisses ev =
      Keeps-bind _ _ (Holds-list r _)
        λ rows own. Holds-dismiss_linked _ (All-linked (IsOwn r) rows _ own)
