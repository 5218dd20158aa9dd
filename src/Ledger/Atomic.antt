-- ===== src/Ledger/Atomic.antt =====
-- Actions that change nothing when they fail, and rules to build them.
use clockr.Base.{
  ℕ, ◌≡◌, refl, ◌∙◌, Bool, true, false, Option, none, some, List, Error, Result, ok, err,
  Bool-cases, inl, inr,
}
use clockr.Ledger.{
  Db, M, ◌>>=◌, pure, fail, guard, lift, continue, statement, transaction, settle, refused, consume,
  one_row, Params, Row, Attestation, Edit, is_row, update_row, get_time_entry, create_time_entry,
  update_attestation, update_time_entry, list_time_entries_for_period, get_period, list_tz_segments,
}
use clockr.Ledger.View.{KeepsKey, update_where-none}

-- The tables hold the same rows, and the next row gets the same id.
pub record SameTables (before after : Db) : Type 0 where
  pub entries : after.entries ≡ before.entries
  pub next_id : after.next_id ≡ before.next_id
  pub periods : after.periods ≡ before.periods
  pub tz_segments : after.tz_segments ≡ before.tz_segments
  pub sources : after.sources ≡ before.sources

pub SameTables-refl : (db : Db) (fs : List Bool) → SameTables db (record db { faults = fs })
SameTables-refl db fs = record {
  entries = refl;
  next_id = refl;
  periods = refl;
  tz_segments = refl;
  sources = refl;
}

pub SameTables-trans : {a b c : Db} → SameTables a b → SameTables b c → SameTables a c
SameTables-trans h k = record {
  entries = k.entries ∙ h.entries;
  next_id = k.next_id ∙ h.next_id;
  periods = k.periods ∙ h.periods;
  tz_segments = k.tz_segments ∙ h.tz_segments;
  sources = k.sources ∙ h.sources;
}

pub record OnlyReads {A : Type 0} (m : M A) : Type 0 where
  pub at : (db : Db) → SameTables db (m db).1

pub record IsAtomic {A : Type 0} (m : M A) : Type 0 where
  pub at : (db : Db) (e : Error) → (m db).0 ≡ err e → SameTables db (m db).1

module _ {A : Type 0} where
  pub IsAtomic-reads : (m : M A) → OnlyReads m → IsAtomic m
  IsAtomic-reads m r = record { at = λ db e h. r.at db }

  pub OnlyReads-pure : (a : A) → OnlyReads (pure a)
  unfolding pure
  OnlyReads-pure a = record { at = λ db. SameTables-refl db db.faults }

  pub IsAtomic-fail : (e : Error) → IsAtomic (fail {A = A} e)
  unfolding fail
  IsAtomic-fail e = record { at = λ db e' h. SameTables-refl db db.faults }

  pub OnlyReads-lift : (r : Result A) → OnlyReads (lift r)
  unfolding lift
  OnlyReads-lift r = record { at = λ db. SameTables-refl db db.faults }

  -- A statement that hands back the database as it is.
  pub OnlyReads-statement : (f : Db → Result A) → OnlyReads (statement λ db. (f db, db))
  unfolding statement
  OnlyReads-statement f = record {
    at = λ db. elim (Bool-cases (refused db)) [
      | inl e ↦ rw (e, statement) (SameTables-refl db _)
      | inr e ↦ rw (e, statement) (SameTables-refl db _)
    ];
  }

  pub IsAtomic-statement :
      (m : M A)
      → ((db : Db) (e : Error) → (m db).0 ≡ err e → SameTables db (m db).1)
      → IsAtomic (statement m)
  unfolding statement
  IsAtomic-statement m h = record { at = λ db e k. go db e k (refused db) refl }
    where
      go :
          (db : Db) (e : Error)
          → (statement m db).0 ≡ err e
          → (b : Bool) → refused db ≡ b
          → SameTables db (statement m db).1
      go db e k true q = rw (q, statement) (SameTables-refl db _)
      go db e k false q =
          rw (q, statement)
            (SameTables-trans (SameTables-refl db _) (h (consume db) e (rw (q, statement) at k)))

  settle-atomic :
      (before : Db) (r : Result A) (after : Db) (e : Error)
      → (settle before r after).0 ≡ err e
      → SameTables before (settle before r after).1
  settle-atomic before (ok a) after e h = elim (Bool-cases (refused after)) [
    | inl q ↦ rw (q, settle) (SameTables-refl before _)
    | inr q ↦ cc (rw (q, settle) at h)
  ]
  settle-atomic before (err e') after e h = SameTables-refl before _

  -- A transaction that fails changes nothing, whatever its statements did.
  pub IsAtomic-transaction : (m : M A) → IsAtomic (transaction m)
  unfolding transaction
  IsAtomic-transaction m =
      IsAtomic-statement (λ db. settle db (m db).0 (m db).1)
        (λ db e h. settle-atomic db (m db).0 (m db).1 e h)

pub OnlyReads-guard : (b : Bool) (e : Error) → OnlyReads (guard b e)
unfolding guard pure fail
OnlyReads-guard true e = record { at = λ db. SameTables-refl db db.faults }
OnlyReads-guard false e = record { at = λ db. SameTables-refl db db.faults }

module _ {A B : Type 0} where
  continue-atomic :
      (before : Db) (r : Result A) (f : A → M B) (db : Db) (e : Error)
      → SameTables before db
      → ((a : A) → IsAtomic (f a))
      → (continue r f db).0 ≡ err e
      → SameTables before (continue r f db).1
  continue-atomic before (ok a) f db e s k h = SameTables-trans s ((k a).at db e h)
  continue-atomic before (err e') f db e s k h = s

  -- What only reads may stand before what is atomic.
  pub IsAtomic-bind :
      (m : M A) (f : A → M B) → OnlyReads m → ((a : A) → IsAtomic (f a)) → IsAtomic (m >>= f)
  unfolding ◌>>=◌
  IsAtomic-bind m f r k = record {
    at = λ db e h. continue-atomic db (m db).0 f (m db).1 e (r.at db) k h;
  }

  continue-reads :
      (before : Db) (r : Result A) (f : A → M B) (db : Db)
      → SameTables before db
      → ((a : A) → OnlyReads (f a))
      → SameTables before (continue r f db).1
  continue-reads before (ok a) f db s k = SameTables-trans s ((k a).at db)
  continue-reads before (err e) f db s k = s

  pub OnlyReads-bind :
      (m : M A) (f : A → M B) → OnlyReads m → ((a : A) → OnlyReads (f a)) → OnlyReads (m >>= f)
  unfolding ◌>>=◌
  OnlyReads-bind m f r k = record { at = λ db. continue-reads db (m db).0 f (m db).1 (r.at db) k }

  continue-last :
      (before : Db) (r : Result A) (g : A → B) (db : Db) (e : Error)
      → ((e' : Error) → r ≡ err e' → SameTables before db)
      → (continue r (λ a. pure (g a)) db).0 ≡ err e
      → SameTables before (continue r (λ a. pure (g a)) db).1
  unfolding pure
  continue-last before (ok a) g db e s h = cc
  continue-last before (err e') g db e s h = s e' refl

  -- A result may be built behind what is atomic.
  pub IsAtomic-last : (m : M A) (g : A → B) → IsAtomic m → IsAtomic (m >>= λ a. pure (g a))
  unfolding ◌>>=◌
  IsAtomic-last m g k = record {
    at = λ db e h. continue-last db (m db).0 g (m db).1 e (λ e' q. k.at db e' q) h;
  }

found-none : (o : Option Row) (e : Error) → one_row o ≡ err e → o ≡ none
found-none none e h = refl
found-none (some r) e h = cc

pub IsAtomic-update_row :
    (id pid : ℕ) (f : Params → Params) → KeepsKey f → IsAtomic (update_row (is_row id pid) f)
unfolding update_row
IsAtomic-update_row id pid f same = IsAtomic-statement _ λ db e h. record {
  entries = update_where-none id pid f db.entries same (found-none _ e h);
  next_id = refl;
  periods = refl;
  tz_segments = refl;
  sources = refl;
}

pub IsAtomic-update_attestation :
    (a : Attestation) (id pid : ℕ) → IsAtomic (update_attestation a id pid)
unfolding update_attestation
IsAtomic-update_attestation a id pid = IsAtomic-update_row id pid _ (λ p. refl)

pub IsAtomic-update_time_entry : (e : Edit) (id pid : ℕ) → IsAtomic (update_time_entry e id pid)
unfolding update_time_entry
IsAtomic-update_time_entry e id pid = IsAtomic-update_row id pid _ (λ p. refl)

pub IsAtomic-create : (p : Params) → IsAtomic (create_time_entry p)
unfolding create_time_entry
IsAtomic-create p = IsAtomic-statement _ λ db e h. cc

pub OnlyReads-get : (id pid : ℕ) → OnlyReads (get_time_entry id pid)
unfolding get_time_entry
OnlyReads-get id pid = OnlyReads-statement _

pub OnlyReads-list : (pid : ℕ) → OnlyReads (list_time_entries_for_period pid)
unfolding list_time_entries_for_period
OnlyReads-list pid = OnlyReads-statement _

pub OnlyReads-get_period : (id : ℕ) → OnlyReads (get_period id)
unfolding get_period
OnlyReads-get_period id = OnlyReads-statement _

pub OnlyReads-list_tz_segments : (pid : ℕ) → OnlyReads (list_tz_segments pid)
unfolding list_tz_segments
OnlyReads-list_tz_segments pid = OnlyReads-statement _
