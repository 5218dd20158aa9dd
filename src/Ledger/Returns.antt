-- ===== src/Ledger/Returns.antt =====
-- What is known of an action that has succeeded.
use mathlib.Core.Path.{subst}
use clockr.Base.{
  ap, ℕ, suc, ◌≡◌, refl, Bool, true, false, Option, none, some, [], ◌∷◌, ◌++◌, Error, Result, ok,
  err, arith, find,
}
use clockr.Ledger.Keeps.{Keeps, Post}
use clockr.Ledger.{
  Db, M, ◌>>=◌, guard, lift, pure, fail, continue, statement, transaction, settle, consume, one_row,
  Params, Row, Attestation, set_attestation, is_row, update_where, update_row, get_time_entry,
  create_time_entry, update_attestation,
}

-- `m` succeeds on `before` with `a` and leaves `after`.
abbrev pub Runs : {A : Type 0} → M A → Db → A → Db → Type 0
Runs m before a after = m before ≡ (ok a, after)

module _ {A B : Type 0} where
  -- The two parts of a bind that has succeeded.
  pub record BindRuns (m : M A) (f : A → M B) (before : Db) (b : B) (after : Db) : Type 0 where
    pub result : A
    pub middle : Db
    pub first : Runs m before result middle
    pub second : Runs (f result) middle b after

  continue-runs :
      (m : M A) (f : A → M B) (before : Db) (r : Result A) (middle : Db) (b : B) (after : Db)
      → m before ≡ (r, middle)
      → continue r f middle ≡ (ok b, after)
      → BindRuns m f before b after
  continue-runs m f before (ok a) middle b after e h = record {
    result = a;
    middle = middle;
    first = e;
    second = h;
  }
  continue-runs m f before (err x) middle b after e h = absurd (ground arith)

  pub bind-runs :
      (m : M A) (f : A → M B) (before : Db) (b : B) (after : Db)
      → Runs (m >>= f) before b after
      → BindRuns m f before b after
  unfolding ◌>>=◌
  bind-runs m f before b after h = continue-runs m f before (m before).0 (m before).1 b after refl h

pub statement-runs :
    {A : Type 0} (m : M A) (before : Db) (a : A) (after : Db)
    → Runs (statement m) before a after
    → Runs m (consume before) a after
unfolding statement
statement-runs m before a after h = ground arith

pub guard-runs :
    (b : Bool) (e : Error) (before : Db) (u : Unit {0}) (after : Db)
    → Runs (guard b e) before u after
    → (b ≡ true) × (after ≡ before)
unfolding guard pure fail
guard-runs true e before u after h = (refl, ground arith)
guard-runs false e before u after h = absurd (ground arith)

pub lift-runs :
    {A : Type 0} (r : Result A) (before : Db) (a : A) (after : Db)
    → Runs (lift r) before a after
    → (r ≡ ok a) × (after ≡ before)
unfolding lift
lift-runs r before a after h = (ground (arith, h), ground (arith, h))

pub pure-runs :
    {A : Type 0} (x : A) (before : Db) (a : A) (after : Db)
    → Runs (pure x) before a after
    → (a ≡ x) × (after ≡ before)
unfolding pure
pure-runs x before a after h = (ground (arith, h), ground (arith, h))

one_row-ok : (o : Option Row) (r : Row) → one_row o ≡ ok r → o ≡ some r
one_row-ok none r h = absurd (ground arith)
one_row-ok (some x) r h = ground arith

-- A successful read has found its row and left the tables alone.
pub get-runs :
    (id pid : ℕ) (before : Db) (r : Row) (after : Db)
    → Runs (get_time_entry id pid) before r after
    → (find (is_row id pid) before.entries ≡ some r)
      × (after.entries ≡ before.entries)
      × (after.next_id ≡ before.next_id)
unfolding get_time_entry statement
get-runs id pid before r after h =
    (ground (arith, one_row-ok (find (is_row id pid) before.entries) r), ground arith, ground arith)

pub create-runs :
    (p : Params) (before : Db) (r : Row) (after : Db)
    → Runs (create_time_entry p) before r after
    → (r ≡ record { id = before.next_id; fields = p })
      × (after.entries ≡ before.entries ++ r ∷ [])
      × (after.next_id ≡ suc before.next_id)
unfolding create_time_entry statement
create-runs p before r after h = (ground arith, ground arith, ground arith)

pub update-runs :
    (a : Attestation) (id pid : ℕ) (before : Db) (r : Row) (after : Db)
    → Runs (update_attestation a id pid) before r after
    → after.entries ≡ update_where (is_row id pid) (set_attestation a) before.entries
unfolding update_attestation update_row statement
update-runs a id pid before r after h = ground arith

settle-runs :
    {A : Type 0} (before : Db) (r : Result A) (last : Db) (a : A) (after : Db)
    → settle before r last ≡ (ok a, after)
    → (r ≡ ok a) × (after ≡ consume last)
settle-runs before (ok x) last a after h = (ground arith, ground arith)
settle-runs before (err e) last a after h = absurd (ground arith)

-- A transaction that has succeeded has run its statements.
pub transaction-runs :
    {A : Type 0} (m : M A) (before : Db) (a : A) (after : Db)
    → Runs (transaction m) before a after
    → (last : Db) × Runs m (consume before) a last × (after ≡ consume last)
unfolding transaction statement
transaction-runs m before a after h =
    let start = consume before in
    let (e, c) =
      settle-runs start (m start).0 (m start).1 a after
        (statement-runs (λ db. settle db (m db).0 (m db).1) before a after h) in
    ((m start).1, λ i. (e i, (m start).1), c)

-- What a successful action that keeps `P` leaves, and what its result has.
pub runs-Keeps :
    {A : Type 0} {P : Db → Type 0} {Q : A → Type 0} (m : M A) (before : Db) (a : A) (after : Db)
    → Keeps P Q m
    → P before
    → Runs m before a after
    → P after × Q a
runs-Keeps {P = P} {Q = Q} m before a after k p h = (
  subst P (ap (λ x. x.1) h) (k.at before p).0,
  subst (Post Q) (ap (λ x. x.0) h) (k.at before p).1,
)
