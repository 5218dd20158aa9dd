-- ===== src/Ledger/Keeps.antt =====
-- Rules for the actions: what an action keeps whether it succeeds or fails, and what its result
-- then is.
use clockr.Base.{
  Option, none, some, ◌≡◌, refl, Bool, true, false, List, Error, Result, ok, err, Bool-cases, inl,
  inr, if◌then◌else◌,
}
use clockr.Ledger.{
  Db, M, ◌>>=◌, pure, fail, guard, lift, continue, statement, transaction, settle, refused, consume,
}

-- Every successful result has the property.
abbrev pub Post {ℓ} : {A : Type 0} → (A → Type ℓ) → Result A → Type ℓ
Post Q (ok a) = Q a
Post Q (err e) = Unit

-- `m` keeps `P`, and each result has `Q`.
pub record Keeps {A : Type 0} (P : Db → Type 0) (Q : A → Type 0) (m : M A) : Type 0 where
  pub at : (db : Db) → P db → P (m db).1 × Post Q (m db).0

module _ {A : Type 0} {P : Db → Type 0} {Q : A → Type 0} where
  pub Keeps-pure : (a : A) → Q a → Keeps P Q (pure a)
  unfolding pure
  Keeps-pure a q = record { at = λ db h. (h, q) }

  pub Keeps-fail : (e : Error) → Keeps P Q (fail e)
  unfolding fail
  Keeps-fail e = record { at = λ db h. (h, tt) }

  pub Keeps-if : (b : Bool) (m k : M A) → Keeps P Q m → Keeps P Q k → Keeps P Q (if b then m else k)
  Keeps-if true m k x y = x
  Keeps-if false m k x y = y

  -- The same where the first branch relies on the condition.
  pub Keeps-when :
      (b : Bool) (m k : M A)
      → (b ≡ true → Keeps P Q m)
      → Keeps P Q k
      → Keeps P Q (if b then m else k)
  Keeps-when true m k x y = x refl
  Keeps-when false m k x y = y

  pub Keeps-option :
      {B : Type 0} (v : Option B) (m : M A) (f : B → M A)
      → Keeps P Q m
      → ((b : B) → Keeps P Q (f b))
      → Keeps P Q (elim v as (λ _. M A) [ none ↦ m | some b ↦ f b ])
  Keeps-option none m f x y = x
  Keeps-option (some b) m f x y = y b

module _ {P : Db → Type 0} where
  pub Keeps-guard : (b : Bool) (e : Error) → Keeps P (λ _. b ≡ true) (guard b e)
  unfolding guard
  Keeps-guard true e = Keeps-pure tt refl
  Keeps-guard false e = Keeps-fail e

  pub Keeps-lift : {A : Type 0} (x : Result A) → Keeps P (λ a. x ≡ ok a) (lift x)
  unfolding lift
  Keeps-lift (ok a) = record { at = λ db h. (h, refl) }
  Keeps-lift (err e) = record { at = λ db h. (h, tt) }

-- `P` speaks of the tables only.
abbrev pub OfTables : (Db → Type 0) → Type 0
OfTables P = (db : Db) (fs : List Bool) → P db → P (record db { faults = fs })

module _ {A : Type 0} (P : Db → Type 0) (Q : A → Type 0) (tables : OfTables P) where
  pub Keeps-statement :
      (m : M A) → ((db : Db) → P db → P (m db).1 × Post Q (m db).0) → Keeps P Q (statement m)
  unfolding statement
  Keeps-statement m h = record {
    at = λ db p. elim (Bool-cases (refused db)) [
      | inl e ↦ rw (e, statement) (tables db _ p, tt)
      | inr e ↦ rw (e, statement) (h (consume db) (tables db _ p))
    ];
  }

  settle-Keeps :
      (before : Db) (r : Result A) (after : Db)
      → P before
      → P after
      → Post Q r
      → P (settle before r after).1 × Post Q (settle before r after).0
  settle-Keeps before (ok a) after b p q = elim (Bool-cases (refused after)) [
    | inl e ↦ rw (e, settle) (tables before _ b, tt)
    | inr e ↦ rw (e, settle) (tables after _ p, q)
  ]
  settle-Keeps before (err e) after b p q = (tables before _ b, tt)

  pub Keeps-transaction : (m : M A) → Keeps P Q m → Keeps P Q (transaction m)
  unfolding transaction
  Keeps-transaction m k =
      Keeps-statement (λ db. settle db (m db).0 (m db).1)
        (λ db p. settle-Keeps db (m db).0 (m db).1 p (k.at db p).0 (k.at db p).1)

module _ {A B : Type 0} {P : Db → Type 0} {Q : A → Type 0} {R : B → Type 0} where
  continue-Keeps :
      (r : Result A) (f : A → M B) (db : Db)
      → P db
      → Post Q r
      → ((a : A) → Q a → Keeps P R (f a))
      → P (continue r f db).1 × Post R (continue r f db).0
  continue-Keeps (ok a) f db p q k = (k a q).at db p
  continue-Keeps (err e) f db p q k = (p, tt)

  pub Keeps-bind :
      (m : M A) (f : A → M B)
      → Keeps P Q m
      → ((a : A) → Q a → Keeps P R (f a))
      → Keeps P R (m >>= f)
  unfolding ◌>>=◌
  Keeps-bind m f k h = record {
    at = λ db p. continue-Keeps (m db).0 f (m db).1 (k.at db p).0 (k.at db p).1 h;
  }

module _ {A : Type 0} {Q R : A → Type 0} where
  Post-mono : (r : Result A) → ((a : A) → Q a → R a) → Post Q r → Post R r
  Post-mono (ok a) f q = f a q
  Post-mono (err e) f q = tt

  -- A weaker claim about the result.
  pub Keeps-post : {P : Db → Type 0} (m : M A) → Keeps P Q m → ((a : A) → Q a → R a) → Keeps P R m
  Keeps-post m k f = record { at = λ db h. ((k.at db h).0, Post-mono (m db).0 f (k.at db h).1) }

-- Two properties, the first with a claim about the result.
pub Keeps-both :
    {A : Type 0} {P R : Db → Type 0} {Q S : A → Type 0} (m : M A)
    → Keeps P Q m
    → Keeps R S m
    → Keeps (λ db. P db × R db) Q m
Keeps-both m k l = record { at = λ db h. (((k.at db h.0).0, (l.at db h.1).0), (k.at db h.0).1) }
