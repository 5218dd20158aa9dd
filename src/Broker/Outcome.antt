-- ===== src/Broker/Outcome.antt =====
-- What consuming a handoff does: on success the bindings held and the record is spent, on failure
-- nothing has changed.
use text.Mathlib.TextEquality.{eq_iff}
use mathlib.Core.Path.{subst}
use clockr.Base.{
  ◌⊎◌, Bool, false, if◌then◌else◌, ap, sym, ℕ, ◌<◌, ◌≡◌, ◌≢◌, ◌↔◌, refl, String, true, ◌&&◌, Option,
  none, some, List, [], ◌∷◌, arith, find, any, Bool-cases, inl, inr,
}
use clockr.Broker.{
  StoreError, Reply, done, failed, HandoffRecord, SqliteStore, Engine, Binding, provider_or_google,
  is_handoff, is_unused, use_handoffs, check_handoff, finish_handoff, found_handoff,
  consume_handoff,
}

-- Everything that the desktop presents is what the record holds, and the record is fresh.
pub record Matches (b : Binding) (now : ℕ) (rec : HandoffRecord) : Type 0 where
  pub unused : is_unused rec.used_at ≡ true
  pub fresh : now < rec.expires_at
  pub provider : provider_or_google rec.provider ≡ provider_or_google b.provider
  pub session : rec.desktop_session_id ≡ b.desktop_session_id
  pub state : rec.state_id ≡ b.state_id
  pub challenge : rec.handoff_challenge ≡ b.handoff_challenge

check_handoff-Matches :
    (b : Binding) (now : ℕ) (rec : HandoffRecord)
    → check_handoff b now rec ≡ none
    → Matches b now rec
unfolding check_handoff
check_handoff-Matches b now rec h = record {
  unused = ground arith;
  fresh = ground arith;
  provider = (eq_iff _ _).0 (ground arith);
  session = (eq_iff _ _).0 (ground arith);
  state = (eq_iff _ _).0 (ground arith);
  challenge = (eq_iff _ _).0 (ground arith);
}

-- A record that is spent: marked as used, without its payload, and otherwise as it was.
pub record IsSpent (now : ℕ) (before after : HandoffRecord) : Type 0 where
  pub used : after.used_at ≡ some now
  pub emptied : after.encrypted_token_payload ≡ none
  pub rest :
      record after {
        used_at = before.used_at;
        encrypted_token_payload = before.encrypted_token_payload;
      }
      ≡ before

-- A record is spent if it stands under the code and is unused, and stays as it was if not.
abbrev pub IsRightful : String → ℕ → HandoffRecord → HandoffRecord → Type 0
IsRightful code now r x =
    ((r.code_hash ≡ code) × (r.used_at ≡ none) × IsSpent now r x)
    ⊎ (((r.code_hash ≢ code) ⊎ (r.used_at ≢ none)) × (x ≡ r))

-- The same of the records one by one.
abbrev pub SpendsOnly : String → ℕ → List HandoffRecord → List HandoffRecord → Type 0
SpendsOnly code now [] [] = Unit
SpendsOnly code now [] (x ∷ xs) = ⊥
SpendsOnly code now (r ∷ rs) [] = ⊥
SpendsOnly code now (r ∷ rs) (x ∷ xs) = IsRightful code now r x × SpendsOnly code now rs xs

-- What a reply of `ConsumeHandoff` says of the store before and after it.
abbrev pub Settled : String → Binding → ℕ → SqliteStore → Reply HandoffRecord × SqliteStore → Type 0
Settled code b now store (failed e, after) = after ≡ store
Settled code b now store (done out, after) =
    (rec : HandoffRecord) × (find (is_handoff code) store.handoffs ≡ some rec)
    × Matches b now rec
    × (out ≡ record rec { used_at = some now })
    × (after.states ≡ store.states)
    × SpendsOnly code now store.handoffs after.handoffs

is_handoff_iff : (code : String) (r : HandoffRecord) → is_handoff code r ≡ true ↔ r.code_hash ≡ code
unfolding is_handoff
is_handoff_iff code r = eq_iff r.code_hash code

one-IsRightful :
    (code : String) (now : ℕ) (r : HandoffRecord) (b : Bool) (o : Option ℕ)
    → is_handoff code r ≡ b
    → r.used_at ≡ o
    → IsRightful code now r (
        if b && is_unused o
        then record r { used_at = some now; encrypted_token_payload = none }
        else r)
one-IsRightful code now r true none e u =
    inl ((is_handoff_iff code r).0 e, u, record { used = refl; emptied = refl; rest = refl })
one-IsRightful code now r true (some t) e u = inr (inr (λ v. absurd (ground (arith, u, v))), refl)
one-IsRightful code now r false o e u =
    inr (inl (λ h. absurd (ground (arith, e, (is_handoff_iff code r).1 h))), refl)

use_handoffs-SpendsOnly :
    (code : String) (now : ℕ) (rs : List HandoffRecord)
    → SpendsOnly code now rs (use_handoffs code now rs)
unfolding use_handoffs
use_handoffs-SpendsOnly code now [] = tt
use_handoffs-SpendsOnly code now (r ∷ rs) = (
  one-IsRightful code now r (is_handoff code r) r.used_at refl refl,
  use_handoffs-SpendsOnly code now rs,
)

-- The same, with the statements as they were run.
abbrev pub Wrote : String → Binding → ℕ → SqliteStore → Reply HandoffRecord × SqliteStore → Type 0
Wrote code b now store (failed e, after) = after ≡ store
Wrote code b now store (done out, after) =
    (rec : HandoffRecord) × (find (is_handoff code) store.handoffs ≡ some rec)
    × Matches b now rec
    × (out ≡ record rec { used_at = some now })
    × (after ≡ record store { handoffs = use_handoffs code now store.handoffs })

finish-Wrote :
    (engine : Engine) (code : String) (b : Binding) (now : ℕ) (store : SqliteStore)
    (rec : HandoffRecord) (o : Option StoreError)
    → find (is_handoff code) store.handoffs ≡ some rec
    → check_handoff b now rec ≡ o
    → Wrote code b now store (finish_handoff engine code now rec o store)
unfolding finish_handoff
finish-Wrote engine code b now store rec (some e) f c = refl
finish-Wrote engine code b now store rec none f c = elim (Bool-cases engine.updates) [
  | inr u ↦ rw (u, finish_handoff) refl
  | inl u ↦ elim (Bool-cases (any (λ r. is_handoff code r && is_unused r.used_at) store.handoffs)) [
    | inr a ↦ rw (u, a, finish_handoff) refl
    | inl a ↦ elim (Bool-cases engine.commits) [
      | inr k ↦ rw (u, a, k, finish_handoff) refl
      | inl k ↦ rw (u, a, k, finish_handoff) (rec, f, check_handoff-Matches b now rec c, refl, refl)
    ]
  ]
]

found-Wrote :
    (engine : Engine) (code : String) (b : Binding) (now : ℕ) (store : SqliteStore)
    (o : Option HandoffRecord)
    → find (is_handoff code) store.handoffs ≡ o
    → Wrote code b now store (found_handoff engine code b now o store)
unfolding found_handoff
found-Wrote engine code b now store none f = refl
found-Wrote engine code b now store (some rec) f =
    finish-Wrote engine code b now store rec (check_handoff b now rec) f refl

pub consume_handoff-Wrote :
    (engine : Engine) (code : String) (b : Binding) (now : ℕ) (store : SqliteStore)
    → Wrote code b now store (consume_handoff engine code b now store)
unfolding consume_handoff
consume_handoff-Wrote engine code b now store =
    elim (Bool-cases (engine.begins && engine.selects)) [
      | inl e ↦ rw (e, consume_handoff) (found-Wrote engine code b now store _ refl)
      | inr e ↦ rw (e, consume_handoff) refl
    ]

Wrote-Settled :
    (code : String) (b : Binding) (now : ℕ) (store : SqliteStore)
    → (x : Reply HandoffRecord × SqliteStore) → Wrote code b now store x
    → Settled code b now store x
Wrote-Settled code b now store (failed e, after) h = h
Wrote-Settled code b now store (done out, after) (rec, f, m, o, a) = (
  rec,
  f,
  m,
  o,
  ap (λ (s : SqliteStore). s.states) a,
  subst (SpendsOnly code now store.handoffs) (ap (λ (s : SqliteStore). s.handoffs) (sym a))
      (use_handoffs-SpendsOnly code now store.handoffs),
)

-- Whatever the engine refuses: a handoff that is consumed was stored under the code, unused, before
-- its expiry and with the provider, session, state and challenge that the desktop presents. Then the
-- unused records under the code are marked as used at the present time and lose their payload, and
-- nothing else in them or in the store changes. A call that fails, as a wrong guess does, changes nothing.
pub consume_handoff-Settled :
    (engine : Engine) (code : String) (b : Binding) (now : ℕ) (store : SqliteStore)
    → Settled code b now store (consume_handoff engine code b now store)
consume_handoff-Settled engine code b now store =
    Wrote-Settled code b now store _ (consume_handoff-Wrote engine code b now store)
