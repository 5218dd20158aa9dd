-- ===== src/Broker/States.antt =====
-- What consuming an OAuth state does: on success it was fresh and is used up, on failure nothing has changed.
use text.Mathlib.TextEquality.{eq_iff}
use clockr.Base.{
  ℕ, ◌<◌, ◌≡◌, ◌≢◌, ◌⊎◌, ◌↔◌, refl, ap, sym, String, Bool, true, false, ◌&&◌, Option, none, some,
  List, [], ◌∷◌, arith, find, any, Bool-cases, inl, inr, if◌then◌else◌,
}
use clockr.Broker.{
  StoreError, Reply, done, failed, OauthState, SqliteStore, Engine, provider_or_google, is_state,
  is_unused, use_states, check_state, finish_state, found_state, consume_oauth_state,
}

-- The state is unused, not expired, and of the provider that the callback names.
pub record IsFresh (provider : String) (now : ℕ) (rec : OauthState) : Type 0 where
  pub unused : rec.used_at ≡ none
  pub fresh : now < rec.expires_at
  pub same : provider_or_google rec.provider ≡ provider_or_google provider

unused-none : (o : Option ℕ) → is_unused o ≡ true → o ≡ none
unused-none none h = refl
unused-none (some t) h = absurd (ground arith)

check_state-IsFresh :
    (provider : String) (now : ℕ) (rec : OauthState)
    → check_state provider now rec ≡ none
    → IsFresh provider now rec
unfolding check_state
check_state-IsFresh provider now rec h = record {
  unused = unused-none rec.used_at (ground arith);
  fresh = ground arith;
  same = (eq_iff _ _).0 (ground arith);
}

-- A state is marked as used, and is otherwise as it was, if it has the id and is unused, and stays as it
-- was if not.
abbrev pub IsMarked : String → ℕ → OauthState → OauthState → Type 0
IsMarked id now r x =
    ((r.id ≡ id) × (r.used_at ≡ none) × (x.used_at ≡ some now) × (record x { used_at = none } ≡ r))
    ⊎ (((r.id ≢ id) ⊎ (r.used_at ≢ none)) × (x ≡ r))

-- The same of the states one by one.
abbrev pub MarksOnly : String → ℕ → List OauthState → List OauthState → Type 0
MarksOnly id now [] [] = Unit
MarksOnly id now [] (x ∷ xs) = ⊥
MarksOnly id now (r ∷ rs) [] = ⊥
MarksOnly id now (r ∷ rs) (x ∷ xs) = IsMarked id now r x × MarksOnly id now rs xs

-- What a reply of `ConsumeOAuthState` says of the store before and after it.
abbrev pub IsConsumed : String → String → ℕ → SqliteStore → Reply OauthState × SqliteStore → Type 0
IsConsumed id provider now store (failed e, after) = after ≡ store
IsConsumed id provider now store (done out, after) =
    (rec : OauthState) × (find (is_state id) store.states ≡ some rec)
    × IsFresh provider now rec
    × (out ≡ record rec { used_at = some now })
    × (after.handoffs ≡ store.handoffs)
    × MarksOnly id now store.states after.states

is_state_iff : (id : String) (r : OauthState) → is_state id r ≡ true ↔ r.id ≡ id
unfolding is_state
is_state_iff id r = eq_iff r.id id

marked_back : (now : ℕ) (r : OauthState) → r.used_at ≡ none → record r { used_at = none } ≡ r
marked_back now r h = ap (λ u. record r { used_at = u }) (sym h)

one-IsMarked :
    (id : String) (now : ℕ) (r : OauthState) (b : Bool) (o : Option ℕ)
    → is_state id r ≡ b
    → r.used_at ≡ o
    → IsMarked id now r (if b && is_unused o then record r { used_at = some now } else r)
one-IsMarked id now r true none e u = inl ((is_state_iff id r).0 e, u, refl, marked_back now r u)
one-IsMarked id now r true (some t) e u = inr (inr (λ v. absurd (ground (arith, u, v))), refl)
one-IsMarked id now r false o e u =
    inr (inl (λ h. absurd (ground (arith, e, (is_state_iff id r).1 h))), refl)

use_states-MarksOnly :
    (id : String) (now : ℕ) (rs : List OauthState) → MarksOnly id now rs (use_states id now rs)
unfolding use_states
use_states-MarksOnly id now [] = tt
use_states-MarksOnly id now (r ∷ rs) =
    (one-IsMarked id now r (is_state id r) r.used_at refl refl, use_states-MarksOnly id now rs)

finish-IsConsumed :
    (engine : Engine) (id provider : String) (now : ℕ) (store : SqliteStore) (rec : OauthState)
    (o : Option StoreError)
    → find (is_state id) store.states ≡ some rec
    → check_state provider now rec ≡ o
    → IsConsumed id provider now store (finish_state engine id now rec o store)
unfolding finish_state
finish-IsConsumed engine id provider now store rec (some e) f c = refl
finish-IsConsumed engine id provider now store rec none f c = elim (Bool-cases engine.updates) [
  | inr u ↦ rw (u, finish_state) refl
  | inl u ↦ elim (Bool-cases (any (λ r. is_state id r && is_unused r.used_at) store.states)) [
    | inr a ↦ rw (u, a, finish_state) refl
    | inl a ↦ elim (Bool-cases engine.commits) [
      | inr k ↦ rw (u, a, k, finish_state) refl
      | inl k ↦
          rw (u, a, k, finish_state)
            (
              rec,
              f,
              check_state-IsFresh provider now rec c,
              refl,
              refl,
              use_states-MarksOnly id now store.states,
            )
    ]
  ]
]

found-IsConsumed :
    (engine : Engine) (id provider : String) (now : ℕ) (store : SqliteStore) (o : Option OauthState)
    → find (is_state id) store.states ≡ o
    → IsConsumed id provider now store (found_state engine id provider now o store)
unfolding found_state
found-IsConsumed engine id provider now store none f = refl
found-IsConsumed engine id provider now store (some rec) f =
    finish-IsConsumed engine id provider now store rec (check_state provider now rec) f refl

-- Whatever the engine refuses: an OAuth state that is consumed was stored under the id, unused, before its
-- expiry and for the provider that the callback names. Then the unused states under the id are marked as
-- used at the present time, and nothing else in them or in the store changes. A call that fails changes
-- nothing.
pub consume_oauth_state-IsConsumed :
    (engine : Engine) (id provider : String) (now : ℕ) (store : SqliteStore)
    → IsConsumed id provider now store (consume_oauth_state engine id provider now store)
unfolding consume_oauth_state
consume_oauth_state-IsConsumed engine id provider now store =
    elim (Bool-cases (engine.begins && engine.selects)) [
      | inl e ↦ rw (e, consume_oauth_state) (found-IsConsumed engine id provider now store _ refl)
      | inr e ↦ rw (e, consume_oauth_state) refl
    ]
