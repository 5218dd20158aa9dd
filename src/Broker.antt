-- ===== src/Broker.antt =====
-- internal/broker/store/store.go: the short-lived records of the OAuth broker.
--
-- The two tables are lists. `Engine` says which statement of a transaction SQLite refuses. Times
-- are written with nanoseconds, so a text of one is kept as its instant; how such texts compare is
-- `text_le`.
pub mod Single
pub mod Purge
pub mod Outcome
pub mod States
use text.Mathlib.Text.{◌==◌ as str_eq}
use clockr.Base.{
  ℕ, zero, suc, ◌-◌, ◌*◌, ◌/◌, ◌%◌, ◌^◌, String, Bool, true, false, not, ◌&&◌, ◌||◌, Option, none,
  some, List, [], ◌∷◌, ◌++◌, ltb, leb, ◌==◌, if◌then◌else◌, find, keep, any,
}
use clockr.GoTime.{second}
use clockr.GoText.{trim_space}

-- ErrNotFound, ErrExpired, ErrAlreadyUsed, ErrMismatch, and an error of the database.
pub data StoreError : Type 0 where
  not_found expired already_used mismatch database : StoreError

pub data Reply (A : Type 0) : Type 0 where
  done : A → Reply A
  failed : StoreError → Reply A

pub record OauthState : Type 0 where
  pub id : String
  pub provider : String
  pub desktop_session_id : String
  pub pkce_verifier : String
  pub pkce_challenge : String
  pub handoff_challenge : String
  pub desktop_handoff_redirect : String
  pub scopes : List String
  pub app_version : String
  pub platform : String
  pub source_ip_bucket : String
  pub expires_at : ℕ
  pub used_at : Option ℕ

pub record HandoffRecord : Type 0 where
  pub code_hash : String
  pub provider : String
  pub state_id : String
  pub desktop_session_id : String
  pub handoff_challenge : String
  pub encrypted_token_payload : Option String
  pub account_hint : String
  pub scopes : List String
  pub expires_at : ℕ
  pub used_at : Option ℕ

pub record SqliteStore : Type 0 where
  pub states : List OauthState
  pub handoffs : List HandoffRecord

-- Whether BeginTx, the SELECT, the UPDATE (or the INSERT, the first DELETE) and the Commit (or the
-- second DELETE) succeed.
pub record Engine : Type 0 where
  pub begins : Bool
  pub selects : Bool
  pub updates : Bool
  pub commits : Bool

unfoldable pub provider_or_google : String → String
provider_or_google provider =
    let trimmed = trim_space provider in if str_eq trimmed "" then "google" else trimmed

abbrev pub is_unused : Option ℕ → Bool
is_unused none = true
is_unused (some t) = false

unfoldable pub is_state : String → OauthState → Bool
is_state id rec = str_eq rec.id id

unfoldable pub is_handoff : String → HandoffRecord → Bool
is_handoff code_hash rec = str_eq rec.code_hash code_hash

-- INSERT, refused for a key that the table holds.
unfoldable pub save_oauth_state : Engine → OauthState → SqliteStore → Reply (Unit {0}) × SqliteStore
unfolding provider_or_google is_state
save_oauth_state engine rec store =
    if not engine.updates || any (is_state rec.id) store.states then (failed database, store) else (
      done tt,
      record store {
        states =
            store.states
            ++ record rec { provider = provider_or_google rec.provider; used_at = none } ∷ [];
      },
    )

unfoldable pub save_handoff : Engine → HandoffRecord → SqliteStore → Reply (Unit {0}) × SqliteStore
unfolding provider_or_google is_handoff
save_handoff engine rec store =
    if not engine.updates || any (is_handoff rec.code_hash) store.handoffs
    then (failed database, store)
    else (
      done tt,
      record store {
        handoffs =
            store.handoffs
            ++ record rec { provider = provider_or_google rec.provider; used_at = none } ∷ [];
      },
    )

-- SET used_at = ? WHERE id = ? AND used_at IS NULL
unfoldable pub use_states : String → ℕ → List OauthState → List OauthState
unfolding is_state
use_states id now [] = []
use_states id now (r ∷ rs) =
    (if is_state id r && is_unused r.used_at then record r { used_at = some now } else r)
    ∷ use_states id now rs

-- SET used_at = ?, encrypted_token_payload = NULL WHERE code_hash = ? AND used_at IS NULL
unfoldable pub use_handoffs : String → ℕ → List HandoffRecord → List HandoffRecord
unfolding is_handoff
use_handoffs code now [] = []
use_handoffs code now (r ∷ rs) =
    (if is_handoff code r && is_unused r.used_at
      then record r { used_at = some now; encrypted_token_payload = none }
      else r)
    ∷ use_handoffs code now rs

-- The checks of a state that was selected, in their order.
unfoldable pub check_state : String → ℕ → OauthState → Option StoreError
unfolding provider_or_google
check_state provider now rec =
    if not (is_unused rec.used_at)
    then some already_used
    else if not (str_eq (provider_or_google rec.provider) (provider_or_google provider))
    then some mismatch
    else if not (ltb now rec.expires_at)
    then some expired
    else none

-- What the desktop presents with a code.
pub record Binding : Type 0 where
  pub provider : String
  pub desktop_session_id : String
  pub state_id : String
  pub handoff_challenge : String

unfoldable pub check_handoff : Binding → ℕ → HandoffRecord → Option StoreError
unfolding provider_or_google
check_handoff b now rec =
    if not (is_unused rec.used_at)
    then some already_used
    else if not (ltb now rec.expires_at)
    then some expired
    else if not (str_eq (provider_or_google rec.provider) (provider_or_google b.provider))
    then some mismatch
    else if not (str_eq rec.desktop_session_id b.desktop_session_id)
        || not (str_eq rec.state_id b.state_id)
        || not (str_eq rec.handoff_challenge b.handoff_challenge)
    then some mismatch
    else none

-- From the checks on: the UPDATE, its count of rows, and the Commit.
unfoldable pub finish_state :
    Engine
    → String
    → ℕ
    → OauthState
    → Option StoreError
    → SqliteStore
    → Reply OauthState × SqliteStore
unfolding use_states is_state
finish_state engine id now rec (some e) store = (failed e, store)
finish_state engine id now rec none store =
    if not engine.updates
    then (failed database, store)
    else if not (any (λ r. is_state id r && is_unused r.used_at) store.states)
    then (failed already_used, store)
    else if not engine.commits
    then (failed database, store)
    else (
      done (record rec { used_at = some now }),
      record store { states = use_states id now store.states },
    )

unfoldable pub finish_handoff :
    Engine
    → String
    → ℕ
    → HandoffRecord
    → Option StoreError
    → SqliteStore
    → Reply HandoffRecord × SqliteStore
unfolding use_handoffs is_handoff
finish_handoff engine code now rec (some e) store = (failed e, store)
finish_handoff engine code now rec none store =
    if not engine.updates
    then (failed database, store)
    else if not (any (λ r. is_handoff code r && is_unused r.used_at) store.handoffs)
    then (failed already_used, store)
    else if not engine.commits
    then (failed database, store)
    else (
      done (record rec { used_at = some now }),
      record store { handoffs = use_handoffs code now store.handoffs },
    )

unfoldable pub found_state :
    Engine → String → String → ℕ → Option OauthState → SqliteStore → Reply OauthState × SqliteStore
unfolding check_state finish_state
found_state engine id provider now none store = (failed not_found, store)
found_state engine id provider now (some rec) store =
    finish_state engine id now rec (check_state provider now rec) store

unfoldable pub found_handoff :
    Engine
    → String
    → Binding
    → ℕ
    → Option HandoffRecord
    → SqliteStore
    → Reply HandoffRecord × SqliteStore
unfolding check_handoff finish_handoff
found_handoff engine code b now none store = (failed not_found, store)
found_handoff engine code b now (some rec) store =
    finish_handoff engine code now rec (check_handoff b now rec) store

unfoldable pub consume_oauth_state :
    Engine → String → String → ℕ → SqliteStore → Reply OauthState × SqliteStore
unfolding found_state is_state
consume_oauth_state engine id provider now store =
    if not (engine.begins && engine.selects)
    then (failed database, store)
    else found_state engine id provider now (find (is_state id) store.states) store

unfoldable pub consume_handoff :
    Engine → String → Binding → ℕ → SqliteStore → Reply HandoffRecord × SqliteStore
unfolding found_handoff is_handoff
consume_handoff engine code b now store =
    if not (engine.begins && engine.selects)
    then (failed database, store)
    else found_handoff engine code b now (find (is_handoff code) store.handoffs) store

-- Whether the digits of one fraction of a second, of which `n` are left, come before those of
-- another or are the same, as texts: zeros at the end are not written, and the Z behind the last
-- digit comes after every digit, but the point before the first comes before it.
unfoldable pub digits_le : ℕ → ℕ → ℕ → Bool
digits_le zero a b = true
digits_le (suc n) a b =
    let rest = digits_le n (a % 10 ^ n) (b % 10 ^ n) in
    if a == b
    then true
    else if a == 0
    then false
    else if b == 0
    then true
    else if a / 10 ^ n == b / 10 ^ n
    then rest
    else ltb (a / 10 ^ n) (b / 10 ^ n)

-- Whether the text of an instant, t.UTC().Format(time.RFC3339Nano), is at most another.
unfoldable pub text_le : ℕ → ℕ → Bool
unfolding digits_le
text_le t u =
    if t / second == u / second
    then digits_le 9 (t % second) (u % second)
    else ltb (t / second) (u / second)

-- PurgeExpired: two statements, each on its own.
unfoldable pub purge_expired : Engine → ℕ → SqliteStore → Reply (Unit {0}) × SqliteStore
unfolding text_le
purge_expired engine now store =
    if not engine.updates
    then (failed database, store)
    else let first = record store {
      states = keep (λ r. not (text_le r.expires_at now)) store.states;
    } in
      if not engine.commits then (failed database, first) else (
        done tt,
        record first { handoffs = keep (λ r. not (text_le r.expires_at now)) store.handoffs },
      )
