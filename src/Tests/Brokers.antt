-- ===== src/Tests/Brokers.antt =====
-- The store and the limiter of the broker on concrete calls.
use clockr.Base.{
  ℕ, ◌+◌, ◌*◌, ◌^◌, ◌≡◌, refl, true, false, List, [], ◌∷◌, none, some, arith, String, find, any,
}
use clockr.GoTime.{second}
use clockr.GoText.{trim_space}
use clockr.Broker.{
  consume_oauth_state, HandoffRecord, OauthState, SqliteStore, Engine, Binding, consume_handoff,
  purge_expired, text_le,
}
use clockr.Broker.States.{IsConsumed, consume_oauth_state-IsConsumed}
use clockr.Broker.Outcome.{Settled, consume_handoff-Settled}
use clockr.Broker.Purge.{earlier, later, purge_expired-later}
use clockr.Broker.Single.{Call, take_handoff, purge, run, stores, is_done, take_once}
use clockr.Limiter.{Limiter, allow}
use clockr.Limiter.Again.{served, allow-again}
use clockr.Limiter.Window.{Request}

abbrev healthy : Engine
healthy = record { begins = true; selects = true; updates = true; commits = true }

abbrev sealed : HandoffRecord
sealed = record {
  code_hash = "c1";
  provider = "google";
  state_id = "s1";
  desktop_session_id = "d1";
  handoff_challenge = "h1";
  encrypted_token_payload = some "tokens";
  account_hint = "";
  scopes = [];
  expires_at = 100 * second;
  used_at = none;
}

abbrev store : SqliteStore
store = record { states = []; handoffs = sealed ∷ [] }

abbrev rightful : Binding
rightful = record {
  provider = "";
  desktop_session_id = "d1";
  state_id = "s1";
  handoff_challenge = "h1";
}

abbrev guess : Binding
guess = record rightful { handoff_challenge = "h2" }

-- A record that expires half a second from now counts as expired.
purges_early : text_le (7 * second + 5 * 10 ^ 8) (7 * second) ≡ true
unfolding text_le
purges_early = refl

consume_handoff-Settled_example :
    Settled "c1" rightful
      (5 * second)
      store
      (consume_handoff healthy "c1" rightful (5 * second) store)
consume_handoff-Settled_example = consume_handoff-Settled healthy "c1" rightful (5 * second) store

abbrev waiting : OauthState
waiting = record {
  id = "s1";
  provider = "google";
  desktop_session_id = "d1";
  pkce_verifier = "v";
  pkce_challenge = "p";
  handoff_challenge = "h1";
  desktop_handoff_redirect = "";
  scopes = [];
  app_version = "";
  platform = "";
  source_ip_bucket = "";
  expires_at = 100 * second;
  used_at = none;
}

abbrev pending : SqliteStore
pending = record { states = waiting ∷ []; handoffs = [] }

consume_oauth_state-IsConsumed_example :
    IsConsumed "s1" "google"
      (5 * second)
      pending
      (consume_oauth_state healthy "s1" "google" (5 * second) pending)
consume_oauth_state-IsConsumed_example =
    consume_oauth_state-IsConsumed healthy "s1" "google" (5 * second) pending

abbrev between : List Call
between = take_handoff healthy "c2" rightful (6 * second) ∷ purge healthy (7 * second) ∷ []

take_once_example :
    is_done
      (consume_handoff healthy "c1" rightful
        (8 * second)
        (run between (consume_handoff healthy "c1" rightful (5 * second) store).1)).0
    ≡ false
unfolding stores consume_handoff find trim_space any
take_once_example =
    take_once healthy healthy "c1" rightful rightful (5 * second) (8 * second) store between refl
      (refl, (refl, tt))

purge_expired-later_example :
    (earlier
        (λ (r : OauthState). r.expires_at)
        (200 * second)
        (purge_expired healthy (200 * second) store).1.states
      ≡ [])
    × (earlier
          (λ (r : HandoffRecord). r.expires_at)
          (200 * second)
          (purge_expired healthy (200 * second) store).1.handoffs
        ≡ [])
    × (later
          (λ (r : OauthState). r.expires_at)
          (200 * second)
          (purge_expired healthy (200 * second) store).1.states
        ≡ later (λ (r : OauthState). r.expires_at) (200 * second) store.states)
    × (later
          (λ (r : HandoffRecord). r.expires_at)
          (200 * second)
          (purge_expired healthy (200 * second) store).1.handoffs
        ≡ later (λ (r : HandoffRecord). r.expires_at) (200 * second) store.handoffs)
purge_expired-later_example = purge_expired-later healthy (200 * second) store refl refl

abbrev limiter : Limiter
limiter = record {
  window = 60 * second;
  buckets = λ key. some (record { window_start = 0; count = 1 });
}

abbrev at_time : String → ℕ → Request
at_time key now = record { key = key; limit = 1; now = now }

abbrev requests : List Request
requests = at_time "a" (59 * second) ∷ at_time "b" (60 * second) ∷ at_time "a" (61 * second) ∷ []

allow-again_example : (allow "a" 1 (121 * second) (served requests limiter)).0 ≡ true
allow-again_example =
    allow-again "a" 1 (121 * second) (61 * second) requests limiter
      (omega arith, (omega arith, (omega arith, tt))) (λ key. omega arith) (omega arith)
      (omega arith)
