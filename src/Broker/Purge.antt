-- ===== src/Broker/Purge.antt =====
-- What purging removes. The texts of expiry times compare as the times do from second to second,
-- but not within one second.
use clockr.Base.{ℕ, ◌<◌, ◌≡◌, ◌/◌, refl, true, false, not, List, [], ◌∷◌, arith, ltb, keep}
use clockr.GoTime.{second}
use clockr.Broker.{HandoffRecord, OauthState, SqliteStore, Engine, text_le, purge_expired}

text_le_seconds :
    (t u : ℕ)
    → (t / second < u / second → text_le t u ≡ true)
      × (u / second < t / second → text_le t u ≡ false)
unfolding text_le
text_le_seconds t u = ground arith

-- The records whose expiry lies in a second after that of `now`.
abbrev pub later : {A : Type 0} → (A → ℕ) → ℕ → List A → List A
later expires now rs = keep (λ r. ltb (now / second) (expires r / second)) rs

-- The records whose expiry lies in a second before that of `now`.
abbrev pub earlier : {A : Type 0} → (A → ℕ) → ℕ → List A → List A
earlier expires now rs = keep (λ r. ltb (expires r / second) (now / second)) rs

module _ {A : Type 0} (expires : A → ℕ) (now : ℕ) where
  later-keep :
      (rs : List A)
      → later expires now (keep (λ r. not (text_le (expires r) now)) rs) ≡ later expires now rs
  unfolding keep
  later-keep [] = refl
  later-keep (r ∷ rs) = ground (arith, later-keep rs, (text_le_seconds (expires r) now).1)

  earlier-keep :
      (rs : List A) → earlier expires now (keep (λ r. not (text_le (expires r) now)) rs) ≡ []
  unfolding keep
  earlier-keep [] = refl
  earlier-keep (r ∷ rs) = ground (arith, earlier-keep rs, (text_le_seconds (expires r) now).0)

-- A purge that the engine carries out leaves no state and no handoff whose expiry lies in a second
-- before the present one, and keeps, in their order, all whose expiry lies in a second after it.
pub purge_expired-later :
    (engine : Engine) (now : ℕ) (store : SqliteStore)
    → engine.updates ≡ true
    → engine.commits ≡ true
    → (earlier (λ (r : OauthState). r.expires_at) now (purge_expired engine now store).1.states
        ≡ [])
      × (earlier
            (λ (r : HandoffRecord). r.expires_at)
            now
            (purge_expired engine now store).1.handoffs
          ≡ [])
      × (later (λ (r : OauthState). r.expires_at) now (purge_expired engine now store).1.states
          ≡ later (λ (r : OauthState). r.expires_at) now store.states)
      × (later (λ (r : HandoffRecord). r.expires_at) now (purge_expired engine now store).1.handoffs
          ≡ later (λ (r : HandoffRecord). r.expires_at) now store.handoffs)
unfolding purge_expired
purge_expired-later engine now store u c =
    rw (u, c, purge_expired)
      (
        earlier-keep _ now store.states,
        earlier-keep _ now store.handoffs,
        later-keep _ now store.states,
        later-keep _ now store.handoffs,
      )
