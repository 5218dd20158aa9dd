-- ===== src/Broker/Single.antt =====
-- A code is handed out once: runs of calls on the store.
use clockr.Base.{
  ℕ, ◌≡◌, refl, ◌∙◌, ap, String, Bool, true, false, not, ◌&&◌, ◌||◌, Option, none, some, List, [],
  ◌∷◌, ◌++◌, arith, find, keep, any, All, Bool-cases, inl, inr,
}
use clockr.Broker.{
  StoreError, Reply, done, failed, HandoffRecord, OauthState, SqliteStore, Engine, Binding,
  is_handoff, is_state, is_unused, use_handoffs, save_oauth_state, save_handoff,
  consume_oauth_state, consume_handoff, purge_expired, finish_state, found_state,
}
use clockr.Broker.Outcome.{Wrote, consume_handoff-Wrote}

-- A call on the store, with what the engine makes of it.
pub data Call : Type 0 where
  save_state : Engine → OauthState → Call
  consume_state : Engine → String → String → ℕ → Call
  put_handoff : Engine → HandoffRecord → Call
  take_handoff : Engine → String → Binding → ℕ → Call
  purge : Engine → ℕ → Call

-- The store after a run of calls.
unfoldable pub run : List Call → SqliteStore → SqliteStore
run [] store = store
run (save_state e rec ∷ cs) store = run cs (save_oauth_state e rec store).1
run (consume_state e id provider now ∷ cs) store =
    run cs (consume_oauth_state e id provider now store).1
run (put_handoff e rec ∷ cs) store = run cs (save_handoff e rec store).1
run (take_handoff e code b now ∷ cs) store = run cs (consume_handoff e code b now store).1
run (purge e now ∷ cs) store = run cs (purge_expired e now store).1

-- Whether a call stores a new handoff under the code.
unfoldable pub stores : String → Call → Bool
stores code (put_handoff e rec) = is_handoff code rec
stores code _ = false

-- Whether an unused handoff stands under the code.
abbrev pub live : String → List HandoffRecord → Bool
live code rs = any (λ r. is_handoff code r && is_unused r.used_at) rs

live-append :
    (code : String) (rs : List HandoffRecord) (r : HandoffRecord)
    → is_handoff code r ≡ false
    → live code rs ≡ false
    → live code (rs ++ r ∷ []) ≡ false
unfolding any
live-append code [] r n h = ground arith
live-append code (x ∷ xs) r n h =
    ground (arith, λ (k : live code xs ≡ false). live-append code xs r n k)

live-keep :
    (code : String) (p : HandoffRecord → Bool) (rs : List HandoffRecord)
    → live code rs ≡ false
    → live code (keep p rs) ≡ false
unfolding any keep
live-keep code p [] h = refl
live-keep code p (x ∷ xs) h = ground (arith, λ (k : live code xs ≡ false). live-keep code p xs k)

live-use_handoffs :
    (code other : String) (now : ℕ) (rs : List HandoffRecord)
    → live code rs ≡ false
    → live code (use_handoffs other now rs) ≡ false
unfolding any use_handoffs is_handoff
live-use_handoffs code other now [] h = refl
live-use_handoffs code other now (x ∷ xs) h =
    ground (arith, λ (k : live code xs ≡ false). live-use_handoffs code other now xs k)

used_up :
    (code : String) (now : ℕ) (rs : List HandoffRecord)
    → live code (use_handoffs code now rs) ≡ false
unfolding any use_handoffs is_handoff
used_up code now [] = refl
used_up code now (x ∷ xs) = ground (arith, used_up code now xs)

found_live :
    (code : String) (rs : List HandoffRecord) (rec : HandoffRecord)
    → find (is_handoff code) rs ≡ some rec
    → is_unused rec.used_at ≡ true
    → live code rs ≡ true
unfolding find any
found_live code [] rec f u = absurd (ground arith)
found_live code (x ∷ xs) rec f u =
    ground (arith, λ (k : find (is_handoff code) xs ≡ some rec). found_live code xs rec k u)

Wrote-live :
    (code other : String) (b : Binding) (now : ℕ) (store : SqliteStore) (r : Reply HandoffRecord)
    (after : SqliteStore)
    → Wrote other b now store (r, after)
    → live code store.handoffs ≡ false
    → live code after.handoffs ≡ false
Wrote-live code other b now store (failed e) after s h =
    ap (λ (x : SqliteStore). live code x.handoffs) s ∙ h
Wrote-live code other b now store (done out) after s h =
    ap (λ (x : SqliteStore). live code x.handoffs) s.4
    ∙ live-use_handoffs code other now store.handoffs h

handoffs-finish_state :
    (e : Engine) (id : String) (now : ℕ) (rec : OauthState) (o : Option StoreError)
    (store : SqliteStore)
    → (finish_state e id now rec o store).1.handoffs ≡ store.handoffs
unfolding finish_state
handoffs-finish_state e id now rec (some x) store = refl
handoffs-finish_state e id now rec none store = ground arith

handoffs-found_state :
    (e : Engine) (id provider : String) (now : ℕ) (o : Option OauthState) (store : SqliteStore)
    → (found_state e id provider now o store).1.handoffs ≡ store.handoffs
unfolding found_state
handoffs-found_state e id provider now none store = refl
handoffs-found_state e id provider now (some rec) store = handoffs-finish_state e id now rec _ store

handoffs-consume_oauth_state :
    (e : Engine) (id provider : String) (now : ℕ) (store : SqliteStore)
    → (consume_oauth_state e id provider now store).1.handoffs ≡ store.handoffs
unfolding consume_oauth_state
handoffs-consume_oauth_state e id provider now store = elim (Bool-cases (e.begins && e.selects)) [
  | inl h ↦ rw (h, consume_oauth_state) (handoffs-found_state e id provider now _ store)
  | inr h ↦ rw (h, consume_oauth_state) refl
]

live-save_oauth_state :
    (code : String) (e : Engine) (rec : OauthState) (store : SqliteStore)
    → live code store.handoffs ≡ false
    → live code (save_oauth_state e rec store).1.handoffs ≡ false
unfolding save_oauth_state
live-save_oauth_state code e rec store h =
    elim (Bool-cases (not e.updates || any (is_state rec.id) store.states)) [
      | inl x ↦ rw (x, save_oauth_state) h
      | inr x ↦ rw (x, save_oauth_state) h
    ]

live-save_handoff :
    (code : String) (e : Engine) (rec : HandoffRecord) (store : SqliteStore)
    → is_handoff code rec ≡ false
    → live code store.handoffs ≡ false
    → live code (save_handoff e rec store).1.handoffs ≡ false
unfolding save_handoff is_handoff
live-save_handoff code e rec store n h =
    elim (Bool-cases (not e.updates || any (is_handoff rec.code_hash) store.handoffs)) [
      | inl x ↦ rw (x, save_handoff) h
      | inr x ↦ rw (x, save_handoff) (live-append code store.handoffs _ n h)
    ]

live-purge :
    (code : String) (e : Engine) (now : ℕ) (store : SqliteStore)
    → live code store.handoffs ≡ false
    → live code (purge_expired e now store).1.handoffs ≡ false
unfolding purge_expired
live-purge code e now store h = elim (Bool-cases e.updates) [
  | inr x ↦ rw (x, purge_expired) h
  | inl x ↦ elim (Bool-cases e.commits) [
    | inr y ↦ rw (x, y, purge_expired) h
    | inl y ↦ rw (x, y, purge_expired) (live-keep code _ store.handoffs h)
  ]
]

live-run :
    (code : String) (calls : List Call) (store : SqliteStore)
    → All (λ c. stores code c ≡ false) calls
    → live code store.handoffs ≡ false
    → live code (run calls store).handoffs ≡ false
unfolding run stores
live-run code [] store a h = h
live-run code (save_state e rec ∷ cs) store a h =
    live-run code cs _ a.1 (live-save_oauth_state code e rec store h)
live-run code (consume_state e id provider now ∷ cs) store a h = live-run code cs _ a.1 (
    ap (λ (l : List HandoffRecord). live code l)
      (handoffs-consume_oauth_state e id provider now store)
    ∙ h)
live-run code (put_handoff e rec ∷ cs) store a h =
    live-run code cs _ a.1 (live-save_handoff code e rec store a.0 h)
live-run code (take_handoff e other b now ∷ cs) store a h = live-run code cs _ a.1 (
    Wrote-live code other b now store (consume_handoff e other b now store).0 _
      (consume_handoff-Wrote e other b now store) h)
live-run code (purge e now ∷ cs) store a h = live-run code cs _ a.1 (live-purge code e now store h)

abbrev pub is_done : {A : Type 0} → Reply A → Bool
is_done (done a) = true
is_done (failed e) = false

refused_dead :
    (code : String) (b : Binding) (now : ℕ) (store : SqliteStore) (r : Reply HandoffRecord)
    (after : SqliteStore)
    → Wrote code b now store (r, after)
    → live code store.handoffs ≡ false
    → is_done r ≡ false
refused_dead code b now store (failed e) after s h = refl
refused_dead code b now store (done out) after s h =
    let m = s.2 in absurd (ground (arith, h, found_live code store.handoffs s.0 s.1 m.unused))

taken_dead :
    (code : String) (b : Binding) (now : ℕ) (store : SqliteStore) (r : Reply HandoffRecord)
    (after : SqliteStore)
    → Wrote code b now store (r, after)
    → is_done r ≡ true
    → live code after.handoffs ≡ false
taken_dead code b now store (failed e) after s d = absurd (ground arith)
taken_dead code b now store (done out) after s d =
    ap (λ (x : SqliteStore). live code x.handoffs) s.4 ∙ used_up code now store.handoffs

-- Once a handoff has been taken, whatever calls follow, of which none stores a new handoff under
-- the code: whoever presents the code again, with whatever binding and at whatever time, is refused.
pub take_once :
    (engine again : Engine) (code : String) (b other : Binding) (now later : ℕ)
    (store : SqliteStore) (calls : List Call)
    → is_done (consume_handoff engine code b now store).0 ≡ true
    → All (λ c. stores code c ≡ false) calls
    → is_done
        (consume_handoff again code other later
          (run calls (consume_handoff engine code b now store).1)).0
      ≡ false
take_once engine again code b other now later store calls d a =
    let first = consume_handoff engine code b now store in
    let end = run calls first.1 in
    refused_dead code other later end (consume_handoff again code other later end).0 _
      (consume_handoff-Wrote again code other later end)
      (live-run code calls first.1 a
        (taken_dead code b now store first.0 _ (consume_handoff-Wrote engine code b now store) d))
