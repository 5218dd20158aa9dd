-- ===== src/Limiter/Again.antt =====
-- A key that has used its limit up is let through again.
use clockr.Base.{
  ℕ, ◌+◌, ◌<◌, ◌≤◌, ◌≡◌, refl, String, Bool, true, false, Option, none, some, List, [], ◌∷◌, arith,
  ◌==◌, Bool-cases, inl, inr, All, if◌then◌else◌, leb,
}
use clockr.GoTime.{two63, sub_time}
use clockr.Limiter.{
  Bucket, Limiter, has_ended, live_bucket, evict_expired, put_bucket, decide, write_back, allow,
}
use clockr.Limiter.Window.{Request, serve, window_same}

-- The limiter after the calls.
unfoldable pub served : List Request → Limiter → Limiter
served [] l = l
served (r ∷ rs) l = served rs (serve r l).1

abbrev pub StartedBy : ℕ → Option Bucket → Type 0
StartedBy until none = Unit
StartedBy until (some b) = b.window_start ≤ until

-- No bucket started later.
abbrev pub IsPast : ℕ → Limiter → Type 0
IsPast until l = (key : String) → StartedBy until (l.buckets key)

live-StartedBy :
    (window now until : ℕ) (o : Option Bucket)
    → StartedBy until o
    → StartedBy until (live_bucket window now o)
unfolding live_bucket
live-StartedBy window now until none h = tt
live-StartedBy window now until (some b) h = elim (Bool-cases (has_ended window now b)) [
  | inl e ↦ rw (e) tt
  | inr e ↦ rw (e) h
]

decide-StartedBy :
    (window limit now until : ℕ) (o : Option Bucket)
    → now ≤ until
    → StartedBy until o
    → StartedBy until (decide window limit now o).1
unfolding decide
decide-StartedBy window limit now until none p h = p
decide-StartedBy window limit now until (some b) p h = elim (Bool-cases (has_ended window now b)) [
  | inl e ↦ rw (e) p
  | inr e ↦ rw (e) (elim (Bool-cases (leb limit b.count)) [ inl f ↦ rw (f) tt | inr f ↦ rw (f) h ])
]

put-StartedBy :
    (until : ℕ) (test : Bool) (b : Bucket) (o : Option Bucket)
    → StartedBy until (some b)
    → StartedBy until o
    → StartedBy until (if test then some b else o)
put-StartedBy until true b o h k = h
put-StartedBy until false b o h k = k

write_back-IsPast :
    (until : ℕ) (key : String) (o : Option Bucket) (l : Limiter)
    → StartedBy until o
    → IsPast until l
    → IsPast until (write_back key o l)
unfolding put_bucket
write_back-IsPast until key none l h k = k
write_back-IsPast until key (some b) l h k = λ other. put-StartedBy until _ b _ h (k other)

serve-IsPast :
    (until : ℕ) (r : Request) (l : Limiter)
    → r.now ≤ until
    → IsPast until l
    → IsPast until (serve r l).1
unfolding allow evict_expired
serve-IsPast until r l p h =
    let live : IsPast until (evict_expired r.now l) =
      λ key. live-StartedBy l.window r.now until (l.buckets key) (h key) in
    elim (Bool-cases (r.limit == 0)) [
      | inl z ↦ rw (z, allow) h
      | inr z ↦
          rw (z, allow)
            (write_back-IsPast until r.key _ (evict_expired r.now l)
              (decide-StartedBy l.window r.limit r.now until _ p (live r.key)) live)
    ]

served-IsPast :
    (until : ℕ) (rs : List Request) (l : Limiter)
    → All (λ (r : Request). r.now ≤ until) rs
    → IsPast until l
    → IsPast until (served rs l)
unfolding served
served-IsPast until [] l p h = h
served-IsPast until (r ∷ rs) l p h =
    served-IsPast until rs (serve r l).1 p.1 (serve-IsPast until r l p.0 h)

served-window : (rs : List Request) (l : Limiter) → (served rs l).window ≡ l.window
unfolding served
served-window [] l = refl
served-window (r ∷ rs) l = rw (served-window rs (serve r l).1) (window_same r l)

live_gone :
    (window now until : ℕ) (o : Option Bucket)
    → StartedBy until o
    → until + window ≤ now
    → window < two63
    → live_bucket window now o ≡ none
unfolding live_bucket has_ended sub_time
live_gone window now until none h p q = refl
live_gone window now until (some b) h p q = ground (arith, h)

allow_past :
    (key : String) (limit now until : ℕ) (l : Limiter)
    → IsPast until l
    → until + l.window ≤ now
    → l.window < two63
    → (allow key limit now l).0 ≡ true
unfolding allow evict_expired decide
allow_past key limit now until l h p q = elim (Bool-cases (limit == 0)) [
  | inl z ↦ rw (z, allow) refl
  | inr z ↦ rw (z, allow, live_gone l.window now until (l.buckets key) (h key) p q) refl
]

-- Whatever calls come up to a time, for this and for other keys, and however many of them are refused: a
-- call for the key is allowed as soon as a window's length has passed since then, if no bucket of the
-- limiter started after that time and the window fits an int64.
pub allow-again :
    (key : String) (limit now until : ℕ) (rs : List Request) (l : Limiter)
    → All (λ (r : Request). r.now ≤ until) rs
    → IsPast until l
    → until + l.window ≤ now
    → l.window < two63
    → (allow key limit now (served rs l)).0 ≡ true
allow-again key limit now until rs l p h b q =
    let same = served-window rs l in
    allow_past key limit now until (served rs l) (served-IsPast until rs l p h)
      (omega (arith, b, same)) (omega (arith, q, same))
