-- ===== src/Limiter/Window.antt =====
-- How many calls a fixed window lets through.
use text.Mathlib.Text.{◌==◌ as str_eq}
use clockr.Base.{
  ℕ, suc, ◌+◌, ◌-◌, ◌<◌, ◌≤◌, ◌≡◌, refl, String, Bool, true, false, ◌&&◌, Option, none, some, List,
  [], ◌∷◌, leb, ◌==◌, if◌then◌else◌, Bool-cases, inl, inr,
}
use clockr.Limiter.{Bucket, Limiter, evict_expired, put_bucket, write_back, allow}

-- A call of Allow: its key, its limit and the time.
pub record Request : Type 0 where
  pub key : String
  pub limit : ℕ
  pub now : ℕ

abbrev pub serve : Request → Limiter → Bool × Limiter
serve r l = allow r.key r.limit r.now l

-- How many of the calls for the key are allowed.
unfoldable pub allowed : String → List Request → Limiter → ℕ
allowed key [] l = 0
allowed key (r ∷ rs) l =
    let rest = allowed key rs (serve r l).1 in
    if str_eq key r.key && (serve r l).0 then suc rest else rest

-- How many calls a bucket can still let through before `start + window`, if the bucket started at
-- `start` or later, or earlier.
abbrev quota_of : ℕ → ℕ → Option Bucket → ℕ
quota_of limit start none = limit
quota_of limit start (some b) =
    if leb start b.window_start then limit - b.count else (limit - b.count) + limit

-- What stands in the bucket after the answer.
abbrev after_decision : Option Bucket → Option Bucket → Option Bucket
after_decision old none = old
after_decision old (some b) = some b

abbrev cost : Bool → ℕ
cost true = 1
cost false = 0

write_back-window :
    (key : String) (o : Option Bucket) (l : Limiter) → (write_back key o l).window ≡ l.window
unfolding put_bucket
write_back-window key none l = refl
write_back-window key (some b) l = refl

pub window_same : (r : Request) (l : Limiter) → (serve r l).1.window ≡ l.window
unfolding allow evict_expired
window_same r l = elim (Bool-cases (r.limit == 0)) [
  | inl z ↦ rw (z, allow) refl
  | inr z ↦ rw (z, allow) (write_back-window r.key _ (evict_expired r.now l))
]

-- The call comes within a window's length from `start`, and has the limit if it has the key.
pub record InWindow (key : String) (limit start window : ℕ) (r : Request) : Type 0 where
  pub since : start ≤ r.now
  pub before : r.now < start + window
  pub same : str_eq key r.key ≡ true → r.limit ≡ limit
