-- ===== src/Limiter.antt =====
-- internal/broker/ratelimit/limiter.go: the fixed-window rate limiter of the broker.
--
-- The mutex makes every call of Allow one step. The map of buckets is a function from keys, and the
-- clock's answer an argument. A limit that Go tests by `<= 0` is 0 here.
pub mod Window
pub mod Again
use text.Mathlib.Text.{◌==◌ as str_eq}
use clockr.Base.{
  ℕ, suc, ◌+◌, ◌-◌, String, Bool, true, false, not, ◌&&◌, Option, none, some, List, [], ◌∷◌, ltb,
  leb, ◌==◌, if◌then◌else◌, ℤ, pos, pos_part, leb_ℤ,
}
use clockr.GoTime.{minute, two63, sub_time}

pub record Bucket : Type 0 where
  pub window_start : ℕ
  pub count : ℕ

pub record Limiter : Type 0 where
  pub window : ℕ
  pub buckets : String → Option Bucket

-- New.
unfoldable pub new_limiter : ℤ → Limiter
new_limiter window = record {
  window = if leb_ℤ window (pos 0) then minute else pos_part window;
  buckets = λ key. none;
}

-- now.Sub(b.windowStart) >= l.window, where the difference is an int64.
unfoldable pub has_ended : ℕ → ℕ → Bucket → Bool
unfolding sub_time
has_ended window now b =
    let elapsed = sub_time now b.window_start in ltb elapsed two63 && leb window elapsed

unfoldable pub live_bucket : ℕ → ℕ → Option Bucket → Option Bucket
unfolding has_ended
live_bucket window now none = none
live_bucket window now (some b) = if has_ended window now b then none else some b

unfoldable pub evict_expired : ℕ → Limiter → Limiter
unfolding live_bucket
evict_expired now l = record l { buckets = λ key. live_bucket l.window now (l.buckets key) }

-- l.buckets[key] = b
unfoldable pub put_bucket : String → Bucket → Limiter → Limiter
put_bucket key b l = record l {
  buckets = λ other. if str_eq other key then some b else l.buckets other;
}

-- What Allow answers for the bucket of the key, and the bucket that it leaves there, if it writes
-- one.
unfoldable pub decide : ℕ → ℕ → ℕ → Option Bucket → Bool × Option Bucket
unfolding has_ended
decide window limit now none = (true, some (record { window_start = now; count = 1 }))
decide window limit now (some b) =
    if has_ended window now b
    then (true, some (record { window_start = now; count = 1 }))
    else if leb limit b.count
    then (false, none)
    else (true, some (record b { count = suc b.count }))

abbrev write_back : String → Option Bucket → Limiter → Limiter
write_back key none l = l
write_back key (some b) l = put_bucket key b l

-- Allow, of a limiter that is not nil.
unfoldable pub allow : String → ℕ → ℕ → Limiter → Bool × Limiter
unfolding evict_expired put_bucket decide
allow key limit now l =
    if limit == 0
    then (true, l)
    else let evicted = evict_expired now l in
      let d = decide l.window limit now (evicted.buckets key) in (d.0, write_back key d.1 evicted)
