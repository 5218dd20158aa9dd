-- ===== src/Gaps/Measure.antt =====
-- The length of a list of spans is the number of instants that it covers, and `totalHours` is that
-- length as long as an int64 holds it.
use Prim.Native.Nat.{zero, suc}
use clockr.Base.{
  ℕ, ◌+◌, ◌-◌, ◌<◌, ◌≤◌, ◌≡◌, refl, sym, ◌∙◌, min, Bool, false, ◌&&◌, ◌||◌, List, [], ◌∷◌, ◌++◌,
  arith, if◌then◌else◌, All,
}
use clockr.GoTime.{two63, sub_time, add_duration}
use clockr.Gaps.{Interval, total_from, total_hours}
use clockr.Gaps.Points.{IsProper, within, covered}
use clockr.Gaps.Subtract.{IsOrdered}

-- How many of the first `n` instants pass the test.
unfoldable pub count : ℕ → (ℕ → Bool) → ℕ
count zero p = 0
count (suc n) p = (if p n then 1 else 0) + count n p

pub count-congr : (n : ℕ) (p q : ℕ → Bool) → ((t : ℕ) → p t ≡ q t) → count n p ≡ count n q
unfolding count
count-congr zero p q h = refl
count-congr (suc n) p q h = ground (arith, h n, count-congr n p q h)

pub count-or :
    (n : ℕ) (p q : ℕ → Bool)
    → ((t : ℕ) → (p t && q t) ≡ false)
    → count n (λ t. p t || q t) ≡ count n p + count n q
unfolding count
count-or zero p q h = refl
count-or (suc n) p q h = ground (arith, h n, count-or n p q h)

count-false : (n : ℕ) → count n (λ t. false) ≡ 0
unfolding count
count-false zero = refl
count-false (suc n) = omega (arith, count-false n)

count-within : (n : ℕ) (iv : Interval) → count n (within iv) ≡ min iv.end n - min iv.start n
unfolding count
count-within zero iv = omega arith
count-within (suc n) iv = ground (arith, count-within n iv)

unfoldable pub total : List Interval → ℕ
total [] = 0
total (iv ∷ ivs) = (iv.end - iv.start) + total ivs

pub total-append : (xs ys : List Interval) → total (xs ++ ys) ≡ total xs + total ys
unfolding total
total-append [] ys = omega arith
total-append (x ∷ xs) ys = omega (arith, total-append xs ys)

apart :
    (x : Interval) (l : List Interval) (t : ℕ)
    → All (λ b. x.end ≤ b.start) l
    → (within x t && covered l t) ≡ false
apart x [] t h = ground arith
apart x (y ∷ ys) t h = ground (arith, apart x ys t h.1)

-- Ordered spans have as many nanoseconds as they cover instants.
pub total-count :
    (n : ℕ) (l : List Interval)
    → IsOrdered l
    → All (λ b. b.end ≤ n) l
    → total l ≡ count n (covered l)
unfolding total
total-count n [] h k = sym (count-false n)
total-count n (x ∷ xs) h k = omega (
  arith,
  count-or n (within x) (covered xs) (λ t. apart x xs t h.1),
  count-within n x,
  total-count n xs h.2 k.1,
)

-- The loop of `totalHours` neither saturates nor wraps while the sum fits an int64.
total_from-add :
    (d : ℕ) (l : List Interval)
    → All IsProper l
    → d + total l < two63
    → total_from d l ≡ d + total l
unfolding total_from total sub_time add_duration
total_from-add d [] p h = omega arith
total_from-add d (x ∷ xs) p h =
    ground (arith, total_from-add (d + (x.end - x.start)) xs p.1 (omega arith))

-- The sum of the lengths of proper spans does not wrap, if it fits an int64.
pub total_hours-eq-total :
    (l : List Interval) → All IsProper l → total l < two63 → total_hours l ≡ total l
unfolding total_hours
total_hours-eq-total l p h = total_from-add 0 l p (omega arith) ∙ omega arith
