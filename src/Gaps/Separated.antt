-- ===== src/Gaps/Separated.antt =====
-- The spans that `union` returns are in order, apart from one another, and the only such spans
-- that cover the same instants.
use clockr.Base.{
  ℕ, ◌<◌, ◌≤◌, ◌≡◌, refl, sym, ◌∙◌, true, false, List, [], ◌∷◌, arith, leb, All, All-mono,
  All-sort_by, sort_by, Bool-cases, inl, inr,
}
use clockr.Gaps.{Interval, starts_before, extend, merge_from, merge, union}
use clockr.Gaps.Points.{
  IsProper, IsSeparated, StartsAscend, StartsAscend-sort_by, covered, covered-union, start-extend,
}

IsProper-extend : (last iv : Interval) → IsProper last → IsProper (extend last iv)
unfolding extend
IsProper-extend last iv h = ground arith

starts_after-merge_from :
    (x : ℕ) (last : Interval) (l : List Interval)
    → x < last.start
    → All (λ b. x < b.start) l
    → All (λ b. x < b.start) (merge_from last l)
unfolding merge_from
starts_after-merge_from x last [] h k = (h, tt)
starts_after-merge_from x last (iv ∷ ivs) h k =
    elim (leb iv.start last.end)
      as (λ b.
        All (λ c. x < c.start)
          (elim b [ true ↦ merge_from (extend last iv) ivs | false ↦ last ∷ merge_from iv ivs ])) [
            | true ↦
                starts_after-merge_from x (extend last iv) ivs (rw (start-extend last iv) h) k.1
            | false ↦ (h, starts_after-merge_from x iv ivs k.0 k.1)
          ]

merge_from-IsSeparated :
    (last : Interval) (l : List Interval)
    → IsProper last
    → All IsProper l
    → All (λ b. last.start ≤ b.start) l
    → StartsAscend l
    → IsSeparated (merge_from last l)
unfolding merge_from
merge_from-IsSeparated last [] p q h s = (p, tt, tt)
merge_from-IsSeparated last (iv ∷ ivs) p q h s = elim (Bool-cases (leb iv.start last.end)) [
  | inl joins ↦
      rw (joins, merge_from)
        (merge_from-IsSeparated (extend last iv) ivs (IsProper-extend last iv p) q.1
          (rw (start-extend last iv) h.1) s.1)
  | inr apart ↦
      let after : last.end < iv.start = ground arith in
      rw (apart, merge_from)
        (
          p,
          starts_after-merge_from last.end iv ivs after (All-mono _ _ (λ b r. omega arith) ivs s.0),
          merge_from-IsSeparated iv ivs q.0 q.1 s.0 s.1,
        )
]

merge-IsSeparated : (l : List Interval) → All IsProper l → StartsAscend l → IsSeparated (merge l)
unfolding merge
merge-IsSeparated [] p s = tt
merge-IsSeparated (iv ∷ ivs) p s = merge_from-IsSeparated iv ivs p.0 p.1 s.0 s.1

-- The spans that `union` returns are sorted, and no two of them overlap or touch, if no span of its
-- input ends before it starts.
pub union-IsSeparated : (ivs : List Interval) → All IsProper ivs → IsSeparated (union ivs)
unfolding union
union-IsSeparated ivs p =
    merge-IsSeparated (sort_by starts_before ivs) (All-sort_by IsProper starts_before ivs p)
      (StartsAscend-sort_by ivs)

abbrev pub IsFilled : Interval → Type 0
IsFilled iv = iv.start < iv.end

pub not_covered_before :
    (l : List Interval) (t : ℕ) → All (λ b. t < b.start) l → covered l t ≡ false
not_covered_before [] t h = refl
not_covered_before (x ∷ xs) t h = ground (arith, not_covered_before xs t h.1)

starts_later :
    (x : Interval) (l : List Interval) (t : ℕ)
    → t ≤ x.end
    → All (λ b. x.end < b.start) l
    → All (λ b. t < b.start) l
starts_later x l t h k = All-mono _ _ (λ b r. omega arith) l k

-- Two separated lists agree on the first span if they cover the same instants.
heads_agree :
    (x y : Interval) (xs ys : List Interval)
    → IsFilled x
    → IsFilled y
    → All (λ b. x.end < b.start) xs
    → All (λ b. y.end < b.start) ys
    → ((t : ℕ) → covered (x ∷ xs) t ≡ covered (y ∷ ys) t)
    → (x.start ≡ y.start) × (x.end ≡ y.end)
heads_agree x y xs ys f g h k same = ground (
  arith,
  same x.start,
  same y.start,
  same x.end,
  same y.end,
  λ (p : x.start ≤ y.end). not_covered_before ys x.start (starts_later y ys x.start p k),
  λ (p : y.start ≤ x.end). not_covered_before xs y.start (starts_later x xs y.start p h),
  λ (p : x.end ≤ y.end). not_covered_before ys x.end (starts_later y ys x.end p k),
  λ (p : y.end ≤ x.end). not_covered_before xs y.end (starts_later x xs y.end p h),
  not_covered_before xs x.end (starts_later x xs x.end (omega arith) h),
  not_covered_before ys y.end (starts_later y ys y.end (omega arith) k),
)

-- What `x` covers apart, the rest of two lists cover the same instants.
tails_agree :
    (x y : Interval) (xs ys : List Interval)
    → (x.start ≡ y.start) × (x.end ≡ y.end)
    → All (λ b. x.end < b.start) xs
    → All (λ b. y.end < b.start) ys
    → ((t : ℕ) → covered (x ∷ xs) t ≡ covered (y ∷ ys) t)
    → (t : ℕ) → covered xs t ≡ covered ys t
tails_agree x y xs ys e h k same t = ground (
  arith,
  same t,
  λ (p : t ≤ x.end). not_covered_before xs t (starts_later x xs t p h),
  λ (p : t ≤ y.end). not_covered_before ys t (starts_later y ys t p k),
)

not_empty :
    (y : Interval) (ys : List Interval) → IsFilled y → ((t : ℕ) → false ≡ covered (y ∷ ys) t) → ⊥
not_empty y ys f same = ground (arith, same y.start)

-- A separated list of filled spans is determined by the instants that it covers: whatever order
-- the sort gives to spans with one start, `union` has one result.
pub separated_unique :
    (xs ys : List Interval)
    → All IsFilled xs
    → All IsFilled ys
    → IsSeparated xs
    → IsSeparated ys
    → ((t : ℕ) → covered xs t ≡ covered ys t)
    → xs ≡ ys
separated_unique [] [] f g h k same = refl
separated_unique [] (y ∷ ys) f g h k same = absurd (not_empty y ys g.0 same)
separated_unique (x ∷ xs) [] f g h k same = absurd (not_empty x xs f.0 (λ t. sym (same t)))
separated_unique (x ∷ xs) (y ∷ ys) f g h k same =
    let e = heads_agree x y xs ys f.0 g.0 h.1 k.1 same in
    let rest = separated_unique xs ys f.1 g.1 h.2 k.2 (tails_agree x y xs ys e h.1 k.1 same) in
    ground (arith, e, rest)

pub filled-IsProper : (l : List Interval) → All IsFilled l → All IsProper l
filled-IsProper l h = All-mono _ _ (λ b r. omega arith) l h

IsFilled-extend : (last iv : Interval) → IsFilled last → IsFilled (extend last iv)
unfolding extend
IsFilled-extend last iv h = ground arith

merge_from-IsFilled :
    (last : Interval) (l : List Interval)
    → IsFilled last
    → All IsFilled l
    → All IsFilled (merge_from last l)
unfolding merge_from
merge_from-IsFilled last [] p q = (p, tt)
merge_from-IsFilled last (iv ∷ ivs) p q =
    elim (leb iv.start last.end)
      as (λ b.
        All IsFilled
          (elim b [ true ↦ merge_from (extend last iv) ivs | false ↦ last ∷ merge_from iv ivs ])) [
            | true ↦ merge_from-IsFilled (extend last iv) ivs (IsFilled-extend last iv p) q.1
            | false ↦ (p, merge_from-IsFilled iv ivs q.0 q.1)
          ]

merge-IsFilled : (l : List Interval) → All IsFilled l → All IsFilled (merge l)
unfolding merge
merge-IsFilled [] h = tt
merge-IsFilled (iv ∷ ivs) h = merge_from-IsFilled iv ivs h.0 h.1

pub union-IsFilled : (ivs : List Interval) → All IsFilled ivs → All IsFilled (union ivs)
unfolding union
union-IsFilled ivs h =
    merge-IsFilled (sort_by starts_before ivs) (All-sort_by IsFilled starts_before ivs h)

-- `union` is the only separated list of filled spans that covers the instants of its input, if the
-- spans of its input are filled.
pub union_unique :
    (ivs out : List Interval)
    → All IsFilled ivs
    → All IsFilled out
    → IsSeparated out
    → ((t : ℕ) → covered out t ≡ covered ivs t)
    → out ≡ union ivs
union_unique ivs out f g s same =
    separated_unique out (union ivs) g (union-IsFilled ivs f) s
      (union-IsSeparated ivs (filled-IsProper ivs f)) (λ t. same t ∙ sym (covered-union ivs t))
