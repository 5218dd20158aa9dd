-- ===== src/Gaps/Points.antt =====
-- Which instants a list of intervals covers, and what the interval algebra does to them.
use clockr.Base.{
  ℕ, ◌<◌, ◌≤◌, ◌≡◌, refl, ◌∙◌, Bool, false, ◌&&◌, ◌||◌, List, [], ◌∷◌, ◌++◌, arith, ltb, leb, All,
  All-mono, All-insert_by, sort_by, insert_by, Bool-cases, leb→le, inl, inr,
}
use clockr.Gaps.{
  Interval, clip, append_clip, clip_all, starts_before, extend, merge_from, merge, union,
}

-- The instants of one interval, of any of a list, and of any window.
abbrev pub within : Interval → ℕ → Bool
within iv t = leb iv.start t && ltb t iv.end

abbrev pub covered : List Interval → ℕ → Bool
covered [] t = false
covered (iv ∷ ivs) t = within iv t || covered ivs t

abbrev pub IsProper : Interval → Type 0
IsProper iv = iv.start ≤ iv.end

-- Sorted, and with room between two neighbours: no two overlap or touch.
abbrev pub IsSeparated : List Interval → Type 0
IsSeparated [] = Unit
IsSeparated (a ∷ l) = IsProper a × All (λ b. a.end < b.start) l × IsSeparated l

pub covered-append :
    (xs ys : List Interval) (t : ℕ) → covered (xs ++ ys) t ≡ (covered xs t || covered ys t)
covered-append [] ys t = refl
covered-append (x ∷ xs) ys t = ground (arith, covered-append xs ys t)

pub covered-clip_all :
    (ivs : List Interval) (win : Interval) (t : ℕ)
    → covered (clip_all ivs win) t ≡ (covered ivs t && within win t)
unfolding clip_all clip append_clip
covered-clip_all [] win t = refl
covered-clip_all (iv ∷ ivs) win t = ground (arith, covered-clip_all ivs win t)

covered-insert_by :
    (iv : Interval) (l : List Interval) (t : ℕ)
    → covered (insert_by starts_before iv l) t ≡ (within iv t || covered l t)
unfolding insert_by
covered-insert_by iv [] t = refl
covered-insert_by iv (x ∷ xs) t = ground (arith, covered-insert_by iv xs t)

covered-sort_by : (l : List Interval) (t : ℕ) → covered (sort_by starts_before l) t ≡ covered l t
unfolding sort_by
covered-sort_by [] t = refl
covered-sort_by (x ∷ xs) t =
    ground (arith, covered-insert_by x (sort_by starts_before xs) t, covered-sort_by xs t)

-- The starts ascend.
abbrev pub StartsAscend : List Interval → Type 0
StartsAscend [] = Unit
StartsAscend (a ∷ l) = All (λ b. a.start ≤ b.start) l × StartsAscend l

StartsAscend-insert_by :
    (iv : Interval) (l : List Interval)
    → StartsAscend l
    → StartsAscend (insert_by starts_before iv l)
unfolding insert_by
StartsAscend-insert_by iv [] h = (tt, tt)
StartsAscend-insert_by iv (x ∷ xs) h = elim (Bool-cases (starts_before iv x)) [
  | inl le ↦
      let p : iv.start ≤ x.start = leb→le _ _ (unfold starts_before in le) in
      rw le ((p, All-mono _ _ (λ b q. omega arith) xs h.0), h)
  | inr gt ↦
      let p : x.start ≤ iv.start = unfold starts_before in ground arith in
      rw gt (
        All-insert_by (λ b. x.start ≤ b.start) starts_before iv xs p h.0,
        StartsAscend-insert_by iv xs h.1,
      )
]

pub StartsAscend-sort_by : (l : List Interval) → StartsAscend (sort_by starts_before l)
unfolding sort_by
StartsAscend-sort_by [] = tt
StartsAscend-sort_by (x ∷ xs) =
    StartsAscend-insert_by x (sort_by starts_before xs) (StartsAscend-sort_by xs)

pub start-extend : (last iv : Interval) → (extend last iv).start ≡ last.start
unfolding extend
start-extend last iv = ground arith

covered-extend :
    (last iv : Interval) (t : ℕ)
    → last.start ≤ iv.start
    → iv.start ≤ last.end
    → within (extend last iv) t ≡ (within last t || within iv t)
unfolding extend
covered-extend last iv t h k = ground arith

covered-merge_from :
    (last : Interval) (l : List Interval) (t : ℕ)
    → All (λ b. last.start ≤ b.start) l
    → StartsAscend l
    → covered (merge_from last l) t ≡ (within last t || covered l t)
unfolding merge_from
covered-merge_from last [] t h s = refl
covered-merge_from last (iv ∷ ivs) t h s =
    let rest : All (λ b. (extend last iv).start ≤ b.start) ivs = rw (start-extend last iv) h.1 in
    ground (
      arith,
      covered-extend last iv t,
      covered-merge_from (extend last iv) ivs t rest s.1,
      covered-merge_from iv ivs t s.0 s.1,
    )

covered-merge : (l : List Interval) (t : ℕ) → StartsAscend l → covered (merge l) t ≡ covered l t
unfolding merge
covered-merge [] t s = refl
covered-merge (iv ∷ ivs) t s = covered-merge_from iv ivs t s.0 s.1

-- Uniting spans covers exactly the instants that the spans cover.
pub covered-union : (ivs : List Interval) (t : ℕ) → covered (union ivs) t ≡ covered ivs t
unfolding union
covered-union ivs t =
    covered-merge (sort_by starts_before ivs) t (StartsAscend-sort_by ivs) ∙ covered-sort_by ivs t
