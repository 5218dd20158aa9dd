-- ===== src/Gaps/Subtract.antt =====
-- What `subtract` leaves of a window: the instants that nothing occupies, as spans in order.
use clockr.Base.{
  ℕ, ◌<◌, ◌≤◌, ◌≡◌, Bool, true, false, not, ◌&&◌, ◌||◌, List, [], ◌∷◌, ◌++◌, arith, ltb, leb,
  if◌then◌else◌, All, All-mono, All-append, Bool-cases, inl, inr,
}
use clockr.Gaps.{Interval, span, misses, gap_before, past, subtract_from, subtract}
use clockr.Gaps.Points.{IsProper, IsSeparated, StartsAscend, within, covered, covered-append}
use clockr.Gaps.Separated.{not_covered_before}

starts_beyond :
    (o : Interval) (os : List Interval) (t : ℕ)
    → t < o.start
    → All (λ b. o.start ≤ b.start) os
    → covered os t ≡ false
starts_beyond o os t h k = not_covered_before os t (All-mono _ _ (λ b r. omega arith) os k)

covered-gap_before :
    (c : ℕ) (o : Interval) (t : ℕ) → covered (gap_before c o) t ≡ (leb c t && ltb t o.start)
unfolding gap_before
covered-gap_before c o t = ground arith

le-past : (c : ℕ) (o : Interval) → (c ≤ past c o) × (o.end ≤ past c o)
unfolding past
le-past c o = ground arith

leb-past : (c : ℕ) (o : Interval) (t : ℕ) → leb (past c o) t ≡ (leb c t && leb o.end t)
unfolding past
leb-past c o t = ground arith

-- One span that is passed over covers nothing between the cursor and the window's end.
skip_point :
    (win o : Interval) (c t : ℕ) (rest : Bool)
    → misses win o ≡ true
    → win.start ≤ c
    → (leb c t && ltb t win.end && not rest)
      ≡ (leb c t && ltb t win.end && not (within o t || rest))
unfolding misses
skip_point win o c t rest e h = ground arith

-- One span that is not passed over: the gap before it, and what is free after it.
take_point :
    (win o : Interval) (c t : ℕ) (rest : Bool)
    → misses win o ≡ false
    → IsProper o
    → (t < o.start → rest ≡ false)
    → (leb c t && ltb t o.start || leb c t && leb o.end t && ltb t win.end && not rest)
      ≡ (leb c t && ltb t win.end && not (within o t || rest))
unfolding misses
take_point win o c t rest e p h = ground (arith, h)

covered-subtract_from :
    (win : Interval) (c : ℕ) (os : List Interval) (t : ℕ)
    → win.start ≤ c
    → All IsProper os
    → StartsAscend os
    → covered (subtract_from win c os) t ≡ (leb c t && ltb t win.end && not (covered os t))
unfolding subtract_from
covered-subtract_from win c [] t h p s = ground arith
covered-subtract_from win c (o ∷ os) t h p s = elim (Bool-cases (misses win o)) [
  | inl e ↦
      rw (e, subtract_from, covered-subtract_from win c os t h p.1 s.1) (skip_point win o c t _ e h)
  | inr e ↦
      rw
        (
          e,
          subtract_from,
          covered-append,
          covered-gap_before,
          covered-subtract_from win (past c o) os t (omega (arith, le-past c o)) p.1 s.1,
          leb-past,
        )
        (take_point win o c t _ e p.0 (λ q. starts_beyond o os t q s.0))
]

pub IsSeparated-StartsAscend : (l : List Interval) → IsSeparated l → StartsAscend l
IsSeparated-StartsAscend [] h = tt
IsSeparated-StartsAscend (x ∷ xs) h =
    (All-mono _ _ (λ b r. omega arith) xs h.1, IsSeparated-StartsAscend xs h.2)

pub IsSeparated-IsProper : (l : List Interval) → IsSeparated l → All IsProper l
IsSeparated-IsProper [] h = tt
IsSeparated-IsProper (x ∷ xs) h = (h.0, IsSeparated-IsProper xs h.2)

-- The gaps of a window are its instants that the occupied spans leave free, if these are sorted and
-- apart.
pub covered-subtract :
    (win : Interval) (occupied : List Interval) (t : ℕ)
    → IsSeparated occupied
    → covered (subtract win occupied) t ≡ (within win t && not (covered occupied t))
unfolding subtract
covered-subtract win os t s = ground (
  arith,
  covered-subtract_from win win.start os t (omega arith) (IsSeparated-IsProper os s)
      (IsSeparated-StartsAscend os s),
)

-- Ordered and free of overlaps; neighbours may touch.
abbrev pub IsOrdered : List Interval → Type 0
IsOrdered [] = Unit
IsOrdered (a ∷ l) = IsProper a × All (λ b. a.end ≤ b.start) l × IsOrdered l

pub IsSeparated-IsOrdered : (l : List Interval) → IsSeparated l → IsOrdered l
IsSeparated-IsOrdered [] h = tt
IsSeparated-IsOrdered (x ∷ xs) h =
    (h.0, All-mono _ _ (λ b r. omega arith) xs h.1, IsSeparated-IsOrdered xs h.2)

-- Every span lies in [lo, hi).
abbrev pub Inside : ℕ → ℕ → Interval → Type 0
Inside lo hi iv = (lo ≤ iv.start) × (iv.end ≤ hi)

pub append-IsOrdered :
    (m : ℕ) (xs ys : List Interval)
    → IsOrdered xs
    → IsOrdered ys
    → All (λ b. b.end ≤ m) xs
    → All (λ b. m ≤ b.start) ys
    → IsOrdered (xs ++ ys)
append-IsOrdered m [] ys h k i j = k
append-IsOrdered m (x ∷ xs) ys h k i j = (
  h.0,
  All-append (λ b. x.end ≤ b.start) xs ys h.1 (All-mono _ _ (λ b r. omega arith) ys j),
  append-IsOrdered m xs ys h.2 k i.1 j,
)

gap_before-Inside :
    (win o : Interval) (c : ℕ) → misses win o ≡ false → All (Inside c win.end) (gap_before c o)
unfolding gap_before misses
gap_before-Inside win o c e = elim (Bool-cases (ltb c o.start)) [
  | inl q ↦ rw (q, gap_before) ((omega arith, ground arith), tt)
  | inr q ↦ rw (q, gap_before) tt
]

subtract_from-Inside :
    (win : Interval) (c : ℕ) (os : List Interval) → All (Inside c win.end) (subtract_from win c os)
unfolding subtract_from
subtract_from-Inside win c [] =
    elim (ltb c win.end) as (λ b. All (Inside c win.end) (if b then span c win.end ∷ [] else [])) [
      | true ↦ ((omega arith, omega arith), tt)
      | false ↦ tt
    ]
subtract_from-Inside win c (o ∷ os) = elim (Bool-cases (misses win o)) [
  | inl e ↦ rw (e, subtract_from) (subtract_from-Inside win c os)
  | inr e ↦
      rw (e, subtract_from)
        (All-append (Inside c win.end) (gap_before c o) (subtract_from win (past c o) os)
          (gap_before-Inside win o c e)
          (All-mono _ _ (λ b r. omega (arith, le-past c o)) (subtract_from win (past c o) os)
            (subtract_from-Inside win (past c o) os)))
]

before_rest :
    (win : Interval) (c : ℕ) (o : Interval) (rest : List Interval)
    → IsProper o
    → IsOrdered rest
    → All (Inside (past c o) win.end) rest
    → IsOrdered (gap_before c o ++ rest)
unfolding gap_before
before_rest win c o rest p h i = elim (Bool-cases (ltb c o.start)) [
  | inl q ↦
      rw (q, gap_before) (ground arith, All-mono _ _ (λ b r. omega (arith, le-past c o)) rest i, h)
  | inr q ↦ rw (q, gap_before) h
]

subtract_from-IsOrdered :
    (win : Interval) (c : ℕ) (os : List Interval)
    → All IsProper os
    → IsOrdered (subtract_from win c os)
unfolding subtract_from
subtract_from-IsOrdered win c [] p = elim (Bool-cases (ltb c win.end)) [
  | inl e ↦ rw (e, subtract_from) (ground arith, tt, tt)
  | inr e ↦ rw (e, subtract_from) tt
]
subtract_from-IsOrdered win c (o ∷ os) p = elim (Bool-cases (misses win o)) [
  | inl e ↦ rw (e, subtract_from) (subtract_from-IsOrdered win c os p.1)
  | inr e ↦
      rw (e, subtract_from)
        (before_rest win c o (subtract_from win (past c o) os) (omega arith)
          (subtract_from-IsOrdered win (past c o) os p.1) (subtract_from-Inside win (past c o) os))
]

-- The gaps of a window are proper, in order and free of overlaps, if no occupied span ends before it
-- starts.
pub subtract-IsOrdered :
    (win : Interval) (occupied : List Interval)
    → All IsProper occupied
    → IsOrdered (subtract win occupied)
unfolding subtract
subtract-IsOrdered win os p = subtract_from-IsOrdered win win.start os p

pub subtract-Inside :
    (win : Interval) (occupied : List Interval)
    → All (Inside win.start win.end) (subtract win occupied)
unfolding subtract
subtract-Inside win os = subtract_from-Inside win win.start os
