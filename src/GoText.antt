-- ===== src/GoText.antt =====
-- What the program uses of Go's packages `strings` and `fmt`.
use Prim.Native.Char.{code}
use Prim.Native.String.{[], ◌∷◌, ◌++◌, char_at}
use text.Mathlib.Text.{◌==◌ as str_eq}
use clockr.Base.{
  ℕ, zero, suc, ◌/◌, ◌%◌, String, Bool, true, false, ◌&&◌, ◌||◌, List, ltb, leb, ◌==◌,
  if◌then◌else◌,
}

-- unicode.IsSpace
unfoldable pub is_space : ℕ → Bool
is_space c =
    (leb 9 c && leb c 13)
    || c == 32
    || c == 133
    || c == 160
    || c == 5760
    || (leb 8192 c && leb c 8202)
    || c == 8232
    || c == 8233
    || c == 8239
    || c == 8287
    || c == 12288

unfoldable pub trim_left : String → String
trim_left [] = []
trim_left (c ∷ s) = let rest = trim_left s in if is_space (code c) then rest else c ∷ s

-- A character in front of a text whose end is trimmed.
unfoldable pub cons_trimmed : Bool → String → String → String
cons_trimmed true whole [] = []
cons_trimmed _ whole rest = whole

unfoldable pub trim_right : String → String
trim_right [] = []
trim_right (c ∷ s) = let rest = trim_right s in cons_trimmed (is_space (code c)) (c ∷ rest) rest

-- strings.TrimSpace
unfoldable pub trim_space : String → String
unfolding is_space trim_left cons_trimmed trim_right
trim_space s = trim_right (trim_left s)

unfoldable pub elem : String → List String → Bool
elem s List.[] = false
elem s (List.◌∷◌ x xs) = str_eq s x || elem s xs

-- strings.Join
unfoldable pub join : String → List String → String
join sep List.[] = ""
join sep (List.◌∷◌ s List.[]) = s
join sep (List.◌∷◌ s rest) = s ++ sep ++ join sep rest

abbrev digit : ℕ → String
digit n = char_at "0123456789" n ∷ []

-- The last digits of the number, as many as the fuel says.
unfoldable pub digits : ℕ → ℕ → String
digits zero n = ""
digits (suc fuel) n =
    let rest = digits fuel (n / 10) in if ltb n 10 then digit n else rest ++ digit (n % 10)

-- fmt.Sprint of an int64 that is not negative, which has 19 digits at most.
unfoldable pub sprint : ℕ → String
unfolding digits
sprint n = digits 19 n

-- A word that begins at the front, and the words after it.
abbrev push_word : String → List String → List String
push_word [] words = words
push_word word words = List.◌∷◌ word words

unfoldable pub words_of : String → String × List String
words_of [] = ([], List.[])
words_of (c ∷ s) =
    let (word, words) = words_of s in
    if is_space (code c) then ([], push_word word words) else (c ∷ word, words)

-- strings.Fields
unfoldable pub fields : String → List String
unfolding is_space words_of
fields s = let (word, words) = words_of s in push_word word words
