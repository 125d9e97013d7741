-- ===== src/Setlists/Lines.antt =====
-- The parts that the line patterns of src/concertpvr/setlist_detector.py and
-- src/concertpvr/setlist_parser.py share. Digits are those of ASCII.
use concertpvr.Prelude.{
  ℕ, ◌+◌, ◌-◌, ◌*◌, Bool, ◌&&◌, ◌||◌, Option, none, some, List, [], ◌∷◌, Text, leb, ◌==◌,
  if◌then◌else◌, is_empty,
}

-- The characters at which `str.splitlines` breaks a line.
abbrev pub is_break : ℕ → Bool
is_break c = (leb 10 c && leb c 13) || (leb 28 c && leb c 30) || c == 133 || c == 8232 || c == 8233

-- A character in front of the lines of the rest of the text.
abbrev pub prepend : ℕ → List Text → List Text
prepend c [] = (c ∷ []) ∷ []
prepend c (l ∷ ls) = (c ∷ l) ∷ ls

-- `s.splitlines()`: "\r\n" is one break, and no line follows the last break.
unfoldable pub splitlines : Text → List Text
splitlines [] = []
splitlines (c ∷ []) = if is_break c then [] ∷ [] else (c ∷ []) ∷ []
splitlines (c ∷ d ∷ s) =
    let rest = splitlines (d ∷ s) in
    let skip = splitlines s in
    if c == 13 && d == 10 then [] ∷ skip else if is_break c then [] ∷ rest else prepend c rest

-- `\d`, for the digits of ASCII.
abbrev pub is_digit : ℕ → Bool
is_digit c = leb 48 c && leb c 57

abbrev second_digit : ℕ → Text → ℕ × Text
second_digit v [] = (v, [])
second_digit v (d ∷ s) = if is_digit d then (v * 10 + (d - 48), s) else (v, d ∷ s)

-- `\d{1,2}` as `int` reads it, and the text behind it.
unfoldable pub short_number : Text → Option (ℕ × Text)
short_number [] = none
short_number (c ∷ s) = if is_digit c then some (second_digit (c - 48) s) else none

-- `\d{2}` as `int` reads it, and the text behind it.
unfoldable pub two_digits : Text → Option (ℕ × Text)
two_digits [] = none
two_digits (_ ∷ []) = none
two_digits (c ∷ d ∷ s) =
    if is_digit c && is_digit d then some ((c - 48) * 10 + (d - 48), s) else none

-- The text behind a character that has to be there, or may be.
abbrev pub expect : ℕ → Text → Option Text
expect k [] = none
expect k (c ∷ s) = if c == k then some s else none

abbrev pub optional : ℕ → Text → Text
optional k [] = []
optional k (c ∷ s) = if c == k then s else c ∷ s

-- The longest prefix of characters that pass a test, and the text behind it.
unfoldable pub span : (ℕ → Bool) → Text → Text × Text
span p [] = ([], [])
span p (c ∷ s) = let (run, rest) = span p s in if p c then (c ∷ run, rest) else ([], c ∷ s)

-- `s.rstrip(chars)`
unfoldable pub rstrip_of : (ℕ → Bool) → Text → Text
rstrip_of p [] = []
rstrip_of p (c ∷ s) = let rest = rstrip_of p s in if is_empty rest && p c then [] else c ∷ rest
