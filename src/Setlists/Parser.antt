-- ===== src/Setlists/Parser.antt =====
-- src/concertpvr/setlist_parser.py: pasted lineups, one line for each artist. The artist is the
-- shortest prefix of the line behind which the pattern matches, as its lazy group takes it.
use concertpvr.Prelude.{
  ℕ, ◌+◌, ◌*◌, Bool, false, ◌&&◌, ◌||◌, Option, none, some, List, [], ◌∷◌, ◌++◌, Text, ◌==◌,
  if◌then◌else◌, is_empty, lstrip, strip, Result, ok, err, value_error,
}
use concertpvr.Setlists.Lines.{splitlines, short_number, two_digits, expect}

pub record ParsedEntry : Type 0 where
  pub artist : Text
  pub start_s : ℕ
  pub end_s : ℕ

-- `_to_seconds` of the numbers between the colons.
unfoldable pub to_seconds : ℕ → ℕ → Option ℕ → ℕ
to_seconds m sec none = m * 60 + sec
to_seconds h m (some sec) = h * 3600 + m * 60 + sec

-- `(?::\d{2})?`
abbrev pub last_part : Text → Option ℕ × Text
last_part [] = (none, [])
last_part (c ∷ s) =
    if c == 58
    then elim (two_digits s) [ none ↦ (none, c ∷ s) | some (v, rest) ↦ (some v, rest) ]
    else (none, c ∷ s)

abbrev pub time_of : ℕ → Text → Option (ℕ × Text)
time_of a s = elim (two_digits s) [
  | none ↦ none
  | some (b, s1) ↦ let (c, s2) = last_part s1 in some (to_seconds a b c, s2)
]

-- `\d{1,2}:\d{2}(?::\d{2})?` as `_to_seconds` reads it, and the text behind it.
unfoldable pub time : Text → Option (ℕ × Text)
unfolding short_number two_digits to_seconds
time s = elim (short_number s) [
  | none ↦ none
  | some (a, s1) ↦ elim (expect 58 s1) [ none ↦ none | some s2 ↦ time_of a s2 ]
]

-- `(?:[–\-]|to)`
abbrev pub dash : Text → Option Text
dash [] = none
dash (c ∷ []) = if c == 8211 || c == 45 then some [] else none
dash (c ∷ d ∷ s) =
    if c == 8211 || c == 45 then some (d ∷ s) else if c == 116 && d == 111 then some s else none

-- `(?P<end>...)\s*$`
abbrev pub ending : ℕ → Text → Option (ℕ × ℕ)
ending start s = elim (time (lstrip s)) [
  | none ↦ none
  | some (end, rest) ↦ if is_empty (lstrip rest) then some (start, end) else none
]

abbrev pub to_end : ℕ → Text → Option (ℕ × ℕ)
to_end start s = elim (dash (lstrip s)) [ none ↦ none | some rest ↦ ending start rest ]

abbrev pub from_start : Text → Option (ℕ × ℕ)
from_start s = elim (time (lstrip s)) [ none ↦ none | some (start, rest) ↦ to_end start rest ]

-- `\s*[·\-]\s*` and the two times: the part of the pattern behind the artist.
abbrev pub behind_dot : Text → Option (ℕ × ℕ)
behind_dot [] = none
behind_dot (c ∷ s) = if c == 183 || c == 45 then from_start s else none

unfoldable pub times_behind : Text → Option (ℕ × ℕ)
unfolding lstrip time
times_behind s = behind_dot (lstrip s)

abbrev pub entry : Text → ℕ × ℕ → ParsedEntry
entry artist (start, end) = record { artist = strip artist; start_s = start; end_s = end }

-- The search for the artist, of which a first part is known not to be all.
unfoldable pub search_artist : Text → Text → Option ParsedEntry
unfolding times_behind strip
search_artist before [] = none
search_artist before (c ∷ s) =
    let longer = search_artist (before ++ c ∷ []) s in
    elim (times_behind s) [ none ↦ longer | some times ↦ some (entry (before ++ c ∷ []) times) ]

-- `line.startswith("#")`
abbrev pub is_comment : Text → Bool
is_comment [] = false
is_comment (c ∷ s) = c == 35

abbrev pub cons_ok {ℓ} : {A : Type ℓ} → A → Result (List A) → Result (List A)
cons_ok x (ok xs) = ok (x ∷ xs)
cons_ok x (err e) = err e

-- The loop over the lines; `ParseError` is a `ValueError`.
unfoldable pub parse_lines : List Text → Result (List ParsedEntry)
unfolding strip search_artist
parse_lines [] = ok []
parse_lines (raw ∷ lines) =
    let line = strip raw in
    let rest = parse_lines lines in
    if is_empty line || is_comment line
    then rest
    else elim (search_artist [] line) [ none ↦ err value_error | some e ↦ cons_ok e rest ]

-- `parse_setlist_paste`
unfoldable pub parse_setlist_paste : Text → Result (List ParsedEntry)
unfolding parse_lines splitlines
parse_setlist_paste text = parse_lines (splitlines text)
