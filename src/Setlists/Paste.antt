-- ===== src/Setlists/Paste.antt =====
-- A printer of lineups in the form that src/concertpvr/setlist_parser.py reads.
use concertpvr.Prelude.{
  ℕ, ◌+◌, ◌/◌, ◌%◌, ◌<◌, ◌≡◌, refl, ap, ◌∙◌, Bool, ◌&&◌, ◌==◌, Bool-cases, inl, inr, true, false,
  not, ◌||◌, none, some, List, [], ◌∷◌, ◌++◌, append_assoc, Text, all, All, arith, is_space, lstrip,
  rstrip, strip, is_empty, ok,
}
use concertpvr.Setlists.Lines.{is_break, splitlines}
use concertpvr.Setlists.Parser.{
  ParsedEntry, behind_dot, times_behind, entry, search_artist, is_comment, cons_ok, parse_lines,
  parse_setlist_paste,
}
use concertpvr.Setlists.Clock.{two, clock, times, times_behind-times}
use concertpvr.Setlists.Solid.{
  all-append, lstrip-plainly, rstrip-append, rstrip-digit, lstrip-shown, is_plain, splitlines-line,
  strip-artist, unbroken-solid, is_solid, starts_plainly,
}

abbrev pub line_of : ParsedEntry → Text
line_of e = e.artist ++ times e.start_s e.end_s

abbrev pub print : List ParsedEntry → Text
print [] = []
print (e ∷ es) = line_of e ++ 10 ∷ print es

-- An artist that a line can carry, with times below a hundred minutes.
abbrev pub IsPrintable : ParsedEntry → Type 0
IsPrintable e =
    (is_solid e.artist ≡ true)
    × (starts_plainly e.artist ≡ true)
    × (e.start_s < 6000)
    × (e.end_s < 6000)

not_dot : (c : ℕ) (b : Bool) → (is_plain c && b) ≡ true → (c == 183 || c == 45) ≡ false
not_dot c b h = ground arith

behind_dot-other : (c : ℕ) (s : Text) → (c == 183 || c == 45) ≡ false → behind_dot (c ∷ s) ≡ none
behind_dot-other c s h = rw (h, behind_dot) refl

lstrip-space : (c : ℕ) (s : Text) → is_space c ≡ true → lstrip (c ∷ s) ≡ lstrip s
unfolding lstrip
lstrip-space c s h = rw h refl

shown_last : (c : ℕ) → (is_plain c && not (is_space c)) ≡ true → is_space c ≡ false
shown_last c h = ground arith

behind_dot-plain : (s t : Text) → is_solid s ≡ true → behind_dot (lstrip (s ++ t)) ≡ none
behind_dot-plain [] t h = cc
behind_dot-plain (c ∷ []) t h =
    ap behind_dot (lstrip-shown c t (shown_last c h))
    ∙ behind_dot-other c t (not_dot c (not (is_space c)) h)
behind_dot-plain (c ∷ d ∷ s) t h = elim (Bool-cases (is_space c)) [
  | inl blank ↦
      ap behind_dot (lstrip-space c ((d ∷ s) ++ t) blank)
      ∙ behind_dot-plain (d ∷ s) t (rest_solid c (d ∷ s) h)
  | inr shown ↦
      ap behind_dot (lstrip-shown c ((d ∷ s) ++ t) shown)
      ∙ behind_dot-other c ((d ∷ s) ++ t) (not_dot c (is_solid (d ∷ s)) h)
]
  where
    rest_solid : (c : ℕ) (s : Text) → (is_plain c && is_solid s) ≡ true → is_solid s ≡ true
    rest_solid c s h = ground arith

search_artist-later :
    (before : Text) (c : ℕ) (s : Text)
    → times_behind s ≡ none
    → search_artist before (c ∷ s) ≡ search_artist (before ++ c ∷ []) s
unfolding search_artist
search_artist-later before c s h = rw (h, search_artist) refl

search_artist-here :
    (before : Text) (c : ℕ) (s : Text) (p : ℕ × ℕ)
    → times_behind s ≡ some p
    → search_artist before (c ∷ s) ≡ some (entry (before ++ c ∷ []) p)
unfolding search_artist
search_artist-here before c s p h = rw (h, search_artist) refl

times_behind-plain : (s t : Text) → is_solid s ≡ true → times_behind (s ++ t) ≡ none
unfolding times_behind
times_behind-plain s t h = behind_dot-plain s t h

search_artist-solid :
    (before s t : Text) (p : ℕ × ℕ)
    → is_solid s ≡ true
    → times_behind t ≡ some p
    → search_artist before (s ++ t) ≡ some (entry (before ++ s) p)
search_artist-solid before [] t p h found = cc
search_artist-solid before (c ∷ []) t p h found = search_artist-here before c t p found
search_artist-solid before (c ∷ d ∷ s) t p h found =
    search_artist-later before c ((d ∷ s) ++ t) (times_behind-plain (d ∷ s) t (ground arith))
    ∙ search_artist-solid (before ++ c ∷ []) (d ∷ s) t p (ground arith) found
    ∙ ap (λ b. some (entry b p)) (append_assoc before (c ∷ []) (d ∷ s))

-- All of the times but the last digit.
abbrev but_last : ℕ → ℕ → Text
but_last start end =
    32 ∷ 45 ∷ 32 ∷ clock start (32 ∷ 45 ∷ 32 ∷ two (end / 60) (58 ∷ (48 + end % 60 / 10) ∷ []))

rstrip-times : (start end : ℕ) → rstrip (times start end) ≡ times start end
rstrip-times start end =
    rstrip-append (but_last start end) ((48 + end % 60 % 10) ∷ [])
      (ap is_empty (rstrip-digit (end % 60 % 10) (omega arith)))
    ∙ ap (λ t. but_last start end ++ t) (rstrip-digit (end % 60 % 10) (omega arith))

strip-line_of : (e : ParsedEntry) → IsPrintable e → strip (line_of e) ≡ line_of e
unfolding strip
strip-line_of e (solid, plain, _, _) =
    ap rstrip (lstrip-plainly e.artist (times e.start_s e.end_s) plain)
    ∙ rstrip-append e.artist (times e.start_s e.end_s)
        (ap is_empty (rstrip-times e.start_s e.end_s))
    ∙ ap (λ t. e.artist ++ t) (rstrip-times e.start_s e.end_s)

digit : (n : ℕ) → n < 10 → is_break (48 + n) ≡ false
digit n h = ground arith

unbroken-times :
    (start end : ℕ)
    → start < 6000
    → end < 6000
    → all (λ c. not (is_break c)) (times start end) ≡ true
unbroken-times start end hs he =
    rw
      (
        digit (start / 60 / 10) (omega arith),
        digit (start / 60 % 10) (omega arith),
        digit (start % 60 / 10) (omega arith),
        digit (start % 60 % 10) (omega arith),
        digit (end / 60 / 10) (omega arith),
        digit (end / 60 % 10) (omega arith),
        digit (end % 60 / 10) (omega arith),
        digit (end % 60 % 10) (omega arith),
      )
      refl

is_shown :
    (s t : Text) → starts_plainly s ≡ true → (is_empty (s ++ t) || is_comment (s ++ t)) ≡ false
is_shown [] t h = cc
is_shown (c ∷ s) t h = ground arith

parse_lines-next :
    (raw line : Text) (lines : List Text) (e : ParsedEntry)
    → strip raw ≡ line
    → (is_empty line || is_comment line) ≡ false
    → search_artist [] line ≡ some e
    → parse_lines (raw ∷ lines) ≡ cons_ok e (parse_lines lines)
unfolding parse_lines
parse_lines-next raw line lines e h1 h2 h3 = rw (h1, h2, h3) refl

parse_lines-line_of :
    (e : ParsedEntry) (lines : List Text)
    → IsPrintable e
    → parse_lines (line_of e ∷ lines) ≡ cons_ok e (parse_lines lines)
parse_lines-line_of e lines h =
    parse_lines-next (line_of e) (line_of e) lines e (strip-line_of e h)
      (is_shown e.artist (times e.start_s e.end_s) h.1)
      (search_artist-solid [] e.artist (times e.start_s e.end_s) (e.start_s, e.end_s) h.0
          (times_behind-times e.start_s e.end_s h.2 h.3)
        ∙ ap (λ a. some (record { artist = a; start_s = e.start_s; end_s = e.end_s }))
            (strip-artist e.artist h.0 h.1))

parse_lines-print :
    (es : List ParsedEntry) → All IsPrintable es → parse_lines (splitlines (print es)) ≡ ok es
unfolding parse_lines splitlines
parse_lines-print [] h = refl
parse_lines-print (e ∷ es) (h, hs) =
    ap parse_lines (
      splitlines-line (line_of e) (print es) (
        all-append (λ c. not (is_break c)) e.artist (times e.start_s e.end_s)
          (unbroken-solid e.artist h.0) (unbroken-times e.start_s e.end_s h.2 h.3)))
    ∙ parse_lines-line_of e (splitlines (print es)) h
    ∙ ap (cons_ok e) (parse_lines-print es hs)

-- A lineup printed one artist to a line, as the name, a dash, and the start and end in minutes and
-- seconds with a dash between, is parsed to the entries printed, where each time is below a hundred
-- minutes and each name has no dash, middle dot or line break, no blank at an end and no # in front.
pub parse-print :
    (es : List ParsedEntry) → All IsPrintable es → parse_setlist_paste (print es) ≡ ok es
unfolding parse_setlist_paste
parse-print es h = parse_lines-print es h
