-- ===== src/Setlists/Detector.antt =====
-- src/concertpvr/setlist_detector.py: setlists in descriptions, chapters and comments. A line is
-- matched the way the pattern's engine does: the numbers and separators are followed by characters
-- that they cannot give back, and the title is the shortest that only blanks follow.
use concertpvr.Prelude.{
  ℕ, ℤ, pos, ◌+◌, ◌*◌, Bool, not, ◌||◌, Option, none, some, List, [], ◌∷◌, ◌++◌, Text, length, take,
  select, leb, ltb, leb_ℤ, ◌==◌, if◌then◌else◌, is_space, is_empty, lstrip, rstrip, strip,
}
use concertpvr.Models.{SetlistSource, chapters, description, comments}
use concertpvr.Segment.Segmenter.{Chapter}
use concertpvr.Setlists.Lines.{splitlines, short_number, expect, optional, span, rstrip_of}

pub record SetlistEntry : Type 0 where
  pub start_s : ℤ
  pub title : Text

pub record DetectedSetlist : Type 0 where
  pub entries : List SetlistEntry
  pub source : SetlistSource
  pub raw_text : Text

-- The groups `h`, `m`, `s` and `title` of the pattern.
pub record Match : Type 0 where
  pub h : ℕ
  pub m : ℕ
  pub s : Option ℕ
  pub title : Text

-- `[\s\-–—•·.]`
abbrev pub is_separator : ℕ → Bool
is_separator c = is_space c || c == 45 || c == 8211 || c == 8212 || c == 8226 || c == 183 || c == 46

-- The last of the separators, where there are two.
abbrev pub last_of_two : Text → Option Text
last_of_two [] = none
last_of_two (_ ∷ []) = none
last_of_two (_ ∷ c ∷ []) = some (c ∷ [])
last_of_two (_ ∷ c ∷ d ∷ cs) = last_of_two (c ∷ d ∷ cs)

-- `[\s\-–—•·.]+(?P<title>.{1,200}?)\s*$`: where only separators are left, the title is the last one.
unfoldable pub title_after : Text → Option Text
unfolding span rstrip is_space
title_after s =
    let (run, rest) = span is_separator s in
    let shown = rstrip rest in
    if is_empty rest
    then last_of_two run
    else if is_empty run || ltb 200 (length shown)
    then none
    else some shown

-- `(?::(?P<s>\d{1,2}))?`
abbrev pub seconds_part : Text → Option ℕ × Text
seconds_part [] = (none, [])
seconds_part (c ∷ s) =
    if c == 58
    then elim (short_number s) [ none ↦ (none, c ∷ s) | some (v, rest) ↦ (some v, rest) ]
    else (none, c ∷ s)

-- What follows the groups `h` and `m`, and the group `h`, in the pattern.
abbrev pub match_end : ℕ → ℕ → Text → Option Match
match_end h m s3 =
    let (s, s4) = seconds_part s3 in
    elim (title_after (optional 93 s4)) [
      | none ↦ none
      | some title ↦ some (record { h = h; m = m; s = s; title = title })
    ]

abbrev pub match_minutes : ℕ → Text → Option Match
match_minutes h s1 = elim (expect 58 s1) [
  | none ↦ none
  | some s2 ↦ elim (short_number s2) [ none ↦ none | some (m, s3) ↦ match_end h m s3 ]
]

-- `_TS_LINE.match(line)`
unfoldable pub match_line : Text → Option Match
unfolding lstrip is_space short_number title_after
match_line line = elim (short_number (optional 91 (lstrip line))) [
  | none ↦ none
  | some (h, s1) ↦ match_minutes h s1
]

-- `_ts_to_seconds`
unfoldable pub ts_to_seconds : ℕ → ℕ → Option ℕ → Option ℕ
ts_to_seconds h m none = if leb 60 m then none else some (h * 60 + m)
ts_to_seconds h m (some s) = if leb 60 m || leb 60 s then none else some (h * 3600 + m * 60 + s)

-- `title.strip().rstrip(",.").strip()`
unfoldable pub clean : Text → Text
unfolding strip rstrip_of
clean t = strip (rstrip_of (λ c. c == 44 || c == 46) (strip t))

-- The entry of a line, if it has one.
unfoldable pub entry_of : Text → Option SetlistEntry
unfolding match_line ts_to_seconds clean
entry_of line = elim (match_line line) [
  | none ↦ none
  | some g ↦ elim (ts_to_seconds g.h g.m g.s) [
    | none ↦ none
    | some secs ↦
        let title = clean g.title in
        if is_empty title then none else some (record { start_s = pos secs; title = title })
  ]
]

abbrev pub cons_if {ℓ} : {A : Type ℓ} → Option A → List A → List A
cons_if none xs = xs
cons_if (some x) xs = x ∷ xs

unfoldable pub entries_of : List Text → List SetlistEntry
unfolding entry_of
entries_of [] = []
entries_of (line ∷ lines) = cons_if (entry_of line) (entries_of lines)

-- `_extract_entries`
unfoldable pub extract_entries : Text → List SetlistEntry
unfolding entries_of splitlines
extract_entries text = entries_of (splitlines text)

-- The last of a list that is not empty.
abbrev pub last : SetlistEntry → List SetlistEntry → SetlistEntry
last e [] = e
last e (x ∷ xs) = last x xs

-- `current if len(current) > len(best) else best`
abbrev pub longer : List SetlistEntry → List SetlistEntry → List SetlistEntry
longer best current = if ltb (length best) (length current) then current else best

-- The loop of `_longest_contiguous_block`; `current` is the list of the first and the others.
unfoldable pub scan :
    List SetlistEntry → SetlistEntry → List SetlistEntry → List SetlistEntry → List SetlistEntry
scan best first current [] = longer best (first ∷ current)
scan best first current (e ∷ es) =
    let extended = scan best first (current ++ e ∷ []) es in
    let restarted = scan (longer best (first ∷ current)) e [] es in
    if leb_ℤ (last first current).start_s e.start_s then extended else restarted

-- `_longest_contiguous_block`
unfoldable pub longest_contiguous_block : List SetlistEntry → List SetlistEntry
unfolding scan
longest_contiguous_block [] = []
longest_contiguous_block (e ∷ es) = scan [] e [] es

-- A block of at least two entries, with the start of the text it is from.
unfoldable pub detected : SetlistSource → Text → Option DetectedSetlist
unfolding extract_entries longest_contiguous_block
detected source text =
    let block = longest_contiguous_block (extract_entries text) in
    if ltb (length block) 2
    then none
    else some (record { entries = block; source = source; raw_text = take 2000 text })

unfoldable pub detect_in_description : Option Text → Option DetectedSetlist
unfolding detected
detect_in_description none = none
detect_in_description (some text) = if is_empty text then none else detected description text

-- The entry of a chapter: one that has no start or no title is skipped.
abbrev pub chapter_entry : Chapter → Option SetlistEntry
chapter_entry ch = elim ch.start_time [
  | none ↦ none
  | some start ↦ elim ch.title [
    | none ↦ none
    | some [] ↦ none
    | some (c ∷ t) ↦ some (record { start_s = start; title = strip (c ∷ t) })
  ]
]

unfoldable pub chapter_entries : List Chapter → List SetlistEntry
chapter_entries [] = []
chapter_entries (ch ∷ chs) = cons_if (chapter_entry ch) (chapter_entries chs)

unfoldable pub detect_in_chapters : Option (List Chapter) → Option DetectedSetlist
unfolding chapter_entries
detect_in_chapters none = none
detect_in_chapters (some chs) =
    let entries = chapter_entries chs in
    if is_empty entries
    then none
    else some (record { entries = entries; source = chapters; raw_text = [] })

-- An item of the comments list.
pub record Comment : Type 0 where
  pub is_pinned : Bool
  pub like_count : Option ℤ
  pub text : Option Text

-- `c.get("like_count") or 0`
abbrev pub likes : Comment → ℤ
likes c = elim c.like_count [ none ↦ pos 0 | some n ↦ n ]

-- `sorted(..., key=lambda c: -(c.get("like_count") or 0))`, which is stable.
abbrev pub by_likes : Comment → List Comment → List Comment
by_likes c [] = c ∷ []
by_likes c (d ∷ ds) = if leb_ℤ (likes d) (likes c) then c ∷ d ∷ ds else d ∷ by_likes c ds

unfoldable pub sort_by_likes : List Comment → List Comment
sort_by_likes [] = []
sort_by_likes (c ∷ cs) = by_likes c (sort_by_likes cs)

-- Pinned comments first, then the others, the most liked first.
unfoldable pub candidates : List Comment → List Comment
unfolding sort_by_likes
candidates cs = select (λ c. c.is_pinned) cs ++ sort_by_likes (select (λ c. not c.is_pinned) cs)

abbrev pub detected_in : Option Text → Option DetectedSetlist
detected_in none = none
detected_in (some []) = none
detected_in (some (c ∷ s)) = detected comments (c ∷ s)

abbrev pub or_else {ℓ} : {A : Type ℓ} → Option A → Option A → Option A
or_else none o = o
or_else (some a) o = some a

-- The first comment that has a setlist.
unfoldable pub first_detected : List Comment → Option DetectedSetlist
unfolding detected
first_detected [] = none
first_detected (c ∷ cs) = or_else (detected_in c.text) (first_detected cs)

unfoldable pub detect_in_comments : Option (List Comment) → Option DetectedSetlist
unfolding first_detected candidates
detect_in_comments none = none
detect_in_comments (some cs) = first_detected (take 20 (candidates cs))
