-- ===== src/Setlists/Bounds.antt =====
-- What every setlist detected by src/concertpvr/setlist_detector.py satisfies, whatever the text is.
use concertpvr.Prelude.{
  ℕ, pos, ◌≤◌, ◌<◌, ◌≡◌, ◌⊎◌, refl, Bool-cases, inl, inr, Bool, true, false, not, is_space, strip,
  rstrip, Option, none, some, List, [], ◌∷◌, ◌++◌, length, length-take-le, Text, take, ltb, ◌==◌,
  ◌||◌, arith, is_empty, All, All-append_left, All-append_right, if◌then◌else◌, Option-cases, subst,
  lstrip,
}
use concertpvr.Models.{SetlistSource, comments, description}
use concertpvr.Setlists.Lines.{rstrip_of, short_number, expect, optional, splitlines}
use concertpvr.Setlists.Detector.{
  SetlistEntry, DetectedSetlist, Comment, Match, match_end, match_minutes, match_line,
  ts_to_seconds, entry_of, entries_of, extract_entries, longest_contiguous_block, detected,
  detect_in_description, detect_in_comments, detected_in, first_detected, candidates, clean,
}
use concertpvr.Setlists.Blocks.{IsAscending, longest_contiguous_block-IsBlock}

-- Whether a text begins with a character that shows.
abbrev pub starts_shown : Text → Bool
starts_shown [] = false
starts_shown (c ∷ s) = not (is_space c)

-- A title that is not blank and has no blank at either end, and a start before a hundred hours.
abbrev pub IsEntry : SetlistEntry → Type 0
IsEntry e =
    (starts_shown e.title ≡ true)
    × (rstrip e.title ≡ e.title)
    × ((n : ℕ) × (e.start_s ≡ pos n) × (n < 360000))

short_number-lt : (s : Text) (n : ℕ) (rest : Text) → short_number s ≡ some (n, rest) → n < 100
unfolding short_number
short_number-lt [] n rest h = cc
short_number-lt (c ∷ []) n rest h = ground arith
short_number-lt (c ∷ d ∷ s) n rest h = ground arith

ts_to_seconds-lt :
    (h m : ℕ) (s : Option ℕ) (n : ℕ) → h < 100 → ts_to_seconds h m s ≡ some n → n < 360000
unfolding ts_to_seconds
ts_to_seconds-lt h m none n hh e = ground arith
ts_to_seconds-lt h m (some s) n hh e = ground arith

match_end-h : (h m : ℕ) (s : Text) (g : Match) → match_end h m s ≡ some g → g.h ≡ h
match_end-h h m s g e = ground arith

match_minutes-h : (h : ℕ) (s : Text) (g : Match) → match_minutes h s ≡ some g → g.h ≡ h
match_minutes-h h s g e = elim (Option-cases (expect 58 s)) [
  | inl missed ↦ absurd (ground arith)
  | inr (s2, colon) ↦ elim (Option-cases (short_number s2)) [
    | inl missed ↦ absurd (ground arith)
    | inr (x, read) ↦ match_end-h h x.0 x.1 g (ground arith)
  ]
]

match_line-h : (line : Text) (g : Match) → match_line line ≡ some g → g.h < 100
unfolding match_line
match_line-h line g e = elim (Option-cases (short_number (optional 91 (lstrip line)))) [
  | inl missed ↦ absurd (ground arith)
  | inr (x, read) ↦ omega (
    arith,
    match_minutes-h x.0 x.1 g (ground arith),
    short_number-lt (optional 91 (lstrip line)) x.0 x.1 read,
  )
]

lstrip-shown : (s : Text) → is_empty (lstrip s) ≡ false → starts_shown (lstrip s) ≡ true
unfolding lstrip
lstrip-shown [] h = cc
lstrip-shown (c ∷ s) h = ground (arith, lstrip-shown s)

rstrip-shown : (s : Text) → starts_shown s ≡ true → starts_shown (rstrip s) ≡ true
unfolding rstrip
rstrip-shown [] h = cc
rstrip-shown (c ∷ s) h = ground arith

rstrip-filled : (s : Text) → is_empty (rstrip s) ≡ false → is_empty s ≡ false
unfolding rstrip
rstrip-filled [] h = h
rstrip-filled (c ∷ s) h = refl

-- What is stripped and not empty begins with a character that shows.
strip-shown : (s : Text) → is_empty (strip s) ≡ false → starts_shown (strip s) ≡ true
unfolding strip
strip-shown s h = rstrip-shown (lstrip s) (lstrip-shown s (rstrip-filled (lstrip s) h))

rstrip_twice : (s : Text) → rstrip (rstrip s) ≡ rstrip s
unfolding rstrip
rstrip_twice [] = refl
rstrip_twice (c ∷ s) = ground (arith, rstrip_twice s)

rstrip-clean : (s : Text) → rstrip (clean s) ≡ clean s
unfolding clean strip
rstrip-clean s = rstrip_twice (lstrip (rstrip_of (λ c. c == 44 || c == 46) (strip s)))

clean-shown : (s : Text) → is_empty (clean s) ≡ false → starts_shown (clean s) ≡ true
unfolding clean
clean-shown s h = strip-shown (rstrip_of (λ c. c == 44 || c == 46) (strip s)) h

entry_of-IsEntry : (line : Text) (e : SetlistEntry) → entry_of line ≡ some e → IsEntry e
unfolding entry_of
entry_of-IsEntry line e eq = elim (Option-cases (match_line line)) [
  | inl missed ↦ absurd (ground arith)
  | inr (g, matched) ↦ elim (Option-cases (ts_to_seconds g.h g.m g.s)) [
    | inl out ↦ absurd (ground arith)
    | inr (secs, read) ↦ elim (Bool-cases (is_empty (clean g.title))) [
      | inl blank ↦ absurd (ground arith)
      | inr shown ↦ (
        ground (arith, clean-shown g.title shown),
        ground (arith, rstrip-clean g.title),
        (secs, ground arith, ts_to_seconds-lt g.h g.m g.s secs (match_line-h line g matched) read),
      )
    ]
  ]
]

entries_of-IsEntry : (lines : List Text) → All IsEntry (entries_of lines)
unfolding entries_of
entries_of-IsEntry [] = tt
entries_of-IsEntry (line ∷ lines) = elim (Option-cases (entry_of line)) [
  | inl skipped ↦ rw skipped (entries_of-IsEntry lines)
  | inr (e, found) ↦ rw found (entry_of-IsEntry line e found, entries_of-IsEntry lines)
]

-- What a detected setlist is: two entries or more, in an order in which none starts before the one
-- in front of it, and the beginning of a text.
abbrev pub IsSetlist : DetectedSetlist → Type 0
IsSetlist d =
    (2 ≤ length d.entries)
    × IsAscending d.entries
    × All IsEntry d.entries
    × (length d.raw_text ≤ 2000)

of_else :
    (b : Bool) (c d : DetectedSetlist)
    → (if b then none else some c) ≡ some d
    → (b ≡ false) × (c ≡ d)
of_else true c d h = absurd (ground arith)
of_else false c d h = (refl, ground arith)

le_of_ltb : (m n : ℕ) → ltb m n ≡ false → n ≤ m
le_of_ltb m n h = ground arith

block-IsSetlist :
    (source : SetlistSource) (text : Text) (es : List SetlistEntry)
    → All IsEntry es
    → ltb (length (longest_contiguous_block es)) 2 ≡ false
    → IsSetlist (record {
      entries = longest_contiguous_block es;
      source = source;
      raw_text = take 2000 text;
    })
block-IsSetlist source text es h enough =
    let block = longest_contiguous_block es in
    let (up, (pre, post, parts)) = longest_contiguous_block-IsBlock es in
    let kept = subst (All IsEntry) parts h in
    (
      le_of_ltb (length block) 2 enough,
      up,
      All-append_left IsEntry block post (All-append_right IsEntry pre (block ++ post) kept),
      length-take-le 2000 text,
    )

detected-IsSetlist :
    (source : SetlistSource) (text : Text) (d : DetectedSetlist)
    → detected source text ≡ some d
    → IsSetlist d
unfolding detected extract_entries
detected-IsSetlist source text d eq =
    let es = extract_entries text in
    let d0 : DetectedSetlist = record {
      entries = longest_contiguous_block es;
      source = source;
      raw_text = take 2000 text;
    } in
    let (enough, same) = of_else (ltb (length (longest_contiguous_block es)) 2) d0 d eq in
    subst IsSetlist same
      (block-IsSetlist source text es (entries_of-IsEntry (splitlines text)) enough)

detected_in-IsSetlist :
    (o : Option Text) (d : DetectedSetlist) → detected_in o ≡ some d → IsSetlist d
detected_in-IsSetlist none d eq = cc
detected_in-IsSetlist (some []) d eq = cc
detected_in-IsSetlist (some (c ∷ s)) d eq = detected-IsSetlist comments (c ∷ s) d eq

first_detected-IsSetlist :
    (cs : List Comment) (d : DetectedSetlist) → first_detected cs ≡ some d → IsSetlist d
unfolding first_detected
first_detected-IsSetlist [] d eq = cc
first_detected-IsSetlist (c ∷ cs) d eq = elim (Option-cases (detected_in c.text)) [
  | inl nothing ↦ first_detected-IsSetlist cs d (ground arith)
  | inr (found, here) ↦ detected_in-IsSetlist c.text d (ground arith)
]

-- Whatever is detected in a description or in comments has at least two entries, none of which
-- starts before the one in front of it; each has a title that is not blank, with no blank at
-- either end, and starts before a hundred hours, and the text that is kept has at most 2000 characters.
pub detect-IsSetlist :
    (o : Option Text) (cs : Option (List Comment)) (d : DetectedSetlist)
    → (detect_in_description o ≡ some d) ⊎ (detect_in_comments cs ≡ some d)
    → IsSetlist d
unfolding detect_in_description detect_in_comments
detect-IsSetlist none cs d (inl eq) = cc
detect-IsSetlist (some []) cs d (inl eq) = cc
detect-IsSetlist (some (c ∷ s)) cs d (inl eq) = detected-IsSetlist description (c ∷ s) d eq
detect-IsSetlist o none d (inr eq) = cc
detect-IsSetlist o (some cs) d (inr eq) = first_detected-IsSetlist (take 20 (candidates cs)) d eq
