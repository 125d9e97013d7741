-- ===== src/Setlists/Tests.antt =====
-- Lines of the test suite of the repository, and the theorems about setlists at concrete inputs.
use concertpvr.Prelude.{
  ℕ, pos, ◌≡◌, refl, inl, none, some, List, [], ◌∷◌, ◌++◌, map, Text, codes, length, arith, ok, err,
  is_space, value_error, ◌≤◌, ◌+◌,
}
use mathlib.Core.List.{Perm}
use concertpvr.Models.{Db, complete, description}
use concertpvr.Examples.{database, download_of}
use concertpvr.Segment.Segmenter.{order_by_start}
use concertpvr.Segment.Drafts.{IsOrdered}
use concertpvr.Setlists.Detector.{
  SetlistEntry, DetectedSetlist, entry_of, longest_contiguous_block, detect_in_description,
}
use concertpvr.Setlists.Blocks.{IsBlock, longest_contiguous_block_lem}
use concertpvr.Setlists.Bounds.{IsSetlist, detect-IsSetlist}
use concertpvr.Setlists.Parser.{ParsedEntry, parse_setlist_paste}
use concertpvr.Setlists.Paste.{print, parse-print}
use concertpvr.Setlists.Api.{Entry, row_of, post_setlist, get_setlist}
use concertpvr.Setlists.Replace.{get-replace}

bracketed :
    entry_of (codes " [1:02:03] - Song, ")
    ≡ some (record { start_s = pos 3723; title = codes "Song" })
unfolding entry_of
bracketed = refl

bare_number : entry_of (codes "12 Song") ≡ none
unfolding entry_of
bare_number = refl

bad_minutes : entry_of (codes "1:60 Song") ≡ none
unfolding entry_of
bad_minutes = refl

only_dashes : entry_of (codes "1:00 --") ≡ some (record { start_s = pos 60; title = codes "-" })
unfolding entry_of
only_dashes = refl

abbrev at : ℕ → SetlistEntry
at n = record { start_s = pos n; title = codes "T" }

abbrev times : List SetlistEntry
times = at 10 ∷ at 20 ∷ at 5 ∷ at 6 ∷ at 7 ∷ []

longest_contiguous_block_example :
    IsBlock times (longest_contiguous_block times) × (3 ≤ length (longest_contiguous_block times))
longest_contiguous_block_example =
    longest_contiguous_block_lem times (at 10 ∷ at 20 ∷ []) (at 5 ∷ at 6 ∷ at 7 ∷ []) []
      (omega arith, (omega arith, tt)) refl

abbrev text : Text
text = codes "Live" ++ 10 ∷ codes "0:00 Intro" ++ 10 ∷ codes "3:20 Song" ++ 10 ∷ codes "1:00 Bonus"

abbrev found : DetectedSetlist
found = record {
  entries =
      record { start_s = pos 0; title = codes "Intro" }
      ∷ record { start_s = pos 200; title = codes "Song" }
      ∷ [];
  source = description;
  raw_text = text;
}

detect-IsSetlist_example : IsSetlist found
unfolding detect_in_description
detect-IsSetlist_example = detect-IsSetlist (some text) none found (inl refl)

abbrev parsed : List ParsedEntry
parsed =
    record { artist = codes "The Band"; start_s = 0; end_s = 3725 }
    ∷ record { artist = codes "B"; start_s = 3725; end_s = 5999 }
    ∷ []

parse-print_example : parse_setlist_paste (print parsed) ≡ ok parsed
unfolding is_space
parse-print_example =
    parse-print parsed
      ((refl, refl, omega arith, omega arith), ((refl, refl, omega arith, omega arith), tt))

unparseable : parse_setlist_paste (codes "Just a name") ≡ err value_error
unfolding parse_setlist_paste
unparseable = refl

abbrev next_key : List ℕ → ℕ
next_key [] = 1
next_key (k ∷ ks) = (k + 1) + next_key ks

abbrev entries : List Entry
entries =
    record { artist = codes "B"; start_s = pos 60; end_s = pos 90 }
    ∷ record { artist = codes "A"; start_s = pos 0; end_s = pos 60 }
    ∷ []

abbrev old : Db
old = record (database ((1, download_of complete) ∷ [])) {
  setlists = (1, row_of 1 (record { artist = codes "X"; start_s = pos 0; end_s = pos 9 })) ∷ [];
}

get-replace_example :
    let (r, db) = post_setlist next_key 1 entries old in
    (r ≡ ok (map (row_of 1) entries))
    × ((get_setlist 1 db).0 ≡ ok (order_by_start (map (row_of 1) entries)))
    × Perm (order_by_start (map (row_of 1) entries)) (map (row_of 1) entries)
    × IsOrdered (order_by_start (map (row_of 1) entries))
    × ((get_setlist 2 db).0 ≡ (get_setlist 2 old).0)
get-replace_example = get-replace next_key 1 entries 2 old refl refl
