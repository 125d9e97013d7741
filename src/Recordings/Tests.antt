-- ===== src/Recordings/Tests.antt =====
-- The theorem about the media of a recording at a concrete input, and ranges of the repository's tests.
use concertpvr.Prelude.{ℕ, negsuc, ◌-ℤ◌, ◌≡◌, refl, none, some, List, [], ◌∷◌, Text, codes, arith}
use concertpvr.Models.{Db, complete}
use concertpvr.Examples.{database, download_of}
use concertpvr.Recordings.Media.{Entry, file, match_range, ranged, get_recording_media}
use concertpvr.Recordings.Chunks.{Sends, get_recording_media_lem}

abbrev bytes : List ℕ
bytes = 5 ∷ 6 ∷ 7 ∷ 8 ∷ []

abbrev disk : Text → Entry
disk path = file bytes

abbrev one : Db
one = database ((4, download_of complete) ∷ [])

open_end : match_range (codes "bytes=12-") ≡ some (12, none)
unfolding match_range
open_end = refl

suffix : match_range (codes "bytes=-5") ≡ none
unfolding match_range
suffix = refl

-- A range that ends before it starts is answered with 206 and a content length below zero.
backwards :
    ranged bytes (3, some 1) ≡ record { status = 206; content_length = negsuc 0; body = some [] }
unfolding ranged ◌-ℤ◌
backwards = refl

get_recording_media_example :
    Sends 200 bytes (get_recording_media disk none 4 one)
    × Sends 206 (6 ∷ 7 ∷ []) (get_recording_media disk (some (codes "bytes=1-2")) 4 one)
unfolding match_range
get_recording_media_example =
    get_recording_media_lem disk (codes "bytes=1-2") 4 one (download_of complete) bytes 1 (some 2)
      refl refl refl (omega arith) (omega arith)
