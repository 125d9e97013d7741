-- ===== src/Recordings/Media.antt =====
-- `get_recording_media` and `_stream_file` of src/concertpvr/api/recordings.py. A file is its bytes,
-- and a path is a file, a directory or missing. The end of a range is kept as the position behind it.
use concertpvr.Prelude.{
  ℕ, zero, suc, ℤ, pos, ◌-ℤ◌, ◌+◌, ◌-◌, ◌*◌, ◌||◌, Option, none, some, List, [], ◌∷◌, Text, codes,
  find, is_empty, length, take, drop, min, ltb, leb, ◌==◌, http, Result, ok, err, if◌then◌else◌,
  starts_with,
}
use concertpvr.Models.{Db}
use concertpvr.Setlists.Lines.{is_digit, span}

pub data Entry : Type 0 where
  missing directory : Entry
  file : List ℕ → Entry

-- `_CHUNK_SIZE`
abbrev pub chunk_size : ℕ
chunk_size = 1048576

abbrev pub cons_some : List ℕ → Option (List (List ℕ)) → Option (List (List ℕ))
cons_some chunk none = none
cons_some chunk (some next) = some (chunk ∷ next)

-- The loop of `_stream_file` from a position on: what is left of the range, and of the file. It is on
-- fuel, with nothing as the result where the fuel is out before the loop has come to its end.
unfoldable pub read_chunks : ℕ → ℕ → List ℕ → Option (List (List ℕ))
read_chunks zero remaining rest = none
read_chunks (suc n) remaining rest =
    let chunk = take (min chunk_size remaining) rest in
    let next = read_chunks n (remaining - length chunk) (drop (length chunk) rest) in
    if remaining == 0 then some [] else if is_empty chunk then some [] else cons_some chunk next

-- `_stream_file(path, start, end)`, with `stop = end + 1`: one round for each byte of the range, and one
-- for the last test.
unfoldable pub stream_file : List ℕ → ℕ → ℕ → Option (List (List ℕ))
unfolding read_chunks
stream_file bytes start stop = read_chunks (suc (stop - start)) (stop - start) (drop start bytes)

-- `int(digits)`
abbrev pub number : ℕ → Text → ℕ
number v [] = v
number v (c ∷ s) = number (v * 10 + (c - 48)) s

-- The start and the end of a range, which may be left out.
abbrev pub after_start : ℕ → Text → Option (ℕ × Option ℕ)
after_start start [] = none
after_start start (c ∷ s) =
    let digits = (span is_digit s).0 in
    if c == 45
    then some (start, (if is_empty digits then none else some (number 0 digits)))
    else none

-- `_RANGE_RE.match(header)`
unfoldable pub match_range : Text → Option (ℕ × Option ℕ)
unfolding span starts_with
match_range header =
    let (digits, rest) = span is_digit (drop 6 header) in
    if starts_with (codes "bytes=") header
    then (if is_empty digits then none else after_start (number 0 digits) rest)
    else none

-- The status, the content length of the header, and the body in chunks.
pub record Media : Type 0 where
  pub status : ℕ
  pub content_length : ℤ
  pub body : Option (List (List ℕ))

abbrev pub stop_of : ℕ → Option ℕ → ℕ
stop_of size none = size
stop_of size (some end) = end + 1

unfoldable pub ranged : List ℕ → ℕ × Option ℕ → Media
unfolding stream_file
ranged bytes (start, end) =
    let size = length bytes in
    let stop = stop_of size end in
    if leb size start || ltb size stop
    then record { status = 416; content_length = pos 0; body = some [] }
    else record {
      status = 206;
      content_length = pos stop -ℤ pos start;
      body = stream_file bytes start stop;
    }

abbrev pub whole : List ℕ → Media
whole bytes = record {
  status = 200;
  content_length = pos (length bytes);
  body = stream_file bytes 0 (length bytes);
}

abbrev pub served : Option Text → List ℕ → Result Media
served none bytes = ok (whole bytes)
served (some []) bytes = ok (whole bytes)
served (some (c ∷ s)) bytes = elim (match_range (c ∷ s)) [
  | none ↦ err (http 400 "invalid Range header")
  | some range ↦ ok (ranged bytes range)
]

abbrev pub from_entry : Option Text → Entry → Result Media
from_entry header missing = err (http 404 "recording file missing")
from_entry header directory =
    err
      (http 415 "recording is a directory of fragments; only single-file recordings can be served")
from_entry header (file bytes) = served header bytes

unfoldable pub get_recording_media : (Text → Entry) → Option Text → ℕ → Db → Result Media
unfolding ranged match_range
get_recording_media entry header id db = elim (find id db.recordings) [
  | none ↦ err (http 404 "recording not found")
  | some rec ↦ from_entry header (entry rec.path)
]
