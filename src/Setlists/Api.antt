-- ===== src/Setlists/Api.antt =====
-- src/concertpvr/api/setlists.py: reading and replacing the setlist of a recording. `fresh` is the
-- database's choice of a key for a new row, given the keys in use; `decode` is `bytes.decode`.
use concertpvr.Prelude.{
  ℕ, ℤ, pos, not, List, [], ◌∷◌, map, Text, Table, find, insert, keys, is_some, Exn, http, Result,
  ok, err, Action, pure, raise, gets, modify, raise_if, session, ◌>>=◌, ◌>>◌, ◌==◌, if◌then◌else◌,
}
use concertpvr.Models.{Db, Setlist}
use concertpvr.Segment.Segmenter.{setlist_of}
use concertpvr.Setlists.Parser.{ParsedEntry, parse_setlist_paste}

-- `_Entry`
pub record Entry : Type 0 where
  pub artist : Text
  pub start_s : ℤ
  pub end_s : ℤ

abbrev pub no_recording : Exn
no_recording = http 404 "recording not found"

abbrev pub row_of : ℕ → Entry → Setlist
row_of rid e = record {
  recording_id = rid;
  artist = e.artist;
  start_s = e.start_s;
  end_s = e.end_s;
}

-- `delete(Setlist).where(Setlist.recording_id == recording_id)`
unfoldable pub delete_of : ℕ → Table Setlist → Table Setlist
delete_of rid [] = []
delete_of rid ((k, row) ∷ t) =
    let rest = delete_of rid t in if row.recording_id == rid then rest else (k, row) ∷ rest

unfoldable pub add_rows : (List ℕ → ℕ) → List Setlist → Table Setlist → Table Setlist
add_rows fresh [] t = t
add_rows fresh (row ∷ rows) t = add_rows fresh rows (insert (fresh (keys t)) row t)

unfoldable pub get_setlist : ℕ → Action Db (List Setlist)
unfolding setlist_of
get_setlist rid = session do
  raise_if (not (is_some (find rid (← gets (λ db. db.recordings))))) no_recording
  gets (λ db. setlist_of rid db.setlists)

abbrev pub of_parsed : ParsedEntry → Entry
of_parsed e = record { artist = e.artist; start_s = pos e.start_s; end_s = pos e.end_s }

module _ (fresh : List ℕ → ℕ) where
  -- `_replace_entries`
  unfoldable pub replace_entries : ℕ → List Entry → Action Db (List Setlist)
  unfolding delete_of add_rows
  replace_entries rid entries = session do
    raise_if (not (is_some (find rid (← gets (λ db. db.recordings))))) no_recording
    let rows = map (row_of rid) entries
    modify (λ db. record db { setlists = add_rows fresh rows (delete_of rid db.setlists) })
    pure rows

  unfoldable pub post_setlist : ℕ → List Entry → Action Db (List Setlist)
  unfolding replace_entries
  post_setlist rid entries = replace_entries rid entries

  abbrev pub replace_parsed : ℕ → Result (List ParsedEntry) → Action Db (List Setlist)
  replace_parsed rid (err e) = raise (http 400 "unparseable line")
  replace_parsed rid (ok parsed) = replace_entries rid (map of_parsed parsed)

  -- The body is a list of bytes, decoded
  -- with replacement characters, which does not fail.
  unfoldable pub post_setlist_paste : (List ℕ → Text) → ℕ → List ℕ → Action Db (List Setlist)
  unfolding parse_setlist_paste replace_entries
  post_setlist_paste decode rid body = replace_parsed rid (parse_setlist_paste (decode body))
