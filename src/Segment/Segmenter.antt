-- ===== src/Segment/Segmenter.antt =====
-- src/concertpvr/segmenter.py: draft segments from chapters, or else from the setlist rows.
-- `loads` is `json.loads` of the chapters column, `none` where it raises, with the times as `int`
-- converts them; `fresh` is the database's choice of a key for a new row, given the keys in use.
use concertpvr.Prelude.{
  ℕ, ℤ, pos, Option, none, some, List, [], ◌∷◌, Text, Table, insert, keys, leb_ℤ, is_empty, strip,
  select, values, if◌then◌else◌, ◌==◌,
}
use concertpvr.Models.{Recording, Segment, Setlist, SegmentSource, chapter, setlist, draft}

-- An item of the chapters list; a key that is missing or null is `none`.
pub record Chapter : Type 0 where
  pub title : Option Text
  pub start_time : Option ℤ
  pub end_time : Option ℤ

-- `int(ch.get(key) or 0)`
abbrev pub seconds : Option ℤ → ℤ
seconds none = pos 0
seconds (some t) = t

-- `(ch.get("title") or "").strip()`
abbrev pub heading : Option Text → Text
heading none = strip []
heading (some t) = strip t

abbrev pub new_segment : ℕ → Text → ℤ → ℤ → SegmentSource → Segment
new_segment rid artist start end source = record {
  recording_id = rid;
  artist = artist;
  title = none;
  start_s = start;
  end_s = end;
  source = source;
  status = draft;
  error = none;
  emby_path = none;
  poster_path = none;
  nfo_path = none;
  genres = none;
}

-- The chapter is skipped if it has no title or does not end after its start.
unfoldable pub from_chapters : ℕ → List Chapter → List Segment
from_chapters rid [] = []
from_chapters rid (ch ∷ chs) =
    let title = heading ch.title in
    let start = seconds ch.start_time in
    let end = seconds ch.end_time in
    if is_empty title
    then from_chapters rid chs
    else if leb_ℤ end start
    then from_chapters rid chs
    else new_segment rid title start end chapter ∷ from_chapters rid chs

unfoldable pub from_setlist : ℕ → List Setlist → List Segment
from_setlist rid [] = []
from_setlist rid (row ∷ rows) =
    new_segment rid row.artist row.start_s row.end_s setlist ∷ from_setlist rid rows

-- `.order_by(Setlist.start_s)`
abbrev pub by_start : Setlist → List Setlist → List Setlist
by_start x [] = x ∷ []
by_start x (y ∷ ys) = if leb_ℤ x.start_s y.start_s then x ∷ y ∷ ys else y ∷ by_start x ys

unfoldable pub order_by_start : List Setlist → List Setlist
order_by_start [] = []
order_by_start (x ∷ xs) = by_start x (order_by_start xs)

unfoldable pub setlist_of : ℕ → Table Setlist → List Setlist
unfolding order_by_start
setlist_of rid t = order_by_start (select (λ row. row.recording_id == rid) (values t))

module _ (loads : Text → Option (List Chapter)) where
  -- `json.loads` where the column is set; an error reads as no chapters.
  abbrev pub chapters_of : Option Text → List Chapter
  chapters_of none = []
  chapters_of (some json) =
      if is_empty json then [] else elim (loads json) [ none ↦ [] | some chs ↦ chs ]

  -- Chapters if there are any, or else the setlist.
  unfoldable pub derive_draft_segments : ℕ → Recording → Table Setlist → List Segment
  unfolding from_chapters from_setlist setlist_of
  derive_draft_segments rid rec rows =
      let chapters = chapters_of rec.raw_chapters_json in
      if is_empty chapters
      then from_setlist rid (setlist_of rid rows)
      else from_chapters rid chapters

-- `session.add(seg)` for each of them.
unfoldable pub add_segments : (List ℕ → ℕ) → List Segment → Table Segment → Table Segment
add_segments fresh [] t = t
add_segments fresh (seg ∷ segs) t = add_segments fresh segs (insert (fresh (keys t)) seg t)
