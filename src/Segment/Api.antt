-- ===== src/Segment/Api.antt =====
-- src/concertpvr/api/segments.py: create, read, patch, delete and bulk publish. A handler raises the
-- HTTP error that it answers with; the key of a created row is the database's choice.
use concertpvr.Prelude.{
  ℕ, ℤ, Option, none, some, Text, find, insert, update, erase, Exn, http, type_error,
  integrity_error, Result, ok, err, Action, pure, gets, or_raise, raise_if, modify, session, lift,
  if◌then◌else◌, ◌>>=◌, ◌>>◌, leb_ℤ, is_some, not,
}
use concertpvr.Models.{Db, Segment, SegmentSource, draft}

pub record SegmentCreate : Type 0 where
  pub recording_id : ℕ
  pub artist : Text
  pub title : Option Text
  pub start_s : ℤ
  pub end_s : ℤ
  pub source : SegmentSource
  pub genres : Option Text

-- `exclude_unset`: a field is absent, or present with a value that may be null.
pub record SegmentPatch : Type 0 where
  pub artist : Option (Option Text)
  pub title : Option (Option Text)
  pub start_s : Option (Option ℤ)
  pub end_s : Option (Option ℤ)
  pub genres : Option (Option Text)

abbrev pub row_of : SegmentCreate → Segment
row_of p = record {
  recording_id = p.recording_id;
  artist = p.artist;
  title = p.title;
  start_s = p.start_s;
  end_s = p.end_s;
  source = p.source;
  status = draft;
  error = none;
  emby_path = none;
  poster_path = none;
  nfo_path = none;
  genres = p.genres;
}

abbrev pub bad_bounds : Exn
bad_bounds = http 400 "end_s must be after start_s"

abbrev pub no_segment : Exn
no_segment = http 404 "segment not found"

unfoldable pub create_segment : ℕ → SegmentCreate → Action Db Segment
create_segment new_id p = do
  raise_if (leb_ℤ p.end_s p.start_s) bad_bounds
  session do
    raise_if (not (is_some (find p.recording_id (← gets (λ db. db.recordings)))))
        (http 404 "recording not found")
    modify (λ db. record db { segments = insert new_id (row_of p) db.segments })
    or_raise (http 404 "segment not found after creation")
        (find new_id (← gets (λ db. db.segments)))

unfoldable pub get_segment : ℕ → Action Db Segment
get_segment id = session do or_raise no_segment (find id (← gets (λ db. db.segments)))

-- What a column holds once the patch is applied; `none` is null.
abbrev pub patched {ℓ} : {A : Type ℓ} → Option (Option A) → A → Option A
patched none old = some old
patched (some v) old = v

abbrev pub patched_null {ℓ} : {A : Type ℓ} → Option (Option A) → Option A → Option A
patched_null none old = old
patched_null (some v) old = v

-- The flush of a patched row: the artist may not be null.
abbrev pub flushed : SegmentPatch → Segment → ℤ → ℤ → Option Text → Result Segment
flushed p seg start end none = err integrity_error
flushed p seg start end (some artist) = ok (record seg {
  artist = artist;
  title = patched_null p.title seg.title;
  start_s = start;
  end_s = end;
  genres = patched_null p.genres seg.genres;
})

-- `if seg.end_s <= seg.start_s`: comparing with a null raises a `TypeError`.
abbrev pub compared : SegmentPatch → Segment → Option ℤ → Option ℤ → Result Segment
compared p seg none _ = err type_error
compared p seg (some start) none = err type_error
compared p seg (some start) (some end) =
    if leb_ℤ end start
    then err bad_bounds
    else flushed p seg start end (patched p.artist seg.artist)

unfoldable pub apply_patch : SegmentPatch → Segment → Result Segment
apply_patch p seg = compared p seg (patched p.start_s seg.start_s) (patched p.end_s seg.end_s)

unfoldable pub patch_segment : ℕ → SegmentPatch → Action Db Segment
patch_segment id p = session do
  seg ← or_raise no_segment (find id (← gets (λ db. db.segments)))
  seg' ← lift (apply_patch p seg)
  modify (λ db. record db { segments = update id (λ _. seg') db.segments })
  pure seg'

unfoldable pub delete_segment : ℕ → Action Db (Unit {0})
delete_segment id = session do
  or_raise no_segment (find id (← gets (λ db. db.segments)))
  modify (λ db. record db { segments = erase id db.segments })
