-- ===== src/Publish/Worker.antt =====
-- `PublishWorker.publish` of src/concertpvr/publisher.py over the database. What the worker calls
-- outside the program, or in modules that only call out (ffmpeg.py, the images of metadata.py, the
-- request of emby.py), is the record `Tools`.
use concertpvr.Prelude.{
  cancelled, ℕ, Bool, true, false, Option, none, some, List, [], ◌∷◌, ◌++◌, Text, Table, codes,
  find, update, values, select, all, strip, Exn, lookup_error, Result, ok, err, Action, pure, raise,
  gets, or_raise, modify, session, lift, ◌>>=◌, ◌>>◌, ℤ, ◌-ℤ◌, if◌then◌else◌, ◌==◌,
}
use concertpvr.Models.{
  Date, Settings, Stream, live, Recording, Segment, publishing, published, publish_failed,
  is_published, ChannelWatcher, Db,
}
use concertpvr.Publish.Metadata.{
  Options, resolve_year, resolve_date, resolve_festival, resolve_venue, resolve_genres,
  resolve_plot, squeeze,
}
use concertpvr.Vod.Handler.{path_suffix}

-- `SegmentMeta` of metadata.py.
pub record SegmentMeta : Type 0 where
  pub artist : Text
  pub title : Option Text
  pub festival : Option Text
  pub venue : Option Text
  pub year : ℕ
  pub date : Date
  pub duration_s : ℤ
  pub width : Option ℕ
  pub height : Option ℕ
  pub plot : Option Text
  pub genres : List Text

-- The arguments of the folder pattern's `format`.
pub record FolderFields : Type 0 where
  pub artist : Text
  pub festival : Text
  pub venue : Text
  pub year : ℕ
  pub date : Date
  pub title : Text
  pub channel : Text

-- A step that writes files returns or raises.
pub record Tools : Type 0 where
  pub date_of : ℕ → Date
  -- `folder_pattern.format(...)`, with `value_error` for an unknown token.
  pub format : FolderFields → Result Text
  pub publish_root : Text
  pub make_dir : Text → Result (Unit {0})
  pub cut : Text → Text → ℤ → ℤ → Result (Unit {0})
  pub thumbnail : Text → Text → ℤ → ℤ → Result (Unit {0})
  pub metadata : SegmentMeta → Text → Result (Unit {0})
  pub trigger_scan : Text → Result (Unit {0})
  -- Removing a file, or a folder with all that is in it.
  pub remove : Text → Result (Unit {0})
  -- The text that the worker stores for an exception.
  pub describe : Exn → Text

-- What the first session reads.
pub record Source : Type 0 where
  pub segment : Segment
  pub recording : Recording
  pub stream : Stream

-- The values that stand in for a stream that is gone.
abbrev blank_stream : Stream
blank_stream = record {
  kind = live;
  youtube_id = [];
  url = [];
  title = [];
  channel_name = [];
  thumbnail_url = none;
  original_upload_date = none;
  description = none;
  youtube_tags = none;
  detected_setlist_text = none;
  detected_setlist_source = none;
  watcher_id = none;
}

abbrev pub stream_or_blank : Option Stream → Stream
stream_or_blank none = blank_stream
stream_or_blank (some st) = st

abbrev text_or : Option Text → Text → Text
text_or none t = t
text_or (some s) _ = s

-- `title or artist`
abbrev title_or : Option Text → Text → Text
title_or none a = a
title_or (some []) a = a
title_or (some (c ∷ s)) a = c ∷ s

abbrev pub set_segment : ℕ → (Segment → Segment) → Db → Db
set_segment sid f db = record db { segments = update sid f db.segments }

abbrev pub mark_publishing : Segment → Segment
mark_publishing seg = record seg { status = publishing; error = none }

abbrev pub mark_missing : Segment → Segment
mark_missing seg = record seg { status = publish_failed; error = some (codes "recording missing") }

abbrev pub or_mark : ℕ → Option Recording → Action Db Recording
or_mark sid none = modify (set_segment sid mark_missing) >> raise lookup_error
or_mark sid (some rec) = pure rec

-- The first session. A recording that is missing raises inside it.
unfoldable pub open_source : ℕ → Action Db Source
open_source sid = session do
  seg ← or_raise lookup_error (find sid (← gets (λ db. db.segments)))
  modify (set_segment sid mark_publishing)
  rec ← or_mark sid (find seg.recording_id (← gets (λ db. db.recordings)))
  streams ← gets (λ db. db.streams)
  pure (record {
    segment = seg;
    recording = rec;
    stream = stream_or_blank (find rec.stream_id streams);
  })

unfoldable pub folder_fields : (ℕ → Date) → Options → Source → FolderFields
folder_fields date_of opts src = record {
  artist = src.segment.artist;
  festival = text_or (resolve_festival opts.festival src.stream) [];
  venue = text_or (resolve_venue opts.venue src.stream) [];
  year = resolve_year date_of opts.year src.stream.original_upload_date src.recording.started_at;
  date = resolve_date date_of src.stream.original_upload_date src.recording.started_at;
  title = title_or src.segment.title src.segment.artist;
  channel = src.stream.channel_name;
}

unfoldable pub segment_meta : (ℕ → Date) → Options → Source → Table ChannelWatcher → SegmentMeta
segment_meta date_of opts src watchers = record {
  artist = src.segment.artist;
  title = src.segment.title;
  festival = resolve_festival opts.festival src.stream;
  venue = resolve_venue opts.venue src.stream;
  year = resolve_year date_of opts.year src.stream.original_upload_date src.recording.started_at;
  date = resolve_date date_of src.stream.original_upload_date src.recording.started_at;
  duration_s = src.segment.end_s -ℤ src.segment.start_s;
  width = src.recording.width;
  height = src.recording.height;
  plot = resolve_plot src.stream;
  genres = resolve_genres src.segment.genres src.stream.watcher_id watchers;
}

-- `path / name`
abbrev pub child_path : Text → Text → Text
child_path dir name = dir ++ b'/' ∷ name

abbrev extension_of : Text → Text
extension_of [] = codes ".mkv"
extension_of (c ∷ e) = c ∷ e

module _ (t : Tools) where
  -- The clip, the thumbnail and the metadata files are written, and the scan is asked for. The
  -- result is the folder.
  unfoldable pub produce : Options → Source → Action Db Text
  unfolding folder_fields segment_meta squeeze path_suffix
  produce opts src = do
    raw ← lift (t.format (folder_fields t.date_of opts src))
    let name = squeeze (strip raw)
    let dir = child_path t.publish_root name
    lift (t.make_dir dir)
    let media = child_path dir (name ++ extension_of (path_suffix src.recording.path))
    lift (t.cut src.recording.path media src.segment.start_s src.segment.end_s)
    let thumb = child_path dir (codes "_thumb.jpg")
    lift (t.thumbnail src.recording.path thumb src.segment.start_s src.segment.end_s)
    watchers ← gets (λ db. db.watchers)
    lift (t.metadata (segment_meta t.date_of opts src watchers) dir)
    lift (t.remove thumb)
    lift (t.trigger_scan dir)
    pure dir

abbrev pub mark_published : Text → Segment → Segment
mark_published dir seg = record seg {
  status = published;
  emby_path = some dir;
  poster_path = some (child_path dir (codes "poster.jpg"));
  nfo_path = some (child_path dir (codes "movie.nfo"));
}

abbrev settings_flag : Option Settings → Bool
settings_flag none = false
settings_flag (some row) = row.auto_delete_source_after_publish

abbrev flag_of : Option Bool → Option Settings → Bool
flag_of (some b) row = b
flag_of none row = settings_flag row

abbrev watcher_pref : Option ChannelWatcher → Option Bool
watcher_pref none = none
watcher_pref (some w) = w.auto_delete_source_after_publish

abbrev pref_of_id : Option ℕ → Table ChannelWatcher → Option Bool
pref_of_id none watchers = none
pref_of_id (some id) watchers = watcher_pref (find id watchers)

-- The watcher's preference, or else the setting.
unfoldable pub delete_flag : Recording → Db → Bool
delete_flag rec db =
    flag_of (pref_of_id (stream_or_blank (find rec.stream_id db.streams)).watcher_id db.watchers)
      db.settings

unfoldable pub all_published : ℕ → Table Segment → Bool
all_published rid segs =
    all (λ seg. is_published seg.status) (select (λ seg. seg.recording_id == rid) (values segs))

abbrev pub mark_deleted : Recording → Recording
mark_deleted rec = record rec { source_deleted = true }

module _ (t : Tools) where
  abbrev pub after_remove : ℕ → Result (Unit {0}) → Db → Db
  after_remove rid (ok _) db = record db { recordings = update rid mark_deleted db.recordings }
  after_remove rid (err _) db = db

  abbrev pub delete_from : ℕ → Option Recording → Db → Db
  delete_from rid none db = db
  delete_from rid (some rec) db =
      if rec.source_deleted
      then db
      else if all_published rid db.segments
      then if delete_flag rec db then after_remove rid (t.remove rec.path) db else db
      else db

  -- The source is removed once all segments of the recording are published.
  unfoldable pub delete_source_when_done : ℕ → Db → Db
  unfolding delete_flag all_published
  delete_source_when_done rid db = delete_from rid (find rid db.recordings) db

  abbrev pub complete_from : ℕ → Text → Option Segment → Db → Db
  complete_from sid dir none db = db
  complete_from sid dir (some seg) db =
      delete_source_when_done seg.recording_id (set_segment sid (mark_published dir) db)

  -- The last session.
  unfoldable pub complete_segment : ℕ → Text → Db → Db
  unfolding delete_source_when_done
  complete_segment sid dir db = complete_from sid dir (find sid db.segments) db

  abbrev pub mark_failed : Exn → Segment → Segment
  mark_failed e seg = record seg { status = publish_failed; error = some (t.describe e) }

  -- The `except` clause writes the failure and raises again. A cancelled task passes it by.
  abbrev pub conclude : ℕ → Result Text × Db → Result (Unit {0}) × Db
  conclude sid (ok dir, db) = (ok tt, complete_segment sid dir db)
  conclude sid (err cancelled, db) = (err cancelled, db)
  conclude sid (err e, db) = (err e, set_segment sid (mark_failed e) db)

  abbrev pub publish_source : ℕ → Options → Result Source × Db → Result (Unit {0}) × Db
  publish_source sid opts (ok src, db) = conclude sid (produce t opts src db)
  publish_source sid opts (err e, db) = (err e, db)

  unfoldable pub publish : ℕ → Options → Action Db (Unit {0})
  unfolding open_source produce complete_segment
  publish sid opts db = publish_source sid opts (open_source sid db)
