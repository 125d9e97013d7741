-- ===== src/Poller.antt =====
-- The check of a watched channel for new uploads: `_check_for_new_vod_uploads` of
-- src/concertpvr/channel_poller.py. What yt-dlp answers, the regular expressions, the clock, and the
-- detection of setlists and artists in other modules are the record `Tools`.
pub mod Uploads
mod Tests
use concertpvr.Prelude.{
  ℕ, Bool, true, false, not, ◌&&◌, ◌||◌, Option, none, some, List, [], ◌∷◌, ◌++◌, Text, Table,
  codes, find, insert, keys, is_empty, is_some, strip, starts_with, text_eq, if◌then◌else◌, ltb,
  ◌==◌, any,
}
use concertpvr.Models.{
  Db, Date, Stream, video, SetlistSource, Recording, vod_queued, ChannelWatcher,
}
use concertpvr.Vod.Queue.{World, enqueue, stream_by_youtube_id}

-- `BroadcastInfo` of ytdlp_channels.py, as far as the check reads it.
pub record Upload : Type 0 where
  pub youtube_id : Text
  pub url : Text
  pub title : Text
  pub is_live : Bool
  pub upload_date : Option Date

-- `StreamInfo` of ytdlp.py, as far as the check reads it, with the setlist that is detected in its
-- chapters, description or comments.
pub record Info : Type 0 where
  pub youtube_id : Text
  pub url : Text
  pub title : Text
  pub channel_name : Text
  pub thumbnail_url : Option Text
  pub is_live : Bool
  pub original_upload_date : Option Date
  pub description : Option Text
  pub tags : Option (List Text)
  pub setlist : Option (Text × SetlistSource)

pub record Tools : Type 0 where
  -- `probe`, or nothing where it raises.
  pub probe : Text → Bool → Option Info
  -- `re.search(pattern, title, re.IGNORECASE)`, or nothing for a pattern that is none.
  pub search : Text → Text → Option Bool
  pub lower : Text → Text
  -- `extract_artist`
  pub extract_artist : Text → Option Text → Option Text
  pub date_of : ℕ → Date
  pub now : ℕ
  pub staging_root : Text
  -- The keys of new rows.
  pub fresh : List ℕ → ℕ

-- `p in s`
unfoldable pub is_part : Text → Text → Bool
is_part p [] = is_empty p
is_part p (c ∷ s) = starts_with p (c ∷ s) || is_part p s

-- `a > b` for dates.
unfoldable pub is_after : Date → Date → Bool
is_after a b =
    ltb b.year a.year
    || (a.year == b.year) && (ltb b.month a.month || (a.month == b.month) && ltb b.day a.day)

-- Whether an upload is known to be from a day after the watcher's.
abbrev pub is_new : Date → Option Date → Bool
is_new day none = false
is_new day (some d) = is_after d day

-- `youtube_id in known_ids`
unfoldable pub is_known : Text → List Text → Bool
is_known yid ids = any (text_eq yid) ids

abbrev pub youtube_ids : Table Stream → List Text
youtube_ids [] = []
youtube_ids ((_, st) ∷ t) = st.youtube_id ∷ youtube_ids t

abbrev searched : (Text → Text) → Text → Text → Option Bool → Bool
searched lower title pattern (some b) = b
searched lower title pattern none = is_part (lower pattern) (lower title)

abbrev pub ids_after : Option (ℕ × Text) → List ℕ → List ℕ
ids_after none ids = ids
ids_after (some (id, _)) ids = id ∷ ids

abbrev pub known_after : Option (ℕ × Text) → List Text → List Text
known_after none known = known
known_after (some (_, yid)) known = yid ∷ known

unfoldable pub enqueue_all : List ℕ → World → World
unfolding enqueue
enqueue_all [] v = v
enqueue_all (id ∷ ids) v = enqueue_all ids (record v { queue = enqueue id v.queue })

module _ (t : Tools) where
  unfoldable pub matches_filter : Text → Option Text → Bool
  unfolding is_part
  matches_filter title none = true
  matches_filter title (some pattern) =
      is_empty (strip pattern) || searched t.lower title pattern (t.search pattern title)

  -- The filters before the full probe.
  unfoldable pub is_candidate : ChannelWatcher → List Text → Upload → Bool
  unfolding matches_filter is_known is_after
  is_candidate w known u =
      not u.is_live
      && not (is_known u.youtube_id known)
      && is_new (t.date_of w.added_at) u.upload_date
      && matches_filter u.title w.vod_title_filter

  abbrev text_of : Option (Text × SetlistSource) → Option Text
  text_of none = none
  text_of (some (text, _)) = some text

  abbrev source_of : Option (Text × SetlistSource) → Option SetlistSource
  source_of none = none
  source_of (some (_, source)) = some source

  abbrev pub stream_of : ℕ → Info → Stream
  stream_of watcher_id info = record {
    kind = video;
    youtube_id = info.youtube_id;
    url = info.url;
    title = info.title;
    channel_name = info.channel_name;
    thumbnail_url = info.thumbnail_url;
    original_upload_date = info.original_upload_date;
    description = info.description;
    youtube_tags = info.tags;
    detected_setlist_text = text_of info.setlist;
    detected_setlist_source = source_of info.setlist;
    watcher_id = some watcher_id;
  }

  abbrev pub recording_of : ChannelWatcher → ℕ → Info → Recording
  recording_of w stream_id info = record {
    stream_id = stream_id;
    started_at = t.now;
    ended_at = none;
    path = t.staging_root ++ codes "/vod-" ++ info.youtube_id ++ codes ".%(ext)s";
    duration_s = 0;
    size_bytes = 0;
    width = none;
    height = none;
    fps = none;
    status = vod_queued;
    is_buffer = false;
    error = none;
    raw_chapters_json = none;
    auto_publish_after_download =
        w.auto_publish && is_some (t.extract_artist info.title w.vod_artist_regex);
    source_deleted = false;
  }

  -- The rows of a video that is new, and the key of its recording.
  abbrev pub add_rows : ℕ → ChannelWatcher → Info → Db → ℕ × Db
  add_rows watcher_id w info db =
      let stream_id = t.fresh (keys db.streams) in
      let rec_id = t.fresh (keys db.recordings) in
      (
        rec_id,
        record db {
          streams = insert stream_id (stream_of watcher_id info) db.streams;
          recordings = insert rec_id (recording_of w stream_id info) db.recordings;
        },
      )

  -- What a probed video adds: nothing if it is live, or its stream is there.
  abbrev pub probed : ℕ → ChannelWatcher → Option Info → Db → Option (ℕ × Text) × Db
  probed watcher_id w none db = (none, db)
  probed watcher_id w (some info) db =
      if info.is_live || is_some (stream_by_youtube_id info.youtube_id db.streams)
      then (none, db)
      else let (rec_id, db') = add_rows watcher_id w info db in
        (some (rec_id, info.youtube_id), db')

  abbrev pub visit : ℕ → ChannelWatcher → List Text → Upload → Db → Option (ℕ × Text) × Db
  visit watcher_id w known u db =
      if is_candidate w known u
      then probed watcher_id w (t.probe u.url w.extract_setlist_from_comments) db
      else (none, db)

  -- The loop over the uploads: the new recordings in order, and the database.
  unfoldable pub visit_all : ℕ → ChannelWatcher → List Text → List Upload → Db → List ℕ × Db
  unfolding is_candidate
  visit_all watcher_id w known [] db = ([], db)
  visit_all watcher_id w known (u ∷ us) db =
      let (added, db1) = visit watcher_id w known u db in
      let (ids, db2) = visit_all watcher_id w (known_after added known) us db1 in
      (ids_after added ids, db2)

  -- `uploads` is what `list_recent_uploads` answers, or nothing if it raises.
  unfoldable pub check_for_new_vod_uploads :
      ℕ → ChannelWatcher → Option (List Upload) → World → World
  unfolding visit_all enqueue_all
  check_for_new_vod_uploads watcher_id w none v = v
  check_for_new_vod_uploads watcher_id w (some uploads) v =
      let (ids, db) = visit_all watcher_id w (youtube_ids v.db.streams) uploads v.db in
      enqueue_all ids (record v { db = db })
