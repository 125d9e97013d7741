-- ===== src/Streams/Create.antt =====
-- `create_stream` of src/concertpvr/api/streams.py for the URL of a single video: a setlist is looked
-- for in the chapters, the description, the comments and on setlist.fm, in this order; then the stream
-- is added, and for a video a recording that the download queue gets. What yt-dlp and setlist.fm
-- answer, the clock and the keys of new rows are the record `Tools`.
use Prim.Native.String.{String}
use concertpvr.Prelude.{
  ℕ, Bool, false, ◌⊎◌, inl, inr, ◌&&◌, ◌++◌, Option, none, some, List, [], ◌∷◌, Text, codes, Table,
  insert, keys, is_some, is_empty, text_eq, http, ok, err, Action, if◌then◌else◌,
}
use concertpvr.Models.{
  Db, Date, Settings, Stream, StreamKind, video, live, SetlistSource, chapters, description,
  comments, setlistfm, Recording, vod_queued, ChannelWatcher,
}
use concertpvr.Segment.Segmenter.{Chapter}
use concertpvr.Setlists.Detector.{
  Comment, or_else, detect_in_chapters, detect_in_description, detect_in_comments,
}
use concertpvr.Pool.Starter.{live_recording}
use concertpvr.Vod.Handler.{cookies_of}
use concertpvr.Vod.Queue.{World, enqueue, stream_by_youtube_id}

-- `StreamInfo` of src/concertpvr/ytdlp.py.
pub record Info : Type 0 where
  pub youtube_id : Text
  pub url : Text
  pub title : Text
  pub channel_name : Text
  pub is_live : Bool
  pub thumbnail_url : Option Text
  pub original_upload_date : Option Date
  pub description : Option Text
  pub tags : Option (List Text)
  pub chapters : Option (List Chapter)

pub record Tools : Type 0 where
  -- `probe(url, cookies_path)`, or the text of a `ProbeError`.
  pub probe : Text → Option Text → String ⊎ Info
  -- The comments of a video, or nothing where yt-dlp raises or gives no list.
  pub comments : Text → Option Text → Option (List Comment)
  -- The titles that setlist.fm has for an artist on a day, or nothing.
  pub lookup_setlist : Text → Date → Text → Option (List Text)
  pub now : ℕ
  pub staging_dir : Text
  pub fresh : List ℕ → ℕ

abbrev pub Found : Type 0
Found = Option (Text × SetlistSource)

abbrev pub first_watcher : (ChannelWatcher → Bool) → Table ChannelWatcher → Option ChannelWatcher
first_watcher p [] = none
first_watcher p ((_, w) ∷ t) = if p w then some w else first_watcher p t

-- The watcher of a video by its URL, or else by the name of its channel, if it has the flag.
unfoldable pub watcher_of :
    (ChannelWatcher → Bool) → Info → Table ChannelWatcher → Option ChannelWatcher
watcher_of flag info t = or_else (first_watcher (λ w. text_eq w.channel_url info.url && flag w) t) (
    if is_empty info.channel_name
    then none
    else first_watcher (λ w. text_eq w.channel_name info.channel_name && flag w) t)

unfoldable pub from_video : Info → Found
unfolding detect_in_chapters detect_in_description
from_video info = elim (detect_in_chapters info.chapters) [
  | some _ ↦ some ([], chapters)
  | none ↦ elim (detect_in_description info.description) [
    | none ↦ none
    | some d ↦ some (d.raw_text, description)
  ]
]

-- `"\n".join(titles)`
unfoldable pub join_lines : List Text → Text
join_lines [] = []
join_lines (s ∷ []) = s
join_lines (s ∷ t ∷ ts) = s ++ (10 ∷ join_lines (t ∷ ts))

abbrev pub key_of : Option Settings → Option Text
key_of none = none
key_of (some row) = row.setlistfm_api_key

unfoldable pub from_titles : Option (List Text) → Found
unfolding join_lines
from_titles none = none
from_titles (some []) = none
from_titles (some (s ∷ ss)) = some (join_lines (s ∷ ss), setlistfm)

module _ (t : Tools) where
  unfoldable pub from_comments : Info → Db → Found
  unfolding watcher_of detect_in_comments
  from_comments info db =
      elim (watcher_of (λ w. w.extract_setlist_from_comments) info db.watchers) [
        | none ↦ none
        | some w ↦ elim (detect_in_comments (t.comments info.url (cookies_of db.settings))) [
          | none ↦ none
          | some d ↦ some (d.raw_text, comments)
        ]
      ]

  unfoldable pub looked_up : Info → Date → Option Text → Found
  unfolding from_titles
  looked_up info day none = none
  looked_up info day (some []) = none
  looked_up info day (some (c ∷ s)) = from_titles (t.lookup_setlist info.channel_name day (c ∷ s))

  unfoldable pub from_setlistfm : Info → Db → Found
  unfolding watcher_of looked_up
  from_setlistfm info db = elim info.original_upload_date [
    | none ↦ none
    | some day ↦ elim (watcher_of (λ w. w.extract_setlist_from_setlistfm) info db.watchers) [
      | none ↦ none
      | some w ↦ looked_up info day (key_of db.settings)
    ]
  ]

  unfoldable pub setlist_of : Info → Db → Found
  unfolding from_video from_comments from_setlistfm
  setlist_of info db =
      if info.is_live
      then none
      else or_else (from_video info) (or_else (from_comments info db) (from_setlistfm info db))

  abbrev pub kind_of : Info → StreamKind
  kind_of info = if info.is_live then live else video

  abbrev pub unless_live : {A : Type 0} → Info → Option A → Option A
  unless_live info o = if info.is_live then none else o

  unfoldable pub stream_of : Info → Found → Stream
  stream_of info found = record {
    kind = kind_of info;
    youtube_id = info.youtube_id;
    url = info.url;
    title = info.title;
    channel_name = info.channel_name;
    thumbnail_url = info.thumbnail_url;
    original_upload_date = unless_live info info.original_upload_date;
    description = unless_live info info.description;
    youtube_tags = unless_live info info.tags;
    detected_setlist_text = elim found [ none ↦ none | some f ↦ some f.0 ];
    detected_setlist_source = elim found [ none ↦ none | some f ↦ some f.1 ];
    watcher_id = none;
  }

  -- A recording that waits for its download.
  abbrev pub waiting : ℕ → Info → Recording
  waiting stream_id info =
      let path = t.staging_dir ++ codes "/vod-" ++ info.youtube_id ++ codes ".%(ext)s" in
      record (live_recording stream_id t.now path false) { status = vod_queued }

  -- The new rows; the key of the recording for a video.
  unfoldable pub add_rows : Info → Found → Db → Option ℕ × Db
  unfolding stream_of
  add_rows info found db =
      let sid = t.fresh (keys db.streams) in
      let rid = t.fresh (keys db.recordings) in
      let db1 = record db { streams = insert sid (stream_of info found) db.streams } in
      if info.is_live
      then (none, db1)
      else (some rid, record db1 { recordings = insert rid (waiting sid info) db.recordings })

  -- The second `with` block: a video that has a stream is refused. The new row, and the key of its
  -- recording if there is one.
  unfoldable pub added : Info → Found → Action Db (Stream × Option ℕ)
  unfolding add_rows stream_by_youtube_id stream_of
  added info found db =
      if is_some (stream_by_youtube_id info.youtube_id db.streams)
      then (err (http 409 "stream already added"), db)
      else let (rec_id, db') = add_rows info found db in (ok (stream_of info found, rec_id), db')

  -- The queue is told of the recording after the rows are committed.
  unfoldable pub enqueued : Option ℕ → World → World
  unfolding enqueue
  enqueued none w = w
  enqueued (some id) w = record w { queue = enqueue id w.queue }

  unfoldable pub create_from : Info → Action World Stream
  unfolding added setlist_of enqueued
  create_from info w =
      let (r, db) = added info (setlist_of info w.db) w.db in
      elim r [
        | ok (st, rec_id) ↦ (ok st, enqueued rec_id (record w { db = db }))
        | err e ↦ (err e, record w { db = db })
      ]

  -- A `ProbeError` becomes an HTTP error with its text.
  abbrev pub answered : String ⊎ Info → Action World Stream
  answered (inl text) w = (err (http 400 text), w)
  answered (inr info) w = create_from info w

  -- The row of the new stream.
  unfoldable pub create_stream : Text → Action World Stream
  create_stream url w = answered (t.probe url (cookies_of w.db.settings)) w
